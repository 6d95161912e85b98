-- ===== src/Core/Runner/Outcome.antt =====
-- What a whole run reports: its log of completed nodes, and its first error.
use zen_agent.Common.{
  ℕ, zero, suc, ◌≡◌, ◌≢◌, refl, ap, subst, ◌∙◌, sym, String, true, false, List, [], ◌∷◌, Option,
  none, some, eqb, Bool-cases, inl, inr, text_equality,
}
use zen_agent.Core.Graph.{GraphBuilder, ok, build}
use zen_agent.Core.Runner.{graph_done}
use zen_agent.Core.Runner.Machine.{
  before_log, Phase, draining, waiting, returned, threw, Machine, Setup, settle_node, release,
  finish, ready_now, conclude, settle, woken, main_step, advance,
}
use zen_agent.Core.Runner.Steps.{Step, loop, ends, Reach, here, next, start}
use zen_agent.Core.Runner.Invariant.{PhaseOk}
use zen_agent.Core.Runner.Invariant.Begin.{run-Inv}
use zen_agent.Core.Runner.History.{
  successes, Follows, Follows-same, Follows-refl, Follows-trans, emit-Follows, launch-Follows,
  settle_node-Follows, Keeps, settle_node-Keeps,
}

module _ {S X : Type 0} (o : Setup S) where
  conclude-Follows : (e : Option X) (m : Machine S X) → Follows m.impl (conclude o e m).impl
  unfolding conclude
  conclude-Follows none m = emit-Follows (graph_done false) m.impl refl
  conclude-Follows (some x) m = emit-Follows (graph_done true) m.impl refl

  settle-Follows : (q : List String) (m : Machine S X) → Follows m.impl (settle o q m).impl
  unfolding settle
  settle-Follows (i ∷ is) m = Follows-refl m.impl
  settle-Follows [] m = elim (Bool-cases (eqb m.impl.in_flight_count 0)) [
    | inl z ↦ rw z (conclude-Follows m.impl.first_error m)
    | inr z ↦ rw z (Follows-refl m.impl)
  ]

  woken-Follows : (e : Option X) (m : Machine S X) → Follows m.impl (woken o e m).impl
  unfolding woken
  woken-Follows none m = Follows-refl m.impl
  woken-Follows (some x) m = elim (Bool-cases (eqb m.impl.in_flight_count 0)) [
    | inl z ↦ rw z (conclude-Follows (some x) m)
    | inr z ↦ rw z (Follows-refl m.impl)
  ]

  main_step-Follows : (p : Phase S X) (m : Machine S X) → Follows m.impl (main_step o p m).impl
  unfolding main_step
  main_step-Follows (draining (i ∷ is)) m = launch-Follows i m.impl
  main_step-Follows (draining []) m = settle-Follows (ready_now m.impl) m
  main_step-Follows waiting m = go m.signals
    where
      go :
          (n : ℕ)
          → Follows m.impl
              (elim n as (λ _. Machine S X) [
                | zero ↦ m
                | suc k ↦ woken o m.impl.first_error (record m { signals = k })
              ]).impl
      go zero = Follows-refl m.impl
      go (suc k) = woken-Follows m.impl.first_error (record m { signals = k })
  main_step-Follows (returned s) m = Follows-refl m.impl
  main_step-Follows (threw x) m = Follows-refl m.impl

  Step-Keeps : {m m' : Machine S X} → Step o m m' → Keeps m.impl m'.impl
  unfolding advance finish release
  Step-Keeps (loop m) = (main_step-Follows m.phase m).kept
  Step-Keeps (ends m id ending cancelled f) = settle_node-Keeps o id ending cancelled m.impl

  Reach-Keeps : (m : Machine S X) {m' : Machine S X} → Reach o m m' → Keeps m.impl m'.impl
  Reach-Keeps m here = λ x h. h
  Reach-Keeps m (next r s) = λ x h. Step-Keeps s x (Reach-Keeps m r x h)

  -- The token is not cancelled between the NODE_END event of a node and the log.
  abbrev pub UncutStep : {m m' : Machine S X} → Step o m m' → Type 0
  UncutStep (loop m) = Unit
  UncutStep (ends m id ending cancelled f) = cancelled ≢ before_log

  abbrev pub Uncut : {m m' : Machine S X} → Reach o m m' → Type 0
  Uncut here = Unit
  Uncut (next r s) = Uncut r × UncutStep s

  Step-Follows : {m m' : Machine S X} (s : Step o m m') → UncutStep s → Follows m.impl m'.impl
  unfolding advance finish release
  Step-Follows (loop m) u = main_step-Follows m.phase m
  Step-Follows (ends m id ending cancelled f) u =
      Follows-trans m.impl (settle_node o id ending cancelled m.impl) _
        (settle_node-Follows o id ending cancelled m.impl u) (Follows-same _ _ refl refl refl)

  Reach-Follows :
      (m : Machine S X) {m' : Machine S X} (r : Reach o m m') → Uncut r → Follows m.impl m'.impl
  Reach-Follows m here u = Follows-refl m.impl
  Reach-Follows m (next {a} {b} r s) u =
      Follows-trans m.impl a.impl b.impl (Reach-Follows m r u.0) (Step-Follows s u.1)

  Reach-trans : {a b c : Machine S X} → Reach o a b → Reach o b c → Reach o a c
  Reach-trans r here = r
  Reach-trans r (next q s) = next (Reach-trans r q) s

  -- At every point of a run whose token is never cancelled between the NODE_END event of a node
  -- and the log, the log of completed nodes, which checkpoints carry, is the list of the nodes
  -- that ended neither failed nor cancelled, in the order of their NODE_END events.
  pub completed-successes :
      (initial : S) {m : Machine S X} (r : Reach o (start o initial) m)
      → Uncut r
      → m.impl.completed_node_ids ≡ successes m.impl.trace
  unfolding start
  completed-successes initial r u =
      let f = Reach-Follows (start o initial) r u in f.logged ∙ sym (ap successes f.traced)

  -- Once an error is recorded in a run of a compiled graph, the run never returns a state, and if
  -- it ends it throws that very error.
  pub failed_run :
      (b : GraphBuilder) (initial : S) (x : X) {m m' : Machine S X}
      → (build b).1 ≡ ok o.graph
      → Reach o (start o initial) m
      → m.impl.first_error ≡ some x
      → Reach o m m'
      → ((s : S) → m'.phase ≢ returned s) × ((y : X) → m'.phase ≡ threw y → y ≡ x)
  failed_run b initial x {m} {m'} built r e s =
      let kept = Reach-Keeps m s x e in
      let v = run-Inv o initial b built (Reach-trans r s) in
      (
        λ t p. cc (kept, (subst (λ (q : Phase S X). PhaseOk o q m'.impl) p v.phase_ok).1),
        λ y p. cc (kept, (subst (λ (q : Phase S X). PhaseOk o q m'.impl) p v.phase_ok).1),
      )
