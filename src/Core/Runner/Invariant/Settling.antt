-- ===== src/Core/Runner/Invariant/Settling.antt =====
-- What the end of a node's work leaves alone, up to the release of the node.
use zen_agent.Common.{
  ◌≡◌, refl, ap, ◌∙◌, String, Bool, true, false, List, [], ◌∷◌, arith, Bool-cases, inl, inr,
  Distinct, ◌==◌, text_equality,
}
use zen_agent.Common.Assoc.{get, get-modify, keys, keys-modify-Distinct}
use zen_agent.Core.Graph.{Edge}
use zen_agent.Core.Runner.{NodeActivation, idle_node, dispatchable, receive, Impl, CheckpointPolicy}
use zen_agent.Core.Runner.{node_end}
use zen_agent.Core.Runner.Machine.{
  Cancelled, before_end, before_log, before_fan_out, before_checkpoint, not_yet, send_out,
  checkpoint_node, Ending, produced, raised, Setup, emit, deliver, fan_out, note_terminal,
  maybe_write_checkpoint, settle_node, has_outgoing, writes, log_completed,
}
use zen_agent.Core.Runner.Invariant.Flight.{bit, flights, flights-modify}
use zen_agent.Core.Runner.Invariant.Ready.{receive-in_flight, receive-dispatchable}

pub record Frame {S X : Type 0} (a b : Impl S X) : Type 0 where
  pub count : b.in_flight_count ≡ a.in_flight_count
  pub total : flights b.activations ≡ flights a.activations
  pub flight :
      (j : String)
      → (get j idle_node b.activations).in_flight ≡ (get j idle_node a.activations).in_flight
  pub ready :
      (j : String)
      → dispatchable (get j idle_node a.activations) ≡ true
      → dispatchable (get j idle_node b.activations) ≡ true
  pub distinct : Distinct (keys a.activations) → Distinct (keys b.activations)

module _ {S X : Type 0} where
  -- Nothing of the activations changed.
  Frame-same :
      (a b : Impl S X)
      → b.in_flight_count ≡ a.in_flight_count
      → b.activations ≡ a.activations
      → Frame a b
  Frame-same a b c e = record {
    count = c;
    total = ap flights e;
    flight = λ j. ap (λ (m : List (String × NodeActivation S)). (get j idle_node m).in_flight) e;
    ready = λ j h.
        ap (λ (m : List (String × NodeActivation S)). dispatchable (get j idle_node m)) e ∙ h;
    distinct = λ d. rw e d;
  }

  Frame-trans : (a b c : Impl S X) → Frame a b → Frame b c → Frame a c
  Frame-trans a b c f g = record {
    count = g.count ∙ f.count;
    total = g.total ∙ f.total;
    flight = λ j. g.flight j ∙ f.flight j;
    ready = λ j h. g.ready j (f.ready j h);
    distinct = λ d. g.distinct (f.distinct d);
  }

  deliver-Frame : (e : Edge) (out : S) (st : Impl S X) → Frame st (deliver e out st)
  unfolding deliver emit
  deliver-Frame e out st = record {
    count = refl;
    total = omega (
      arith,
      flights-modify e.to (receive e out) st.activations,
      ap bit (receive-in_flight e out (get e.to idle_node st.activations)),
    );
    flight = λ j. ground (
      arith,
      get-modify e.to j idle_node (receive e out) st.activations,
      receive-in_flight e out (get e.to idle_node st.activations),
      text_equality.same_iff j e.to,
    );
    ready = λ j h. ground (
      arith,
      get-modify e.to j idle_node (receive e out) st.activations,
      receive-dispatchable e out (get e.to idle_node st.activations),
      text_equality.same_iff j e.to,
      h,
    );
    distinct = keys-modify-Distinct e.to idle_node (receive e out) st.activations;
  }

  fan_out-Frame :
      (id : String) (out : S) (es : List Edge) (st : Impl S X) → Frame st (fan_out id out es st)
  unfolding fan_out
  fan_out-Frame id out [] st = Frame-same st st refl refl
  fan_out-Frame id out (e ∷ es) st = elim (Bool-cases (e.from == id)) [
    | inl t ↦ rw t (
        Frame-trans st (deliver e out st) _ (deliver-Frame e out st)
          (fan_out-Frame id out es (deliver e out st)))
    | inr f ↦ rw f (fan_out-Frame id out es st)
  ]

  note_terminal-Frame : (b : Bool) (out : S) (st : Impl S X) → Frame st (note_terminal b out st)
  unfolding note_terminal
  note_terminal-Frame true out st = Frame-same st st refl refl
  note_terminal-Frame false out st = Frame-same st _ refl refl

  maybe_write_checkpoint-Frame :
      (p : CheckpointPolicy) (out : S) (t : Bool) (st : Impl S X)
      → Frame st (maybe_write_checkpoint p out t st)
  unfolding maybe_write_checkpoint
  maybe_write_checkpoint-Frame p out t st = elim (Bool-cases (writes p t)) [
    | inl w ↦ rw w (Frame-same st _ refl refl)
    | inr n ↦ rw n (Frame-same st st refl refl)
  ]

  -- A node that is logged and sends its output.
  sent : Setup S → String → S → Impl S X → Impl S X
  unfolding send_out log_completed emit
  sent o id out st = send_out o id out (log_completed id (emit (node_end id false false) st))

  sent-Frame : (o : Setup S) (id : String) (out : S) (st : Impl S X) → Frame st (sent o id out st)
  unfolding sent send_out log_completed emit
  sent-Frame o id out st =
      let logged = log_completed id (emit (node_end id false false) st) in
      let fanned = fan_out id out o.graph.edges logged in
      Frame-trans st logged _ (Frame-same st logged refl refl) (
        Frame-trans logged fanned _ (fan_out-Frame id out o.graph.edges logged)
          (note_terminal-Frame (has_outgoing id o.graph.edges) out fanned))

  -- Settling a node keeps every other node's flight and readiness.
  pub settle_node-Frame :
      (o : Setup S) (id : String) (ending : Ending S X) (cancelled : Cancelled) (st : Impl S X)
      → Frame st (settle_node o id ending cancelled st)
  unfolding settle_node sent checkpoint_node
  settle_node-Frame o id (raised x) c st = Frame-same st _ refl refl
  settle_node-Frame o id (produced out) before_end st = Frame-same st _ refl refl
  settle_node-Frame o id (produced out) before_log st = Frame-same st _ refl refl
  settle_node-Frame o id (produced out) before_fan_out st = Frame-same st _ refl refl
  settle_node-Frame o id (produced out) before_checkpoint st = sent-Frame o id out st
  settle_node-Frame o id (produced out) not_yet st =
      Frame-trans st (sent o id out st) _ (sent-Frame o id out st)
        (maybe_write_checkpoint-Frame o.policy out _ (sent o id out st))
