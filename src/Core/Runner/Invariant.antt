-- ===== src/Core/Runner/Invariant.antt =====
-- The invariant of a run: the counter of coroutines, the list of nodes still to be launched, and
-- how the run stands when it is over.
pub mod Flight
mod Ready
mod Settling
pub mod Begin
use zen_agent.Common.{
  ℕ, zero, suc, ◌+◌, ◌-◌, ◌≡◌, ◌≢◌, refl, ap, subst, ◌∙◌, sym, String, Bool, true, false, not, List,
  [], ◌∷◌, ◌++◌, arith, if◌then◌else◌, Bool-cases, inl, inr, ◌⊎◌, In, Distinct, ◌==◌, text_equality,
  Option, none, some, eqb, eqb_iff,
}
use zen_agent.Common.Assoc.{get, modify, get-modify, keys, keys-modify-Distinct}
use zen_agent.Core.Runner.{NodeActivation, idle_node, dispatchable, fire, Impl}
use zen_agent.Core.Runner.Machine.{
  Cancelled, Ending, Phase, draining, waiting, returned, threw, Machine, Setup, emit, settle_node,
  launch, release, finish, next_ids, ready_now, terminal_or, conclude, settle, woken, main_step,
  advance,
}
use zen_agent.Core.Runner.Steps.{Activations, Step, loop, ends, Reach, here, next}
use Flight.{bit, flights, flights-modify, flights_zero}
use Settling.{Frame, settle_node-Frame}

-- Each node on the list can be launched, and stands there once.
abbrev pub CanLaunch : {S : Type 0} → List String → Activations S → Type 0
CanLaunch q acts = Distinct q × ((j : String) → In j q → dispatchable (get j idle_node acts) ≡ true)

abbrev pub PhaseOk : {S X : Type 0} → Setup S → Phase S X → Impl S X → Type 0
PhaseOk o (draining q) st = CanLaunch q st.activations
PhaseOk o waiting st = Unit
PhaseOk o (returned s) st =
    (st.in_flight_count ≡ 0)
    × (st.first_error ≡ none)
    × (ready_now st ≡ [])
    × (s ≡ terminal_or o.empty_state st.terminal_state)
PhaseOk o (threw x) st = (st.in_flight_count ≡ 0) × (st.first_error ≡ some x)

pub record Inv {S X : Type 0} (o : Setup S) (m : Machine S X) : Type 0 where
  pub distinct : Distinct (keys m.impl.activations)
  pub counted : m.impl.in_flight_count ≡ flights m.impl.activations
  pub phase_ok : PhaseOk o m.phase m.impl

dispatchable-in_flight :
    {S : Type 0} (na : NodeActivation S) → dispatchable na ≡ true → na.in_flight ≡ false
unfolding dispatchable
dispatchable-in_flight na h = ground arith

module _ {S : Type 0} where
  pub In-next_ids :
      (j : String) (is : List String) (acts : Activations S)
      → In j (next_ids is acts)
      → In j is × (dispatchable (get j idle_node acts) ≡ true)
  unfolding next_ids
  In-next_ids j [] acts i = absurd i
  In-next_ids j (k ∷ is) acts i = elim (Bool-cases (dispatchable (get k idle_node acts))) [
    | inl e ↦ elim (rw e at i) [
      | inl h ↦ (inl h, rw h e)
      | inr t ↦ let (a, b) = In-next_ids j is acts t in (inr a, b)
    ]
    | inr e ↦ let (a, b) = In-next_ids j is acts (rw e at i) in (inr a, b)
  ]

  next_ids-Distinct :
      (is : List String) (acts : Activations S) → Distinct is → Distinct (next_ids is acts)
  unfolding next_ids
  next_ids-Distinct [] acts d = tt
  next_ids-Distinct (k ∷ is) acts d = elim (Bool-cases (dispatchable (get k idle_node acts))) [
    | inl e ↦ rw e (λ i. d.0 (In-next_ids k is acts i).0, next_ids-Distinct is acts d.1)
    | inr e ↦ rw e (next_ids-Distinct is acts d.1)
  ]

  next_ids-CanLaunch :
      (is : List String) (acts : Activations S) → Distinct is → CanLaunch (next_ids is acts) acts
  next_ids-CanLaunch is acts d = (next_ids-Distinct is acts d, λ j i. (In-next_ids j is acts i).1)

module _ {S X : Type 0} (o : Setup S) where
  launch-Inv :
      (m : Machine S X) (i : String) (is : List String)
      → Inv o m
      → m.phase ≡ draining (i ∷ is)
      → Inv o (record m { impl = launch i m.impl; phase = draining is })
  unfolding launch emit fire
  launch-Inv m i is v p =
      let (d, can) = subst (λ (q : Phase S X). PhaseOk o q m.impl) p v.phase_ok in
      let acts = m.impl.activations in
      let f = fire (get i [] m.impl.baseline) in
      record {
        distinct = keys-modify-Distinct i idle_node f acts v.distinct;
        counted = omega (
          arith,
          v.counted,
          flights-modify i f acts,
          ap bit (dispatchable-in_flight (get i idle_node acts) (can i (inl refl))),
        );
        phase_ok = (
          d.1,
          λ j k. ground (
            arith,
            get-modify i j idle_node f acts,
            text_equality.same_iff j i,
            can j (inr k),
            (λ (e : j ≡ i). d.0 (subst (λ z. In z is) e k)),
          ),
        );
      }

  -- The phase after a step that leaves the activations and the counter alone.
  phase-Inv :
      (m : Machine S X) (p : Phase S X)
      → Inv o m
      → PhaseOk o p m.impl
      → Inv o (record m { phase = p })
  phase-Inv m p v k = record { distinct = v.distinct; counted = v.counted; phase_ok = k }

  conclude-Inv :
      (m : Machine S X) (e : Option X)
      → Inv o m
      → m.impl.in_flight_count ≡ 0
      → m.impl.first_error ≡ e
      → (e ≡ none → ready_now m.impl ≡ [])
      → Inv o (conclude o e m)
  unfolding conclude emit ready_now
  conclude-Inv m none v z f q = record {
    distinct = v.distinct;
    counted = v.counted;
    phase_ok = (z, f, q refl, refl);
  }
  conclude-Inv m (some x) v z f q = record {
    distinct = v.distinct;
    counted = v.counted;
    phase_ok = (z, f);
  }

  settle-Inv :
      (m : Machine S X) (q : List String) → Inv o m → ready_now m.impl ≡ q → Inv o (settle o q m)
  unfolding settle
  settle-Inv m (i ∷ is) v e = phase-Inv m (draining (i ∷ is)) v (
      subst (λ l. CanLaunch l m.impl.activations) e
        (unfold ready_now in
          next_ids-CanLaunch (keys m.impl.activations) m.impl.activations v.distinct))
  settle-Inv m [] v e = elim (Bool-cases (eqb m.impl.in_flight_count 0)) [
    | inl z ↦ rw z (conclude-Inv m m.impl.first_error v ((eqb_iff _ 0).0 z) refl (λ _. e))
    | inr z ↦ rw z (phase-Inv m waiting v tt)
  ]

  woken-Inv :
      (m : Machine S X) (e : Option X) → Inv o m → m.impl.first_error ≡ e → Inv o (woken o e m)
  unfolding woken
  woken-Inv m none v f = phase-Inv m (draining []) v (tt, λ j i. absurd i)
  woken-Inv m (some x) v f = elim (Bool-cases (eqb m.impl.in_flight_count 0)) [
    | inl z ↦ rw z (conclude-Inv m (some x) v ((eqb_iff _ 0).0 z) f (λ n. absurd (cc n)))
    | inr z ↦ rw z (phase-Inv m (draining []) v (tt, λ j i. absurd i))
  ]

  main_step-Inv :
      (m : Machine S X) (p : Phase S X) → Inv o m → m.phase ≡ p → Inv o (main_step o p m)
  unfolding main_step
  main_step-Inv m (draining (i ∷ is)) v e = launch-Inv m i is v e
  main_step-Inv m (draining []) v e = settle-Inv m (ready_now m.impl) v refl
  main_step-Inv m waiting v e = go m.signals
    where
      go :
          (n : ℕ)
          → Inv o
              (elim n [ zero ↦ m | suc k ↦ woken o m.impl.first_error (record m { signals = k }) ])
      go zero = v
      go (suc k) =
          woken-Inv (record m { signals = k }) m.impl.first_error
            (record { distinct = v.distinct; counted = v.counted; phase_ok = v.phase_ok }) refl
  main_step-Inv m (returned s) v e = v
  main_step-Inv m (threw x) v e = v

  -- No node is in flight once a run is over.
  landed :
      (m : Machine S X) (id : String)
      → Inv o m
      → (get id idle_node m.impl.activations).in_flight ≡ true
      → m.impl.in_flight_count ≢ 0
  landed m id v f z = cc (f, flights_zero id m.impl.activations (sym v.counted ∙ z))

  finish-PhaseOk :
      (m : Machine S X) (id : String) (ending : Ending S X) (cancelled : Cancelled) (p : Phase S X)
      → Inv o m
      → (get id idle_node m.impl.activations).in_flight ≡ true
      → PhaseOk o p m.impl
      → PhaseOk o p (release id (settle_node o id ending cancelled m.impl))
  unfolding release
  finish-PhaseOk m id ending cancelled (draining q) v f (d, can) = (
    d,
    λ j k.
        let st = settle_node o id ending cancelled m.impl in
        let free = λ (na : NodeActivation S). record na { in_flight = false } in
        elim (Bool-cases (j == id)) [
          | inl same ↦
              let e = (text_equality.same_iff j id).0 same in
              absurd
                (cc (e, f, dispatchable-in_flight (get j idle_node m.impl.activations) (can j k)))
          | inr other ↦
              rw (get-modify id j idle_node free st.activations, other)
                ((settle_node-Frame o id ending cancelled m.impl).ready j (can j k))
        ],
  )
  finish-PhaseOk m id ending cancelled waiting v f k = tt
  finish-PhaseOk m id ending cancelled (returned s) v f k = absurd (landed m id v f k.0)
  finish-PhaseOk m id ending cancelled (threw x) v f k = absurd (landed m id v f k.0)

  finish-Inv :
      (m : Machine S X) (id : String) (ending : Ending S X) (cancelled : Cancelled)
      → Inv o m
      → (get id idle_node m.impl.activations).in_flight ≡ true
      → Inv o (finish o id ending cancelled m)
  unfolding finish release
  finish-Inv m id ending cancelled v f =
      let st = settle_node o id ending cancelled m.impl in
      let fr = settle_node-Frame o id ending cancelled m.impl in
      let free = λ (na : NodeActivation S). record na { in_flight = false } in
      record {
        distinct = keys-modify-Distinct id idle_node free st.activations (fr.distinct v.distinct);
        counted = omega (
          arith,
          v.counted,
          fr.count,
          fr.total,
          flights-modify id free st.activations,
          ap bit (fr.flight id ∙ f),
        );
        phase_ok = finish-PhaseOk m id ending cancelled m.phase v f v.phase_ok;
      }

  Step-Inv : {m m' : Machine S X} → Step o m m' → Inv o m → Inv o m'
  unfolding advance
  Step-Inv (loop m) v = main_step-Inv m m.phase v refl
  Step-Inv (ends m id ending cancelled f) v = finish-Inv m id ending cancelled v f

  pub Reach-Inv : {m m' : Machine S X} → Inv o m → Reach o m m' → Inv o m'
  Reach-Inv v here = v
  Reach-Inv v (next r s) = Step-Inv s (Reach-Inv v r)
