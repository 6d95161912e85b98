-- ===== src/Core/Runner/Invariant/Begin.antt =====
-- The invariant at the start of a run of a compiled graph.
use zen_agent.Common.{
  ◌≡◌, refl, ap, sym, String, true, false, List, [], ◌∷◌, ◌++◌, arith, Bool-cases, inl, inr, ◌⊎◌,
  In, Distinct, ◌==◌, text_equality,
}
use zen_agent.Common.Assoc.{get, modify, get-modify, keys, keys-modify-Distinct}
use zen_agent.Core.Graph.{Edge, GraphBuilder, ok, build, ids_of}
use zen_agent.Core.Graph.Correct.{entry_ids-Distinct}
use zen_agent.Core.Runner.{
  NodeActivation, idle_node, count_edge, count_edges, emplace_nodes, dispatchable, is_empty,
  node_ready,
}
use zen_agent.Core.Runner.Machine.{Setup, Machine}
use zen_agent.Core.Runner.Steps.{
  Activations, Reach, init_activations, push_input, seed, ready_entries, start,
}
use zen_agent.Core.Runner.Invariant.{Inv, Reach-Inv}
use zen_agent.Core.Runner.Invariant.Flight.{bit, flights, flights-modify, flights_zero}

-- Distinct ids, and nothing in flight.
record Quiet {S : Type 0} (m : Activations S) : Type 0 where
  distinct : Distinct (keys m)
  landed : flights m ≡ 0

module _ {S : Type 0} where
  modify-Quiet :
      (k : String) (f : NodeActivation S → NodeActivation S) (m : Activations S)
      → ((na : NodeActivation S) → (f na).in_flight ≡ na.in_flight)
      → Quiet m
      → Quiet (modify k idle_node f m)
  modify-Quiet k f m h q = record {
    distinct = keys-modify-Distinct k idle_node f m q.distinct;
    landed = omega (arith, q.landed, flights-modify k f m, ap bit (h (get k idle_node m)));
  }

  emplace_nodes-Quiet :
      (is : List String) (m : Activations S) → Quiet m → Quiet (emplace_nodes is m)
  unfolding emplace_nodes
  emplace_nodes-Quiet [] m q = q
  emplace_nodes-Quiet (i ∷ is) m q =
      emplace_nodes-Quiet is _ (modify-Quiet i (λ na. na) m (λ na. refl) q)

  count_edges-Quiet : (es : List Edge) (m : Activations S) → Quiet m → Quiet (count_edges es m)
  unfolding count_edges
  count_edges-Quiet [] m q = q
  count_edges-Quiet (e ∷ es) m q =
      count_edges-Quiet es _ (modify-Quiet e.to (count_edge e) m (λ na. refl) q)

  seed-Quiet : (s : S) (is : List String) (m : Activations S) → Quiet m → Quiet (seed s is m)
  unfolding seed push_input
  seed-Quiet s [] m q = q
  seed-Quiet s (i ∷ is) m q = seed-Quiet s is _ (modify-Quiet i (push_input s) m (λ na. refl) q)

  is_empty-push :
      (s : S) (na : NodeActivation S) → is_empty (push_input s na).pending_inputs ≡ false
  unfolding push_input
  is_empty-push s na = go na.pending_inputs
    where
      go : (ss : List S) → is_empty (ss ++ s ∷ []) ≡ false
      go [] = refl
      go (x ∷ ss) = refl

  -- A node that was seeded, or had an input before, has one.
  seed-pending :
      (s : S) (is : List String) (m : Activations S) (j : String)
      → In j is ⊎ (is_empty (get j idle_node m).pending_inputs ≡ false)
      → is_empty (get j idle_node (seed s is m)).pending_inputs ≡ false
  unfolding seed
  seed-pending s [] m j (inl i) = absurd i
  seed-pending s [] m j (inr h) = h
  seed-pending s (i ∷ is) m j h =
      seed-pending s is (modify i idle_node (push_input s) m) j (elim (Bool-cases (j == i)) [
        | inl same ↦ inr (
            rw (get-modify i j idle_node (push_input s) m, same)
              (is_empty-push s (get i idle_node m)))
        | inr other ↦ elim h [
          | inl (inl e) ↦ absurd (cc (other, (text_equality.same_iff j i).1 e))
          | inl (inr t) ↦ inl t
          | inr p ↦ inr (rw (get-modify i j idle_node (push_input s) m, other) p)
        ]
      ])

  In-ready_entries :
      (is : List String) (m : Activations S) (j : String)
      → In j (ready_entries is m)
      → In j is × (node_ready (get j idle_node m) ≡ true)
  unfolding ready_entries
  In-ready_entries [] m j i = absurd i
  In-ready_entries (k ∷ is) m j i = elim (Bool-cases (node_ready (get k idle_node m))) [
    | inl e ↦ elim (rw e at i) [
      | inl h ↦ (inl h, rw h e)
      | inr t ↦ let (a, b) = In-ready_entries is m j t in (inr a, b)
    ]
    | inr e ↦ let (a, b) = In-ready_entries is m j (rw e at i) in (inr a, b)
  ]

  ready_entries-Distinct :
      (is : List String) (m : Activations S) → Distinct is → Distinct (ready_entries is m)
  unfolding ready_entries
  ready_entries-Distinct [] m d = tt
  ready_entries-Distinct (k ∷ is) m d = elim (Bool-cases (node_ready (get k idle_node m))) [
    | inl e ↦ rw e (λ i. d.0 (In-ready_entries is m k i).0, ready_entries-Distinct is m d.1)
    | inr e ↦ rw e (ready_entries-Distinct is m d.1)
  ]

  []-Quiet : Quiet {S = S} []
  unfolding flights
  []-Quiet = record { distinct = tt; landed = refl }

  dispatchable_of :
      (na : NodeActivation S)
      → na.in_flight ≡ false
      → is_empty na.pending_inputs ≡ false
      → node_ready na ≡ true
      → dispatchable na ≡ true
  unfolding dispatchable
  dispatchable_of na f p r = rw (f, p, r)

module _ {S X : Type 0} (o : Setup S) (initial : S) where
  -- A run of a graph that `Build` returned starts in a good state.
  pub start-Inv : (b : GraphBuilder) → (build b).1 ≡ ok o.graph → Inv o (start {X = X} o initial)
  unfolding start init_activations
  start-Inv b built =
      let q = seed-Quiet initial o.graph.entry_ids _ (
        count_edges-Quiet o.graph.edges _
          (emplace_nodes-Quiet (ids_of o.graph.nodes) [] []-Quiet)) in
      record {
        distinct = q.distinct;
        counted = sym q.landed;
        phase_ok = (
          ready_entries-Distinct o.graph.entry_ids _ (entry_ids-Distinct b o.graph built),
          λ j i.
              let acts = seed initial o.graph.entry_ids (init_activations o.graph []) in
              let (k, r) = In-ready_entries o.graph.entry_ids acts j i in
              dispatchable_of (get j idle_node acts) (flights_zero j acts q.landed)
                (seed-pending initial o.graph.entry_ids (init_activations o.graph []) j (inl k)) r,
        );
      }

  -- At every point of a run of a compiled graph: the counter of coroutines is the number of nodes
  -- in flight; the nodes about to be launched are distinct, and each is idle, has an input and has
  -- its groups satisfied; a run that has returned has no error, nothing in flight and nothing left
  -- to launch, and gives the terminal state; a run that threw threw the first error, with nothing
  -- in flight.
  pub run-Inv :
      (b : GraphBuilder) {m : Machine S X}
      → (build b).1 ≡ ok o.graph
      → Reach o (start o initial) m
      → Inv o m
  run-Inv b built r = Reach-Inv o (start-Inv b built) r
