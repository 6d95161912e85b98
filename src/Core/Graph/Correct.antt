-- ===== src/Core/Graph/Correct.antt =====
-- `Build` against the valid descriptions, and what it returns.
pub mod Index
pub mod Edges
pub mod Entries
use zen_agent.Common.{
  ℕ, ◌≡◌, refl, sym, ap, subst, ◌∙◌, ◌↔◌, ◌⊎◌, inl, inr, String, List, [], ◌∷◌, In, Option, none,
  some, arith, text_equality, Distinct, Bool-cases, inl, inr,
}
use zen_agent.Common.Assoc.{keys, contains}
use zen_agent.Core.Graph.{
  Node, Edge, GraphBuilder, Graph, Result, ok, err, GraphCompileError, no_entry_node, build,
  build_edges, check_entries, find_condition, check_endpoints, check_conditions, index_nodes,
  ids_of, entry_ids_of, has_g0_in, find_node, ◌>>=◌,
}
use zen_agent.Core.Graph.Valid.{IsValid, Describes, IsEntry, HasEndpoints, find_by_id}
use Index.{indexed, keys-indexed, index_nodes_sound, index_nodes_complete, fetch-lookup-indexed}
use Edges.{
  check_endpoints_sound, check_endpoints_complete, check_conditions_sound,
  check_conditions_complete,
}
use Entries.{In-IsEntry_iff, In-entry_ids_of}

-- The graph that a valid description compiles to.
unfoldable pub compiled : List Node → List Edge → Graph
compiled nodes edges = record {
  nodes = nodes;
  edges = edges;
  id_to_index = indexed 0 nodes;
  entry_ids = entry_ids_of (has_g0_in edges) (ids_of nodes);
}

-- The steps of a successful `Build`.
record Succeeds (b : GraphBuilder) (g : Graph) : Type 0 where
  table : index_nodes 0 b.nodes [] ≡ ok (indexed 0 b.nodes)
  endpoints : check_endpoints (indexed 0 b.nodes) b.edges ≡ ok tt
  conditions : check_conditions [] b.edges ≡ ok tt
  entries : check_entries (compiled b.nodes b.edges) ≡ ok g

build_edges_inv :
    (nodes : List Node) (edges : List Edge) (m : List (String × ℕ)) {g : Graph}
    → build_edges nodes edges m ≡ ok g
    → (check_endpoints m edges ≡ ok tt)
      × (check_conditions [] edges ≡ ok tt)
      × (check_entries (record (compiled nodes edges) { id_to_index = m }) ≡ ok g)
unfolding build_edges compiled
build_edges_inv nodes edges m {g} h =
    go (check_endpoints m edges) (check_conditions [] edges) refl refl h
  where
    go :
        (r s : Result (Unit {0}))
        → check_endpoints m edges ≡ r
        → check_conditions [] edges ≡ s
        → (r >>= λ _. s >>= λ _. check_entries (record (compiled nodes edges) { id_to_index = m }))
          ≡ ok g
        → (check_endpoints m edges ≡ ok tt)
          × (check_conditions [] edges ≡ ok tt)
          × (check_entries (record (compiled nodes edges) { id_to_index = m }) ≡ ok g)
    go (ok u) (ok v) p q h = (p, q, h)
    go (ok u) (err e) p q h = absurd (cc h)
    go (err e) s p q h = absurd (cc h)

build_inv : (b : GraphBuilder) {g : Graph} → (build b).1 ≡ ok g → Succeeds b g
unfolding build compiled
build_inv b {g} h = go (index_nodes 0 b.nodes []) refl
  where
    go : (r : Result (List (String × ℕ))) → index_nodes 0 b.nodes [] ≡ r → Succeeds b g
    go (err e) p = absurd (cc (rw (p, build) at h))
    go (ok m) p =
        let (_, t) = index_nodes_sound b.nodes p in
        let (e, c, n) = build_edges_inv b.nodes b.edges m (rw (p, build) at h) in
        record { table = rw (← t) p; endpoints = rw (← t) e; conditions = c; entries = rw (← t) n }

check_entries_inv :
    (g h : Graph) → check_entries g ≡ ok h → (g ≡ h) × ((i : String) × In i g.entry_ids)
unfolding check_entries
check_entries_inv g h e = go g.entry_ids refl
  where
    go : (l : List String) → g.entry_ids ≡ l → (g ≡ h) × ((i : String) × In i g.entry_ids)
    go [] p = absurd (cc (rw (p, check_entries) at e))
    go (x ∷ l) p = (cc (rw (p, check_entries) at e), (x, rw p (inl refl)))

build_sound : (b : GraphBuilder) (g : Graph) → (build b).1 ≡ ok g → IsValid b
unfolding compiled
build_sound b g h =
    let s = build_inv b h in
    let (_, (i, j)) = check_entries_inv _ g s.entries in
    let (k, z) = (In-IsEntry_iff b.edges (ids_of b.nodes) i).0 j in
    record {
      distinct = (index_nodes_sound b.nodes s.table).0;
      endpoints = λ e n. rw keys-indexed at (check_endpoints_sound _ b.edges s.endpoints e n);
      consistent = check_conditions_sound [] b.edges s.conditions;
      entry = (i, k, z);
    }

check_entries_complete : (g : Graph) (i : String) → In i g.entry_ids → check_entries g ≡ ok g
unfolding check_entries
check_entries_complete g i j = go g.entry_ids refl j
  where
    go : (l : List String) → g.entry_ids ≡ l → In i l → check_entries g ≡ ok g
    go [] p j = absurd j
    go (x ∷ l) p j = ground (arith, p)

build_complete : (b : GraphBuilder) → IsValid b → (build b).1 ≡ ok (compiled b.nodes b.edges)
unfolding build build_edges compiled find_condition
build_complete b v =
    let (i, j, z) = v.entry in
    rw
      (
        build,
        index_nodes_complete b.nodes v.distinct,
        build_edges,
        check_endpoints_complete (indexed 0 b.nodes) b.edges
            (λ e n. rw keys-indexed (v.endpoints e n)),
        check_conditions_complete [] b.edges (λ e i c h. absurd (cc h)) v.consistent,
      )
      (check_entries_complete _ i ((In-IsEntry_iff b.edges (ids_of b.nodes) i).1 (j, z)))

-- `Build` returns a graph if and only if the ids are distinct, every edge joins known nodes, the
-- edges of one group of a node agree on the condition, and some node has no edge of group 0 into it.
pub build-ok_iff : (b : GraphBuilder) → IsValid b ↔ ((g : Graph) × ((build b).1 ≡ ok g))
build-ok_iff b = (λ v. (compiled b.nodes b.edges, build_complete b v), λ h. build_sound b h.0 h.1)

-- Of a description that compiles: the graph has its nodes and edges, the entry ids are exactly
-- the ids with no edge of group 0 into them, and `FindNode` finds the first node with the id.
pub build_result : (b : GraphBuilder) (g : Graph) → (build b).1 ≡ ok g → Describes b g
unfolding compiled find_node
build_result b g h =
    let (e, _) = check_entries_inv _ g (build_inv b h).entries in
    subst (Describes b) e (record {
      same_nodes = refl;
      same_edges = refl;
      entries = In-IsEntry_iff b.edges (ids_of b.nodes);
      finds = λ i. fetch-lookup-indexed i b.nodes;
    })

entry_ids_of-Distinct : (ts ids : List String) → Distinct ids → Distinct (entry_ids_of ts ids)
unfolding entry_ids_of
entry_ids_of-Distinct ts [] d = tt
entry_ids_of-Distinct ts (x ∷ ids) d = elim (Bool-cases (contains ts x)) [
  | inl t ↦ rw t (entry_ids_of-Distinct ts ids d.1)
  | inr f ↦ rw f (λ i. d.0 ((In-entry_ids_of ts ids x).0 i).0, entry_ids_of-Distinct ts ids d.1)
]

-- No entry node comes twice.
pub entry_ids-Distinct : (b : GraphBuilder) (g : Graph) → (build b).1 ≡ ok g → Distinct g.entry_ids
unfolding compiled
entry_ids-Distinct b g h =
    let (e, _) = check_entries_inv _ g (build_inv b h).entries in
    subst (λ (r : Graph). Distinct r.entry_ids) e
      (entry_ids_of-Distinct (has_g0_in b.edges) (ids_of b.nodes) (build_sound b g h).distinct)
