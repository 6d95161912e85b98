-- ===== src/Core/Graph/Errors.antt =====
-- What each `GraphCompileError` of `Build` says, and what a second `Build` does.
use zen_agent.Common.{
  is_some, ℕ, ◌≡◌, ◌≢◌, refl, sym, subst, ◌∙◌, ◌⊎◌, inl, inr, String, true, false, ◌&&◌, List, [],
  ◌∷◌, ◌++◌, In, some, arith, Bool-cases, Option-cases, text_equality, eqb, ◌==◌,
}
use zen_agent.Common.Assoc.{lookup, keys, lookup_of_In}
use zen_agent.Core.Graph.{
  Condition, all, any, same_condition, Edge, GraphBuilder, Graph, Result, ok, err,
  GraphCompileError, user_group_not_positive, duplicate_node_id, edge_references_unknown_node,
  conflicting_condition, no_entry_node, build, build_edges, check_entries, check_endpoints,
  ConditionMap, find_condition, check_condition, check_conditions, index_nodes, ids_of, ◌>>=◌,
}
use zen_agent.Core.Graph.Valid.{IsEntry, HasEndpoints}
use zen_agent.Core.Graph.Correct.{compiled, build-ok_iff}
use zen_agent.Core.Graph.Correct.Index.{indexed, keys-indexed, index_nodes_err, index_nodes_sound}
use zen_agent.Core.Graph.Correct.Entries.{In-IsEntry_iff}

-- The fault in the description that an error reports.
abbrev pub Explains : GraphBuilder → GraphCompileError → Type 0
Explains b user_group_not_positive = ⊥
Explains b (duplicate_node_id id) =
    (xs : List String) × (ys : List String) × (ids_of b.nodes ≡ xs ++ id ∷ ys) × In id xs
Explains b (edge_references_unknown_node from to) =
    (e : Edge) × In e b.edges × (e.from ≡ from) × (e.to ≡ to) × (¬ HasEndpoints (ids_of b.nodes) e)
Explains b (conflicting_condition to g) =
    (e : Edge) × (f : Edge) × In e b.edges
    × In f b.edges
    × ((e.to ≡ to) × (f.to ≡ to))
    × ((e.activation_group ≡ g) × (f.activation_group ≡ g))
    × (e.condition ≢ f.condition)
Explains b no_entry_node = (i : String) → In i (ids_of b.nodes) → ¬ IsEntry b.edges i

UnknownEnd : List (String × ℕ) → List Edge → GraphCompileError → Type 0
UnknownEnd m es why =
    (e : Edge) × In e es
    × (why ≡ edge_references_unknown_node e.from e.to)
    × (¬ HasEndpoints (keys m) e)

lookup_lost : (k : String) (m : List (String × ℕ)) → is_some (lookup k m) ≡ false → ¬ In k (keys m)
lookup_lost k m h i = cc (rw ((lookup_of_In k m i).1) at h)

check_endpoints_err :
    (m : List (String × ℕ)) (es : List Edge) {why : GraphCompileError}
    → check_endpoints m es ≡ err why
    → UnknownEnd m es why
unfolding check_endpoints UnknownEnd
check_endpoints_err m [] h = absurd (cc h)
check_endpoints_err m (f ∷ es) h = elim (Bool-cases (is_some (lookup f.from m))) [
  | inr lost ↦ (f, inl refl, cc (rw lost at h), λ e. lookup_lost f.from m lost e.0)
  | inl from ↦ elim (Bool-cases (is_some (lookup f.to m))) [
    | inr lost ↦ (f, inl refl, cc (rw (from, lost) at h), λ e. lookup_lost f.to m lost e.1)
    | inl to ↦ let (e, i, w, n) = check_endpoints_err m es (rw (from, to) at h) in (e, inr i, w, n)
  ]
]

-- Every condition in the map was put there by one of the edges.
Backed : List Edge → ConditionMap → Type 0
Backed es m =
    (t : String) (g : ℕ) (c : Condition)
    → find_condition t g m ≡ some c
    → (e : Edge) × In e es × (e.to ≡ t) × (e.activation_group ≡ g) × (e.condition ≡ c)

Conflict : List Edge → GraphCompileError → Type 0
Conflict es why =
    (e : Edge) × (f : Edge) × In e es
    × In f es
    × (why ≡ conflicting_condition f.to f.activation_group)
    × (e.to ≡ f.to)
    × (e.activation_group ≡ f.activation_group)
    × (e.condition ≢ f.condition)

same_condition_self : (c : Condition) → same_condition c c ≡ true
same_condition_self all = refl
same_condition_self any = refl

find_condition-back :
    (m : ConditionMap) (x : Edge) (t : String) (g : ℕ) (c : Condition)
    → find_condition t g (m ++ ((x.to, x.activation_group), x.condition) ∷ []) ≡ some c
    → (find_condition t g m ≡ some c) ⊎ ((x.to ≡ t) × (x.activation_group ≡ g) × (x.condition ≡ c))
unfolding find_condition
find_condition-back [] x t g c h = ground (arith, text_equality.same_iff t x.to)
find_condition-back (((u, k), d) ∷ m) x t g c h = elim (Bool-cases (t == u && eqb g k)) [
  | inl e ↦ inl (rw e (rw e at h))
  | inr e ↦ rw e (find_condition-back m x t g c (rw e at h))
]

Backed-snoc :
    (es : List Edge) (m : ConditionMap) (x : Edge)
    → In x es
    → Backed es m
    → Backed es (m ++ ((x.to, x.activation_group), x.condition) ∷ [])
unfolding Backed
Backed-snoc es m x i b t g c h = elim (find_condition-back m x t g c h) [
  | inl old ↦ b t g c old
  | inr (p, q, r) ↦ (x, i, p, q, r)
]

check_conditions_err :
    (all_edges : List Edge) (m : ConditionMap) (es : List Edge) {why : GraphCompileError}
    → Backed all_edges m
    → ((e : Edge) → In e es → In e all_edges)
    → check_conditions m es ≡ err why
    → Conflict all_edges why
unfolding check_conditions Backed Conflict
check_conditions_err all_edges m [] b sub h = absurd (cc h)
check_conditions_err all_edges m (x ∷ es) b sub h =
    elim (Option-cases (find_condition x.to x.activation_group m)) [
      | inl new ↦
          check_conditions_err all_edges _ es (Backed-snoc all_edges m x (sub x (inl refl)) b)
            (λ e i. sub e (inr i)) (rw (new, check_condition) at h)
      | inr (c, old) ↦ elim (Bool-cases (same_condition c x.condition)) [
        | inl same ↦
            check_conditions_err all_edges m es b (λ e i. sub e (inr i))
              (rw (old, check_condition, same) at h)
        | inr other ↦
            let (e, i, p, q, r) = b x.to x.activation_group c old in
            (
              e,
              x,
              i,
              sub x (inl refl),
              cc (rw (old, check_condition, other) at h),
              p,
              q,
              λ k. cc (other, r, k, same_condition_self c),
            )
      ]
    ]

check_entries_err :
    (g : Graph) {why : GraphCompileError}
    → check_entries g ≡ err why
    → (why ≡ no_entry_node) × (g.entry_ids ≡ [])
unfolding check_entries
check_entries_err g h = ground arith

UnknownEnd-Explains :
    (b : GraphBuilder) (why : GraphCompileError)
    → UnknownEnd (indexed 0 b.nodes) b.edges why
    → Explains b why
unfolding UnknownEnd
UnknownEnd-Explains b why (e, i, w, n) =
    subst (Explains b) (sym w) (e, i, refl, refl, rw keys-indexed at n)

Conflict-Explains :
    (b : GraphBuilder) (why : GraphCompileError) → Conflict b.edges why → Explains b why
unfolding Conflict
Conflict-Explains b why (e, f, i, j, w, p, q, n) =
    subst (Explains b) (sym w) (e, f, i, j, (p, refl), (q, refl), n)

no_entry-Explains :
    (b : GraphBuilder) {why : GraphCompileError}
    → check_entries (compiled b.nodes b.edges) ≡ err why
    → Explains b why
unfolding compiled
no_entry-Explains b h =
    let (w, n) = check_entries_err _ h in
    subst (Explains b) (sym w)
      (λ i j z. subst (In i) n ((In-IsEntry_iff b.edges (ids_of b.nodes) i).1 (j, z)))

build_edges_err :
    (b : GraphBuilder) {why : GraphCompileError}
    → build_edges b.nodes b.edges (indexed 0 b.nodes) ≡ err why
    → Explains b why
unfolding build_edges Backed find_condition compiled
build_edges_err b {why} h =
    go (check_endpoints (indexed 0 b.nodes) b.edges) (check_conditions [] b.edges) refl refl h
  where
    go :
        (r s : Result (Unit {0}))
        → check_endpoints (indexed 0 b.nodes) b.edges ≡ r
        → check_conditions [] b.edges ≡ s
        → (r >>= λ _. s >>= λ _. check_entries (compiled b.nodes b.edges)) ≡ err why
        → Explains b why
    go (ok u) (ok v) p q h = no_entry-Explains b h
    go (ok u) (err e) p q h =
        Conflict-Explains b why (
          check_conditions_err b.edges [] b.edges (λ t g c k. absurd (cc k)) (λ e i. i) (cc (q, h)))
    go (err e) s p q h = UnknownEnd-Explains b why (check_endpoints_err _ b.edges (cc (p, h)))

-- Every error of `Build` names a fault that the description has: an id that stands twice, an
-- edge with an unknown end, two edges of one group that disagree, or the lack of an entry node.
pub build-err :
    (b : GraphBuilder) (why : GraphCompileError) → (build b).1 ≡ err why → Explains b why
unfolding build
build-err b why h = go (index_nodes 0 b.nodes []) refl
  where
    go : (r : Result (List (String × ℕ))) → index_nodes 0 b.nodes [] ≡ r → Explains b why
    go (ok m) p =
        let (_, t) = index_nodes_sound b.nodes p in
        build_edges_err b (rw (← t) (rw (p, build) at h))
    go (err e) p =
        let (id, w, xs, ys, s, old) = index_nodes_err 0 b.nodes [] (p ∙ cc (rw (p, build) at h)) in
        subst (Explains b) (sym w) (xs, ys, s, elim old [ inl i ↦ absurd i | inr i ↦ i ])

nodes-build : (b : GraphBuilder) → (build b).0.nodes ≡ []
unfolding build
nodes-build b = ground arith

-- A builder is used up by `Build`, whether it succeeded or not: a second `Build` of it never
-- returns a graph.
pub build_again : (b : GraphBuilder) → ¬ ((g : Graph) × ((build (build b).0).1 ≡ ok g))
build_again b r =
    let (i, j, _) = ((build-ok_iff (build b).0).1 r).entry in
    subst (λ l. In i (ids_of l)) (nodes-build b) j
