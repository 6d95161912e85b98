-- ===== src/Core/Graph/Correct/Index.antt =====
-- The table of ids: what `index_nodes` builds and when it refuses.
use zen_agent.Common.{
  ℕ, ◌+◌, ◌≡◌, refl, ap, subst, ◌∙◌, ◌⊎◌, inl, inr, String, List, [], ◌∷◌, ◌++◌, append_assoc,
  append-nil, In, In-append_left, In-append_right, In-append_cases, some, arith, Option-cases,
  Bool-cases, Distinct, length, length-append, ◌==◌, text_equality,
}
use zen_agent.Common.Assoc.{lookup, keys, In-of_lookup, not-In_of_lookup}
use zen_agent.Core.Graph.{
  Node, ok, err, duplicate_node_id, index_nodes, ids_of, nth, fetch, GraphCompileError,
}
use zen_agent.Core.Graph.Valid.{find_by_id}
use mathlib.Core.List.{map-append}

-- The table that `index_nodes` appends.
unfoldable pub indexed : ℕ → List Node → List (String × ℕ)
indexed i [] = []
indexed i (n ∷ ns) = (n.id, i) ∷ indexed (i + 1) ns

pub keys-indexed : (i : ℕ) (ns : List Node) → keys (indexed i ns) ≡ ids_of ns
unfolding indexed
keys-indexed i [] = refl
keys-indexed i (n ∷ ns) = ap (◌∷◌ n.id) (keys-indexed (i + 1) ns)

-- The ids are new, each against those before it.
abbrev pub Fresh : List String → List String → Type 0
Fresh seen [] = Unit
Fresh seen (x ∷ xs) = (¬ In x seen) × Fresh (seen ++ x ∷ []) xs

abbrev Apart : List String → List String → Type 0
Apart seen xs = (x : String) → In x xs → ¬ In x seen

Distinct-of_Fresh : (seen xs : List String) → Fresh seen xs → Distinct xs × Apart seen xs
Distinct-of_Fresh seen [] f = (tt, λ x i. absurd i)
Distinct-of_Fresh seen (x ∷ xs) f =
    let (d, apart) = Distinct-of_Fresh (seen ++ x ∷ []) xs f.1 in
    (
      (λ i. apart x i (In-append_right x seen (x ∷ []) (inl refl)), d),
      λ y. elim [
        | inl e ↦ λ s. f.0 (subst (λ z. In z seen) e s)
        | inr i ↦ λ s. apart y i (In-append_left y seen (x ∷ []) s)
      ],
    )

Fresh-of_Distinct : (seen xs : List String) → Distinct xs → Apart seen xs → Fresh seen xs
Fresh-of_Distinct seen [] d apart = tt
Fresh-of_Distinct seen (x ∷ xs) d apart = (
  apart x (inl refl),
  Fresh-of_Distinct (seen ++ x ∷ []) xs d.1 λ y i s. elim (In-append_cases y seen (x ∷ []) s) [
    | inl old ↦ apart y (inr i) old
    | inr (inl e) ↦ d.0 (subst (λ z. In z xs) e i)
    | inr (inr h) ↦ absurd h
  ],
)

keys-snoc :
    (m : List (String × ℕ)) (k : String) (i : ℕ) → keys (m ++ (k, i) ∷ []) ≡ keys m ++ k ∷ []
keys-snoc m k i = map-append (λ (p : String × ℕ). p.0) m ((k, i) ∷ [])

-- A successful walk met new ids only, and appended the table.
index_nodes_ok :
    (i : ℕ) (ns : List Node) (m : List (String × ℕ)) {m' : List (String × ℕ)}
    → index_nodes i ns m ≡ ok m'
    → Fresh (keys m) (ids_of ns) × (m' ≡ m ++ indexed i ns)
unfolding index_nodes indexed
index_nodes_ok i [] m h = (tt, ground (arith, append-nil m))
index_nodes_ok i (n ∷ ns) m h = elim (Option-cases (lookup n.id m)) [
  | inr (v, e) ↦ absurd (cc (rw (e, index_nodes) at h))
  | inl e ↦
      let (f, t) = index_nodes_ok (i + 1) ns (m ++ (n.id, i) ∷ []) (rw (e, index_nodes) at h) in
      ((not-In_of_lookup n.id m e, rw keys-snoc at f), t ∙ append_assoc m ((n.id, i) ∷ []) _)
]

-- On new ids the walk succeeds.
index_nodes-Fresh :
    (i : ℕ) (ns : List Node) (m : List (String × ℕ))
    → Fresh (keys m) (ids_of ns)
    → index_nodes i ns m ≡ ok (m ++ indexed i ns)
unfolding index_nodes indexed
index_nodes-Fresh i [] m f = rw append-nil
index_nodes-Fresh i (n ∷ ns) m f = elim (Option-cases (lookup n.id m)) [
  | inr (v, e) ↦ absurd (f.0 (In-of_lookup n.id m e))
  | inl e ↦
      rw (e, index_nodes)
        (index_nodes-Fresh (i + 1) ns (m ++ (n.id, i) ∷ []) (rw keys-snoc f.1)
          ∙ ap ok (append_assoc m ((n.id, i) ∷ []) _))
]

pub index_nodes_sound :
    (ns : List Node) {m : List (String × ℕ)}
    → index_nodes 0 ns [] ≡ ok m
    → Distinct (ids_of ns) × (m ≡ indexed 0 ns)
index_nodes_sound ns h =
    let (f, t) = index_nodes_ok 0 ns [] h in ((Distinct-of_Fresh [] (ids_of ns) f).0, t)

pub index_nodes_complete :
    (ns : List Node) → Distinct (ids_of ns) → index_nodes 0 ns [] ≡ ok (indexed 0 ns)
index_nodes_complete ns d =
    index_nodes-Fresh 0 ns [] (Fresh-of_Distinct [] (ids_of ns) d (λ x i h. h))

-- A refused id stands twice.
pub index_nodes_err :
    (i : ℕ) (ns : List Node) (m : List (String × ℕ)) {why : GraphCompileError}
    → index_nodes i ns m ≡ err why
    → (id : String) × (why ≡ duplicate_node_id id)
      × (xs : List String) × (ys : List String) × (ids_of ns ≡ xs ++ id ∷ ys)
      × (In id (keys m) ⊎ In id xs)
unfolding index_nodes
index_nodes_err i [] m h = absurd (cc h)
index_nodes_err i (n ∷ ns) m h = elim (Option-cases (lookup n.id m)) [
  | inr (v, e) ↦
      (n.id, cc (rw (e, index_nodes) at h), [], ids_of ns, refl, inl (In-of_lookup n.id m e))
  | inl e ↦
      let (id, w, xs, ys, s, old) =
        index_nodes_err (i + 1) ns (m ++ (n.id, i) ∷ []) (rw (e, index_nodes) at h) in
      (
        id,
        w,
        n.id ∷ xs,
        ys,
        ap (◌∷◌ n.id) s,
        elim old [
          | inr i ↦ inr (inr i)
          | inl k ↦ elim (In-append_cases id (keys m) (n.id ∷ []) (rw keys-snoc at k)) [
            | inl a ↦ inl a
            | inr (inl b) ↦ inr (inl b)
            | inr (inr c) ↦ absurd c
          ]
        ],
      )
]

nth-length : (xs : List Node) (n : Node) (ys : List Node) → nth (xs ++ n ∷ ys) (length xs) ≡ some n
unfolding nth
nth-length [] n ys = refl
nth-length (x ∷ xs) n ys = nth-length xs n ys

-- Looking an id up in the table and then the node is a search of the nodes.
fetch-lookup :
    (id : String) (i : ℕ) (xs ns : List Node)
    → length xs ≡ i
    → fetch (xs ++ ns) (lookup id (indexed i ns)) ≡ find_by_id id ns
unfolding lookup indexed find_by_id fetch
fetch-lookup id i xs [] h = refl
fetch-lookup id i xs (n ∷ ns) h = elim (Bool-cases (id == n.id)) [
  | inl e ↦ rw (e, ← h) (nth-length xs n ns)
  | inr e ↦ rw e (
      subst (λ l. fetch l (lookup id (indexed (i + 1) ns)) ≡ find_by_id id ns)
        (append_assoc xs (n ∷ []) ns)
        (fetch-lookup id (i + 1) (xs ++ n ∷ []) ns (omega (arith, length-append xs (n ∷ [])))))
]

pub fetch-lookup-indexed :
    (id : String) (ns : List Node) → fetch ns (lookup id (indexed 0 ns)) ≡ find_by_id id ns
fetch-lookup-indexed id ns = fetch-lookup id 0 [] ns refl
