-- ===== src/Common/Assoc.antt =====
-- Sets as lists and maps as association lists, for `unordered_set` and `unordered_map`. The
-- order in which a map is walked is the order in which its keys came in.
use mathlib.Core.Path.{◌≡◌, refl}
use mathlib.Core.Logic.{inl, inr, ◌⊎◌}
use mathlib.Core.Bool.{Bool, true, false, ◌||◌}
use mathlib.Core.Option.{Option, none, some}
use mathlib.Core.List.{List, [], ◌∷◌, ◌++◌, map}
use native.Mathlib.Omega.{arith}
use zen_agent.Common.Tests.{if◌then◌else◌, Bool-cases, or_else}
use zen_agent.Common.Lists.{In, Distinct}
use zen_agent.Common.Equality.{Equality, ◌==◌}

module _ {K : Type 0} ⦃e : Equality K⦄ where
  unfoldable pub contains : List K → K → Bool
  contains [] k = false
  contains (x ∷ xs) k = k == x || contains xs k

  pub eq_self : (k : K) → (k == k) ≡ true
  eq_self k = (e.same_iff k k).1 refl

  pub In-of_contains : (xs : List K) (k : K) → contains xs k ≡ true → In k xs
  unfolding contains
  In-of_contains [] k h = cc
  In-of_contains (x ∷ xs) k h = elim (Bool-cases (k == x)) [
    | inl same ↦ inl ((e.same_iff k x).0 same)
    | inr other ↦ inr (In-of_contains xs k (rw other at h))
  ]

  pub contains_of_In : (xs : List K) (k : K) → In k xs → contains xs k ≡ true
  unfolding contains
  contains_of_In [] k h = elim h [ ]
  contains_of_In (x ∷ xs) k (inl same) = rw ((e.same_iff k x).1 same)
  contains_of_In (x ∷ xs) k (inr h) = elim (Bool-cases (k == x)) [
    | inl same ↦ rw same
    | inr other ↦ rw other (contains_of_In xs k h)
  ]

  pub not-In_of_contains : (xs : List K) (k : K) → contains xs k ≡ false → ¬ In k xs
  not-In_of_contains xs k h i = cc (contains_of_In xs k i, h)

  pub contains-append :
      (xs ys : List K) (k : K) → contains (xs ++ ys) k ≡ (contains xs k || contains ys k)
  unfolding contains
  contains-append [] ys k = refl
  contains-append (x ∷ xs) ys k = ground (arith, contains-append xs ys k)

module _ {κ} {K : Type 0} ⦃e : Equality K⦄ {V : Type κ} where
  unfoldable pub lookup : K → List (K × V) → Option V
  lookup k [] = none
  lookup k ((j, v) ∷ m) = if k == j then some v else lookup k m

  abbrev pub keys : List (K × V) → List K
  keys = map (λ p. p.0)

  pub In-of_lookup : (k : K) (m : List (K × V)) {v : V} → lookup k m ≡ some v → In k (keys m)
  unfolding lookup
  In-of_lookup k [] h = cc
  In-of_lookup k ((j, w) ∷ m) h = elim (Bool-cases (k == j)) [
    | inl same ↦ inl ((e.same_iff k j).0 same)
    | inr other ↦ inr (In-of_lookup k m (rw other at h))
  ]

  pub lookup_of_In : (k : K) (m : List (K × V)) → In k (keys m) → (v : V) × (lookup k m ≡ some v)
  unfolding lookup
  lookup_of_In k [] h = elim h [ ]
  lookup_of_In k ((j, w) ∷ m) (inl same) = (w, rw ((e.same_iff k j).1 same))
  lookup_of_In k ((j, w) ∷ m) (inr h) = elim (Bool-cases (k == j)) [
    | inl same ↦ (w, rw same)
    | inr other ↦ rw other (lookup_of_In k m h)
  ]

  pub not-In_of_lookup : (k : K) (m : List (K × V)) → lookup k m ≡ none → ¬ In k (keys m)
  not-In_of_lookup k m h i = cc (h, (lookup_of_In k m i).1)

  pub lookup-append :
      (n : K) (xs ys : List (K × V)) → lookup n (xs ++ ys) ≡ or_else (lookup n xs) (lookup n ys)
  unfolding lookup
  lookup-append n [] ys = refl
  lookup-append n ((m, t) ∷ xs) ys = elim (Bool-cases (n == m)) [
    | inl e ↦ rw e
    | inr e ↦ rw e (lookup-append n xs ys)
  ]

module _ {κ} {K : Type 0} ⦃e : Equality K⦄ {V : Type κ} where
  -- `m[k]`, with what a missing key reads as.
  unfoldable pub get : K → V → List (K × V) → V
  get k d [] = d
  get k d ((j, v) ∷ m) = if k == j then v else get k d m

  -- An update of `m[k]` in place; a missing key gets its default first.
  unfoldable pub modify : K → V → (V → V) → List (K × V) → List (K × V)
  modify k d f [] = (k, f d) ∷ []
  modify k d f ((j, v) ∷ m) = if k == j then (j, f v) ∷ m else (j, v) ∷ modify k d f m

  pub get-modify :
      (k j : K) (d : V) (f : V → V) (m : List (K × V))
      → get j d (modify k d f m) ≡ (if j == k then f (get k d m) else get j d m)
  unfolding get modify
  get-modify k j d f [] = refl
  get-modify k j d f ((i, w) ∷ m) =
      ground (arith, e.same_iff k i, e.same_iff j k, e.same_iff j i, get-modify k j d f m)

  pub lookup-modify :
      (k j : K) (d : V) (f : V → V) (m : List (K × V))
      → lookup j (modify k d f m) ≡ (if j == k then some (f (get k d m)) else lookup j m)
  unfolding lookup modify get
  lookup-modify k j d f [] = refl
  lookup-modify k j d f ((i, w) ∷ m) =
      ground (arith, e.same_iff k i, e.same_iff j k, e.same_iff j i, lookup-modify k j d f m)

  pub In-keys-modify :
      (k j : K) (d : V) (f : V → V) (m : List (K × V))
      → In j (keys (modify k d f m))
      → (j ≡ k) ⊎ In j (keys m)
  unfolding modify
  In-keys-modify k j d f [] i = i
  In-keys-modify k j d f ((l, w) ∷ m) i = elim (Bool-cases (k == l)) [
    | inl same ↦ inr (rw same at i)
    | inr other ↦ elim (rw other at i) [
      | inl h ↦ inr (inl h)
      | inr t ↦ elim (In-keys-modify k j d f m t) [ inl h ↦ inl h | inr r ↦ inr (inr r) ]
    ]
  ]

  pub keys-modify-Distinct :
      (k : K) (d : V) (f : V → V) (m : List (K × V))
      → Distinct (keys m)
      → Distinct (keys (modify k d f m))
  unfolding modify
  keys-modify-Distinct k d f [] h = (λ i. i, tt)
  keys-modify-Distinct k d f ((l, w) ∷ m) h = elim (Bool-cases (k == l)) [
    | inl same ↦ rw same h
    | inr other ↦ rw other (
      λ i. elim (In-keys-modify k l d f m i) [
        | inl z ↦ cc (other, z, (e.same_iff k k).1 refl)
        | inr z ↦ h.0 z
      ],
      keys-modify-Distinct k d f m h.1,
    )
  ]
