-- ===== src/Workflow/Registry/Versions.antt =====
-- `WorkflowRegistry`: its maps by name and its buckets by version.
use zen_agent.Common.{
  true, ◌≡◌, refl, List, [], ◌∷◌, ◌⊎◌, inl, inr, none, some, if◌then◌else◌, Bool-cases, All, arith,
  bytes_equality, ◌==◌, subst,
}
use zen_agent.Common.Assoc.{lookup, eq_self}
use zen_agent.Common.Bytes.{Bytes}
use zen_agent.Common.Bytes.Order.{before, before_trans, before_total}
use zen_agent.Workflow.Registry.{VersionedEntry, Bucket, put, erase, last_version}

-- The versions ascend.
abbrev pub Sorted : Bucket → Type 0
Sorted [] = Unit
Sorted ((v, e) ∷ b) = All (λ f. before v f.0 ≡ true) b × Sorted b

module _ {V : Type 0} where
  pub lookup-erase :
      (k j : Bytes) (m : List (Bytes × V))
      → lookup j (erase k m) ≡ (if j == k then none else lookup j m)
  unfolding lookup erase
  lookup-erase k j [] = elim (Bool-cases (j == k)) [ inl e ↦ rw e | inr e ↦ rw e ]
  lookup-erase k j ((i, w) ∷ m) = ground (
    arith,
    bytes_equality.same_iff k i,
    bytes_equality.same_iff j k,
    bytes_equality.same_iff j i,
    lookup-erase k j m,
  )

pub lookup-put :
    (v w : Bytes) (e : VersionedEntry) (b : Bucket)
    → lookup w (put v e b) ≡ (if w == v then some e else lookup w b)
unfolding lookup put
lookup-put v w e [] = refl
lookup-put v w e ((u, f) ∷ b) = ground (
  arith,
  bytes_equality.same_iff v u,
  bytes_equality.same_iff w v,
  bytes_equality.same_iff w u,
  lookup-put v w e b,
)

All-put :
    (P : Bytes × VersionedEntry → Type 0) (v : Bytes) (e : VersionedEntry) (b : Bucket)
    → ((w : Bytes) (f : VersionedEntry) → P (w, f) → P (w, e))
    → P (v, e)
    → All P b
    → All P (put v e b)
unfolding put
All-put P v e [] s p h = (p, tt)
All-put P v e ((w, f) ∷ b) s p h = elim (Bool-cases (v == w)) [
  | inl same ↦ rw same (s w f h.0, h.1)
  | inr other ↦ elim (Bool-cases (before v w)) [
    | inl first ↦ rw (other, first) (p, h)
    | inr behind ↦ rw (other, behind) (h.0, All-put P v e b s p h.1)
  ]
]

All-before :
    (v w : Bytes) (b : Bucket)
    → before v w ≡ true
    → All (λ f. before w f.0 ≡ true) b
    → All (λ f. before v f.0 ≡ true) b
All-before v w [] h k = tt
All-before v w ((u, f) ∷ b) h k = (before_trans v w u h k.0, All-before v w b h k.1)

pub put-Sorted : (v : Bytes) (e : VersionedEntry) (b : Bucket) → Sorted b → Sorted (put v e b)
unfolding put
put-Sorted v e [] h = (tt, tt)
put-Sorted v e ((w, f) ∷ b) h = elim (Bool-cases (v == w)) [
  | inl same ↦ rw same h
  | inr other ↦ elim (Bool-cases (before v w)) [
    | inl first ↦ rw (other, first) ((first, All-before v w b first h.0), h)
    | inr behind ↦
        rw (other, behind)
          (
            All-put (λ g. before w g.0 ≡ true) v e b (λ u g q. q) (before_total v w behind other)
                h.0,
            put-Sorted v e b h.1,
          )
  ]
]

All-erase :
    (P : Bytes × VersionedEntry → Type 0) (v : Bytes) (b : Bucket) → All P b → All P (erase v b)
unfolding erase
All-erase P v [] h = tt
All-erase P v ((w, f) ∷ b) h = elim (Bool-cases (v == w)) [
  | inl same ↦ rw same (All-erase P v b h.1)
  | inr other ↦ rw other (h.0, All-erase P v b h.1)
]

pub erase-Sorted : (v : Bytes) (b : Bucket) → Sorted b → Sorted (erase v b)
unfolding erase
erase-Sorted v [] h = tt
erase-Sorted v ((w, f) ∷ b) h = elim (Bool-cases (v == w)) [
  | inl same ↦ rw same (erase-Sorted v b h.1)
  | inr other ↦ rw other (All-erase (λ g. before w g.0 ≡ true) v b h.0, erase-Sorted v b h.1)
]

-- The last version is there.
pub lookup-last_version :
    (v : Bytes) (e : VersionedEntry) (b : Bucket)
    → (f : VersionedEntry) × (lookup (last_version v b) ((v, e) ∷ b) ≡ some f)
unfolding lookup last_version
lookup-last_version v e [] = (e, rw (eq_self v))
lookup-last_version v e ((w, f) ∷ b) = elim (Bool-cases (last_version w b == v)) [
  | inl same ↦ (e, rw same)
  | inr other ↦ let (g, found) = lookup-last_version w f b in (g, rw other found)
]

-- The last version is the greatest one.
pub last_version-greatest :
    (v : Bytes) (e : VersionedEntry) (b : Bucket) (w : Bytes) (f : VersionedEntry)
    → Sorted ((v, e) ∷ b)
    → lookup w ((v, e) ∷ b) ≡ some f
    → (w ≡ last_version v b) ⊎ (before w (last_version v b) ≡ true)
unfolding lookup last_version
last_version-greatest v e [] w f s h = elim (Bool-cases (w == v)) [
  | inl same ↦ inl ((bytes_equality.same_iff w v).0 same)
  | inr other ↦ absurd (cc (rw other at h))
]
last_version-greatest v e ((u, g) ∷ b) w f s h = elim (Bool-cases (w == v)) [
  | inr other ↦ last_version-greatest u g b w f s.1 (rw other at h)
  | inl same ↦
      let here : w ≡ v = (bytes_equality.same_iff w v).0 same in
      inr (rw here (first (last_version-greatest u g b u g s.1 (rw (eq_self u)))))
]
  where
    first :
        (u ≡ last_version u b) ⊎ (before u (last_version u b) ≡ true)
        → before v (last_version u b) ≡ true
    first (inl q) = subst (λ x. before v x ≡ true) q s.0.0
    first (inr q) = before_trans v u (last_version u b) s.0.0 q
