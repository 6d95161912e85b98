-- ===== src/Workflow/Registry/Coherent.antt =====
-- `WorkflowRegistry`: the latest versions against the buckets, through its calls.
use zen_agent.Common.{
  ℕ, false, ◌≡◌, ◌≢◌, refl, sym, ap, ◌∙◌, List, [], ◌∷◌, ◌⊎◌, inl, inr, Option, none, some,
  Bool-cases, Option-cases, bytes_equality, ◌==◌, subst,
}
use zen_agent.Common.Assoc.{lookup-modify, lookup, get, eq_self}
use zen_agent.Common.Bytes.{Bytes}
use zen_agent.Workflow.Registry.{
  Workflow, VersionedEntry, Bucket, put, erase, last_version, Registry, register, after_erase,
  unregister_in, unregister,
}
use zen_agent.Workflow.Registry.Versions.{
  Sorted, lookup-erase, lookup-put, put-Sorted, erase-Sorted, lookup-last_version,
}

-- Every workflow stands under its own name and version.
abbrev pub Filed : Bytes → Bucket → Type 0
Filed n b =
    (v : Bytes) (e : VersionedEntry) → lookup v b ≡ some e → (e.wf.name ≡ n) × (e.wf.version ≡ v)

abbrev pub IsBucket : Bytes → Bucket → Type 0
IsBucket n b = Sorted b × Filed n b

-- A bucket has a latest version, and that stands in it.
abbrev pub Named : Bytes → Option Bucket → Option Bytes → Type 0
Named n none none = Unit
Named n none (some v) = ⊥
Named n (some b) none = ⊥
Named n (some b) (some v) = IsBucket n b × ((e : VersionedEntry) × (lookup v b ≡ some e))

abbrev pub IsCoherent : Registry → Type 0
IsCoherent r = (n : Bytes) → Named n (lookup n r.entries) (lookup n r.latest_version)

-- The calls that change the registry.
pub data Step : Registry → Registry → Type 0 where
  registers : (now : ℕ) (w : Option Workflow) (r : Registry) → Step r (register now w r).0
  unregisters : (n v : Bytes) (r : Registry) → Step r (unregister n v r).0

-- What `modify` starts from.
pub get-lookup :
    (n : Bytes) (m : List (Bytes × Bucket))
    → ((lookup n m ≡ none) × (get n [] m ≡ [])) ⊎ (lookup n m ≡ some (get n [] m))
unfolding lookup get
get-lookup n [] = inl (refl, refl)
get-lookup n ((j, b) ∷ m) = elim (Bool-cases (n == j)) [
  | inl e ↦ inr (rw e)
  | inr e ↦ rw e (get-lookup n m)
]

Named-bucket : (n : Bytes) (b : Bucket) (l : Option Bytes) → Named n (some b) l → IsBucket n b
Named-bucket n b none h = elim h [ ]
Named-bucket n b (some v) h = h.0

get-IsBucket : (n : Bytes) (r : Registry) → IsCoherent r → IsBucket n (get n [] r.entries)
unfolding lookup
get-IsBucket n r i = elim (get-lookup n r.entries) [
  | inl (e, empty) ↦ rw empty (tt, λ v e h. absurd (cc h))
  | inr e ↦
      Named-bucket n (get n [] r.entries) (lookup n r.latest_version)
        (subst (λ o. Named n o (lookup n r.latest_version)) e (i n))
]

put-Filed :
    (w : Workflow) (e : VersionedEntry) (b : Bucket)
    → e.wf ≡ w
    → Filed w.name b
    → Filed w.name (put w.version e b)
put-Filed w e b own h v f found = elim (Bool-cases (v == w.version)) [
  | inl same ↦
      let here : e ≡ f = cc (rw same at (sym (lookup-put w.version v e b) ∙ found)) in
      let key : v ≡ w.version = (bytes_equality.same_iff v w.version).0 same in
      (
        ap (λ x. x.wf.name) (sym here) ∙ ap (λ x. x.name) own,
        ap (λ x. x.wf.version) (sym here) ∙ ap (λ x. x.version) own ∙ sym key,
      )
  | inr other ↦ h v f (rw other at (sym (lookup-put w.version v e b) ∙ found))
]

pub erase-Filed : (n v : Bytes) (b : Bucket) → Filed n b → Filed n (erase v b)
erase-Filed n v b h w f found = elim (Bool-cases (w == v)) [
  | inl same ↦ absurd (cc (rw same at (sym (lookup-erase v w b) ∙ found)))
  | inr other ↦ h w f (rw other at (sym (lookup-erase v w b) ∙ found))
]

put-Named :
    (now : ℕ) (w : Workflow) (b : Bucket)
    → IsBucket w.name b
    → Named w.name
        (some (put w.version (record { wf = w; registered_at = now }) b))
        (some (w.version))
put-Named now w b h =
    let e : VersionedEntry = record { wf = w; registered_at = now } in
    (
      (put-Sorted w.version e b h.0, put-Filed w e b refl h.1),
      (e, lookup-put w.version w.version e b ∙ rw (eq_self (w.version))),
    )

register-IsCoherent :
    (now : ℕ) (w : Workflow) (r : Registry) → IsCoherent r → IsCoherent (register now (some w) r).0
unfolding register
register-IsCoherent now w r i n =
    rw
      (
        lookup-modify w.name n [] (put w.version (record { wf = w; registered_at = now }))
            r.entries,
        lookup-modify w.name n w.version (λ _. w.version) r.latest_version,
      )
      (elim (Bool-cases (n == w.name)) [
        | inl same ↦
            rw (same, (bytes_equality.same_iff n w.name).0 same)
              (put-Named now w (get w.name [] r.entries) (get-IsBucket w.name r i))
        | inr other ↦ rw other (i n)
      ])

-- A key that a map has, when another one is erased.
erase-kept :
    (v l : Bytes) (b : Bucket) (e : VersionedEntry)
    → (l == v) ≡ false
    → lookup l b ≡ some e
    → lookup l (erase v b) ≡ some e
erase-kept v l b e other h = lookup-erase v l b ∙ rw other h

lookup-nil : (l : Bytes) (e : VersionedEntry) → lookup l [] ≢ some e
unfolding lookup
lookup-nil l e h = cc

-- The maps behind `after_erase`, at one name.
after_erase-Named :
    (n v : Bytes) (b : Bucket) (l : Bytes) (r : Registry)
    → IsBucket n b
    → ((l == v) ≡ false → (e : VersionedEntry) × (lookup l b ≡ some e))
    → lookup n r.latest_version ≡ some l
    → let q = after_erase n v b (some l) r in
      Named n (lookup n q.entries) (lookup n q.latest_version)
unfolding after_erase
after_erase-Named n v [] l r h kept e = elim (Bool-cases (l == v)) [
  | inl same ↦
      rw (same, lookup-erase n n r.entries, lookup-erase n n r.latest_version, eq_self n) tt
  | inr other ↦ absurd (lookup-nil l (kept other).0 (kept other).1)
]
after_erase-Named n v ((w, f) ∷ b) l r h kept e = elim (Bool-cases (l == v)) [
  | inl same ↦
      rw
        (
          same,
          lookup-modify n n [] (λ _. (w, f) ∷ b) r.entries,
          lookup-modify n n l (λ _. last_version w b) r.latest_version,
          eq_self n,
        )
        (h, lookup-last_version w f b)
  | inr other ↦
      rw (other, lookup-modify n n [] (λ _. (w, f) ∷ b) r.entries, eq_self n, e) (h, kept other)
]

-- Other names keep theirs.
after_erase-other :
    (n v : Bytes) (b : Bucket) (l : Bytes) (r : Registry) (m : Bytes)
    → (m == n) ≡ false
    → Named m (lookup m r.entries) (lookup m r.latest_version)
    → let q = after_erase n v b (some l) r in
      Named m (lookup m q.entries) (lookup m q.latest_version)
unfolding after_erase
after_erase-other n v [] l r m other h = elim (Bool-cases (l == v)) [
  | inl same ↦ rw (same, lookup-erase n m r.entries, lookup-erase n m r.latest_version, other) h
  | inr e ↦ rw (e, lookup-erase n m r.entries, other) h
]
after_erase-other n v ((w, f) ∷ b) l r m other h = elim (Bool-cases (l == v)) [
  | inl same ↦
      rw
        (
          same,
          lookup-modify n m [] (λ _. (w, f) ∷ b) r.entries,
          lookup-modify n m l (λ _. last_version w b) r.latest_version,
          other,
        )
        h
  | inr e ↦ rw (e, lookup-modify n m [] (λ _. (w, f) ∷ b) r.entries, other) h
]

-- The registry behind `Unregister`, where it erases a version.
pub erased-IsCoherent :
    (n v : Bytes) (b : Bucket) (r : Registry)
    → IsCoherent r
    → lookup n r.entries ≡ some b
    → IsCoherent (after_erase n v (erase v b) (lookup n r.latest_version) r)
erased-IsCoherent n v b r i e =
    go (lookup n r.latest_version) refl (subst (λ o. Named n o (lookup n r.latest_version)) e (i n))
  where
    go :
        (l : Option Bytes)
        → lookup n r.latest_version ≡ l
        → Named n (some b) (lookup n r.latest_version)
        → IsCoherent (after_erase n v (erase v b) (lookup n r.latest_version) r)
    go none f h m = absurd (subst (Named n (some b)) f h)
    go (some l) f h m =
        let (own, (e', found)) = subst (Named n (some b)) f h in
        rw f (elim (Bool-cases (m == n)) [
          | inr other ↦ after_erase-other n v (erase v b) l r m other (i m)
          | inl same ↦ rw ((bytes_equality.same_iff m n).0 same) (
              after_erase-Named n v (erase v b) l r
                (erase-Sorted v b own.0, erase-Filed n v b own.1)
                (λ other. (e', erase-kept v l b e' other found)) f)
        ])

unregister_in-IsCoherent :
    (n v : Bytes) (b : Option Bucket) (r : Registry)
    → IsCoherent r
    → lookup n r.entries ≡ b
    → IsCoherent (unregister_in n v b r).0
unfolding unregister_in
unregister_in-IsCoherent n v none r i e = i
unregister_in-IsCoherent n v (some b) r i e = elim (Option-cases (lookup v b)) [
  | inl absent ↦ rw absent i
  | inr (f, found) ↦ rw found (erased-IsCoherent n v b r i e)
]

-- Every call keeps the registry coherent: each name with a version left has a latest version, which
-- is one of its versions, each workflow stands under its own name and version, and versions ascend.
pub Step-IsCoherent : (r q : Registry) → Step r q → IsCoherent r → IsCoherent q
unfolding register unregister
Step-IsCoherent r _ (registers now none _) i = i
Step-IsCoherent r _ (registers now (some w) _) i = register-IsCoherent now w r i
Step-IsCoherent r _ (unregisters n v _) i =
    unregister_in-IsCoherent n v (lookup n r.entries) r i refl
