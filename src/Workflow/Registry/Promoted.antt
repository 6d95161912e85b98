-- ===== src/Workflow/Registry/Promoted.antt =====
-- `WorkflowRegistry`: what `GetLatest` finds when the latest version is gone.
use zen_agent.Common.{
  true, ◌≡◌, refl, sym, ap, ◌∙◌, [], ◌∷◌, ◌⊎◌, inl, inr, Option, none, some, Option-cases,
  bytes_equality,
}
use zen_agent.Common.Assoc.{lookup-modify, lookup, eq_self}
use zen_agent.Common.Bytes.{Bytes}
use zen_agent.Common.Bytes.Order.{before}
use zen_agent.Workflow.Registry.{
  Workflow, VersionedEntry, Bucket, erase, last_version, Registry, find_version, get_latest,
  get_version, after_erase, unregister_in, unregister,
}
use zen_agent.Workflow.Registry.Versions.{
  lookup-erase, erase-Sorted, lookup-last_version, last_version-greatest,
}
use zen_agent.Workflow.Registry.Coherent.{Named, IsBucket, IsCoherent, erase-Filed}

-- Nothing is left of the name, or the greatest version that is left is the latest one.
abbrev pub Promoted : Bytes → Registry → Type 0
Promoted n q =
    ((get_latest n q ≡ none) × ((v : Bytes) → get_version n v q ≡ none))
    ⊎ ((x : Workflow) × (get_latest n q ≡ some x)
        × ((v : Bytes) (u : Workflow)
            → get_version n v q ≡ some u
            → (v ≡ x.version) ⊎ (before v (x.version) ≡ true)))

found_wf :
    (v : Bytes) (b : Bucket) (u : Workflow)
    → find_version (some v) (some b) ≡ some u
    → (e : VersionedEntry) × (lookup v b ≡ some e) × (e.wf ≡ u)
unfolding find_version
found_wf v b u h = elim (Option-cases (lookup v b)) [
  | inl absent ↦ absurd (cc (rw absent at h))
  | inr (e, found) ↦ (e, found, cc (rw found at h))
]

after_erase-Promoted :
    (n l : Bytes) (b : Bucket) (r : Registry)
    → IsBucket n b
    → Promoted n (after_erase n l b (some l) r)
unfolding after_erase get_latest get_version find_version
after_erase-Promoted n l [] r h = inl (
    rw (eq_self l, lookup-erase n n r.entries, lookup-erase n n r.latest_version, eq_self n)
      (refl, λ v. refl))
after_erase-Promoted n l ((w, f) ∷ b) r h =
    let (e, found) = lookup-last_version w f b in
    inr (
      rw
        (
          eq_self l,
          lookup-modify n n [] (λ _. (w, f) ∷ b) r.entries,
          lookup-modify n n l (λ _. last_version w b) r.latest_version,
          eq_self n,
        )
        (
          e.wf,
          rw found,
          λ v u k.
              let (g, there, _) = found_wf v ((w, f) ∷ b) u k in
              rw ((h.1 (last_version w b) e found).1) (last_version-greatest w f b v g h.0 there),
        ))

-- A coherent registry from which the latest version of a name is unregistered has as the latest
-- version of that name the greatest one, by the order of strings, of the versions that are left;
-- without any left it finds none.
pub unregister-Promoted :
    (n : Bytes) (w : Workflow) (r : Registry)
    → IsCoherent r
    → get_latest n r ≡ some w
    → Promoted n (unregister n (w.version) r).0
unfolding get_latest unregister unregister_in
unregister-Promoted n w r i h = go (lookup n r.entries) (lookup n r.latest_version) (i n) h refl
  where
    go :
        (b : Option Bucket) (l : Option Bytes)
        → Named n b l
        → find_version l b ≡ some w
        → lookup n r.latest_version ≡ l
        → Promoted n (unregister_in n (w.version) b r).0
    go none none c k e = absurd (cc k)
    go none (some l) c k e = absurd c
    go (some b) none c k e = absurd c
    go (some b) (some l) c k e =
        let (f, found, own) = found_wf l b w k in
        let key : l ≡ w.version = sym (c.0.1 l f found).1 ∙ ap (λ x. x.version) own in
        rw (sym key, found, e)
          (after_erase-Promoted n l (erase l b) r (erase-Sorted l b c.0.0, erase-Filed n l b c.0.1))
