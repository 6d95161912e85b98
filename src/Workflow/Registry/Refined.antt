-- ===== src/Workflow/Registry/Refined.antt =====
-- `WorkflowRegistry` against a table of workflows by name and version.
use zen_agent.Common.{
  ℕ, Bool, ◌&&◌, ◌≡◌, refl, sym, ap, ◌∙◌, List, [], ◌∷◌, inl, inr, Option, none, some, is_some,
  if◌then◌else◌, Bool-cases, Option-cases, bytes_equality, ◌==◌,
}
use zen_agent.Common.Assoc.{lookup-modify, lookup, get, modify}
use zen_agent.Common.Bytes.{Bytes}
use zen_agent.Workflow.Registry.{
  Workflow, VersionedEntry, Bucket, put, erase, Registry, register, find_version, get_version,
  after_erase, unregister_in, unregister,
}
use zen_agent.Workflow.Registry.Versions.{lookup-erase, lookup-put}
use zen_agent.Workflow.Registry.Coherent.{get-lookup}

-- Calls and what they give back.
pub data Call : Type 0 where
  registers : ℕ → Option Workflow → Call
  gets : Bytes → Bytes → Call
  unregisters : Bytes → Bytes → Call

pub data Answer : Type 0 where
  workflow : Option Workflow → Answer
  erased : Bool → Answer

abbrev pub answers : List Call → Registry → List Answer
answers [] r = []
answers (registers now w ∷ cs) r = workflow w ∷ answers cs (register now w r).0
answers (gets n v ∷ cs) r = workflow (get_version n v r) ∷ answers cs r
answers (unregisters n v ∷ cs) r = erased ((unregister n v r).2) ∷ answers cs (unregister n v r).0

-- The table: a workflow, or none, for each name and version.
abbrev pub Table : Type 0
Table = Bytes → Bytes → Option Workflow

abbrev pub set : Bytes → Bytes → Option Workflow → Table → Table
set n v w t m u = if m == n && u == v then w else t m u

abbrev pub registered : Option Workflow → Table → Table
registered none t = t
registered (some w) t = set w.name w.version (some w) t

abbrev pub specified : List Call → Table → List Answer
specified [] t = []
specified (registers now w ∷ cs) t = workflow w ∷ specified cs (registered w t)
specified (gets n v ∷ cs) t = workflow (t n v) ∷ specified cs t
specified (unregisters n v ∷ cs) t = erased (is_some (t n v)) ∷ specified cs (set n v none t)

abbrev Refines : Registry → Table → Type 0
Refines r t = (n v : Bytes) → get_version n v r ≡ t n v

find_version-get :
    (n v : Bytes) (m : List (Bytes × Bucket))
    → find_version (some v) (some (get n [] m)) ≡ find_version (some v) (lookup n m)
unfolding find_version lookup
find_version-get n v m = elim (get-lookup n m) [ inl (e, empty) ↦ rw (e, empty) | inr e ↦ rw e ]

find_version-put :
    (v u : Bytes) (e : VersionedEntry) (b : Bucket)
    → find_version (some u) (some (put v e b))
      ≡ (if u == v then some (e.wf) else find_version (some u) (some b))
unfolding find_version
find_version-put v u e b = elim (Bool-cases (u == v)) [
  | inl same ↦ rw (lookup-put v u e b, same)
  | inr other ↦ rw (lookup-put v u e b, other)
]

find_version-erase :
    (v u : Bytes) (b : Bucket)
    → find_version (some u) (some (erase v b))
      ≡ (if u == v then none else find_version (some u) (some b))
unfolding find_version
find_version-erase v u b = elim (Bool-cases (u == v)) [
  | inl same ↦ rw (lookup-erase v u b, same)
  | inr other ↦ rw (lookup-erase v u b, other)
]

get_version-register :
    (now : ℕ) (w : Workflow) (r : Registry) (n v : Bytes)
    → get_version n v (register now (some w) r).0
      ≡ (if n == w.name && v == w.version then some w else get_version n v r)
unfolding get_version register
get_version-register now w r n v =
    let e : VersionedEntry = record { wf = w; registered_at = now } in
    rw (lookup-modify w.name n [] (put w.version e) r.entries) (elim (Bool-cases (n == w.name)) [
      | inr other ↦ rw other
      | inl same ↦ rw same (
          find_version-put w.version v e (get w.name [] r.entries)
          ∙ ap (λ o. if v == w.version then some w else o)
              (find_version-get w.name v r.entries
                ∙ ap (λ k. find_version (some v) (lookup k r.entries))
                    (sym ((bytes_equality.same_iff n w.name).0 same))))
    ])

-- The entries behind `Unregister`.
abbrev left_of : Bytes → Bucket → List (Bytes × Bucket) → List (Bytes × Bucket)
left_of n [] m = erase n m
left_of n (e ∷ b) m = modify n [] (λ _. e ∷ b) m

-- What is left under a name when a version is erased.
lookup-after_erase :
    (n v : Bytes) (b : Bucket) (l : Option Bytes) (r : Registry)
    → (after_erase n v b l r).entries ≡ left_of n b r.entries
unfolding after_erase
lookup-after_erase n v [] none r = refl
lookup-after_erase n v [] (some l) r = elim (Bool-cases (l == v)) [ inl e ↦ rw e | inr e ↦ rw e ]
lookup-after_erase n v (e ∷ b) none r = refl
lookup-after_erase n v ((w, f) ∷ b) (some l) r = elim (Bool-cases (l == v)) [
  | inl e ↦ rw e
  | inr e ↦ rw e
]

find_version-left_of :
    (n : Bytes) (b : Bucket) (m : List (Bytes × Bucket)) (k u : Bytes)
    → find_version (some u) (lookup k (left_of n b m))
      ≡ (if k == n then find_version (some u) (some b) else find_version (some u) (lookup k m))
unfolding find_version lookup
find_version-left_of n [] m k u = elim (Bool-cases (k == n)) [
  | inl same ↦ rw (lookup-erase n k m, same)
  | inr other ↦ rw (lookup-erase n k m, other)
]
find_version-left_of n (e ∷ b) m k u = elim (Bool-cases (k == n)) [
  | inl same ↦ rw (lookup-modify n k [] (λ _. e ∷ b) m, same)
  | inr other ↦ rw (lookup-modify n k [] (λ _. e ∷ b) m, other)
]

get_version-unregister :
    (n v : Bytes) (r : Registry) (m u : Bytes)
    → get_version m u (unregister n v r).0 ≡ (if m == n && u == v then none else get_version m u r)
unfolding get_version unregister unregister_in
get_version-unregister n v r m u = go (lookup n r.entries) refl
  where
    kept :
        (b : Option Bucket)
        → lookup n r.entries ≡ b
        → find_version (some v) b ≡ none
        → find_version (some u) (lookup m r.entries)
          ≡ (if m == n && u == v then none else find_version (some u) (lookup m r.entries))
    kept b e h = elim (Bool-cases (m == n)) [
      | inr other ↦ rw other
      | inl same ↦ elim (Bool-cases (u == v)) [
        | inr other ↦ rw (same, other)
        | inl here ↦
            rw
              (
                same,
                here,
                (bytes_equality.same_iff m n).0 same,
                (bytes_equality.same_iff u v).0 here,
                e,
              )
              h
      ]
    ]

    go :
        (b : Option Bucket)
        → lookup n r.entries ≡ b
        → find_version (some u) (lookup m (unregister_in n v b r).0.entries)
          ≡ (if m == n && u == v then none else find_version (some u) (lookup m r.entries))
    go none e = kept none e refl
    go (some b) e = elim (Option-cases (lookup v b)) [
      | inl absent ↦ rw absent (kept (some b) e (rw absent))
      | inr (f, found) ↦
          rw (found, lookup-after_erase n v (erase v b) (lookup n r.latest_version) r)
            (find_version-left_of n (erase v b) r.entries m u ∙ elim (Bool-cases (m == n)) [
              | inr other ↦ rw other
              | inl same ↦
                  rw (same, (bytes_equality.same_iff m n).0 same, e) (find_version-erase v u b)
            ])
    ]

erased-unregister :
    (n v : Bytes) (r : Registry) → (unregister n v r).2 ≡ is_some (get_version n v r)
unfolding get_version unregister unregister_in
erased-unregister n v r = go (lookup n r.entries)
  where
    go : (b : Option Bucket) → (unregister_in n v b r).2 ≡ is_some (find_version (some v) b)
    go none = refl
    go (some b) = elim (Option-cases (lookup v b)) [
      | inl absent ↦ rw absent
      | inr (f, found) ↦ rw found
    ]

refined : (cs : List Call) (r : Registry) (t : Table) → Refines r t → answers cs r ≡ specified cs t
unfolding register
refined [] r t h = refl
refined (registers now none ∷ cs) r t h = ap (◌∷◌ (workflow none)) (refined cs r t h)
refined (registers now (some w) ∷ cs) r t h = ap (◌∷◌ (workflow (some w))) (
    refined cs (register now (some w) r).0 (registered (some w) t) (λ n v.
      get_version-register now w r n v
      ∙ ap (λ o. if n == w.name && v == w.version then some w else o) (h n v)))
refined (gets n v ∷ cs) r t h = rw (h n v) (ap (◌∷◌ (workflow (t n v))) (refined cs r t h))
refined (unregisters n v ∷ cs) r t h =
    rw (erased-unregister n v r, h n v)
      (ap (◌∷◌ (erased (is_some (t n v)))) (
        refined cs (unregister n v r).0 (set n v none t) (λ m u.
          get_version-unregister n v r m u
          ∙ ap (λ o. if m == n && u == v then none else o) (h m u))))

abbrev pub empty_registry : Bool → Registry
empty_registry traced = record { entries = []; latest_version = []; traced = traced }

-- Whatever calls of `Register`, `Get` and `Unregister` a new registry serves, it answers as a table
-- does that has one place for each name and version: registering fills that place and nothing
-- else, unregistering empties it and says whether it was full.
pub answers-refines :
    (traced : Bool) (cs : List Call)
    → answers cs (empty_registry traced) ≡ specified cs (λ n v. none)
unfolding get_version find_version lookup
answers-refines traced cs = refined cs (empty_registry traced) (λ n v. none) (λ n v. refl)
