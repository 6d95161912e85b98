-- ===== src/Workflow/Registry.antt =====
-- agentflow/workflow/workflow_registry.h and workflow_registry.cc: the versions of workflows.
pub mod Versions
pub mod Coherent
pub mod Promoted
pub mod Refined
mod Tests
use zen_agent.Common.{
  ℕ, Bool, true, false, not, ◌&&◌, List, [], ◌∷◌, ◌++◌, Option, none, some, is_some, if◌then◌else◌,
  bytes_equality, ◌==◌,
}
use zen_agent.Common.Assoc.{lookup, modify}
use zen_agent.Common.Bytes.{Bytes}
use zen_agent.Common.Bytes.Order.{before}

-- A `shared_ptr<Workflow>` that is not null: its name, its version, the signing of its spec, and a
-- number that tells objects apart.
pub record Workflow : Type 0 where
  pub name : Bytes
  pub version : Bytes
  pub signing : Option Bytes
  pub number : ℕ

pub record VersionedEntry : Type 0 where
  pub wf : Workflow
  pub registered_at : ℕ

-- The `std::map` from versions, sorted by them.
abbrev pub Bucket : Type 0
Bucket = List (Bytes × VersionedEntry)

-- `bucket[version] = e`.
unfoldable pub put : Bytes → VersionedEntry → Bucket → Bucket
put v e [] = (v, e) ∷ []
put v e ((w, f) ∷ b) =
    if v == w then (w, e) ∷ b else if before v w then (v, e) ∷ (w, f) ∷ b else (w, f) ∷ put v e b

-- `erase(k)` of a map.
unfoldable pub erase : {V : Type 0} → Bytes → List (Bytes × V) → List (Bytes × V)
erase k [] = []
erase k ((j, v) ∷ m) = if k == j then erase k m else (j, v) ∷ erase k m

-- `rbegin()->first` of a map with that first entry.
unfoldable pub last_version : Bytes → Bucket → Bytes
last_version v [] = v
last_version v ((w, e) ∷ b) = last_version w b

pub record Registry : Type 0 where
  pub entries : List (Bytes × Bucket)
  pub latest_version : List (Bytes × Bytes)
  pub traced : Bool

-- What the emitter is told.
pub data Event : Type 0 where
  workflow_registered : Bytes → Bytes → Option Bytes → Event
  workflow_unregistered : Bytes → Bytes → Event

-- `Register`, at a time; none is the null pointer.
unfoldable pub register : ℕ → Option Workflow → Registry → Registry × List Event
register now none r = (r, [])
register now (some w) r = (
  record r {
    entries = modify w.name [] (put w.version (record { wf = w; registered_at = now })) r.entries;
    latest_version = modify w.name w.version (λ _. w.version) r.latest_version;
  },
  if r.traced then workflow_registered w.name w.version w.signing ∷ [] else [],
)

abbrev pub wf_of : Option VersionedEntry → Option Workflow
wf_of none = none
wf_of (some e) = some (e.wf)

-- The version in a bucket, where there is one.
unfoldable pub find_version : Option Bytes → Option Bucket → Option Workflow
find_version none b = none
find_version (some v) none = none
find_version (some v) (some b) = wf_of (lookup v b)

-- `GetLatest`.
unfoldable pub get_latest : Bytes → Registry → Option Workflow
unfolding find_version
get_latest n r = find_version (lookup n r.latest_version) (lookup n r.entries)

-- `Get`.
unfoldable pub get_version : Bytes → Bytes → Registry → Option Workflow
unfolding find_version
get_version n v r = find_version (some v) (lookup n r.entries)

-- `Unregister` behind the erasure of the version: what is left of the bucket, and the latest
-- version of the name.
unfoldable pub after_erase : Bytes → Bytes → Bucket → Option Bytes → Registry → Registry
after_erase n v [] none r = record r { entries = erase n r.entries }
after_erase n v [] (some l) r =
    if l == v
    then record r { entries = erase n r.entries; latest_version = erase n r.latest_version }
    else record r { entries = erase n r.entries }
after_erase n v ((w, e) ∷ b) none r = record r { entries = modify n [] (λ _. (w, e) ∷ b) r.entries }
after_erase n v ((w, e) ∷ b) (some l) r =
    if l == v
    then record r {
      entries = modify n [] (λ _. (w, e) ∷ b) r.entries;
      latest_version = modify n l (λ _. last_version w b) r.latest_version;
    }
    else record r { entries = modify n [] (λ _. (w, e) ∷ b) r.entries }

unfoldable pub unregister_in :
    Bytes → Bytes → Option Bucket → Registry → Registry × List Event × Bool
unfolding after_erase
unregister_in n v none r = (r, [], false)
unregister_in n v (some b) r =
    if is_some (lookup v b)
    then (
      after_erase n v (erase v b) (lookup n r.latest_version) r,
      if r.traced then workflow_unregistered n v ∷ [] else [],
      true,
    )
    else (r, [], false)

-- `Unregister`, with its result.
unfoldable pub unregister : Bytes → Bytes → Registry → Registry × List Event × Bool
unfolding unregister_in
unregister n v r = unregister_in n v (lookup n r.entries) r

pub record Entry : Type 0 where
  pub name : Bytes
  pub version : Bytes
  pub registered_at : ℕ

unfoldable pub list_bucket : Bytes → Bucket → List Entry
list_bucket n [] = []
list_bucket n ((v, e) ∷ b) =
    record { name = n; version = v; registered_at = e.registered_at } ∷ list_bucket n b

-- `List`.
unfoldable pub list_entries : List (Bytes × Bucket) → List Entry
unfolding list_bucket
list_entries [] = []
list_entries ((n, b) ∷ more) = list_bucket n b ++ list_entries more
