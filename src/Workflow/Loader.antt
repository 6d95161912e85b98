-- ===== src/Workflow/Loader.antt =====
-- agentflow/workflow/workflow_loader.h and workflow_loader.cc: from JSON text to a checked workflow.
-- This module has the results; the children have the passes.
pub mod Parse
pub mod Checks
pub mod Acyclic
pub mod Signing
pub mod Load
pub mod Valid
pub mod Accepted
pub mod Runs
mod Tests
use zen_agent.Common.{List, [], ◌∷◌}
use zen_agent.Common.Bytes.{Bytes}

-- `absl::Status` with an error.
pub data Status : Type 0 where
  invalid_argument : Bytes → Status
  resource_exhausted : Bytes → Status
  failed_precondition : Bytes → Status
  not_found : Bytes → Status

-- `absl::Status` or `absl::StatusOr`.
pub data Result (A : Type 0) : Type 0 where
  err : Status → Result A
  ok : A → Result A

infixl 5 ◌>>=◌ ◌>>◌
abbrev pub ◌>>=◌ : {A B : Type 0} → Result A → (A → Result B) → Result B
err status >>= next = err status
ok value >>= next = next value

abbrev pub ◌>>◌ : {B : Type 0} → Result (Unit {0}) → Result B → Result B
err status >> next = err status
ok done >> next = next

-- `InvalidArgumentError`.
abbrev pub invalid : {A : Type 0} → Bytes → Result A
invalid text = err (invalid_argument text)

-- A pass over a list that stops at its first error.
unfoldable pub each : {A : Type 0} → (A → Result (Unit {0})) → List A → Result (Unit {0})
each f [] = ok tt
each f (x ∷ xs) = elim (f x) [ err e ↦ err e | ok u ↦ each f xs ]
