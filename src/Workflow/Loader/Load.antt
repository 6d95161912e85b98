-- ===== src/Workflow/Loader/Load.antt =====
-- `WorkflowLoader::Load` of agentflow/workflow/workflow_loader.cc.
use zen_agent.Common.{
  ℕ, Bool, true, false, not, ◌||◌, List, [], ◌∷◌, ◌++◌, Option, none, some, eqb, ltb, if◌then◌else◌,
  length, bytes_equality, ◌==◌,
}
use zen_agent.Common.Bytes.{Bytes, ascii}
use zen_agent.Common.Bytes.Decimal.{to_string}
use zen_agent.Common.Json.{Json}
use zen_agent.Workflow.Spec.{StateSpec, Signing, WorkflowSpec}
use zen_agent.Workflow.Loader.{
  Result, ok, err, invalid, failed_precondition, not_found, ◌>>=◌, ◌>>◌,
}
use zen_agent.Workflow.Loader.Parse.{parse_root}
use zen_agent.Workflow.Loader.Checks.{
  at_most, check_resource_limits, check_references, check_templates,
}
use zen_agent.Workflow.Loader.Acyclic.{check_acyclic}
use zen_agent.Workflow.Loader.Signing.{canonical, verify_signature}

-- `WorkflowLoader::Options`; a resolver that is not null is a function.
pub record Options : Type 0 where
  pub max_json_bytes : ℕ
  pub key_resolver : Option (Bytes → Result Bytes)
  pub require_signed : Bool

-- What the loader calls: nlohmann::json, the code of a key, the tools of the host, and for
-- descriptors absl, files and protobuf, where a file of a set is its bytes.
pub record Host : Type 0 where
  pub parse : Bytes → Option Json
  pub dump : Json → Bytes
  pub hmac : Bytes → Bytes → Bytes
  pub has_tool : Bytes → Bool
  pub unescape : Bytes → Option Bytes
  pub read_file : Bytes → Option Bytes
  pub descriptor_set : Bytes → Option (List Bytes)
  pub file_name : Bytes → Bytes
  pub builds : List Bytes → Bytes → Bool
  pub has_message : List Bytes → Bytes → Bool

-- `kCurrentWorkflowSchemaVersion`.
abbrev pub current_schema_version : ℕ
current_schema_version = 1

unfoldable pub with_version : WorkflowSpec → WorkflowSpec
with_version spec = if eqb spec.schema_version 0 then record spec { schema_version = 1 } else spec

unfoldable pub check_version : WorkflowSpec → Result (Unit {0})
check_version spec =
    if ltb current_schema_version spec.schema_version
    then err (
        failed_precondition (
          ascii "schema_version "
          ++ (to_string spec.schema_version
              ++ (ascii " > supported " ++ to_string current_schema_version))))
    else ok tt

-- The signing that counts: one with an algorithm or a signature.
abbrev pub is_filled : Bytes → Bool
is_filled [] = false
is_filled (c ∷ s) = true

unfoldable pub effective : Option Signing → Option Signing
effective none = none
effective (some s) = if is_filled s.algo || is_filled s.signature then some s else none

module _ (h : Host) where
  -- The checks of a spec, in their order.
  unfoldable pub validate : ℕ → ℕ → WorkflowSpec → Result (Unit {0})
  unfolding check_version
  validate json_bytes max_json_bytes spec = do
    check_version spec
    check_resource_limits spec json_bytes max_json_bytes
    check_references h.has_tool spec
    check_acyclic spec.agents
    check_templates spec

  unfoldable pub check_signing : Options → Json → Option Signing → Result (Unit {0})
  check_signing opts root none =
      if opts.require_signed then err (failed_precondition (ascii "signature_required")) else ok tt
  check_signing opts root (some sig) = elim opts.key_resolver [
    | none ↦ ok tt
    | some resolve ↦ verify_signature h.hmac resolve (h.dump (canonical root)) sig
  ]

  -- The bytes of the descriptors: inline, or of a file.
  abbrev pub inline_bytes : Option Bytes → Result Bytes
  inline_bytes none = invalid (ascii "descriptor_set_b64 decode failed")
  inline_bytes (some b) = ok b

  abbrev pub file_bytes : Bytes → Option Bytes → Result Bytes
  file_bytes path none = err (not_found (ascii "descriptor_set_path not readable: " ++ path))
  file_bytes path (some b) = ok b

  unfoldable pub descriptor_bytes : StateSpec → Result Bytes
  descriptor_bytes st =
      if is_filled st.descriptor_set_b64
      then inline_bytes (h.unescape st.descriptor_set_b64)
      else if is_filled st.descriptor_set_path
      then file_bytes st.descriptor_set_path (h.read_file st.descriptor_set_path)
      else invalid (ascii "proto_dynamic requires descriptor_set_path or descriptor_set_b64")

  -- The pool, by the files that are built.
  unfoldable pub build_files : List Bytes → List Bytes → Result (List Bytes)
  build_files pool [] = ok pool
  build_files pool (f ∷ fs) = elim (h.builds pool f) [
    | false ↦ invalid (ascii "BuildFile failed for " ++ h.file_name f)
    | true ↦ build_files (pool ++ f ∷ []) fs
  ]

  abbrev pub files_or : Option (List Bytes) → Result (List Bytes)
  files_or none = invalid (ascii "descriptor_set parse failed")
  files_or (some fs) = ok fs

  unfoldable pub find_message : Bytes → List Bytes → Result (List Bytes)
  find_message name pool =
      if not (is_filled name)
      then invalid (ascii "proto_dynamic requires message_type")
      else if h.has_message pool name
      then ok pool
      else invalid (ascii "descriptor for " ++ (name ++ ascii " not found in supplied set"))

  -- The pool of a state of the kind `proto_dynamic`.
  unfoldable pub state_pool : StateSpec → Result (Option (List Bytes))
  unfolding descriptor_bytes build_files find_message
  state_pool st =
      if st.kind == ascii "proto_dynamic"
      then (do
        bytes ← descriptor_bytes st
        files ← files_or (h.descriptor_set bytes)
        pool ← build_files [] files
        found ← find_message st.message_type pool
        ok (some found))
      else ok none

  abbrev pub root_or : Option Json → Result Json
  root_or none = invalid (ascii "malformed json")
  root_or (some j) = ok j

  -- `Load`: the spec of the workflow, with the pool of its state.
  unfoldable pub load : Options → Bytes → Result (WorkflowSpec × Option (List Bytes))
  unfolding with_version validate effective check_signing state_pool
  load opts text = do
    at_most opts.max_json_bytes (length text) (ascii "workflow json size ") (ascii " > limit ") []
    root ← root_or (h.parse text)
    parsed ← parse_root h.dump root
    validate (length text) opts.max_json_bytes (with_version parsed)
    check_signing opts root (effective parsed.signing)
    pool ← state_pool parsed.state
    ok (with_version parsed, pool)

  abbrev pub opened : Options → Bytes → Option Bytes → Result (WorkflowSpec × Option (List Bytes))
  opened opts path none = err (not_found (ascii "cannot open workflow file: " ++ path))
  opened opts path (some text) = load opts text

  -- `LoadFromFile`.
  unfoldable pub load_from_file : Options → Bytes → Result (WorkflowSpec × Option (List Bytes))
  unfolding load
  load_from_file opts path = opened opts path (h.read_file path)
