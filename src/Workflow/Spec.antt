-- ===== src/Workflow/Spec.antt =====
-- The messages of proto/workflow_spec.proto, as the C++ code reads and writes them. A `map` is an
-- association list.
use zen_agent.Common.{ℕ, Bool, false, List, [], Option, none, some}
use zen_agent.Common.Int.{ℤ, pos}
use zen_agent.Common.Bytes.{Bytes}

pub record StateFieldDecl : Type 0 where
  pub type : Bytes
  pub default_value_json : Bytes

pub record StateSpec : Type 0 where
  pub kind : Bytes
  pub fields : List (Bytes × StateFieldDecl)
  pub message_type : Bytes
  pub descriptor_set_path : Bytes
  pub descriptor_set_b64 : Bytes

pub record ModelSpec : Type 0 where
  pub max_output_tokens : ℤ
  pub constrained_tool_calls : Bool
  pub backend : Bytes

pub record DelegateSpec : Type 0 where
  pub agents : List Bytes
  pub max_depth : ℕ
  pub input_template : List (Bytes × Bytes)
  pub goal_template : Bytes
  pub output_extract : Bytes

pub record AgentDef : Type 0 where
  pub system_prompt : Bytes
  pub model : ModelSpec
  pub tools : List Bytes
  pub delegates : Option DelegateSpec

abbrev pub Agents : Type 0
Agents = List (Bytes × AgentDef)

pub record Signing : Type 0 where
  pub algo : Bytes
  pub key_id : Bytes
  pub signature : Bytes

pub record WorkflowSpec : Type 0 where
  pub schema_version : ℕ
  pub name : Bytes
  pub version : Bytes
  pub main : Bytes
  pub state : StateSpec
  pub agents : Agents
  pub signing : Option Signing

-- Messages without any field set.
abbrev pub no_model : ModelSpec
no_model = record { max_output_tokens = pos 0; constrained_tool_calls = false; backend = [] }

abbrev pub no_state : StateSpec
no_state = record {
  kind = [];
  fields = [];
  message_type = [];
  descriptor_set_path = [];
  descriptor_set_b64 = [];
}

-- The delegates that a definition names; none without `has_delegates`.
abbrev pub delegated : Option DelegateSpec → List Bytes
delegated none = []
delegated (some d) = d.agents
