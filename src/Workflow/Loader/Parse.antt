-- ===== src/Workflow/Loader/Parse.antt =====
-- The mapping of agentflow/workflow/workflow_loader.cc from JSON to the messages of a workflow.
use zen_agent.Common.{ℕ, Bool, true, false, List, [], ◌∷◌, ◌++◌, Option, none, some, bytes_equality}
use zen_agent.Common.Assoc.{modify}
use zen_agent.Common.Int.{ℤ, pos, to_int, wrap32}
use zen_agent.Common.Bytes.{Bytes, ascii}
use zen_agent.Common.Json.{
  Json, at, is_object, string_of, string_at, integer_of, boolean_of, array_of, members_of,
}
use zen_agent.Workflow.Spec.{
  StateFieldDecl, StateSpec, ModelSpec, DelegateSpec, AgentDef, Agents, Signing, WorkflowSpec,
  no_model, no_state,
}
use zen_agent.Workflow.Loader.{
  Status, invalid_argument, resource_exhausted, failed_precondition, not_found, Result, ok, err,
  invalid, ◌>>=◌, ◌>>◌,
}

-- A field that is set where the key has a string.
unfoldable pub text_at : Bytes → Json → Bytes
text_at k j = elim (string_at k j) [ none ↦ [] | some t ↦ t ]

-- `get<uint32_t>` where the key has an integer.
unfoldable pub uint32_at : Bytes → Json → ℕ
uint32_at k j = elim (at k j) [
  | none ↦ 0
  | some v ↦ elim (integer_of v) [ none ↦ 0 | some n ↦ wrap32 n ]
]

-- The strings of an array, or the message for an entry that is none.
unfoldable pub strings_of : Bytes → List Json → Result (List Bytes)
strings_of text [] = ok []
strings_of text (v ∷ vs) = elim (string_of v) [
  | none ↦ invalid text
  | some t ↦ strings_of text vs >>= λ ts. ok (t ∷ ts)
]

-- The strings under a key, which is left out or has an array of them.
unfoldable pub strings_at : Bytes → Bytes → Bytes → Json → Result (List Bytes)
unfolding strings_of
strings_at k no_array no_string j = elim (at k j) [
  | none ↦ ok []
  | some v ↦ elim (array_of v) [ none ↦ invalid no_array | some vs ↦ strings_of no_string vs ]
]

-- The members of an object, or the message.
abbrev pub members_or : Bytes → Json → Result (List (Bytes × Json))
members_or text j = elim (members_of j) [ none ↦ invalid text | some ms ↦ ok ms ]

unfoldable pub input_templates :
    List (Bytes × Json) → List (Bytes × Bytes) → Result (List (Bytes × Bytes))
input_templates [] m = ok m
input_templates ((k, v) ∷ more) m = elim (string_of v) [
  | none ↦ invalid (ascii "delegates.input_template[" ++ (k ++ ascii "] must be a string"))
  | some t ↦ input_templates more (modify k [] (λ _. t) m)
]

unfoldable pub input_templates_at : Option Json → Result (List (Bytes × Bytes))
unfolding input_templates
input_templates_at none = ok []
input_templates_at (some v) =
    members_or (ascii "delegates.input_template must be an object") v >>= λ ms.
    input_templates ms []

-- The three bytes of a dash in UTF-8.
abbrev pub em_dash : Bytes
em_dash = 226 ∷ 128 ∷ 148 ∷ []

abbrev pub no_parallel : Option Json → Result (Unit {0})
no_parallel none = ok tt
no_parallel (some v) = invalid (
    ascii "delegates.parallel is not a supported key "
    ++ (em_dash
        ++ ascii
            " parallel execution is the default behaviour of the tool-dispatch loop and needs no declaration. Remove it."))

-- `ParseDelegateSpec`.
unfoldable pub parse_delegate_spec : Json → Result DelegateSpec
unfolding text_at uint32_at strings_at input_templates_at
parse_delegate_spec j = elim (is_object j) [
  | false ↦ invalid (ascii "delegates must be an object")
  | true ↦ do
    agents ←
        strings_at (ascii "agents") (ascii "delegates.agents must be an array")
          (ascii "delegates.agents entries must be strings") j
    no_parallel (at (ascii "parallel") j)
    templates ← input_templates_at (at (ascii "input_template") j)
    ok (record {
      agents = agents;
      max_depth = uint32_at (ascii "max_depth") j;
      input_template = templates;
      goal_template = text_at (ascii "goal_template") j;
      output_extract = text_at (ascii "output_extract") j;
    })
]

-- The declaration of a field of the state; `dump` writes its default.
unfoldable pub parse_field : (Json → Bytes) → Json → StateFieldDecl
unfolding text_at
parse_field dump j = record {
  type = text_at (ascii "type") j;
  default_value_json = elim (at (ascii "default") j) [ none ↦ [] | some d ↦ dump d ];
}

unfoldable pub parse_fields :
    (Json → Bytes)
    → List (Bytes × Json)
    → List (Bytes × StateFieldDecl)
    → Result (List (Bytes × StateFieldDecl))
unfolding parse_field
parse_fields dump [] m = ok m
parse_fields dump ((k, v) ∷ more) m = elim (is_object v) [
  | false ↦ invalid (ascii "state.fields[" ++ (k ++ ascii "] must be an object"))
  | true ↦ parse_fields dump more (modify k (parse_field dump v) (λ _. parse_field dump v) m)
]

unfoldable pub parse_fields_at :
    (Json → Bytes) → Option Json → Result (List (Bytes × StateFieldDecl))
unfolding parse_fields
parse_fields_at dump none = ok []
parse_fields_at dump (some v) =
    members_or (ascii "state.fields must be an object") v >>= λ ms. parse_fields dump ms []

-- `ParseStateSpec`.
unfoldable pub parse_state_spec : (Json → Bytes) → Json → Result StateSpec
unfolding text_at parse_fields_at
parse_state_spec dump j = elim (is_object j) [
  | false ↦ invalid (ascii "state must be an object")
  | true ↦ do
    fields ← parse_fields_at dump (at (ascii "fields") j)
    ok (record {
      kind = text_at (ascii "kind") j;
      fields = fields;
      message_type = text_at (ascii "message_type") j;
      descriptor_set_path = text_at (ascii "descriptor_set_path") j;
      descriptor_set_b64 = text_at (ascii "descriptor_set_b64") j;
    })
]

unfoldable pub int32_at : Bytes → Json → ℤ
unfolding to_int
int32_at k j = elim (at k j) [
  | none ↦ pos 0
  | some v ↦ elim (integer_of v) [ none ↦ pos 0 | some n ↦ to_int n ]
]

unfoldable pub flag_at : Bytes → Json → Bool
flag_at k j = elim (at k j) [
  | none ↦ false
  | some v ↦ elim (boolean_of v) [ none ↦ false | some b ↦ b ]
]

-- The text behind the name of an agent in a message.
abbrev pub of_agent : Bytes → Bytes → Bytes
of_agent name text = ascii "agent '" ++ (name ++ text)

abbrev pub backend_of : Bytes → Option Json → Result Bytes
backend_of name none = ok []
backend_of name (some v) = elim (string_of v) [
  | none ↦ invalid (of_agent name (ascii "': model.backend must be a string"))
  | some t ↦ ok t
]

unfoldable pub parse_model : Bytes → Option Json → Result ModelSpec
unfolding int32_at flag_at
parse_model name none = ok no_model
parse_model name (some j) = elim (is_object j) [
  | false ↦ invalid (of_agent name (ascii "'.model must be an object"))
  | true ↦ do
    backend ← backend_of name (at (ascii "backend") j)
    ok (record {
      max_output_tokens = int32_at (ascii "max_output_tokens") j;
      constrained_tool_calls = flag_at (ascii "constrained_tool_calls") j;
      backend = backend;
    })
]

abbrev pub message : Status → Bytes
message (invalid_argument t) = t
message (resource_exhausted t) = t
message (failed_precondition t) = t
message (not_found t) = t

abbrev pub in_agent : Bytes → Result DelegateSpec → Result (Option DelegateSpec)
in_agent name (ok d) = ok (some d)
in_agent name (err e) = invalid (of_agent name (ascii "': " ++ message e))

unfoldable pub parse_delegates : Bytes → Option Json → Result (Option DelegateSpec)
unfolding parse_delegate_spec
parse_delegates name none = ok none
parse_delegates name (some j) = in_agent name (parse_delegate_spec j)

-- `ParseAgentDef`.
unfoldable pub parse_agent_def : Bytes → Json → Result AgentDef
unfolding text_at parse_model strings_at parse_delegates
parse_agent_def name j = elim (is_object j) [
  | false ↦ invalid (of_agent name (ascii "' must be an object"))
  | true ↦ do
    model ← parse_model name (at (ascii "model") j)
    tools ←
        strings_at (ascii "tools") (of_agent name (ascii "'.tools must be an array"))
          (of_agent name (ascii "'.tools entries must be strings")) j
    delegates ← parse_delegates name (at (ascii "delegates") j)
    ok (record {
      system_prompt = text_at (ascii "system_prompt") j;
      model = model;
      tools = tools;
      delegates = delegates;
    })
]

unfoldable pub parse_agents : List (Bytes × Json) → Agents → Result Agents
unfolding parse_agent_def
parse_agents [] m = ok m
parse_agents ((k, v) ∷ more) m = elim (parse_agent_def k v) [
  | err e ↦ err e
  | ok d ↦ parse_agents more (modify k d (λ _. d) m)
]

unfoldable pub parse_agents_at : Option Json → Result Agents
unfolding parse_agents
parse_agents_at none = ok []
parse_agents_at (some v) =
    members_or (ascii "agents must be an object") v >>= λ ms. parse_agents ms []

-- `ParseSigning`.
unfoldable pub parse_signing : Option Json → Result (Option Signing)
unfolding text_at
parse_signing none = ok none
parse_signing (some j) = elim (is_object j) [
  | false ↦ invalid (ascii "signing must be an object")
  | true ↦ ok (
      some (record {
        algo = text_at (ascii "algo") j;
        key_id = text_at (ascii "key_id") j;
        signature = text_at (ascii "signature") j;
      }))
]

abbrev pub parse_state_at : (Json → Bytes) → Option Json → Result StateSpec
parse_state_at dump none = ok no_state
parse_state_at dump (some v) = parse_state_spec dump v

-- `ParseRoot`.
unfoldable pub parse_root : (Json → Bytes) → Json → Result WorkflowSpec
unfolding uint32_at text_at parse_state_spec parse_agents_at parse_signing
parse_root dump j = elim (is_object j) [
  | false ↦ invalid (ascii "workflow root must be a JSON object")
  | true ↦ do
    state ← parse_state_at dump (at (ascii "state") j)
    agents ← parse_agents_at (at (ascii "agents") j)
    signing ← parse_signing (at (ascii "signing") j)
    ok (record {
      schema_version = uint32_at (ascii "schema_version") j;
      name = text_at (ascii "name") j;
      version = text_at (ascii "version") j;
      main = text_at (ascii "main") j;
      state = state;
      agents = agents;
      signing = signing;
    })
]
