-- ===== src/Workflow/Loader/Tests.antt =====
-- A workflow that is loaded, and the theorems of the loader at it.
use zen_agent.Common.{
  ◌≡◌, ◌↔◌, refl, ap, arith, length, true, false, [], ◌∷◌, ◌++◌, none, some, if◌then◌else◌,
  bytes_equality, ◌==◌,
}
use zen_agent.Common.Assoc.{contains, lookup, get, modify}
use zen_agent.Common.Int.{pos, negsuc, wrap32}
use zen_agent.Common.Bytes.{Bytes, ascii}
use zen_agent.Common.Json.{Json, str, integer, arr, obj, Fields, end, field, nil, cons}
use zen_agent.Nodes.Agent.{replied, returned}
use zen_agent.Workflow.Template.{EvalContext}
use zen_agent.Workflow.Spec.{Agents, Signing, WorkflowSpec, no_model, no_state}
use zen_agent.Workflow.SubAgent.{answer, World, opened, run_async}
use zen_agent.Workflow.Loader.{ok, err, invalid, Result, not_found, each}
use zen_agent.Workflow.Loader.Parse.{
  text_at, uint32_at, strings_of, strings_at, input_templates_at, parse_delegate_spec, parse_model,
  parse_delegates, parse_agent_def, parse_agents, parse_agents_at, parse_signing, parse_root,
}
use zen_agent.Workflow.Loader.Checks.{
  at_most, check_agent_limits, check_resource_limits, check_tool, check_target,
  check_agent_references, check_references, check_agent_templates, check_templates,
}
use zen_agent.Workflow.Loader.Acyclic.{
  all_white, children, visit, step, search, work, search_all, check_acyclic,
}
use zen_agent.Workflow.Loader.Acyclic.Search.{Route}
use zen_agent.Workflow.Loader.Acyclic.Correct.{check_acyclic_iff}
use zen_agent.Workflow.Loader.Signing.{canonical, difference, compare_signature, verify_signature}
use zen_agent.Workflow.Loader.Signing.Order.{swapped, canonical-signed}
use zen_agent.Workflow.Loader.Load.{
  Options, Host, with_version, check_version, effective, validate, check_signing, state_pool, load,
}
use zen_agent.Workflow.Loader.Accepted.{IsLoaded, load_iff}
use zen_agent.Workflow.Loader.Runs.{Returns, loaded-Returns}

abbrev lead_delegates : Json
lead_delegates = obj (
    field (ascii "agents") (arr (cons (str (ascii "clerk")) nil))
      (field (ascii "max_depth") (integer (pos 2)) end))

abbrev agents_json : Json
agents_json = obj (
    field (ascii "lead")
      (obj (
        field (ascii "tools") (arr (cons (str (ascii "find")) nil))
          (field (ascii "delegates") lead_delegates end)))
      (field (ascii "clerk") (obj end) end))

abbrev signing_json : Json
signing_json = obj (
    field (ascii "algo") (str (ascii "HMAC-SHA256")) (
      field (ascii "key_id") (str (ascii "k")) (field (ascii "signature") (str (ascii "s{}")) end)))

abbrev root : Json
root = obj (
    field (ascii "main") (str (ascii "lead"))
      (field (ascii "agents") agents_json (field (ascii "signing") signing_json end)))

abbrev agents : Agents
agents =
    (
      ascii "lead",
      record {
        system_prompt = [];
        model = no_model;
        tools = ascii "find" ∷ [];
        delegates = some (record {
          agents = ascii "clerk" ∷ [];
          max_depth = 2;
          input_template = [];
          goal_template = [];
          output_extract = [];
        });
      },
    )
    ∷ (ascii "clerk", record { system_prompt = []; model = no_model; tools = []; delegates = none })
    ∷ []

abbrev signing : Signing
signing = record { algo = ascii "HMAC-SHA256"; key_id = ascii "k"; signature = ascii "s{}" }

abbrev spec : WorkflowSpec
spec = record {
  schema_version = 1;
  name = [];
  version = [];
  main = ascii "lead";
  state = no_state;
  agents = agents;
  signing = some signing;
}

abbrev resolve : Bytes → Result Bytes
resolve id = if id == ascii "k" then ok (ascii "s") else err (not_found id)

abbrev host : Host
host = record {
  parse = λ t. if t == ascii "w" then some root else none;
  dump = λ j. ascii "{}";
  hmac = λ key text. key ++ text;
  has_tool = λ t. t == ascii "find";
  unescape = λ t. some t;
  read_file = λ p. none;
  descriptor_set = λ b. some [];
  file_name = λ f. f;
  builds = λ pool f. true;
  has_message = λ pool m. false;
}

abbrev options : Options
options = record { max_json_bytes = 100; key_resolver = some resolve; require_signed = true }

loads : load host options (ascii "w") ≡ ok (spec, none)
unfolding load at_most with_version check_version effective validate check_signing state_pool
    parse_root uint32_at text_at parse_agents_at parse_agents parse_agent_def parse_model strings_at
    strings_of parse_delegates parse_delegate_spec input_templates_at parse_signing
    check_resource_limits each check_agent_limits check_references check_agent_references check_tool
    check_target contains check_acyclic search_all search work step visit children all_white lookup
    get modify check_templates check_agent_templates verify_signature compare_signature difference
    wrap32
loads = refl

-- A version that is 1 behind 32 bits is taken for 1.
wrapped_version :
    uint32_at
      (ascii "schema_version")
      (obj (field (ascii "schema_version") (integer (pos 4294967297)) end))
    ≡ 1
unfolding uint32_at wrap32
wrapped_version = refl

abbrev circular : Agents
circular =
    (
      ascii "a",
      record {
        system_prompt = [];
        model = no_model;
        tools = [];
        delegates = some (record {
          agents = ascii "a" ∷ [];
          max_depth = 2;
          input_template = [];
          goal_template = [];
          output_extract = [];
        });
      },
    )
    ∷ []

cycle_found : check_acyclic circular ≡ invalid (ascii "delegation cycle detected through agent 'a'")
unfolding check_acyclic search_all search work step visit children all_white lookup get modify
cycle_found = refl

check_acyclic_iff_example : (check_acyclic agents ≡ ok tt) ↔ ((n : Bytes) → ¬ Route agents n n)
check_acyclic_iff_example = check_acyclic_iff agents

load_iff_example :
    (load host options (ascii "w") ≡ ok (spec, none)) ↔ IsLoaded host options (ascii "w") spec none
load_iff_example = load_iff host options (ascii "w") spec none

abbrev two_members : Fields
two_members = field (ascii "main") (str []) (field (ascii "version") (str []) end)

canonical-signed_example :
    canonical (obj (field (ascii "signing") signing_json two_members))
    ≡ canonical (obj (field (ascii "version") (str []) (field (ascii "main") (str []) end)))
canonical-signed_example = canonical-signed signing_json (swapped (λ e. omega (arith, ap length e)))

abbrev context : EvalContext
context = record {
  state = none;
  parent_state = none;
  tool_args = none;
  workflow_name = [];
  workflow_version = [];
  now_iso = [];
  now_unix_micros = pos 0;
  now_unix_seconds = pos 0;
}

abbrev world : World
world = record {
  parse = λ s. none;
  dump = λ v. ascii "{}";
  writable = λ v. true;
  dump_lenient = λ v. ascii "[]";
  overflow = λ s. negsuc 0;
  context = context;
  conversation = λ b s. opened;
  cancelled = λ i. false;
  send = λ i m. answer (replied (ascii "done"));
  invoke = λ i k c. returned (ascii "found");
}

loaded-Returns_example :
    Returns (run_async world agents (ascii "lead") (ascii "clerk") (ascii "hi") 1)
loaded-Returns_example =
    loaded-Returns host options (ascii "w") spec none loads world (λ iter i c e. cc e)
      (λ iter m e. cc e) (λ b s e. cc e) (ascii "lead") (ascii "clerk") (ascii "hi") 1 refl
