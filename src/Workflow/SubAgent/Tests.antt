-- ===== src/Workflow/SubAgent/Tests.antt =====
-- Runs of a sub-agent, and the theorem at a concrete run.
use zen_agent.Common.{
  ℕ, zero, suc, ◌≡◌, refl, true, false, List, [], ◌∷◌, Option, none, some, if◌then◌else◌,
  bytes_equality, ◌==◌,
}
use zen_agent.Common.Assoc.{contains, lookup}
use zen_agent.Common.Int.{pos, negsuc}
use zen_agent.Common.Bytes.{Bytes, ascii, dec_digit, find, starts_with}
use zen_agent.Common.Json.{Json, str, arr, obj, end, field, nil, cons}
use zen_agent.Nodes.Agent.{replied, returned, tool_calls, calls_of}
use zen_agent.Workflow.JsonPath
use zen_agent.Workflow.JsonPath.{
  segments, round, indexed, atoi, all_digits, named, field_name, prepend, follow,
}
use zen_agent.Workflow.Template.{EvalContext}
use zen_agent.Workflow.Spec.{AgentDef, no_model}
use zen_agent.Workflow.SubAgent.{
  World, Answer, answer, send_threw, thrown, opened, started, ended, value, last_reply, entries,
  calls_in, loop, extracted, concluded, system_text, conversing, prompted, child_run, checked_run,
  run_async,
}
use zen_agent.Workflow.SubAgent.Told.{Allowed, IsTold, run_async-IsTold}

abbrev agents : List (Bytes × AgentDef)
agents =
    (
      ascii "lead",
      record {
        system_prompt = [];
        model = no_model;
        tools = [];
        delegates = some (record {
          agents = ascii "clerk" ∷ [];
          max_depth = 2;
          input_template = [];
          goal_template = [];
          output_extract = [];
        });
      },
    )
    ∷ (ascii "clerk", record { system_prompt = []; model = no_model; tools = []; delegates = none })
    ∷ []

abbrev calling : Json
calling = obj (
    field (ascii "tool_calls")
      (arr (cons (obj (field (ascii "name") (str (ascii "find")) end)) nil)) end)

abbrev parse_text : Bytes → Option Json
parse_text s = if s == ascii "c" then some calling else none

abbrev context : EvalContext
context = record {
  state = none;
  parent_state = none;
  tool_args = none;
  workflow_name = [];
  workflow_version = [];
  now_iso = [];
  now_unix_micros = pos 0;
  now_unix_seconds = pos 0;
}

abbrev world : (ℕ → Answer) → World
world sends = record {
  parse = parse_text;
  dump = λ v. ascii "{}";
  writable = λ v. true;
  dump_lenient = λ v. ascii "[]";
  overflow = λ s. negsuc 0;
  context = context;
  conversation = λ b s. opened;
  cancelled = λ i. false;
  send = λ i m. sends i;
  invoke = λ i k c. returned (ascii "found");
}

abbrev reply : ℕ → Answer
reply zero = answer (replied (ascii "c"))
reply (suc n) = answer (replied (ascii "done"))

two_rounds :
    run_async (world reply) agents (ascii "lead") (ascii "clerk") (ascii "hi") 1
    ≡ (started 1 (ascii "clerk") ∷ ended 1 true [] 4 ∷ [], value (str (ascii "done")))
unfolding run_async checked_run child_run prompted conversing concluded extracted loop entries
    calls_in system_text contains lookup tool_calls JsonPath.parse segments round indexed atoi
    all_digits named field_name prepend find starts_with calls_of dec_digit
two_rounds = refl

-- A child that calls tools in every round: its last reply, a tool call, is its answer.
calls_forever :
    loop (world (λ i. answer (replied (ascii "c")))) 8 0 (ascii "{}") [] ≡ last_reply (ascii "c")
unfolding loop entries calls_in tool_calls calls_of
calls_forever = refl

-- An exception of the backend leaves the run, and no end is told.
send_escapes :
    run_async (world (λ i. send_threw)) agents (ascii "lead") (ascii "clerk") (ascii "hi") 1
    ≡ (started 1 (ascii "clerk") ∷ [], thrown)
unfolding run_async checked_run child_run prompted conversing concluded extracted loop entries
    calls_in system_text contains lookup
send_escapes = refl

run_async-IsTold_example :
    IsTold
      (Allowed agents (ascii "lead") (ascii "clerk") 1)
      1
      (run_async (world reply) agents (ascii "lead") (ascii "clerk") (ascii "hi") 1)
run_async-IsTold_example =
    run_async-IsTold (world reply) agents (ascii "lead") (ascii "clerk") (ascii "hi") 1
