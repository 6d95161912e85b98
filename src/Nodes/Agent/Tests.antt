-- ===== src/Nodes/Agent/Tests.antt =====
-- Runs of an agent, and the theorems at a concrete run.
use zen_agent.Common.{
  ℕ, zero, suc, ◌≡◌, refl, true, false, [], ◌∷◌, Option, none, some, if◌then◌else◌, bytes_equality,
  ◌==◌,
}
use zen_agent.Common.Int.{pos}
use zen_agent.Common.Bytes.{Bytes, ascii}
use zen_agent.Common.Json.{Json, null, str, arr, obj, nil, cons, end, field}
use zen_agent.Nodes.Agent.{
  AgentNodeConfig, World, Sent, replied, send_cancelled, Invoked, returned, threw, Target, extra,
  in_view, in_registry, wrote, rounds, call_name, text_of, call_args, calls_of, find_extra,
  target_of, result_of, dispatch_tool, value_of, entry, entries, tool_message, tool_calls, turn,
  loop, user_message, written, run,
}

abbrev config : AgentNodeConfig
config = record {
  extra_tools = none ∷ some (ascii "delegate") ∷ [];
  has_tool_registry = true;
  has_tool_view = true;
  max_iter = pos 8;
}

abbrev call_json : Json
call_json = obj (
    field (ascii "id") (str (ascii "c1"))
      (field (ascii "function") (obj (field (ascii "name") (str (ascii "find")) end)) end))

-- Two calls and an entry that is none.
abbrev calling : Json
calling = obj (
    field (ascii "tool_calls")
      (arr (
        cons call_json
          (cons null (cons (obj (field (ascii "name") (str (ascii "delegate")) end)) nil))))
      end)

abbrev parse_text : Bytes → Option Json
parse_text s = if s == ascii "c" then some calling else none

abbrev reply : ℕ → Sent
reply zero = replied (ascii "c")
reply (suc n) = replied (ascii "done")

abbrev tool : Target → Invoked
tool (extra i) = threw (ascii "no")
tool in_view = returned (ascii "found")
tool in_registry = returned []

abbrev world : (ℕ → Sent) → World
world sends = record {
  parse = parse_text;
  dump = λ v. ascii "{}";
  dump_lenient = λ v. ascii "[]";
  configured = true;
  has_conversation = true;
  description = [];
  cancelled_before = false;
  cancelled = λ i. false;
  cancelled_at_end = false;
  send = λ i m. sends i;
  invoke = λ i k t c. tool t;
}

two_turns : (run (world reply) config (ascii "hi")).1 ≡ wrote (ascii "done")
unfolding run loop rounds user_message turn tool_calls written calls_of tool_message
two_turns = refl

two_results :
    entries (world reply) config 0 0 (calls_of (world reply).dump (call_json ∷ null ∷ []))
    ≡ obj (
        field (ascii "id") (str (ascii "c1")) (
          field
            (ascii "name")
            (str (ascii "find"))
            (field (ascii "response") (obj (field (ascii "value") (str (ascii "found")) end)) end)))
      ∷ []
unfolding entries calls_of call_name call_args text_of entry dispatch_tool target_of find_extra
    result_of value_of
two_results = refl

-- A backend that gives up in the first of eight rounds, although nobody cancelled the run.
gives_up :
    (run (world (λ i. send_cancelled)) config (ascii "hi")).1
    ≡ wrote (ascii "Agent reached maximum iterations without a final answer.")
unfolding run loop rounds user_message written
gives_up = refl
