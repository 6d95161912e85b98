-- ===== src/Workflow/SubAgent.antt =====
-- `SubAgentRuntime::RunAsync` of agentflow/workflow/sub_agent_runtime.h and sub_agent_runtime.cc.
pub mod Told
mod Tests
use zen_agent.Common.{
  ℕ, zero, suc, ◌%◌, ◌^◌, Bool, true, false, List, [], ◌∷◌, ◌++◌, Option, none, some, leb,
  if◌then◌else◌, length, bytes_equality, ◌==◌,
}
use zen_agent.Common.Assoc.{contains, lookup}
use zen_agent.Common.Int.{ℤ, pos}
use zen_agent.Common.Bytes.{Bytes, ascii}
use zen_agent.Common.Json.{
  Json, str, integer, arr, obj, Fields, end, field, nil, cons, items_of, string_of,
}
use zen_agent.Nodes.Agent.{
  Call, Invoked, returned, threw, threw_other, Sent, replied, send_cancelled, send_failed, calls_of,
  tool_calls,
}
use zen_agent.Workflow.JsonPath
use zen_agent.Workflow.Spec.{DelegateSpec, AgentDef}
use zen_agent.Workflow.Template

-- What comes of the tools' text, the system message and the factory of conversations: a function
-- to send with or none, the factory's `AgentflowError`, or any other exception of these calls.
pub data Opened : Type 0 where
  opened : Opened
  no_send : Opened
  unknown_backend : Opened
  open_threw : Opened

-- What the function to send with gives, or an exception, which nothing catches.
pub data Answer : Type 0 where
  answer : Sent → Answer
  send_threw : Answer

-- JSON text is read and written by nlohmann::json; `writable` tells where `dump` does not throw. The
-- rest is what happens around the run: the context of the system template, the conversation for a
-- backend and a system text, and by the round of the loop the parent's cancel token, the backend,
-- and the tools of the view.
pub record World : Type 0 where
  pub parse : Bytes → Option Json
  pub dump : Json → Bytes
  pub writable : Json → Bool
  pub dump_lenient : Json → Bytes
  pub overflow : Bytes → ℤ
  pub context : Template.EvalContext
  pub conversation : Bytes → Bytes → Opened
  pub cancelled : ℕ → Bool
  pub send : ℕ → Bytes → Answer
  pub invoke : ℕ → ℕ → Call → Invoked

pub data Event : Type 0 where
  started : ℕ → Bytes → Event
  extract_failed : Bytes → Event
  ended : ℕ → Bool → Bytes → ℕ → Event

-- The JSON value, or an exception.
pub data Result : Type 0 where
  value : Json → Result
  thrown : Result

-- What the loop leaves: the last reply, an error, or an exception.
pub data Looped : Type 0 where
  last_reply : Bytes → Looped
  error_kind : Bytes → Looped
  escaped : Looped

abbrev pub error_json : Bytes → Fields → Json
error_json kind more = obj (field (ascii "error") (str kind) more)

unfoldable pub refused : ℕ → Bytes → Fields → List Event × Result
refused depth kind more = (ended depth false kind 0 ∷ [], value (error_json kind more))

abbrev pub join_texts : Option Bytes → Option (List Json) → Call → Option (List Json)
join_texts none more c = none
join_texts (some t) none c = none
join_texts (some t) (some es) c = some (
    obj (
      field (ascii "name") (str c.name) (
        field (ascii "response") (obj (field (ascii "value") (str t) end))
          (if c.call_id == [] then end else field (ascii "id") (str c.call_id) end)))
    ∷ es)

abbrev pub text_returned : Invoked → Option Bytes
text_returned (returned t) = some t
text_returned (threw e) = some (ascii "Tool error: " ++ e)
text_returned threw_other = none

-- The path of the output.
abbrev pub extract_path : Bytes → Bytes
extract_path [] = ascii "$.content[0].text"
extract_path (c ∷ s) = c ∷ s

abbrev pub extracted_text : Bytes → Bytes → Option Bytes → List Event × Bytes
extracted_text raw path none = (extract_failed path ∷ [], raw)
extracted_text raw path (some t) = ([], t)

abbrev pub extracted_value : Bytes → Bytes → Option Json → List Event × Bytes
extracted_value raw path none = (extract_failed path ∷ [], raw)
extracted_value raw path (some v) = extracted_text raw path (string_of v)

abbrev pub extracted_at : Bytes → Bytes → JsonPath.Parsed → Option Json → List Event × Bytes
extracted_at raw path (JsonPath.failed e) v = ([], raw)
extracted_at raw path (JsonPath.ok gs) none = ([], raw)
extracted_at raw path (JsonPath.ok gs) (some v) = extracted_value raw path (JsonPath.resolve gs v)

abbrev pub succeeded : ℕ → List Event × Bytes → List Event × Result
succeeded depth (es, t) = (es ++ ended depth true [] (length t % 2 ^ 32) ∷ [], value (str t))

abbrev pub behind_start : ℕ → Bytes → List Event × Result → List Event × Result
behind_start depth child (es, r) = (started depth child ∷ es, r)

abbrev pub delegates_of : Option AgentDef → Option DelegateSpec
delegates_of none = none
delegates_of (some a) = a.delegates

module _ (w : World) where
  -- The entries of the tool message, call by call; none if something else than a `std::exception`
  -- is thrown.
  unfoldable pub entries : ℕ → ℕ → List Call → Option (List Json)
  entries iter i [] = some []
  entries iter i (c ∷ cs) =
      join_texts (text_returned (w.invoke iter i c)) (entries iter (suc i) cs) c

  -- The calls of a reply, where it has any.
  unfoldable pub calls_in : Bytes → Option (List Call)
  calls_in raw = elim (w.parse raw) [
    | none ↦ none
    | some v ↦ elim (tool_calls v) [ none ↦ none | some tcs ↦ some (calls_of w.dump tcs) ]
  ]

  abbrev pub tool_text : List Json → Bytes
  tool_text es = w.dump_lenient (
      obj (
        field (ascii "role") (str (ascii "tool"))
          (field (ascii "content") (arr (items_of es)) end)))

  -- The loop, with the rounds that are left, the message and the last reply.
  unfoldable pub loop : ℕ → ℕ → Bytes → Bytes → Looped
  unfolding entries calls_in
  loop zero iter m raw = last_reply raw
  loop (suc f) iter m raw = elim (w.cancelled iter) [
    | true ↦ error_kind (ascii "cancelled")
    | false ↦ elim (w.send iter m) [
      | send_threw ↦ escaped
      | answer a ↦ elim a [
        | send_cancelled ↦ error_kind (ascii "engine_error")
        | send_failed e ↦ error_kind (ascii "engine_error")
        | replied next ↦ elim (calls_in next) [
          | none ↦ last_reply next
          | some cs ↦ elim (entries iter 0 cs) [
            | none ↦ escaped
            | some es ↦ loop f (suc iter) (tool_text es) next
          ]
        ]
      ]
    ]
  ]

  -- The output of the last reply, with the event that tells of a failed extraction.
  unfoldable pub extracted : Bytes → Bytes → List Event × Bytes
  extracted path raw = extracted_at raw path (JsonPath.parse w.overflow path) (w.parse raw)

  unfoldable pub concluded : ℕ → Bytes → Looped → List Event × Result
  unfolding extracted refused
  concluded depth path (last_reply raw) = succeeded depth (extracted path raw)
  concluded depth path (error_kind k) = refused depth k end
  concluded depth path escaped = ([], thrown)

  -- The system text; none for a bad template. It evaluates only texts of the workflow, which are
  -- valid UTF-8, so that `dump` does not throw.
  abbrev pub rendered : Template.Parsed → Option Bytes
  rendered (Template.failed e) = none
  rendered (Template.ok t) =
      let v = Template.evaluate w.dump w.context t in
      elim (string_of v) [ none ↦ some (w.dump v) | some s ↦ some s ]

  unfoldable pub system_text : Bytes → Option Bytes
  system_text [] = some []
  system_text (c ∷ s) = rendered (Template.parse (c ∷ s))

  -- The initial message.
  abbrev pub goal_json : Bytes → Json
  goal_json goal = obj (
      field (ascii "role") (str (ascii "user")) (
        field (ascii "content")
          (arr (
            cons
              (obj
                (field (ascii "type") (str (ascii "text")) (field (ascii "text") (str goal) end)))
              nil))
          end))

  -- `kSubAgentMaxIter` rounds.
  unfoldable pub conversing : ℕ → Bytes → Bytes → Bytes → Opened → List Event × Result
  unfolding concluded loop
  conversing depth path goal backend opened =
      if w.writable (goal_json goal)
      then concluded depth path (loop 8 0 (w.dump (goal_json goal)) [])
      else ([], thrown)
  conversing depth path goal backend no_send = refused depth (ascii "engine_error") end
  conversing depth path goal backend open_threw = ([], thrown)
  conversing depth path goal backend unknown_backend =
      refused depth (ascii "unknown_backend") (field (ascii "backend") (str backend) end)

  unfoldable pub prompted : ℕ → Bytes → Bytes → Bytes → Option Bytes → List Event × Result
  unfolding conversing
  prompted depth path goal backend none = refused depth (ascii "bad_template") end
  prompted depth path goal backend (some system) =
      conversing depth path goal backend (w.conversation backend system)

  -- The run behind the first event, of the child's definition; `at` throws without one.
  unfoldable pub child_run : ℕ → Bytes → Bytes → Option AgentDef → List Event × Result
  unfolding prompted system_text
  child_run depth path goal none = ([], thrown)
  child_run depth path goal (some child) =
      prompted depth path goal child.model.backend (system_text child.system_prompt)

  -- The checks of the depth and the roster.
  unfoldable pub checked_run :
      List (Bytes × AgentDef) → Bytes → Bytes → ℕ → Option DelegateSpec → List Event × Result
  unfolding child_run
  checked_run agents child goal depth none = refused depth (ascii "unknown_agent") end
  checked_run agents child goal depth (some d) =
      if leb d.max_depth depth
      then behind_start depth child (
          refused depth (ascii "max_depth_exceeded")
            (field (ascii "depth") (integer (pos depth)) end))
      else if contains d.agents child
      then behind_start depth child
          (child_run depth (extract_path d.output_extract) goal (lookup child agents))
      else refused depth (ascii "unknown_agent") end

  -- `RunAsync`.
  unfoldable pub run_async :
      List (Bytes × AgentDef) → Bytes → Bytes → Bytes → ℕ → List Event × Result
  unfolding checked_run
  run_async agents parent child goal depth =
      checked_run agents child goal depth (delegates_of (lookup parent agents))
