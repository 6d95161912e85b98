-- ===== src/Nodes/Agent.antt =====
-- agentflow/nodes/agent_node.h and agent_node.cc: the loop of an agent between its model and its
-- tools.
mod Reading
pub mod Conversation
pub mod Ending
mod Loop
mod Tests
use zen_agent.Common.{
  ℕ, zero, suc, Bool, true, false, not, ◌&&◌, ◌||◌, List, [], ◌∷◌, ◌++◌, Option, none, some,
  if◌then◌else◌, map, bytes_equality, ◌==◌,
}
use zen_agent.Common.Int.{ℤ, pos, negsuc}
use zen_agent.Common.Bytes.{Bytes, ascii}
use zen_agent.Common.Json.{
  Json, str, arr, obj, Fields, end, field, nil, cons, items_of, at, is_object, string_of, string_at,
  object_at, array_at,
}
use zen_agent.Inference.Canonical.{extract_assistant_text}

-- The fields of `AgentNodeConfig` that the loop reads; of an inline tool its name, none for a null
-- pointer.
pub record AgentNodeConfig : Type 0 where
  pub extra_tools : List (Option Bytes)
  pub has_tool_registry : Bool
  pub has_tool_view : Bool
  pub max_iter : ℤ

pub record Call : Type 0 where
  pub name : Bytes
  pub call_id : Bytes
  pub args : Bytes

-- What a tool call reaches: an inline tool by its place, the view, or the registry.
pub data Target : Type 0 where
  extra : ℕ → Target
  in_view : Target
  in_registry : Target

-- What an `Invoke` does: it returns, throws a `std::exception`, or throws something else.
pub data Invoked : Type 0 where
  returned : Bytes → Invoked
  threw : Bytes → Invoked
  threw_other : Invoked

-- What `SendAsync` gives.
pub data Sent : Type 0 where
  replied : Bytes → Sent
  send_cancelled : Sent
  send_failed : Bytes → Sent

-- JSON text is read and written by nlohmann::json; the rest is what happens around the node: whether
-- it has a backend and a context, the conversation, and by the round of the loop the cancel token,
-- the backend, and the tools with the place of the call.
pub record World : Type 0 where
  pub parse : Bytes → Option Json
  pub dump : Json → Bytes
  pub dump_lenient : Json → Bytes
  pub configured : Bool
  pub has_conversation : Bool
  pub description : Bytes
  pub cancelled_before : Bool
  pub cancelled : ℕ → Bool
  pub cancelled_at_end : Bool
  pub send : ℕ → Bytes → Sent
  pub invoke : ℕ → ℕ → Target → Call → Invoked

pub data Event : Type 0 where
  tool_call : Bytes → Bytes → Bytes → Event
  tool_return : Bytes → Bytes → Bytes → Event

-- The empty text where there is none.
abbrev pub or_empty : Option Bytes → Bytes
or_empty none = []
or_empty (some t) = t

unfoldable pub call_name : Json → Bytes
call_name tc = elim (string_at (ascii "name") tc) [
  | some n ↦ n
  | none ↦ elim (object_at (ascii "function") tc) [
    | none ↦ []
    | some fn ↦ or_empty (string_at (ascii "name") fn)
  ]
]

-- The place of the first inline tool with the name.
unfoldable pub find_extra : ℕ → Bytes → List (Option Bytes) → Option ℕ
find_extra i n [] = none
find_extra i n (none ∷ ts) = find_extra (suc i) n ts
find_extra i n (some t ∷ ts) = if t == n then some i else find_extra (suc i) n ts

-- Inline tools come first, then the view, then the registry.
unfoldable pub target_of : AgentNodeConfig → Bytes → Option Target
unfolding find_extra
target_of cfg n = elim (find_extra 0 n cfg.extra_tools) [
  | some i ↦ some (extra i)
  | none ↦
      if cfg.has_tool_view
      then some in_view
      else if cfg.has_tool_registry
      then some in_registry
      else none
]

-- A call that returned or threw: the result of its coroutine, none where the channel is closed.
unfoldable pub result_of : Invoked → Option Bytes
result_of (returned t) = some t
result_of (threw e) = some (ascii "Tool error: " ++ e)
result_of threw_other = none

unfoldable pub returns_of : Call → Option Bytes → List Event
returns_of c none = []
returns_of c (some t) = tool_return (c.name) t (c.call_id) ∷ []

unfoldable pub value_of : Option Bytes → Bytes
value_of none = ascii "{\"error\":\"tool_execution_failed\"}"
value_of (some t) = t

-- One entry of the content; `nlohmann::json` keeps keys sorted.
unfoldable pub entry : Call → Option Bytes → Json
unfolding value_of
entry c r =
    let answer : Fields =
      field (ascii "name") (str c.name)
        (field (ascii "response") (obj (field (ascii "value") (str (value_of r)) end)) end) in
    obj (if c.call_id == [] then answer else field (ascii "id") (str c.call_id) answer)

-- The tool calls of a reply, where it has any.
unfoldable pub tool_calls : Json → Option (List Json)
tool_calls v = elim (array_at (ascii "tool_calls") v) [
  | none ↦ none
  | some [] ↦ none
  | some (tc ∷ tcs) ↦ some (tc ∷ tcs)
]

abbrev pub or_raw : Bytes → Bytes → Bytes
or_raw [] raw = raw
or_raw (c ∷ t) raw = c ∷ t

-- What is done with a reply.
pub data Turn : Type 0 where
  answers : Bytes → Turn
  calls : List Call → Turn

-- How the loop ends.
pub data Ended : Type 0 where
  final_answer : Bytes → Ended
  throws : Bytes → Ended

-- What `Run` does with the output field of the state.
pub data Outcome : Type 0 where
  unchanged : Outcome
  wrote : Bytes → Outcome
  failed : Bytes → Outcome

-- How often `iter < max_iter` holds.
unfoldable pub rounds : ℤ → ℕ
rounds (pos n) = n
rounds (negsuc n) = 0

module _ (dump : Json → Bytes) where
  -- A text as it is, any other value as it is written.
  unfoldable pub text_of : Json → Bytes
  text_of v = elim (string_of v) [ none ↦ dump v | some t ↦ t ]

  unfoldable pub call_args : Json → Bytes
  unfolding text_of
  call_args tc = elim (at (ascii "arguments") tc) [
    | some v ↦ text_of v
    | none ↦ elim (at (ascii "function") tc) [
      | none ↦ []
      | some fn ↦ elim (at (ascii "arguments") fn) [ none ↦ [] | some v ↦ text_of v ]
    ]
  ]

  -- The calls; an entry that is no object is skipped.
  unfoldable pub calls_of : List Json → List Call
  unfolding call_args call_name
  calls_of [] = []
  calls_of (tc ∷ tcs) =
      if is_object tc
      then record {
        name = call_name tc;
        call_id = or_empty (string_at (ascii "id") tc);
        args = call_args tc;
      }
        ∷ calls_of tcs
      else calls_of tcs

module _ (w : World) where
  -- `DispatchTool` in its coroutine, with the events it emits.
  unfoldable pub dispatch_tool : AgentNodeConfig → ℕ → ℕ → Call → List Event × Option Bytes
  unfolding target_of result_of returns_of
  dispatch_tool cfg iter i c = elim (target_of cfg c.name) [
    | none ↦ ([], some [])
    | some t ↦
        let r = result_of (w.invoke iter i t c) in
        (tool_call (c.name) (c.args) (c.call_id) ∷ returns_of c r, r)
  ]

  -- The entries in the order of the calls, whichever call ended first.
  unfoldable pub entries : AgentNodeConfig → ℕ → ℕ → List Call → List Json
  unfolding entry dispatch_tool
  entries cfg iter i [] = []
  entries cfg iter i (c ∷ cs) = entry c (dispatch_tool cfg iter i c).1 ∷ entries cfg iter (suc i) cs

  unfoldable pub tool_message : AgentNodeConfig → ℕ → List Call → Json
  unfolding entries
  tool_message cfg iter cs = obj (
      field (ascii "content") (arr (items_of (entries cfg iter 0 cs)))
        (field (ascii "role") (str (ascii "tool")) end))

  unfoldable pub turn : Bytes → Turn
  unfolding tool_calls calls_of extract_assistant_text
  turn raw = elim (w.parse raw) [
    | none ↦ answers raw
    | some v ↦ elim (tool_calls v) [
      | none ↦ answers (or_raw (extract_assistant_text v) raw)
      | some tcs ↦ calls (calls_of w.dump tcs)
    ]
  ]

  -- The loop, from a round on, with the rounds that are left: the messages that were answered,
  -- each with its reply, and the end.
  unfoldable pub loop : AgentNodeConfig → ℕ → ℕ → Bytes → List (Bytes × Bytes) × Ended
  unfolding turn tool_message
  loop cfg zero iter m = ([], final_answer [])
  loop cfg (suc f) iter m = elim (w.cancelled iter) [
    | true ↦ ([], final_answer [])
    | false ↦ elim (w.send iter m) [
      | send_cancelled ↦ ([], final_answer [])
      | send_failed e ↦ ([], throws (ascii "AgentNode: backend send failed: " ++ e))
      | replied raw ↦ elim (turn raw) [
        | answers t ↦ ((m, raw) ∷ [], final_answer t)
        | calls cs ↦
            let rest = loop cfg f (suc iter) (w.dump_lenient (tool_message cfg iter cs)) in
            ((m, raw) ∷ rest.0, rest.1)
      ]
    ]
  ]

  -- `BuildUserMessageJson`, of what the input field holds.
  unfoldable pub user_message : Bytes → Bytes
  user_message input = w.dump (
      obj (
        field (ascii "content")
          (arr (
            cons
              (obj
                (field (ascii "text") (str input) (field (ascii "type") (str (ascii "text")) end)))
              nil))
          (field (ascii "role") (str (ascii "user")) end)))

  -- The text that is written, behind the loop.
  unfoldable pub written : Bytes → Bytes
  written [] =
      if w.cancelled_at_end
      then []
      else ascii "Agent reached maximum iterations without a final answer."
  written (c ∷ t) = c ∷ t

  abbrev pub ends : Ended → Outcome
  ends (throws e) = failed e
  ends (final_answer t) = wrote (written t)

  -- `Run`, of what the input field holds, with the messages that were answered.
  unfoldable pub run : AgentNodeConfig → Bytes → List (Bytes × Bytes) × Outcome
  unfolding loop user_message written
  run cfg input =
      if not w.configured
      then ([], failed (ascii "AgentNode: backend and io_ctx must be configured"))
      else if w.cancelled_before
      then ([], unchanged)
      else if not w.has_conversation
      then (
        [],
        failed (ascii "AgentNode: failed to create conversation on backend " ++ w.description),
      )
      else let r = loop cfg (rounds cfg.max_iter) 0 (user_message input) in (r.0, ends r.1)
