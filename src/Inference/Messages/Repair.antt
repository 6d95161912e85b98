-- ===== src/Inference/Messages/Repair.antt =====
-- `RepairToolCallPairing` of agentflow/inference/openai/message_map.cc.
pub mod Paired
pub mod Repaired
use zen_agent.Common.{
  ℕ, zero, suc, Bool, true, false, List, [], ◌∷◌, ◌++◌, Option, none, some, if◌then◌else◌, length,
  bytes_equality, ◌==◌,
}
use zen_agent.Common.Assoc.{contains}
use zen_agent.Common.Bytes.{Bytes, ascii}
use zen_agent.Common.Json.{Json, at, is_object, string_of, string_at, array_at}
use zen_agent.Inference.Messages.{tool_message}

abbrev pub not_executed : Bytes
not_executed =
    ascii
      "{\"error\":\"tool call was not executed: the turn ended before the result was produced\"}"

-- `m.value(k, "")` of an object: the string, or nothing where it throws for another type.
abbrev pub text_value : Option Json → Option Bytes
text_value none = some []
text_value (some v) = string_of v

unfoldable pub value_at : Bytes → Json → Option Bytes
value_at k m = text_value (at k m)

-- The ids that the calls of a turn want answered.
abbrev pub id_of_call : Option Bytes → List Bytes
id_of_call none = []
id_of_call (some []) = []
id_of_call (some (c ∷ id)) = (c ∷ id) ∷ []

unfoldable pub ids_of_calls : List Json → List Bytes
ids_of_calls [] = []
ids_of_calls (c ∷ cs) = id_of_call (string_at (ascii "id") c) ++ ids_of_calls cs

-- The calls of a turn of the assistant; none for another message, or without calls.
abbrev pub calls_or_none : Option (List Json) → Option (List Bytes)
calls_or_none none = none
calls_or_none (some []) = none
calls_or_none (some (c ∷ cs)) = some (ids_of_calls (c ∷ cs))

abbrev pub turn_of : Bytes → Json → Option (List Bytes)
turn_of role m =
    if role == ascii "assistant" then calls_or_none (array_at (ascii "tool_calls") m) else none

-- The run of tool messages: the ids that they answer, the messages and those behind.
pub record ToolRun : Type 0 where
  pub answered : List Bytes
  pub run : List Json
  pub rest : List Json

abbrev pub stop : List Json → ToolRun
stop ms = record { answered = []; run = []; rest = ms }

abbrev pub answered_by : Json → Option Bytes → Option ToolRun → Option ToolRun
answered_by m none r = none
answered_by m (some id) none = none
answered_by m (some id) (some r) =
    some (record { answered = id ∷ r.answered; run = m ∷ r.run; rest = r.rest })

abbrev pub tool_of_role : Option Bytes → Json → List Json → Option ToolRun → Option ToolRun
tool_of_role none m ms r = none
tool_of_role (some role) m ms r =
    if role == ascii "tool"
    then answered_by m (value_at (ascii "tool_call_id") m) r
    else some (stop (m ∷ ms))

unfoldable pub tool_run : List Json → Option ToolRun
unfolding value_at
tool_run [] = some (stop [])
tool_run (m ∷ ms) =
    let r = tool_run ms in
    if is_object m then tool_of_role (value_at (ascii "role") m) m ms r else some (stop (m ∷ ms))

unfoldable pub missing : List Bytes → List Bytes → List Json
missing answered [] = []
missing answered (id ∷ want) =
    let rest = missing answered want in
    if contains answered id then rest else tool_message id not_executed ∷ rest

abbrev pub behind : List Json → Option (List Json) → Option (List Json)
behind ms none = none
behind ms (some ns) = some (ms ++ ns)

-- The loop over the messages; none where it throws. A round goes on behind the run of tool messages.
abbrev pub with_run :
    (List Json → Option (List Json)) → Json → List Bytes → Option ToolRun → Option (List Json)
with_run k m want none = none
with_run k m want (some r) = behind (m ∷ (r.run ++ missing r.answered want)) (k r.rest)

abbrev pub round_of :
    (List Json → Option (List Json)) → Json → List Json → Option (List Bytes) → Option (List Json)
round_of k m ms none = behind (m ∷ []) (k ms)
round_of k m ms (some want) = with_run k m want (tool_run ms)

abbrev pub round_at :
    (List Json → Option (List Json)) → Json → List Json → Option Bytes → Option (List Json)
round_at k m ms none = none
round_at k m ms (some role) = round_of k m ms (turn_of role m)

unfoldable pub repair : ℕ → List Json → Option (List Json)
unfolding tool_run missing ids_of_calls value_at
repair f [] = some []
repair zero (m ∷ ms) = some (m ∷ ms)
repair (suc f) (m ∷ ms) =
    if is_object m
    then round_at (repair f) m ms (value_at (ascii "role") m)
    else behind (m ∷ []) (repair f ms)

-- `RepairToolCallPairing`.
unfoldable pub repair_tool_call_pairing : List Json → Option (List Json)
unfolding repair
repair_tool_call_pairing ms = repair (length ms) ms
