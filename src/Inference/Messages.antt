-- ===== src/Inference/Messages.antt =====
-- agentflow/inference/openai/message_map.h and message_map.cc: from the canonical messages of an
-- agent to those of the OpenAI protocol, and back. A message is a JSON value with its keys in order.

pub mod Repair
pub mod Images
pub mod Sent
use zen_agent.Common.{
  ℕ, zero, suc, Bool, true, false, not, ◌&&◌, List, [], ◌∷◌, ◌++◌, Option, none, some, is_some,
  if◌then◌else◌, bytes_equality, ◌==◌,
}
use zen_agent.Common.Bytes.{Bytes, ascii}
use zen_agent.Common.Int.{pos}
use zen_agent.Common.Json.{
  Json, null, boolean, integer, fraction, str, arr, obj, Items, nil, cons, Fields, end, field, at,
  elements, items_of, is_object, string_of, string_at, array_of, array_at, object_at, put_member,
}
use zen_agent.Inference.Accumulator.{UsageProvider, token_count, output_token_count}
use zen_agent.Inference.Canonical.{items_text}

-- What a mapping gives: messages, an `InvalidArgumentError`, or an exception of nlohmann::json.
pub data Mapped : Type 0 where
  messages : List Json → Mapped
  invalid : Bytes → Mapped
  thrown : Mapped

-- The string under a key, or a text in place of it.
abbrev pub text_or : Bytes → Bytes → Json → Bytes
text_or default k j = elim (string_at k j) [ none ↦ default | some t ↦ t ]

-- `FlattenContent`.
abbrev pub flatten_content : Json → Bytes
flatten_content (str t) = t
flatten_content (arr xs) = items_text (elements xs)
flatten_content null = []
flatten_content (boolean b) = []
flatten_content (integer n) = []
flatten_content (fraction t) = []
flatten_content (obj fs) = []

-- `IsImageRef`, with the key of the image.
abbrev pub some_key : Bytes → Option Bytes
some_key [] = none
some_key (c ∷ k) = some (c ∷ k)

abbrev pub key_or_none : Option Bytes → Option Bytes
key_or_none none = none
key_or_none (some k) = some_key k

abbrev pub key_of_type : Option Bytes → Json → Option Bytes
key_of_type none item = none
key_of_type (some t) item =
    if t == ascii "image_ref" then key_or_none (string_at (ascii "key") item) else none

unfoldable pub image_key : Json → Option Bytes
image_key item = key_of_type (string_at (ascii "type") item) item

-- `HasImageRef`, of an array.
unfoldable pub has_image_ref : List Json → Bool
unfolding image_key
has_image_ref [] = false
has_image_ref (x ∷ xs) = if is_some (image_key x) then true else has_image_ref xs

abbrev pub text_json : Bytes → Json
text_json t = obj (field (ascii "text") (str t) (field (ascii "type") (str (ascii "text")) end))

-- `UserContentWithImages`.
abbrev pub text_part : Option Bytes → Option Bytes → List Json
text_part (some t) (some s) = if t == ascii "text" then text_json s ∷ [] else []
text_part (some t) none = []
text_part none s = []

abbrev pub user_part : Option Bytes → Json → List Json
user_part (some k) item =
    obj (field (ascii "key") (str k) (field (ascii "type") (str (ascii "image_ref")) end)) ∷ []
user_part none item = text_part (string_at (ascii "type") item) (string_at (ascii "text") item)

unfoldable pub user_content : List Json → List Json
unfolding image_key
user_content [] = []
user_content (x ∷ xs) = user_part (image_key x) x ++ user_content xs

-- `SystemMessage`.
abbrev pub system_with : Bytes → Option Json
system_with [] = none
system_with (c ∷ t) =
    some (
      obj (field (ascii "content") (str (c ∷ t)) (field (ascii "role") (str (ascii "system")) end)))

abbrev pub system_parsed : Option Json → Option Json
system_parsed none = none
system_parsed (some v) = system_with (flatten_content v)

unfoldable pub system_message : (Bytes → Option Json) → Bytes → Option Json
system_message parse [] = none
system_message parse (c ∷ text) = system_parsed (parse (c ∷ text))

abbrev pub prepend : Json → Mapped → Mapped
prepend m (messages ms) = messages (m ∷ ms)
prepend m (invalid t) = invalid t
prepend m thrown = thrown

abbrev pub tool_message : Bytes → Bytes → Json
tool_message id content = obj (
    field (ascii "content") (str content)
      (field (ascii "role") (str (ascii "tool")) (field (ascii "tool_call_id") (str id) end)))

-- A call with its type.
abbrev pub has_type : Fields → Bool
has_type fs = is_some (at (ascii "type") (obj fs))

-- `call["type"] = "function"` where the call has no type; none where that throws.
unfoldable pub typed_call : Json → Option Json
typed_call (obj fs) =
    some (obj (if has_type fs then fs else put_member (ascii "type") (str (ascii "function")) fs))
typed_call null = some (obj (field (ascii "type") (str (ascii "function")) end))
typed_call (boolean b) = none
typed_call (integer n) = none
typed_call (fraction t) = none
typed_call (str t) = none
typed_call (arr xs) = none

abbrev pub cons_both : Option Json → Option (List Json) → Option (List Json)
cons_both (some c) (some cs) = some (c ∷ cs)
cons_both (some c) none = none
cons_both none cs = none

unfoldable pub typed_calls : List Json → Option (List Json)
unfolding typed_call
typed_calls [] = some []
typed_calls (c ∷ cs) = cons_both (typed_call c) (typed_calls cs)

-- The members `role` and `tool_calls`, the last of a message.
abbrev pub role_and_calls : Bytes → Option (List Json) → Option Fields
role_and_calls role none = none
role_and_calls role (some []) = some (field (ascii "role") (str role) end)
role_and_calls role (some (c ∷ cs)) =
    some (
      field (ascii "role") (str role) (field (ascii "tool_calls") (arr (cons c (items_of cs))) end))

abbrev pub with_reasoning : Option Bytes → Fields → Fields
with_reasoning none fs = fs
with_reasoning (some t) fs = field (ascii "reasoning_content") (str t) fs

-- The content of a message that is no tool's.
abbrev pub flat_or_empty : Option Json → Json
flat_or_empty none = str []
flat_or_empty (some v) = str (flatten_content v)

abbrev pub content_json : Bytes → Option (List Json) → Option Json → Json
content_json role none v = flat_or_empty v
content_json role (some xs) v =
    if role == ascii "user" && has_image_ref xs
    then arr (items_of (user_content xs))
    else flat_or_empty v

abbrev pub calls_of_message : Option (List Json) → Option (List Json)
calls_of_message none = some []
calls_of_message (some cs) = typed_calls cs

abbrev pub one_message : Json → Option Bytes → Option Fields → Mapped
one_message content reasoning none = thrown
one_message content reasoning (some fs) =
    messages (obj (field (ascii "content") content (with_reasoning reasoning fs)) ∷ [])

abbrev pub role_or_user : Bytes → Bytes
role_or_user [] = ascii "user"
role_or_user (c ∷ r) = c ∷ r

module _ (dump : Json → Bytes) where
  abbrev pub value_text : Option Json → Bytes
  value_text none = []
  value_text (some v) = elim (string_of v) [ none ↦ dump v | some t ↦ t ]

  abbrev pub response_text : Option Json → Bytes
  response_text none = []
  response_text (some r) = value_text (at (ascii "value") r)

  -- An entry of a tool message with its id, and what the entries behind it give.
  abbrev pub tool_result : Json → Bytes → Mapped → Mapped
  tool_result entry [] rest = invalid (
      ascii "tool result for '"
      ++ (text_or (ascii "?") (ascii "name") entry
          ++ ascii "' has no id; OpenAI requires tool_call_id on every tool message"))
  tool_result entry (c ∷ id) rest =
      prepend (tool_message (c ∷ id) (response_text (at (ascii "response") entry))) rest

  unfoldable pub tool_results : List Json → Mapped
  tool_results [] = messages []
  tool_results (e ∷ es) =
      let rest = tool_results es in
      if is_object e then tool_result e (text_or [] (ascii "id") e) rest else rest

  abbrev pub of_tool : Option (List Json) → Mapped
  of_tool none = invalid (ascii "tool message has no content array")
  of_tool (some es) = tool_results es

  unfoldable pub plain_message : Bytes → Json → Mapped
  unfolding has_image_ref user_content typed_calls
  plain_message role m =
      one_message (content_json role (array_at (ascii "content") m) (at (ascii "content") m))
        (string_at (ascii "reasoning_content") m)
        (role_and_calls role (calls_of_message (array_at (ascii "tool_calls") m)))

  -- `ToOpenAiMessages` of a value that was parsed.
  unfoldable pub to_openai_messages : Option Json → Mapped
  unfolding tool_results plain_message
  to_openai_messages none = invalid (ascii "canonical message is not a JSON object")
  to_openai_messages (some m) =
      if not (is_object m)
      then invalid (ascii "canonical message is not a JSON object")
      else if text_or [] (ascii "role") m == ascii "tool"
      then of_tool (array_at (ascii "content") m)
      else plain_message (role_or_user (text_or [] (ascii "role") m)) m

-- `ResponseToCanonical` of a value that was parsed, before it is written; or the text of its
-- `InternalError`.
pub data Answer : Type 0 where
  answer : Json → Answer
  internal : Bytes → Answer

-- The usage, where a count is above nothing.
abbrev pub count_or_zero : Option ℕ → ℕ
count_or_zero none = 0
count_or_zero (some n) = n

abbrev pub usage_fields : ℕ → ℕ → Fields
usage_fields zero zero = end
usage_fields zero (suc n) =
    field (ascii "usage")
      (obj (
        field (ascii "input_tokens") (integer (pos 0))
          (field (ascii "output_tokens") (integer (pos (suc n))) end)))
      end
usage_fields (suc m) n =
    field (ascii "usage")
      (obj (
        field (ascii "input_tokens") (integer (pos (suc m)))
          (field (ascii "output_tokens") (integer (pos n)) end)))
      end

unfoldable pub usage_of : UsageProvider → Option Json → Fields
unfolding token_count output_token_count
usage_of p none = end
usage_of p (some u) =
    usage_fields (count_or_zero (token_count (at (ascii "prompt_tokens") u)))
      (count_or_zero (output_token_count u p))

abbrev pub calls_field : Option (List Json) → Fields → Fields
calls_field none fs = fs
calls_field (some []) fs = fs
calls_field (some (c ∷ cs)) fs = field (ascii "tool_calls") (arr (cons c (items_of cs))) fs

abbrev pub model_field : Option Bytes → Fields → Fields
model_field none fs = fs
model_field (some t) fs = field (ascii "model") (str t) fs

abbrev pub answer_json : Json → Json → Fields → Json
answer_json resp msg usage = obj (
    field (ascii "content") (arr (cons (text_json (text_or [] (ascii "content") msg)) nil)) (
      model_field (string_at (ascii "model") resp) (
        with_reasoning (string_at (ascii "reasoning_content") msg) (
          field (ascii "role") (str (ascii "assistant"))
            (calls_field (array_at (ascii "tool_calls") msg) usage)))))

module _ (p : UsageProvider) where
  abbrev pub of_message : Json → Option Json → Answer
  of_message resp none = internal (ascii "OpenAI response choice has no message object")
  of_message resp (some msg) =
      answer (answer_json resp msg (usage_of p (object_at (ascii "usage") resp)))

  abbrev pub of_choices : Json → Option (List Json) → Answer
  of_choices resp none = internal (ascii "OpenAI response has no choices")
  of_choices resp (some []) = internal (ascii "OpenAI response has no choices")
  of_choices resp (some (c ∷ cs)) = of_message resp (object_at (ascii "message") c)

  -- `ResponseToCanonical`.
  unfoldable pub response_to_canonical : Option Json → Answer
  unfolding usage_of
  response_to_canonical none = internal (ascii "OpenAI response is not valid JSON")
  response_to_canonical (some resp) = of_choices resp (array_at (ascii "choices") resp)
