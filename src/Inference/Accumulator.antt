-- ===== src/Inference/Accumulator.antt =====
-- agentflow/inference/openai/stream_accumulator.h and stream_accumulator.cc, token_usage.h: the
-- assistant message that the frames of a stream add up to.
pub mod Update
pub mod Calls
pub mod Named
pub mod Text
pub mod Tokens
mod Tests
use zen_agent.Common.{
  ℕ, zero, suc, ◌+◌, ◌-◌, ◌%◌, ◌^◌, Bool, true, false, not, ◌&&◌, ◌||◌, List, [], ◌∷◌, ◌++◌, Option,
  none, some, eqb, ltb, leb, if◌then◌else◌, ◌==◌, map,
}
use zen_agent.Common.Int.{to_int, ℤ, pos, negsuc, int_before, int_equality}
use zen_agent.Common.Bytes.{Bytes, ascii}
use zen_agent.Common.Json.{
  Json, integer, str, arr, obj, nil, cons, end, field, Fields, at, is_object, integer_of, array_of,
  string_at, object_at, array_at, items_of,
}

pub data UsageProvider : Type 0 where
  openai google deepseek : UsageProvider

-- `std::numeric_limits<long long>::max()`.
abbrev pub long_max : ℕ
long_max = 2 ^ 63 - 1

-- `ValidTokenCount` with the count.
unfoldable pub token_count : Option Json → Option ℕ
token_count none = none
token_count (some v) = elim (integer_of v) [
  | none ↦ none
  | some (negsuc n) ↦ none
  | some (pos n) ↦ if leb n long_max then some n else none
]

-- Vertex counts thinking tokens apart; a sum that does not fit leaves them out.
unfoldable pub with_thinking : ℕ → Option ℕ → ℕ
with_thinking completion none = completion
with_thinking completion (some thinking) =
    if ltb (long_max - completion) thinking then completion else completion + thinking

unfoldable pub thinking_of : Json → Option ℕ
unfolding token_count
thinking_of usage = elim (object_at (ascii "completion_tokens_details") usage) [
  | none ↦ none
  | some details ↦ token_count (at (ascii "reasoning_tokens") details)
]

unfoldable pub counted : Json → UsageProvider → ℕ → ℕ
unfolding with_thinking thinking_of
counted usage google completion = with_thinking completion (thinking_of usage)
counted usage deepseek completion = completion
counted usage openai completion = completion

-- `OutputTokenCount`.
unfoldable pub output_token_count : Json → UsageProvider → Option ℕ
unfolding counted token_count
output_token_count usage p = elim (token_count (at (ascii "completion_tokens") usage)) [
  | none ↦ none
  | some completion ↦ some (counted usage p completion)
]

pub record PartialCall : Type 0 where
  pub id : Bytes
  pub name : Bytes
  pub arguments : Bytes

abbrev pub no_call : PartialCall
no_call = record { id = []; name = []; arguments = [] }

pub record Accumulator : Type 0 where
  pub provider : UsageProvider
  pub text : Bytes
  pub finish_reason : Bytes
  pub reasoning : Bytes
  pub calls : List (ℤ × PartialCall)
  pub input_tokens : ℕ
  pub output_tokens : ℕ
  pub model : Bytes

abbrev pub or_kept : Bytes → Option Bytes → Bytes
or_kept old none = old
or_kept old (some new) = new

abbrev pub appended : Bytes → Option Bytes → Bytes
appended old none = old
appended old (some more) = old ++ more

-- The index of a fragment: 0 without one, none if it is no integer.
unfoldable pub index_from : Option Json → Option ℤ
unfolding to_int
index_from none = some (pos 0)
index_from (some v) = elim (integer_of v) [ none ↦ none | some n ↦ some (to_int n) ]

-- An update of `calls_[index]` in the ordered map.
unfoldable pub update :
    ℤ → (PartialCall → PartialCall) → List (ℤ × PartialCall) → List (ℤ × PartialCall)
unfolding int_before
update i f [] = (i, f no_call) ∷ []
update i f ((j, c) ∷ cs) =
    if i == j
    then (j, f c) ∷ cs
    else if int_before i j
    then (i, f no_call) ∷ (j, c) ∷ cs
    else (j, c) ∷ update i f cs

unfoldable pub add_function : Option Json → PartialCall → PartialCall
add_function none c = c
add_function (some fn) c = record c {
  name = or_kept c.name (string_at (ascii "name") fn);
  arguments = appended c.arguments (string_at (ascii "arguments") fn);
}

-- What one fragment does to its call.
unfoldable pub add_fragment : Json → PartialCall → PartialCall
unfolding add_function
add_fragment tc c =
    add_function (object_at (ascii "function") tc)
      (record c { id = or_kept c.id (string_at (ascii "id") tc) })

-- The index of a fragment that is not dropped.
unfoldable pub fragment_index : Json → Option ℤ
unfolding index_from
fragment_index tc = if is_object tc then index_from (at (ascii "index") tc) else none

unfoldable pub add_call : List (ℤ × PartialCall) → Json → List (ℤ × PartialCall)
unfolding fragment_index update add_fragment
add_call calls tc = elim (fragment_index tc) [
  | none ↦ calls
  | some i ↦ update i (add_fragment tc) calls
]

unfoldable pub add_calls : List (ℤ × PartialCall) → List Json → List (ℤ × PartialCall)
unfolding add_call
add_calls calls [] = calls
add_calls calls (tc ∷ tcs) = add_calls (add_call calls tc) tcs

abbrev pub listed_calls : List (ℤ × PartialCall) → Option (List Json) → List (ℤ × PartialCall)
listed_calls calls none = calls
listed_calls calls (some tcs) = add_calls calls tcs

abbrev pub delta_text : Option Bytes → Bytes
delta_text none = []
delta_text (some t) = t

unfoldable pub add_delta : Accumulator → Option Json → Accumulator × Bytes
unfolding add_calls
add_delta a none = (a, [])
add_delta a (some delta) =
    let content = string_at (ascii "content") delta in
    (
      record a {
        text = appended a.text content;
        reasoning = appended a.reasoning (string_at (ascii "reasoning_content") delta);
        calls = listed_calls a.calls (array_at (ascii "tool_calls") delta);
      },
      delta_text content,
    )

unfoldable pub add_choice : Accumulator → Json → Accumulator × Bytes
unfolding add_delta
add_choice a choice =
    if is_object choice
    then add_delta
        (record a {
          finish_reason = or_kept a.finish_reason (string_at (ascii "finish_reason") choice);
        })
        (object_at (ascii "delta") choice)
    else (a, [])

unfoldable pub add_choices : Accumulator → Option (List Json) → Accumulator × Bytes
unfolding add_choice
add_choices a none = (a, [])
add_choices a (some []) = (a, [])
add_choices a (some (choice ∷ others)) = add_choice a choice

abbrev pub tokens_or : ℕ → Option ℕ → ℕ
tokens_or old none = old
tokens_or old (some n) = n

unfoldable pub add_usage : Accumulator → Option Json → Accumulator
unfolding token_count output_token_count
add_usage a none = a
add_usage a (some usage) = record a {
  input_tokens = tokens_or a.input_tokens (token_count (at (ascii "prompt_tokens") usage));
  output_tokens = tokens_or a.output_tokens (output_token_count usage a.provider);
}

unfoldable pub add_model : Accumulator → Option Bytes → Accumulator
add_model a none = a
add_model a (some m) = elim a.model [ [] ↦ record a { model = m } | c ∷ s ↦ a ]

-- `Feed` on the parsed frame (none if it does not parse), with the text that it returns.
unfoldable pub feed_frame : Accumulator → Option Json → Accumulator × Bytes
unfolding add_choices add_usage add_model
feed_frame a none = (a, [])
feed_frame a (some f) =
    add_choices
      (add_usage (add_model a (string_at (ascii "model") f)) (object_at (ascii "usage") f))
      (array_at (ascii "choices") f)

abbrev pub feed_all : Accumulator → List (Option Json) → Accumulator × Bytes
feed_all a [] = (a, [])
feed_all a (f ∷ fs) =
    let first = feed_frame a f in let rest = feed_all first.0 fs in (rest.0, first.1 ++ rest.1)

abbrev text_entry : Bytes → Json
text_entry t = obj (field (ascii "type") (str (ascii "text")) (field (ascii "text") (str t) end))

unfoldable pub call_json : PartialCall → Json
call_json c = obj (
    field (ascii "id") (str c.id) (
      field (ascii "type") (str (ascii "function")) (
        field (ascii "function")
          (obj
            (field (ascii "name") (str c.name) (field (ascii "arguments") (str c.arguments) end)))
          end)))

abbrev unless_empty : Bytes → Bytes → Fields → Fields
unless_empty k [] fs = fs
unless_empty k (c ∷ s) fs = field k (str (c ∷ s)) fs

unfoldable pub usage_field : Accumulator → Fields → Fields
usage_field a fs =
    if ltb 0 a.input_tokens || ltb 0 a.output_tokens
    then field (ascii "usage")
        (obj (
          field (ascii "input_tokens") (integer (pos a.input_tokens))
            (field (ascii "output_tokens") (integer (pos a.output_tokens)) end)))
        fs
    else fs

unfoldable pub calls_field : List (ℤ × PartialCall) → Fields → Fields
unfolding call_json
calls_field [] fs = fs
calls_field (c ∷ cs) fs =
    field (ascii "tool_calls") (arr (items_of (map (λ e. call_json e.1) (c ∷ cs)))) fs

-- The value that `Canonical` prints.
unfoldable pub canonical : Accumulator → Json
unfolding usage_field calls_field
canonical a = obj (
    field (ascii "role") (str (ascii "assistant")) (
      field (ascii "content") (arr (items_of (text_entry a.text ∷ []))) (
        unless_empty (ascii "reasoning_content") a.reasoning (
          unless_empty (ascii "finish_reason") a.finish_reason
            (usage_field a (unless_empty (ascii "model") a.model (calls_field a.calls end)))))))
