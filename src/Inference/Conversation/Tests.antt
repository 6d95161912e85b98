-- ===== src/Inference/Conversation/Tests.antt =====
-- A conversation with a call that was not executed, and one with images.
use zen_agent.Common.{◌≡◌, refl, List, [], ◌∷◌, Option, none, some, bytes_equality}
use zen_agent.Common.Assoc.{contains}
use zen_agent.Common.Bytes.{Bytes, ascii}
use zen_agent.Common.Json.{Json, str, arr, obj, end, field, nil, cons, put_member}
use zen_agent.Common.Bytes.Order.{before}
use zen_agent.Inference.Messages.{
  messages, thrown, tool_message, image_key, typed_call, typed_calls, plain_message,
  to_openai_messages,
}
use zen_agent.Inference.Messages.Repair.{
  not_executed, value_at, ids_of_calls, tool_run, missing, repair, repair_tool_call_pairing,
}
use zen_agent.Inference.Messages.Images.{
  collect_items, collect, collect_image_ref_keys, substitute_image_refs, mark_image_refs_expired,
}
use zen_agent.Inference.Messages.Images.Marked.{substitute_image_refs-marked}
use zen_agent.Inference.Conversation.{History, found, opened, on_wire, record_answer}
use zen_agent.Inference.Conversation.Requests.{IsResolved, on_wire-IsResolved}

abbrev dump : Json → Bytes
dump j = ascii "{}"

-- The calls of a turn, which are given their type.
abbrev call : Json
call = obj (field (ascii "id") (str (ascii "c1")) end)

abbrev turn : Json
turn = obj (
    field (ascii "role") (str (ascii "assistant"))
      (field (ascii "tool_calls") (arr (cons call nil)) end))

abbrev asked : Json
asked =
    obj (
      field (ascii "content") (str (ascii "go on")) (field (ascii "role") (str (ascii "user")) end))

abbrev typed_turn : Json
typed_turn = obj (
    field (ascii "content") (str []) (
      field (ascii "role") (str (ascii "assistant")) (
        field (ascii "tool_calls")
          (arr (
            cons
              (obj (
                field (ascii "id") (str (ascii "c1"))
                  (field (ascii "type") (str (ascii "function")) end)))
              nil))
          end)))

mapped_turn : to_openai_messages dump (some turn) ≡ messages (typed_turn ∷ [])
unfolding to_openai_messages plain_message typed_calls typed_call put_member before
mapped_turn = refl

-- A call that is no object.
escaped_call :
    to_openai_messages dump
      (some (obj (field (ascii "tool_calls") (arr (cons (str (ascii "c1")) nil)) end)))
    ≡ thrown
unfolding to_openai_messages plain_message typed_calls typed_call
escaped_call = refl

placeholder_added :
    repair_tool_call_pairing (typed_turn ∷ asked ∷ [])
    ≡ some (typed_turn ∷ tool_message (ascii "c1") not_executed ∷ asked ∷ [])
unfolding repair_tool_call_pairing repair tool_run missing ids_of_calls value_at contains
placeholder_added = refl

abbrev parse : Bytes → Option Json
parse t = none

abbrev previous : History
previous = record_answer (opened parse []) (to_openai_messages dump (some turn))

abbrev with_image : Json
with_image = obj (
    field (ascii "content")
      (arr (
        cons
          (obj (
            field (ascii "key") (str (ascii "k"))
              (field (ascii "type") (str (ascii "image_ref")) end)))
          nil))
      (field (ascii "role") (str (ascii "user")) end))

one_key : collect_image_ref_keys (with_image ∷ []) ≡ ascii "k" ∷ []
unfolding collect_image_ref_keys collect collect_items image_key contains
one_key = refl

abbrev urls : List (Bytes × Bytes)
urls = (ascii "k", ascii "https://host/k") ∷ []

substitute_image_refs-marked_example :
    (substitute_image_refs []
      (mark_image_refs_expired (substitute_image_refs [] (with_image ∷ []) []).1 (with_image ∷ []))
      []).1
    ≡ []
substitute_image_refs-marked_example = substitute_image_refs-marked [] (with_image ∷ [])

on_wire-IsResolved_example : IsResolved (on_wire [] (with_image ∷ []) (some (λ keys. found urls)))
on_wire-IsResolved_example = on_wire-IsResolved [] (with_image ∷ []) (some (λ keys. found urls))
