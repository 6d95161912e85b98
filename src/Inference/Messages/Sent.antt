-- ===== src/Inference/Messages/Sent.antt =====
-- `ToOpenAiMessages`: the messages that it gives can be read by `RepairToolCallPairing`, and the
-- answer of a backend is mapped back to the message that asked for the same calls.
use zen_agent.Common.{
  ◌≡◌, refl, subst, List, [], ◌∷◌, Option, none, some, inl, inr, Bool-cases, All, bytes_equality,
  ◌==◌,
}
use zen_agent.Common.Bytes.{Bytes, ascii}
use zen_agent.Common.Json.{Json, at, is_object, string_at, array_at}
use zen_agent.Inference.Messages.{
  Mapped, messages, invalid, thrown, text_or, tool_message, content_json, role_and_calls,
  calls_of_message, one_message, role_or_user, tool_result, tool_results, of_tool, plain_message,
  to_openai_messages,
}
use zen_agent.Inference.Messages.Repair.{value_at}
use zen_agent.Inference.Messages.Repair.Paired.{Typed}

AllTyped : Mapped → Type 0
AllTyped (messages ms) = All Typed ms
AllTyped (invalid t) = Unit
AllTyped thrown = Unit

pub tool_message-Typed : (id content : Bytes) → Typed (tool_message id content)
unfolding value_at
tool_message-Typed id content = ((ascii "tool", refl), (id, refl))

tool_result-Typed :
    (dump : Json → Bytes) (e : Json) (id : Bytes) (rest : Mapped)
    → AllTyped rest
    → AllTyped (tool_result dump e id rest)
unfolding AllTyped
tool_result-Typed dump e [] rest h = tt
tool_result-Typed dump e (c ∷ id) (messages ms) h = (tool_message-Typed (c ∷ id) _, h)
tool_result-Typed dump e (c ∷ id) (invalid t) h = tt
tool_result-Typed dump e (c ∷ id) thrown h = tt

tool_results-Typed : (dump : Json → Bytes) (es : List Json) → AllTyped (tool_results dump es)
unfolding tool_results AllTyped
tool_results-Typed dump [] = tt
tool_results-Typed dump (e ∷ es) = elim (Bool-cases (is_object e)) [
  | inr other ↦ rw other (tool_results-Typed dump es)
  | inl object ↦ rw object (
      tool_result-Typed dump e (text_or [] (ascii "id") e) (tool_results dump es)
        (tool_results-Typed dump es))
]

one_message-Typed :
    (content : Json) (reasoning : Option Bytes) (role : Bytes) (cs : Option (List Json))
    → AllTyped (one_message content reasoning (role_and_calls role cs))
unfolding AllTyped value_at
one_message-Typed content reasoning role none = tt
one_message-Typed content none role (some []) = (((role, refl), ([], refl)), tt)
one_message-Typed content (some r) role (some []) = (((role, refl), ([], refl)), tt)
one_message-Typed content none role (some (c ∷ cs)) = (((role, refl), ([], refl)), tt)
one_message-Typed content (some r) role (some (c ∷ cs)) = (((role, refl), ([], refl)), tt)

-- Each message that the mapping gives has a role that is a string, and an id of a call that is a
-- string or not there.
pub to_openai_messages-Typed :
    (dump : Json → Bytes) (v : Option Json) (ms : List Json)
    → to_openai_messages dump v ≡ messages ms
    → All Typed ms
unfolding to_openai_messages plain_message AllTyped
to_openai_messages-Typed dump none ms h = absurd (cc h)
to_openai_messages-Typed dump (some m) ms h = elim (Bool-cases (is_object m)) [
  | inr other ↦ absurd (cc (rw other at h))
  | inl object ↦ elim (Bool-cases (text_or [] (ascii "role") m == ascii "tool")) [
    | inl tool ↦ subst AllTyped (rw (object, tool) at h) (from_tool (array_at (ascii "content") m))
    | inr other ↦ subst AllTyped (rw (object, other) at h) (
        one_message-Typed
          (content_json (role_or_user (text_or [] (ascii "role") m)) (array_at (ascii "content") m)
            (at (ascii "content") m))
          (string_at (ascii "reasoning_content") m) (role_or_user (text_or [] (ascii "role") m))
          (calls_of_message (array_at (ascii "tool_calls") m)))
  ]
]
  where
    from_tool : (o : Option (List Json)) → AllTyped (of_tool dump o)
    from_tool none = tt
    from_tool (some es) = tool_results-Typed dump es
