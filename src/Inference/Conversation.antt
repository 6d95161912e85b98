-- ===== src/Inference/Conversation.antt =====
-- The history of a conversation in agentflow/inference/openai/openai_chat_backend.cc: what `SendAsync`
-- does with `messages_` around a request. What the resolver of images answers is an argument.
pub mod Paired
pub mod Requests
mod Tests
use zen_agent.Common.{
  ◌≡◌, Bool, true, false, List, [], ◌∷◌, ◌++◌, Option, none, some, ltb, if◌then◌else◌, length,
}
use zen_agent.Common.Bytes.{Bytes, ascii}
use zen_agent.Common.Json.{Json}
use zen_agent.Inference.Messages.{
  Mapped, messages, invalid, thrown, system_message, to_openai_messages,
}
use zen_agent.Inference.Messages.Repair.{repair_tool_call_pairing}
use zen_agent.Inference.Messages.Images.{
  collect_image_ref_keys, substitute_image_refs, mark_image_refs_expired,
}

abbrev pub History : Type 0
History = List Json

-- The messages of a request with the history, or the history behind a refusal; an exception leaves
-- it as it is.
pub data Prepared : Type 0 where
  ready : History → Prepared
  refused : History → Bytes → Prepared
  escaped : Prepared

-- What the resolver of image references answers: a status, or URLs.
pub data Resolved : Type 0 where
  failed : Bytes → Resolved
  found : List (Bytes × Bytes) → Resolved

pub data Wire : Type 0 where
  wire : List Json → Wire
  expired : History → Wire

abbrev pub of_system : Option Json → History
of_system none = []
of_system (some m) = m ∷ []

-- The constructor.
unfoldable pub opened : (Bytes → Option Json) → Bytes → History
opened parse text = of_system (system_message parse text)

-- The limit on images; a text turn stays in the history.
abbrev pub restored : History → List Bytes → History → History
restored previous [] now = now
restored previous (k ∷ keys) now = previous

unfoldable pub limited : History → List Json → History → Prepared
limited previous incoming now =
    if ltb 20 (length (collect_image_ref_keys now))
    then refused (restored previous (collect_image_ref_keys incoming) now)
        (ascii "too many images in session (max 20)")
    else ready now

abbrev pub repaired : History → List Json → Option History → Prepared
repaired previous incoming none = escaped
repaired previous incoming (some now) = limited previous incoming now

-- The turn that comes in, up to the request.
unfoldable pub prepare : History → Mapped → Prepared
unfolding limited
prepare previous (invalid t) = refused previous t
prepare previous thrown = escaped
prepare previous (messages incoming) =
    repaired previous incoming (repair_tool_call_pairing (previous ++ incoming))

-- The image references of a request.
abbrev pub without_missing : History → List Json × List Bytes → Wire
without_missing previous (ms, []) = wire ms
without_missing previous (ms, k ∷ missing) =
    expired (mark_image_refs_expired (k ∷ missing) previous)

abbrev pub with_answer : History → History → Resolved → Wire
with_answer previous now (failed status) = expired (mark_image_refs_expired [] previous)
with_answer previous now (found urls) = without_missing previous (substitute_image_refs urls now [])

abbrev pub with_keys : History → History → Option (List Bytes → Resolved) → List Bytes → Wire
with_keys previous now resolver [] = wire now
with_keys previous now none (k ∷ keys) = expired (mark_image_refs_expired (k ∷ keys) previous)
with_keys previous now (some resolve) (k ∷ keys) = with_answer previous now (resolve (k ∷ keys))

unfoldable pub on_wire : History → History → Option (List Bytes → Resolved) → Wire
on_wire previous now resolver = with_keys previous now resolver (collect_image_ref_keys now)

-- The answer is recorded where it can be mapped.
unfoldable pub record_answer : History → Mapped → History
record_answer now (messages ms) = now ++ ms
record_answer now (invalid t) = now
record_answer now thrown = now

-- The histories of a conversation, whatever comes in, is answered and fails.
module _ (dump : Json → Bytes) where
  pub data Reached : History → Type 0 where
    opens : (parse : Bytes → Option Json) (text : Bytes) → Reached (opened parse text)
    prepares :
        {previous : History} (now : History) (v : Option Json)
        → Reached previous
        → prepare previous (to_openai_messages dump v) ≡ ready now
        → Reached now
    refuses :
        {previous after : History} {status : Bytes} (v : Option Json)
        → Reached previous
        → prepare previous (to_openai_messages dump v) ≡ refused after status
        → Reached after
    expires :
        {previous after : History} (now : History) (resolver : Option (List Bytes → Resolved))
        → Reached previous
        → on_wire previous now resolver ≡ expired after
        → Reached after
    answers :
        (now : History) (v : Option Json)
        → Reached now
        → Reached (record_answer now (to_openai_messages dump v))
