-- ===== src/Inference/Conversation/Requests.antt =====
-- What a conversation sends: the turns that are prepared and the image references of a request.
use zen_agent.Common.{◌≡◌, refl, List, [], ◌∷◌, Option, none, some, All}
use zen_agent.Common.Bytes.{Bytes}
use zen_agent.Common.Json.{Json}
use zen_agent.Inference.Messages.Repair.Paired.{Typed}
use zen_agent.Inference.Messages.Images.{collect_image_ref_keys, substitute_image_refs}
use zen_agent.Inference.Messages.Images.Missing.{collect_image_ref_keys-substitute}
use zen_agent.Inference.Conversation.{
  History, Prepared, ready, refused, escaped, Resolved, failed, found, Wire, wire, expired,
  without_missing, with_answer, with_keys, on_wire,
}

-- The history behind a refused request, of readable messages.
abbrev WireTyped : Wire → Type 0
WireTyped (wire ms) = Unit
WireTyped (expired after) = All Typed after

-- What a turn that is prepared leaves.
PreparedTyped : Prepared → Type 0
PreparedTyped (ready now) = All Typed now
PreparedTyped (refused after status) = All Typed after
PreparedTyped escaped = Unit

-- A request that is sent has no image reference left.
abbrev pub IsResolved : Wire → Type 0
IsResolved (wire ms) = collect_image_ref_keys ms ≡ []
IsResolved (expired after) = Unit

-- A request is sent only without image references: each has its URL, or the request is refused.
pub on_wire-IsResolved :
    (previous now : History) (resolver : Option (List Bytes → Resolved))
    → IsResolved (on_wire previous now resolver)
unfolding on_wire
on_wire-IsResolved previous now resolver = keys_of resolver (collect_image_ref_keys now) refl
  where
    missing_of :
        (p : List Json × List Bytes)
        → collect_image_ref_keys p.0 ≡ p.1
        → IsResolved (without_missing previous p)
    missing_of (ms, []) e = e
    missing_of (ms, k ∷ missing) e = tt

    answer_of : (a : Resolved) → IsResolved (with_answer previous now a)
    answer_of (failed status) = tt
    answer_of (found urls) =
        missing_of (substitute_image_refs urls now []) (collect_image_ref_keys-substitute urls now)

    keys_of :
        (r : Option (List Bytes → Resolved)) (keys : List Bytes)
        → collect_image_ref_keys now ≡ keys
        → IsResolved (with_keys previous now r keys)
    keys_of r [] e = e
    keys_of none (k ∷ keys) e = tt
    keys_of (some resolve) (k ∷ keys) e = answer_of (resolve (k ∷ keys))
