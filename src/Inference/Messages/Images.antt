-- ===== src/Inference/Messages/Images.antt =====
-- The image references of messages, of agentflow/inference/openai/message_map.cc: their keys, the
-- URLs put in their place, and the text for those that expired.
pub mod Missing
pub mod Marked
use zen_agent.Common.{
  Bool, true, false, List, [], ◌∷◌, ◌++◌, Option, none, some, if◌then◌else◌, bytes_equality,
  bytes_eqb, ◌==◌,
}
use zen_agent.Common.Assoc.{contains, lookup}
use zen_agent.Common.Bytes.{Bytes, ascii}
use zen_agent.Common.Json.{
  Json, null, boolean, integer, fraction, str, arr, obj, Items, Fields, end, field, elements,
  items_of, array_at,
}
use zen_agent.Inference.Messages.{image_key, text_json}

-- A key that is put behind the others, once.
abbrev pub add_key : Bytes → List Bytes → List Bytes
add_key k keys = if contains keys k then keys else keys ++ k ∷ []

abbrev pub collect_key : Option Bytes → List Bytes → List Bytes
collect_key none keys = keys
collect_key (some k) keys = add_key k keys

unfoldable pub collect_items : List Json → List Bytes → List Bytes
unfolding image_key
collect_items [] keys = keys
collect_items (x ∷ xs) keys = collect_items xs (collect_key (image_key x) keys)

abbrev pub collect_content : Option (List Json) → List Bytes → List Bytes
collect_content none keys = keys
collect_content (some xs) keys = collect_items xs keys

unfoldable pub collect : List Json → List Bytes → List Bytes
unfolding collect_items
collect [] keys = keys
collect (m ∷ ms) keys = collect ms (collect_content (array_at (ascii "content") m) keys)

-- `CollectImageRefKeys`.
unfoldable pub collect_image_ref_keys : List Json → List Bytes
unfolding collect
collect_image_ref_keys ms = collect ms []

abbrev pub image_url : Bytes → Json
image_url url = obj (
    field (ascii "image_url") (obj (field (ascii "url") (str url) end))
      (field (ascii "type") (str (ascii "image_url")) end))

abbrev pub substituted : Option Bytes → Json → Json
substituted none item = item
substituted (some url) item = image_url url

abbrev pub missed : Option Bytes → Bytes → List Bytes → List Bytes
missed none k missing = add_key k missing
missed (some url) k missing = missing

abbrev pub before_items : Json → List Json × List Bytes → List Json × List Bytes
before_items x (xs, missing) = (x ∷ xs, missing)

-- The loop over the items of a content, with the keys that have no URL so far.
module _ (urls : List (Bytes × Bytes)) where
  abbrev pub substitute_item : Option Bytes → Json → List Bytes → Json × List Bytes
  substitute_item none item missing = (item, missing)
  substitute_item (some k) item missing =
      (substituted (lookup k urls) item, missed (lookup k urls) k missing)

  unfoldable pub substitute_items : List Json → List Bytes → List Json × List Bytes
  unfolding image_key
  substitute_items [] missing = ([], missing)
  substitute_items (x ∷ xs) missing =
      let (y, more) = substitute_item (image_key x) x missing in
      before_items y (substitute_items xs more)

-- A message whose content is changed in place.
unfoldable pub put_content : List Json → Fields → Fields
put_content xs end = end
put_content xs (field k v fs) =
    if bytes_eqb (ascii "content") k
    then field k (arr (items_of xs)) fs
    else field k v (put_content xs fs)

unfoldable pub with_content : List Json → Json → Json
unfolding put_content
with_content xs (obj fs) = obj (put_content xs fs)
with_content xs null = null
with_content xs (boolean b) = boolean b
with_content xs (integer n) = integer n
with_content xs (fraction t) = fraction t
with_content xs (str t) = str t
with_content xs (arr ys) = arr ys

module _ (urls : List (Bytes × Bytes)) where
  abbrev pub substitute_message : Option (List Json) → Json → List Bytes → Json × List Bytes
  substitute_message none m missing = (m, missing)
  substitute_message (some xs) m missing =
      let (ys, more) = substitute_items urls xs missing in (with_content ys m, more)

  -- `SubstituteImageRefs`, with the missing keys before and behind it.
  unfoldable pub substitute_image_refs : List Json → List Bytes → List Json × List Bytes
  unfolding substitute_items with_content
  substitute_image_refs [] missing = ([], missing)
  substitute_image_refs (m ∷ ms) missing =
      let (n, more) = substitute_message (array_at (ascii "content") m) m missing in
      before_items n (substitute_image_refs ms more)

-- The bytes of the text that stands for an expired image.
abbrev pub expired_text : Bytes
expired_text =
    91 ∷ 229 ∷ 155 ∷ 190 ∷ 231 ∷ 137 ∷ 135 ∷ 229 ∷ 183 ∷ 178 ∷ 229 ∷ 164 ∷ 177 ∷ 230 ∷ 149 ∷ 136
    ∷ 93 ∷ []

module _ (keys : List Bytes) where
  abbrev pub mark_key : Option Bytes → Json → Json
  mark_key none item = item
  mark_key (some k) item = if contains keys k then text_json expired_text else item

  unfoldable pub mark_items : List Json → List Json
  unfolding image_key
  mark_items [] = []
  mark_items (x ∷ xs) = mark_key (image_key x) x ∷ mark_items xs

  abbrev pub mark_content : Option (List Json) → Json → Json
  mark_content none m = m
  mark_content (some xs) m = with_content (mark_items xs) m

  -- `MarkImageRefsExpired`.
  unfoldable pub mark_image_refs_expired : List Json → List Json
  unfolding mark_items with_content
  mark_image_refs_expired [] = []
  mark_image_refs_expired (m ∷ ms) =
      mark_content (array_at (ascii "content") m) m ∷ mark_image_refs_expired ms
