-- ===== src/Inference/Canonical.antt =====
-- `ExtractAssistantText` of agentflow/inference/canonical_message.cc.
use zen_agent.Common.{List, [], ◌∷◌, ◌++◌, none, some, if◌then◌else◌, bytes_equality, ◌==◌}
use zen_agent.Common.Bytes.{Bytes, ascii}
use zen_agent.Common.Json.{Json, string_at, array_at}

-- The text of an item, where its type is that of a text; an item that is no object has no type.
unfoldable pub item_text : Json → Bytes
item_text item = elim (string_at (ascii "type") item) [
  | none ↦ []
  | some t ↦
      if t == ascii "text"
      then elim (string_at (ascii "text") item) [ none ↦ [] | some s ↦ s ]
      else []
]

unfoldable pub items_text : List Json → Bytes
unfolding item_text
items_text [] = []
items_text (x ∷ xs) = item_text x ++ items_text xs

-- The text of a value that was parsed.
unfoldable pub extract_assistant_text : Json → Bytes
unfolding items_text
extract_assistant_text v = elim (array_at (ascii "content") v) [
  | none ↦ []
  | some xs ↦ items_text xs
]
