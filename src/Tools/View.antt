-- ===== src/Tools/View.antt =====
-- agentflow/tools/invocation_tool_view.h and invocation_tool_view.cc: the tools that one run sees.
pub mod Slice
use zen_agent.Common.{
  String, Bool, true, false, List, [], ◌∷◌, ◌++◌, Option, none, some, is_some, if◌then◌else◌, map,
  text_equality, ◌==◌,
}
use zen_agent.Common.Assoc.{lookup, get, modify}
use zen_agent.Tools.{ToolSchema, Tool, native, adapter, name_of, schema}
use zen_agent.Tools.Registry.{Tools, find}
use zen_agent.Tools.Gated.{ToolTier, readonly, confirm, blocked}

-- A `GatedTool`; the context and the gate are those of the whole view.
pub record Gate : Type 0 where
  pub inner : Tool
  pub tier : ToolTier

-- What the view holds under a name: a declared tool is gated, one that is added stands as it is.
pub data Entry : Type 0 where
  gated : Gate → Entry
  ungated : Tool → Entry

abbrev pub View : Type 0
View = List (String × Entry)

-- `WithCallContext`, for a session, on an adapter.
unfoldable pub with_session : String → Tool → Tool
with_session session (native i s) = native i s
with_session session (adapter c s t x) =
    if session == "" then adapter c s t x else adapter c s t session

unfoldable pub emplace : String → Entry → View → View
emplace n g v = if is_some (lookup n v) then v else v ++ (n, g) ∷ []

abbrev pub guarded : String → String → Tool → ToolTier → View → View
guarded session n inner blocked v = v
guarded session n inner readonly v =
    emplace n (gated (record { inner = with_session session inner; tier = readonly })) v
guarded session n inner confirm v =
    emplace n (gated (record { inner = with_session session inner; tier = confirm })) v

-- One declared name.
unfoldable pub add_declared : Tools → List (String × ToolTier) → String → String → View → View
unfolding with_session emplace
add_declared registry tiers session n v = elim (find n registry) [
  | none ↦ v
  | some inner ↦ guarded session n inner (get n readonly tiers) v
]

-- The constructor, from the view `v` on.
unfoldable pub view_from : Tools → List (String × ToolTier) → String → List String → View → View
unfolding add_declared
view_from registry tiers session [] v = v
view_from registry tiers session (n ∷ names) v =
    view_from registry tiers session names (add_declared registry tiers session n v)

-- `Add`, of a tool or a null pointer.
unfoldable pub add : Option Tool → View → View
add none v = v
add (some t) v = modify (name_of t) (ungated t) (λ _. ungated t) v

unfoldable pub view_has : String → View → Bool
view_has n v = is_some (lookup n v)

-- `Invoke`: the tool that is called, or the error text.
pub data ViewCall : Type 0 where
  calls : Entry → ViewCall
  tool_not_allowed : ViewCall

unfoldable pub view_invoke : String → View → ViewCall
view_invoke n v = elim (lookup n v) [ none ↦ tool_not_allowed | some g ↦ calls g ]
