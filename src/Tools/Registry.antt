-- ===== src/Tools/Registry.antt =====
-- agentflow/tools/tool_registry.h and tool_registry.cc: the map of tools, and what attaching an MCP
-- server adds to it.
pub mod Laws
pub mod Attach
use zen_agent.Common.{
  ℕ, zero, suc, ◌+◌, String, Bool, true, false, not, ◌||◌, ◌&&◌, List, [], ◌∷◌, ◌++◌, Option, none,
  some, is_some, if◌then◌else◌, map, text_equality,
}
use zen_agent.Common.Assoc.{contains, lookup, modify}
use zen_agent.Tools.{ToolSchema, Tool, adapter, name_of, schema}

-- `tools_`.
abbrev pub Tools : Type 0
Tools = List (String × Tool)

-- `Register` replaces.
unfoldable pub register : Tool → Tools → Tools
register t tools = modify (name_of t) t (λ _. t) tools

unfoldable pub find : String → Tools → Option Tool
find name tools = lookup name tools

unfoldable pub has : String → Tools → Bool
has name tools = is_some (lookup name tools)

-- `TryRegisterIfAbsent` keeps what is there.
unfoldable pub try_register_if_absent : Tool → Tools → Tools × Bool
try_register_if_absent t tools =
    if is_some (lookup (name_of t) tools)
    then (tools, false)
    else (tools ++ (name_of t, t) ∷ [], true)

-- The fields of `McpServerSpec` that the registry reads itself.
pub record Policy : Type 0 where
  pub include_tools : List String
  pub exclude_tools : List String
  pub call_timeout_ms : ℕ
  pub lazy_start : Bool

-- The policy span of the caller, or the filter of the spec where the span is empty.
unfoldable pub filter_of : List String → List String → List String
filter_of [] own = own
filter_of (n ∷ span) own = n ∷ span

unfoldable pub skipped : List String → List String → ToolSchema → Bool
skipped [] exclude s = contains exclude s.name
skipped (n ∷ include) exclude s = not (contains (n ∷ include) s.name) || contains exclude s.name

pub record Counts : Type 0 where
  pub registered : ℕ
  pub skipped_collision : ℕ
  pub skipped_filtered : ℕ

abbrev pub no_counts : Counts
no_counts = record { registered = 0; skipped_collision = 0; skipped_filtered = 0 }

-- One schema of the server's list.
unfoldable pub attach_tool :
    (ToolSchema → Tool) → List String → List String → ToolSchema → Tools × Counts → Tools × Counts
attach_tool make include exclude s (tools, k) =
    if skipped include exclude s
    then (tools, record k { skipped_filtered = k.skipped_filtered + 1 })
    else let (tools', added) = try_register_if_absent (make s) tools in
      if added
      then (tools', record k { registered = k.registered + 1 })
      else (tools', record k { skipped_collision = k.skipped_collision + 1 })

unfoldable pub attach_tools :
    (ToolSchema → Tool)
    → List String
    → List String
    → List ToolSchema
    → Tools × Counts
    → Tools × Counts
unfolding attach_tool skipped try_register_if_absent
attach_tools make include exclude [] r = r
attach_tools make include exclude (s ∷ ss) r =
    attach_tools make include exclude ss (attach_tool make include exclude s r)

-- `absl::Status` and `absl::StatusOr` of the client, as far as the registry looks at them.
pub data Status : Type 0 where
  ok : Status
  failed : String → Status

pub data Listed : Type 0 where
  listed_tools : List ToolSchema → Listed
  list_failed : String → Listed

-- The part of `AttachMcpServer` behind the `tools/list` call.
unfoldable pub attach_listed :
    ℕ → Policy → List String → List String → Listed → Tools → Tools × Status
unfolding attach_tools filter_of
attach_listed client p include exclude (list_failed e) t =
    (t, if p.lazy_start then ok else failed e)
attach_listed client p include exclude (listed_tools ss) t = (
  (attach_tools (λ s. adapter client s p.call_timeout_ms "") (filter_of include p.include_tools)
      (filter_of exclude p.exclude_tools) ss (t, no_counts)).0,
  ok,
)

-- `AttachMcpServer` with the client that the pool gives (none without a pool), what its `Connect`
-- and `ListTools` answer, and the tools that stand in the registry when they have.
unfoldable pub attach_mcp_server :
    Option ℕ → Policy → List String → List String → Status → Listed → Tools → Tools × Status
unfolding attach_listed
attach_mcp_server none p include exclude connected listed t =
    (t, failed "AttachMcpServer requires the io_context-aware ToolRegistry ctor")
attach_mcp_server (some client) p include exclude ok listed t =
    attach_listed client p include exclude listed t
attach_mcp_server (some client) p include exclude (failed e) listed t =
    if p.lazy_start then attach_listed client p include exclude listed t else (t, failed e)

-- `Invoke`: the tool whose `Invoke` is called, or the error.
pub data Invocation : Type 0 where
  calls : Tool → Invocation
  tool_not_found : String → Invocation

unfoldable pub invoke : String → Tools → Invocation
invoke name tools = elim (lookup name tools) [ none ↦ tool_not_found name | some t ↦ calls t ]

-- The schemas that `ExportToolsJson` writes: those of the named tools, or all without names.
unfoldable pub exported_named : List String → Tools → List ToolSchema
exported_named [] tools = []
exported_named (n ∷ names) tools = elim (lookup n tools) [
  | none ↦ exported_named names tools
  | some t ↦ schema t ∷ exported_named names tools
]

unfoldable pub exported : List String → Tools → List ToolSchema
unfolding exported_named
exported [] tools = map (λ p. schema p.1) tools
exported (n ∷ names) tools = exported_named (n ∷ names) tools
