-- ===== src/Tools.antt =====
-- agentflow/tools: tools, their registry, the pool of MCP clients, and the slices that invocations see.
pub mod Registry
pub mod View
pub mod Gated
pub mod Pool
mod Tests
use zen_agent.Common.{ℕ, String, Bool, List, Option, some, none}

pub record ToolSchema : Type 0 where
  pub name : String
  pub description : String
  pub params_json_schema : String

-- `std::shared_ptr<Tool>`: a tool of the host, told apart by a number, or an `McpToolAdapter` with
-- its client, its timeout and the session of its call context.
pub data Tool : Type 0 where
  native : ℕ → ToolSchema → Tool
  adapter : ℕ → ToolSchema → ℕ → String → Tool

abbrev pub schema : Tool → ToolSchema
schema (native i s) = s
schema (adapter c s t x) = s

-- `tool->Schema().name`.
abbrev pub name_of : Tool → String
name_of t = (schema t).name
