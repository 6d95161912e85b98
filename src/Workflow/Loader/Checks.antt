-- ===== src/Workflow/Loader/Checks.antt =====
-- The checks of agentflow/workflow/workflow_loader.cc on limits, references and templates.
use zen_agent.Common.{
  ℕ, Bool, List, [], ◌∷◌, ◌++◌, Option, none, some, ltb, if◌then◌else◌, length, bytes_equality,
  ◌==◌,
}
use zen_agent.Common.Assoc.{contains, keys}
use zen_agent.Common.Bytes.{Bytes, ascii}
use zen_agent.Common.Bytes.Decimal.{to_string}
use zen_agent.Workflow.Spec.{DelegateSpec, AgentDef, WorkflowSpec, delegated}
use zen_agent.Workflow.Template.{
  TemplateError, unbalanced_open, unmatched_close, unknown_head, Parsed, ok, failed, paths, parse,
}
use zen_agent.Workflow.Loader.{Status, resource_exhausted, Result, err, invalid, ◌>>=◌, ◌>>◌, each}
use zen_agent.Workflow.Loader
use zen_agent.Workflow.Loader.Parse.{of_agent}

abbrev pub max_agents : ℕ
max_agents = 32

abbrev pub max_tools_per_agent : ℕ
max_tools_per_agent = 64

abbrev pub max_delegate_agents : ℕ
max_delegate_agents = 16

abbrev pub max_delegate_depth : ℕ
max_delegate_depth = 8

-- A number that is above its limit, with the words before it, between the two and behind.
unfoldable pub at_most : ℕ → ℕ → Bytes → Bytes → Bytes → Result (Unit {0})
at_most limit n before between behind =
    if ltb limit n
    then err
        (resource_exhausted (before ++ (to_string n ++ (between ++ (to_string limit ++ behind)))))
    else Loader.ok tt

abbrev pub check_delegate_limits : Bytes → Option DelegateSpec → Result (Unit {0})
check_delegate_limits name none = Loader.ok tt
check_delegate_limits name (some d) = do
  at_most max_delegate_agents (length d.agents) (of_agent name (ascii "' delegates "))
      (ascii " agents (limit ") (ascii ")")
  at_most max_delegate_depth d.max_depth (of_agent name (ascii "' delegate max_depth "))
      (ascii " > limit ") []

unfoldable pub check_agent_limits : Bytes × AgentDef → Result (Unit {0})
unfolding at_most
check_agent_limits (name, def) = do
  at_most max_tools_per_agent (length def.tools) (of_agent name (ascii "' has "))
      (ascii " tools (limit ") (ascii ")")
  check_delegate_limits name def.delegates

-- `CheckResourceLimits`.
unfoldable pub check_resource_limits : WorkflowSpec → ℕ → ℕ → Result (Unit {0})
unfolding at_most check_agent_limits
check_resource_limits spec json_bytes max_json_bytes = do
  at_most max_json_bytes json_bytes (ascii "workflow json size ") (ascii " > limit ") []
  at_most max_agents (length spec.agents) (ascii "agent count ") (ascii " > limit ") []
  each check_agent_limits spec.agents

module _ (has : Bytes → Bool) where
  unfoldable pub check_tool : Bytes → Bytes → Result (Unit {0})
  check_tool name t =
      if t == ascii "delegate"
      then invalid (
          of_agent name
            (ascii "' references reserved tool name 'delegate' (auto-registered by the runtime)"))
      else if has t
      then Loader.ok tt
      else invalid (of_agent name (ascii "' references unknown tool '" ++ (t ++ ascii "'")))

  unfoldable pub check_target : List Bytes → Bytes → Bytes → Result (Unit {0})
  check_target names name target =
      if contains names target
      then Loader.ok tt
      else invalid (of_agent name (ascii "' delegates to unknown agent '" ++ (target ++ ascii "'")))

  unfoldable pub check_agent_references : List Bytes → Bytes × AgentDef → Result (Unit {0})
  unfolding check_tool check_target
  check_agent_references names (name, def) = do
    each (check_tool name) def.tools
    each (check_target names name) (delegated def.delegates)

  abbrev pub check_main : List Bytes → Bytes → Result (Unit {0})
  check_main names [] = invalid (ascii "main is required")
  check_main names (c ∷ main) =
      if contains names (c ∷ main)
      then Loader.ok tt
      else invalid (ascii "main '" ++ ((c ∷ main) ++ ascii "' is not a declared agent"))

  -- `CheckReferences`, with the `Has` of the host's tools.
  unfoldable pub check_references : WorkflowSpec → Result (Unit {0})
  unfolding check_agent_references
  check_references spec = do
    check_main (keys spec.agents) spec.main
    each (check_agent_references (keys spec.agents)) spec.agents

unfoldable pub template_message : TemplateError → Bytes
template_message unbalanced_open = ascii "unbalanced '{{'"
template_message unmatched_close = ascii "unmatched '}}'"
template_message (unknown_head h) =
    ascii "unknown path head '" ++ (h ++ ascii "' (allowed: state, parent, tool, workflow, now)")

-- One path of a template.
unfoldable pub check_path : Bytes → List Bytes → List Bytes → Result (Unit {0})
check_path place names [] = Loader.ok tt
check_path place names (head ∷ []) =
    if head == ascii "state"
    then invalid (place ++ ascii ": template '{{state}}' missing field name")
    else Loader.ok tt
check_path place names (head ∷ name ∷ ps) =
    if head == ascii "state"
    then (if contains names name
        then Loader.ok tt
        else invalid (place ++ (ascii ": references unknown state field '" ++ (name ++ ascii "'"))))
    else Loader.ok tt

abbrev pub check_parsed : Bytes → List Bytes → Parsed → Result (Unit {0})
check_parsed place names (failed e) = invalid (place ++ (ascii ": " ++ template_message e))
check_parsed place names (ok t) = each (check_path place names) (paths t.segs)

-- `CheckOneTemplate`, with the place that its messages name.
unfoldable pub check_one_template : Bytes → List Bytes → Bytes → Result (Unit {0})
unfolding check_path template_message
check_one_template place names source = check_parsed place names (parse source)

abbrev pub check_goal : Bytes → List Bytes → Bytes → Result (Unit {0})
check_goal name names [] = Loader.ok tt
check_goal name names (c ∷ goal) =
    check_one_template (of_agent name (ascii "' delegates.goal_template")) names (c ∷ goal)

unfoldable pub check_input : Bytes → List Bytes → Bytes × Bytes → Result (Unit {0})
unfolding check_one_template
check_input name names (key, source) =
    check_one_template (of_agent name (ascii "' delegates.input_template[" ++ (key ++ ascii "]")))
      names source

unfoldable pub check_agent_templates : List Bytes → Bytes → Option DelegateSpec → Result (Unit {0})
unfolding check_input
check_agent_templates names name none = Loader.ok tt
check_agent_templates names name (some d) = do
  check_goal name names d.goal_template
  each (check_input name names) d.input_template

-- `CheckTemplates`.
unfoldable pub check_templates : WorkflowSpec → Result (Unit {0})
unfolding check_agent_templates
check_templates spec =
    each (λ a. check_agent_templates (keys spec.state.fields) (a.0) (a.1.delegates)) spec.agents
