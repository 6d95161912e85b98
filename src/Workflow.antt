-- ===== src/Workflow.antt =====
-- agentflow/workflow: the registry of workflows, and the paths and templates of their specs, their
-- loading and their sub-agents.
pub mod Spec
pub mod Registry
pub mod JsonPath
pub mod Template
pub mod SubAgent
pub mod Loader
