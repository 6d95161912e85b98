-- ===== src/Core.antt =====
-- agentflow/core: the graph and its compilation, the runner that executes it, and cancellation.
pub mod Graph
pub mod Runner
pub mod Cancel
