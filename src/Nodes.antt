-- ===== src/Nodes.antt =====
-- agentflow/nodes: the nodes of graphs.
pub mod Agent
