-- ===== src/Inference.antt =====
-- agentflow/inference: what is made of the messages to chat backends and of their answers.
pub mod Accumulator
pub mod Canonical
pub mod Messages
pub mod Conversation
