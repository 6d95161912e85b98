-- ===== src/Net.antt =====
-- agentflow/net: the parsing of HTTP/1.1 and of server-sent events.
pub mod Chunked
pub mod Sse
pub mod Url
pub mod Head
pub mod Events
