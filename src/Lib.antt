-- ===== src/Lib.antt =====
-- Verification of agentflow, the C++ core of ZenAgent: graphs of agent nodes, the runner that
-- executes them, agents, sub-agents and their tools, the registry and templates of workflows, and
-- the parsing of what arrives over HTTP.
--
-- Parts and files.
-- * Core.Graph models agentflow/core/graph.h, graph.cc, edge.h and errors.h. `GraphBuilder` and
--   `Graph` are records of the classes' fields; `add_node`, `add_edge`, `add_edge_group`, `build`
--   and `find_node` are the methods; each loop of `Build` is a function. Exceptions are values of
--   `Result`. A node is its id and kind. The two-level map of conditions is one map on pairs.
--   Core.Graph.Valid says what a description has to satisfy; Correct and Errors compare `build` with it.
-- * Core.Runner models agentflow/core/runner.h and runner.cc: `Impl` has the mutable fields of
--   `Runner::Impl`, and Core.Runner.Machine has `launch`, the tail of a node's coroutine (`finish`)
--   and one step of the main loop of `Run` (`advance`). Core.Runner.Steps puts them together as a
--   relation: a step of the loop, or the end of any node in flight with any outcome. The work of
--   nodes, the cancel token and the checkpoint writer are the environment. On a single-threaded
--   executor a coroutine has no suspension between the end of its node's work and its signal, so
--   that part is one step; the token, which another thread may cancel, is read four times in it, and
--   `Cancelled` says between which two reads that happens. A `Runner` is fresh: a second `Run` of the
--   same object is not modelled. Counters of activation groups are signed and unbounded here.
-- * Core.Cancel models agentflow/core/cancel.h and cancel.cc: what `Cancel` and `OnCancel` do under
--   the mutex is one function each, and a relation interleaves these with the callbacks that threads
--   run afterwards, in any order. A token without a source does nothing.
-- * Net.Chunked models `ChunkedDecoder` of agentflow/net/http_parse.h and http_parse.cc. In the
--   loop the buffer is what lies behind `pos`. The loop takes fuel, one more than the length of the
--   buffer: each round that goes on consumes at least two bytes.
-- * Net.Sse models `FramePayload` and `SseFramer` of the same files. `buf` is the buffer that each
--   frame is erased from; `drain` is the loop of `Feed`, with the length of the buffer as fuel: a
--   frame takes two bytes at least, so without fuel the buffer is empty and the loop would end too.
-- * Net.Events models `SseEvent` and `SseEventFramer` of the same files; it shares the search for the
--   end of a frame with Net.Sse. The `unsigned` retry time wraps at 2^32.
-- * Net.Url models `ParseUrl` and Net.Head models `ParseResponseHead` of the same files; every early
--   return is a constructor of `Result`. The loop over the headers has the length of the header
--   block as fuel, and each round takes a byte at least.
-- * Tools models agentflow/tools: Tools.Registry the map of `ToolRegistry` and `AttachMcpServer`,
--   Tools.View `InvocationToolView`, Tools.Gated `GatedTool::Invoke` and Tools.Pool `McpClientPool`.
--   A tool is a number with its schema, or an adapter with its client; what clients, gates and
--   inner tools answer is an argument, and between the answers of a server the tools of the
--   registry may be others. The event callback of a gated tool may throw for any phase. The setter
--   of the pool's handler is two operations, as it leaves the mutex before it calls the clients, and
--   relations interleave them with other calls. `std::to_string` is written out, with one more than
--   the number as fuel.
-- * Inference.Accumulator models `StreamAccumulator` and the token counts of
--   agentflow/inference/openai. A frame is a JSON value, or none where it does not parse.
-- * Inference.Messages models agentflow/inference/openai/message_map.h and message_map.cc, but for
--   the body of a request: child modules have the repair of tool calls (Repair) and the image
--   references (Images). An exception of nlohmann::json is a value; an object has its keys in order.
--   The loop of the repair has the number of messages as fuel, and each round takes one at least.
--   Inference.Conversation models what `SendAsync` of openai_chat_backend.cc does with its history
--   around a request; a relation has the histories that any turns, answers and failures give.
-- * Nodes.Agent models agentflow/nodes/agent_node.h and agent_node.cc: `loop` is the loop of `Run`
--   with what is left of `max_iter` as fuel. A record `World` has what the backend, the tools and
--   the cancel token do in each round. The coroutines of tool calls share nothing and their results
--   are collected by place, so each call's dispatch is a function. `nlohmann::json::dump` is total
--   there, as it is on valid UTF-8. Inference.Canonical models `ExtractAssistantText` of
--   agentflow/inference/canonical_message.cc.
-- * Workflow.Registry models agentflow/workflow/workflow_registry.h and workflow_registry.cc, with
--   the events that the emitter is told; the mutex makes each call one step.
-- * Workflow.JsonPath models agentflow/workflow/json_path.h and json_path.cc, Workflow.Template
--   template_engine.h, template_engine.cc and eval_context.h. Both loops have the length of what is
--   left as fuel, and each round takes a byte. What `atoi` gives beyond 2^31 is an argument.
-- * Workflow.SubAgent models `SubAgentRuntime::RunAsync` of agentflow/workflow/sub_agent_runtime.h and
--   sub_agent_runtime.cc; it shares the reading of tool calls with Nodes.Agent. The random ids of
--   events are left out, and a nested delegation is the answer of a tool. Exceptions of the tools,
--   of the backend, of what opens the conversation and of the printing of the goal are values, which
--   leave the run where the source does not catch them; the emitter is taken not to throw.
-- * Workflow.Spec has the messages of proto/workflow_spec.proto. Workflow.Loader models
--   agentflow/workflow/workflow_loader.h and workflow_loader.cc: a child module for the mapping from
--   JSON (Parse), the checks (Checks), the search for cycles (Acyclic), the canonical form and the
--   signature (Signing) and `Load` with `LoadFromFile` (Load); `absl::Status` is a data type with the
--   codes in use. A frame of the search has the delegates that are left instead of an index, and the
--   search has as fuel two rounds for each agent and one for each delegate, which is enough: it
--   visits an agent once. A record `Host` has the JSON text, HMAC, base64, files and descriptors.
-- * Common has what the parts share: tests, lists, maps as association lists (walked in the order
--   in which the keys came in, where the source leaves the order open), signed integers, byte
--   strings with what the sources use of the standard library, JSON values with what the sources
--   look at. Parsing and printing JSON text is left to nlohmann::json.
--
-- Not modelled: `Runner::Resume`, the other nodes, the runner of workflows, the bodies and retries of
-- OpenAI requests, the MCP client and skills, which a later part can add; sockets, files, JNI and
-- the native engine are bindings with no logic of their own.
pub mod Common
pub mod Core
pub mod Net
pub mod Tools
pub mod Inference
pub mod Workflow
pub mod Nodes
