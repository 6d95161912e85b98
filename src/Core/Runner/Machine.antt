-- ===== src/Core/Runner/Machine.antt =====
-- agentflow/core/runner.cc: `launch`, the coroutine of a node, and the main loop of `Run`.
-- On a single-threaded executor a coroutine runs from the end of its node's work to its signal
-- with no suspension, so that part is one step; it may fall between any two steps of the loop.
use zen_agent.Common.{
  ℕ, zero, suc, ◌+◌, ◌-◌, String, Bool, true, false, not, List, [], ◌∷◌, ◌++◌, Option, none, some,
  eqb, if◌then◌else◌, ◌==◌, text_equality,
}
use zen_agent.Common.Assoc.{get, modify, keys}
use zen_agent.Core.Graph.{Edge, Graph}
use zen_agent.Core.Runner.{
  NodeActivation, TraceEvent, node_start, node_failed, node_end, edge_fire, graph_done,
  CheckpointPolicy, off, after_each_node, after_terminal_node, Impl, idle_node, dispatchable,
  merge_inputs, fire, receive,
}

-- How the work of a node ends.
pub data Ending (S X : Type 0) : Type 0 where
  produced : S → Ending S X
  raised : X → Ending S X

-- Where `Run` stands: launching the rest of a list, waiting on the channel, or over.
pub data Phase (S X : Type 0) : Type 0 where
  draining : List String → Phase S X
  waiting : Phase S X
  returned : S → Phase S X
  threw : X → Phase S X

-- `signals` counts the messages in the channel `done`.
pub record Machine (S X : Type 0) : Type 0 where
  pub impl : Impl S X
  pub phase : Phase S X
  pub signals : ℕ

-- `graph_`, the checkpoint policy, and `State{}`.
pub record Setup (S : Type 0) : Type 0 where
  pub graph : Graph
  pub policy : CheckpointPolicy
  pub empty_state : S

-- Does an edge leave the node?
unfoldable pub has_outgoing : String → List Edge → Bool
has_outgoing id [] = false
has_outgoing id (e ∷ es) = if e.from == id then true else has_outgoing id es

abbrev pub writes : CheckpointPolicy → Bool → Bool
writes off terminal = false
writes after_terminal_node terminal = terminal
writes after_each_node terminal = true

unfoldable pub keep_first {ℓ} : {X : Type ℓ} → X → Option X → Option X
keep_first x none = some x
keep_first x (some y) = some y

-- `next`: the nodes that can be launched now. The loop walks a map, so each id comes once.
unfoldable pub next_ids :
    {S : Type 0} → List String → List (String × NodeActivation S) → List String
next_ids [] m = []
next_ids (i ∷ is) m = if dispatchable (get i idle_node m) then i ∷ next_ids is m else next_ids is m

abbrev pub terminal_or : {S : Type 0} → S → Option S → S
terminal_or empty none = empty
terminal_or empty (some s) = s

-- Between which two of its reads by the tail of a coroutine the token is cancelled; it stays so.
pub data Cancelled : Type 0 where
  before_end before_log before_fan_out before_checkpoint not_yet : Cancelled

-- What the event of the end is told.
abbrev pub at_end : Cancelled → Bool
at_end before_end = true
at_end before_log = false
at_end before_fan_out = false
at_end before_checkpoint = false
at_end not_yet = false

module _ {S X : Type 0} where
  unfoldable pub emit : TraceEvent → Impl S X → Impl S X
  emit e st = record st { trace = st.trace ++ e ∷ [] }

  -- `launch`, up to the spawn of the coroutine, which starts by announcing its node. The input
  -- that it moves out is what the node is run on.
  unfoldable pub launch : String → Impl S X → Impl S X
  unfolding emit
  launch id st = emit (node_start id) (record st {
    activations = modify id idle_node (fire (get id [] st.baseline)) st.activations;
    in_flight_count = st.in_flight_count + 1;
  })

  unfoldable pub launch_input : S → String → Impl S X → S
  launch_input empty id st = merge_inputs empty (get id idle_node st.activations).pending_inputs

  unfoldable pub deliver : Edge → S → Impl S X → Impl S X
  unfolding emit
  deliver e out st =
      emit (edge_fire e.from e.to e.activation_group)
        (record st { activations = modify e.to idle_node (receive e out) st.activations })

  unfoldable pub fan_out : String → S → List Edge → Impl S X → Impl S X
  unfolding deliver
  fan_out id out [] st = st
  fan_out id out (e ∷ es) st = fan_out id out es (if e.from == id then deliver e out st else st)

  unfoldable pub note_terminal : Bool → S → Impl S X → Impl S X
  note_terminal true out st = st
  note_terminal false out st = record st { terminal_state = some out }

  -- `MaybeWriteCheckpoint`; the writer's own errors are ignored.
  unfoldable pub maybe_write_checkpoint : CheckpointPolicy → S → Bool → Impl S X → Impl S X
  maybe_write_checkpoint policy out terminal st =
      if writes policy terminal
      then record st {
        checkpoints =
            st.checkpoints
            ++ (record { state = out; completed_nodes = st.completed_node_ids }) ∷ [];
      }
      else st

  -- A node that succeeded and was not cancelled goes into the log.
  unfoldable pub log_completed : String → Impl S X → Impl S X
  log_completed id st = record st { completed_node_ids = st.completed_node_ids ++ id ∷ [] }

  -- The checkpoint of a node that was not cancelled by then.
  unfoldable pub checkpoint_node : Setup S → String → S → Cancelled → Impl S X → Impl S X
  checkpoint_node o id out not_yet st =
      maybe_write_checkpoint o.policy out (not (has_outgoing id o.graph.edges)) st
  checkpoint_node o id out before_checkpoint st = st
  checkpoint_node o id out before_fan_out st = st
  checkpoint_node o id out before_log st = st
  checkpoint_node o id out before_end st = st

  unfoldable pub send_out : Setup S → String → S → Impl S X → Impl S X
  send_out o id out st =
      note_terminal (has_outgoing id o.graph.edges) out (fan_out id out o.graph.edges st)

  -- The end of the node's work, up to the bookkeeping that every coroutine does. The token is read
  -- for the event, for the log, before the fan-out and before the checkpoint.
  unfoldable pub settle_node : Setup S → String → Ending S X → Cancelled → Impl S X → Impl S X
  unfolding emit keep_first send_out checkpoint_node
  settle_node o id (raised x) cancelled st =
      emit (node_end id (at_end cancelled) true)
        (emit (node_failed id) (record st { first_error = keep_first x st.first_error }))
  settle_node o id (produced out) before_end st = emit (node_end id true false) st
  settle_node o id (produced out) before_log st = emit (node_end id false false) st
  settle_node o id (produced out) before_fan_out st =
      log_completed id (emit (node_end id false false) st)
  settle_node o id (produced out) before_checkpoint st =
      checkpoint_node o id out before_checkpoint
        (send_out o id out (log_completed id (emit (node_end id false false) st)))
  settle_node o id (produced out) not_yet st =
      checkpoint_node o id out not_yet
        (send_out o id out (log_completed id (emit (node_end id false false) st)))

  unfoldable pub release : String → Impl S X → Impl S X
  release id st = record st {
    activations = modify id idle_node (λ na. record na { in_flight = false }) st.activations;
    in_flight_count = st.in_flight_count - 1;
  }

  -- The whole tail of a node's coroutine.
  unfoldable pub finish : Setup S → String → Ending S X → Cancelled → Machine S X → Machine S X
  finish o id ending cancelled m = record m {
    impl = release id (settle_node o id ending cancelled m.impl);
    signals = m.signals + 1;
  }

  unfoldable pub ready_now : Impl S X → List String
  ready_now st = next_ids (keys st.activations) st.activations

  -- The end of `Run`: it throws the first error, or returns the terminal state.
  unfoldable pub conclude : Setup S → Option X → Machine S X → Machine S X
  unfolding emit
  conclude o (some x) m = record m { impl = emit (graph_done true) m.impl; phase = threw x }
  conclude o none m = record m {
    impl = emit (graph_done false) m.impl;
    phase = returned (terminal_or o.empty_state m.impl.terminal_state);
  }

  -- The inner loop has looked for nodes to launch.
  unfoldable pub settle : Setup S → List String → Machine S X → Machine S X
  settle o (i ∷ is) m = record m { phase = draining (i ∷ is) }
  settle o [] m =
      if eqb m.impl.in_flight_count 0
      then conclude o m.impl.first_error m
      else record m { phase = waiting }

  -- After a message of the channel was received.
  unfoldable pub woken : Setup S → Option X → Machine S X → Machine S X
  woken o none m = record m { phase = draining [] }
  woken o (some x) m =
      if eqb m.impl.in_flight_count 0
      then conclude o (some x) m
      else record m { phase = draining [] }

  unfoldable pub main_step : Setup S → Phase S X → Machine S X → Machine S X
  main_step o (draining (i ∷ is)) m = record m { impl = launch i m.impl; phase = draining is }
  main_step o (draining []) m = settle o (ready_now m.impl) m
  main_step o waiting m = elim m.signals [
    | zero ↦ m
    | suc n ↦ woken o m.impl.first_error (record m { signals = n })
  ]
  main_step o (returned s) m = m
  main_step o (threw x) m = m

  -- One step of the main loop.
  unfoldable pub advance : Setup S → Machine S X → Machine S X
  advance o m = main_step o m.phase m
