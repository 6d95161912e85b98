-- ===== src/Core/Runner/Tests.antt =====
-- Runs of the machine on a small graph, and the theorems at those runs.
use zen_agent.Common.{ℕ, ◌≡◌, ◌≢◌, refl, String, true, [], ◌∷◌, some, text_equality, ℕ_equality}
use zen_agent.Common.Assoc.{lookup, get, modify, contains}
use zen_agent.Core.Graph.{
  Edge, Node, GraphBuilder, all, build, ok, index_nodes, check_endpoints, check_conditions,
  find_condition, entry_ids_of, has_g0_in,
}
use zen_agent.Core.Graph.Correct.{compiled}
use zen_agent.Core.Graph.Correct.Index.{indexed}
use zen_agent.Core.Runner.{
  after_terminal_node, off, count_edges, emplace_nodes, dispatchable, merge_inputs, receive, fire,
  node_ready,
}
use zen_agent.Core.Runner.Machine.{
  not_yet, Machine, Setup, produced, raised, returned, threw, advance, finish, main_step, launch,
  settle, settle_node, release, ready_now, next_ids, conclude,
}
use zen_agent.Core.Runner.Steps.{
  start, Reach, here, next, loop, ends, init_activations, seed, push_input, ready_entries,
}
use zen_agent.Core.Runner.Invariant.{Inv}
use zen_agent.Core.Runner.Invariant.Begin.{run-Inv}
use zen_agent.Core.Runner.History.{successes}
use zen_agent.Core.Runner.Outcome.{completed-successes, failed_run}

abbrev node : String → Node
node i = record { id = i; kind = "stub" }

abbrev edge : String → String → Edge
edge a b = record { from = a; to = b; activation_group = 0; condition = all }

-- a feeds b and c, and d joins them.
abbrev diamond : GraphBuilder
diamond = record {
  nodes = node "a" ∷ node "b" ∷ node "c" ∷ node "d" ∷ [];
  edges = edge "a" "b" ∷ edge "a" "c" ∷ edge "b" "d" ∷ edge "c" "d" ∷ [];
}

abbrev setup : Setup ℕ
setup = record {
  graph = compiled diamond.nodes diamond.edges;
  policy = after_terminal_node;
  empty_state = 0;
}

build-diamond : (build diamond).1 ≡ ok setup.graph
unfolding build index_nodes check_endpoints check_conditions find_condition compiled indexed lookup
    entry_ids_of contains has_g0_in
build-diamond = refl

abbrev begin : Machine ℕ String
begin = start setup 7

-- a is in flight.
abbrev launched : Machine ℕ String
launched = advance setup begin

abbrev after_a : Machine ℕ String
after_a = finish setup "a" (produced 8) not_yet launched

-- a failed instead.
abbrev broken : Machine ℕ String
broken = finish setup "a" (raised "boom") not_yet launched

abbrev over : Machine ℕ String
over = advance setup broken

in_flight_a : (get "a" zen_agent.Core.Runner.idle_node launched.impl.activations).in_flight ≡ true
unfolding advance main_step launch fire start init_activations seed push_input ready_entries
    node_ready compiled count_edges emplace_nodes lookup get modify has_g0_in entry_ids_of contains
in_flight_a = refl

Reach-launched : Reach setup begin launched
Reach-launched = next here (loop begin)

Reach-after_a : Reach setup begin after_a
Reach-after_a = next Reach-launched (ends launched "a" (produced 8) not_yet in_flight_a)

Reach-broken : Reach setup begin broken
Reach-broken = next Reach-launched (ends launched "a" (raised "boom") not_yet in_flight_a)

broken_error : broken.impl.first_error ≡ some "boom"
unfolding finish release settle_node advance main_step launch fire start init_activations seed
    push_input ready_entries node_ready compiled count_edges emplace_nodes lookup get modify
    has_g0_in entry_ids_of contains
broken_error = refl

run-Inv_example : Inv setup after_a
run-Inv_example = run-Inv setup 7 diamond build-diamond Reach-after_a

completed-successes_example : after_a.impl.completed_node_ids ≡ successes after_a.impl.trace
completed-successes_example =
    completed-successes setup 7
      (next (next here (loop begin)) (ends launched "a" (produced 8) not_yet in_flight_a))
      ((tt, tt), λ e. cc e)

failed_run_example :
    ((s : ℕ) → over.phase ≢ returned s) × ((y : String) → over.phase ≡ threw y → y ≡ "boom")
failed_run_example =
    failed_run setup diamond 7 "boom" build-diamond Reach-broken broken_error
      (next here (loop broken))

-- The run of the failed node ends.
over_threw : over.phase ≡ threw "boom"
unfolding finish release settle_node advance main_step launch settle conclude ready_now next_ids
    dispatchable fire start init_activations seed push_input ready_entries node_ready compiled
    count_edges emplace_nodes lookup get modify has_g0_in entry_ids_of contains
over_threw = refl
