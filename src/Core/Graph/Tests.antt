-- ===== src/Core/Graph/Tests.antt =====
-- Runs of the builder, and the theorems at concrete graphs.
use zen_agent.Common.{◌≡◌, refl, ◌↔◌, [], ◌∷◌, String, text_equality}
use zen_agent.Core.Graph.{
  all, any, Node, Edge, GraphBuilder, Graph, ok, err, no_entry_node, conflicting_condition, build,
  index_nodes, check_endpoints, check_conditions, find_condition, has_g0_in, entry_ids_of,
}
use zen_agent.Core.Graph.Valid.{IsValid}
use zen_agent.Core.Graph.Correct.{compiled, build-ok_iff}
use zen_agent.Core.Graph.Errors.{Explains, build-err}
use zen_agent.Common.Assoc.{lookup, contains}
use zen_agent.Core.Graph.Correct.Index.{indexed}

abbrev node : String → Node
node i = record { id = i; kind = "stub" }

abbrev edge : String → String → Edge
edge a b = record { from = a; to = b; activation_group = 0; condition = all }

abbrev chain : GraphBuilder
chain = record { nodes = node "a" ∷ node "b" ∷ []; edges = edge "a" "b" ∷ [] }

abbrev ring : GraphBuilder
ring = record { nodes = node "a" ∷ node "b" ∷ []; edges = edge "a" "b" ∷ edge "b" "a" ∷ [] }

-- One node joins by ALL and by ANY in group 0.
abbrev mixed : GraphBuilder
mixed = record {
  nodes = node "a" ∷ node "b" ∷ node "c" ∷ [];
  edges =
      edge "a" "c" ∷ (record { from = "b"; to = "c"; activation_group = 0; condition = any }) ∷ [];
}

build-chain : (build chain).1 ≡ ok (compiled chain.nodes chain.edges)
unfolding build index_nodes check_endpoints check_conditions find_condition compiled indexed lookup
    entry_ids_of contains has_g0_in
build-chain = refl

build-ring : (build ring).1 ≡ err no_entry_node
unfolding build index_nodes check_endpoints check_conditions find_condition lookup has_g0_in
    entry_ids_of contains
build-ring = refl

build-mixed : (build mixed).1 ≡ err (conflicting_condition "c" 0)
unfolding build index_nodes check_endpoints check_conditions find_condition lookup has_g0_in
    entry_ids_of contains
build-mixed = refl

build-ok_iff_example : IsValid chain ↔ ((g : Graph) × ((build chain).1 ≡ ok g))
build-ok_iff_example = build-ok_iff chain

build-err_example : Explains mixed (conflicting_condition "c" 0)
build-err_example = build-err mixed (conflicting_condition "c" 0) build-mixed
