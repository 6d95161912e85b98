-- ===== src/Core/Graph.antt =====
-- agentflow/core/graph.h and graph.cc: edges, the builder and `Build`.
-- A node is its id and kind: nothing else of it is read here. `activation_group` is an `int` that
-- `AddEdge` keeps at zero or above. The two-level map of conditions is one map on pairs, and
-- moved-from vectors are empty.
pub mod Valid
pub mod Correct
pub mod Errors
mod Tests
use zen_agent.Common.{
  is_some, ℕ, zero, suc, ◌+◌, ◌≡◌, String, Bool, true, false, not, ◌&&◌, ◌||◌, List, [], ◌∷◌, ◌++◌,
  map, Option, none, some, eqb, if◌then◌else◌, ◌==◌, text_equality,
}
use zen_agent.Common.Assoc.{contains, lookup}
use zen_agent.Common.Int.{ℤ, pos, negsuc}

pub data Condition : Type 0 where
  all any : Condition

abbrev pub same_condition : Condition → Condition → Bool
same_condition all all = true
same_condition any any = true
same_condition all any = false
same_condition any all = false

pub record Edge : Type 0 where
  pub from : String
  pub to : String
  pub activation_group : ℕ
  pub condition : Condition

pub record Node : Type 0 where
  pub id : String
  pub kind : String

pub data GraphCompileError : Type 0 where
  user_group_not_positive : GraphCompileError
  duplicate_node_id : String → GraphCompileError
  edge_references_unknown_node : String → String → GraphCompileError
  conflicting_condition : String → ℕ → GraphCompileError
  no_entry_node : GraphCompileError

pub data Result {ℓ} (A : Type ℓ) : Type ℓ where
  ok : A → Result A
  err : GraphCompileError → Result A

infixl 5 ◌>>=◌
abbrev pub ◌>>=◌ {ℓ κ} : {A : Type ℓ} {B : Type κ} → Result A → (A → Result B) → Result B
ok a >>= f = f a
err e >>= f = err e

pub record Graph : Type 0 where
  pub nodes : List Node
  pub edges : List Edge
  pub id_to_index : List (String × ℕ)
  pub entry_ids : List String

pub record GraphBuilder : Type 0 where
  pub nodes : List Node
  pub edges : List Edge

unfoldable pub add_node : GraphBuilder → Node → GraphBuilder
add_node b n = record b { nodes = b.nodes ++ n ∷ [] }

unfoldable pub add_edge : GraphBuilder → String → String → Condition → GraphBuilder
add_edge b from to c = record b {
  edges = b.edges ++ (record { from = from; to = to; activation_group = 0; condition = c }) ∷ [];
}

-- The overload with a user group, which throws unless the group is positive.
unfoldable pub add_edge_group : GraphBuilder → String → String → ℤ → Condition → Result GraphBuilder
add_edge_group b from to (pos (suc g)) c = ok (record b {
  edges =
      b.edges ++ (record { from = from; to = to; activation_group = suc g; condition = c }) ∷ [];
})
add_edge_group b from to _ c = err user_group_not_positive

-- The first loop of `Build`: every id once, with its index.
unfoldable pub index_nodes : ℕ → List Node → List (String × ℕ) → Result (List (String × ℕ))
index_nodes i [] m = ok m
index_nodes i (n ∷ ns) m = elim (lookup n.id m) [
  | some _ ↦ err (duplicate_node_id n.id)
  | none ↦ index_nodes (i + 1) ns (m ++ (n.id, i) ∷ [])
]

-- The endpoint sanity check.
unfoldable pub check_endpoints : List (String × ℕ) → List Edge → Result (Unit {0})
check_endpoints m [] = ok tt
check_endpoints m (e ∷ es) =
    if not (is_some (lookup e.from m)) || not (is_some (lookup e.to m))
    then err (edge_references_unknown_node e.from e.to)
    else check_endpoints m es

-- `cond_by_node_group[to][group]`.
abbrev pub ConditionMap : Type 0
ConditionMap = List ((String × ℕ) × Condition)

unfoldable pub find_condition : String → ℕ → ConditionMap → Option Condition
find_condition to g [] = none
find_condition to g (((t, h), c) ∷ m) = if to == t && eqb g h then some c else find_condition to g m

-- The check of one edge against the condition that the map holds for its target and group.
unfoldable pub check_condition : Edge → ConditionMap → Option Condition → Result ConditionMap
check_condition e m none = ok (m ++ ((e.to, e.activation_group), e.condition) ∷ [])
check_condition e m (some c) =
    if same_condition c e.condition
    then ok m
    else err (conflicting_condition e.to e.activation_group)

unfoldable pub check_conditions : ConditionMap → List Edge → Result (Unit {0})
unfolding check_condition
check_conditions m [] = ok tt
check_conditions m (e ∷ es) =
    check_condition e m (find_condition e.to e.activation_group m) >>= λ m'. check_conditions m' es

-- Targets of the edges of group 0.
unfoldable pub has_g0_in : List Edge → List String
has_g0_in [] = []
has_g0_in (e ∷ es) = if eqb e.activation_group 0 then e.to ∷ has_g0_in es else has_g0_in es

unfoldable pub entry_ids_of : List String → List String → List String
entry_ids_of targets [] = []
entry_ids_of targets (i ∷ is) =
    if not (contains targets i) then i ∷ entry_ids_of targets is else entry_ids_of targets is

abbrev pub ids_of : List Node → List String
ids_of = map (λ n. n.id)

unfoldable pub check_entries : Graph → Result Graph
check_entries g = elim g.entry_ids [ [] ↦ err no_entry_node | _ ∷ _ ↦ ok g ]

unfoldable pub build_edges : List Node → List Edge → List (String × ℕ) → Result Graph
unfolding check_entries
build_edges nodes edges m = check_endpoints m edges >>= λ _. check_conditions [] edges >>= λ _.
    check_entries (record {
      nodes = nodes;
      edges = edges;
      id_to_index = m;
      entry_ids = entry_ids_of (has_g0_in edges) (ids_of nodes);
    })

-- The nodes are moved out first; the edges only when every id was new.
unfoldable pub build : GraphBuilder → GraphBuilder × Result Graph
unfolding build_edges
build b = elim (index_nodes 0 b.nodes []) [
  | ok m ↦ (record { nodes = []; edges = [] }, build_edges b.nodes b.edges m)
  | err e ↦ (record b { nodes = [] }, err e)
]

unfoldable pub nth : List Node → ℕ → Option Node
nth [] i = none
nth (n ∷ ns) zero = some n
nth (n ∷ ns) (suc i) = nth ns i

-- What an index that the table holds stands for.
unfoldable pub fetch : List Node → Option ℕ → Option Node
unfolding nth
fetch nodes none = none
fetch nodes (some i) = nth nodes i

unfoldable pub find_node : Graph → String → Option Node
unfolding fetch
find_node g id = fetch g.nodes (lookup id g.id_to_index)
