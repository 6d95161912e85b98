-- ===== src/Core/Graph/Valid.antt =====
-- What a graph description has to satisfy, said without the maps and sets of `Build`.
use zen_agent.Common.{
  ◌≡◌, ◌≢◌, ◌↔◌, String, List, [], ◌∷◌, Option, none, some, In, Distinct, if◌then◌else◌, ◌==◌,
  text_equality,
}
use zen_agent.Core.Graph.{Edge, Node, GraphBuilder, Graph, ids_of, find_node}

abbrev pub HasEndpoints : List String → Edge → Type 0
HasEndpoints ids e = In e.from ids × In e.to ids

-- Two edges into the same group of the same node agree.
abbrev pub Agree : Edge → Edge → Type 0
Agree e f = e.to ≡ f.to → e.activation_group ≡ f.activation_group → e.condition ≡ f.condition

-- No edge of group 0 leads to the node.
abbrev pub IsEntry : List Edge → String → Type 0
IsEntry edges i = (e : Edge) → In e edges → e.activation_group ≡ 0 → e.to ≢ i

pub record IsValid (b : GraphBuilder) : Type 0 where
  pub distinct : Distinct (ids_of b.nodes)
  pub endpoints : (e : Edge) → In e b.edges → HasEndpoints (ids_of b.nodes) e
  pub consistent : (e f : Edge) → In e b.edges → In f b.edges → Agree e f
  pub entry : (i : String) × In i (ids_of b.nodes) × IsEntry b.edges i

-- The first node with the id.
unfoldable pub find_by_id : String → List Node → Option Node
find_by_id id [] = none
find_by_id id (n ∷ ns) = if id == n.id then some n else find_by_id id ns

-- The graph carries the description, and its derived parts say what they should of it.
pub record Describes (b : GraphBuilder) (g : Graph) : Type 0 where
  pub same_nodes : g.nodes ≡ b.nodes
  pub same_edges : g.edges ≡ b.edges
  pub entries : (i : String) → In i g.entry_ids ↔ (In i (ids_of b.nodes) × IsEntry b.edges i)
  pub finds : (i : String) → find_node g i ≡ find_by_id i b.nodes
