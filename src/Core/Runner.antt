-- ===== src/Core/Runner.antt =====
-- agentflow/core/runner.h and runner.cc: the state of `Runner::Impl` and what acts on it.
-- `S` stands for the states that nodes exchange, `X` for exceptions. A node's own work and the
-- cancel token belong to the environment: a coroutine ends with any outcome.
pub mod Machine
pub mod Steps
pub mod Invariant
pub mod History
pub mod Outcome
mod Tests
use zen_agent.Common.{
  ℕ, suc, ◌+◌, ◌-◌, ◌≡◌, String, Bool, true, false, not, ◌&&◌, List, [], ◌∷◌, ◌++◌, map, Option,
  none, some, eqb, if◌then◌else◌, ◌==◌, text_equality, ℕ_equality,
}
use zen_agent.Common.Assoc.{get, modify, keys, lookup}
use zen_agent.Common.Int.{ℤ, pos, negsuc, pred, incr, is_pos}
use zen_agent.Core.Graph.{Condition, all, any, Edge, Graph, ids_of}

-- `remaining_all`, `conditions` and `any_fired` are keyed by activation group.
pub record NodeActivation (S : Type 0) : Type 0 where
  pub remaining_all : List (ℕ × ℤ)
  pub conditions : List (ℕ × Condition)
  pub any_fired : List (ℕ × Bool)
  pub pending_inputs : List S
  pub times_fired : ℕ
  pub in_flight : Bool

pub data TraceEvent : Type 0 where
  node_start : String → TraceEvent
  node_failed : String → TraceEvent
  node_end : String → Bool → Bool → TraceEvent
  edge_fire : String → String → ℕ → TraceEvent
  graph_done : Bool → TraceEvent

-- What `MaybeWriteCheckpoint` hands to the writer.
pub record Checkpoint (S : Type 0) : Type 0 where
  pub state : S
  pub completed_nodes : List String

pub data CheckpointPolicy : Type 0 where
  off after_each_node after_terminal_node : CheckpointPolicy

pub record Impl (S X : Type 0) : Type 0 where
  pub activations : List (String × NodeActivation S)
  pub baseline : List (String × List (ℕ × ℤ))
  pub terminal_state : Option S
  pub in_flight_count : ℕ
  pub first_error : Option X
  pub completed_node_ids : List String
  pub trace : List TraceEvent
  pub checkpoints : List (Checkpoint S)

-- The counters of groups other than 0 go back to the baseline.
unfoldable pub reset_remaining : List (ℕ × ℤ) → List (ℕ × ℤ) → List (ℕ × ℤ)
reset_remaining base [] = []
reset_remaining base ((g, r) ∷ m) =
    (g, if eqb g 0 then r else get g (pos 0) base) ∷ reset_remaining base m

unfoldable pub reset_fired : List (ℕ × Bool) → List (ℕ × Bool)
reset_fired [] = []
reset_fired ((g, f) ∷ m) = (g, if eqb g 0 then f else false) ∷ reset_fired m

module _ {S : Type 0} where
  -- A default-constructed `NodeActivation`.
  abbrev pub idle_node : NodeActivation S
  idle_node = record {
    remaining_all = [];
    conditions = [];
    any_fired = [];
    pending_inputs = [];
    times_fired = 0;
    in_flight = false;
  }

  -- One edge of the second loop of `InitActivations`.
  unfoldable pub count_edge : Edge → NodeActivation S → NodeActivation S
  count_edge e na = record na {
    conditions = elim (lookup e.activation_group na.conditions) [
      | some _ ↦ na.conditions
      | none ↦ na.conditions ++ (e.activation_group, e.condition) ∷ []
    ];
    remaining_all = modify e.activation_group (pos 0) incr na.remaining_all;
    any_fired = modify e.activation_group false (λ fired. fired) na.any_fired;
  }

  unfoldable pub emplace_nodes :
      List String → List (String × NodeActivation S) → List (String × NodeActivation S)
  emplace_nodes [] m = m
  emplace_nodes (i ∷ is) m = emplace_nodes is (modify i idle_node (λ na. na) m)

  unfoldable pub count_edges :
      List Edge → List (String × NodeActivation S) → List (String × NodeActivation S)
  unfolding count_edge
  count_edges [] m = m
  count_edges (e ∷ es) m = count_edges es (modify e.to idle_node (count_edge e) m)

  -- `NodeReady`, one group at a time.
  unfoldable pub group_ready : NodeActivation S → ℕ → Condition → Bool
  group_ready na g c = if not (eqb g 0) && eqb na.times_fired 0 then true else elim c [
    | all ↦ not (is_pos (get g (pos 0) na.remaining_all))
    | any ↦ get g false na.any_fired
  ]

  unfoldable pub groups_ready : NodeActivation S → List (ℕ × Condition) → Bool
  unfolding group_ready
  groups_ready na [] = true
  groups_ready na ((g, c) ∷ gs) = group_ready na g c && groups_ready na gs

  unfoldable pub node_ready : NodeActivation S → Bool
  unfolding groups_ready
  node_ready na = groups_ready na na.conditions

  abbrev pub is_empty : List S → Bool
  is_empty [] = true
  is_empty (s ∷ ss) = false

  -- The tests of the dispatch loop.
  unfoldable pub dispatchable : NodeActivation S → Bool
  unfolding node_ready
  dispatchable na = not na.in_flight && (not (is_empty na.pending_inputs) && node_ready na)

  -- `MergeInputs`: last writer wins; `empty` is `State{}`.
  unfoldable pub merge_inputs : S → List S → S
  merge_inputs empty [] = empty
  merge_inputs empty (s ∷ ss) = merge_inputs s ss

  -- What `launch` does to the node's entry.
  unfoldable pub fire : List (ℕ × ℤ) → NodeActivation S → NodeActivation S
  unfolding reset_remaining reset_fired
  fire base na = record na {
    pending_inputs = [];
    in_flight = true;
    times_fired = na.times_fired + 1;
    remaining_all = reset_remaining base na.remaining_all;
    any_fired = reset_fired na.any_fired;
  }

  -- What one edge of the fan-out does to the entry of its target.
  unfoldable pub receive : Edge → S → NodeActivation S → NodeActivation S
  receive e out na = elim e.condition [
    | all ↦ record na {
      pending_inputs = na.pending_inputs ++ out ∷ [];
      remaining_all = modify e.activation_group (pos 0) pred na.remaining_all;
    }
    | any ↦ record na {
      pending_inputs = na.pending_inputs ++ out ∷ [];
      any_fired = modify e.activation_group false (λ _. true) na.any_fired;
    }
  ]
