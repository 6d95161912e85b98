-- ===== src/Core/Runner/Steps.antt =====
-- agentflow/core/runner.cc: `InitActivations`, the start of `Run`, and what may happen next.
use zen_agent.Common.{◌≡◌, String, true, List, [], ◌∷◌, ◌++◌, none, if◌then◌else◌, ℕ, text_equality}
use zen_agent.Common.Assoc.{get, modify}
use zen_agent.Common.Int.{ℤ}
use zen_agent.Core.Graph.{Graph, ids_of}
use zen_agent.Core.Runner.{NodeActivation, idle_node, emplace_nodes, count_edges, node_ready}
use zen_agent.Core.Runner.Machine.{Cancelled, Ending, Machine, Setup, draining, finish, advance}

abbrev pub Activations : Type 0 → Type 0
Activations S = List (String × NodeActivation S)

module _ {S : Type 0} where
  unfoldable pub init_activations : Graph → Activations S → Activations S
  init_activations g m = count_edges g.edges (emplace_nodes (ids_of g.nodes) m)

  -- `baseline_`: the counters alone.
  unfoldable pub snapshot : Activations S → List (String × List (ℕ × ℤ))
  snapshot [] = []
  snapshot ((id, na) ∷ m) = (id, na.remaining_all) ∷ snapshot m

  unfoldable pub push_input : S → NodeActivation S → NodeActivation S
  push_input s na = record na { pending_inputs = na.pending_inputs ++ s ∷ [] }

  -- The initial state goes to each entry node.
  unfoldable pub seed : S → List String → Activations S → Activations S
  seed s [] m = m
  seed s (i ∷ is) m = seed s is (modify i idle_node (push_input s) m)

  unfoldable pub ready_entries : List String → Activations S → List String
  ready_entries [] m = []
  ready_entries (i ∷ is) m =
      if node_ready (get i idle_node m) then i ∷ ready_entries is m else ready_entries is m

-- `Run` up to its first launch, on a fresh `Runner`: a second `Run` of the same object, which would
-- keep the activations, the first error and the terminal state of the first, is not modelled.
unfoldable pub start : {S X : Type 0} → Setup S → S → Machine S X
start o initial =
    let counted = init_activations o.graph [] in
    let seeded = seed initial o.graph.entry_ids counted in
    record {
      impl = record {
        activations = seeded;
        baseline = snapshot counted;
        terminal_state = none;
        in_flight_count = 0;
        first_error = none;
        completed_node_ids = [];
        trace = [];
        checkpoints = [];
      };
      phase = draining (ready_entries o.graph.entry_ids seeded);
      signals = 0;
    }

-- What may happen next: a step of the main loop, or the end of a node that is in flight, with
-- any outcome, the token cancelled at any of its reads or not.
pub data Step {S X : Type 0} (o : Setup S) : Machine S X → Machine S X → Type 0 where
  loop : (m : Machine S X) → Step o m (advance o m)
  ends :
      (m : Machine S X) (id : String) (ending : Ending S X) (cancelled : Cancelled)
      → (get id idle_node m.impl.activations).in_flight ≡ true
      → Step o m (finish o id ending cancelled m)

pub data Reach {S X : Type 0} (o : Setup S) (m : Machine S X) : Machine S X → Type 0 where
  here : Reach o m m
  next : {a b : Machine S X} → Reach o m a → Step o a b → Reach o m b
