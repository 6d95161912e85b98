-- ===== src/Workflow/Loader/Acyclic.antt =====
-- `CheckAcyclic` of agentflow/workflow/workflow_loader.cc: a depth-first search with three colours.
-- A frame of the stack is an agent with the delegates that are left of it.
pub mod Search
mod Work
mod Rounds
pub mod Correct
use zen_agent.Common.{
  ℕ, zero, suc, ◌+◌, List, [], ◌∷◌, ◌++◌, Option, none, some, length, map, bytes_equality,
}
use zen_agent.Common.Assoc.{lookup, get, modify, keys}
use zen_agent.Common.Bytes.{Bytes, ascii}
use zen_agent.Workflow.Spec.{AgentDef, Agents, delegated}
use zen_agent.Workflow.Loader.{Result, ok, invalid}

pub data Color : Type 0 where
  white : Color
  gray : Color
  black : Color

abbrev pub Colors : Type 0
Colors = List (Bytes × Color)

abbrev pub Stack : Type 0
Stack = List (Bytes × List Bytes)

abbrev pub children_of : Option AgentDef → List Bytes
children_of none = []
children_of (some def) = delegated def.delegates

-- `color[n] = c`.
abbrev pub paint : Bytes → Color → Colors → Colors
paint n c = modify n c (λ _. c)

-- One round of the loop: the colours and the stack behind it, or the agent that closes a cycle.
pub data Moved : Type 0 where
  moves : Colors → Stack → Moved
  closes : Bytes → Moved

-- How a search ends.
pub data Searched : Type 0 where
  cycle_at : Bytes → Searched
  searched : Colors → Searched

unfoldable pub all_white : List Bytes → Colors
all_white [] = []
all_white (n ∷ ns) = (n, white) ∷ all_white ns

abbrev pub verdict : Searched → Result (Unit {0})
verdict (cycle_at c) =
    invalid (ascii "delegation cycle detected through agent '" ++ (c ++ ascii "'"))
verdict (searched color) = ok tt

module _ (agents : Agents) where
  unfoldable pub children : Bytes → List Bytes
  children n = children_of (lookup n agents)

  unfoldable pub visit : Option Color → Bytes → Colors → Stack → Moved
  unfolding children
  visit none c color st = moves color st
  visit (some white) c color st = moves (paint c gray color) ((c, children c) ∷ st)
  visit (some gray) c color st = closes c
  visit (some black) c color st = moves color st

  unfoldable pub step : Colors → Bytes → List Bytes → Stack → Moved
  unfolding visit
  step color cur [] st = moves (paint cur black color) st
  step color cur (c ∷ cs) st = visit (lookup c color) c color ((cur, cs) ∷ st)

  -- The loop `while (!stack.empty())`.
  unfoldable pub search : ℕ → Colors → Stack → Searched
  unfolding step
  search f color [] = searched color
  search zero color (x ∷ st) = searched color
  search (suc f) color ((cur, cs) ∷ st) = elim (step color cur cs st) [
    | closes c ↦ cycle_at c
    | moves color' st' ↦ search f color' st'
  ]

  -- The rounds of a search: two for each agent, and one for each delegate.
  unfoldable pub work : List Bytes → ℕ
  unfolding children
  work [] = 0
  work (n ∷ ns) = length (children n) + 2 + work ns

  abbrev pub search_from : Bytes → Colors → Color → Searched
  search_from n color white =
      search (work (keys agents)) (paint n gray color) ((n, children n) ∷ [])
  search_from n color gray = searched color
  search_from n color black = searched color

  -- The loop over all agents.
  unfoldable pub search_all : List Bytes → Colors → Searched
  unfolding search work
  search_all [] color = searched color
  search_all (n ∷ ns) color = elim (search_from n color (get n white color)) [
    | cycle_at c ↦ cycle_at c
    | searched color' ↦ search_all ns color'
  ]

  -- `CheckAcyclic`.
  unfoldable pub check_acyclic : Result (Unit {0})
  unfolding search_all all_white
  check_acyclic = verdict (search_all (keys agents) (all_white (keys agents)))
