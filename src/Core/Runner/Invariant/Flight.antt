-- ===== src/Core/Runner/Invariant/Flight.antt =====
-- Counting the nodes in flight, through updates of one entry.
use zen_agent.Common.{
  ℕ, ◌+◌, ◌≡◌, refl, String, Bool, true, false, [], ◌∷◌, arith, Bool-cases, inl, inr, ◌==◌,
  text_equality,
}
use zen_agent.Common.Assoc.{get, modify}
use zen_agent.Core.Runner.{NodeActivation, idle_node}
use zen_agent.Core.Runner.Steps.{Activations}

abbrev pub bit : Bool → ℕ
bit true = 1
bit false = 0

module _ {S : Type 0} where
  -- How many nodes are in flight.
  unfoldable pub flights : Activations S → ℕ
  flights [] = 0
  flights ((i, na) ∷ m) = bit na.in_flight + flights m

  pub flights-modify :
      (k : String) (f : NodeActivation S → NodeActivation S) (m : Activations S)
      → flights (modify k idle_node f m) + bit (get k idle_node m).in_flight
        ≡ flights m + bit (f (get k idle_node m)).in_flight
  unfolding flights modify get
  flights-modify k f [] = omega arith
  flights-modify k f ((j, na) ∷ m) = elim (Bool-cases (k == j)) [
    | inl e ↦ rw e (omega arith)
    | inr e ↦ rw e (omega (arith, flights-modify k f m))
  ]

  pub flights_zero :
      (k : String) (m : Activations S) → flights m ≡ 0 → (get k idle_node m).in_flight ≡ false
  unfolding flights get
  flights_zero k [] h = refl
  flights_zero k ((j, na) ∷ m) h = elim (Bool-cases (k == j)) [
    | inl e ↦ rw e (ground arith)
    | inr e ↦ rw e (flights_zero k m (omega arith))
  ]
