-- ===== src/Core/Runner/Invariant/Ready.antt =====
-- Which nodes can be launched, across the steps of a run.
use zen_agent.Common.{
  ℕ, ◌≡◌, refl, true, false, List, [], ◌∷◌, ◌++◌, arith, eqb_iff, ℕ_equality, text_equality,
}
use zen_agent.Common.Assoc.{get, get-modify}
use zen_agent.Common.Int.{ℤ, pos, negsuc, pred, is_pos}
use zen_agent.Core.Graph.{Condition, Edge}
use zen_agent.Core.Runner.{
  NodeActivation, group_ready, groups_ready, node_ready, dispatchable, is_empty, receive,
}

is_pos-pred : (r : ℤ) → is_pos r ≡ false → is_pos (pred r) ≡ false
is_pos-pred (pos ℕ.zero) h = refl
is_pos-pred (pos (ℕ.suc n)) h = absurd (cc h)
is_pos-pred (negsuc n) h = refl

module _ {S : Type 0} (e : Edge) (out : S) where
  receive-group_ready :
      (na : NodeActivation S) (g : ℕ) (c : Condition)
      → group_ready na g c ≡ true
      → group_ready (receive e out na) g c ≡ true
  unfolding group_ready receive
  receive-group_ready na g c h = ground (
    arith,
    get-modify e.activation_group g (pos 0) pred na.remaining_all,
    get-modify e.activation_group g false (λ _. true) na.any_fired,
    is_pos-pred (get g (pos 0) na.remaining_all),
    eqb_iff g e.activation_group,
  )

  receive-groups_ready :
      (na : NodeActivation S) (gs : List (ℕ × Condition))
      → groups_ready na gs ≡ true
      → groups_ready (receive e out na) gs ≡ true
  unfolding groups_ready
  receive-groups_ready na [] h = refl
  receive-groups_ready na ((g, c) ∷ gs) h =
      ground (arith, receive-group_ready na g c, receive-groups_ready na gs)

  receive-fields :
      (na : NodeActivation S)
      → ((receive e out na).conditions ≡ na.conditions)
        × ((receive e out na).in_flight ≡ na.in_flight)
        × ((receive e out na).times_fired ≡ na.times_fired)
        × ((receive e out na).pending_inputs ≡ na.pending_inputs ++ out ∷ [])
  unfolding receive
  receive-fields na = ground arith

  pub receive-in_flight : (na : NodeActivation S) → (receive e out na).in_flight ≡ na.in_flight
  receive-in_flight na = (receive-fields na).1

  is_empty-snoc : (ss : List S) → is_empty (ss ++ out ∷ []) ≡ false
  is_empty-snoc [] = refl
  is_empty-snoc (s ∷ ss) = refl

  -- An arriving input leaves a node that can be launched so.
  pub receive-dispatchable :
      (na : NodeActivation S) → dispatchable na ≡ true → dispatchable (receive e out na) ≡ true
  unfolding dispatchable node_ready
  receive-dispatchable na h = ground (
    arith,
    receive-fields na,
    is_empty-snoc na.pending_inputs,
    receive-groups_ready na na.conditions,
  )
