-- ===== src/Core/Cancel/Tests.antt =====
-- The theorems at a concrete run: a callback before the cancellation, and one after it.
use zen_agent.Common.{◌≡◌, refl, true, [], ◌∷◌}
use zen_agent.Core.Cancel.{System, initial, after_cancel, after_register}
use zen_agent.Core.Cancel.Once.{cancels, registers, fires, Reach, begin, next, count, once_each}

abbrev waiting : System
waiting = after_register 7 initial

waiting-Reach : Reach waiting
waiting-Reach = next initial waiting begin (registers 7 initial)

abbrev late : System
late = after_register 8 (after_cancel waiting)

late-Reach : Reach late
late-Reach =
    next (after_cancel waiting) late
      (next waiting (after_cancel waiting) waiting-Reach (cancels waiting))
      (registers 8 (after_cancel waiting))

abbrev over : System
over = record late { firing = []; fired = 8 ∷ 7 ∷ [] }

over-Reach : Reach over
unfolding after_cancel after_register
over-Reach =
    next (record late { firing = 7 ∷ []; fired = 8 ∷ [] }) over
      (next late (record late { firing = 7 ∷ []; fired = 8 ∷ [] }) late-Reach
        (fires late (7 ∷ []) 8 [] refl))
      (fires (record late { firing = 7 ∷ []; fired = 8 ∷ [] }) [] 7 [] refl)

over-cancelled : over.state.cancelled ≡ true
unfolding after_cancel after_register
over-cancelled = refl

once_each_example : count 8 over.fired ≡ count 8 over.registered
once_each_example = once_each over over-Reach over-cancelled refl 8
