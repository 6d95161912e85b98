-- ===== src/Common/Bytes/Order.antt =====
-- The order of `std::string`: `operator<` on bytes.
use mathlib.Core.Path.{◌≡◌, refl}
use mathlib.Core.Bool.{Bool, true, false, ◌&&◌, ◌||◌}
use mathlib.Core.List.{[], ◌∷◌}
use native.Mathlib.Omega.{arith}
use zen_agent.Common.Tests.{ltb, eqb}
use zen_agent.Common.Equality.{bytes_eqb}
use zen_agent.Common.Bytes.{Bytes}

unfoldable pub before : Bytes → Bytes → Bool
before s [] = false
before [] (b ∷ t) = true
before (a ∷ s) (b ∷ t) = ltb a b || eqb a b && before s t

pub before_irrefl : (s : Bytes) → before s s ≡ false
unfolding before
before_irrefl [] = ground arith
before_irrefl (a ∷ s) = ground (arith, before_irrefl s)

pub before_trans : (s t u : Bytes) → before s t ≡ true → before t u ≡ true → before s u ≡ true
unfolding before
before_trans s t [] h k = cc
before_trans s [] (c ∷ u) h k = cc
before_trans [] (b ∷ t) (c ∷ u) h k = ground arith
before_trans (a ∷ s) (b ∷ t) (c ∷ u) h k = ground (arith, before_trans s t u)

pub before_total : (s t : Bytes) → before s t ≡ false → bytes_eqb s t ≡ false → before t s ≡ true
unfolding before
before_total [] [] h k = cc
before_total [] (b ∷ t) h k = cc
before_total (a ∷ s) [] h k = ground arith
before_total (a ∷ s) (b ∷ t) h k = ground (arith, before_total s t)

pub before_asym : (s t : Bytes) → before s t ≡ true → before t s ≡ false
unfolding before
before_asym [] [] h = cc
before_asym [] (b ∷ t) h = refl
before_asym (a ∷ s) [] h = cc
before_asym (a ∷ s) (b ∷ t) h = ground (arith, before_asym s t)
