-- ===== src/Common/Int.antt =====
-- Signed integers over the native numbers.
use Prim.Native.Nat.{ℕ, zero, suc, ◌-◌, ◌%◌, ◌^◌}
use mathlib.Core.Bool.{Bool, true, false}
use mathlib.Core.Path.{◌≡◌}
use mathlib.Core.Logic.{◌↔◌}
use native.Mathlib.Omega.{arith}
use zen_agent.Common.Tests.{eqb, ltb, if◌then◌else◌}
use zen_agent.Common.Equality.{Equality}

-- `negsuc n` is -(n + 1).
pub data ℤ : Type 0 where
  pos : ℕ → ℤ
  negsuc : ℕ → ℤ

-- `n - 1`.
abbrev pub pred : ℤ → ℤ
pred (pos zero) = negsuc 0
pred (pos (suc n)) = pos n
pred (negsuc n) = negsuc (suc n)

-- `n + 1`.
abbrev pub incr : ℤ → ℤ
incr (pos n) = pos (suc n)
incr (negsuc zero) = pos 0
incr (negsuc (suc n)) = negsuc n

-- `n > 0`.
abbrev pub is_pos : ℤ → Bool
is_pos (pos zero) = false
is_pos (pos (suc n)) = true
is_pos (negsuc n) = false

-- `<` and `==`.
unfoldable pub int_before : ℤ → ℤ → Bool
int_before (pos m) (pos n) = ltb m n
int_before (pos m) (negsuc n) = false
int_before (negsuc m) (pos n) = true
int_before (negsuc m) (negsuc n) = ltb n m

abbrev pub int_same : ℤ → ℤ → Bool
int_same (pos m) (pos n) = eqb m n
int_same (pos m) (negsuc n) = false
int_same (negsuc m) (pos n) = false
int_same (negsuc m) (negsuc n) = eqb m n

pub int_same_iff : (a b : ℤ) → (int_same a b ≡ true) ↔ (a ≡ b)
int_same_iff (pos m) (pos n) = ground arith
int_same_iff (pos m) (negsuc n) = ground arith
int_same_iff (negsuc m) (pos n) = ground arith
int_same_iff (negsuc m) (negsuc n) = ground arith

instance abbrev pub int_equality : Equality ℤ
int_equality = record { same = int_same; same_iff = int_same_iff }

-- The order is strict, linear and transitive.
pub int_before_trans :
    (a b c : ℤ) → int_before a b ≡ true → int_before b c ≡ true → int_before a c ≡ true
unfolding int_before
int_before_trans (pos a) (pos b) (pos c) h k = ground arith
int_before_trans (pos a) (pos b) (negsuc c) h k = ground arith
int_before_trans (pos a) (negsuc b) c h k = ground arith
int_before_trans (negsuc a) (pos b) (pos c) h k = ground arith
int_before_trans (negsuc a) (pos b) (negsuc c) h k = ground arith
int_before_trans (negsuc a) (negsuc b) (pos c) h k = ground arith
int_before_trans (negsuc a) (negsuc b) (negsuc c) h k = ground arith

pub int_before-int_same : (a b : ℤ) → int_before a b ≡ true → int_same a b ≡ false
unfolding int_before
int_before-int_same (pos a) (pos b) h = ground arith
int_before-int_same (pos a) (negsuc b) h = ground arith
int_before-int_same (negsuc a) (pos b) h = ground arith
int_before-int_same (negsuc a) (negsuc b) h = ground arith

pub int_before_total :
    (a b : ℤ) → int_same a b ≡ false → int_before a b ≡ false → int_before b a ≡ true
unfolding int_before
int_before_total (pos a) (pos b) h k = ground arith
int_before_total (pos a) (negsuc b) h k = ground arith
int_before_total (negsuc a) (pos b) h k = ground arith
int_before_total (negsuc a) (negsuc b) h k = ground arith

-- `get<int>`: 32 bits in two's complement.
unfoldable pub signed32 : ℕ → ℤ
signed32 w = if ltb w (2 ^ 31) then pos w else negsuc (2 ^ 32 - 1 - w)

unfoldable pub to_int : ℤ → ℤ
unfolding signed32
to_int (pos n) = signed32 (n % 2 ^ 32)
to_int (negsuc n) = signed32 (2 ^ 32 - 1 - n % 2 ^ 32)

-- `get<uint32_t>`.
unfoldable pub wrap32 : ℤ → ℕ
wrap32 (pos n) = n % 2 ^ 32
wrap32 (negsuc n) = 2 ^ 32 - 1 - n % 2 ^ 32
