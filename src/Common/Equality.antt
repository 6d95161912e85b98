-- ===== src/Common/Equality.antt =====
-- Decidable equality as an interface, with the types that the models compare.
use Prim.Native.Nat.{ℕ}
use Prim.Native.String.{String}
use text.Mathlib.Text.{◌==◌ as str_eq}
use text.Mathlib.TextEquality.{eq_iff}
use mathlib.Core.Path.{◌≡◌}
use mathlib.Core.Logic.{◌↔◌}
use mathlib.Core.Bool.{Bool, true, false, ◌&&◌}
use mathlib.Core.List.{List, [], ◌∷◌}
use native.Mathlib.Omega.{arith}
use zen_agent.Common.Tests.{eqb, eqb_iff}

-- A test on a type, and its meaning.
pub record Equality {ℓ} (T : Type ℓ) : Type ℓ where
  pub same : T → T → Bool
  pub same_iff : (x y : T) → (same x y ≡ true) ↔ (x ≡ y)

-- Native texts: ids of nodes, names of tools.
instance abbrev pub text_equality : Equality String
text_equality = record { same = λ s t. str_eq s t; same_iff = λ s t. eq_iff s t }

instance abbrev pub ℕ_equality : Equality ℕ
ℕ_equality = record { same = λ m n. eqb m n; same_iff = λ m n. eqb_iff m n }

abbrev pub ◌==◌ {ℓ} : {T : Type ℓ} ⦃q : Equality T⦄ → T → T → Bool
◌==◌ ⦃q⦄ x y = q.same x y

infix 50 ◌==◌
-- Byte strings: `==` of `std::string`.
abbrev pub bytes_eqb : List ℕ → List ℕ → Bool
bytes_eqb [] [] = true
bytes_eqb [] (y ∷ ys) = false
bytes_eqb (x ∷ xs) [] = false
bytes_eqb (x ∷ xs) (y ∷ ys) = eqb x y && bytes_eqb xs ys

pub bytes_eqb_iff : (a b : List ℕ) → (bytes_eqb a b ≡ true) ↔ (a ≡ b)
bytes_eqb_iff [] [] = ground arith
bytes_eqb_iff [] (y ∷ ys) = ground arith
bytes_eqb_iff (x ∷ xs) [] = ground arith
bytes_eqb_iff (x ∷ xs) (y ∷ ys) = ground (arith, bytes_eqb_iff xs ys)

instance abbrev pub bytes_equality : Equality (List ℕ)
bytes_equality = record { same = bytes_eqb; same_iff = bytes_eqb_iff }
