-- ===== src/Common/Bytes/Find.antt =====
-- Laws of `find`: what is found stays found when the text grows.
use Prim.Native.Nat.{ℕ, suc, ◌+◌, ◌≤◌}
use mathlib.Core.Path.{◌≡◌, refl, sym, ap, ◌∙◌}
use mathlib.Core.Logic.{inl, inr, ◌≢◌}
use mathlib.Core.Bool.{true, ◌&&◌}
use mathlib.Core.Option.{some}
use mathlib.Core.List.{[], ◌∷◌, ◌++◌}
use native.Mathlib.Omega.{arith}
use zen_agent.Common.Tests.{eqb, eqb_iff, Bool-cases, Option-cases}
use zen_agent.Common.Lists.{length, drop, All}
use zen_agent.Common.Bytes.{Bytes, crlf, starts_with, find}

starts_with-le : (s p : Bytes) → starts_with s p ≡ true → length p ≤ length s
unfolding starts_with
starts_with-le s [] h = omega arith
starts_with-le [] (b ∷ p) h = absurd (cc h)
starts_with-le (a ∷ s) (b ∷ p) h = ground (arith, starts_with-le s p)

pub starts_with-append :
    (s p t : Bytes) → length p ≤ length s → starts_with (s ++ t) p ≡ starts_with s p
unfolding starts_with
starts_with-append [] [] t h = refl
starts_with-append (a ∷ s) [] t h = refl
starts_with-append [] (b ∷ p) t h = elim h [ ]
starts_with-append (a ∷ s) (b ∷ p) t h =
    ap (◌&&◌ (eqb a b)) (starts_with-append s p t (omega arith))

-- What is found fits in the text.
pub find-le : (s p : Bytes) (i : ℕ) → find s p ≡ some i → i + length p ≤ length s
unfolding find
find-le [] p i h = ground (arith, starts_with-le [] p)
find-le (a ∷ s) p i h = elim (Bool-cases (starts_with (a ∷ s) p)) [
  | inl e ↦ ground (arith, starts_with-le (a ∷ s) p, e)
  | inr e ↦ elim (Option-cases (find s p)) [
    | inl n ↦ absurd (cc (rw (e, n) at h))
    | inr (j, f) ↦ ground (arith, find-le s p j f, rw (e, f) at h)
  ]
]

find_nil : (t : Bytes) → find t [] ≡ some 0
unfolding find starts_with
find_nil [] = refl
find_nil (a ∷ t) = refl

pub find-append : (s p t : Bytes) (i : ℕ) → find s p ≡ some i → find (s ++ t) p ≡ some i
unfolding find starts_with
find-append [] [] t i h = find_nil t ∙ h
find-append [] (b ∷ p) t i h = absurd (cc h)
find-append (a ∷ s) p t i h = elim (Bool-cases (starts_with (a ∷ s) p)) [
  | inl e ↦
      rw (starts_with-append (a ∷ s) p t (starts_with-le (a ∷ s) p e), e) (cc (rw (e, find) at h))
  | inr e ↦ elim (Option-cases (find s p)) [
    | inl n ↦ absurd (cc (rw (e, find, n) at h))
    | inr (j, f) ↦
        rw
          (
            starts_with-append (a ∷ s) p t (omega (arith, find-le s p j f)),
            e,
            find-append s p t j f,
          )
          (cc (rw (e, find, f) at h))
  ]
]

-- What stands where something was found is the thing itself.
starts_with-eq : (s p : Bytes) → starts_with s p ≡ true → (t : Bytes) × (s ≡ p ++ t)
unfolding starts_with
starts_with-eq s [] h = (s, refl)
starts_with-eq [] (b ∷ p) h = absurd (cc h)
starts_with-eq (a ∷ s) (b ∷ p) h =
    let (t, e) = starts_with-eq s p (ground arith) in (t, ground (arith, e))

pub starts_with_self : (p t : Bytes) → starts_with (p ++ t) p ≡ true
unfolding starts_with
starts_with_self [] [] = refl
starts_with_self [] (a ∷ t) = refl
starts_with_self (b ∷ p) t = rw ((eqb_iff b b).1 refl) (starts_with_self p t)

-- A CRLF is found behind a line that holds no carriage return.
pub find-crlf :
    (s t : Bytes) → All (λ c. c ≢ b'\r') s → find (s ++ (crlf ++ t)) crlf ≡ some (length s)
unfolding find starts_with
find-crlf [] [] h = refl
find-crlf [] (a ∷ t) h = refl
find-crlf (a ∷ s) t h = rw (find-crlf s t h.1) (ground (arith, h.0))

-- Where something is found, it stands.
pub find-starts_with : (s p : Bytes) (i : ℕ) → find s p ≡ some i → starts_with (drop i s) p ≡ true
unfolding find
find-starts_with [] p i h = elim (Bool-cases (starts_with [] p)) [
  | inl e ↦ let z : i ≡ 0 = ground (arith, rw e at h) in rw z e
  | inr e ↦ absurd (cc (rw e at h))
]
find-starts_with (a ∷ s) p i h = elim (Bool-cases (starts_with (a ∷ s) p)) [
  | inl e ↦ let z : i ≡ 0 = ground (arith, rw e at h) in rw z e
  | inr e ↦ elim (Option-cases (find s p)) [
    | inl n ↦ absurd (cc (rw (e, n) at h))
    | inr (j, f) ↦
        let z : i ≡ suc j = ground (arith, rw (e, f) at h) in rw z (find-starts_with s p j f)
  ]
]

-- What is found within the first part was there without the second.
pub find-append_left :
    (s p t : Bytes) (i : ℕ) → find (s ++ t) p ≡ some i → i + length p ≤ length s → find s p ≡ some i
unfolding find starts_with
find-append_left [] [] t i h l = ap some (omega (arith, l))
find-append_left [] (b ∷ p) t i h l = absurd (omega (arith, l))
find-append_left (a ∷ s) p t i h l = elim (Bool-cases (starts_with (a ∷ (s ++ t)) p)) [
  | inl e ↦
      let z : i ≡ 0 = ground (arith, rw (e, find) at h) in
      let fits : length p ≤ length (a ∷ s) = omega (arith, l) in
      rw (sym (starts_with-append (a ∷ s) p t fits) ∙ e) (ap some (sym z))
  | inr e ↦ elim (Option-cases (find (s ++ t) p)) [
    | inl n ↦ absurd (cc (rw (e, n) at h))
    | inr (j, f) ↦
        let z : i ≡ suc j = ground (arith, rw (e, find, f) at h) in
        let fits : length p ≤ length (a ∷ s) = omega (arith, l) in
        rw
          (
            sym (starts_with-append (a ∷ s) p t fits) ∙ e,
            find-append_left s p t j f (omega (arith, l, z)),
          )
          (ap some (sym z))
  ]
]
