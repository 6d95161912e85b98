-- ===== src/Common/Bytes/Decimal.antt =====
-- `std::to_string` of a size, and decimal numerals, read back.
use zen_agent.Common.{
  if◌then◌else◌, some, ℕ, zero, suc, ◌+◌, ◌-◌, ◌*◌, ◌/◌, ◌%◌, ◌≤◌, ◌<◌, ◌≡◌, ◌≢◌, refl, sym, ap,
  ◌∙◌, [], ◌∷◌, ◌++◌, ltb, inl, inr, Bool-cases, arith, All, All-append,
}
use zen_agent.Common.Bytes.{Bytes, dec_digit, digits_of, value_of, number_below}

-- `std::to_string` of a size. Each round takes one digit, so a fuel above the number is enough.
unfoldable pub digits : ℕ → ℕ → Bytes
digits zero n = []
digits (suc f) n =
    let front = digits f (n / 10) in
    if ltb n 10 then (n + b'0') ∷ [] else front ++ (n % 10 + b'0') ∷ []

unfoldable pub to_string : ℕ → Bytes
unfolding digits
to_string n = digits (suc n) n

-- The number that decimal digits write.
abbrev pub value : ℕ → Bytes → ℕ
value acc [] = acc
value acc (c ∷ s) = value (acc * 10 + (c - b'0')) s

value-append : (acc : ℕ) (s t : Bytes) → value acc (s ++ t) ≡ value (value acc s) t
value-append acc [] t = refl
value-append acc (c ∷ s) t = value-append (acc * 10 + (c - b'0')) s t

value-digits : (f n : ℕ) → n < f → value 0 (digits f n) ≡ n
unfolding digits
value-digits zero n h = elim h [ ]
value-digits (suc f) n h = elim (Bool-cases (ltb n 10)) [
  | inl small ↦ rw (small, digits) (omega arith)
  | inr large ↦
      let big : 10 ≤ n = ground (arith, large) in
      rw (large, digits)
        (value-append 0 (digits f (n / 10)) ((n % 10 + b'0') ∷ [])
          ∙ omega (arith, value-digits f (n / 10) (omega arith)))
]

-- A numeral is read back.
pub value-to_string : (n : ℕ) → value 0 (to_string n) ≡ n
unfolding to_string
value-to_string n = value-digits (suc n) n (omega arith)

abbrev pub IsDigit : ℕ → Type 0
IsDigit c = (b'0' ≤ c) × (c ≤ b'9')

pub digits-IsDigit : (f n : ℕ) → All IsDigit (digits f n)
unfolding digits
digits-IsDigit zero n = tt
digits-IsDigit (suc f) n = elim (Bool-cases (ltb n 10)) [
  | inl small ↦ rw (small, digits) (ground (arith, small))
  | inr large ↦
      rw (large, digits)
        (All-append IsDigit (digits f (n / 10)) ((n % 10 + b'0') ∷ []) (digits-IsDigit f (n / 10))
          (omega arith))
]

pub to_string-IsDigit : (n : ℕ) → All IsDigit (to_string n)
unfolding to_string
to_string-IsDigit n = digits-IsDigit (suc n) n

-- Two numbers with the same numeral are the same.
pub to_string_inj : (m n : ℕ) → to_string m ≡ to_string n → m ≡ n
to_string_inj m n e = sym (value-to_string m) ∙ ap (value 0) e ∙ value-to_string n

pub dec_digit-IsDigit : (c : ℕ) → IsDigit c → dec_digit c ≡ some (c - b'0')
unfolding dec_digit
dec_digit-IsDigit c h = ground (arith, h)

digits_of-cons :
    (c : ℕ) (s : Bytes)
    → IsDigit c
    → digits_of dec_digit (c ∷ s) ≡ (c - b'0') ∷ digits_of dec_digit s
unfolding digits_of
digits_of-cons c s h = rw (dec_digit-IsDigit c h, digits_of)

value_of-digits_of :
    (acc : ℕ) (s : Bytes) → All IsDigit s → value_of 10 acc (digits_of dec_digit s) ≡ value acc s
unfolding value_of digits_of
value_of-digits_of acc [] h = refl
value_of-digits_of acc (c ∷ s) h =
    rw (digits_of-cons c s h.0) (value_of-digits_of (acc * 10 + (c - b'0')) s h.1)

digits-filled : (f n : ℕ) → digits (suc f) n ≢ []
unfolding digits
digits-filled f n e = elim (Bool-cases (ltb n 10)) [
  | inl small ↦ cc (rw small at e)
  | inr large ↦ append-filled (digits f (n / 10)) (n % 10 + b'0') (rw large at e)
]
  where
    append-filled : (s : Bytes) (c : ℕ) → s ++ c ∷ [] ≢ []
    append-filled [] c e = cc e
    append-filled (b ∷ s) c e = cc e

pub to_string-filled : (n : ℕ) → to_string n ≢ []
unfolding to_string
to_string-filled n = digits-filled n n

number_below-digits :
    (limit n : ℕ) (s : Bytes)
    → s ≢ []
    → All IsDigit s
    → value 0 s ≡ n
    → n < limit
    → number_below limit 10 (digits_of dec_digit s) ≡ some n
unfolding number_below
number_below-digits limit n [] f h e l = absurd (f refl)
number_below-digits limit n (c ∷ s) f h e l =
    let read : value_of 10 0 ((c - b'0') ∷ digits_of dec_digit s) ≡ n =
      ap (value_of 10 0) (sym (digits_of-cons c s h.0)) ∙ value_of-digits_of 0 (c ∷ s) h ∙ e in
    rw (digits_of-cons c s h.0, read) (ground (arith, l))

-- A numeral below the limit is read by `std::from_chars` and by `atoi`.
pub number_below-to_string :
    (limit n : ℕ) → n < limit → number_below limit 10 (digits_of dec_digit (to_string n)) ≡ some n
number_below-to_string limit n =
    number_below-digits limit n (to_string n) (to_string-filled n) (to_string-IsDigit n)
      (value-to_string n)
