-- ===== src/Workflow/JsonPath/Print.antt =====
-- `JsonPath::Parse` on paths that are printed from their segments.
use zen_agent.Common.{
  ℕ, zero, suc, ◌^◌, ◌≤◌, ◌<◌, ◌≡◌, ◌≢◌, refl, ap, ◌∙◌, true, false, List, [], ◌∷◌, ◌++◌, some, eqb,
  length, drop, take-length, drop-length, length-append, All, arith, append_assoc,
}
use zen_agent.Common.Int.{ℤ, pos, negsuc}
use zen_agent.Common.Bytes.{Bytes, dec_digit, digits_of, number_below}
use zen_agent.Common.Bytes.Search.{Lacks, find-byte}
use zen_agent.Common.Bytes.Decimal.{
  to_string, IsDigit, to_string-IsDigit, to_string-filled, number_below-to_string,
  dec_digit-IsDigit,
}
use zen_agent.Workflow.JsonPath.{
  Segment, key, index, ok, field_name, all_digits, goes_on, named, prepend, atoi, indexed, round,
  segments, parse,
}

abbrev pub print_segment : Segment → Bytes
print_segment (key k) = b'.' ∷ k
print_segment (index (pos i)) = b'[' ∷ (to_string i ++ b']' ∷ [])
print_segment (index (negsuc i)) = []

abbrev pub print_segments : List Segment → Bytes
print_segments [] = []
print_segments (g ∷ gs) = print_segment g ++ print_segments gs

abbrev pub print : List Segment → Bytes
print gs = b'$' ∷ print_segments gs

-- A key has bytes, and neither a point nor an opening bracket; an index is an `int`.
abbrev pub IsSegment : Segment → Type 0
IsSegment (key k) = (k ≢ []) × All (λ c. (c ≢ b'.') × (c ≢ b'[')) k
IsSegment (index (pos i)) = i < 2 ^ 31
IsSegment (index (negsuc i)) = ⊥

-- What may stand behind a key.
abbrev Ends : Bytes → Type 0
Ends s = field_name s ≡ []

field_name-append :
    (k t : Bytes) → All (λ c. (c ≢ b'.') × (c ≢ b'[')) k → Ends t → field_name (k ++ t) ≡ k
unfolding field_name
field_name-append [] t h e = e
field_name-append (c ∷ k) t h e =
    let point : eqb c b'.' ≡ false = ground (arith, h.0.0) in
    let bracket : eqb c b'[' ≡ false = ground (arith, h.0.1) in
    rw (point, bracket) (ap (◌∷◌ c) (field_name-append k t h.1 e))

print_segments-Ends : (gs : List Segment) → All IsSegment gs → Ends (print_segments gs)
unfolding field_name
print_segments-Ends [] h = refl
print_segments-Ends (key k ∷ gs) h = refl
print_segments-Ends (index (pos i) ∷ gs) h = refl
print_segments-Ends (index (negsuc i) ∷ gs) h = elim h.0 [ ]

named-filled : (k s : Bytes) → k ≢ [] → named k s ≡ goes_on (key k) (drop (length k) s)
unfolding named
named-filled [] s h = absurd (h refl)
named-filled (c ∷ k) s h = refl

all_digits-IsDigit : (s : Bytes) → All IsDigit s → all_digits s ≡ true
unfolding all_digits
all_digits-IsDigit [] h = refl
all_digits-IsDigit (c ∷ s) h = rw (dec_digit-IsDigit c h.0) (all_digits-IsDigit s h.1)

Lacks-IsDigit : (s : Bytes) → All IsDigit s → Lacks b']' s
Lacks-IsDigit [] h = tt
Lacks-IsDigit (c ∷ s) h = (λ e. omega (arith, h.0, e), Lacks-IsDigit s h.1)

drop-behind : (s t : Bytes) (c : ℕ) → drop (suc (length s)) (s ++ c ∷ t) ≡ t
drop-behind [] t c = refl
drop-behind (b ∷ s) t c = drop-behind s t c

atoi-filled :
    (overflow : Bytes → ℤ) (n : ℕ) (s : Bytes)
    → s ≢ []
    → number_below (2 ^ 31) 10 (digits_of dec_digit s) ≡ some n
    → atoi overflow s ≡ pos n
unfolding atoi
atoi-filled overflow n [] f e = absurd (f refl)
atoi-filled overflow n (c ∷ s) f e = rw (e, atoi)

atoi-to_string : (overflow : Bytes → ℤ) (n : ℕ) → n < 2 ^ 31 → atoi overflow (to_string n) ≡ pos n
atoi-to_string overflow n h =
    atoi-filled overflow n (to_string n) (to_string-filled n) (number_below-to_string (2 ^ 31) n h)

module _ (overflow : Bytes → ℤ) where
  round-key :
      (k t : Bytes) → IsSegment (key k) → Ends t → round overflow b'.' (k ++ t) ≡ goes_on (key k) t
  unfolding round
  round-key k t h e =
      rw (field_name-append k t h.1 e)
        (named-filled k (k ++ t) h.0 ∙ ap (goes_on (key k)) (drop-length k t))

  round-index :
      (n : ℕ) (t : Bytes)
      → n < 2 ^ 31
      → round overflow b'[' (to_string n ++ b']' ∷ t) ≡ goes_on (index (pos n)) t
  unfolding round indexed
  round-index n t h =
      let s = to_string n in
      rw (
        find-byte s t b']' (Lacks-IsDigit s (to_string-IsDigit n)),
        take-length s (b']' ∷ t),
        all_digits-IsDigit s (to_string-IsDigit n),
        atoi-to_string overflow n h,
        drop-behind s t b']',
      )

  segments-goes_on :
      (f c : ℕ) (s rest : Bytes) (g : Segment)
      → round overflow c s ≡ goes_on g rest
      → segments overflow (suc f) (c ∷ s) ≡ prepend g (segments overflow f rest)
  unfolding segments
  segments-goes_on f c s rest g e = rw (e, segments)

  segments-print :
      (f : ℕ) (gs : List Segment)
      → All IsSegment gs
      → length (print_segments gs) ≤ f
      → segments overflow f (print_segments gs) ≡ ok gs
  unfolding segments prepend
  segments-print f [] h l = refl
  segments-print zero (key k ∷ gs) h l = elim l [ ]
  segments-print zero (index (pos i) ∷ gs) h l = elim l [ ]
  segments-print f (index (negsuc i) ∷ gs) h l = elim h.0 [ ]
  segments-print (suc f) (key k ∷ gs) h l =
      let rest = print_segments gs in
      segments-goes_on f b'.' (k ++ rest) rest (key k)
        (round-key k rest h.0 (print_segments-Ends gs h.1))
      ∙ ap (prepend (key k)) (segments-print f gs h.1 (omega (arith, l, length-append k rest)))
  segments-print (suc f) (index (pos i) ∷ gs) h l =
      let rest = print_segments gs in
      let s = to_string i in
      ap (λ t. segments overflow (suc f) (b'[' ∷ t)) (append_assoc s (b']' ∷ []) rest)
      ∙ segments-goes_on f b'[' (s ++ b']' ∷ rest) rest (index (pos i)) (round-index i rest h.0)
      ∙ ap (prepend (index (pos i))) (
          segments-print f gs h.1
            (omega (arith, l, length-append (s ++ b']' ∷ []) rest, length-append s (b']' ∷ []))))

  -- A path that is printed from its segments is parsed into them, if no key is empty or holds a
  -- point or an opening bracket, and each index is a number below 2^31.
  pub parse-print : (gs : List Segment) → All IsSegment gs → parse overflow (print gs) ≡ ok gs
  unfolding parse
  parse-print gs h = segments-print (length (print_segments gs)) gs h (omega arith)
