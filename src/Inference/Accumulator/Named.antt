-- ===== src/Inference/Accumulator/Named.antt =====
-- The tool calls of a stream by the indices that its fragments name.
use zen_agent.Common.{
  ◌<◌, ◌-◌, ◌%◌, ◌^◌, ◌≡◌, refl, ap, ◌∙◌, Bool, true, false, List, [], ◌∷◌, ◌++◌, Option, none,
  some, if◌then◌else◌, All, arith, ltb,
}
use zen_agent.Common.Int.{ℤ, pos, negsuc, to_int, signed32}
use zen_agent.Common.Bytes.{Bytes, ascii}
use zen_agent.Common.Json.{Json, is_object, at, integer_of}
use zen_agent.Inference.Accumulator.{Accumulator, index_from, fragment_index, feed_all}
use zen_agent.Inference.Accumulator.Update.{IsAscending, call_at}
use zen_agent.Inference.Accumulator.Calls.{fragments, piece, is_of, pieces, feed_all-pieces}

-- The integer that a fragment has as its index; 0 without an index.
abbrev pub own_index : Option Json → Option ℤ
own_index none = some (pos 0)
own_index (some v) = integer_of v

abbrev pub named_index : Json → Option ℤ
named_index tc = if is_object tc then own_index (at (ascii "index") tc) else none

-- The pieces of the fragments that name an index, joined.
pub named_pieces : ℤ → List Json → Bytes
named_pieces i [] = []
named_pieces i (tc ∷ tcs) =
    (if is_of i (named_index tc) then piece tc else []) ++ named_pieces i tcs

-- An index that `int` can hold, or no integer.
abbrev pub IsInt : Option ℤ → Type 0
IsInt none = Unit
IsInt (some (pos n)) = n < 2 ^ 31
IsInt (some (negsuc n)) = n < 2 ^ 31

to_int-IsInt : (n : ℤ) → IsInt (some n) → to_int n ≡ n
unfolding to_int signed32
to_int-IsInt (pos n) h =
    let e : n % 2 ^ 32 ≡ n = omega (arith, h) in
    let small : ltb n (2 ^ 31) ≡ true = ground (arith, h) in rw e (rw small refl)
to_int-IsInt (negsuc n) h =
    let e : n % 2 ^ 32 ≡ n = omega (arith, h) in
    let large : ltb (2 ^ 32 - 1 - n) (2 ^ 31) ≡ false = ground (arith, h) in
    let back : 2 ^ 32 - 1 - (2 ^ 32 - 1 - n) ≡ n = omega (arith, h) in
    rw e (rw large (ap negsuc back))

index_from-own_index : (o : Option Json) → IsInt (own_index o) → index_from o ≡ own_index o
unfolding index_from
index_from-own_index none h = refl
index_from-own_index (some v) h = go (integer_of v) h
  where
    go : (o : Option ℤ) → IsInt o → elim o [ none ↦ none | some n ↦ some (to_int n) ] ≡ o
    go none h = refl
    go (some n) h = ap some (to_int-IsInt n h)

fragment_index-named_index :
    (tc : Json) → IsInt (named_index tc) → fragment_index tc ≡ named_index tc
unfolding fragment_index
fragment_index-named_index tc h = go (is_object tc) h
  where
    go :
        (b : Bool)
        → IsInt (if b then own_index (at (ascii "index") tc) else none)
        → (if b then index_from (at (ascii "index") tc) else none)
          ≡ (if b then own_index (at (ascii "index") tc) else none)
    go true h = index_from-own_index (at (ascii "index") tc) h
    go false h = refl

pieces-named_pieces :
    (i : ℤ) (tcs : List Json)
    → All (λ tc. IsInt (named_index tc)) tcs
    → pieces i tcs ≡ named_pieces i tcs
unfolding pieces named_pieces
pieces-named_pieces i [] h = refl
pieces-named_pieces i (tc ∷ tcs) h =
    ap (λ o. (if is_of i o then piece tc else []) ++ pieces i tcs)
      (fragment_index-named_index tc h.0)
    ∙ ap (λ r. (if is_of i (named_index tc) then piece tc else []) ++ r)
        (pieces-named_pieces i tcs h.1)

-- However the fragments of parallel calls are interleaved over the frames, the arguments of the
-- call at an index are what they were, followed by the pieces of the fragments that name this
-- index, in their order, as long as no fragment names an integer that `int` cannot hold. A
-- fragment without an index names 0; one that is no object or whose index is no integer, none.
pub feed_all-arguments :
    (a : Accumulator) (fs : List (Option Json)) (i : ℤ)
    → IsAscending a.calls
    → All (λ tc. IsInt (named_index tc)) (fragments fs)
    → (call_at i (feed_all a fs).0.calls).arguments
      ≡ (call_at i a.calls).arguments ++ named_pieces i (fragments fs)
feed_all-arguments a fs i h k =
    feed_all-pieces a fs i h
    ∙ ap (λ r. (call_at i a.calls).arguments ++ r) (pieces-named_pieces i (fragments fs) k)
