-- ===== src/Workflow/JsonPath.antt =====
-- agentflow/workflow/json_path.h and json_path.cc: paths into JSON values.
pub mod Print
mod Tests
use zen_agent.Common.{
  ℕ, zero, suc, ◌+◌, ◌^◌, Bool, true, false, ◌||◌, ◌&&◌, List, [], ◌∷◌, Option, none, some, is_some,
  eqb, if◌then◌else◌, length, take, drop,
}
use zen_agent.Common.Int.{ℤ, pos, negsuc}
use zen_agent.Common.Bytes.{Bytes, find, dec_digit, digits_of, number_below}
use zen_agent.Common.Json.{Json, obj, at, array_of}

pub data Segment : Type 0 where
  key : Bytes → Segment
  index : ℤ → Segment

-- The errors, with the text that a message quotes; `unexpected_char` has the bytes from there on.
pub data PathError : Type 0 where
  no_dollar : PathError
  empty_field_name : PathError
  unbalanced_bracket : PathError
  non_integer_index : Bytes → PathError
  unexpected_char : Bytes → PathError

pub data Parsed : Type 0 where
  ok : List Segment → Parsed
  failed : PathError → Parsed

-- The bytes up to a point, a bracket or the end.
unfoldable pub field_name : Bytes → Bytes
field_name [] = []
field_name (c ∷ s) = if eqb c b'.' || eqb c b'[' then [] else c ∷ field_name s

unfoldable pub all_digits : Bytes → Bool
all_digits [] = true
all_digits (c ∷ s) = is_some (dec_digit c) && all_digits s

-- One round of the loop.
pub data Round : Type 0 where
  finished : PathError → Round
  goes_on : Segment → Bytes → Round

unfoldable pub named : Bytes → Bytes → Round
named [] s = finished empty_field_name
named (c ∷ n) s = goes_on (key (c ∷ n)) (drop (length (c ∷ n)) s)

unfoldable pub prepend : Segment → Parsed → Parsed
prepend g (ok gs) = ok (g ∷ gs)
prepend g (failed e) = failed e

-- `atoi` of digits that write 2^31 and more is `overflow`.
module _ (overflow : Bytes → ℤ) where
  unfoldable pub atoi : Bytes → ℤ
  atoi [] = pos 0
  atoi (c ∷ s) = elim (number_below (2 ^ 31) 10 (digits_of dec_digit (c ∷ s))) [
    | none ↦ overflow (c ∷ s)
    | some n ↦ pos n
  ]

  unfoldable pub indexed : Option ℕ → Bytes → Round
  unfolding atoi all_digits
  indexed none s = finished unbalanced_bracket
  indexed (some i) s =
      if all_digits (take i s)
      then goes_on (index (atoi (take i s))) (drop (suc i) s)
      else finished (non_integer_index (take i s))

  unfoldable pub round : ℕ → Bytes → Round
  unfolding indexed named field_name
  round c s =
      if eqb c b'.'
      then named (field_name s) s
      else if eqb c b'['
      then indexed (find s (b']' ∷ [])) s
      else finished (unexpected_char (c ∷ s))

  -- The loop; every round takes a byte, so the length is enough fuel.
  unfoldable pub segments : ℕ → Bytes → Parsed
  unfolding round prepend
  segments f [] = ok []
  segments zero (c ∷ s) = ok []
  segments (suc f) (c ∷ s) = elim (round c s) [
    | finished e ↦ failed e
    | goes_on g rest ↦ prepend g (segments f rest)
  ]

  -- `JsonPath::Parse`.
  unfoldable pub parse : Bytes → Parsed
  unfolding segments
  parse [] = failed no_dollar
  parse (c ∷ s) = if eqb c b'$' then segments (length s) s else failed no_dollar

abbrev pub element : List Json → ℕ → Option Json
element [] i = none
element (v ∷ vs) zero = some v
element (v ∷ vs) (suc i) = element vs i

abbrev pub element_at : Option (List Json) → ℤ → Option Json
element_at none i = none
element_at (some vs) (negsuc i) = none
element_at (some vs) (pos i) = element vs i

-- One segment of the walk.
unfoldable pub follow : Segment → Json → Option Json
follow (key k) v = at k v
follow (index i) v = element_at (array_of v) i

-- `JsonPath::Resolve`.
unfoldable pub resolve : List Segment → Json → Option Json
unfolding follow
resolve [] v = some v
resolve (g ∷ gs) v = elim (follow g v) [ none ↦ none | some w ↦ resolve gs w ]
