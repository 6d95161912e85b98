-- ===== src/Common/Bytes.antt =====
-- Byte strings as lists of numbers, with what the sources use of `std::string`, `from_chars` and
-- the ASCII helpers.
pub mod Decimal
pub mod Find
pub mod Order
pub mod Search
use Prim.Native.Char.{code}
use Prim.Native.Nat.{ℕ, zero, suc, ◌+◌, ◌-◌, ◌*◌, ◌^◌}
use Prim.Native.String.{String}
use mathlib.Core.Bool.{Bool, true, false, ◌&&◌, ◌||◌}
use mathlib.Core.Option.{Option, none, some}
use mathlib.Core.Option
use mathlib.Core.List.{List, [], ◌∷◌, ◌++◌, map, reverse}
use zen_agent.Common.Tests.{leb, ltb, eqb, if◌then◌else◌}
use zen_agent.Common.Lists.{length, take, drop}
use zen_agent.Common.Int.{ℤ, pos, negsuc}

abbrev pub Bytes : Type 0
Bytes = List ℕ

-- The bytes of an ASCII text.
abbrev pub ascii : String → Bytes
ascii (String.◌∷◌ first others) = code first ∷ ascii others
ascii String.[] = []

abbrev pub crlf : Bytes
crlf = b'\r' ∷ b'\n' ∷ []

-- `s.starts_with(p)`.
unfoldable pub starts_with : Bytes → Bytes → Bool
starts_with s [] = true
starts_with [] (b ∷ p) = false
starts_with (a ∷ s) (b ∷ p) = eqb a b && starts_with s p

-- `s.find(p)`.
unfoldable pub find : Bytes → Bytes → Option ℕ
find [] p = if starts_with [] p then some 0 else none
find (a ∷ s) p = if starts_with (a ∷ s) p then some 0 else Option.map suc (find s p)

-- `s.rfind(c)` for one byte.
unfoldable pub rfind : Bytes → ℕ → Option ℕ
rfind [] c = none
rfind (a ∷ s) c = elim (rfind s c) [
  | some i ↦ some (suc i)
  | none ↦ if eqb a c then some 0 else none
]

pub split_at : Bytes → Bytes → Option ℕ → Bytes × Bytes
split_at s sep none = (s, [])
split_at s sep (some i) = (take i s, drop (i + length sep) s)

-- `SplitOnce`: the halves round the first occurrence.
unfoldable pub split_once : Bytes → Bytes → Bytes × Bytes
unfolding split_at
split_once s sep = split_at s sep (find s sep)

unfoldable pub is_space : ℕ → Bool
is_space c = eqb c 32 || leb 9 c && leb c 13

drop_spaces : Bytes → Bytes
drop_spaces [] = []
drop_spaces (c ∷ s) = if is_space c then drop_spaces s else c ∷ s

-- `TrimAscii`.
unfoldable pub trim_ascii : Bytes → Bytes
unfolding drop_spaces is_space
trim_ascii s = reverse (drop_spaces (reverse (drop_spaces s)))

unfoldable pub to_lower : ℕ → ℕ
to_lower c = if leb b'A' c && leb c b'Z' then c + 32 else c

unfoldable pub ascii_str_to_lower : Bytes → Bytes
unfolding to_lower
ascii_str_to_lower = map to_lower

unfoldable pub hex_digit : ℕ → Option ℕ
hex_digit c =
    if leb b'0' c && leb c b'9'
    then some (c - b'0')
    else if leb b'a' c && leb c b'f'
    then some (c - b'a' + 10)
    else if leb b'A' c && leb c b'F'
    then some (c - b'A' + 10)
    else none

unfoldable pub dec_digit : ℕ → Option ℕ
dec_digit c = if leb b'0' c && leb c b'9' then some (c - b'0') else none

-- The longest prefix of digits.
unfoldable pub digits_of : (ℕ → Option ℕ) → Bytes → List ℕ
digits_of d [] = []
digits_of d (c ∷ s) = elim (d c) [ none ↦ [] | some v ↦ v ∷ digits_of d s ]

unfoldable pub value_of : ℕ → ℕ → List ℕ → ℕ
value_of base acc [] = acc
value_of base acc (d ∷ ds) = value_of base (acc * base + d) ds

-- The number that the digits write; none without digits, or at `limit` and above.
unfoldable pub number_below : ℕ → ℕ → List ℕ → Option ℕ
unfolding value_of
number_below limit base [] = none
number_below limit base (d ∷ ds) =
    let n = value_of base 0 (d ∷ ds) in if ltb n limit then some n else none

-- `std::from_chars` into a `std::size_t`, base 16.
unfoldable pub from_chars_hex : Bytes → Option ℕ
unfolding number_below digits_of hex_digit
from_chars_hex s = number_below (2 ^ 64) 16 (digits_of hex_digit s)

unfoldable pub negate : ℕ → ℤ
negate zero = pos 0
negate (suc n) = negsuc n

-- `std::from_chars` into a signed integer of `bits` bits, base 10.
unfoldable pub from_chars_int : ℕ → Bytes → Option ℤ
unfolding number_below digits_of dec_digit negate
from_chars_int bits [] = none
from_chars_int bits (c ∷ s) =
    if eqb c b'-'
    then Option.map negate (number_below (2 ^ (bits - 1) + 1) 10 (digits_of dec_digit s))
    else Option.map pos (number_below (2 ^ (bits - 1)) 10 (digits_of dec_digit (c ∷ s)))
