-- ===== src/Common/Json.antt =====
-- JSON values, as far as the sources look at the values of `nlohmann::json`: which kind a value is,
-- and what stands under a key or at an index. Parsing and printing are arguments where they are used.
use mathlib.Core.Bool.{Bool, true, false}
use mathlib.Core.Option.{Option, none, some}
use mathlib.Core.List.{List, [], ◌∷◌}
use zen_agent.Common.Tests.{if◌then◌else◌}
use zen_agent.Common.Equality.{bytes_eqb, bytes_equality, ◌==◌}
use zen_agent.Common.Int.{ℤ}
use zen_agent.Common.Bytes.{Bytes}
use zen_agent.Common.Bytes.Order.{before}

-- The numbers are told apart as by `is_number_unsigned` and `is_number_integer`; a number with a
-- fraction is its text.
mutual
  pub data Json : Type 0 where
    null : Json
    boolean : Bool → Json
    integer : ℤ → Json
    fraction : Bytes → Json
    str : Bytes → Json
    arr : Items → Json
    obj : Fields → Json

  pub data Items : Type 0 where
    nil : Items
    cons : Json → Items → Items

  pub data Fields : Type 0 where
    end : Fields
    field : Bytes → Json → Fields → Fields

abbrev pub fields_at : Bytes → Fields → Option Json
fields_at k end = none
fields_at k (field j v fs) = if bytes_eqb k j then some v else fields_at k fs

-- `v.contains(k)` with `v[k]`: nothing in a value that is no object.
abbrev pub at : Bytes → Json → Option Json
at k (obj fs) = fields_at k fs
at k null = none
at k (boolean b) = none
at k (integer n) = none
at k (fraction t) = none
at k (str t) = none
at k (arr xs) = none

abbrev pub elements : Items → List Json
elements nil = []
elements (cons x xs) = x ∷ elements xs

abbrev pub items_of : List Json → Items
items_of [] = nil
items_of (x ∷ xs) = cons x (items_of xs)

-- `is_object`.
abbrev pub is_object : Json → Bool
is_object (obj fs) = true
is_object null = false
is_object (boolean b) = false
is_object (integer n) = false
is_object (fraction t) = false
is_object (str t) = false
is_object (arr xs) = false

-- `is_string` with `get<std::string>`.
abbrev pub string_of : Json → Option Bytes
string_of (str t) = some t
string_of null = none
string_of (boolean b) = none
string_of (integer n) = none
string_of (fraction t) = none
string_of (arr xs) = none
string_of (obj fs) = none

-- `is_number_integer` with the number.
abbrev pub integer_of : Json → Option ℤ
integer_of (integer n) = some n
integer_of null = none
integer_of (boolean b) = none
integer_of (fraction t) = none
integer_of (str t) = none
integer_of (arr xs) = none
integer_of (obj fs) = none

-- `is_array` with the elements.
abbrev pub array_of : Json → Option (List Json)
array_of (arr xs) = some (elements xs)
array_of null = none
array_of (boolean b) = none
array_of (integer n) = none
array_of (fraction t) = none
array_of (str t) = none
array_of (obj fs) = none

-- The value under a key, if it is a string.
abbrev pub string_at : Bytes → Json → Option Bytes
string_at k v = elim (at k v) [ none ↦ none | some w ↦ string_of w ]

-- The value under a key, if it is an object.
abbrev pub object_at : Bytes → Json → Option Json
object_at k v = elim (at k v) [ none ↦ none | some w ↦ if is_object w then some w else none ]

-- The elements under a key, if there is an array.
abbrev pub array_at : Bytes → Json → Option (List Json)
array_at k v = elim (at k v) [ none ↦ none | some w ↦ array_of w ]

-- `is_boolean` with the value.
abbrev pub boolean_of : Json → Option Bool
boolean_of (boolean b) = some b
boolean_of null = none
boolean_of (integer n) = none
boolean_of (fraction t) = none
boolean_of (str t) = none
boolean_of (arr xs) = none
boolean_of (obj fs) = none

-- The members of an object, in their order.
abbrev pub members : Fields → List (Bytes × Json)
members end = []
members (field k v fs) = (k, v) ∷ members fs

abbrev pub members_of : Json → Option (List (Bytes × Json))
members_of (obj fs) = some (members fs)
members_of null = none
members_of (boolean b) = none
members_of (integer n) = none
members_of (fraction t) = none
members_of (str t) = none
members_of (arr xs) = none

-- `m[k] = v` in a `std::map`, and in an object, which has its keys in order.
unfoldable pub put_member : Bytes → Json → Fields → Fields
put_member k v end = field k v end
put_member k v (field j w fs) =
    if k == j
    then field j v fs
    else if before k j
    then field k v (field j w fs)
    else field j w (put_member k v fs)
