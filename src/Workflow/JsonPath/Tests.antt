-- ===== src/Workflow/JsonPath/Tests.antt =====
-- Runs of the paths, and the theorems at concrete paths.
use zen_agent.Common.{
  ◌≡◌, ◌≢◌, refl, List, [], ◌∷◌, some, none, not, ◌||◌, ◌&&◌, Bool, true, eqb, inl, inr, Bool-cases,
  All, arith,
}
use zen_agent.Common.Int.{ℤ, pos, negsuc}
use zen_agent.Common.Bytes.{Bytes, ascii, find, starts_with}
use zen_agent.Common.Json.{Json, str, arr, obj, nil, cons, end, field}
use zen_agent.Workflow.JsonPath.{
  Segment, key, index, ok, all_digits, prepend, atoi, indexed, round, segments, follow, parse,
  resolve,
}
use zen_agent.Workflow.JsonPath.Print.{IsSegment, print, parse-print}

abbrev wraps : Bytes → ℤ
wraps s = negsuc 0

-- The default path of sub-agents.
abbrev text_path : List Segment
text_path = key (ascii "content") ∷ index (pos 0) ∷ key (ascii "text") ∷ []

abbrev reply : Json
reply = obj (
    field (ascii "content") (arr (cons (obj (field (ascii "text") (str (ascii "ok")) end)) nil))
      end)

resolves_text : resolve text_path reply ≡ some (str (ascii "ok"))
unfolding resolve follow
resolves_text = refl

resolves_nothing : resolve (key (ascii "content") ∷ index (pos 1) ∷ []) reply ≡ none
unfolding resolve follow
resolves_nothing = refl

-- Nothing between the brackets reads as the index 0.
empty_index : parse wraps (ascii "$[]") ≡ ok (index (pos 0) ∷ [])
unfolding parse segments round indexed atoi all_digits find starts_with prepend
empty_index = refl

abbrev plain_name : Bytes → Bool
plain_name [] = true
plain_name (c ∷ s) = not (eqb c b'.' || eqb c b'[') && plain_name s

All-plain_name : (s : Bytes) → plain_name s ≡ true → All (λ c. (c ≢ b'.') × (c ≢ b'[')) s
All-plain_name [] h = tt
All-plain_name (c ∷ s) h = elim (Bool-cases (eqb c b'.' || eqb c b'[')) [
  | inl e ↦ absurd (cc (rw e at h))
  | inr e ↦ (ground (arith, e), All-plain_name s (rw e at h))
]

text_path-IsSegment : All IsSegment text_path
text_path-IsSegment = (
  (λ e. cc e, All-plain_name (ascii "content") refl),
  (omega arith, ((λ e. cc e, All-plain_name (ascii "text") refl), tt)),
)

parse-print_example : parse wraps (print text_path) ≡ ok text_path
parse-print_example = parse-print wraps text_path text_path-IsSegment
