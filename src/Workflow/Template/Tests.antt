-- ===== src/Workflow/Template/Tests.antt =====
-- Runs of the templates, and the theorems at concrete templates.
use zen_agent.Common.{
  ◌≡◌, refl, Bool, true, false, not, ◌||◌, ◌&&◌, List, [], ◌∷◌, none, some, eqb, inl, inr,
  Bool-cases, arith,
}
use zen_agent.Common.Int.{pos}
use zen_agent.Common.Bytes.{Bytes, ascii, starts_with}
use zen_agent.Common.Json.{integer, obj, end, field}
use zen_agent.Workflow.Template.{
  Segment, literal, path, ok, known_head, is_blank, round, scan, failed, unmatched_close, parse,
  as_json, EvalContext, walk, read_state, resolve, evaluate,
}
use zen_agent.Workflow.Template.Print.{IsTemplate, IsPart, print}
use zen_agent.Workflow.Template.RoundTrip.{parse-print_template}

abbrev plain_part : Bytes → Bool
plain_part [] = true
plain_part (c ∷ s) = not (eqb c b'.' || eqb c b'}' || is_blank c) && plain_part s

All-plain_part : (s : Bytes) → plain_part s ≡ true → IsPart s
unfolding is_blank
All-plain_part [] h = tt
All-plain_part (c ∷ s) h = elim (Bool-cases (eqb c b'.' || eqb c b'}' || is_blank c)) [
  | inl e ↦ absurd (cc (rw e at h))
  | inr e ↦ (ground (arith, e), All-plain_part s (rw e at h))
]

-- A brace, a path and a text.
abbrev template : List Segment
template = literal (ascii "{ ") ∷ path (ascii "state" ∷ ascii "n" ∷ []) ∷ literal (ascii " }") ∷ []

template-IsTemplate : IsTemplate template
unfolding known_head is_blank
template-IsTemplate =
    ((
      (λ e. cc e, (refl, λ e. omega (arith, e))),
      (
        tt,
        (
          (refl, (All-plain_part (ascii "state") refl, (All-plain_part (ascii "n") refl, tt))),
          ((λ e. cc e, (refl, λ e. omega (arith, e))), (tt, tt)),
        ),
      ),
    ))

parse-print_template_example :
    parse (print template)
    ≡ ok (record { source = print template; segs = template; single_substitution = false })
parse-print_template_example = parse-print_template template template-IsTemplate

abbrev context : EvalContext
context = record {
  state = some (as_json (obj (field (ascii "n") (integer (pos 7)) end)));
  parent_state = none;
  tool_args = none;
  workflow_name = ascii "plan";
  workflow_version = ascii "1";
  now_iso = [];
  now_unix_micros = pos 0;
  now_unix_seconds = pos 0;
}

-- One path keeps the type of the value.
keeps_number :
    evaluate
      (λ v. [])
      context
      (record {
        source = [];
        segs = path (ascii "state" ∷ ascii "n" ∷ []) ∷ [];
        single_substitution = true;
      })
    ≡ integer (pos 7)
unfolding evaluate resolve read_state walk
keeps_number = refl

closing_alone : parse (ascii "a}}") ≡ failed unmatched_close
unfolding parse scan round starts_with
closing_alone = refl
