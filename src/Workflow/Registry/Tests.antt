-- ===== src/Workflow/Registry/Tests.antt =====
-- Runs of the registry, and the theorems at concrete registries.
use zen_agent.Common.{ℕ, Bool, true, false, ◌≡◌, refl, List, [], ◌∷◌, none, some}
use zen_agent.Common.Assoc.{lookup, get, modify}
use zen_agent.Common.Bytes.{ascii}
use zen_agent.Common.Bytes.Order.{before}
use zen_agent.Workflow.Registry.{
  Workflow, put, erase, last_version, Registry, register, find_version, get_latest, after_erase,
  unregister_in, unregister,
}
use zen_agent.Workflow.Registry.Coherent.{IsCoherent, registers, unregisters, Step-IsCoherent}
use zen_agent.Workflow.Registry.Promoted.{Promoted, unregister-Promoted}
use zen_agent.Workflow.Registry.Refined.{
  Call, gets, answers, specified, empty_registry, answers-refines,
}
use zen_agent.Workflow.Registry.Refined

abbrev version_of : ℕ → Bool → Workflow
version_of i true = record { name = ascii "plan"; version = ascii "10"; signing = none; number = i }
version_of i false = record {
  name = ascii "plan";
  version = ascii "9";
  signing = some (ascii "k1");
  number = i;
}

abbrev older : Workflow
older = record { name = ascii "plan"; version = ascii "2"; signing = none; number = 7 }

abbrev empty : Registry
empty = empty_registry true

-- "9", then "10", then "2".
abbrev registry : Registry
registry =
    (register 3 (some older)
      (register 2 (some (version_of 1 true)) (register 1 (some (version_of 0 false)) empty).0).0).0

empty-IsCoherent : IsCoherent empty
unfolding lookup
empty-IsCoherent n = tt

registry-IsCoherent : IsCoherent registry
registry-IsCoherent =
    let one = (register 1 (some (version_of 0 false)) empty).0 in
    let two = (register 2 (some (version_of 1 true)) one).0 in
    Step-IsCoherent two registry (registers 3 (some older) two) (
      Step-IsCoherent one two (registers 2 (some (version_of 1 true)) one) (
        Step-IsCoherent empty one (registers 1 (some (version_of 0 false)) empty) empty-IsCoherent))

latest_older : get_latest (ascii "plan") registry ≡ some older
unfolding register get_latest find_version put modify lookup get before
latest_older = refl

-- The version "10" was registered last of the two that are left.
lexical_latest :
    get_latest (ascii "plan") (unregister (ascii "plan") (ascii "2") registry).0
    ≡ some (version_of 0 false)
unfolding unregister unregister_in after_erase erase last_version register get_latest find_version
    put modify lookup get before
lexical_latest = refl

unregister-Promoted_example :
    Promoted (ascii "plan") (unregister (ascii "plan") (ascii "2") registry).0
unregister-Promoted_example =
    unregister-Promoted (ascii "plan") older registry registry-IsCoherent latest_older

Step-IsCoherent_example : IsCoherent (unregister (ascii "plan") (ascii "10") registry).0
Step-IsCoherent_example =
    Step-IsCoherent registry (unregister (ascii "plan") (ascii "10") registry).0
      (unregisters (ascii "plan") (ascii "10") registry) registry-IsCoherent

abbrev calls : List Call
calls =
    Refined.registers 1 (some older)
    ∷ Refined.registers 2 (some (version_of 1 true))
    ∷ gets (ascii "plan") (ascii "2")
    ∷ Refined.unregisters (ascii "plan") (ascii "2")
    ∷ gets (ascii "plan") (ascii "2")
    ∷ Refined.unregisters (ascii "plan") (ascii "2")
    ∷ gets (ascii "plan") (ascii "10")
    ∷ []

answers-refines_example : answers calls (empty_registry true) ≡ specified calls (λ n v. none)
answers-refines_example = answers-refines true calls
