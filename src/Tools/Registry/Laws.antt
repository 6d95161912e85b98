-- ===== src/Tools/Registry/Laws.antt =====
-- The registry as a map from names to tools.
use zen_agent.Common.{
  String, ◌≡◌, refl, ap, ◌∙◌, [], ◌∷◌, none, some, or_else, or_else-none, inl, inr, if◌then◌else◌,
  Bool-cases, Option-cases, text_equality, ◌==◌, arith,
}
use zen_agent.Common.Assoc.{lookup, modify, lookup-append}
use zen_agent.Tools.{Tool, name_of}
use zen_agent.Tools.Registry.{Tools, register, find, try_register_if_absent}

-- `Register` puts the tool under its own name and leaves the other names alone.
pub find-register :
    (n : String) (t : Tool) (tools : Tools)
    → find n (register t tools) ≡ (if n == name_of t then some t else find n tools)
unfolding find register lookup modify
find-register n t [] = refl
find-register n t ((m, u) ∷ tools) = ground (
  arith,
  find-register n t tools,
  text_equality.same_iff n (name_of t),
  text_equality.same_iff (name_of t) m,
  text_equality.same_iff n m,
)

-- `TryRegisterIfAbsent` adds a tool only under a name that is free.
pub find-try_register_if_absent :
    (n : String) (t : Tool) (tools : Tools)
    → find n (try_register_if_absent t tools).0
      ≡ or_else (find n tools) (if n == name_of t then some t else none)
unfolding find try_register_if_absent lookup
find-try_register_if_absent n t tools = elim (Option-cases (lookup (name_of t) tools)) [
  | inl free ↦ rw free (lookup-append n tools ((name_of t, t) ∷ []))
  | inr (u, taken) ↦ rw taken (elim (Bool-cases (n == name_of t)) [
    | inl same ↦
        let e : n ≡ name_of t = (text_equality.same_iff n (name_of t)).0 same in
        let f : lookup n tools ≡ some u = ap (λ m. lookup m tools) e ∙ taken in rw f
    | inr other ↦ rw other (or_else-none (lookup n tools))
  ])
]
