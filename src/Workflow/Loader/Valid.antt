-- ===== src/Workflow/Loader/Valid.antt =====
-- The specs that the checks of agentflow/workflow/workflow_loader.cc accept.
use zen_agent.Common.{
  ℕ, ◌≤◌, ◌≡◌, ◌≢◌, ◌↔◌, refl, sym, ap, ◌∙◌, subst, Bool, true, false, List, [], ◌∷◌, ◌++◌, ◌⊎◌,
  inl, inr, Option, none, some, ltb, length, Bool-cases, if◌then◌else◌, In, All, arith,
  bytes_equality, ◌==◌,
}
use zen_agent.Common.Assoc.{contains, keys, In-of_contains, contains_of_In}
use zen_agent.Common.Bytes.{Bytes, ascii}
use zen_agent.Workflow.Spec.{DelegateSpec, AgentDef, WorkflowSpec, delegated}
use zen_agent.Workflow.Template.{TemplateString, Parsed, failed, paths, parse}
use zen_agent.Workflow.Template
use zen_agent.Workflow.Loader.{Status, Result, ok, err, ◌>>=◌, ◌>>◌, each}
use zen_agent.Workflow.Loader.Parse.{of_agent}
use zen_agent.Workflow.Loader.Checks.{
  at_most, check_delegate_limits, check_agent_limits, check_resource_limits, check_tool,
  check_target, check_agent_references, check_main, check_references, check_path, check_parsed,
  check_one_template, check_goal, check_input, check_agent_templates, check_templates,
}

-- Two steps succeed if both do.
pub both_iff :
    {B : Type 0} (m : Result (Unit {0})) (k : Result B) {b : B} {P Q : Type 0}
    → (m ≡ ok tt) ↔ P
    → (k ≡ ok b) ↔ Q
    → ((m >> k) ≡ ok b) ↔ (P × Q)
both_iff (ok u) k p q = (λ h. (p.0 refl, q.0 h), λ h. q.1 h.1)
both_iff (err e) k p q = (λ h. absurd (cc h), λ h. absurd (cc (p.1 h.0)))

pub ok-inj : {A : Type 0} {a b : A} → ok a ≡ ok b → a ≡ b
ok-inj e = cc e

-- A step behind the value of another.
pub bind_iff :
    {A B : Type 0} (m : Result A) (k : A → Result B) {b : B} {Q : A → Type 0}
    → ((a : A) → (k a ≡ ok b) ↔ Q a)
    → ((m >>= k) ≡ ok b) ↔ ((a : A) × ((m ≡ ok a) × Q a))
bind_iff (ok x) k q = (λ h. (x, (refl, (q x).0 h)), λ (a, (e, h)). ap k (ok-inj e) ∙ (q a).1 h)
bind_iff (err e) k q = (λ h. absurd (cc h), λ (a, (h, g)). absurd (cc h))

pub each_iff :
    {A : Type 0} (f : A → Result (Unit {0})) (P : A → Type 0)
    → ((x : A) → (f x ≡ ok tt) ↔ P x)
    → (xs : List A) → (each f xs ≡ ok tt) ↔ All P xs
unfolding each
each_iff f P h [] = (λ e. tt, λ e. refl)
each_iff f P h (x ∷ xs) = go (f x) (h x) (each_iff f P h xs)
  where
    go :
        (r : Result (Unit {0}))
        → (r ≡ ok tt) ↔ P x
        → (each f xs ≡ ok tt) ↔ All P xs
        → (elim r [ err e ↦ err e | ok u ↦ each f xs ] ≡ ok tt) ↔ (P x × All P xs)
    go (err e) p rest = (λ k. absurd (cc k), λ k. absurd (cc (p.1 k.0)))
    go (ok u) p rest = (λ k. (p.0 refl, rest.0 k), λ k. rest.1 k.1)

-- A test with an error where it fails.
pub unless_iff :
    (b : Bool) (s : Status) {P : Type 0}
    → (b ≡ true) ↔ P
    → ((if b then ok (tt {0}) else err s) ≡ ok (tt {0})) ↔ P
unless_iff true s p = (λ h. p.0 refl, λ h. refl)
unless_iff false s p = (λ h. absurd (cc h), λ h. absurd (cc (p.1 h)))

pub at_most_iff :
    (limit n : ℕ) (before between behind : Bytes)
    → (at_most limit n before between behind ≡ ok tt) ↔ (n ≤ limit)
unfolding at_most
at_most_iff limit n before between behind = elim (Bool-cases (ltb limit n)) [
  | inl e ↦ rw e (λ h. absurd (cc h), λ h. absurd (ground arith))
  | inr e ↦ rw e (λ h. ground arith, λ h. refl)
]

pub contains_iff : (names : List Bytes) (n : Bytes) → (contains names n ≡ true) ↔ In n names
contains_iff names n = (In-of_contains names n, contains_of_In names n)

abbrev pub FitsDelegates : Option DelegateSpec → Type 0
FitsDelegates none = Unit
FitsDelegates (some d) = (length d.agents ≤ 16) × (d.max_depth ≤ 8)

abbrev pub FitsLimits : Bytes × AgentDef → Type 0
FitsLimits (name, def) = (length def.tools ≤ 64) × FitsDelegates def.delegates

check_delegate_limits_iff :
    (name : Bytes) (d : Option DelegateSpec)
    → (check_delegate_limits name d ≡ ok tt) ↔ FitsDelegates d
check_delegate_limits_iff name none = (λ h. tt, λ h. refl)
check_delegate_limits_iff name (some d) =
    both_iff _ _
      (at_most_iff 16 (length d.agents) (of_agent name (ascii "' delegates "))
        (ascii " agents (limit ") (ascii ")"))
      (at_most_iff 8 d.max_depth (of_agent name (ascii "' delegate max_depth ")) (ascii " > limit ")
        [])

check_agent_limits_iff : (a : Bytes × AgentDef) → (check_agent_limits a ≡ ok tt) ↔ FitsLimits a
unfolding check_agent_limits
check_agent_limits_iff (name, def) =
    both_iff _ _
      (at_most_iff 64 (length def.tools) (of_agent name (ascii "' has ")) (ascii " tools (limit ")
        (ascii ")"))
      (check_delegate_limits_iff name def.delegates)

abbrev pub FitsSizes : ℕ → ℕ → WorkflowSpec → Type 0
FitsSizes json_bytes max_json_bytes spec =
    (json_bytes ≤ max_json_bytes) × ((length spec.agents ≤ 32) × All FitsLimits spec.agents)

pub check_resource_limits_iff :
    (spec : WorkflowSpec) (json_bytes max_json_bytes : ℕ)
    → (check_resource_limits spec json_bytes max_json_bytes ≡ ok tt)
      ↔ FitsSizes json_bytes max_json_bytes spec
unfolding check_resource_limits
check_resource_limits_iff spec n max =
    both_iff _ _ (at_most_iff max n (ascii "workflow json size ") (ascii " > limit ") []) (
      both_iff _ _
        (at_most_iff 32 (length spec.agents) (ascii "agent count ") (ascii " > limit ") [])
        (each_iff check_agent_limits FitsLimits check_agent_limits_iff spec.agents))

module _ (has : Bytes → Bool) where
  abbrev pub Usable : Bytes → Type 0
  Usable t = (t ≢ ascii "delegate") × (has t ≡ true)

  -- The tools are the host's, and the delegates are declared.
  abbrev pub Refers : List Bytes → Bytes × AgentDef → Type 0
  Refers names (name, def) = All Usable def.tools × All (λ d. In d names) (delegated def.delegates)

  check_tool_iff : (name t : Bytes) → (check_tool has name t ≡ ok tt) ↔ Usable t
  unfolding check_tool
  check_tool_iff name t = elim (Bool-cases (t == ascii "delegate")) [
    | inl e ↦ rw e (λ h. absurd (cc h), λ h. absurd (h.0 ((bytes_equality.same_iff t _).0 e)))
    | inr e ↦ rw e (
        unless_iff (has t) _
          (λ h. (λ same. cc (e, (bytes_equality.same_iff t _).1 same), h), λ h. h.1))
  ]

  check_target_iff :
      (names : List Bytes) (name d : Bytes) → (check_target has names name d ≡ ok tt) ↔ In d names
  unfolding check_target
  check_target_iff names name d = unless_iff (contains names d) _ (contains_iff names d)

  check_agent_references_iff :
      (names : List Bytes) (a : Bytes × AgentDef)
      → (check_agent_references has names a ≡ ok tt) ↔ Refers names a
  unfolding check_agent_references
  check_agent_references_iff names (name, def) =
      both_iff _ _ (each_iff (check_tool has name) Usable (check_tool_iff name) def.tools) (
        each_iff (check_target has names name) (λ d. In d names) (check_target_iff names name)
          (delegated def.delegates))

  abbrev pub FitsReferences : WorkflowSpec → Type 0
  FitsReferences spec =
      ((spec.main ≢ []) × In spec.main (keys spec.agents))
      × All (Refers (keys spec.agents)) spec.agents

  check_main_iff :
      (names : List Bytes) (main : Bytes)
      → (check_main has names main ≡ ok tt) ↔ ((main ≢ []) × In main names)
  check_main_iff names [] = (λ h. absurd (cc h), λ h. absurd (h.0 refl))
  check_main_iff names (c ∷ main) = unless_iff (contains names (c ∷ main)) _ (
    λ h. (λ e. cc e, (contains_iff names (c ∷ main)).0 h),
    λ h. (contains_iff names (c ∷ main)).1 h.1,
  )

  pub check_references_iff :
      (spec : WorkflowSpec) → (check_references has spec ≡ ok tt) ↔ FitsReferences spec
  unfolding check_references
  check_references_iff spec = both_iff _ _ (check_main_iff (keys spec.agents) spec.main) (
      each_iff (check_agent_references has (keys spec.agents)) (Refers (keys spec.agents))
        (check_agent_references_iff (keys spec.agents)) spec.agents)

-- A path of a template: one into the state names one of its fields.
abbrev pub Known : List Bytes → List Bytes → Type 0
Known names [] = Unit
Known names (head ∷ []) = head ≢ ascii "state"
Known names (head ∷ name ∷ ps) = (head ≢ ascii "state") ⊎ In name names

check_path_iff :
    (place : Bytes) (names path : List Bytes)
    → (check_path place names path ≡ ok tt) ↔ Known names path
unfolding check_path
check_path_iff place names [] = (λ h. tt, λ h. refl)
check_path_iff place names (head ∷ []) = elim (Bool-cases (head == ascii "state")) [
  | inl e ↦ rw e (λ h. absurd (cc h), λ h. absurd (h ((bytes_equality.same_iff head _).0 e)))
  | inr e ↦ rw e (λ h same. cc (e, (bytes_equality.same_iff head _).1 same), λ h. refl)
]
check_path_iff place names (head ∷ name ∷ ps) = elim (Bool-cases (head == ascii "state")) [
  | inl e ↦ rw e (
      unless_iff (contains names name) _ (
        λ h. inr ((contains_iff names name).0 h),
        λ h. elim h [
          | inl other ↦ absurd (other ((bytes_equality.same_iff head _).0 e))
          | inr i ↦ (contains_iff names name).1 i
        ],
      ))
  | inr e ↦ rw e (λ h. inl (λ same. cc (e, (bytes_equality.same_iff head _).1 same)), λ h. refl)
]

-- A template that parses, with paths that are known.
abbrev pub IsSound : List Bytes → Bytes → Type 0
IsSound names source =
    (t : TemplateString) × ((parse source ≡ Template.ok t) × All (Known names) (paths t.segs))

check_one_template_iff :
    (place : Bytes) (names : List Bytes) (source : Bytes)
    → (check_one_template place names source ≡ ok tt) ↔ IsSound names source
unfolding check_one_template
check_one_template_iff place names source = go (parse source)
  where
    inj : (a b : TemplateString) → Template.ok a ≡ Template.ok b → a ≡ b
    inj a b e = cc e

    go :
        (p : Parsed)
        → (check_parsed place names p ≡ ok tt)
          ↔ ((t : TemplateString) × ((p ≡ Template.ok t) × All (Known names) (paths t.segs)))
    go (failed e) = (λ h. absurd (cc h), λ h. absurd (cc h.1.0))
    go (Template.ok t) =
        let fits = each_iff (check_path place names) (Known names) (check_path_iff place names) in
        (
          λ h. (t, (refl, (fits (paths t.segs)).0 h)),
          λ (t', (e, h)).
              (fits (paths t.segs)).1
                (subst (λ x. All (Known names) (paths x.segs)) (sym (inj t t' e)) h),
        )

abbrev pub Templated : List Bytes → Option DelegateSpec → Type 0
Templated names none = Unit
Templated names (some d) =
    ((d.goal_template ≡ []) ⊎ IsSound names d.goal_template)
    × All (λ t. IsSound names t.1) d.input_template

check_goal_iff :
    (name : Bytes) (names : List Bytes) (g : Bytes)
    → (check_goal name names g ≡ ok tt) ↔ ((g ≡ []) ⊎ IsSound names g)
check_goal_iff name names [] = (λ h. inl refl, λ h. refl)
check_goal_iff name names (c ∷ g) =
    let one =
      check_one_template_iff (of_agent name (ascii "' delegates.goal_template")) names (c ∷ g) in
    (λ h. inr (one.0 h), λ h. elim h [ inl e ↦ absurd (cc e) | inr s ↦ one.1 s ])

check_input_iff :
    (name : Bytes) (names : List Bytes) (t : Bytes × Bytes)
    → (check_input name names t ≡ ok tt) ↔ IsSound names t.1
unfolding check_input
check_input_iff name names (key, source) =
    check_one_template_iff
      (of_agent name (ascii "' delegates.input_template[" ++ (key ++ ascii "]"))) names source

check_agent_templates_iff :
    (names : List Bytes) (name : Bytes) (d : Option DelegateSpec)
    → (check_agent_templates names name d ≡ ok tt) ↔ Templated names d
unfolding check_agent_templates
check_agent_templates_iff names name none = (λ h. tt, λ h. refl)
check_agent_templates_iff names name (some d) =
    both_iff _ _ (check_goal_iff name names d.goal_template) (
      each_iff (check_input name names) (λ t. IsSound names t.1) (check_input_iff name names)
        d.input_template)

pub check_templates_iff :
    (spec : WorkflowSpec)
    → (check_templates spec ≡ ok tt)
      ↔ All (λ a. Templated (keys spec.state.fields) a.1.delegates) spec.agents
unfolding check_templates
check_templates_iff spec =
    each_iff _ _ (λ a. check_agent_templates_iff (keys spec.state.fields) a.0 a.1.delegates)
      spec.agents
