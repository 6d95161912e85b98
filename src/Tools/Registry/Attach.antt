-- ===== src/Tools/Registry/Attach.antt =====
-- `ToolRegistry::AttachMcpServer` on the tools that a server lists.
use zen_agent.Common.{
  not, ◌&&◌, ◌||◌, ℕ, String, Bool, true, false, ◌≡◌, refl, ap, ◌∙◌, List, [], ◌∷◌, Option, none,
  some, or_else, or_else-none, inl, inr, if◌then◌else◌, Bool-cases, text_equality, ◌==◌,
}
use zen_agent.Common.Assoc.{contains}
use zen_agent.Tools.{ToolSchema, Tool, adapter, name_of}
use zen_agent.Tools.Registry.{
  Tools, find, try_register_if_absent, Policy, filter_of, skipped, Counts, no_counts, attach_tool,
  attach_tools, Status, ok, failed, listed_tools, list_failed, attach_listed, attach_mcp_server,
}
use zen_agent.Tools.Registry.Laws.{find-try_register_if_absent}

-- The first listed tool of that name that is not skipped.
pub first_unskipped : List String → List String → String → List ToolSchema → Option ToolSchema
first_unskipped include exclude n [] = none
first_unskipped include exclude n (s ∷ ss) =
    let rest = first_unskipped include exclude n ss in
    if skipped include exclude s then rest else if n == s.name then some s else rest

abbrev pub mapped : (ToolSchema → Tool) → Option ToolSchema → Option Tool
mapped f none = none
mapped f (some s) = some (f s)

-- The tools of a round do not depend on what is counted.
counted-tools :
    (q : Tools × Bool) (k l : Counts)
    → (let r : Tools × Counts = (if q.1 then (q.0, k) else (q.0, l)) in r.0) ≡ q.0
counted-tools (t, true) k l = refl
counted-tools (t, false) k l = refl

offered_next :
    (make : ToolSchema → Tool) (x : Option Tool) (skip same : Bool) (s : ToolSchema)
    (rest : Option ToolSchema)
    → or_else
        (or_else x (if skip then none else if same then some (make s) else none))
        (mapped make rest)
      ≡ or_else x (mapped make (if skip then rest else if same then some s else rest))
offered_next make (some t) skip same s rest = refl
offered_next make none true same s rest = refl
offered_next make none false true s rest = refl
offered_next make none false false s rest = refl

module _ (make : ToolSchema → Tool) (named : (s : ToolSchema) → name_of (make s) ≡ s.name)
    (include exclude : List String) where
  find-attach_tool :
      (n : String) (s : ToolSchema) (r : Tools × Counts)
      → find n (attach_tool make include exclude s r).0
        ≡ or_else (find n r.0) (
            if skipped include exclude s then none else if n == s.name then some (make s) else none)
  unfolding attach_tool
  find-attach_tool n s (t, k) = elim (Bool-cases (skipped include exclude s)) [
    | inl e ↦ rw (e, attach_tool) (or_else-none (find n t))
    | inr e ↦
        rw (e, attach_tool)
          (ap (find n) (counted-tools (try_register_if_absent (make s) t) _ _)
            ∙ find-try_register_if_absent n (make s) t
            ∙ ap (λ m. or_else (find n t) (if n == m then some (make s) else none)) (named s))
  ]

  find-attach_tools :
      (n : String) (ss : List ToolSchema) (r : Tools × Counts)
      → find n (attach_tools make include exclude ss r).0
        ≡ or_else (find n r.0) (mapped make (first_unskipped include exclude n ss))
  unfolding attach_tools first_unskipped
  find-attach_tools n [] r = or_else-none (find n r.0)
  find-attach_tools n (s ∷ ss) r =
      find-attach_tools n ss (attach_tool make include exclude s r)
      ∙ ap (λ o. or_else o (mapped make (first_unskipped include exclude n ss)))
          (find-attach_tool n s r)
      ∙ offered_next make (find n r.0) (skipped include exclude s) (n == s.name) s
          (first_unskipped include exclude n ss)

pub find-attach_filtered :
    (client : ℕ) (p : Policy) (include exclude : List String) (ss : List ToolSchema) (t : Tools)
    (n : String)
    → find n (attach_listed client p include exclude (listed_tools ss) t).0
      ≡ or_else (find n t) (
          mapped
            (λ s. adapter client s p.call_timeout_ms "")
            (first_unskipped
              (filter_of include p.include_tools)
              (filter_of exclude p.exclude_tools)
              n
              ss))
unfolding attach_listed
find-attach_filtered client p include exclude ss t n =
    find-attach_tools (λ s. adapter client s p.call_timeout_ms "") (λ s. refl)
      (filter_of include p.include_tools) (filter_of exclude p.exclude_tools) n ss (t, no_counts)

-- The filters that count: the caller's, or where the caller gives none those of the spec.
abbrev pub chosen : List String → List String → List String
chosen [] own = own
chosen (n ∷ given) own = n ∷ given

-- A name that is not excluded, and is included where there is a list of what is.
abbrev pub is_included : List String → String → Bool
is_included [] n = true
is_included (m ∷ include) n = contains (m ∷ include) n

abbrev pub is_offered : List String → List String → String → Bool
is_offered include exclude n = is_included include n && not (contains exclude n)

-- The first listed tool of that name, if the name is offered.
pub first_offered : List String → List String → String → List ToolSchema → Option ToolSchema
first_offered include exclude n [] = none
first_offered include exclude n (s ∷ ss) =
    let rest = first_offered include exclude n ss in
    if is_offered include exclude s.name && n == s.name then some s else rest

skipped-is_offered :
    (include exclude : List String) (s : ToolSchema)
    → skipped include exclude s ≡ not (is_offered include exclude s.name)
unfolding skipped
skipped-is_offered [] exclude s = go (contains exclude s.name)
  where
    go : (b : Bool) → b ≡ not (not b)
    go true = refl
    go false = refl
skipped-is_offered (m ∷ include) exclude s =
    go (contains (m ∷ include) s.name) (contains exclude s.name)
  where
    go : (a b : Bool) → (not a || b) ≡ not (a && not b)
    go true true = refl
    go true false = refl
    go false b = refl

first_unskipped-first_offered :
    (include exclude : List String) (n : String) (ss : List ToolSchema)
    → first_unskipped include exclude n ss ≡ first_offered include exclude n ss
unfolding first_unskipped first_offered
first_unskipped-first_offered include exclude n [] = refl
first_unskipped-first_offered include exclude n (s ∷ ss) =
    ap
      (λ b.
        if b
        then first_unskipped include exclude n ss
        else if n == s.name
        then some s
        else first_unskipped include exclude n ss)
      (skipped-is_offered include exclude s)
    ∙ ap
        (λ r.
          if not (is_offered include exclude s.name) then r else if n == s.name then some s else r)
        (first_unskipped-first_offered include exclude n ss)
    ∙ go (is_offered include exclude s.name) (n == s.name) (first_offered include exclude n ss)
  where
    go :
        (a b : Bool) (r : Option ToolSchema)
        → (if not a then r else if b then some s else r) ≡ (if a && b then some s else r)
    go true true r = refl
    go true false r = refl
    go false b r = refl

filter_of-chosen : (span own : List String) → filter_of span own ≡ chosen span own
unfolding filter_of
filter_of-chosen [] own = refl
filter_of-chosen (n ∷ span) own = refl

-- A list that a server gives adds, under each name that is free, an adapter for the first listed
-- tool of that name, if the filters offer it: it is not excluded, and it is included where there is
-- a list of what is. A filter of the caller counts in place of that of the spec. A tool that was
-- there stays, and no other name is touched.
pub find-attach_listed :
    (client : ℕ) (p : Policy) (include exclude : List String) (ss : List ToolSchema) (t : Tools)
    (n : String)
    → find n (attach_listed client p include exclude (listed_tools ss) t).0
      ≡ or_else (find n t) (
          mapped
            (λ s. adapter client s p.call_timeout_ms "")
            (first_offered (chosen include p.include_tools) (chosen exclude p.exclude_tools) n ss))
find-attach_listed client p include exclude ss t n =
    let made : Option ToolSchema → Option Tool =
      (λ o. or_else (find n t) (mapped (λ s. adapter client s p.call_timeout_ms "") o)) in
    find-attach_filtered client p include exclude ss t n
    ∙ ap made (
        ap (λ f. first_unskipped f (filter_of exclude p.exclude_tools) n ss)
          (filter_of-chosen include p.include_tools)
        ∙ ap (λ f. first_unskipped (chosen include p.include_tools) f n ss)
            (filter_of-chosen exclude p.exclude_tools)
        ∙ first_unskipped-first_offered (chosen include p.include_tools)
            (chosen exclude p.exclude_tools) n ss)

-- The first of the two errors.
abbrev pub first_error : Status → String → String
first_error ok e = e
first_error (failed d) e = d

-- When the server does not list its tools, nothing is registered. The first error, of the
-- connection or of the list, is given back, but not if the spec starts lazily.
pub attach_mcp_server-failed :
    (client : ℕ) (p : Policy) (include exclude : List String) (connected : Status) (e : String)
    (t : Tools)
    → attach_mcp_server (some client) p include exclude connected (list_failed e) t
      ≡ (t, if p.lazy_start then ok else failed (first_error connected e))
unfolding attach_mcp_server attach_listed
attach_mcp_server-failed client p include exclude ok e t = refl
attach_mcp_server-failed client p include exclude (failed d) e t = elim (Bool-cases p.lazy_start) [
  | inl lazy ↦ rw lazy
  | inr eager ↦ rw eager
]
