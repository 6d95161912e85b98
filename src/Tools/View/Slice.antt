-- ===== src/Tools/View/Slice.antt =====
-- Which tools stand in an `InvocationToolView`.
use zen_agent.Common.{
  String, Bool, true, false, ◌||◌, ◌≡◌, refl, sym, ap, ◌∙◌, List, [], ◌∷◌, Option, none, some,
  or_else, or_else-none, inl, inr, Bool-cases, Option-cases, if◌then◌else◌, text_equality, ◌==◌,
}
use zen_agent.Common.Assoc.{lookup, get, contains, modify, lookup-append, lookup-modify}
use zen_agent.Tools.{Tool, native, adapter, name_of}
use zen_agent.Tools.Registry.{Tools, find}
use zen_agent.Tools.Gated.{ToolTier, readonly, confirm, blocked}
use zen_agent.Tools.View.{
  Entry, gated, ungated, add, View, with_session, emplace, guarded, add_declared, view_from,
  ViewCall, calls, tool_not_allowed, view_invoke,
}

-- A tool in a session: an adapter has it as its own, if there is one.
abbrev pub in_session : String → Tool → Tool
in_session session (native i s) = native i s
in_session session (adapter c s t x) = adapter c s t (if session == "" then x else session)

-- A tool of that tier, as the view holds it.
abbrev pub by_tier : String → Tool → ToolTier → Option Entry
by_tier session inner blocked = none
by_tier session inner readonly =
    some (gated (record { inner = in_session session inner; tier = readonly }))
by_tier session inner confirm =
    some (gated (record { inner = in_session session inner; tier = confirm }))

-- What the view holds under a declared name.
pub slice : Tools → List (String × ToolTier) → String → String → Option Entry
slice registry tiers session n = elim (find n registry) [
  | none ↦ none
  | some inner ↦ by_tier session inner (get n readonly tiers)
]

lookup-emplace :
    (m n : String) (g : Entry) (v : View)
    → lookup m (emplace n g v) ≡ or_else (lookup m v) (if m == n then some g else none)
unfolding emplace lookup
lookup-emplace m n g v = elim (Option-cases (lookup n v)) [
  | inl free ↦ rw free (lookup-append m v ((n, g) ∷ []))
  | inr (u, taken) ↦ rw taken (elim (Bool-cases (m == n)) [
    | inl same ↦
        let f : lookup m v ≡ some u =
          ap (λ k. lookup k v) ((text_equality.same_iff m n).0 same) ∙ taken in
        rw f
    | inr other ↦ rw other (or_else-none (lookup m v))
  ])
]

absent : (o : Option Entry) (b : Bool) → o ≡ or_else o (if b then none else none)
absent none true = refl
absent none false = refl
absent (some g) b = refl

with_session-in_session :
    (session : String) (t : Tool) → with_session session t ≡ in_session session t
unfolding with_session
with_session-in_session session (native i s) = refl
with_session-in_session session (adapter c s t x) = go (session == "")
  where
    go :
        (b : Bool)
        → (if b then adapter c s t x else adapter c s t session)
          ≡ adapter c s t (if b then x else session)
    go true = refl
    go false = refl

lookup-guarded :
    (m n session : String) (inner : Tool) (t : ToolTier) (v : View)
    → lookup m (guarded session n inner t v)
      ≡ or_else (lookup m v) (if m == n then by_tier session inner t else none)
lookup-guarded m n session inner blocked v = absent (lookup m v) (m == n)
lookup-guarded m n session inner readonly v =
    lookup-emplace m n _ v
    ∙ ap
        (λ t.
          or_else (lookup m v)
            (if m == n then some (gated (record { inner = t; tier = readonly })) else none))
        (with_session-in_session session inner)
lookup-guarded m n session inner confirm v =
    lookup-emplace m n _ v
    ∙ ap
        (λ t.
          or_else (lookup m v)
            (if m == n then some (gated (record { inner = t; tier = confirm })) else none))
        (with_session-in_session session inner)

lookup-add_declared :
    (registry : Tools) (tiers : List (String × ToolTier)) (session m n : String) (v : View)
    → lookup m (add_declared registry tiers session n v)
      ≡ or_else (lookup m v) (if m == n then slice registry tiers session n else none)
unfolding add_declared slice
lookup-add_declared registry tiers session m n v = go (find n registry)
  where
    go :
        (o : Option Tool)
        → lookup m (
            let r : View = elim o [
              | none ↦ v
              | some t ↦ guarded session n t (get n readonly tiers) v
            ] in
            r)
          ≡ or_else (lookup m v) (
              if m == n
              then elim o [ none ↦ none | some t ↦ by_tier session t (get n readonly tiers) ]
              else none)
    go none = absent (lookup m v) (m == n)
    go (some t) = lookup-guarded m n session t (get n readonly tiers) v

-- A second declaration of a name changes nothing.
twice :
    (x s : Option Entry) (c : Bool) → or_else (or_else x s) (if c then s else none) ≡ or_else x s
twice (some g) s c = refl
twice none (some g) c = refl
twice none none true = refl
twice none none false = refl

next_declared :
    (x : Option Entry) (same c : Bool) (s t : Option Entry)
    → (same ≡ true → t ≡ s)
    → or_else (or_else x (if same then t else none)) (if c then s else none)
      ≡ or_else x (if same || c then s else none)
next_declared x true c s t h =
    ap (λ r. or_else (or_else x r) (if c then s else none)) (h refl) ∙ twice x s c
next_declared x false c s t h = ap (λ r. or_else r (if c then s else none)) (sym (or_else-none x))

view_from-slice :
    (registry : Tools) (tiers : List (String × ToolTier)) (session m : String) (names : List String)
    (v : View)
    → lookup m (view_from registry tiers session names v)
      ≡ or_else (lookup m v) (if contains names m then slice registry tiers session m else none)
unfolding view_from contains
view_from-slice registry tiers session m [] v = or_else-none (lookup m v)
view_from-slice registry tiers session m (n ∷ names) v =
    view_from-slice registry tiers session m names (add_declared registry tiers session n v)
    ∙ ap (λ o. or_else o (if contains names m then slice registry tiers session m else none))
        (lookup-add_declared registry tiers session m n v)
    ∙ next_declared (lookup m v) (m == n) (contains names m) (slice registry tiers session m)
        (slice registry tiers session n)
        (λ e. ap (slice registry tiers session) (sym ((text_equality.same_iff m n).0 e)))

-- What a call does with the tool that it finds.
abbrev pub answered : Option Entry → ViewCall
answered none = tool_not_allowed
answered (some g) = calls g

invoke-answered : (m : String) (v : View) → view_invoke m v ≡ answered (lookup m v)
unfolding view_invoke
invoke-answered m v = go (lookup m v)
  where
    go : (o : Option Entry) → elim o [ none ↦ tool_not_allowed | some g ↦ calls g ] ≡ answered o
    go none = refl
    go (some g) = refl

constructed_slice :
    (registry : Tools) (tiers : List (String × ToolTier)) (session m : String) (names : List String)
    → view_invoke m (view_from registry tiers session names [])
      ≡ answered (if contains names m then slice registry tiers session m else none)
unfolding lookup contains
constructed_slice registry tiers session m names =
    invoke-answered m (view_from registry tiers session names [])
    ∙ ap answered (view_from-slice registry tiers session m names [])

-- The tool that is added, if it has the name, or another entry.
abbrev pub or_added : Option Tool → String → ViewCall → ViewCall
or_added none m call = call
or_added (some t) m call = if m == name_of t then calls (ungated t) else call

invoke-add :
    (added : Option Tool) (m : String) (v : View)
    → view_invoke m (add added v) ≡ or_added added m (view_invoke m v)
unfolding add
invoke-add none m v = refl
invoke-add (some t) m v =
    invoke-answered m (modify (name_of t) (ungated t) (λ _. ungated t) v)
    ∙ ap answered (lookup-modify (name_of t) m (ungated t) (λ _. ungated t) v)
    ∙ go (m == name_of t)
  where
    go :
        (b : Bool)
        → answered (if b then some (ungated t) else lookup m v)
          ≡ (if b then calls (ungated t) else view_invoke m v)
    go true = refl
    go false = sym (invoke-answered m v)

-- A view that is built from a run's declarations, and to which a tool may be added, reaches under
-- the name of the added tool that tool, ungated. It reaches another name exactly if the name is
-- declared, the registry has it and its tier (read-only where none is given) does not block it;
-- the tool is then that of the registry, in the session of the run and behind its tier. Any
-- other name is refused.
pub view_invoke-slice :
    (registry : Tools) (tiers : List (String × ToolTier)) (session m : String) (names : List String)
    (added : Option Tool)
    → view_invoke m (add added (view_from registry tiers session names []))
      ≡ or_added added m
          (answered (if contains names m then slice registry tiers session m else none))
view_invoke-slice registry tiers session m names added =
    invoke-add added m (view_from registry tiers session names [])
    ∙ ap (or_added added m) (constructed_slice registry tiers session m names)
