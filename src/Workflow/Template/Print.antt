-- ===== src/Workflow/Template/Print.antt =====
-- `TemplateString::Parse` on templates that are printed from their segments.
use zen_agent.Common.{
  ◌+◌, ◌≡◌, ◌≢◌, refl, ap, ◌∙◌, true, false, ◌&&◌, List, [], ◌∷◌, ◌++◌, some, eqb, length, drop,
  take-length, drop-length, drop-add, All, All-append, arith, if◌then◌else◌,
}
use zen_agent.Common.Bytes.{Bytes, find, starts_with}
use zen_agent.Workflow.Template.{
  Segment, literal, path, known_head, is_blank, trim_front, all_blank, trim_back, put_front,
  split_points, substitutes, by_head, substitution, round, dotted,
}

-- Every opening brace of a literal is escaped.
abbrev pub escape : Bytes → Bytes
escape [] = []
escape (c ∷ s) = if eqb c b'{' then 92 ∷ b'{' ∷ escape s else c ∷ escape s

abbrev pub braced : Bytes → Bytes → Bytes
braced inner rest = b'{' ∷ b'{' ∷ (inner ++ b'}' ∷ b'}' ∷ rest)

abbrev pub print : List Segment → Bytes
print [] = []
print (literal t ∷ gs) = escape t ++ print gs
print (path ps ∷ gs) = braced (dotted ps) (print gs)

-- No two closing braces in a row, and no backslash at the end.
abbrev pub IsClean : Bytes → Type 0
IsClean [] = Unit
IsClean (c ∷ []) = c ≢ 92
IsClean (c ∷ d ∷ s) = (eqb c b'}' && eqb d b'}' ≡ false) × IsClean (d ∷ s)

abbrev pub IsPart : Bytes → Type 0
IsPart = All (λ c. (c ≢ b'.') × ((c ≢ b'}') × (is_blank c ≡ false)))

abbrev pub IsPath : List Bytes → Type 0
IsPath [] = ⊥
IsPath (h ∷ ps) = (known_head h ≡ true) × All IsPart (h ∷ ps)

abbrev pub NoLiteral : List Segment → Type 0
NoLiteral [] = Unit
NoLiteral (literal t ∷ gs) = ⊥
NoLiteral (path ps ∷ gs) = Unit

-- Literals are not empty, clean, and never next to each other; paths have a known head.
abbrev pub IsTemplate : List Segment → Type 0
IsTemplate [] = Unit
IsTemplate (literal t ∷ gs) = ((t ≢ []) × IsClean t) × (NoLiteral gs × IsTemplate gs)
IsTemplate (path ps ∷ gs) = IsPath ps × IsTemplate gs

-- A part without blanks at any place.
abbrev Solid : Bytes → Type 0
Solid = All (λ c. (c ≢ b'}') × (is_blank c ≡ false))

Solid-dotted : (ps : List Bytes) → All IsPart ps → Solid (dotted ps)
unfolding dotted is_blank
Solid-dotted [] h = tt
Solid-dotted (p ∷ []) h = part p h.0
  where
    part : (p : Bytes) → IsPart p → Solid p
    part [] h = tt
    part (c ∷ p) h = (h.0.1, part p h.1)
Solid-dotted (p ∷ q ∷ ps) h =
    All-append _ p (b'.' ∷ dotted (q ∷ ps)) (part p h.0)
      ((λ e. omega (arith, e), refl), Solid-dotted (q ∷ ps) h.1)
  where
    part : (p : Bytes) → IsPart p → Solid p
    part [] h = tt
    part (c ∷ p) h = (h.0.1, part p h.1)

trim_front-Solid : (s : Bytes) → Solid s → trim_front s ≡ s
unfolding trim_front
trim_front-Solid [] h = refl
trim_front-Solid (c ∷ s) h = rw h.0.1

trim_back-Solid : (s : Bytes) → Solid s → trim_back s ≡ s
unfolding trim_back all_blank
trim_back-Solid [] h = refl
trim_back-Solid (c ∷ s) h = rw h.0.1 (ap (◌∷◌ c) (trim_back-Solid s h.1))

split_points-part : (p : Bytes) → IsPart p → split_points p ≡ p ∷ []
unfolding split_points put_front
split_points-part [] h = refl
split_points-part (c ∷ p) h =
    let other : eqb c b'.' ≡ false = ground (arith, h.0.0) in rw (other, split_points-part p h.1)

split_points-append : (p s : Bytes) → IsPart p → split_points (p ++ b'.' ∷ s) ≡ p ∷ split_points s
unfolding split_points put_front
split_points-append [] s h = refl
split_points-append (c ∷ p) s h =
    let other : eqb c b'.' ≡ false = ground (arith, h.0.0) in
    rw (other, split_points-append p s h.1)

split_points-dotted :
    (p : Bytes) (ps : List Bytes) → All IsPart (p ∷ ps) → split_points (dotted (p ∷ ps)) ≡ p ∷ ps
unfolding dotted
split_points-dotted p [] h = split_points-part p h.0
split_points-dotted p (q ∷ ps) h =
    split_points-append p (dotted (q ∷ ps)) h.0 ∙ ap (◌∷◌ p) (split_points-dotted q ps h.1)

find-close :
    (s t : Bytes) → Solid s → find (s ++ b'}' ∷ b'}' ∷ t) (b'}' ∷ b'}' ∷ []) ≡ some (length s)
unfolding find starts_with
find-close [] t h = refl
find-close (c ∷ s) t h = rw (find-close s t h.1) (ground (arith, h.0.0))

drop-close : (s t : Bytes) → drop (length s + 2) (s ++ b'}' ∷ b'}' ∷ t) ≡ t
drop-close s t = rw (drop-add (length s) 2 (s ++ b'}' ∷ b'}' ∷ t), drop-length s (b'}' ∷ b'}' ∷ t))

pub round-path :
    (ps : List Bytes) (rest : Bytes)
    → IsPath ps
    → round b'{' (b'{' ∷ (dotted ps ++ b'}' ∷ b'}' ∷ rest)) ≡ substitutes ps rest
unfolding round substitution by_head starts_with
round-path [] rest h = elim h [ ]
round-path (p ∷ ps) rest h =
    let inner = dotted (p ∷ ps) in
    let solid = Solid-dotted (p ∷ ps) h.1 in
    rw (
      find-close inner rest solid,
      take-length inner (b'}' ∷ b'}' ∷ rest),
      trim_front-Solid inner solid,
      trim_back-Solid inner solid,
      split_points-dotted p ps h.1,
      h.0,
      drop-close inner rest,
    )
