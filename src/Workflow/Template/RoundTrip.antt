-- ===== src/Workflow/Template/RoundTrip.antt =====
-- `TemplateString::Parse` on printed templates: the literals, and the loop.
use zen_agent.Common.{
  ℕ, zero, suc, ◌≤◌, ◌≡◌, refl, sym, ap, ◌∙◌, Bool, true, false, ◌&&◌, List, [], ◌∷◌, ◌++◌, eqb,
  length, length-append, arith, inl, inr, append_assoc, append-nil, Bool-cases, subst, eqb_iff,
}
use zen_agent.Common.Bytes.{Bytes, starts_with}
use zen_agent.Workflow.Template.{
  Segment, literal, path, segments, Scanned, pushes, substitutes, round, flush, with_segments, scan,
  paths, ok, parse, dotted,
}
use zen_agent.Workflow.Template.Print.{
  escape, braced, print, IsClean, NoLiteral, IsPath, IsTemplate, round-path,
}

-- What may stand behind a literal: nothing, or a substitution.
abbrev Follows : Bytes → Type 0
Follows [] = Unit
Follows (c ∷ s) = c ≡ b'{'

print-Follows : (gs : List Segment) → NoLiteral gs → Follows (print gs)
print-Follows [] h = tt
print-Follows (literal t ∷ gs) h = elim h [ ]
print-Follows (path ps ∷ gs) h = refl

-- The byte behind a byte of a literal does not make braces or an escape of it.
round-pushes :
    (c : ℕ) (s rest : Bytes)
    → IsClean (c ∷ s)
    → eqb c b'{' ≡ false
    → Follows rest
    → round c (escape s ++ rest) ≡ pushes c (escape s ++ rest)
unfolding round starts_with
round-pushes c [] [] h o f = rw o (ground (arith, h))
round-pushes c [] (d ∷ rest) h o f =
    let last : eqb c 92 ≡ false = ground (arith, h) in
    let brace : eqb d b'}' ≡ false = ground (arith, f) in rw (last, o, brace) (ground arith)
round-pushes c (d ∷ s) rest h o f = elim (Bool-cases (eqb d b'{')) [
  | inl e ↦ rw (e, o) (ground arith)
  | inr e ↦ rw (e, o) (ground (arith, h.0, e))
]

scan-pushes :
    (f c b : ℕ) (s rest lit : Bytes)
    → round c s ≡ pushes b rest
    → scan (suc f) (c ∷ s) lit ≡ scan f rest (lit ++ b ∷ [])
unfolding scan
scan-pushes f c b s rest lit e = rw (e, scan)

scan-substitutes :
    (f c : ℕ) (s rest lit : Bytes) (ps : List Bytes)
    → round c s ≡ substitutes ps rest
    → scan (suc f) (c ∷ s) lit ≡ with_segments lit ps (scan f rest [])
unfolding scan
scan-substitutes f c s rest lit ps e = rw (e, scan)

round-escaped : (s : Bytes) → round 92 (b'{' ∷ s) ≡ pushes b'{' s
unfolding round starts_with
round-escaped s = refl

tail-IsClean : (c : ℕ) (t : Bytes) → IsClean (c ∷ t) → IsClean t
tail-IsClean c [] h = tt
tail-IsClean c (d ∷ t) h = h.1

-- The scan of the first byte of an escaped literal.
scan-escape-cons :
    (c : ℕ) (t rest lit : Bytes) (r : Scanned)
    → IsClean (c ∷ t)
    → Follows rest
    → ((f : ℕ) → length (escape t ++ rest) ≤ f → scan f (escape t ++ rest) (lit ++ c ∷ []) ≡ r)
    → (f : ℕ) → length (escape (c ∷ t) ++ rest) ≤ f
    → scan f (escape (c ∷ t) ++ rest) lit ≡ r
scan-escape-cons c t rest lit r h w k f l = elim (Bool-cases (eqb c b'{')) [
  | inl e ↦ rw ((eqb_iff c b'{').0 e) (
      escaped ((eqb_iff c b'{').0 e) f
        (subst (λ x. length (escape (x ∷ t) ++ rest) ≤ f) ((eqb_iff c b'{').0 e) l))
  | inr e ↦ rw e (bare e f (rw e at l))
]
  where
    escaped :
        c ≡ b'{'
        → (f : ℕ) → suc (suc (length (escape t ++ rest))) ≤ f
        → scan f (92 ∷ b'{' ∷ (escape t ++ rest)) lit ≡ r
    escaped e zero l = elim l [ ]
    escaped e (suc f) l =
        scan-pushes f 92 b'{' (b'{' ∷ (escape t ++ rest)) (escape t ++ rest) lit
          (round-escaped (escape t ++ rest))
        ∙ ap (λ x. scan f (escape t ++ rest) (lit ++ x ∷ [])) (sym e)
        ∙ k f (omega (arith, l))

    bare :
        eqb c b'{' ≡ false
        → (f : ℕ) → suc (length (escape t ++ rest)) ≤ f
        → scan f (c ∷ (escape t ++ rest)) lit ≡ r
    bare e zero l = elim l [ ]
    bare e (suc f) l =
        scan-pushes f c c (escape t ++ rest) (escape t ++ rest) lit (round-pushes c t rest h e w)
        ∙ k f (omega (arith, l))

scan-nil : (f : ℕ) (lit : Bytes) → scan f [] lit ≡ segments (flush lit [])
unfolding scan
scan-nil zero lit = refl
scan-nil (suc f) lit = refl

-- A substitution in front of what scans.
scan-path :
    (ps : List Bytes) (gs : List Segment) (lit : Bytes)
    → IsPath ps
    → ((f : ℕ) → length (print gs) ≤ f → scan f (print gs) [] ≡ segments gs)
    → (f : ℕ) → length (braced (dotted ps) (print gs)) ≤ f
    → scan f (braced (dotted ps) (print gs)) lit ≡ segments (flush lit (path ps ∷ gs))
unfolding with_segments
scan-path ps gs lit h k zero l = elim l [ ]
scan-path ps gs lit h k (suc f) l =
    let inner = dotted ps in
    scan-substitutes f b'{' (b'{' ∷ (inner ++ b'}' ∷ b'}' ∷ print gs)) (print gs) lit ps
      (round-path ps (print gs) h)
    ∙ ap (with_segments lit ps)
        (k f (omega (arith, l, length-append inner (b'}' ∷ b'}' ∷ print gs))))

-- A printed segment in front of `rest` is scanned in any fuel that suffices for both.
scan-escape :
    (t rest lit : Bytes) (r : Scanned)
    → IsClean t
    → Follows rest
    → ((f : ℕ) → length rest ≤ f → scan f rest (lit ++ t) ≡ r)
    → (f : ℕ) → length (escape t ++ rest) ≤ f
    → scan f (escape t ++ rest) lit ≡ r
scan-escape [] rest lit r h w k f l = subst (λ x. scan f rest x ≡ r) (append-nil lit) (k f l)
scan-escape (c ∷ t) rest lit r h w k f l =
    let shorter : IsClean t = tail-IsClean c t h in
    let more : (g : ℕ) → length rest ≤ g → scan g rest ((lit ++ c ∷ []) ++ t) ≡ r =
      λ g m. ap (scan g rest) (append_assoc lit (c ∷ []) t) ∙ k g m in
    scan-escape-cons c t rest lit r h w
      (λ g m. scan-escape t rest (lit ++ c ∷ []) r shorter w more g m) f l

scan-print :
    (gs : List Segment)
    → IsTemplate gs
    → (f : ℕ) → length (print gs) ≤ f
    → scan f (print gs) [] ≡ segments gs
unfolding with_segments flush
scan-print [] h f l = scan-nil f []
scan-print (literal [] ∷ gs) h f l = absurd (h.0.0 refl)
scan-print (literal (c ∷ t) ∷ []) h f l =
    scan-escape (c ∷ t) [] [] (segments (literal (c ∷ t) ∷ [])) h.0.1 tt (λ g m. scan-nil g (c ∷ t))
      f l
scan-print (literal (c ∷ t) ∷ literal u ∷ gs) h f l = elim h.1.0 [ ]
scan-print (literal (c ∷ t) ∷ path ps ∷ gs) h f l =
    scan-escape (c ∷ t) (print (path ps ∷ gs)) [] (segments (literal (c ∷ t) ∷ path ps ∷ gs)) h.0.1
      refl (scan-path ps gs (c ∷ t) h.1.1.0 (scan-print gs h.1.1.1)) f l
scan-print (path ps ∷ gs) h f l = scan-path ps gs [] h.0 (scan-print gs h.1) f l

abbrev pub is_path : List Segment → Bool
is_path [] = false
is_path (literal t ∷ gs) = false
is_path (path ps ∷ []) = true
is_path (path ps ∷ g ∷ gs) = false

single-is_path : (gs : List Segment) → (eqb (length (paths gs)) 1 && eqb (length gs) 1) ≡ is_path gs
unfolding paths
single-is_path [] = refl
single-is_path (literal t ∷ []) = refl
single-is_path (literal t ∷ g ∷ gs) = ground arith
single-is_path (path ps ∷ []) = refl
single-is_path (path ps ∷ g ∷ gs) = ground arith

-- A template that is printed from its segments is parsed into them, if its literals are not empty,
-- clean and never next to each other and the parts of its paths are plain behind a known head; it
-- is a single substitution exactly if it is one path.
pub parse-print_template :
    (gs : List Segment)
    → IsTemplate gs
    → parse (print gs)
      ≡ ok (record { source = print gs; segs = gs; single_substitution = is_path gs })
unfolding parse
parse-print_template gs h =
    rw (scan-print gs h (length (print gs)) (omega arith), single-is_path gs)
