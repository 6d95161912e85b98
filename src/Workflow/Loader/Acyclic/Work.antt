-- ===== src/Workflow/Loader/Acyclic/Work.antt =====
-- `CheckAcyclic`: the rounds that a search takes.
use zen_agent.Common.{
  ℕ, ◌+◌, ◌≤◌, ◌≡◌, refl, subst, List, [], ◌∷◌, inl, inr, Option, none, some, Bool-cases, length,
  In, bytes_equality, ◌==◌, arith,
}
use zen_agent.Common.Assoc.{lookup, lookup-modify, eq_self}
use zen_agent.Common.Bytes.{Bytes}
use zen_agent.Workflow.Spec.{Agents}
use zen_agent.Workflow.Loader.Acyclic.{
  Color, white, gray, black, Colors, Stack, paint, children, work,
}

-- The rounds that the frames of a stack will take.
unfoldable pub frame_work : Stack → ℕ
frame_work [] = 0
frame_work ((n, cs) ∷ st) = length cs + 1 + frame_work st

module _ (agents : Agents) where
  -- The rounds that white agents will take.
  abbrev pub weight : Option Color → Bytes → ℕ
  weight none n = 0
  weight (some white) n = length (children agents n) + 2
  weight (some gray) n = 0
  weight (some black) n = 0

  pub whites : List Bytes → Colors → ℕ
  whites [] color = 0
  whites (n ∷ ns) color = weight (lookup n color) n + whites ns color

  weight-le : (o : Option Color) (n : Bytes) → weight o n ≤ length (children agents n) + 2
  weight-le none n = omega arith
  weight-le (some white) n = omega arith
  weight-le (some gray) n = omega arith
  weight-le (some black) n = omega arith

  pub whites-le-work : (ns : List Bytes) (color : Colors) → whites ns color ≤ work agents ns
  unfolding whites work
  whites-le-work [] color = omega arith
  whites-le-work (n ∷ ns) color =
      omega (arith, weight-le (lookup n color) n, whites-le-work ns color)

  weight-paint :
      (c : Bytes) (k : Color) (n : Bytes) (color : Colors)
      → weight (some k) n ≡ 0
      → weight (lookup n (paint c k color)) n ≤ weight (lookup n color) n
  weight-paint c k n color z = elim (Bool-cases (n == c)) [
    | inl e ↦ rw (lookup-modify c n k (λ _. k) color, e) (omega (arith, z))
    | inr e ↦ rw (lookup-modify c n k (λ _. k) color, e) (omega arith)
  ]

  -- Painting gray or black makes no new work.
  pub whites-paint-le :
      (c : Bytes) (k : Color) (ns : List Bytes) (color : Colors)
      → ((n : Bytes) → weight (some k) n ≡ 0)
      → whites ns (paint c k color) ≤ whites ns color
  unfolding whites
  whites-paint-le c k [] color z = omega arith
  whites-paint-le c k (n ∷ ns) color z =
      omega (arith, weight-paint c k n color (z n), whites-paint-le c k ns color z)

  -- Painting a white agent gray takes its work away.
  pub whites-paint :
      (c : Bytes) (ns : List Bytes) (color : Colors)
      → In c ns
      → lookup c color ≡ some white
      → whites ns (paint c gray color) + (length (children agents c) + 2) ≤ whites ns color
  unfolding whites
  whites-paint c [] color i w = elim i [ ]
  whites-paint c (n ∷ ns) color (inr i) w =
      omega (arith, weight-paint c gray n color refl, whites-paint c ns color i w)
  whites-paint c (n ∷ ns) color (inl same) w =
      let before : weight (lookup c color) c ≡ length (children agents c) + 2 = rw w refl in
      let after : weight (lookup c (paint c gray color)) c ≡ 0 =
        rw (lookup-modify c c gray (λ _. gray) color, eq_self c) refl in
      subst
        (λ x.
          weight (lookup x (paint c gray color)) x
            + whites ns (paint c gray color)
            + (length (children agents c) + 2)
          ≤ weight (lookup x color) x + whites ns color)
        same (omega (arith, before, after, whites-paint-le c gray ns color (λ n. refl)))
