-- ===== src/Inference/Accumulator/Update.antt =====
-- The ordered map of `StreamAccumulator::calls_`.
use zen_agent.Common.{
  true, ◌≡◌, refl, sym, ◌∙◌, List, [], ◌∷◌, inl, inr, Bool-cases, if◌then◌else◌, ◌==◌, All,
}
use zen_agent.Common.Int.{
  ℤ, int_before, int_same, int_equality, int_same_iff, int_before_trans, int_before-int_same,
  int_before_total,
}
use zen_agent.Common.Assoc.{get}
use zen_agent.Inference.Accumulator.{PartialCall, no_call, update}

abbrev pub Calls : Type 0
Calls = List (ℤ × PartialCall)

-- The indices ascend.
abbrev pub IsAscending : Calls → Type 0
IsAscending [] = Unit
IsAscending (e ∷ es) = All (λ f. int_before e.0 f.0 ≡ true) es × IsAscending es

abbrev pub call_at : ℤ → Calls → PartialCall
call_at i calls = get i no_call calls

absent-get :
    (i j : ℤ) (calls : Calls)
    → int_before i j ≡ true
    → All (λ f. int_before j f.0 ≡ true) calls
    → call_at i calls ≡ no_call
unfolding get
absent-get i j [] h k = refl
absent-get i j ((l, c) ∷ calls) h k =
    rw (int_before-int_same i l (int_before_trans i j l h k.0)) (absent-get i j calls h k.1)

All-below :
    (i j : ℤ) (calls : Calls)
    → int_before i j ≡ true
    → All (λ f. int_before j f.0 ≡ true) calls
    → All (λ f. int_before i f.0 ≡ true) calls
All-below i j [] h a = tt
All-below i j (e ∷ calls) h a = (int_before_trans i j e.0 h a.0, All-below i j calls h a.1)

below-update :
    (k i : ℤ) (f : PartialCall → PartialCall) (calls : Calls)
    → int_before k i ≡ true
    → All (λ e. int_before k e.0 ≡ true) calls
    → All (λ e. int_before k e.0 ≡ true) (update i f calls)
unfolding update
below-update k i f [] h a = (h, tt)
below-update k i f ((j, c) ∷ calls) h a = elim (Bool-cases (int_same i j)) [
  | inl e ↦ rw (e, update) a
  | inr e ↦ elim (Bool-cases (int_before i j)) [
    | inl b ↦ rw (e, b, update) (h, a)
    | inr b ↦ rw (e, b, update) (a.0, below-update k i f calls h a.1)
  ]
]

pub update-IsAscending :
    (i : ℤ) (f : PartialCall → PartialCall) (calls : Calls)
    → IsAscending calls
    → IsAscending (update i f calls)
unfolding update
update-IsAscending i f [] h = (tt, tt)
update-IsAscending i f ((j, c) ∷ calls) h = elim (Bool-cases (int_same i j)) [
  | inl e ↦ rw (e, update) h
  | inr e ↦ elim (Bool-cases (int_before i j)) [
    | inl b ↦ rw (e, b, update) ((b, All-below i j calls b h.0), h)
    | inr b ↦
        rw (e, b, update)
          (
            below-update j i f calls (int_before_total i j e b) h.0,
            update-IsAscending i f calls h.1,
          )
  ]
]

-- An update changes the call at its own index, and no other.
pub get-update :
    (i j : ℤ) (f : PartialCall → PartialCall) (calls : Calls)
    → IsAscending calls
    → call_at j (update i f calls) ≡ (if j == i then f (call_at i calls) else call_at j calls)
unfolding update get
get-update i j f [] h = refl
get-update i j f ((l, c) ∷ calls) h = elim (Bool-cases (int_same i l)) [
  | inl e ↦
      let z : i ≡ l = (int_same_iff i l).0 e in
      elim (Bool-cases (int_same j l)) [
        | inl k ↦ rw (e, update, k, z, k)
        | inr k ↦ rw (e, update, k, z, k)
      ]
  | inr e ↦ elim (Bool-cases (int_before i l)) [
    | inl b ↦ rw (e, b, update, absent-get i l calls b h.0)
    | inr b ↦ elim (Bool-cases (int_same j l)) [
      | inl k ↦ elim (Bool-cases (int_same j i)) [
        | inl m ↦
            let z : i ≡ l = sym ((int_same_iff j i).0 m) ∙ (int_same_iff j l).0 k in
            absurd (cc (e, (int_same_iff i l).1 z))
        | inr m ↦ rw (e, b, update, k, m)
      ]
      | inr k ↦ rw (e, b, update, k) (get-update i j f calls h.1)
    ]
  ]
]
