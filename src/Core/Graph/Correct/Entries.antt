-- ===== src/Core/Graph/Correct/Entries.antt =====
-- The entry nodes: exactly the ids with no edge of group 0 into them.
use zen_agent.Common.{
  ◌≡◌, refl, sym, subst, ◌↔◌, inl, inr, String, false, List, [], ◌∷◌, In, Bool-cases, eqb, eqb_iff,
  text_equality,
}
use zen_agent.Common.Assoc.{contains, In-of_contains, not-In_of_contains}
use zen_agent.Core.Graph.{Edge, has_g0_in, entry_ids_of}
use zen_agent.Core.Graph.Valid.{IsEntry}

In-has_g0_in :
    (es : List Edge) (e : Edge) → In e es → e.activation_group ≡ 0 → In e.to (has_g0_in es)
unfolding has_g0_in
In-has_g0_in [] e i z = absurd i
In-has_g0_in (x ∷ es) e i z = elim (Bool-cases (eqb x.activation_group 0)) [
  | inl t ↦ rw t (elim i [ inl same ↦ inl (cc same) | inr later ↦ inr (In-has_g0_in es e later z) ])
  | inr f ↦ rw f (elim i [
    | inl same ↦ absurd (cc (f, (eqb_iff x.activation_group 0).1 (cc (same, z))))
    | inr later ↦ In-has_g0_in es e later z
  ])
]

edge_of_In :
    (es : List Edge) (t : String)
    → In t (has_g0_in es)
    → (e : Edge) × In e es × (e.activation_group ≡ 0) × (e.to ≡ t)
unfolding has_g0_in
edge_of_In [] t i = absurd i
edge_of_In (x ∷ es) t i = elim (Bool-cases (eqb x.activation_group 0)) [
  | inl z ↦ elim (rw z at i) [
    | inl same ↦ (x, inl refl, (eqb_iff x.activation_group 0).0 z, sym same)
    | inr later ↦ let (e, j, p, q) = edge_of_In es t later in (e, inr j, p, q)
  ]
  | inr z ↦ let (e, j, p, q) = edge_of_In es t (rw z at i) in (e, inr j, p, q)
]

IsEntry-iff : (es : List Edge) (i : String) → (contains (has_g0_in es) i ≡ false) ↔ IsEntry es i
IsEntry-iff es i = (
  λ h e j z t.
      not-In_of_contains (has_g0_in es) i h
        (subst (λ s. In s (has_g0_in es)) t (In-has_g0_in es e j z)),
  λ h. elim (Bool-cases (contains (has_g0_in es) i)) [
    | inr f ↦ f
    | inl t ↦
        let (e, j, z, p) = edge_of_In es i (In-of_contains (has_g0_in es) i t) in absurd (h e j z p)
  ],
)

pub In-entry_ids_of :
    (ts ids : List String) (i : String)
    → In i (entry_ids_of ts ids) ↔ (In i ids × (contains ts i ≡ false))
unfolding entry_ids_of
In-entry_ids_of ts [] i = (λ h. absurd h, λ h. absurd h.0)
In-entry_ids_of ts (x ∷ ids) i = elim (Bool-cases (contains ts x)) [
  | inl t ↦ rw t (
    λ h. let (a, b) = (In-entry_ids_of ts ids i).0 h in (inr a, b),
    λ h. elim (h.0) [
      | inl e ↦ absurd (cc (t, e, h.1))
      | inr j ↦ (In-entry_ids_of ts ids i).1 (j, h.1)
    ],
  )
  | inr f ↦ rw f (
    λ h. elim h [
      | inl e ↦ (inl e, cc (f, e))
      | inr j ↦ let (a, b) = (In-entry_ids_of ts ids i).0 j in (inr a, b)
    ],
    λ h. elim (h.0) [ inl e ↦ inl e | inr j ↦ inr ((In-entry_ids_of ts ids i).1 (j, h.1)) ],
  )
]

-- An id is an entry of the compiled graph exactly when nothing of group 0 leads to it.
pub In-IsEntry_iff :
    (es : List Edge) (ids : List String) (i : String)
    → In i (entry_ids_of (has_g0_in es) ids) ↔ (In i ids × IsEntry es i)
In-IsEntry_iff es ids i =
    let w = In-entry_ids_of (has_g0_in es) ids i in
    let v = IsEntry-iff es i in (λ h. ((w.0 h).0, v.0 (w.0 h).1), λ h. w.1 (h.0, v.1 h.1))
