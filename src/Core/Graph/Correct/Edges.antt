-- ===== src/Core/Graph/Correct/Edges.antt =====
-- The two checks on the edges, against their meaning.
use zen_agent.Common.{
  is_some, ℕ, ◌≡◌, refl, sym, ap, subst, ◌∙◌, inl, inr, String, true, ◌&&◌, List, [], ◌∷◌, ◌++◌, In,
  Option, none, some, arith, Option-cases, Bool-cases, if◌then◌else◌, eqb, eqb_iff, ◌==◌,
  text_equality,
}
use zen_agent.Common.Assoc.{lookup, keys, In-of_lookup, lookup_of_In, eq_self}
use zen_agent.Core.Graph.{
  Condition, all, any, same_condition, Edge, Result, ok, err, ◌>>=◌, check_endpoints, ConditionMap,
  find_condition, check_condition, check_conditions,
}
use zen_agent.Core.Graph.Valid.{HasEndpoints, Agree}

In-of_is_some : (k : String) (m : List (String × ℕ)) → is_some (lookup k m) ≡ true → In k (keys m)
In-of_is_some k m h = elim (Option-cases (lookup k m)) [
  | inl e ↦ absurd (cc (rw e at h))
  | inr (v, e) ↦ In-of_lookup k m e
]

is_some_of_In : (k : String) (m : List (String × ℕ)) → In k (keys m) → is_some (lookup k m) ≡ true
is_some_of_In k m i = rw ((lookup_of_In k m i).1)

pub check_endpoints_sound :
    (m : List (String × ℕ)) (es : List Edge)
    → check_endpoints m es ≡ ok tt
    → (e : Edge) → In e es
    → HasEndpoints (keys m) e
unfolding check_endpoints
check_endpoints_sound m [] h e i = absurd i
check_endpoints_sound m (f ∷ es) h e i = elim (Bool-cases (is_some (lookup f.from m))) [
  | inr lost ↦ absurd (cc (rw lost at h))
  | inl from ↦ elim (Bool-cases (is_some (lookup f.to m))) [
    | inr lost ↦ absurd (cc (rw (from, lost) at h))
    | inl to ↦ elim i [
      | inl same ↦
          subst (HasEndpoints (keys m)) (sym same)
            (In-of_is_some f.from m from, In-of_is_some f.to m to)
      | inr later ↦ check_endpoints_sound m es (rw (from, to) at h) e later
    ]
  ]
]

pub check_endpoints_complete :
    (m : List (String × ℕ)) (es : List Edge)
    → ((e : Edge) → In e es → HasEndpoints (keys m) e)
    → check_endpoints m es ≡ ok tt
unfolding check_endpoints
check_endpoints_complete m [] h = refl
check_endpoints_complete m (f ∷ es) h =
    rw (is_some_of_In f.from m (h f (inl refl)).0, is_some_of_In f.to m (h f (inl refl)).1)
      (check_endpoints_complete m es (λ e i. h e (inr i)))

same_condition_iff : (c d : Condition) → same_condition c d ≡ true → c ≡ d
same_condition_iff all all h = refl
same_condition_iff any any h = refl
same_condition_iff all any h = cc
same_condition_iff any all h = cc

abbrev or_else : Option Condition → Option Condition → Option Condition
or_else none o = o
or_else (some c) o = some c

find_condition-snoc :
    (t : String) (g : ℕ) (m : ConditionMap) (t' : String) (g' : ℕ) (c : Condition)
    → find_condition t g (m ++ ((t', g'), c) ∷ [])
      ≡ or_else (find_condition t g m) (if t == t' && eqb g g' then some c else none)
unfolding find_condition
find_condition-snoc t g [] t' g' c = refl
find_condition-snoc t g (((u, k), d) ∷ m) t' g' c = elim (Bool-cases (t == u && eqb g k)) [
  | inl e ↦ rw e
  | inr e ↦ rw e (find_condition-snoc t g m t' g' c)
]

-- What the map holds after the check of one edge.
record Recorded (e : Edge) (m m' : ConditionMap) : Type 0 where
  held : find_condition e.to e.activation_group m' ≡ some e.condition
  kept :
      (t : String) (g : ℕ) (c : Condition)
      → find_condition t g m ≡ some c
      → find_condition t g m' ≡ some c

check_condition_ok :
    (e : Edge) (m : ConditionMap) (o : Option Condition) {m' : ConditionMap}
    → find_condition e.to e.activation_group m ≡ o
    → check_condition e m o ≡ ok m'
    → Recorded e m m'
unfolding check_condition
check_condition_ok e m none {m'} f h = subst (Recorded e m) (cc) (record {
  held =
      find_condition-snoc e.to e.activation_group m e.to e.activation_group e.condition
      ∙ rw (f, eq_self e.to, (eqb_iff e.activation_group e.activation_group).1 refl);
  kept = λ t g c k. find_condition-snoc t g m e.to e.activation_group e.condition ∙ rw k;
})
check_condition_ok e m (some c) {m'} f h = elim (Bool-cases (same_condition c e.condition)) [
  | inr other ↦ absurd (cc (rw other at h))
  | inl same ↦
      subst (Recorded e m) (cc (rw same at h))
        (record { held = f ∙ ap some (same_condition_iff c e.condition same); kept = λ t g c k. k })
]

-- The first step of a successful check.
check_conditions_step :
    (m : ConditionMap) (e : Edge) (es : List Edge)
    → check_conditions m (e ∷ es) ≡ ok tt
    → (m' : ConditionMap) × Recorded e m m' × (check_conditions m' es ≡ ok tt)
unfolding check_conditions
check_conditions_step m e es h = go _ refl h
  where
    go :
        (r : Result ConditionMap)
        → check_condition e m (find_condition e.to e.activation_group m) ≡ r
        → (r >>= λ m'. check_conditions m' es) ≡ ok tt
        → (m' : ConditionMap) × Recorded e m m' × (check_conditions m' es ≡ ok tt)
    go (ok m') q h = (m', check_condition_ok e m _ refl q, h)
    go (err why) q h = absurd (cc h)

-- A condition in the map is that of every later edge of the same target and group.
agrees_with_map :
    (m : ConditionMap) (es : List Edge)
    → check_conditions m es ≡ ok tt
    → (t : String) (g : ℕ) (c : Condition) → find_condition t g m ≡ some c
    → (e : Edge) → In e es
    → e.to ≡ t
    → e.activation_group ≡ g
    → c ≡ e.condition
agrees_with_map m [] h t g c f e i p q = absurd i
agrees_with_map m (x ∷ es) h t g c f e i p q =
    let (m', r, rest) = check_conditions_step m x es h in
    elim i [
      | inr later ↦ agrees_with_map m' es rest t g c (r.kept t g c f) e later p q
      | inl same ↦ cc (same, r.held, r.kept t g c f, p, q)
    ]

pub check_conditions_sound :
    (m : ConditionMap) (es : List Edge)
    → check_conditions m es ≡ ok tt
    → (e f : Edge) → In e es
    → In f es
    → Agree e f
check_conditions_sound m [] h e f i j p q = absurd i
check_conditions_sound m (x ∷ es) h e f i j p q =
    let (m', r, rest) = check_conditions_step m x es h in
    elim i [
      | inr i' ↦ elim j [
        | inr j' ↦ check_conditions_sound m' es rest e f i' j' p q
        | inl y ↦ cc (y, agrees_with_map m' es rest _ _ _ r.held e i' (cc (y, p)) (cc (y, q)))
      ]
      | inl z ↦ elim j [
        | inr j' ↦ cc (z, agrees_with_map m' es rest _ _ _ r.held f j' (cc (z, p)) (cc (z, q)))
        | inl y ↦ cc (y, z)
      ]
    ]

-- An edge agrees with what the map holds.
abbrev Fits : ConditionMap → Edge → Type 0
Fits m e = (c : Condition) → find_condition e.to e.activation_group m ≡ some c → c ≡ e.condition

same_condition_refl : (c : Condition) → same_condition c c ≡ true
same_condition_refl all = refl
same_condition_refl any = refl

Fits-snoc :
    (m : ConditionMap) (x e : Edge)
    → Fits m e
    → Agree x e
    → Fits (m ++ ((x.to, x.activation_group), x.condition) ∷ []) e
Fits-snoc m x e f a c h = ground (
  arith,
  find_condition-snoc e.to e.activation_group m x.to x.activation_group x.condition,
  f c,
  text_equality.same_iff e.to x.to,
  a,
)

pub check_conditions_complete :
    (m : ConditionMap) (es : List Edge)
    → ((e : Edge) → In e es → Fits m e)
    → ((e f : Edge) → In e es → In f es → Agree e f)
    → check_conditions m es ≡ ok tt
unfolding check_conditions
check_conditions_complete m [] fits agree = refl
check_conditions_complete m (x ∷ es) fits agree =
    elim (Option-cases (find_condition x.to x.activation_group m)) [
      | inl new ↦
          rw (new, check_condition)
            (check_conditions_complete (m ++ ((x.to, x.activation_group), x.condition) ∷ []) es
              (λ e i. Fits-snoc m x e (fits e (inr i)) (agree x e (inl refl) (inr i)))
              (λ e f i j. agree e f (inr i) (inr j)))
      | inr (c, old) ↦
          rw (old, check_condition, fits x (inl refl) c old, same_condition_refl)
            (check_conditions_complete m es (λ e i. fits e (inr i))
              (λ e f i j. agree e f (inr i) (inr j)))
    ]
