-- ===== src/Core/Cancel/Once.antt =====
-- The interleavings of `Cancel`, `OnCancel` and the callbacks of agentflow/core/cancel.cc.
use zen_agent.Common.{
  ℕ, ◌+◌, ◌≡◌, refl, sym, ap, subst, append-nil, ◌≢◌, ◌∙◌, Bool, true, false, inl, inr, Bool-cases,
  List, [], ◌∷◌, ◌++◌, eqb, if◌then◌else◌, arith,
}
use zen_agent.Core.Cancel.{State, cancel, on_cancel, System, initial, after_cancel, after_register}

-- What a thread may do next: cancel, register a callback, or run one that is to be run.
pub data Step : System → System → Type 0 where
  cancels : (s : System) → Step s (after_cancel s)
  registers : (cb : ℕ) (s : System) → Step s (after_register cb s)
  fires :
      (s : System) (pre : List ℕ) (cb : ℕ) (post : List ℕ)
      → s.firing ≡ pre ++ cb ∷ post
      → Step s (record s { firing = pre ++ post; fired = s.fired ++ cb ∷ [] })

pub data Reach : System → Type 0 where
  begin : Reach initial
  next : (s t : System) → Reach s → Step s t → Reach t

-- How often a callback stands in a list.
abbrev pub count : ℕ → List ℕ → ℕ
count x [] = 0
count x (y ∷ ys) = (if eqb x y then 1 else 0) + count x ys

count-append : (x : ℕ) (ys zs : List ℕ) → count x (ys ++ zs) ≡ count x ys + count x zs
count-append x [] zs = omega arith
count-append x (y ∷ ys) zs = omega (arith, count-append x ys zs)

pub record Inv (s : System) : Type 0 where
  pub accounted :
      (x : ℕ)
      → count x s.registered ≡ count x s.state.on_cancel_cbs + count x s.firing + count x s.fired
  pub none_left : s.state.cancelled ≡ true → s.state.on_cancel_cbs ≡ []
  pub silent : s.state.cancelled ≡ false → (s.firing ≡ []) × (s.fired ≡ [])

initial-Inv : Inv initial
initial-Inv = record { accounted = λ x. refl; none_left = λ e. refl; silent = λ e. (refl, refl) }

cancel-Inv : (s : System) → Inv s → Inv (after_cancel s)
unfolding after_cancel cancel
cancel-Inv s h = elim (Bool-cases s.state.cancelled) [
  | inl e ↦
      subst (λ r. Inv (record s { state = r.0; firing = s.firing ++ r.1 })) (sym (ap test e))
        (record {
          accounted = λ x. omega (arith, h.accounted x, count-append x s.firing []);
          none_left = h.none_left;
          silent = λ c. absurd (cc (e, c));
        })
  | inr e ↦
      subst (λ r. Inv (record s { state = r.0; firing = s.firing ++ r.1 })) (sym (ap test e))
        (record {
          accounted =
              λ x. omega (arith, h.accounted x, count-append x s.firing s.state.on_cancel_cbs);
          none_left = λ _. refl;
          silent = λ c. absurd (cc c);
        })
]
  where
    test : Bool → State × List ℕ
    test b =
        if b
        then (s.state, [])
        else (record { cancelled = true; on_cancel_cbs = [] }, s.state.on_cancel_cbs)

register-Inv : (cb : ℕ) (s : System) → Inv s → Inv (after_register cb s)
unfolding after_register on_cancel
register-Inv cb s h = elim (Bool-cases s.state.cancelled) [
  | inl e ↦ subst result (sym (ap test e)) (record {
    accounted = λ x. omega (
      arith,
      h.accounted x,
      count-append x s.firing (cb ∷ []),
      count-append x s.registered (cb ∷ []),
    );
    none_left = h.none_left;
    silent = λ c. absurd (cc (e, c));
  })
  | inr e ↦ subst result (sym (ap test e)) (record {
    accounted = λ x. omega (
      arith,
      h.accounted x,
      count-append x s.firing [],
      count-append x s.registered (cb ∷ []),
      count-append x s.state.on_cancel_cbs (cb ∷ []),
    );
    none_left = λ c. absurd (cc (e, c));
    silent = λ c. (append-nil s.firing ∙ (h.silent c).0, (h.silent c).1);
  })
]
  where
    result : State × List ℕ → Type 0
    result r =
        Inv
          (record s { state = r.0; registered = s.registered ++ cb ∷ []; firing = s.firing ++ r.1 })

    test : Bool → State × List ℕ
    test b =
        if b
        then (s.state, cb ∷ [])
        else (record (s.state) { on_cancel_cbs = s.state.on_cancel_cbs ++ cb ∷ [] }, [])

not_nil : (pre : List ℕ) (cb : ℕ) (post : List ℕ) → pre ++ cb ∷ post ≢ []
not_nil [] cb post e = cc e
not_nil (y ∷ pre) cb post e = cc e

fire-Inv :
    (s : System) (pre : List ℕ) (cb : ℕ) (post : List ℕ)
    → s.firing ≡ pre ++ cb ∷ post
    → Inv s
    → Inv (record s { firing = pre ++ post; fired = s.fired ++ cb ∷ [] })
fire-Inv s pre cb post e h = record {
  accounted = λ x. omega (
    arith,
    h.accounted x,
    ap (count x) e,
    count-append x pre (cb ∷ post),
    count-append x pre post,
    count-append x s.fired (cb ∷ []),
  );
  none_left = h.none_left;
  silent = λ c. absurd (not_nil pre cb post (sym e ∙ (h.silent c).0));
}

pub Reach-Inv : (s : System) → Reach s → Inv s
Reach-Inv s begin = initial-Inv
Reach-Inv _ (next s _ r (cancels _)) = cancel-Inv s (Reach-Inv s r)
Reach-Inv _ (next s _ r (registers cb _)) = register-Inv cb s (Reach-Inv s r)
Reach-Inv _ (next s _ r (fires _ pre cb post e)) = fire-Inv s pre cb post e (Reach-Inv s r)

-- Once the source is cancelled and no thread has a callback left to run, every callback has run
-- exactly as often as it was registered, before the cancellation or after it.
pub once_each :
    (s : System)
    → Reach s
    → s.state.cancelled ≡ true
    → s.firing ≡ []
    → (x : ℕ) → count x s.fired ≡ count x s.registered
once_each s r c e x =
    let h = Reach-Inv s r in
    omega (arith, h.accounted x, ap (count x) e, ap (count x) (h.none_left c))

-- Before the source is cancelled no callback has run, nor is any thread about to run one, and
-- every registered callback waits as often as it was registered.
pub none_before :
    (s : System)
    → Reach s
    → s.state.cancelled ≡ false
    → (s.firing ≡ [])
      × (s.fired ≡ [])
      × ((x : ℕ) → count x s.registered ≡ count x s.state.on_cancel_cbs)
none_before s r c =
    let h = Reach-Inv s r in
    let (f, d) = h.silent c in
    (f, d, λ x. omega (arith, h.accounted x, ap (count x) f, ap (count x) d))
