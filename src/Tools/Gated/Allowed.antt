-- ===== src/Tools/Gated/Allowed.antt =====
-- When `GatedTool::Invoke` reaches the inner tool, and what it tells.
use zen_agent.Common.{
  ◌≢◌, String, Bool, true, false, not, ◌≡◌, refl, ◌⊎◌, inl, inr, [], ◌∷◌, Option, none, some,
  Bool-cases, if◌then◌else◌, text_equality, ◌==◌,
}
use zen_agent.Tools.Gated.{
  ToolTier, readonly, confirm, blocked, Phase, requested, was_blocked, cancelled, failed, rejected,
  completed, ToolGateDecision, GateAnswer, decides, gate_throws, InnerAnswer, gives, inner_throws,
  World, Ending, result, error, gate_exception, inner_exception, event_exception, Call, told,
  finish_call, call_inner, after_gate, confirmed, by_tier, gated_invoke,
}

-- The arguments that the gate approved.
abbrev pub approved_args : ToolGateDecision → String → String
approved_args d args = if d.approved_args_json == "" then args else d.approved_args_json

-- A gate let the call through, with the arguments `used`.
pub record Approved (w : World) (args used : String) : Type 0 where
  pub decision : ToolGateDecision
  pub asked : w.gate ≡ some (decides decision)
  pub approved : decision.approved ≡ true
  pub not_cancelled : w.cancelled_after_gate ≡ false
  pub as_approved : used ≡ approved_args decision args

-- What has to hold for the inner tool to be called with `used`.
abbrev pub Allowed : ToolTier → World → String → String → Type 0
Allowed blocked w args used = ⊥
Allowed readonly w args used = (w.cancelled_at_start ≡ false) × (used ≡ args)
Allowed confirm w args used =
    (w.cancelled_at_start ≡ false) × (((w.gate ≡ none) × (used ≡ args)) ⊎ Approved w args used)

call_inner-args : (w : World) (args : String) → (call_inner w args).inner_args ≡ some args
unfolding call_inner finish_call told
call_inner-args w args = go (w.inner args)
  where
    go : (a : InnerAnswer) → (finish_call w args a).inner_args ≡ some args
    go (gives r) = elim (Bool-cases (w.event_throws completed)) [
      | inl e ↦ rw (e, finish_call) refl
      | inr e ↦ rw (e, finish_call) refl
    ]
    go inner_throws = refl

used_args :
    (w : World) (args used : String) → (call_inner w args).inner_args ≡ some used → used ≡ args
used_args w args used h = cc (h, call_inner-args w args)

after_gate-Approved :
    (w : World) (args used : String) (a : GateAnswer)
    → w.gate ≡ some a
    → (after_gate w args a).inner_args ≡ some used
    → Approved w args used
unfolding after_gate told
after_gate-Approved w args used gate_throws e h = absurd (cc h)
after_gate-Approved w args used (decides d) e h = elim (Bool-cases w.cancelled_after_gate) [
  | inl c ↦ absurd (cc (rw (c, after_gate) at h))
  | inr c ↦ elim (Bool-cases d.approved) [
    | inl y ↦ record {
      decision = d;
      asked = e;
      approved = y;
      not_cancelled = c;
      as_approved = used_args w (approved_args d args) used (rw (c, y, after_gate) at h);
    }
    | inr n ↦ absurd (cc (rw (c, n, after_gate) at h))
  ]
]

confirmed-Allowed :
    (w : World) (args used : String) (g : Option GateAnswer)
    → w.gate ≡ g
    → (confirmed w args g).inner_args ≡ some used
    → ((w.gate ≡ none) × (used ≡ args)) ⊎ Approved w args used
unfolding confirmed
confirmed-Allowed w args used none e h = inl (e, used_args w args used h)
confirmed-Allowed w args used (some a) e h = inr (after_gate-Approved w args used a e h)

by_tier-Allowed :
    (tier : ToolTier) (w : World) (args used : String)
    → (by_tier w args tier).inner_args ≡ some used
    → Allowed tier w args used
unfolding by_tier told
by_tier-Allowed blocked w args used h = cc h
by_tier-Allowed readonly w args used h = elim (Bool-cases w.cancelled_at_start) [
  | inl c ↦ absurd (cc (rw (c, by_tier) at h))
  | inr c ↦ (c, used_args w args used (rw (c, by_tier) at h))
]
by_tier-Allowed confirm w args used h = elim (Bool-cases w.cancelled_at_start) [
  | inl c ↦ absurd (cc (rw (c, by_tier) at h))
  | inr c ↦ (c, confirmed-Allowed w args used w.gate refl (rw (c, by_tier) at h))
]

-- The inner tool is called only if the tier does not block it and the call was not cancelled and,
-- for a tool that has to be confirmed and a gate that can be asked, only if the gate approved; it
-- gets the submitted arguments, or those that the gate put in their place.
pub gated_invoke-Allowed :
    (tier : ToolTier) (w : World) (args used : String)
    → (gated_invoke tier w args).inner_args ≡ some used
    → Allowed tier w args used
unfolding gated_invoke
gated_invoke-Allowed tier w args used h = elim (Bool-cases (w.event_throws requested)) [
  | inl e ↦ absurd (cc (rw (e, gated_invoke) at h))
  | inr e ↦ by_tier-Allowed tier w args used (rw (e, gated_invoke) at h)
]

-- The phase that goes with an ending, and whether the inner tool was called.
abbrev pub Fits : Phase → Ending → Option String → Type 0
Fits completed (result r) (some a) = Unit
Fits failed inner_exception (some a) = Unit
Fits failed gate_exception none = Unit
Fits cancelled (error e) none = e ≡ "cancelled"
Fits was_blocked (error e) none = e ≡ "tool_not_allowed"
Fits rejected (error e) none = Unit
Fits _ _ _ = ⊥

-- What is told: the request and one end that fits, where the callback returns for both; or else the
-- callback's exception is what the call gives. It threw for the request, for an end, or for the
-- completion, behind which the failure is told.
pub data IsTold (w : World) : Call → Type 0 where
  one_end :
      (end : Phase) (e : Ending) (args : Option String)
      → Fits end e args
      → w.event_throws end ≡ false
      → IsTold w (record { phases = requested ∷ end ∷ []; inner_args = args; ending = e })
  no_request :
      w.event_throws requested ≡ true
      → IsTold w (record { phases = requested ∷ []; inner_args = none; ending = event_exception })
  end_throws :
      (end : Phase) (e : Ending) (args : Option String)
      → Fits end e args
      → w.event_throws end ≡ true
      → end ≢ completed
      → IsTold w
          (record { phases = requested ∷ end ∷ []; inner_args = args; ending = event_exception })
  two_ends :
      (args : String)
      → w.event_throws completed ≡ true
      → IsTold w (record {
        phases = requested ∷ completed ∷ failed ∷ [];
        inner_args = some args;
        ending = event_exception;
      })

told-IsTold :
    (w : World) (p : Phase) (args : Option String) (e : Ending)
    → Fits p e args
    → (p ≢ completed) ⊎ (w.event_throws p ≡ false)
    → IsTold w (told w p args e)
unfolding told
told-IsTold w p args e f other = elim (Bool-cases (w.event_throws p)) [
  | inr n ↦ rw (n, told) (one_end p e args f n)
  | inl t ↦
      rw (t, told) (end_throws p e args f t (elim other [ inl d ↦ d | inr n ↦ absurd (cc (t, n)) ]))
]

call_inner-IsTold : (w : World) (args : String) → IsTold w (call_inner w args)
unfolding call_inner finish_call
call_inner-IsTold w args = go (w.inner args)
  where
    go : (a : InnerAnswer) → IsTold w (finish_call w args a)
    go (gives r) = elim (Bool-cases (w.event_throws completed)) [
      | inl e ↦ rw (e, finish_call) (two_ends args e)
      | inr e ↦ rw (e, finish_call) (one_end completed (result r) (some args) tt e)
    ]
    go inner_throws = told-IsTold w failed (some args) inner_exception tt (inl (λ q. cc q))

if-IsTold :
    (w : World) (b : Bool) (x y : Call) → IsTold w x → IsTold w y → IsTold w (if b then x else y)
if-IsTold w true x y h k = h
if-IsTold w false x y h k = k

cancelled-IsTold : (w : World) → IsTold w (told w cancelled none (error "cancelled"))
cancelled-IsTold w = told-IsTold w cancelled none (error "cancelled") refl (inl (λ q. cc q))

confirmed-IsTold :
    (w : World) (args : String) (g : Option GateAnswer) → IsTold w (confirmed w args g)
unfolding confirmed after_gate
confirmed-IsTold w args none = call_inner-IsTold w args
confirmed-IsTold w args (some gate_throws) =
    told-IsTold w failed none gate_exception tt (inl (λ q. cc q))
confirmed-IsTold w args (some (decides d)) =
    if-IsTold w w.cancelled_after_gate _ _ (cancelled-IsTold w) (
      if-IsTold w (not d.approved) _ _
        (told-IsTold w rejected none
          (error (if d.reason == "" then "rejected_by_user" else d.reason)) tt (inl (λ q. cc q)))
        (call_inner-IsTold w (approved_args d args)))

by_tier-IsTold : (tier : ToolTier) (w : World) (args : String) → IsTold w (by_tier w args tier)
unfolding by_tier
by_tier-IsTold blocked w args =
    told-IsTold w was_blocked none (error "tool_not_allowed") refl (inl (λ q. cc q))
by_tier-IsTold readonly w args =
    if-IsTold w w.cancelled_at_start _ _ (cancelled-IsTold w) (call_inner-IsTold w args)
by_tier-IsTold confirm w args =
    if-IsTold w w.cancelled_at_start _ _ (cancelled-IsTold w) (confirmed-IsTold w args w.gate)

-- A call tells the request and one end, which fits what the call gives and whether the inner tool
-- was called, where the event callback returns. Where it throws, its exception is what the call
-- gives: nothing more is told, but a failure behind a completion for which it threw.
pub gated_invoke-IsTold :
    (tier : ToolTier) (w : World) (args : String) → IsTold w (gated_invoke tier w args)
unfolding gated_invoke
gated_invoke-IsTold tier w args = elim (Bool-cases (w.event_throws requested)) [
  | inl e ↦ rw (e, gated_invoke) (no_request e)
  | inr e ↦ rw (e, gated_invoke) (by_tier-IsTold tier w args)
]
