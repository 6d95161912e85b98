-- ===== src/Tools/Gated.antt =====
-- agentflow/tools/gated_tool.h and gated_tool.cc: a tool behind its tier and the user's gate.
pub mod Allowed
use zen_agent.Common.{
  String, Bool, true, false, not, ◌&&◌, ◌≡◌, refl, ◌⊎◌, inl, inr, List, [], ◌∷◌, ◌++◌, Option, none,
  some, if◌then◌else◌, text_equality, ◌==◌, arith, ◌≢◌,
}

pub data ToolTier : Type 0 where
  readonly confirm blocked : ToolTier

-- The phases that the event callback is told.
pub data Phase : Type 0 where
  requested was_blocked cancelled failed rejected completed : Phase

pub record ToolGateDecision : Type 0 where
  pub approved : Bool
  pub reason : String
  pub approved_args_json : String

-- What the gate does, when there is one and it is asked.
pub data GateAnswer : Type 0 where
  decides : ToolGateDecision → GateAnswer
  gate_throws : GateAnswer

-- What the inner tool does with arguments.
pub data InnerAnswer : Type 0 where
  gives : String → InnerAnswer
  inner_throws : InnerAnswer

-- What one call meets: is it cancelled at its start, is there a gate and what does it answer, is it
-- cancelled by then, what the inner tool does, and for which phases the event callback throws.
pub record World : Type 0 where
  pub cancelled_at_start : Bool
  pub gate : Option GateAnswer
  pub cancelled_after_gate : Bool
  pub inner : String → InnerAnswer
  pub event_throws : Phase → Bool

-- How a call ends. An error result is the JSON text `{"error":"..."}` round the given reason.
pub data Ending : Type 0 where
  result : String → Ending
  error : String → Ending
  gate_exception inner_exception event_exception : Ending

-- The phases that were told, the arguments that the inner tool was called with, and the end.
pub record Call : Type 0 where
  pub phases : List Phase
  pub inner_args : Option String
  pub ending : Ending

-- A phase that is told behind the request, and the end, which is the callback's exception if it
-- throws.
unfoldable pub told : World → Phase → Option String → Ending → Call
told w p args e = record {
  phases = requested ∷ p ∷ [];
  inner_args = args;
  ending = if w.event_throws p then event_exception else e;
}

-- The last part of `Invoke`: the inner tool. An exception of the callback for the completion is
-- caught with those of the tool.
unfoldable pub finish_call : World → String → InnerAnswer → Call
unfolding told
finish_call w args (gives r) =
    if w.event_throws completed
    then record {
      phases = requested ∷ completed ∷ failed ∷ [];
      inner_args = some args;
      ending = event_exception;
    }
    else told w completed (some args) (result r)
finish_call w args inner_throws = told w failed (some args) inner_exception

unfoldable pub call_inner : World → String → Call
unfolding finish_call
call_inner w args = finish_call w args (w.inner args)

-- The gate's decision.
unfoldable pub after_gate : World → String → GateAnswer → Call
unfolding call_inner told
after_gate w args gate_throws = told w failed none gate_exception
after_gate w args (decides d) =
    if w.cancelled_after_gate
    then told w cancelled none (error "cancelled")
    else if not d.approved
    then told w rejected none (error (if d.reason == "" then "rejected_by_user" else d.reason))
    else call_inner w (if d.approved_args_json == "" then args else d.approved_args_json)

-- The tier `kConfirm` asks the gate, if there is one.
unfoldable pub confirmed : World → String → Option GateAnswer → Call
unfolding after_gate
confirmed w args none = call_inner w args
confirmed w args (some a) = after_gate w args a

unfoldable pub by_tier : World → String → ToolTier → Call
unfolding confirmed told
by_tier w args blocked = told w was_blocked none (error "tool_not_allowed")
by_tier w args readonly =
    if w.cancelled_at_start then told w cancelled none (error "cancelled") else call_inner w args
by_tier w args confirm =
    if w.cancelled_at_start
    then told w cancelled none (error "cancelled")
    else confirmed w args w.gate

-- `GatedTool::Invoke`.
unfoldable pub gated_invoke : ToolTier → World → String → Call
unfolding by_tier
gated_invoke tier w args =
    if w.event_throws requested
    then record { phases = requested ∷ []; inner_args = none; ending = event_exception }
    else by_tier w args tier
