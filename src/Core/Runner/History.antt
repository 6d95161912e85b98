-- ===== src/Core/Runner/History.antt =====
-- Errors and completions over a whole run of `Runner::Run`.
use zen_agent.Common.{
  ◌≢◌, ◌≡◌, refl, ap, ◌∙◌, sym, String, Bool, true, false, List, [], ◌∷◌, ◌++◌, some, append-nil,
  append_assoc, Bool-cases, inl, inr, text_equality, ◌==◌,
}
use zen_agent.Core.Graph.{Edge}
use zen_agent.Core.Runner.{
  TraceEvent, node_start, node_failed, node_end, edge_fire, graph_done, Impl, CheckpointPolicy,
}
use zen_agent.Core.Runner.Machine.{
  Cancelled, before_end, before_log, before_fan_out, before_checkpoint, not_yet, at_end, send_out,
  checkpoint_node, Ending, produced, raised, Setup, emit, launch, deliver, fan_out, note_terminal,
  maybe_write_checkpoint, keep_first, settle_node, has_outgoing, log_completed, writes,
}

-- The nodes that ended without failure or cancellation, in order.
abbrev pub successes : List TraceEvent → List String
successes [] = []
successes (node_end id false false ∷ es) = id ∷ successes es
successes (_ ∷ es) = successes es

successes-append : (xs ys : List TraceEvent) → successes (xs ++ ys) ≡ successes xs ++ successes ys
successes-append [] ys = refl
successes-append (node_end id false false ∷ es) ys = ap (◌∷◌ id) (successes-append es ys)
successes-append (node_end id false true ∷ es) ys = successes-append es ys
successes-append (node_end id true f ∷ es) ys = successes-append es ys
successes-append (node_start id ∷ es) ys = successes-append es ys
successes-append (node_failed id ∷ es) ys = successes-append es ys
successes-append (edge_fire s t g ∷ es) ys = successes-append es ys
successes-append (graph_done f ∷ es) ys = successes-append es ys

-- How one state of a run may follow another: the trace grows, the log grows by the successes of
-- the new events, and an error once recorded stays the same.
pub record Follows {S X : Type 0} (a b : Impl S X) : Type 0 where
  pub events : List TraceEvent
  pub traced : b.trace ≡ a.trace ++ events
  pub logged : b.completed_node_ids ≡ a.completed_node_ids ++ successes events
  pub kept : (x : X) → a.first_error ≡ some x → b.first_error ≡ some x

module _ {S X : Type 0} where
  pub Follows-same :
      (a b : Impl S X)
      → b.trace ≡ a.trace
      → b.completed_node_ids ≡ a.completed_node_ids
      → b.first_error ≡ a.first_error
      → Follows a b
  Follows-same a b t c e = record {
    events = [];
    traced = t ∙ sym (append-nil a.trace);
    logged = c ∙ sym (append-nil a.completed_node_ids);
    kept = λ x h. e ∙ h;
  }

  pub Follows-refl : (a : Impl S X) → Follows a a
  Follows-refl a = Follows-same a a refl refl refl

  pub Follows-trans : (a b c : Impl S X) → Follows a b → Follows b c → Follows a c
  Follows-trans a b c f g = record {
    events = f.events ++ g.events;
    traced =
        g.traced
        ∙ ap (λ (t : List TraceEvent). t ++ g.events) f.traced
        ∙ append_assoc a.trace f.events g.events;
    logged =
        g.logged
        ∙ ap (λ (l : List String). l ++ successes g.events) f.logged
        ∙ append_assoc a.completed_node_ids (successes f.events) (successes g.events)
        ∙ ap (◌++◌ a.completed_node_ids) (sym (successes-append f.events g.events));
    kept = λ x h. g.kept x (f.kept x h);
  }

  -- An event that is no success.
  pub emit-Follows :
      (e : TraceEvent) (a : Impl S X) → successes (e ∷ []) ≡ [] → Follows a (emit e a)
  unfolding emit
  emit-Follows e a h = record {
    events = e ∷ [];
    traced = refl;
    logged = sym (ap (◌++◌ a.completed_node_ids) h ∙ append-nil a.completed_node_ids);
    kept = λ x k. k;
  }

  log_completed-Follows :
      (id : String) (a : Impl S X) → Follows a (log_completed id (emit (node_end id false false) a))
  unfolding log_completed emit
  log_completed-Follows id a = record {
    events = node_end id false false ∷ [];
    traced = refl;
    logged = refl;
    kept = λ x k. k;
  }

  pub launch-Follows : (id : String) (a : Impl S X) → Follows a (launch id a)
  unfolding launch
  launch-Follows id a =
      Follows-trans a _ _ (Follows-same a _ refl refl refl) (emit-Follows (node_start id) _ refl)

  deliver-Follows : (e : Edge) (out : S) (a : Impl S X) → Follows a (deliver e out a)
  unfolding deliver
  deliver-Follows e out a =
      Follows-trans a _ _ (Follows-same a _ refl refl refl)
        (emit-Follows (edge_fire e.from e.to e.activation_group) _ refl)

  fan_out-Follows :
      (id : String) (out : S) (es : List Edge) (a : Impl S X) → Follows a (fan_out id out es a)
  unfolding fan_out
  fan_out-Follows id out [] a = Follows-refl a
  fan_out-Follows id out (e ∷ es) a = elim (Bool-cases (e.from == id)) [
    | inl t ↦ rw t (
        Follows-trans a (deliver e out a) _ (deliver-Follows e out a)
          (fan_out-Follows id out es (deliver e out a)))
    | inr f ↦ rw f (fan_out-Follows id out es a)
  ]

  note_terminal-Follows : (b : Bool) (out : S) (a : Impl S X) → Follows a (note_terminal b out a)
  unfolding note_terminal
  note_terminal-Follows true out a = Follows-refl a
  note_terminal-Follows false out a = Follows-same a _ refl refl refl

  checkpoint-Follows :
      (p : CheckpointPolicy) (out : S) (t : Bool) (a : Impl S X)
      → Follows a (maybe_write_checkpoint p out t a)
  unfolding maybe_write_checkpoint
  checkpoint-Follows p out t a = elim (Bool-cases (writes p t)) [
    | inl w ↦ rw w (Follows-same a _ refl refl refl)
    | inr n ↦ rw n (Follows-refl a)
  ]

  record_error-Follows :
      (x : X) (a : Impl S X) → Follows a (record a { first_error = keep_first x a.first_error })
  unfolding keep_first
  record_error-Follows x a = record {
    events = [];
    traced = sym (append-nil a.trace);
    logged = sym (append-nil a.completed_node_ids);
    kept = λ y h. rw h;
  }

  raised-Follows :
      (o : Setup S) (id : String) (x : X) (c : Cancelled) (a : Impl S X)
      → Follows a (settle_node o id (raised x) c a)
  unfolding settle_node
  raised-Follows o id x c a =
      Follows-trans a (record a { first_error = keep_first x a.first_error }) _
        (record_error-Follows x a)
        (Follows-trans _ _ _ (emit-Follows (node_failed id) _ refl)
          (emit-Follows (node_end id (at_end c) true) _ (no_success (at_end c))))
    where
      no_success : (c : Bool) → successes (node_end id c true ∷ []) ≡ []
      no_success true = refl
      no_success false = refl

  sent-Follows :
      (o : Setup S) (id : String) (out : S) (a : Impl S X)
      → Follows a (send_out o id out (log_completed id (emit (node_end id false false) a)))
  unfolding send_out
  sent-Follows o id out a =
      let logged = log_completed id (emit (node_end id false false) a) in
      let fanned = fan_out id out o.graph.edges logged in
      Follows-trans a logged _ (log_completed-Follows id a) (
        Follows-trans logged fanned _ (fan_out-Follows id out o.graph.edges logged)
          (note_terminal-Follows (has_outgoing id o.graph.edges) out fanned))

  -- A node whose token is not cancelled between its event and the log.
  pub settle_node-Follows :
      (o : Setup S) (id : String) (ending : Ending S X) (cancelled : Cancelled) (a : Impl S X)
      → cancelled ≢ before_log
      → Follows a (settle_node o id ending cancelled a)
  unfolding settle_node checkpoint_node
  settle_node-Follows o id (raised x) c a h = raised-Follows o id x c a
  settle_node-Follows o id (produced out) before_end a h =
      emit-Follows (node_end id true false) a refl
  settle_node-Follows o id (produced out) before_log a h = absurd (h refl)
  settle_node-Follows o id (produced out) before_fan_out a h = log_completed-Follows id a
  settle_node-Follows o id (produced out) before_checkpoint a h = sent-Follows o id out a
  settle_node-Follows o id (produced out) not_yet a h =
      Follows-trans a _ _ (sent-Follows o id out a) (checkpoint-Follows o.policy out _ _)

  -- An error once recorded stays the same.
  abbrev pub Keeps : Impl S X → Impl S X → Type 0
  Keeps a b = (x : X) → a.first_error ≡ some x → b.first_error ≡ some x

  pub settle_node-Keeps :
      (o : Setup S) (id : String) (ending : Ending S X) (cancelled : Cancelled) (a : Impl S X)
      → Keeps a (settle_node o id ending cancelled a)
  unfolding settle_node emit
  settle_node-Keeps o id (raised x) c a = (raised-Follows o id x c a).kept
  settle_node-Keeps o id (produced out) before_log a = λ x h. h
  settle_node-Keeps o id (produced out) before_end a =
      (settle_node-Follows o id (produced out) before_end a (λ e. cc e)).kept
  settle_node-Keeps o id (produced out) before_fan_out a =
      (settle_node-Follows o id (produced out) before_fan_out a (λ e. cc e)).kept
  settle_node-Keeps o id (produced out) before_checkpoint a =
      (settle_node-Follows o id (produced out) before_checkpoint a (λ e. cc e)).kept
  settle_node-Keeps o id (produced out) not_yet a =
      (settle_node-Follows o id (produced out) not_yet a (λ e. cc e)).kept
