-- ===== src/Workflow/SubAgent/Told.antt =====
-- `SubAgentRuntime::RunAsync`: what its events and its value say.
use zen_agent.Common.{
  ℕ, ◌%◌, ◌^◌, ◌<◌, ◌≡◌, refl, ap, Bool, true, false, List, [], ◌∷◌, ◌++◌, Option, none, some, leb,
  length, Bool-cases, inl, inr, arith, All, bytes_equality,
}
use zen_agent.Common.Assoc.{contains, lookup}
use zen_agent.Common.Bytes.{Bytes, ascii}
use zen_agent.Common.Int.{pos}
use zen_agent.Common.Json.{Json, str, integer, field, Fields, end, string_at, string_of}
use zen_agent.Workflow.JsonPath
use zen_agent.Workflow.Spec.{DelegateSpec, AgentDef}
use zen_agent.Workflow.SubAgent.{
  World, Event, started, extract_failed, ended, Result, value, thrown, Looped, last_reply,
  error_kind, escaped, Opened, opened, no_send, unknown_backend, open_threw, goal_json, refused,
  extract_path, extracted_text, extracted_value, extracted_at, extracted, succeeded, concluded,
  system_text, conversing, prompted, child_run, behind_start, delegates_of, checked_run, run_async,
}

abbrev is_end : Event → Bool
is_end (started depth child) = false
is_end (extract_failed path) = false
is_end (ended depth ok kind size) = true

-- A parent that has delegates, a depth below their bound, and a child among them.
abbrev pub Allowed : List (Bytes × AgentDef) → Bytes → Bytes → ℕ → Type 0
Allowed agents parent child depth =
    (d : DelegateSpec) × ((delegates_of (lookup parent agents) ≡ some d)
      × ((depth < d.max_depth) × (contains d.agents child ≡ true)))

module _ (P : Type 0) (depth : ℕ) where
  -- A success has a text, of the size that is told; a failure has the kind of its error, and tells
  -- the same.
  abbrev pub Fits : Bool → Bytes → ℕ → Json → Type 0
  Fits true kind size j =
      P × ((kind ≡ []) × ((t : Bytes) × ((j ≡ str t) × (size ≡ length t % 2 ^ 32))))
  Fits false kind size j = (string_at (ascii "error") j ≡ some kind) × (size ≡ 0)

  -- One end is told, in the last event, and it fits the value; none where the run throws.
  abbrev pub IsTold : List Event × Result → Type 0
  IsTold (es, thrown) = All (λ e. is_end e ≡ false) es
  IsTold (es, value j) =
      (before : List Event) × (ok : Bool) × (kind : Bytes) × (size : ℕ) × ((es
          ≡ before ++ ended depth ok kind size ∷ [])
        × (All (λ e. is_end e ≡ false) before × Fits ok kind size j))

  refused-IsTold : (kind : Bytes) (more : Fields) → IsTold (refused depth kind more)
  unfolding refused
  refused-IsTold kind more = ([], false, kind, 0, (refl, (tt, (refl, refl))))

  behind_start-IsTold :
      (child : Bytes) (r : List Event × Result) → IsTold r → IsTold (behind_start depth child r)
  behind_start-IsTold child (es, thrown) h = (refl, h)
  behind_start-IsTold child (es, value j) (es', ok, kind, size, (e, (n, f))) = (
    started depth child ∷ es',
    ok,
    kind,
    size,
    (ap (◌∷◌ (started depth child)) e, ((refl, n), f)),
  )

  succeeded-IsTold :
      (es : List Event) (t : Bytes)
      → P
      → All (λ e. is_end e ≡ false) es
      → IsTold (succeeded depth (es, t))
  succeeded-IsTold es t p n =
      (es, true, [], length t % 2 ^ 32, (refl, (n, (p, (refl, (t, (refl, refl)))))))

module _ (w : World) (P : Type 0) (allowed : P) (depth : ℕ) where
  extracted_text-IsTold :
      (raw path : Bytes) (t : Option Bytes)
      → IsTold P depth (succeeded depth (extracted_text raw path t))
  extracted_text-IsTold raw path none =
      succeeded-IsTold P depth (extract_failed path ∷ []) raw allowed (refl, tt)
  extracted_text-IsTold raw path (some t) = succeeded-IsTold P depth [] t allowed tt

  extracted_value-IsTold :
      (raw path : Bytes) (v : Option Json)
      → IsTold P depth (succeeded depth (extracted_value raw path v))
  extracted_value-IsTold raw path none =
      succeeded-IsTold P depth (extract_failed path ∷ []) raw allowed (refl, tt)
  extracted_value-IsTold raw path (some v) = extracted_text-IsTold raw path (string_of v)

  extracted_at-IsTold :
      (raw path : Bytes) (p : JsonPath.Parsed) (v : Option Json)
      → IsTold P depth (succeeded depth (extracted_at raw path p v))
  extracted_at-IsTold raw path (JsonPath.failed e) v = succeeded-IsTold P depth [] raw allowed tt
  extracted_at-IsTold raw path (JsonPath.ok gs) none = succeeded-IsTold P depth [] raw allowed tt
  extracted_at-IsTold raw path (JsonPath.ok gs) (some v) =
      extracted_value-IsTold raw path (JsonPath.resolve gs v)

  concluded-IsTold : (path : Bytes) (l : Looped) → IsTold P depth (concluded w depth path l)
  unfolding concluded extracted
  concluded-IsTold path (last_reply raw) =
      extracted_at-IsTold raw path (JsonPath.parse w.overflow path) (w.parse raw)
  concluded-IsTold path (error_kind k) = refused-IsTold P depth k end
  concluded-IsTold path escaped = tt

  child_run-IsTold :
      (path goal : Bytes) (a : Option AgentDef) → IsTold P depth (child_run w depth path goal a)
  unfolding child_run prompted conversing
  child_run-IsTold path goal none = tt
  child_run-IsTold path goal (some child) = from_text (system_text w child.system_prompt)
    where
      from_opened :
          (o : Opened) → IsTold P depth (conversing w depth path goal child.model.backend o)
      from_opened opened = elim (Bool-cases (w.writable (goal_json w goal))) [
        | inl writes ↦ rw writes (concluded-IsTold path _)
        | inr throws ↦ rw throws tt
      ]
      from_opened open_threw = tt
      from_opened no_send = refused-IsTold P depth _ end
      from_opened unknown_backend = refused-IsTold P depth _ _

      from_text :
          (t : Option Bytes) → IsTold P depth (prompted w depth path goal child.model.backend t)
      from_text none = refused-IsTold P depth _ end
      from_text (some t) = from_opened (w.conversation child.model.backend t)

-- A run that does not throw tells one end, in its last event, with the depth of the run: a success
-- with the size of the text that it gives, which only an allowed delegation has, or a failure with
-- the kind of the error object that it gives. A run that throws tells no end.
pub run_async-IsTold :
    (w : World) (agents : List (Bytes × AgentDef)) (parent child goal : Bytes) (depth : ℕ)
    → IsTold (Allowed agents parent child depth) depth (run_async w agents parent child goal depth)
unfolding run_async checked_run
run_async-IsTold w agents parent child goal depth = go (delegates_of (lookup parent agents)) refl
  where
    go :
        (d : Option DelegateSpec)
        → delegates_of (lookup parent agents) ≡ d
        → IsTold (Allowed agents parent child depth) depth (checked_run w agents child goal depth d)
    go none e = refused-IsTold (Allowed agents parent child depth) depth (ascii "unknown_agent") end
    go (some d) e = elim (Bool-cases (leb d.max_depth depth)) [
      | inl deep ↦ rw deep (
          behind_start-IsTold (Allowed agents parent child depth) depth child
            (refused depth (ascii "max_depth_exceeded")
              (field (ascii "depth") (integer (pos depth)) end))
            (refused-IsTold (Allowed agents parent child depth) depth (ascii "max_depth_exceeded")
              (field (ascii "depth") (integer (pos depth)) end)))
      | inr low ↦ elim (Bool-cases (contains d.agents child)) [
        | inr stranger ↦
            rw (low, stranger)
              (refused-IsTold (Allowed agents parent child depth) depth (ascii "unknown_agent") end)
        | inl listed ↦
            rw (low, listed)
              (behind_start-IsTold (Allowed agents parent child depth) depth child
                (child_run w depth (extract_path d.output_extract) goal (lookup child agents))
                (child_run-IsTold w (Allowed agents parent child depth)
                  (d, (e, (ground (arith, low), listed))) depth (extract_path d.output_extract) goal
                  (lookup child agents)))
      ]
    ]
