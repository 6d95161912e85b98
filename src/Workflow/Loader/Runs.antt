-- ===== src/Workflow/Loader/Runs.antt =====
-- `SubAgentRuntime::RunAsync` of agentflow/workflow/sub_agent_runtime.cc on a workflow that
-- `WorkflowLoader::Load` gives.
use zen_agent.Common.{
  ℕ, zero, suc, ◌≡◌, ◌≢◌, refl, sym, subst, Bool, true, List, [], ◌∷◌, Option, none, some, leb,
  Bool-cases, inl, inr, In, All, bytes_equality, ◌==◌,
}
use zen_agent.Common.Assoc.{contains, keys, lookup, In-of_contains, lookup_of_In}
use zen_agent.Common.Bytes.{Bytes, ascii}
use zen_agent.Common.Int.{pos}
use zen_agent.Common.Json.{Json, Fields, end, field, integer}
use zen_agent.Nodes.Agent.{
  Call, Invoked, returned, threw, threw_other, replied, send_cancelled, send_failed,
}
use zen_agent.Workflow.Spec.{DelegateSpec, AgentDef, Agents, WorkflowSpec, delegated}
use zen_agent.Workflow.SubAgent.{
  World, Event, Result, thrown, Looped, last_reply, error_kind, escaped, Opened, opened, no_send,
  unknown_backend, open_threw, Answer, answer, send_threw, goal_json, refused, extract_path,
  succeeded, extracted, concluded, system_text, conversing, prompted, child_run, behind_start,
  delegates_of, checked_run, run_async, entries, calls_in, join_texts, text_returned, loop,
  tool_text,
}
use zen_agent.Workflow.Loader.{ok}
use zen_agent.Workflow.Loader.Load.{Options, Host, with_version, load}
use zen_agent.Workflow.Loader.Valid.{Refers}
use zen_agent.Workflow.Loader.Accepted.{load_iff}

All-lookup :
    {A : Type 0} (P : Bytes × A → Type 0) (k : Bytes) (m : List (Bytes × A)) (v : A)
    → All P m
    → lookup k m ≡ some v
    → (j : Bytes) × P (j, v)
unfolding lookup
All-lookup P k [] v h e = absurd (cc e)
All-lookup P k ((j, w) ∷ m) v h e = elim (Bool-cases (k == j)) [
  | inr other ↦ All-lookup P k m v h.1 (rw other at e)
  | inl same ↦ (j, subst (λ x. P (j, x)) (cc (rw same at e)) h.0)
]

All-member : (P : Bytes → Type 0) (k : Bytes) (xs : List Bytes) → All P xs → In k xs → P k
All-member P k [] h i = elim i [ ]
All-member P k (x ∷ xs) h (inl e) = subst P (sym e) h.0
All-member P k (x ∷ xs) h (inr i) = All-member P k xs h.1 i

abbrev pub Returns : List Event × Result → Type 0
Returns r = r.1 ≢ thrown

module _ (w : World) (tame : (iter i : ℕ) (c : Call) → w.invoke iter i c ≢ threw_other)
    (answers : (iter : ℕ) (m : Bytes) → w.send iter m ≢ send_threw)
    (opens : (backend system : Bytes) → w.conversation backend system ≢ open_threw) (goal : Bytes)
    (writes : w.writable (goal_json w goal) ≡ true) where
  entries-some : (iter i : ℕ) (cs : List Call) → (es : List Json) × (entries w iter i cs ≡ some es)
  unfolding entries
  entries-some iter i [] = ([], refl)
  entries-some iter i (c ∷ cs) =
      let (es, e) = entries-some iter (suc i) cs in
      rw e (text (w.invoke iter i c) (tame iter i c) es)
    where
      text :
          (r : Invoked)
          → r ≢ threw_other
          → (es : List Json)
          → (gs : List Json) × (join_texts (text_returned r) (some es) c ≡ some gs)
      text (returned t) h es = (_, refl)
      text (threw e) h es = (_, refl)
      text threw_other h es = absurd (h refl)

  -- A round of the loop does not escape where the rounds behind it do not.
  round-stays :
      (f iter : ℕ) (next : Bytes) (o : Option (List Call))
      → ((m raw : Bytes) → loop w f (suc iter) m raw ≢ escaped)
      → elim o [
        | none ↦ last_reply next
        | some cs ↦ elim (entries w iter 0 cs) [
          | none ↦ escaped
          | some es ↦ loop w f (suc iter) (tool_text w es) next
        ]
      ]
        ≢ escaped
  round-stays f iter next none rest = λ e. cc e
  round-stays f iter next (some cs) rest =
      let (es, e) = entries-some iter 0 cs in rw e (rest (tool_text w es) next)

  loop-stays : (f iter : ℕ) (m raw : Bytes) → loop w f iter m raw ≢ escaped
  unfolding loop
  loop-stays zero iter m raw = λ e. cc e
  loop-stays (suc f) iter m raw = elim (Bool-cases (w.cancelled iter)) [
    | inl c ↦ rw (c, loop) (λ e. cc e)
    | inr c ↦
        rw (c, loop)
          (answered (w.send iter m) (answers iter m) (λ m raw. loop-stays f (suc iter) m raw))
  ]
    where
      answered :
          (a : Answer)
          → a ≢ send_threw
          → ((m raw : Bytes) → loop w f (suc iter) m raw ≢ escaped)
          → elim a [
            | send_threw ↦ escaped
            | answer s ↦ elim s [
              | send_cancelled ↦ error_kind (ascii "engine_error")
              | send_failed e ↦ error_kind (ascii "engine_error")
              | replied next ↦ elim (calls_in w next) [
                | none ↦ last_reply next
                | some cs ↦ elim (entries w iter 0 cs) [
                  | none ↦ escaped
                  | some es ↦ loop w f (suc iter) (tool_text w es) next
                ]
              ]
            ]
          ]
            ≢ escaped
      answered send_threw h rest = absurd (h refl)
      answered (answer (replied next)) h rest = round-stays f iter next (calls_in w next) rest
      answered (answer send_cancelled) h rest = λ e. cc e
      answered (answer (send_failed t)) h rest = λ e. cc e

  refused-Returns : (depth : ℕ) (kind : Bytes) (more : Fields) → Returns (refused depth kind more)
  unfolding refused
  refused-Returns depth kind more = λ e. cc e

  concluded-Returns :
      (depth : ℕ) (path : Bytes) (l : Looped) → l ≢ escaped → Returns (concluded w depth path l)
  unfolding concluded
  concluded-Returns depth path (last_reply raw) h = value_of (extracted w path raw)
    where
      value_of : (p : List Event × Bytes) → Returns (succeeded depth p)
      value_of (es, t) = λ e. cc e
  concluded-Returns depth path (error_kind k) h = refused-Returns depth k end
  concluded-Returns depth path escaped h = absurd (h refl)

  child_run-Returns :
      (depth : ℕ) (path : Bytes) (child : AgentDef)
      → Returns (child_run w depth path goal (some child))
  unfolding child_run prompted conversing
  child_run-Returns depth path child = from_text (system_text w child.system_prompt)
    where
      from_opened :
          (o : Opened)
          → o ≢ open_threw
          → Returns (conversing w depth path goal child.model.backend o)
      from_opened opened h =
          rw writes (concluded-Returns depth path _ (loop-stays 8 0 (w.dump (goal_json w goal)) []))
      from_opened no_send h = refused-Returns depth _ end
      from_opened unknown_backend h = refused-Returns depth _ _
      from_opened open_threw h = absurd (h refl)

      from_text : (t : Option Bytes) → Returns (prompted w depth path goal child.model.backend t)
      from_text none = refused-Returns depth _ end
      from_text (some t) =
          from_opened (w.conversation child.model.backend t) (opens child.model.backend t)

  behind_start-Returns :
      (depth : ℕ) (child : Bytes) (r : List Event × Result)
      → Returns r
      → Returns (behind_start depth child r)
  behind_start-Returns depth child (es, r) h = h

  checked_run-Returns :
      (agents : Agents) (child : Bytes) (depth : ℕ) (d : Option DelegateSpec)
      → All (λ x. In x (keys agents)) (delegated d)
      → Returns (checked_run w agents child goal depth d)
  unfolding checked_run
  checked_run-Returns agents child depth none h = refused-Returns depth _ end
  checked_run-Returns agents child depth (some d) h = elim (Bool-cases (leb d.max_depth depth)) [
    | inl deep ↦ rw deep (
        behind_start-Returns depth child
          (refused depth (ascii "max_depth_exceeded")
            (field (ascii "depth") (integer (pos depth)) end))
          (refused-Returns depth _ _))
    | inr low ↦ elim (Bool-cases (contains d.agents child)) [
      | inr stranger ↦ rw (low, stranger) (refused-Returns depth _ end)
      | inl listed ↦
          let (def, e) = lookup_of_In child agents (
            All-member (λ x. In x (keys agents)) child d.agents h
              (In-of_contains d.agents child listed)) in
          rw (low, listed, e)
            (behind_start-Returns depth child
              (child_run w depth (extract_path d.output_extract) goal (some def))
              (child_run-Returns depth (extract_path d.output_extract) def))
    ]
  ]

  run_async-Returns :
      (agents : Agents) (has : Bytes → Bool) (parent child : Bytes) (depth : ℕ)
      → All (Refers has (keys agents)) agents
      → Returns (run_async w agents parent child goal depth)
  unfolding run_async
  run_async-Returns agents has parent child depth h = go (lookup parent agents) refl
    where
      go :
          (o : Option AgentDef)
          → lookup parent agents ≡ o
          → Returns (checked_run w agents child goal depth (delegates_of o))
      go none e = checked_run-Returns agents child depth none tt
      go (some a) e =
          checked_run-Returns agents child depth a.delegates
            (All-lookup (Refers has (keys agents)) parent agents a h e).1.1

-- In a loaded workflow a delegation gives a JSON value, whoever delegates to whom at whatever
-- depth, unless code that it calls throws: a tool something else than a `std::exception`, the
-- function to send with anything, the opening of the conversation something else than the
-- `AgentflowError` of an unknown backend, or the printing of the goal. So no agent that is allowed
-- as a delegate lacks a definition, for which the run itself would throw.
pub loaded-Returns :
    (h : Host) (opts : Options) (text : Bytes) (spec : WorkflowSpec) (pool : Option (List Bytes))
    → load h opts text ≡ ok (spec, pool)
    → (w : World) → ((iter i : ℕ) (c : Call) → w.invoke iter i c ≢ threw_other)
    → ((iter : ℕ) (m : Bytes) → w.send iter m ≢ send_threw)
    → ((backend system : Bytes) → w.conversation backend system ≢ open_threw)
    → (parent child goal : Bytes) (depth : ℕ) → w.writable (goal_json w goal) ≡ true
    → Returns (run_async w spec.agents parent child goal depth)
loaded-Returns h opts text spec pool loaded w tame answers opens parent child goal depth writes =
    let (_, (root, (_, (parsed, (_, (valid, (_, (p, (_, (same, _)))))))))) =
      (load_iff h opts text spec pool).0 loaded in
    subst (λ s. Returns (run_async w s.agents parent child goal depth)) same
      (run_async-Returns w tame answers opens goal writes (with_version parsed).agents h.has_tool
        parent child depth valid.1.1.0.1)
