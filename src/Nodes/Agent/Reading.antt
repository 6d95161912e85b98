-- ===== src/Nodes/Agent/Reading.antt =====
-- How `AgentNode::Run` reads a reply of the model: what it calls, or what it answers.
use zen_agent.Common.{
  ◌≡◌, ◌≢◌, refl, List, [], ◌∷◌, Option, none, some, or_else, ◌⊎◌, inl, inr, Option-cases,
  bytes_equality,
}
use zen_agent.Common.Bytes.{Bytes, ascii}
use zen_agent.Common.Json.{Json, at, string_of, string_at, object_at, array_at}
use zen_agent.Inference.Canonical.{extract_assistant_text}
use zen_agent.Nodes.Agent.{
  Call, World, Turn, answers, calls, or_empty, or_raw, call_name, call_args, text_of, calls_of,
  tool_calls, turn,
}

-- The name: of the call itself, or of its function.
abbrev pub function_name : Option Json → Option Bytes
function_name none = none
function_name (some fn) = string_at (ascii "name") fn

-- The arguments: of the call itself, or of its function; a text as it is, or as JSON.
abbrev pub function_arguments : Option Json → Option Json
function_arguments none = none
function_arguments (some fn) = at (ascii "arguments") fn

abbrev pub as_text : (Json → Bytes) → Option Json → Bytes
as_text dump none = []
as_text dump (some v) = elim (string_of v) [ none ↦ dump v | some t ↦ t ]

-- A call reads an entry of the tool calls.
abbrev pub IsCall : (Json → Bytes) → Json → Call → Type 0
IsCall dump tc c =
    (c.name
      ≡ or_empty
          (or_else (string_at (ascii "name") tc) (function_name (object_at (ascii "function") tc))))
    × ((c.call_id ≡ or_empty (string_at (ascii "id") tc))
        × (c.args
            ≡ as_text dump (
                or_else (at (ascii "arguments") tc)
                  (function_arguments (at (ascii "function") tc)))))

pub name-IsCall :
    (tc : Json)
    → call_name tc
      ≡ or_empty
          (or_else (string_at (ascii "name") tc) (function_name (object_at (ascii "function") tc)))
unfolding call_name
name-IsCall tc = go (string_at (ascii "name") tc) (object_at (ascii "function") tc)
  where
    go :
        (o : Option Bytes) (f : Option Json)
        → elim o [
          | some n ↦ n
          | none ↦ elim f [ none ↦ [] | some fn ↦ or_empty (string_at (ascii "name") fn) ]
        ]
          ≡ or_empty (or_else o (function_name f))
    go (some n) f = refl
    go none none = refl
    go none (some fn) = refl

pub args-IsCall :
    (dump : Json → Bytes) (tc : Json)
    → call_args dump tc
      ≡ as_text dump
          (or_else (at (ascii "arguments") tc) (function_arguments (at (ascii "function") tc)))
unfolding call_args text_of
args-IsCall dump tc = elim (Option-cases (at (ascii "arguments") tc)) [
  | inr (v, e) ↦ rw (e, call_args) refl
  | inl e ↦ elim (Option-cases (at (ascii "function") tc)) [
    | inl f ↦ rw (e, f, call_args) refl
    | inr (fn, f) ↦ elim (Option-cases (at (ascii "arguments") fn)) [
      | inl g ↦ rw (e, f, call_args) (rw g refl)
      | inr (v, g) ↦ rw (e, f, call_args) (rw g refl)
    ]
  ]
]

module _ (w : World) where
  -- The reply is an object with tool calls.
  pub record CallsTools (raw : Bytes) (tcs : List Json) : Type 0 where
    pub reply : Json
    pub parsed : w.parse raw ≡ some reply
    pub listed : array_at (ascii "tool_calls") reply ≡ some tcs
    pub some_calls : tcs ≢ []

  -- The reply has no tool calls, and the answer is its text where it has one, or all of it.
  abbrev pub WithoutCalls : Json → Type 0
  WithoutCalls v =
      (array_at (ascii "tool_calls") v ≡ none) ⊎ (array_at (ascii "tool_calls") v ≡ some [])

  abbrev pub AnswersWith : Bytes → Bytes → Type 0
  AnswersWith t raw =
      ((w.parse raw ≡ none) × (t ≡ raw))
      ⊎ ((v : Json) × ((w.parse raw ≡ some v)
            × (WithoutCalls v × (t ≡ or_raw (extract_assistant_text v) raw))))

  -- What the node makes of a reply.
  abbrev pub IsTurn : Bytes → Turn → Type 0
  IsTurn raw (answers t) = AnswersWith t raw
  IsTurn raw (calls cs) = (tcs : List Json) × (CallsTools raw tcs × (cs ≡ calls_of w.dump tcs))

  turn_parsed :
      (raw : Bytes) (v : Json)
      → w.parse raw ≡ some v
      → (o : Option (List Json)) → array_at (ascii "tool_calls") v ≡ o
      → IsTurn raw (turn w raw)
  unfolding turn tool_calls
  turn_parsed raw v e none a = rw (e, turn) (rw a (inr (v, (e, (inl a, refl)))))
  turn_parsed raw v e (some []) a = rw (e, turn) (rw a (inr (v, (e, (inr a, refl)))))
  turn_parsed raw v e (some (tc ∷ tcs)) a =
      rw (e, turn)
        (rw a (
          tc ∷ tcs,
          (record { reply = v; parsed = e; listed = a; some_calls = (λ q. cc q) }, refl),
        ))

  pub turn-IsTurn : (raw : Bytes) → IsTurn raw (turn w raw)
  unfolding turn
  turn-IsTurn raw = elim (Option-cases (w.parse raw)) [
    | inl e ↦ rw (e, turn) (inl (e, refl))
    | inr (v, e) ↦ turn_parsed raw v e (array_at (ascii "tool_calls") v) refl
  ]
