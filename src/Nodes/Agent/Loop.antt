-- ===== src/Nodes/Agent/Loop.antt =====
-- `AgentNode::Run`: induction on its loop.
use zen_agent.Common.{ℕ, zero, suc, ◌≡◌, refl, false, List, [], ◌∷◌, inl, inr, Bool-cases}
use zen_agent.Common.Bytes.{Bytes}
use zen_agent.Nodes.Agent.{
  Outcome, failed, unchanged, ends, rounds, run, user_message, AgentNodeConfig, Call, World, Sent,
  replied, send_cancelled, send_failed, Turn, answers, calls, Ended, final_answer, throws,
  tool_message, turn, loop,
}

-- A property of fuel, round, message and result holds of the loop if it holds of an end without an
-- answer, of a failed send and of an answer, and a round of tool calls keeps it.
module _ (w : World) (cfg : AgentNodeConfig)
    (P : ℕ → ℕ → Bytes → List (Bytes × Bytes) × Ended → Type 0)
    (stops : (f iter : ℕ) (m : Bytes) → P f iter m ([], final_answer []))
    (fails : (f iter : ℕ) (m e : Bytes) → P f iter m ([], throws e))
    (last : (f iter : ℕ) (m raw t : Bytes)
      → turn w raw ≡ answers t
      → P (suc f) iter m ((m, raw) ∷ [], final_answer t))
    (next : (f iter : ℕ) (m raw : Bytes) (cs : List Call) (r : List (Bytes × Bytes) × Ended)
      → turn w raw ≡ calls cs
      → P f (suc iter) (w.dump_lenient (tool_message w cfg iter cs)) r
      → P (suc f) iter m ((m, raw) ∷ r.0, r.1)) where
  abbrev Holds : ℕ → ℕ → Bytes → Type 0
  Holds f iter m = P f iter m (loop w cfg f iter m)

  from_turn :
      (f iter : ℕ) (m raw : Bytes) (t : Turn)
      → ((k : ℕ) (n : Bytes) → Holds f k n)
      → w.cancelled iter ≡ false
      → w.send iter m ≡ replied raw
      → turn w raw ≡ t
      → Holds (suc f) iter m
  unfolding loop
  from_turn f iter m raw (answers t) k c s e = rw (c, s, e, loop) (last f iter m raw t e)
  from_turn f iter m raw (calls cs) k c s e =
      let n = w.dump_lenient (tool_message w cfg iter cs) in
      rw (c, s, e, loop) (next f iter m raw cs (loop w cfg f (suc iter) n) e (k (suc iter) n))

  from_sent :
      (f iter : ℕ) (m : Bytes) (s : Sent)
      → ((k : ℕ) (n : Bytes) → Holds f k n)
      → w.cancelled iter ≡ false
      → w.send iter m ≡ s
      → Holds (suc f) iter m
  unfolding loop
  from_sent f iter m send_cancelled k c s = rw (c, s, loop) (stops (suc f) iter m)
  from_sent f iter m (send_failed e) k c s = rw (c, s, loop) (fails (suc f) iter m _)
  from_sent f iter m (replied raw) k c s = from_turn f iter m raw (turn w raw) k c s refl

  pub loop_induction : (f iter : ℕ) (m : Bytes) → Holds f iter m
  unfolding loop
  loop_induction zero iter m = stops zero iter m
  loop_induction (suc f) iter m = elim (Bool-cases (w.cancelled iter)) [
    | inl c ↦ rw (c, loop) (stops (suc f) iter m)
    | inr c ↦ from_sent f iter m (w.send iter m) (λ k n. loop_induction f k n) c refl
  ]

-- A run: it fails at once, leaves the state alone, or is its loop.
pub run_cases :
    (w : World) (cfg : AgentNodeConfig) (input : Bytes)
    (P : List (Bytes × Bytes) × Outcome → Type 0)
    → ((e : Bytes) → P ([], failed e))
    → P ([], unchanged)
    → (let r = loop w cfg (rounds cfg.max_iter) 0 (user_message w input) in P (r.0, ends w r.1))
    → P (run w cfg input)
unfolding run
run_cases w cfg input P fails stays loops = elim (Bool-cases w.configured) [
  | inr e ↦ rw (e, run) (fails _)
  | inl e ↦ elim (Bool-cases w.cancelled_before) [
    | inl c ↦ rw (e, c, run) stays
    | inr c ↦ elim (Bool-cases w.has_conversation) [
      | inr h ↦ rw (e, c, h, run) (fails _)
      | inl h ↦ rw (e, c, h, run) loops
    ]
  ]
]
