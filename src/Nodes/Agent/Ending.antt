-- ===== src/Nodes/Agent/Ending.antt =====
-- `AgentNode::Run`: how often the model is asked, and what is written in the end.
use zen_agent.Common.{ℕ, ◌≤◌, ◌≡◌, ◌≢◌, true, false, List, [], ◌∷◌, ◌⊎◌, All}
use zen_agent.Common.Int.{ℤ, pos, negsuc}
use zen_agent.Common.Bytes.{Bytes, ascii}
use zen_agent.Common.Json.{Json}
use zen_agent.Nodes.Agent.Reading.{CallsTools, AnswersWith}
use zen_agent.Nodes.Agent.{World, Ended, final_answer, throws, Outcome, wrote, failed, unchanged}

module _ (w : World) where
  -- The reply calls tools.
  abbrev pub IsCalling : Bytes × Bytes → Type 0
  IsCalling x = (tcs : List Json) × CallsTools w x.1 tcs

  -- All replies call tools but the last one, which answers.
  abbrev pub LastAnswers : Bytes → List (Bytes × Bytes) → Type 0
  LastAnswers t [] = ⊥
  LastAnswers t (x ∷ []) = AnswersWith w t x.1
  LastAnswers t (x ∷ y ∷ more) = IsCalling x × LastAnswers t (y ∷ more)

  -- The end is an answer to the last reply, or every reply calls tools.
  abbrev IsEnded : List (Bytes × Bytes) → Ended → Type 0
  IsEnded rs (throws e) = All IsCalling rs
  IsEnded rs (final_answer t) = LastAnswers t rs ⊎ ((t ≡ []) × All IsCalling rs)

  -- What is written for an answer: the answer, or without one the notice, and nothing where the
  -- run is cancelled by then.
  abbrev pub IsWritten : Bytes → Bytes → Type 0
  IsWritten t s =
      ((t ≢ []) × (s ≡ t))
      ⊎ ((t ≡ [])
          × (((w.cancelled_at_end ≡ true) × (s ≡ []))
              ⊎ ((w.cancelled_at_end ≡ false)
                  × (s ≡ ascii "Agent reached maximum iterations without a final answer."))))

  -- What is left in the state: the answer of the last reply, behind replies that all call tools; or
  -- without an answer the notice, or nothing where the run is cancelled; or an error.
  abbrev pub IsOutcome : List (Bytes × Bytes) → Outcome → Type 0
  IsOutcome rs unchanged = rs ≡ []
  IsOutcome rs (failed e) = All IsCalling rs
  IsOutcome rs (wrote s) =
      (t : Bytes) × (IsWritten t s × (LastAnswers t rs ⊎ ((t ≡ []) × All IsCalling rs)))

  -- At most `max_iter`, which may be negative.
  abbrev pub AtMost : ℤ → ℕ → Type 0
  AtMost (pos n) k = k ≤ n
  AtMost (negsuc n) k = k ≡ 0
