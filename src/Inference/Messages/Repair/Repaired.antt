-- ===== src/Inference/Messages/Repair/Repaired.antt =====
-- `RepairToolCallPairing`: what it makes of messages that can be read.
use zen_agent.Common.{
  true, ◌≢◌, ◌⊎◌, ℕ, zero, suc, ◌≤◌, ◌≡◌, refl, sym, ap, ◌∙◌, subst, false, List, [], ◌∷◌, ◌++◌,
  append_assoc, Option, none, some, inl, inr, length, length-append, Bool-cases, In, All, arith,
  bytes_equality, ◌==◌,
}
use zen_agent.Common.Bytes.{Bytes, ascii}
use zen_agent.Common.Json.{
  string_at, Json, null, boolean, integer, fraction, str, arr, obj, is_object, array_at,
}
use zen_agent.Inference.Messages.{text_or}
use zen_agent.Inference.Messages.Repair.{
  value_at, id_of_call, ids_of_calls, calls_or_none, turn_of, ToolRun, stop, tool_run, missing,
  behind, with_run, round_of, round_at, repair, repair_tool_call_pairing,
}
use zen_agent.Inference.Messages.Repair.Paired.{
  ids_at, wants, answers, Paired, Extended, done, kept, Typed, IsRun, some_inj, value_at-text_or,
  Paired-Run, Extended-run, missing-Paired, missing-Extended, run-answers, tool_run-IsRun,
}

abbrev Good : List Json → List Json → Type 0
Good ms out = Paired out × Extended ms out

behind-some :
    (xs : List Json) (o : Option (List Json)) (out : List Json)
    → behind xs o ≡ some out
    → (ys : List Json) × ((o ≡ some ys) × (xs ++ ys ≡ out))
behind-some xs none out h = absurd (cc h)
behind-some xs (some ys) out h = (ys, (refl, some_inj h))

alone-Good :
    (m : Json) (ms out : List Json) (o : Option (List Json))
    → wants m ≡ []
    → ((ys : List Json) → o ≡ some ys → Good ms ys)
    → behind (m ∷ []) o ≡ some out
    → Good (m ∷ ms) out
alone-Good m ms out o e ih h =
    let (ys, (s, same)) = behind-some (m ∷ []) o out h in
    subst (Good (m ∷ ms)) same
      ((subst (All (λ id. In id (answers ys))) (sym e) tt, (ih ys s).0), kept (ih ys s).1)

run-Good :
    (m : Json) (ms out : List Json) (r : ToolRun) (o : Option (List Json))
    → IsRun ms r
    → ((ys : List Json) → o ≡ some ys → Good r.rest ys)
    → behind (m ∷ (r.run ++ missing r.answered (wants m))) o ≡ some out
    → Good (m ∷ ms) out
unfolding IsRun
run-Good m ms out r o (run, e) ih h =
    let (ys, (s, same)) = behind-some (m ∷ (r.run ++ missing r.answered (wants m))) o out h in
    let (paired, extended) = ih ys s in
    let added = missing r.answered (wants m) in
    subst (Good (m ∷ ms)) (ap (◌∷◌ m) (sym (append_assoc r.run added ys)) ∙ same) (
      (
        run-answers r.answered (wants m) (wants m) r.run ys run (λ id i. i),
        Paired-Run r.answered r.run (added ++ ys) run
            (missing-Paired r.answered (wants m) ys paired),
      ),
      kept (
          subst (λ x. Extended x (r.run ++ (added ++ ys))) (sym e)
            (Extended-run r.run r.rest (added ++ ys)
              (missing-Extended r.answered (wants m) r.rest ys extended))),
    )

rest-le : (ms : List Json) (r : ToolRun) → IsRun ms r → length r.rest ≤ length ms
unfolding IsRun
rest-le ms r (run, e) = omega (arith, ap length e, length-append r.run r.rest)

abbrev wanted : Option (List Bytes) → List Bytes
wanted none = []
wanted (some want) = want

wants-turn :
    (m : Json) (role : Bytes)
    → text_or [] (ascii "role") m ≡ role
    → wants m ≡ wanted (turn_of role m)
unfolding ids_of_calls
wants-turn m role e = elim (Bool-cases (role == ascii "assistant")) [
  | inr other ↦ rw (e, other) refl
  | inl turn ↦ rw (e, turn) (calls (array_at (ascii "tool_calls") m))
]
  where
    calls : (o : Option (List Json)) → ids_at o ≡ wanted (calls_or_none o)
    calls none = refl
    calls (some []) = refl
    calls (some (c ∷ cs)) = refl

wants_plain : (m : Json) → is_object m ≡ false → wants m ≡ []
wants_plain null h = refl
wants_plain (boolean b) h = refl
wants_plain (integer n) h = refl
wants_plain (fraction t) h = refl
wants_plain (str t) h = refl
wants_plain (arr xs) h = refl
wants_plain (obj fs) h = absurd (cc h)

module _ (k : List Json → Option (List Json)) (m : Json) (ms : List Json) where
  with_run-Good :
      (o : Option ToolRun) (out : List Json)
      → tool_run ms ≡ o
      → ((ns : List Json) → length ns ≤ length ms → (ys : List Json) → k ns ≡ some ys → Good ns ys)
      → with_run k m (wants m) o ≡ some out
      → Good (m ∷ ms) out
  with_run-Good none out e ih h = absurd (cc h)
  with_run-Good (some r) out e ih h =
      let run = tool_run-IsRun ms r e in
      run-Good m ms out r (k r.rest) run (ih r.rest (rest-le ms r run)) h

  round_at-Good :
      (o : Option Bytes) (out : List Json)
      → value_at (ascii "role") m ≡ o
      → ((ns : List Json) → length ns ≤ length ms → (ys : List Json) → k ns ≡ some ys → Good ns ys)
      → round_at k m ms o ≡ some out
      → Good (m ∷ ms) out
  round_at-Good none out e ih h = absurd (cc h)
  round_at-Good (some role) out e ih h =
      turn (turn_of role m) (wants-turn m role (value_at-text_or (ascii "role") m e)) h
    where
      turn :
          (o : Option (List Bytes))
          → wants m ≡ wanted o
          → round_of k m ms o ≡ some out
          → Good (m ∷ ms) out
      turn none e h = alone-Good m ms out (k ms) e (ih ms (omega arith)) h
      turn (some want) e h =
          with_run-Good (tool_run ms) out refl ih
            (subst (λ w. with_run k m w (tool_run ms) ≡ some out) (sym e) h)

repair-Good : (f : ℕ) (ms out : List Json) → length ms ≤ f → repair f ms ≡ some out → Good ms out
unfolding repair
repair-Good f [] out l h = subst (Good []) (some_inj h) (tt, done)
repair-Good zero (m ∷ ms) out l h = absurd (omega (arith, l))
repair-Good (suc f) (m ∷ ms) out l h = elim (Bool-cases (is_object m)) [
  | inr e ↦
      alone-Good m ms out (repair f ms) (wants_plain m e)
        (λ ys. repair-Good f ms ys (omega (arith, l))) (rw e at h)
  | inl e ↦
      round_at-Good (repair f) m ms (value_at (ascii "role") m) out refl
        (λ ns le ys. repair-Good f ns ys (omega (arith, l, le))) (rw e at h)
]

-- Messages that can be read are repaired without an exception.
Typed-rest : (xs ys : List Json) → All Typed (xs ++ ys) → All Typed ys
Typed-rest [] ys h = h
Typed-rest (x ∷ xs) ys h = Typed-rest xs ys h.1

tool_run-total : (ms : List Json) → All Typed ms → (r : ToolRun) × (tool_run ms ≡ some r)
unfolding tool_run
tool_run-total [] h = (_, refl)
tool_run-total (m ∷ ms) (((role, e), (id, i)), h) =
    let (r, s) = tool_run-total ms h in
    elim (Bool-cases (is_object m)) [
      | inr plain ↦ (stop (m ∷ ms), rw plain refl)
      | inl object ↦ elim (Bool-cases (role == ascii "tool")) [
        | inr other ↦ (stop (m ∷ ms), rw (object, e, other) refl)
        | inl tool ↦ (
          record { answered = id ∷ r.answered; run = m ∷ r.run; rest = r.rest },
          rw (object, e, tool, i, s) refl,
        )
      ]
    ]

behind-total :
    (xs : List Json) (o : Option (List Json))
    → ((ys : List Json) × (o ≡ some ys))
    → (out : List Json) × (behind xs o ≡ some out)
behind-total xs o (ys, e) = (xs ++ ys, rw e refl)

repair-total :
    (f : ℕ) (ms : List Json)
    → length ms ≤ f
    → All Typed ms
    → (out : List Json) × (repair f ms ≡ some out)
unfolding repair IsRun
repair-total f [] l h = ([], refl)
repair-total zero (m ∷ ms) l h = absurd (omega (arith, l))
repair-total (suc f) (m ∷ ms) l (((role, e), i), h) = elim (Bool-cases (is_object m)) [
  | inr plain ↦
      rw plain (behind-total (m ∷ []) (repair f ms) (repair-total f ms (omega (arith, l)) h))
  | inl object ↦
      rw (object, e) (turn (turn_of role m) (λ ns le g. repair-total f ns (omega (arith, l, le)) g))
]
  where
    turn :
        (o : Option (List Bytes))
        → ((ns : List Json)
            → length ns ≤ length ms
            → All Typed ns
            → (out : List Json) × (repair f ns ≡ some out))
        → (out : List Json) × (round_of (repair f) m ms o ≡ some out)
    turn none ih = behind-total (m ∷ []) (repair f ms) (ih ms (omega arith) h)
    turn (some want) ih =
        let (r, s) = tool_run-total ms h in
        let run = tool_run-IsRun ms r s in
        rw s (
          behind-total (m ∷ (r.run ++ missing r.answered want)) (repair f r.rest)
            (ih r.rest (rest-le ms r run) (Typed-rest r.run r.rest (subst (All Typed) run.1 h))))

-- A call that has an id is answered among the ids; one without, or with an empty one, need not be.
abbrev pub IsReplied : Option Bytes → List Bytes → Type 0
IsReplied none ids = Unit
IsReplied (some []) ids = Unit
IsReplied (some (c ∷ id)) ids = In (c ∷ id) ids

abbrev pub CallsReplied : Option (List Json) → List Bytes → Type 0
CallsReplied none ids = Unit
CallsReplied (some cs) ids = All (λ c. IsReplied (string_at (ascii "id") c) ids) cs

-- Each call of a message of the assistant is answered by the tool messages right behind.
abbrev pub Replied : List Json → Type 0
Replied [] = Unit
Replied (m ∷ ms) =
    ((text_or [] (ascii "role") m ≢ ascii "assistant")
      ⊎ CallsReplied (array_at (ascii "tool_calls") m) (answers ms))
    × Replied ms

All-left : (P : Bytes → Type 0) (xs ys : List Bytes) → All P (xs ++ ys) → All P xs × All P ys
All-left P [] ys h = (tt, h)
All-left P (x ∷ xs) ys h = let (l, r) = All-left P xs ys h.1 in ((h.0, l), r)

ids_of_calls-Replied :
    (cs : List Json) (ids : List Bytes)
    → All (λ id. In id ids) (ids_of_calls cs)
    → All (λ c. IsReplied (string_at (ascii "id") c) ids) cs
unfolding ids_of_calls
ids_of_calls-Replied [] ids h = tt
ids_of_calls-Replied (c ∷ cs) ids h =
    let (l, r) =
      All-left (λ id. In id ids) (id_of_call (string_at (ascii "id") c)) (ids_of_calls cs) h in
    (one (string_at (ascii "id") c) l, ids_of_calls-Replied cs ids r)
  where
    one : (o : Option Bytes) → All (λ id. In id ids) (id_of_call o) → IsReplied o ids
    one none h = tt
    one (some []) h = tt
    one (some (b ∷ id)) h = h.0

Paired-Replied : (ms : List Json) → Paired ms → Replied ms
Paired-Replied [] h = tt
Paired-Replied (m ∷ ms) h = (
  elim (Bool-cases (text_or [] (ascii "role") m == ascii "assistant")) [
    | inr e ↦ inl (λ q. cc (e, (bytes_equality.same_iff (text_or [] (ascii "role") m) _).1 q))
    | inl e ↦ inr (calls_of (array_at (ascii "tool_calls") m) (wanted_ids e))
  ],
  Paired-Replied ms h.1,
)
  where
    wanted_ids :
        (text_or [] (ascii "role") m == ascii "assistant") ≡ true
        → All (λ id. In id (answers ms)) (ids_at (array_at (ascii "tool_calls") m))
    wanted_ids e = rw e at h.0

    calls_of :
        (o : Option (List Json))
        → All (λ id. In id (answers ms)) (ids_at o)
        → CallsReplied o (answers ms)
    calls_of none k = tt
    calls_of (some cs) k = ids_of_calls-Replied cs (answers ms) k

-- Messages whose roles and ids are strings are repaired: behind each turn of the assistant, the tool
-- messages that follow it at once answer every call that has an id that is not empty, and the
-- messages are those that were there, in their order, with results of calls that were not executed
-- among them.
pub repair_tool_call_pairing-Replied :
    (ms : List Json)
    → All Typed ms
    → (out : List Json) × ((repair_tool_call_pairing ms ≡ some out)
        × (Replied out × Extended ms out))
unfolding repair_tool_call_pairing
repair_tool_call_pairing-Replied ms h =
    let (out, e) = repair-total (length ms) ms (omega arith) h in
    let (paired, extended) = repair-Good (length ms) ms out (omega arith) e in
    (out, (e, (Paired-Replied out paired, extended)))
