-- ===== src/Inference/Messages/Repair/Paired.antt =====
-- `RepairToolCallPairing`: every call has its result behind the turn that asks for it.
use zen_agent.Common.{
  ◌≡◌, refl, sym, ap, subst, Bool, true, false, List, [], ◌∷◌, ◌++◌, Option, none, some, inl, inr,
  if◌then◌else◌, Bool-cases, Option-cases, In, All, bytes_equality, ◌==◌,
}
use zen_agent.Common.Assoc.{contains, In-of_contains}
use zen_agent.Common.Bytes.{Bytes, ascii}
use zen_agent.Common.Json.{Json, at, is_object, string_at, array_at}
use zen_agent.Inference.Messages.{text_or, tool_message}
use zen_agent.Inference.Messages.Repair.{
  not_executed, text_value, value_at, ids_of_calls, ToolRun, answered_by, tool_of_role, tool_run,
  missing,
}

abbrev pub is_tool : Json → Bool
is_tool m = text_or [] (ascii "role") m == ascii "tool"

-- The ids that the tool messages at the front answer.
abbrev pub answers : List Json → List Bytes
answers [] = []
answers (m ∷ ms) =
    let rest = answers ms in if is_tool m then text_or [] (ascii "tool_call_id") m ∷ rest else []

abbrev pub ids_at : Option (List Json) → List Bytes
ids_at none = []
ids_at (some cs) = ids_of_calls cs

-- The ids that a message wants answered.
abbrev pub wants : Json → List Bytes
wants m =
    if text_or [] (ascii "role") m == ascii "assistant"
    then ids_at (array_at (ascii "tool_calls") m)
    else []

-- Each id that is wanted is answered by the tool messages right behind.
abbrev pub Paired : List Json → Type 0
Paired [] = Unit
Paired (m ∷ ms) = All (λ id. In id (answers ms)) (wants m) × Paired ms

-- The same messages in the same order, with results of calls that were not executed among them.
pub data Extended : List Json → List Json → Type 0 where
  done : Extended [] []
  kept : {m : Json} {ms ns : List Json} → Extended ms ns → Extended (m ∷ ms) (m ∷ ns)
  added :
      {id : Bytes} {ms ns : List Json}
      → Extended ms ns
      → Extended ms (tool_message id not_executed ∷ ns)

-- A message whose role and id are read without an exception.
abbrev pub Typed : Json → Type 0
Typed m =
    ((r : Bytes) × (value_at (ascii "role") m ≡ some r))
    × ((id : Bytes) × (value_at (ascii "tool_call_id") m ≡ some id))

abbrev Run : List Bytes → List Json → Type 0
Run [] [] = Unit
Run [] (m ∷ ms) = ⊥
Run (id ∷ ids) [] = ⊥
Run (id ∷ ids) (m ∷ ms) =
    ((is_tool m ≡ true) × (text_or [] (ascii "tool_call_id") m ≡ id)) × Run ids ms

pub some_inj : {A : Type 0} {a b : A} → some a ≡ some b → a ≡ b
some_inj e = cc e

pub value_at-text_or :
    (k : Bytes) (m : Json) {t : Bytes} → value_at k m ≡ some t → text_or [] k m ≡ t
unfolding value_at
value_at-text_or k m h = elim (Option-cases (at k m)) [
  | inl e ↦ rw (e, text_or, string_at) (some_inj (rw (e, text_value) at h))
  | inr (v, e) ↦ rw (e, text_or, string_at) (rw (rw e at h) refl)
]

wants_tool : (m : Json) → is_tool m ≡ true → wants m ≡ []
wants_tool m h =
    rw ((bytes_equality.same_iff (text_or [] (ascii "role") m) (ascii "tool")).0 h) refl

pub answers-Run :
    (ids : List Bytes) (run t : List Json) → Run ids run → answers (run ++ t) ≡ ids ++ answers t
answers-Run [] [] t h = refl
answers-Run [] (m ∷ run) t h = elim h [ ]
answers-Run (id ∷ ids) [] t h = elim h [ ]
answers-Run (id ∷ ids) (m ∷ run) t ((e, i), h) = rw (e, i, answers-Run ids run t h) refl

pub Paired-Run : (ids : List Bytes) (run t : List Json) → Run ids run → Paired t → Paired (run ++ t)
Paired-Run [] [] t h p = p
Paired-Run [] (m ∷ run) t h p = elim h [ ]
Paired-Run (id ∷ ids) [] t h p = elim h [ ]
Paired-Run (id ∷ ids) (m ∷ run) t ((e, i), h) p = (
  subst (All (λ id. In id (answers (run ++ t)))) (sym (wants_tool m e)) tt,
  Paired-Run ids run t h p,
)

pub Extended-run : (run ms ns : List Json) → Extended ms ns → Extended (run ++ ms) (run ++ ns)
Extended-run [] ms ns h = h
Extended-run (m ∷ run) ms ns h = kept (Extended-run run ms ns h)

-- A message that is added is the answer to what is left.
missing-answers :
    (answered want : List Bytes) (t : List Json) (id : Bytes)
    → In id want
    → contains answered id ≡ false
    → In id (answers (missing answered want ++ t))
unfolding missing
missing-answers answered [] t id i h = elim i [ ]
missing-answers answered (w ∷ want) t id i h = elim (Bool-cases (contains answered w)) [
  | inl e ↦ rw e (elim i [
    | inl same ↦ absurd (cc (e, h, ap (contains answered) same))
    | inr j ↦ missing-answers answered want t id j h
  ])
  | inr e ↦
      rw e (elim i [ inl same ↦ inl same | inr j ↦ inr (missing-answers answered want t id j h) ])
]

pub missing-Paired :
    (answered want : List Bytes) (t : List Json) → Paired t → Paired (missing answered want ++ t)
unfolding missing
missing-Paired answered [] t p = p
missing-Paired answered (w ∷ want) t p = elim (Bool-cases (contains answered w)) [
  | inl e ↦ rw e (missing-Paired answered want t p)
  | inr e ↦ rw e (tt, missing-Paired answered want t p)
]

pub missing-Extended :
    (answered want : List Bytes) (ms ns : List Json)
    → Extended ms ns
    → Extended ms (missing answered want ++ ns)
unfolding missing
missing-Extended answered [] ms ns h = h
missing-Extended answered (w ∷ want) ms ns h = elim (Bool-cases (contains answered w)) [
  | inl e ↦ rw e (missing-Extended answered want ms ns h)
  | inr e ↦ rw e (added (missing-Extended answered want ms ns h))
]

-- All that is wanted is answered by a run and what is added behind it.
pub run-answers :
    (ids want all : List Bytes) (run t : List Json)
    → Run ids run
    → ((id : Bytes) → In id want → In id all)
    → All (λ id. In id (answers (run ++ (missing ids all ++ t)))) want
run-answers ids [] all run t h s = tt
run-answers ids (id ∷ want) all run t h s = (
  subst (In id) (sym (answers-Run ids run (missing ids all ++ t) h))
      (elim (Bool-cases (contains ids id)) [
        | inl e ↦ In-append_left ids _ (In-of_contains ids id e)
        | inr e ↦ In-append_right ids _ (missing-answers ids all t id (s id (inl refl)) e)
      ]),
  run-answers ids want all run t h (λ x i. s x (inr i)),
)
  where
    In-append_left : (xs ys : List Bytes) → In id xs → In id (xs ++ ys)
    In-append_left xs ys i = go xs i
      where
        go : (xs : List Bytes) → In id xs → In id (xs ++ ys)
        go [] i = elim i [ ]
        go (x ∷ xs) (inl e) = inl e
        go (x ∷ xs) (inr i) = inr (go xs i)

    In-append_right : (xs ys : List Bytes) → In id ys → In id (xs ++ ys)
    In-append_right [] ys i = i
    In-append_right (x ∷ xs) ys i = inr (In-append_right xs ys i)

-- A run of tool messages with what lies behind it.
unfoldable pub IsRun : List Json → ToolRun → Type 0
IsRun ms r = Run r.answered r.run × (ms ≡ r.run ++ r.rest)

pub tool_run-IsRun : (ms : List Json) (r : ToolRun) → tool_run ms ≡ some r → IsRun ms r
unfolding tool_run IsRun
tool_run-IsRun [] r h = subst (IsRun []) (some_inj h) (tt, refl)
tool_run-IsRun (m ∷ ms) r h = elim (Bool-cases (is_object m)) [
  | inr e ↦ subst (IsRun (m ∷ ms)) (some_inj (rw e at h)) (tt, refl)
  | inl e ↦
      from_role (value_at (ascii "role") m) refl (tool_run ms) (λ r q. tool_run-IsRun ms r q) r
        (rw e at h)
]
  where
    from_id :
        (o : Option Bytes)
        → value_at (ascii "tool_call_id") m ≡ o
        → is_tool m ≡ true
        → (q : Option ToolRun) → ((r : ToolRun) → q ≡ some r → IsRun ms r)
        → (r : ToolRun) → answered_by m o q ≡ some r
        → IsRun (m ∷ ms) r
    from_id none e t q k r h = absurd (cc h)
    from_id (some id) e t none k r h = absurd (cc h)
    from_id (some id) e t (some q) k r h =
        let (run, same) = k q refl in
        subst (IsRun (m ∷ ms)) (some_inj h)
          (((t, value_at-text_or (ascii "tool_call_id") m e), run), ap (◌∷◌ m) same)

    from_role :
        (o : Option Bytes)
        → value_at (ascii "role") m ≡ o
        → (q : Option ToolRun) → ((r : ToolRun) → q ≡ some r → IsRun ms r)
        → (r : ToolRun) → tool_of_role o m ms q ≡ some r
        → IsRun (m ∷ ms) r
    from_role none e q k r h = absurd (cc h)
    from_role (some role) e q k r h = elim (Bool-cases (role == ascii "tool")) [
      | inr other ↦ subst (IsRun (m ∷ ms)) (some_inj (rw other at h)) (tt, refl)
      | inl tool ↦
          from_id (value_at (ascii "tool_call_id") m) refl
            (rw (value_at-text_or (ascii "role") m e) tool) q k r (rw tool at h)
    ]
