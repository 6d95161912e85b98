-- ===== src/Inference/Accumulator/Calls.antt =====
-- The tool calls of a stream, fragment by fragment.
use zen_agent.Common.{
  Bool, false, ◌≡◌, refl, sym, ap, subst, ◌∙◌, List, [], ◌∷◌, ◌++◌, Option, none, some, inl, inr,
  Bool-cases, if◌then◌else◌, append_assoc, append-nil,
}
use zen_agent.Common.Int.{ℤ, int_same, int_equality, int_same_iff}
use zen_agent.Common.Bytes.{Bytes, ascii}
use zen_agent.Common.Json.{Json, is_object, array_at, object_at, string_at}
use zen_agent.Inference.Accumulator.{
  PartialCall, appended, or_kept, update, Accumulator, fragment_index, add_function, add_fragment,
  add_call, add_calls, listed_calls, add_delta, add_choice, add_choices, add_usage, add_model,
  feed_frame, feed_all,
}
use zen_agent.Inference.Accumulator.Update.{
  Calls, IsAscending, call_at, update-IsAscending, get-update,
}

-- The fragments that a frame holds.
abbrev pub listed : Option (List Json) → List Json
listed none = []
listed (some tcs) = tcs

abbrev pub delta_fragments : Option Json → List Json
delta_fragments none = []
delta_fragments (some delta) = listed (array_at (ascii "tool_calls") delta)

abbrev pub choice_fragments : Option (List Json) → List Json
choice_fragments none = []
choice_fragments (some []) = []
choice_fragments (some (choice ∷ others)) =
    if is_object choice then delta_fragments (object_at (ascii "delta") choice) else []

abbrev pub frame_fragments : Option Json → List Json
frame_fragments none = []
frame_fragments (some f) = choice_fragments (array_at (ascii "choices") f)

unfoldable pub fragments : List (Option Json) → List Json
fragments [] = []
fragments (f ∷ fs) = frame_fragments f ++ fragments fs

-- The text that a fragment adds to the arguments.
abbrev pub piece : Json → Bytes
piece tc = elim (object_at (ascii "function") tc) [
  | none ↦ []
  | some fn ↦ elim (string_at (ascii "arguments") fn) [ none ↦ [] | some t ↦ t ]
]

abbrev pub is_of : ℤ → Option ℤ → Bool
is_of i none = false
is_of i (some j) = int_same i j

-- The pieces of one call, joined.
unfoldable pub pieces : ℤ → List Json → Bytes
pieces i [] = []
pieces i (tc ∷ tcs) = (if is_of i (fragment_index tc) then piece tc else []) ++ pieces i tcs

add_function-arguments :
    (o : Option Json) (c : PartialCall)
    → (add_function o c).arguments
      ≡ c.arguments ++ elim o [
        | none ↦ []
        | some fn ↦ elim (string_at (ascii "arguments") fn) [ none ↦ [] | some t ↦ t ]
      ]
unfolding add_function
add_function-arguments none c = sym (append-nil c.arguments)
add_function-arguments (some fn) c = go (string_at (ascii "arguments") fn)
  where
    go :
        (t : Option Bytes)
        → appended c.arguments t ≡ c.arguments ++ elim t [ none ↦ [] | some x ↦ x ]
    go none = sym (append-nil c.arguments)
    go (some x) = refl

-- What one fragment does to the arguments of the call `i`.
add_call-arguments :
    (i : ℤ) (calls : Calls) (tc : Json)
    → IsAscending calls
    → (call_at i (add_call calls tc)).arguments
      ≡ (call_at i calls).arguments ++ (if is_of i (fragment_index tc) then piece tc else [])
unfolding add_call add_fragment
add_call-arguments i calls tc h = go (fragment_index tc)
  where
    go :
        (o : Option ℤ)
        → (call_at i (
            let r : Calls = elim o [ none ↦ calls | some j ↦ update j (add_fragment tc) calls ] in
            r)).arguments
          ≡ (call_at i calls).arguments ++ (if is_of i o then piece tc else [])
    go none = sym (append-nil (call_at i calls).arguments)
    go (some j) =
        ap (λ c. c.arguments) (get-update j i (add_fragment tc) calls h)
        ∙ elim (Bool-cases (int_same i j)) [
          | inl e ↦
              rw (e, (int_same_iff i j).0 e)
                (add_function-arguments (object_at (ascii "function") tc) _)
          | inr e ↦ rw e (sym (append-nil (call_at i calls).arguments))
        ]

add_call-IsAscending :
    (calls : Calls) (tc : Json) → IsAscending calls → IsAscending (add_call calls tc)
unfolding add_call
add_call-IsAscending calls tc h = go (fragment_index tc)
  where
    go :
        (o : Option ℤ)
        → IsAscending (
            let r : Calls = elim o [ none ↦ calls | some j ↦ update j (add_fragment tc) calls ] in
            r)
    go none = h
    go (some j) = update-IsAscending j (add_fragment tc) calls h

add_calls-arguments :
    (i : ℤ) (calls : Calls) (tcs : List Json)
    → IsAscending calls
    → (call_at i (add_calls calls tcs)).arguments ≡ (call_at i calls).arguments ++ pieces i tcs
unfolding add_calls pieces
add_calls-arguments i calls [] h = sym (append-nil (call_at i calls).arguments)
add_calls-arguments i calls (tc ∷ tcs) h =
    add_calls-arguments i (add_call calls tc) tcs (add_call-IsAscending calls tc h)
    ∙ ap (λ x. x ++ pieces i tcs) (add_call-arguments i calls tc h)
    ∙ append_assoc (call_at i calls).arguments _ (pieces i tcs)

add_calls-IsAscending :
    (calls : Calls) (tcs : List Json) → IsAscending calls → IsAscending (add_calls calls tcs)
unfolding add_calls
add_calls-IsAscending calls [] h = h
add_calls-IsAscending calls (tc ∷ tcs) h =
    add_calls-IsAscending (add_call calls tc) tcs (add_call-IsAscending calls tc h)

add_model-calls : (a : Accumulator) (m : Option Bytes) → (add_model a m).calls ≡ a.calls
unfolding add_model
add_model-calls a none = refl
add_model-calls a (some m) = go a.model
  where
    go :
        (k : Bytes)
        → (let r : Accumulator = elim k [ [] ↦ record a { model = m } | c ∷ s ↦ a ] in r).calls
          ≡ a.calls
    go [] = refl
    go (c ∷ s) = refl

add_usage-calls : (a : Accumulator) (u : Option Json) → (add_usage a u).calls ≡ a.calls
unfolding add_usage
add_usage-calls a none = refl
add_usage-calls a (some u) = refl

add_choices-calls :
    (a : Accumulator) (cs : Option (List Json))
    → (add_choices a cs).0.calls ≡ add_calls a.calls (choice_fragments cs)
unfolding add_choices add_choice add_delta add_calls
add_choices-calls a none = refl
add_choices-calls a (some []) = refl
add_choices-calls a (some (choice ∷ others)) = elim (Bool-cases (is_object choice)) [
  | inl e ↦ rw (e, add_choice) (delta (object_at (ascii "delta") choice))
  | inr e ↦ rw (e, add_choice)
]
  where
    delta :
        (o : Option Json)
        → (add_delta
            (record a {
              finish_reason = or_kept a.finish_reason (string_at (ascii "finish_reason") choice);
            })
            o).0.calls
          ≡ add_calls a.calls (delta_fragments o)
    delta none = refl
    delta (some d) = tool_calls (array_at (ascii "tool_calls") d)
      where
        tool_calls :
            (t : Option (List Json)) → listed_calls a.calls t ≡ add_calls a.calls (listed t)
        tool_calls none = refl
        tool_calls (some tcs) = refl

feed_frame-calls :
    (a : Accumulator) (f : Option Json)
    → (feed_frame a f).0.calls ≡ add_calls a.calls (frame_fragments f)
unfolding feed_frame add_calls
feed_frame-calls a none = refl
feed_frame-calls a (some f) =
    add_choices-calls _ (array_at (ascii "choices") f)
    ∙ ap (λ c. add_calls c (choice_fragments (array_at (ascii "choices") f)))
        (add_usage-calls _ (object_at (ascii "usage") f)
          ∙ add_model-calls a (string_at (ascii "model") f))

pieces-append : (i : ℤ) (xs ys : List Json) → pieces i (xs ++ ys) ≡ pieces i xs ++ pieces i ys
unfolding pieces
pieces-append i [] ys = refl
pieces-append i (x ∷ xs) ys =
    ap (λ p. (if is_of i (fragment_index x) then piece x else []) ++ p) (pieces-append i xs ys)
    ∙ sym (
        append_assoc (if is_of i (fragment_index x) then piece x else []) (pieces i xs)
          (pieces i ys))

-- The calls stay in the order of their indices.
pub feed_frame-IsAscending :
    (a : Accumulator) (f : Option Json) → IsAscending a.calls → IsAscending (feed_frame a f).0.calls
feed_frame-IsAscending a f h =
    subst IsAscending (sym (feed_frame-calls a f))
      (add_calls-IsAscending a.calls (frame_fragments f) h)

-- The arguments of the call at an index grow by the pieces for the index that the code takes.
pub feed_all-pieces :
    (a : Accumulator) (fs : List (Option Json)) (i : ℤ)
    → IsAscending a.calls
    → (call_at i (feed_all a fs).0.calls).arguments
      ≡ (call_at i a.calls).arguments ++ pieces i (fragments fs)
unfolding pieces fragments
feed_all-pieces a [] i h = sym (append-nil (call_at i a.calls).arguments)
feed_all-pieces a (f ∷ fs) i h =
    feed_all-pieces (feed_frame a f).0 fs i (feed_frame-IsAscending a f h)
    ∙ ap (λ x. x ++ pieces i (fragments fs))
        (ap (λ c. (call_at i c).arguments) (feed_frame-calls a f)
          ∙ add_calls-arguments i a.calls (frame_fragments f) h)
    ∙ append_assoc (call_at i a.calls).arguments (pieces i (frame_fragments f))
        (pieces i (fragments fs))
    ∙ ap (λ x. (call_at i a.calls).arguments ++ x)
        (sym (pieces-append i (frame_fragments f) (fragments fs)))
