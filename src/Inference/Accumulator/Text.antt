-- ===== src/Inference/Accumulator/Text.antt =====
-- The text that `StreamAccumulator::Feed` returns and the text that it keeps.
use zen_agent.Common.{
  ◌≡◌, refl, sym, ap, ◌∙◌, List, [], ◌∷◌, ◌++◌, Option, none, some, inl, inr, Bool-cases,
  append_assoc, append-nil,
}
use zen_agent.Common.Bytes.{Bytes, ascii}
use zen_agent.Common.Json.{Json, is_object, array_at, object_at, string_at}
use zen_agent.Inference.Accumulator.{
  Accumulator, appended, delta_text, add_delta, add_choice, add_choices, add_usage, add_model,
  feed_frame, feed_all,
}

add_delta-text :
    (a : Accumulator) (d : Option Json) → (add_delta a d).0.text ≡ a.text ++ (add_delta a d).1
unfolding add_delta
add_delta-text a none = sym (append-nil a.text)
add_delta-text a (some delta) = go (string_at (ascii "content") delta)
  where
    go : (t : Option Bytes) → appended a.text t ≡ a.text ++ delta_text t
    go none = sym (append-nil a.text)
    go (some t) = refl

add_choices-text :
    (a : Accumulator) (cs : Option (List Json))
    → (add_choices a cs).0.text ≡ a.text ++ (add_choices a cs).1
unfolding add_choices add_choice
add_choices-text a none = sym (append-nil a.text)
add_choices-text a (some []) = sym (append-nil a.text)
add_choices-text a (some (choice ∷ others)) = elim (Bool-cases (is_object choice)) [
  | inl e ↦ rw (e, add_choice) (add_delta-text _ (object_at (ascii "delta") choice))
  | inr e ↦ rw (e, add_choice) (sym (append-nil a.text))
]

add_model-text : (a : Accumulator) (m : Option Bytes) → (add_model a m).text ≡ a.text
unfolding add_model
add_model-text a none = refl
add_model-text a (some m) = go a.model
  where
    go :
        (k : Bytes)
        → (let r : Accumulator = elim k [ [] ↦ record a { model = m } | c ∷ s ↦ a ] in r).text
          ≡ a.text
    go [] = refl
    go (c ∷ s) = refl

add_usage-text : (a : Accumulator) (u : Option Json) → (add_usage a u).text ≡ a.text
unfolding add_usage
add_usage-text a none = refl
add_usage-text a (some u) = refl

feed_frame-text :
    (a : Accumulator) (f : Option Json) → (feed_frame a f).0.text ≡ a.text ++ (feed_frame a f).1
unfolding feed_frame
feed_frame-text a none = sym (append-nil a.text)
feed_frame-text a (some f) =
    add_choices-text _ (array_at (ascii "choices") f)
    ∙ ap
        (λ t.
          t
          ++ (add_choices
              (add_usage (add_model a (string_at (ascii "model") f)) (object_at (ascii "usage") f))
              (array_at (ascii "choices") f)).1)
        (add_usage-text _ (object_at (ascii "usage") f)
          ∙ add_model-text a (string_at (ascii "model") f))

-- The text of the final message is the text that it had, followed by all the deltas that were
-- returned while the frames were fed, in their order: what was streamed is what is kept.
pub feed_all-text :
    (a : Accumulator) (fs : List (Option Json))
    → (feed_all a fs).0.text ≡ a.text ++ (feed_all a fs).1
feed_all-text a [] = sym (append-nil a.text)
feed_all-text a (f ∷ fs) =
    feed_all-text (feed_frame a f).0 fs
    ∙ ap (λ t. t ++ (feed_all (feed_frame a f).0 fs).1) (feed_frame-text a f)
    ∙ append_assoc a.text (feed_frame a f).1 (feed_all (feed_frame a f).0 fs).1
