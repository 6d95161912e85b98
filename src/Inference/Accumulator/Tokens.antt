-- ===== src/Inference/Accumulator/Tokens.antt =====
-- The token counts and the range of `long long`.
use zen_agent.Common.{
  ℕ, ◌-◌, ◌≤◌, List, [], ◌∷◌, Option, none, some, inl, inr, Bool-cases, if◌then◌else◌, ltb, leb,
  arith,
}
use zen_agent.Common.Int.{ℤ, pos, negsuc}
use zen_agent.Common.Bytes.{Bytes, ascii}
use zen_agent.Common.Json.{Json, is_object, at, integer_of, array_at, object_at, string_at}
use zen_agent.Inference.Accumulator.{
  UsageProvider, openai, google, deepseek, long_max, token_count, with_thinking, thinking_of,
  counted, output_token_count, Accumulator, tokens_or, add_delta, add_choice, add_choices,
  add_usage, add_model, feed_frame, feed_all,
}

abbrev AtMost : ℕ → Option ℕ → Type 0
AtMost m none = Unit
AtMost m (some n) = n ≤ m

token_count-AtMost : (o : Option Json) → AtMost long_max (token_count o)
unfolding token_count
token_count-AtMost none = tt
token_count-AtMost (some v) = go (integer_of v)
  where
    go :
        (n : Option ℤ)
        → AtMost long_max (elim n [
          | none ↦ none
          | some (negsuc k) ↦ none
          | some (pos k) ↦ if leb k long_max then some k else none
        ])
    go none = tt
    go (some (negsuc k)) = tt
    go (some (pos k)) = elim (Bool-cases (leb k long_max)) [
      | inl e ↦ rw e (ground (arith, e))
      | inr e ↦ rw e tt
    ]

-- The sum with the thinking tokens is taken only where it fits.
with_thinking-le :
    (completion : ℕ) (t : Option ℕ) → completion ≤ long_max → with_thinking completion t ≤ long_max
unfolding with_thinking
with_thinking-le completion none h = h
with_thinking-le completion (some thinking) h =
    elim (Bool-cases (ltb (long_max - completion) thinking)) [
      | inl e ↦ rw (e, with_thinking) h
      | inr e ↦ rw (e, with_thinking) (ground (arith, e, h))
    ]

counted-le :
    (usage : Json) (p : UsageProvider) (n : ℕ) → n ≤ long_max → counted usage p n ≤ long_max
unfolding counted
counted-le usage google n h = with_thinking-le n (thinking_of usage) h
counted-le usage deepseek n h = h
counted-le usage openai n h = h

output_token_count-AtMost :
    (usage : Json) (p : UsageProvider) → AtMost long_max (output_token_count usage p)
unfolding output_token_count
output_token_count-AtMost usage p =
    go (token_count (at (ascii "completion_tokens") usage))
      (token_count-AtMost (at (ascii "completion_tokens") usage))
  where
    go :
        (n : Option ℕ)
        → AtMost long_max n
        → AtMost long_max (elim n [ none ↦ none | some k ↦ some (counted usage p k) ])
    go none h = tt
    go (some k) h = counted-le usage p k h

-- Both counts fit `long long`.
pub record IsCounted (a : Accumulator) : Type 0 where
  pub input : a.input_tokens ≤ long_max
  pub output : a.output_tokens ≤ long_max

tokens_or-le :
    (old : ℕ) (o : Option ℕ) → old ≤ long_max → AtMost long_max o → tokens_or old o ≤ long_max
tokens_or-le old none h k = h
tokens_or-le old (some n) h k = k

add_usage-IsCounted : (a : Accumulator) (u : Option Json) → IsCounted a → IsCounted (add_usage a u)
unfolding add_usage
add_usage-IsCounted a none h = h
add_usage-IsCounted a (some u) h = record {
  input =
      tokens_or-le a.input_tokens (token_count (at (ascii "prompt_tokens") u)) h.input
        (token_count-AtMost (at (ascii "prompt_tokens") u));
  output =
      tokens_or-le a.output_tokens (output_token_count u a.provider) h.output
        (output_token_count-AtMost u a.provider);
}

add_model-IsCounted : (a : Accumulator) (m : Option Bytes) → IsCounted a → IsCounted (add_model a m)
unfolding add_model
add_model-IsCounted a none h = h
add_model-IsCounted a (some m) h = go a.model
  where
    go :
        (k : Bytes)
        → IsCounted (let r : Accumulator = elim k [ [] ↦ record a { model = m } | c ∷ s ↦ a ] in r)
    go [] = record { input = h.input; output = h.output }
    go (c ∷ s) = h

add_delta-IsCounted :
    (a : Accumulator) (d : Option Json) → IsCounted a → IsCounted (add_delta a d).0
unfolding add_delta
add_delta-IsCounted a none h = h
add_delta-IsCounted a (some d) h = record { input = h.input; output = h.output }

add_choices-IsCounted :
    (a : Accumulator) (cs : Option (List Json)) → IsCounted a → IsCounted (add_choices a cs).0
unfolding add_choices add_choice
add_choices-IsCounted a none h = h
add_choices-IsCounted a (some []) h = h
add_choices-IsCounted a (some (choice ∷ others)) h = elim (Bool-cases (is_object choice)) [
  | inl e ↦
      rw (e, add_choice)
        (add_delta-IsCounted _ (object_at (ascii "delta") choice)
          (record { input = h.input; output = h.output }))
  | inr e ↦ rw (e, add_choice) h
]

feed_frame-IsCounted :
    (a : Accumulator) (f : Option Json) → IsCounted a → IsCounted (feed_frame a f).0
unfolding feed_frame
feed_frame-IsCounted a none h = h
feed_frame-IsCounted a (some f) h = add_choices-IsCounted _ (array_at (ascii "choices") f) (
    add_usage-IsCounted _ (object_at (ascii "usage") f)
      (add_model-IsCounted a (string_at (ascii "model") f) h))

-- The token counts stay within the range of `long long`, whatever numbers the frames hold and
-- whichever provider counts them.
pub feed_all-IsCounted :
    (a : Accumulator) (fs : List (Option Json)) → IsCounted a → IsCounted (feed_all a fs).0
feed_all-IsCounted a [] h = h
feed_all-IsCounted a (f ∷ fs) h =
    feed_all-IsCounted (feed_frame a f).0 fs (feed_frame-IsCounted a f h)
