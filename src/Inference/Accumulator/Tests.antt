-- ===== src/Inference/Accumulator/Tests.antt =====
-- Runs of the accumulator, and the theorems at a concrete stream.
use zen_agent.Common.{All, ℕ, ◌^◌, ◌≡◌, refl, List, [], ◌∷◌, ◌++◌, Option, none, some, arith}
use zen_agent.Common.Int.{pos}
use zen_agent.Common.Bytes.{Bytes, ascii}
use zen_agent.Common.Assoc.{get}
use zen_agent.Common.Json.{Json, integer, str, arr, obj, nil, cons, end, field}
use zen_agent.Inference.Accumulator.{openai, Accumulator, feed_all, feed_frame, fragment_index}
use zen_agent.Inference.Accumulator.Update.{call_at}
use zen_agent.Inference.Accumulator.Calls.{fragments}
use zen_agent.Inference.Accumulator.Named.{IsInt, named_index, named_pieces, feed_all-arguments}
use zen_agent.Inference.Accumulator.Tokens.{IsCounted, feed_all-IsCounted}

abbrev start : Accumulator
start = record {
  provider = openai;
  text = [];
  finish_reason = [];
  reasoning = [];
  calls = [];
  input_tokens = 0;
  output_tokens = 0;
  model = [];
}

abbrev fragment : ℕ → Bytes → Json
fragment i t = obj (
    field (ascii "index") (integer (pos i))
      (field (ascii "function") (obj (field (ascii "arguments") (str t) end)) end))

abbrev frame_of : Json → Option Json
frame_of delta =
    some
      (obj (field (ascii "choices") (arr (cons (obj (field (ascii "delta") delta end)) nil)) end))

abbrev calls_of : Json → Option Json
calls_of tc = frame_of (obj (field (ascii "tool_calls") (arr (cons tc nil)) end))

-- The pieces of two calls, interleaved, and a text delta between them.
abbrev frames : List (Option Json)
frames =
    calls_of (fragment 1 (ascii "{"))
    ∷ calls_of (fragment 0 (ascii "["))
    ∷ frame_of (obj (field (ascii "content") (str (ascii "hi")) end))
    ∷ none
    ∷ calls_of (fragment 1 (ascii "}"))
    ∷ calls_of (fragment 0 (ascii "]"))
    ∷ []

-- The indices of the stream, which fit.
frames-IsInt : All (λ tc. IsInt (named_index tc)) (fragments frames)
unfolding fragments
frames-IsInt = (omega arith, (omega arith, (omega arith, (omega arith, tt))))

feed_all-arguments_example :
    (call_at (pos 1) (feed_all start frames).0.calls).arguments
    ≡ (call_at (pos 1) []).arguments ++ named_pieces (pos 1) (fragments frames)
feed_all-arguments_example = feed_all-arguments start frames (pos 1) tt frames-IsInt

second_call : (call_at (pos 1) (feed_all start frames).0.calls).arguments ≡ ascii "{}"
unfolding feed_frame get
second_call = refl

feed_all-IsCounted_example : IsCounted (feed_all start frames).0
feed_all-IsCounted_example =
    feed_all-IsCounted start frames (record { input = omega arith; output = omega arith })

-- An index beyond 32 bits is taken for another call's.
wrapped_index : fragment_index (fragment (2 ^ 32) (ascii "x")) ≡ some (pos 0)
unfolding fragment_index
wrapped_index = refl
