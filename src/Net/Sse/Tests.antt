-- ===== src/Net/Sse/Tests.antt =====
-- Runs of the framer, and the theorems at concrete streams.
use zen_agent.Common.{◌≡◌, refl, true, false, List, [], ◌∷◌, none, arith}
use zen_agent.Common.Bytes.{Bytes, ascii, find, starts_with, split_once}
use zen_agent.Net.Sse.{SseFramer, frame_end, frame_payload, feed, delivered}
use zen_agent.Net.Sse.Split.{feed_all, joined, feed_all-joined, feed-drained}
use zen_agent.Net.Sse.Messages.{IsMessage, stream, last_frame, feed-stream}

abbrev fresh : SseFramer
fresh = record { buf = []; saw_done = false }

-- A comment, two `data:` lines in one frame, and a frame that the end of the line cuts.
two_lines : frame_payload (ascii ": hi\ndata: a\r\nid: 7\ndata:b") ≡ ascii "a\nb"
unfolding frame_payload find starts_with split_once
two_lines = refl

both_forms :
    (feed fresh (ascii "data: x\r\n\r\ndata: y\n\ndata: [DONE]\n\ndata")).1
    ≡ ascii "x" ∷ ascii "y" ∷ []
unfolding feed frame_payload find starts_with split_once frame_end delivered
both_forms = refl

-- The blank line is cut in the middle.
abbrev pieces : List Bytes
pieces = ascii "data: x\r\n" ∷ ascii "\r\ndata: y\n" ∷ ascii "\ndata" ∷ []

feed_all-joined_example : feed_all fresh pieces ≡ feed fresh (joined pieces)
unfolding frame_end find starts_with
feed_all-joined_example = feed_all-joined fresh pieces refl

feed-drained_example : frame_end (feed fresh (ascii "data: x\n\ndata")).0.buf ≡ none
feed-drained_example = feed-drained fresh (ascii "data: x\n\ndata")

delta-IsMessage : IsMessage (ascii "{}")
delta-IsMessage = record {
  plain = (ground arith, (ground arith, tt));
  filled = λ e. cc e;
  no_sentinel = λ e. cc e;
}

feed-stream_example :
    feed fresh (stream (ascii "{}" ∷ ascii "{}" ∷ []) last_frame)
    ≡ (record { buf = []; saw_done = true }, ascii "{}" ∷ ascii "{}" ∷ [])
feed-stream_example =
    feed-stream (ascii "{}" ∷ ascii "{}" ∷ []) (delta-IsMessage, (delta-IsMessage, tt))
