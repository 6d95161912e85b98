-- ===== src/Net/Events/Tests.antt =====
-- Runs of the event framer, and the theorems at concrete streams.
use zen_agent.Common.{◌≡◌, refl, false, [], ◌∷◌, some, arith}
use zen_agent.Common.Bytes.{Bytes, ascii, find, starts_with, split_once}
use zen_agent.Net.Sse.{frame_end, without_cr, without_space}
use zen_agent.Net.Events.{SseEventFramer, frame_events, feed_events}
use zen_agent.Net.Events.Bounded.{Inv, feed_events-Inv}

abbrev fresh : SseEventFramer
fresh = record { buf = []; exceeded_limit = false }

abbrev notice : Bytes
notice = ascii "id: 7\r\nevent:ping\r\ndata: a\r\ndata: b\r\nretry: 250\r\n\r\nda"

one_event : feed_events fresh notice ≡ (
  record { buf = ascii "da"; exceeded_limit = false },
  (record {
    payload = ascii "a\nb";
    id = some (ascii "7");
    event = ascii "ping";
    retry_ms = some 250;
  })
      ∷ [],
)
unfolding feed_events frame_events frame_end without_cr without_space find starts_with split_once
one_event = refl

-- A retry time with too many digits is ignored.
long_retry : frame_events (ascii "retry: 99999999999") ≡ []
unfolding frame_events without_cr without_space find starts_with split_once
long_retry = refl

fresh-Inv : Inv fresh
unfolding frame_end find starts_with
fresh-Inv = record { bounded = omega arith; drained = refl }

feed_events-Inv_example : Inv (feed_events fresh notice).0
feed_events-Inv_example = feed_events-Inv fresh notice fresh-Inv
