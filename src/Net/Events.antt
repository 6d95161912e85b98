-- ===== src/Net/Events.antt =====
-- agentflow/net/http_parse.h and http_parse.cc: `SseEvent` and `SseEventFramer`.
-- The field `data` is named `payload`. The loops have the length of the text they consume as fuel, as in Net.Sse.
pub mod Bounded
pub mod Retry
mod Tests
use zen_agent.Common.{
  ℕ, zero, suc, ◌+◌, ◌-◌, ◌*◌, ◌%◌, ◌^◌, Bool, true, false, not, ◌||◌, ◌&&◌, ◌==◌, bytes_equality,
  List, [], ◌∷◌, ◌++◌, Option, none, some, is_some, eqb, ltb, if◌then◌else◌, length, take, drop,
}
use zen_agent.Common.Bytes.{Bytes, ascii, find, split_once}
use zen_agent.Net.Sse.{lf, without_cr, without_space, frame_end}

pub record SseEvent : Type 0 where
  pub payload : Bytes
  pub id : Option Bytes
  pub event : Bytes
  pub retry_ms : Option ℕ

pub record SseEventFramer : Type 0 where
  pub buf : Bytes
  pub exceeded_limit : Bool

-- The event that the lines of a frame fill in, with the flag `has_data`.
pub record Building : Type 0 where
  pub event : SseEvent
  pub has_data : Bool

abbrev pub blank : Building
blank = record {
  event = record { payload = []; id = none; event = []; retry_ms = none };
  has_data = false;
}

-- The loop over the digits of a `retry:` value, in a 32-bit `unsigned`.
unfoldable pub retry_from : ℕ → Bytes → Option ℕ
retry_from retry [] = some retry
retry_from retry (c ∷ s) =
    let rest = retry_from ((retry * 10 + (c - b'0')) % 2 ^ 32) s in
    if ltb c b'0' || ltb b'9' c || ltb 300000 retry then none else rest

unfoldable pub set_retry : SseEvent → Option ℕ → SseEvent
set_retry e none = e
set_retry e (some n) = record e { retry_ms = some n }

unfoldable pub add_data : Building → Bytes → Building
add_data b value = record b {
  event = record (b.event) {
    payload = if b.has_data then b.event.payload ++ b'\n' ∷ value else b.event.payload ++ value;
  };
  has_data = true;
}

-- A field, its value without the leading space.
unfoldable pub set_field : Building → Bytes → Bytes → Building
unfolding retry_from set_retry add_data
set_field b name value =
    if name == ascii "data"
    then add_data b value
    else if name == ascii "id" && not (is_some (find value (0 ∷ [])))
    then record b { event = record (b.event) { id = some value } }
    else if name == ascii "event"
    then record b { event = record (b.event) { event = value } }
    else if name == ascii "retry" && not (value == [])
    then record b { event = set_retry b.event (retry_from 0 value) }
    else b

unfoldable pub set_line : Building → Bytes → Building
unfolding set_field
set_line b [] = b
set_line b (c ∷ s) =
    if eqb c b':'
    then b
    else let halves = split_once (c ∷ s) (ascii ":") in
      set_field b halves.0 (without_space halves.1)

unfoldable pub set_lines : ℕ → Building → Bytes → Building
unfolding set_line
set_lines zero b frame = b
set_lines (suc f) b [] = b
set_lines (suc f) b (c ∷ s) =
    let halves = split_once (c ∷ s) lf in set_lines f (set_line b (without_cr halves.0)) halves.1

-- The event of a frame, if it says anything.
unfoldable pub frame_events : Bytes → List SseEvent
unfolding set_lines
frame_events frame =
    let b = set_lines (length frame) blank frame in
    if b.has_data || is_some b.event.id || is_some b.event.retry_ms then b.event ∷ [] else []

abbrev pub limit : ℕ
limit = 65536

-- The buffer is given up.
abbrev pub exceeded : SseEventFramer × List SseEvent
exceeded = (record { buf = []; exceeded_limit = true }, [])

unfoldable pub drain_events : ℕ → SseEventFramer → SseEventFramer × List SseEvent
unfolding frame_events
drain_events zero d = (d, [])
drain_events (suc f) d = elim (frame_end d.buf) [
  | none ↦ if ltb limit (length d.buf) then exceeded else (d, [])
  | some (e, sep) ↦
      let rest = drain_events f (record d { buf = drop (e + sep) d.buf }) in
      if ltb limit e then exceeded else (rest.0, frame_events (take e d.buf) ++ rest.1)
]

unfoldable pub feed_events : SseEventFramer → Bytes → SseEventFramer × List SseEvent
unfolding drain_events
feed_events d bytes =
    if d.exceeded_limit
    then (d, [])
    else drain_events (length (d.buf ++ bytes)) (record d { buf = d.buf ++ bytes })
