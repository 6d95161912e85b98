-- ===== src/Net/Events/Retry.antt =====
-- The `retry:` fields of `SseEventFramer`.
use zen_agent.Common.{
  ℕ, zero, suc, ◌+◌, ◌-◌, ◌*◌, ◌%◌, ◌^◌, ◌≤◌, Bool, true, false, not, ◌||◌, ◌&&◌, ◌==◌,
  bytes_equality, List, [], ◌∷◌, ◌++◌, Option, none, some, is_some, inl, inr, eqb, ltb, Bool-cases,
  Option-cases, if◌then◌else◌, length, take, drop, All, arith,
}
use zen_agent.Common.Bytes.{Bytes, ascii, find, split_once}
use zen_agent.Net.Sse.{lf, frame_end, without_cr, without_space}
use zen_agent.Net.Events.{
  SseEvent, SseEventFramer, limit, frame_events, drain_events, feed_events, Building, blank,
  retry_from, set_retry, add_data, set_field, set_line, set_lines,
}

-- A retry time of less than 3,000,010 milliseconds, which 32 bits hold.
abbrev pub InRange : Option ℕ → Type 0
InRange none = Unit
InRange (some n) = n ≤ 3000009

abbrev pub IsTimely : SseEvent → Type 0
IsTimely e = InRange e.retry_ms

retry_from-InRange : (n : ℕ) (s : Bytes) → n ≤ 3000009 → InRange (retry_from n s)
unfolding retry_from
retry_from-InRange n [] h = h
retry_from-InRange n (c ∷ s) h = elim (Bool-cases (ltb c b'0' || ltb b'9' c || ltb 300000 n)) [
  | inl e ↦ rw (e, retry_from) tt
  | inr e ↦
      rw (e, retry_from) (retry_from-InRange ((n * 10 + (c - b'0')) % 2 ^ 32) s (ground (arith, e)))
]

set_retry-IsTimely :
    (e : SseEvent) (o : Option ℕ) → IsTimely e → InRange o → IsTimely (set_retry e o)
unfolding set_retry
set_retry-IsTimely e none h k = h
set_retry-IsTimely e (some n) h k = k

set_field-IsTimely :
    (b : Building) (name value : Bytes) → IsTimely b.event → IsTimely (set_field b name value).event
unfolding set_field add_data
set_field-IsTimely b name value h =
    go (name == ascii "data") (name == ascii "id" && not (is_some (find value (0 ∷ []))))
      (name == ascii "event") (name == ascii "retry" && not (value == []))
  where
    changed : Building
    changed = record b { event = set_retry b.event (retry_from 0 value) }

    go :
        (is_data is_id is_event is_retry : Bool)
        → IsTimely
            (if is_data
              then add_data b value
              else if is_id
              then record b { event = record (b.event) { id = some value } }
              else if is_event
              then record b { event = record (b.event) { event = value } }
              else if is_retry
              then changed
              else b).event
    go true x y z = h
    go false true y z = h
    go false false true z = h
    go false false false true =
        set_retry-IsTimely b.event (retry_from 0 value) h (retry_from-InRange 0 value (omega arith))
    go false false false false = h

set_line-IsTimely :
    (b : Building) (line : Bytes) → IsTimely b.event → IsTimely (set_line b line).event
unfolding set_line
set_line-IsTimely b [] h = h
set_line-IsTimely b (c ∷ s) h =
    let halves = split_once (c ∷ s) (ascii ":") in
    go (set_field b halves.0 (without_space halves.1)) (eqb c b':')
      (set_field-IsTimely b halves.0 (without_space halves.1) h)
  where
    go : (y : Building) (x : Bool) → IsTimely y.event → IsTimely (if x then b else y).event
    go y true k = h
    go y false k = k

set_lines-IsTimely :
    (f : ℕ) (b : Building) (frame : Bytes) → IsTimely b.event → IsTimely (set_lines f b frame).event
unfolding set_lines
set_lines-IsTimely zero b frame h = h
set_lines-IsTimely (suc f) b [] h = h
set_lines-IsTimely (suc f) b (c ∷ s) h =
    let halves = split_once (c ∷ s) lf in
    let line = without_cr halves.0 in
    set_lines-IsTimely f (set_line b line) halves.1 (set_line-IsTimely b line h)

frame_events-IsTimely : (frame : Bytes) → All IsTimely (frame_events frame)
unfolding frame_events
frame_events-IsTimely frame =
    let b = set_lines (length frame) blank frame in
    go (b.has_data || is_some b.event.id || is_some b.event.retry_ms) b.event
      (set_lines-IsTimely (length frame) blank frame tt)
  where
    go : (c : Bool) (e : SseEvent) → IsTimely e → All IsTimely (if c then e ∷ [] else [])
    go true e h = (h, tt)
    go false e h = tt

All-append : (xs ys : List SseEvent) → All IsTimely xs → All IsTimely ys → All IsTimely (xs ++ ys)
All-append [] ys h k = k
All-append (x ∷ xs) ys h k = (h.0, All-append xs ys h.1 k)

drain_events-IsTimely : (f : ℕ) (d : SseEventFramer) → All IsTimely (drain_events f d).1
unfolding drain_events
drain_events-IsTimely zero d = tt
drain_events-IsTimely (suc f) d = elim (Option-cases (frame_end d.buf)) [
  | inl n ↦ elim (Bool-cases (ltb limit (length d.buf))) [
    | inl l ↦ rw (n, l, drain_events) tt
    | inr l ↦ rw (n, l, drain_events) tt
  ]
  | inr ((e, k), s) ↦ elim (Bool-cases (ltb limit e)) [
    | inl l ↦ rw (s, l, drain_events) tt
    | inr l ↦
        rw (s, l, drain_events)
          (All-append (frame_events (take e d.buf)) _ (frame_events-IsTimely (take e d.buf))
            (drain_events-IsTimely f (record d { buf = drop (e + k) d.buf })))
  ]
]

-- Every event that `Feed` gives has a retry time of at most 3,000,009 milliseconds, or none, however
-- many digits the server writes.
pub feed_events-IsTimely :
    (d : SseEventFramer) (bytes : Bytes) → All IsTimely (feed_events d bytes).1
unfolding feed_events
feed_events-IsTimely d bytes = go d.exceeded_limit
  where
    next : SseEventFramer × List SseEvent
    next = drain_events (length (d.buf ++ bytes)) (record d { buf = d.buf ++ bytes })

    go : (x : Bool) → All IsTimely (if x then (d, []) else next).1
    go true = tt
    go false = drain_events-IsTimely (length (d.buf ++ bytes)) (record d { buf = d.buf ++ bytes })
