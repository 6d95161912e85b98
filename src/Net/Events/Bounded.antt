-- ===== src/Net/Events/Bounded.antt =====
-- The buffer of `SseEventFramer` and its limit.
use zen_agent.Common.{
  ℕ, zero, suc, ◌+◌, ◌-◌, ◌*◌, ◌%◌, ◌^◌, ◌≤◌, ◌≡◌, refl, sym, ap, ◌∙◌, Bool, true, false, not, ◌||◌,
  ◌&&◌, ◌==◌, bytes_equality, List, [], ◌∷◌, ◌++◌, Option, none, some, is_some, inl, inr, eqb, ltb,
  Bool-cases, Option-cases, if◌then◌else◌, length, take, drop, length-drop, All, arith,
}
use zen_agent.Common.Bytes.{Bytes, ascii, find, split_once}
use zen_agent.Net.Sse.{frame_end}
use zen_agent.Net.Sse.Frames.{frame_end-le}
use zen_agent.Net.Events.{SseEvent, SseEventFramer, limit, exceeded, drain_events, feed_events}

-- What holds of a framer between two calls of `Feed`.
pub record Inv (d : SseEventFramer) : Type 0 where
  pub bounded : length d.buf ≤ limit
  pub drained : frame_end d.buf ≡ none

exceeded-Inv : Inv exceeded.0
unfolding frame_end find zen_agent.Common.Bytes.starts_with
exceeded-Inv = record { bounded = omega arith; drained = refl }

drain_events-Inv : (f : ℕ) (d : SseEventFramer) → length d.buf ≤ f → Inv (drain_events f d).0
unfolding drain_events
drain_events-Inv zero d h = elim (Option-cases (frame_end d.buf)) [
  | inl n ↦ record { bounded = omega arith; drained = n }
  | inr ((e, k), s) ↦ absurd (omega (arith, frame_end-le d.buf e k s))
]
drain_events-Inv (suc f) d h = elim (Option-cases (frame_end d.buf)) [
  | inl n ↦ elim (Bool-cases (ltb limit (length d.buf))) [
    | inl l ↦ rw (n, l, drain_events) exceeded-Inv
    | inr l ↦ rw (n, l, drain_events) (record { bounded = ground (arith, l); drained = n })
  ]
  | inr ((e, k), s) ↦ elim (Bool-cases (ltb limit e)) [
    | inl l ↦ rw (s, l, drain_events) exceeded-Inv
    | inr l ↦
        rw (s, l, drain_events)
          (drain_events-Inv f (record d { buf = drop (e + k) d.buf })
            (omega (arith, frame_end-le d.buf e k s, length-drop (e + k) d.buf)))
  ]
]

-- Between two calls the buffer holds no complete frame and at most 65,536 bytes, whatever the
-- server sends.
pub feed_events-Inv : (d : SseEventFramer) (bytes : Bytes) → Inv d → Inv (feed_events d bytes).0
unfolding feed_events
feed_events-Inv d bytes h = go d.exceeded_limit
  where
    next : SseEventFramer × List SseEvent
    next = drain_events (length (d.buf ++ bytes)) (record d { buf = d.buf ++ bytes })

    go : (x : Bool) → Inv (if x then (d, []) else next).0
    go true = h
    go false =
        drain_events-Inv (length (d.buf ++ bytes)) (record d { buf = d.buf ++ bytes }) (omega arith)
