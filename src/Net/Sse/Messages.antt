-- ===== src/Net/Sse/Messages.antt =====
-- A well-formed stream: every payload in a `data:` line of its own frame.
use zen_agent.Common.{
  or_false, ℕ, zero, suc, ◌+◌, ◌≤◌, ◌≡◌, ◌≢◌, refl, ap, ◌∙◌, true, false, inl, inr, List, [], ◌∷◌,
  ◌++◌, Bool-cases, length, take, drop, arith, All, bytes_equality, ◌==◌, ◌||◌, Bool, drop-add,
  append-nil, take-length, drop-length, length-append,
}
use zen_agent.Common.Bytes.{Bytes, find, starts_with, split_once}
use zen_agent.Net.Sse.{
  without_cr, add_line, payload_from, frame_payload, frame_end, done_payload, delivered, drain,
  feed, flush,
}
use zen_agent.Net.Sse.Split.{prepend, drain-some, drain_enough, drain-none}
use zen_agent.Net.Sse.Frame.{
  IsPlain, frame_of, frame_of-IsPlain, frame_end-plain, frame_end-none, frame_payload-frame_of,
}

-- One round of `Feed` on a buffer that starts with the frame of `m`.
drain-frame_of :
    (f : ℕ) (b : Bool) (m t : Bytes)
    → IsPlain m
    → drain (suc f) (record { buf = frame_of m ++ b'\n' ∷ b'\n' ∷ t; saw_done = b })
      ≡ prepend (delivered m) (drain f (record { buf = t; saw_done = b || m == done_payload }))
drain-frame_of f b m t h =
    let n = length (frame_of m) in
    let s = frame_of m ++ b'\n' ∷ b'\n' ∷ t in
    let left : drop (n + 2) s ≡ t =
      drop-add n 2 s ∙ ap (drop 2) (drop-length (frame_of m) (b'\n' ∷ b'\n' ∷ t)) in
    let payload : frame_payload (take n s) ≡ m =
      ap frame_payload (take-length (frame_of m) (b'\n' ∷ b'\n' ∷ t))
      ∙ frame_payload-frame_of m h in
    drain-some f (record { buf = s; saw_done = b }) (n, 2)
      (frame_end-plain (frame_of m) t (frame_of-IsPlain m h))
    ∙ λ i.
        prepend (delivered (payload i))
          (drain f (record { buf = left i; saw_done = b || payload i == done_payload }))

-- The frames of the payloads `ms`, and `t` behind them.
pub stream : List Bytes → Bytes → Bytes
stream [] t = t
stream (m ∷ ms) t = frame_of m ++ b'\n' ∷ b'\n' ∷ stream ms t

-- A payload that `Feed` delivers: of one line, not empty and not the sentinel.
pub record IsMessage (m : Bytes) : Type 0 where
  pub plain : IsPlain m
  pub filled : m ≢ []
  pub no_sentinel : m ≢ done_payload

IsMessage-delivered :
    (m : Bytes) → IsMessage m → (delivered m ≡ m ∷ []) × ((m == done_payload) ≡ false)
unfolding delivered
IsMessage-delivered [] h = absurd (h.filled refl)
IsMessage-delivered (c ∷ s) h = elim (Bool-cases ((c ∷ s) == done_payload)) [
  | inl e ↦ absurd (h.no_sentinel ((bytes_equality.same_iff (c ∷ s) done_payload).0 e))
  | inr e ↦ (rw (e, delivered) refl, e)
]

drain-stream :
    (f : ℕ) (b : Bool) (ms : List Bytes) (t : Bytes)
    → All IsMessage ms
    → length (stream ms t) ≤ f
    → drain f (record { buf = stream ms t; saw_done = b })
      ≡ prepend ms (feed (record { buf = []; saw_done = b }) t)
unfolding stream feed
drain-stream f b [] t h l =
    drain_enough f (length t) (record { buf = t; saw_done = b }) l (omega arith)
drain-stream zero b (m ∷ ms) t h l = elim l [ ]
drain-stream (suc f) b (m ∷ ms) t h l =
    let (is_item, no_flag) = IsMessage-delivered m h.0 in
    drain-frame_of f b m (stream ms t) h.0.plain
    ∙ (λ i. prepend (is_item i) (drain f (record { buf = stream ms t; saw_done = b || no_flag i })))
    ∙ ap (λ (c : Bool). prepend (m ∷ []) (drain f (record { buf = stream ms t; saw_done = c })))
        (or_false b)
    ∙ ap (prepend (m ∷ [])) (
        drain-stream f b ms t h.1
          (omega (arith, l, length-append (frame_of m) (b'\n' ∷ b'\n' ∷ stream ms t))))

-- The frame of the sentinel, with its blank line.
abbrev pub last_frame : Bytes
last_frame = frame_of done_payload ++ b'\n' ∷ b'\n' ∷ []

feed-last_frame :
    feed (record { buf = []; saw_done = false }) last_frame
    ≡ (record { buf = []; saw_done = true }, [])
unfolding feed drain find starts_with frame_payload payload_from split_once add_line frame_end
    without_cr delivered
feed-last_frame = refl

-- A stream of messages that the sentinel ends is delivered message by message, in order; the
-- sentinel is reported by the flag, and nothing stays in the buffer.
pub feed-stream :
    (ms : List Bytes)
    → All IsMessage ms
    → feed (record { buf = []; saw_done = false }) (stream ms last_frame)
      ≡ (record { buf = []; saw_done = true }, ms)
unfolding feed
feed-stream ms h =
    drain-stream (length (stream ms last_frame)) false ms last_frame h (omega arith)
    ∙ ap (prepend ms) feed-last_frame
    ∙ ap (λ x. (record { buf = []; saw_done = true }, x)) (append-nil ms)

flush-frame_of :
    (b : Bool) (m : Bytes)
    → IsMessage m
    → flush (record { buf = frame_of m; saw_done = b })
      ≡ (record { buf = []; saw_done = b }, m ∷ [])
unfolding flush
flush-frame_of b m h =
    let (is_item, no_flag) = IsMessage-delivered m h in
    let payload = frame_payload-frame_of m h.plain in
    (λ i. (record { buf = []; saw_done = b || payload i == done_payload }, delivered (payload i)))
    ∙ (λ i. (record { buf = []; saw_done = b || no_flag i }, is_item i))
    ∙ ap (λ (c : Bool). (record { buf = []; saw_done = c }, m ∷ [])) (or_false b)

-- When the stream ends in a message without its blank line, `Feed` keeps that message back and
-- delivers the others, and `Flush` then delivers it and empties the buffer.
pub flush-stream :
    (ms : List Bytes) (m : Bytes)
    → All IsMessage ms
    → IsMessage m
    → let (d, o) = feed (record { buf = []; saw_done = false }) (stream ms (frame_of m)) in
      (o ≡ ms) × (flush d ≡ (record { buf = []; saw_done = false }, m ∷ []))
unfolding feed
flush-stream ms m h k =
    let kept =
      drain-stream (length (stream ms (frame_of m))) false ms (frame_of m) h (omega arith)
      ∙ ap (prepend ms) (
          drain-none (length (frame_of m)) (record { buf = frame_of m; saw_done = false })
            (frame_end-none (frame_of m) (frame_of-IsPlain m k.plain)))
      ∙ ap (λ x. (record { buf = frame_of m; saw_done = false }, x)) (append-nil ms) in
    (ap (λ r. r.1) kept, ap (λ r. flush r.0) kept ∙ flush-frame_of false m k)
