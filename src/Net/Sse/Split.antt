-- ===== src/Net/Sse/Split.antt =====
-- `SseFramer::Feed` on a stream in pieces.
use zen_agent.Common.{
  ℕ, zero, suc, ◌+◌, ◌≤◌, ◌≡◌, refl, sym, ap, ◌∙◌, ◌||◌, ◌==◌, bytes_equality, inl, inr, List, [],
  ◌∷◌, ◌++◌, none, some, Option-cases, length, take, drop, arith, append_assoc, length-append,
  length-drop, drop-append_left, take-append_left, append-nil,
}
use zen_agent.Common.Bytes.{Bytes}
use zen_agent.Net.Sse.{SseFramer, frame_payload, frame_end, done_payload, delivered, drain, feed}
use zen_agent.Net.Sse.Frames.{frame_end-le, frame_end-append}

-- The framer behind a frame that ends at `e`.
abbrev pub behind : SseFramer → ℕ × ℕ → SseFramer
behind d (e, n) = record d {
  buf = drop (e + n) d.buf;
  saw_done = d.saw_done || frame_payload (take e d.buf) == done_payload;
}

abbrev pub item : SseFramer → ℕ × ℕ → List Bytes
item d (e, n) = delivered (frame_payload (take e d.buf))

abbrev pub prepend : List Bytes → SseFramer × List Bytes → SseFramer × List Bytes
prepend o (d, x) = (d, o ++ x)

abbrev more : SseFramer → Bytes → SseFramer
more d b = record d { buf = d.buf ++ b }

pub drain-none : (f : ℕ) (d : SseFramer) → frame_end d.buf ≡ none → drain f d ≡ (d, [])
unfolding drain
drain-none zero d h = refl
drain-none (suc f) d h = rw (h, drain) refl

pub drain-some :
    (f : ℕ) (d : SseFramer) (r : ℕ × ℕ)
    → frame_end d.buf ≡ some r
    → drain (suc f) d ≡ prepend (item d r) (drain f (behind d r))
unfolding drain
drain-some f d (e, n) h = rw (h, drain) refl

-- A frame takes two bytes of the buffer at least.
behind-shorter :
    (d : SseFramer) (r : ℕ × ℕ)
    → frame_end d.buf ≡ some r
    → suc (suc (length (behind d r).buf)) ≤ length d.buf
behind-shorter d (e, n) h =
    let (fits, two) = frame_end-le d.buf e n h in
    omega (arith, fits, two, length-drop (e + n) d.buf)

behind-more :
    (d : SseFramer) (b : Bytes) (r : ℕ × ℕ)
    → frame_end d.buf ≡ some r
    → (behind (more d b) r ≡ more (behind d r) b) × (item (more d b) r ≡ item d r)
behind-more d b (e, n) h =
    let (fits, two) = frame_end-le d.buf e n h in
    let left : drop (e + n) (d.buf ++ b) ≡ drop (e + n) d.buf ++ b =
      drop-append_left (e + n) d.buf b fits in
    let frame : take e (d.buf ++ b) ≡ take e d.buf =
      take-append_left e d.buf b (omega (arith, fits)) in
    (
      (λ i. record d {
        buf = left i;
        saw_done = d.saw_done || frame_payload (frame i) == done_payload;
      }),
      ap (λ x. delivered (frame_payload x)) frame,
    )

-- Any two fuels of the buffer's length at least give the same.
pub drain_enough :
    (f g : ℕ) (d : SseFramer) → length d.buf ≤ f → length d.buf ≤ g → drain f d ≡ drain g d
drain_enough zero zero d h k = refl
drain_enough zero (suc g) d h k = elim (Option-cases (frame_end d.buf)) [
  | inl n ↦ drain-none zero d n ∙ sym (drain-none (suc g) d n)
  | inr (r, e) ↦ absurd (omega (arith, behind-shorter d r e))
]
drain_enough (suc f) zero d h k = elim (Option-cases (frame_end d.buf)) [
  | inl n ↦ drain-none (suc f) d n ∙ sym (drain-none zero d n)
  | inr (r, e) ↦ absurd (omega (arith, behind-shorter d r e))
]
drain_enough (suc f) (suc g) d h k = elim (Option-cases (frame_end d.buf)) [
  | inl n ↦ drain-none (suc f) d n ∙ sym (drain-none (suc g) d n)
  | inr (r, e) ↦
      drain-some f d r e
      ∙ ap (prepend (item d r)) (
          drain_enough f g (behind d r) (omega (arith, behind-shorter d r e))
            (omega (arith, behind-shorter d r e)))
      ∙ sym (drain-some g d r e)
]

-- A second call of `Feed`.
abbrev pub then_feed : SseFramer × List Bytes → Bytes → SseFramer × List Bytes
then_feed (d, o) b = prepend o (feed d b)

then_feed-prepend :
    (o : List Bytes) (r : SseFramer × List Bytes) (b : Bytes)
    → prepend o (then_feed r b) ≡ then_feed (prepend o r) b
then_feed-prepend o (d, x) b = ap (λ y. ((feed d b).0, y)) (sym (append_assoc o x (feed d b).1))

-- Without a complete frame the buffer only grows.
drain-more-none :
    (f g : ℕ) (d : SseFramer) (b : Bytes)
    → length (d.buf ++ b) ≤ g
    → frame_end d.buf ≡ none
    → drain g (more d b) ≡ then_feed (drain f d) b
unfolding feed
drain-more-none f g d b k n =
    drain_enough g (length (d.buf ++ b)) (more d b) k (omega arith)
    ∙ ap (λ r. then_feed r b) (sym (drain-none f d n))

-- Draining a buffer with `b` behind it is draining the buffer, and then feeding `b`.
drain-more :
    (f g : ℕ) (d : SseFramer) (b : Bytes)
    → length d.buf ≤ f
    → length (d.buf ++ b) ≤ g
    → drain g (more d b) ≡ then_feed (drain f d) b
drain-more zero g d b h k = elim (Option-cases (frame_end d.buf)) [
  | inl n ↦ drain-more-none zero g d b k n
  | inr (r, e) ↦ absurd (omega (arith, behind-shorter d r e))
]
drain-more (suc f) zero d b h k = elim (Option-cases (frame_end d.buf)) [
  | inl n ↦ drain-more-none (suc f) zero d b k n
  | inr (r, e) ↦ absurd (omega (arith, behind-shorter d r e, length-append d.buf b))
]
drain-more (suc f) (suc g) d b h k = elim (Option-cases (frame_end d.buf)) [
  | inl n ↦ drain-more-none (suc f) (suc g) d b k n
  | inr (r, e) ↦
      let (left, same_item) = behind-more d b r e in
      let rest = drain-more f g (behind d r) b (omega (arith, behind-shorter d r e)) (
        omega
          (arith, behind-shorter d r e, length-append d.buf b, length-append (behind d r).buf b)) in
      drain-some g (more d b) r (frame_end-append d.buf b r e)
      ∙ (λ i. prepend (same_item i) (drain g (left i)))
      ∙ ap (prepend (item d r)) rest
      ∙ then_feed-prepend (item d r) (drain f (behind d r)) b
      ∙ ap (λ x. then_feed x b) (sym (drain-some f d r e))
]

-- Feeding two pieces at once gives what feeding them one after the other gives.
pub feed-append : (d : SseFramer) (a b : Bytes) → feed d (a ++ b) ≡ then_feed (feed d a) b
unfolding feed
feed-append d a b =
    ap (λ s. drain (length s) (record d { buf = s })) (sym (append_assoc d.buf a b))
    ∙ drain-more (length (d.buf ++ a)) (length ((d.buf ++ a) ++ b)) (more d a) b (omega arith)
        (omega arith)

-- Feeding the pieces in turn.
unfoldable pub feed_all : SseFramer → List Bytes → SseFramer × List Bytes
unfolding feed
feed_all d [] = (d, [])
feed_all d (p ∷ ps) =
    let first = feed d p in let rest = feed_all first.0 ps in (rest.0, first.1 ++ rest.1)

pub joined : List Bytes → Bytes
joined [] = []
joined (p ∷ ps) = p ++ joined ps

-- `Feed` takes every complete frame out of the buffer.
drain-drained : (f : ℕ) (d : SseFramer) → length d.buf ≤ f → frame_end (drain f d).0.buf ≡ none
drain-drained zero d h = elim (Option-cases (frame_end d.buf)) [
  | inl n ↦ rw (drain-none zero d n) n
  | inr (r, e) ↦ absurd (omega (arith, behind-shorter d r e))
]
drain-drained (suc f) d h = elim (Option-cases (frame_end d.buf)) [
  | inl n ↦ rw (drain-none (suc f) d n) n
  | inr (r, e) ↦
      rw (drain-some f d r e) (drain-drained f (behind d r) (omega (arith, behind-shorter d r e)))
]

-- After a call of `Feed` no complete frame waits in the buffer.
pub feed-drained : (d : SseFramer) (bytes : Bytes) → frame_end (feed d bytes).0.buf ≡ none
unfolding feed
feed-drained d bytes = drain-drained (length (d.buf ++ bytes)) (more d bytes) (omega arith)

-- A framer in which no complete frame waits gives, for a stream in pieces, the payloads and the
-- state that it gives for the whole stream.
pub feed_all-joined :
    (d : SseFramer) (ps : List Bytes) → frame_end d.buf ≡ none → feed_all d ps ≡ feed d (joined ps)
unfolding feed_all joined feed
feed_all-joined d [] h =
    ap (λ s. (record d { buf = s }, [])) (sym (append-nil d.buf))
    ∙ sym (drain-none (length (d.buf ++ [])) (more d []) (ap frame_end (append-nil d.buf) ∙ h))
feed_all-joined d (p ∷ ps) h =
    (λ i.
      let rest = feed_all-joined (feed d p).0 ps (feed-drained d p) i in
      (rest.0, (feed d p).1 ++ rest.1))
    ∙ sym (feed-append d p (joined ps))
