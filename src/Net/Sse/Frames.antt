-- ===== src/Net/Sse/Frames.antt =====
-- Where the first frame of the buffer of `SseFramer::Feed` ends.
use zen_agent.Common.{
  ℕ, zero, suc, ◌+◌, ◌≤◌, ◌<◌, eqb_iff, ◌≡◌, refl, true, inl, inr, [], ◌∷◌, ◌++◌, Option, none,
  some, leb, eqb, Bool-cases, Option-cases, length, drop, arith,
}
use zen_agent.Common.Bytes.{Bytes, crlf, find, starts_with}
use zen_agent.Common.Bytes.Find.{find-le, find-append, find-starts_with, find-append_left}
use zen_agent.Net.Sse.{lf, earlier, frame_end}

-- What ends a frame stands in the buffer.
pub frame_end-le : (s : Bytes) (e n : ℕ) → frame_end s ≡ some (e, n) → (e + n ≤ length s) × (2 ≤ n)
unfolding frame_end earlier
frame_end-le s e n = go (find s (lf ++ lf)) (find s (crlf ++ crlf)) refl refl
  where
    go :
        (a b : Option ℕ)
        → find s (lf ++ lf) ≡ a
        → find s (crlf ++ crlf) ≡ b
        → earlier a b ≡ some (e, n)
        → (e + n ≤ length s) × (2 ≤ n)
    go none none p q h = absurd (cc h)
    go none (some c) p q h = ground (arith, find-le s (crlf ++ crlf) c q, h)
    go (some x) none p q h = ground (arith, find-le s (lf ++ lf) x p, h)
    go (some x) (some c) p q h =
        ground (arith, find-le s (crlf ++ crlf) c q, find-le s (lf ++ lf) x p, h)

-- A blank line of one form does not begin at the second byte of the other.
apart :
    (s : Bytes) (c : ℕ)
    → starts_with (drop c s) (crlf ++ crlf) ≡ true
    → starts_with (drop (suc c) s) (lf ++ lf) ≡ true
    → ⊥
unfolding starts_with
apart [] zero h k = cc h
apart [] (suc c) h k = cc h
apart (a ∷ []) zero h k = cc k
apart (a ∷ b ∷ []) zero h k = ground arith
apart (a ∷ b ∷ x ∷ s) zero h k = ground arith
apart (a ∷ s) (suc c) h k = apart s c h k

-- A blank line that is found only in the longer text is not before one that was there.
crlf-after :
    (s t : Bytes) (e c : ℕ)
    → find s (lf ++ lf) ≡ some e
    → find s (crlf ++ crlf) ≡ none
    → find (s ++ t) (crlf ++ crlf) ≡ some c
    → e ≤ c
crlf-after s t e c p q r = elim (Bool-cases (leb (c + 4) (length s))) [
  | inl l ↦ absurd (cc (find-append_left s (crlf ++ crlf) t c r (ground (arith, l)), q))
  | inr n ↦ elim (Bool-cases (eqb (suc c) e)) [
    | inl m ↦
        let z : suc c ≡ e = (eqb_iff (suc c) e).0 m in
        absurd (
          apart (s ++ t) c (find-starts_with (s ++ t) (crlf ++ crlf) c r)
            (rw z (find-starts_with (s ++ t) (lf ++ lf) e (find-append s (lf ++ lf) t e p))))
    | inr m ↦ ground (arith, find-le s (lf ++ lf) e p, n, m)
  ]
]

lf-after :
    (s t : Bytes) (e c : ℕ)
    → find s (crlf ++ crlf) ≡ some c
    → find s (lf ++ lf) ≡ none
    → find (s ++ t) (lf ++ lf) ≡ some e
    → c < e
lf-after s t e c p q r = elim (Bool-cases (leb (e + 2) (length s))) [
  | inl l ↦ absurd (cc (find-append_left s (lf ++ lf) t e r (ground (arith, l)), q))
  | inr n ↦ ground (arith, find-le s (crlf ++ crlf) c p, n)
]

-- The first frame stays the first frame.
pub frame_end-append :
    (s t : Bytes) (r : ℕ × ℕ) → frame_end s ≡ some r → frame_end (s ++ t) ≡ some r
unfolding frame_end earlier
frame_end-append s t r = go (find s (lf ++ lf)) (find s (crlf ++ crlf)) refl refl
  where
    go :
        (a b : Option ℕ)
        → find s (lf ++ lf) ≡ a
        → find s (crlf ++ crlf) ≡ b
        → earlier a b ≡ some r
        → frame_end (s ++ t) ≡ some r
    go none none p q h = absurd (cc h)
    go none (some c) p q h =
        rw (find-append s (crlf ++ crlf) t c q) (elim (Option-cases (find (s ++ t) (lf ++ lf))) [
          | inl n ↦ rw n h
          | inr (e, f) ↦ rw f (ground (arith, lf-after s t e c q p f, h))
        ])
    go (some x) none p q h =
        rw (find-append s (lf ++ lf) t x p) (elim (Option-cases (find (s ++ t) (crlf ++ crlf))) [
          | inl n ↦ rw n h
          | inr (c, f) ↦ rw f (ground (arith, crlf-after s t x c p q f, h))
        ])
    go (some x) (some c) p q h =
        rw (find-append s (lf ++ lf) t x p, find-append s (crlf ++ crlf) t c q, earlier) h
