-- ===== src/Net/Sse/Frame.antt =====
-- A payload of one line, in a frame of its own.
use zen_agent.Common.{
  ℕ, zero, suc, ◌≤◌, ◌≡◌, ◌≢◌, refl, ap, ◌∙◌, false, inl, inr, [], ◌∷◌, ◌++◌, none, some,
  Option-cases, length, arith, All, bytes_equality,
}
use zen_agent.Common.Bytes.{Bytes, ascii, crlf, find, starts_with, split_once}
use zen_agent.Net.Sse.{
  lf, without_cr, add_line, add_field, without_space, payload_from, frame_payload, earlier,
  frame_end,
}

-- No line break in it.
abbrev pub IsPlain : Bytes → Type 0
IsPlain = All (λ c. (c ≢ b'\n') × (c ≢ b'\r'))

-- The frame of a payload.
abbrev pub frame_of : Bytes → Bytes
frame_of m = ascii "data: " ++ m

find-lf : (s t : Bytes) → IsPlain s → find (s ++ b'\n' ∷ b'\n' ∷ t) (lf ++ lf) ≡ some (length s)
unfolding find starts_with
find-lf [] [] h = refl
find-lf [] (a ∷ t) h = refl
find-lf (a ∷ s) t h = rw (find-lf s t h.1) (ground (arith, h.0))

find_no_lf : (s : Bytes) → IsPlain s → find s lf ≡ none
unfolding find starts_with
find_no_lf [] h = refl
find_no_lf (a ∷ s) h = rw (find_no_lf s h.1) (ground (arith, h.0))

find_no_blank :
    (s : Bytes) → IsPlain s → (find s (lf ++ lf) ≡ none) × (find s (crlf ++ crlf) ≡ none)
unfolding find starts_with
find_no_blank [] h = (refl, refl)
find_no_blank (a ∷ s) h =
    let (p, q) = find_no_blank s h.1 in (rw p (ground (arith, h.0)), rw q (ground (arith, h.0)))

pub frame_end-none : (s : Bytes) → IsPlain s → frame_end s ≡ none
unfolding frame_end earlier
frame_end-none s h = let (p, q) = find_no_blank s h in rw (p, q) refl

find-crlf_late :
    (s t : Bytes) (c : ℕ)
    → IsPlain s
    → find (s ++ b'\n' ∷ b'\n' ∷ t) (crlf ++ crlf) ≡ some c
    → length s ≤ c
unfolding find starts_with
find-crlf_late [] t c h e = omega arith
find-crlf_late (a ∷ s) t c h e =
    let no : starts_with (a ∷ (s ++ b'\n' ∷ b'\n' ∷ t)) (crlf ++ crlf) ≡ false =
      ground (arith, h.0) in
    elim (Option-cases (find (s ++ b'\n' ∷ b'\n' ∷ t) (crlf ++ crlf))) [
      | inl n ↦ absurd (cc (rw (no, find, n) at e))
      | inr (j, f) ↦ ground (arith, find-crlf_late s t j h.1 f, rw (no, find, f) at e)
    ]

pub frame_end-plain :
    (s t : Bytes) → IsPlain s → frame_end (s ++ b'\n' ∷ b'\n' ∷ t) ≡ some (length s, 2)
unfolding frame_end earlier
frame_end-plain s t h =
    rw (find-lf s t h) (elim (Option-cases (find (s ++ b'\n' ∷ b'\n' ∷ t) (crlf ++ crlf))) [
      | inl n ↦ rw n refl
      | inr (c, e) ↦ rw e (ground (arith, find-crlf_late s t c h e))
    ])

without_cr-plain : (s : Bytes) → IsPlain s → without_cr s ≡ s
unfolding without_cr
without_cr-plain [] h = refl
without_cr-plain (c ∷ []) h = ground (arith, h.0)
without_cr-plain (c ∷ d ∷ s) h = ap (◌∷◌ c) (without_cr-plain (d ∷ s) h.1)

pub frame_of-IsPlain : (m : Bytes) → IsPlain m → IsPlain (frame_of m)
frame_of-IsPlain m h = (
  ground arith,
  (ground arith, (ground arith, (ground arith, (ground arith, (ground arith, h))))),
)

-- A frame without a line break is one line.
split_once-plain : (s : Bytes) → IsPlain s → split_once s lf ≡ (s, [])
unfolding split_once
split_once-plain s h = rw (find_no_lf s h) refl

payload_from_nil : (f : ℕ) (payload : Bytes) → payload_from f payload [] ≡ payload
unfolding payload_from
payload_from_nil zero payload = refl
payload_from_nil (suc f) payload = refl

-- The field of a `data:` line.
add_line-frame_of : (m : Bytes) → add_line [] (frame_of m) ≡ m
unfolding add_line add_field without_space split_once find starts_with
add_line-frame_of m = refl

-- The payload of a frame with one `data:` line.
pub frame_payload-frame_of : (m : Bytes) → IsPlain m → frame_payload (frame_of m) ≡ m
unfolding frame_payload payload_from
frame_payload-frame_of m h =
    let one_line = split_once-plain (frame_of m) (frame_of-IsPlain m h) in
    let f = suc (suc (suc (suc (suc (length m))))) in
    (λ i. payload_from f (add_line [] (without_cr (one_line i).0)) (one_line i).1)
    ∙ payload_from_nil f (add_line [] (without_cr (frame_of m)))
    ∙ ap (add_line []) (without_cr-plain (frame_of m) (frame_of-IsPlain m h))
    ∙ add_line-frame_of m
