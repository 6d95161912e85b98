-- ===== src/Net/Chunked/Body.antt =====
-- `ChunkedDecoder::Feed` on well-formed bodies, extensions included.
use zen_agent.Common.{
  ℕ, zero, suc, ◌+◌, ◌-◌, ◌<◌, ◌≡◌, ◌≢◌, refl, ap, ◌∙◌, List, [], ◌∷◌, ◌++◌, some, length, arith,
  append_assoc, append-nil, length-append, true, false, min, take, drop, take-length, drop-length,
  All, In, inl, inr,
}
use zen_agent.Common.Bytes.{Bytes, crlf, split_once, from_chars_hex}
use zen_agent.Common.Bytes.Find.{find-crlf}
use zen_agent.Net.Chunked.{
  ChunkedDecoder, again, step, step_body, step_size, step_parsed, after_take, done, run, ok,
  result_of, feed, fresh,
}
use zen_agent.Net.Chunked.Steps.{step-body, step-size}
use zen_agent.Net.Chunked.Fuel.{after_step, run-suc}

pub record Chunk : Type 0 where
  pub size_line : Bytes
  pub payload : Bytes

-- The line carries the number, as the decoder reads it in front of any extension.
abbrev pub Sizes : Bytes → ℕ → Type 0
Sizes line n = All (λ c. c ≢ b'\r') line × (from_chars_hex (split_once line (b';' ∷ [])).0 ≡ some n)

pub record IsChunk (c : Chunk) : Type 0 where
  pub sized : Sizes c.size_line (length c.payload)
  pub filled : 0 < length c.payload

-- The chunks, the last-chunk line, and what follows.
abbrev pub encoded : List Chunk → Bytes → Bytes → Bytes
encoded [] last rest = last ++ (crlf ++ rest)
encoded (c ∷ cs) last rest = c.size_line ++ (crlf ++ (c.payload ++ (crlf ++ encoded cs last rest)))

abbrev pub payloads : List Chunk → Bytes
payloads [] = []
payloads (c ∷ cs) = c.payload ++ payloads cs

abbrev at_line : Bytes → ChunkedDecoder
at_line b = record fresh { buf = b }

abbrev in_body : ℕ → Bytes → ChunkedDecoder
in_body n b = record { buf = b; remaining = n; in_chunk = true; complete = false }

drop_line : (s t : Bytes) → drop (length s + 2) (s ++ (crlf ++ t)) ≡ t
drop_line [] t = refl
drop_line (a ∷ s) t =
    let e : length (a ∷ s) + 2 ≡ suc (length s + 2) = omega arith in rw e (drop_line s t)

-- A size line is read, and the number decides.
step_line :
    (line t : Bytes) (n : ℕ)
    → Sizes line n
    → step (at_line (line ++ (crlf ++ t))) ≡ step_parsed (at_line (line ++ (crlf ++ t))) t (some n)
unfolding step_size
step_line line t n (clean, value) =
    let d = at_line (line ++ (crlf ++ t)) in
    step-size d refl refl ∙ ap (step_size d) (find-crlf line t clean) ∙ λ i.
    step_parsed d (drop_line line t i) (
      ((ap (λ (l : Bytes). from_chars_hex (split_once l (b';' ∷ [])).0)
            (take-length line (crlf ++ t)))
          ∙ value)
        i)

-- The body of a chunk is there in full.
step_payload : (p t : Bytes) → step (in_body (length p) (p ++ (crlf ++ t))) ≡ again (at_line t) p
unfolding step_body
step_payload p t =
    let d = in_body (length p) (p ++ (crlf ++ t)) in
    let e : min (length d.buf) (length p) ≡ length p = omega (arith, length-append p (crlf ++ t)) in
    let z : length p - length p ≡ 0 = omega arith in
    step-body d refl refl
    ∙ (λ i.
        after_take (record d { buf = drop (e i) d.buf; remaining = length p - e i })
          (take (e i) d.buf))
    ∙ (λ i. after_take (in_body (z i) (drop-length p (crlf ++ t) i)) (take-length p (crlf ++ t) i))
    ∙ unfold after_take in ground arith

step_parsed_pos :
    (b t : Bytes) (n : ℕ) → 0 < n → step_parsed (at_line b) t (some n) ≡ again (in_body n t) []
unfolding step_parsed
step_parsed_pos b t n h = ground arith

-- The two rounds of one chunk.
run_chunk :
    (f : ℕ) (c : Chunk) (t out : Bytes)
    → IsChunk c
    → run (suc (suc f)) (at_line (c.size_line ++ (crlf ++ (c.payload ++ (crlf ++ t))))) out
      ≡ run f (at_line t) (out ++ c.payload)
run_chunk f c t out v =
    let d = at_line (c.size_line ++ (crlf ++ (c.payload ++ (crlf ++ t)))) in
    run-suc (suc f) d out
    ∙ ap (after_step (suc f) out) (
        step_line c.size_line (c.payload ++ (crlf ++ t)) (length c.payload) v.sized
        ∙ step_parsed_pos _ (c.payload ++ (crlf ++ t)) (length c.payload) v.filled)
    ∙ run-suc f (in_body (length c.payload) (c.payload ++ (crlf ++ t))) (out ++ [])
    ∙ ap (after_step f (out ++ [])) (step_payload c.payload t)
    ∙ ap (λ (o : Bytes). run f (at_line t) (o ++ c.payload)) (append-nil out)

run-encoded :
    (f : ℕ) (cs : List Chunk) (last rest out : Bytes)
    → length (encoded cs last rest) < f
    → ((c : Chunk) → In c cs → IsChunk c)
    → Sizes last 0
    → run f (at_line (encoded cs last rest)) out
      ≡ done (record fresh { buf = rest; complete = true }) (out ++ payloads cs)
unfolding step_parsed
run-encoded zero cs last rest out h v z = elim h [ ]
run-encoded (suc f) [] last rest out h v z =
    run-suc f (at_line (encoded [] last rest)) out ∙ ap (after_step f out) (step_line last rest 0 z)
run-encoded (suc zero) (c ∷ cs) last rest out h v z = absurd (
    omega
      (arith, length-append c.size_line (crlf ++ (c.payload ++ (crlf ++ encoded cs last rest)))))
run-encoded (suc (suc f)) (c ∷ cs) last rest out h v z =
    run_chunk f c (encoded cs last rest) out (v c (inl refl))
    ∙ run-encoded f cs last rest (out ++ c.payload)
        (omega (
          arith,
          length-append c.size_line (crlf ++ (c.payload ++ (crlf ++ encoded cs last rest))),
          length-append c.payload (crlf ++ encoded cs last rest),
        ))
        (λ x i. v x (inr i)) z
    ∙ ap (done (record fresh { buf = rest; complete = true }))
        (append_assoc out c.payload (payloads cs))

-- A body of non-empty chunks, each behind a line that gives its length in hexadecimal, possibly
-- with an extension, and ended by a line that gives 0, is decoded to the chunks' payloads joined:
-- the decoder is complete and keeps what followed.
pub feed-encoded :
    (cs : List Chunk) (last rest : Bytes)
    → ((c : Chunk) → In c cs → IsChunk c)
    → Sizes last 0
    → feed fresh (encoded cs last rest)
      ≡ (record fresh { buf = rest; complete = true }, ok (payloads cs))
unfolding feed result_of
feed-encoded cs last rest v z =
    ap (result_of (encoded cs last rest))
      (run-encoded (suc (length (encoded cs last rest))) cs last rest [] (omega arith) v z)
