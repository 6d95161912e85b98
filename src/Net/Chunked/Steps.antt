-- ===== src/Net/Chunked/Steps.antt =====
-- One round of the loop: what it consumes, and how more input changes it.
use zen_agent.Common.{
  ℕ, ◌+◌, ◌-◌, ◌≤◌, ◌<◌, min, ◌≡◌, refl, sym, ap, ◌∙◌, inl, inr, Bool, true, false, [], ◌∷◌, ◌++◌,
  Option, none, some, eqb, ltb, length, take, drop, arith, Bool-cases, length-append, length-drop,
  take-append_left, drop-append_left, append-nil, take-add, drop-add,
}
use zen_agent.Common.Bytes.{Bytes, crlf, find, split_once, from_chars_hex}
use zen_agent.Common.Bytes.Find.{find-le, find-append}
use zen_agent.Net.Chunked.{
  ChunkedDecoder, Step, stop, again, malformed, after_take, step_body, step_parsed, step_size,
  dispatch, step,
}

-- More bytes at the end of the buffer.
abbrev pub more : ChunkedDecoder → Bytes → ChunkedDecoder
more d b = record d { buf = d.buf ++ b }

-- Output in front of what a round gives.
abbrev pub prepend : Bytes → Step → Step
prepend o (stop d x) = stop d (o ++ x)
prepend o (again d x) = again d (o ++ x)
prepend o (malformed d) = malformed d

-- What a round leaves in the buffer is no longer, and shorter if the loop goes on.
abbrev pub Consumes : ℕ → Step → Type 0
Consumes n (stop d' o) = length d'.buf ≤ n
Consumes n (again d' o) = length d'.buf < n
Consumes n (malformed d') = Unit

step_body-Consumes : (d : ChunkedDecoder) → Consumes (length d.buf) (step_body d)
unfolding step_body after_take
step_body-Consumes d = ground (
  arith,
  length-drop (min (length d.buf) d.remaining) d.buf,
  length-drop 2 (drop (min (length d.buf) d.remaining) d.buf),
)

step_parsed-Consumes :
    (d : ChunkedDecoder) (rest : Bytes) (o : Option ℕ) (n : ℕ)
    → length rest < n
    → Consumes n (step_parsed d rest o)
unfolding step_parsed
step_parsed-Consumes d rest none n h = tt
step_parsed-Consumes d rest (some k) n h = ground arith

step_size-Consumes : (d : ChunkedDecoder) → Consumes (length d.buf) (step_size d (find d.buf crlf))
unfolding step_size
step_size-Consumes d = go (find d.buf crlf) refl
  where
    go : (o : Option ℕ) → find d.buf crlf ≡ o → Consumes (length d.buf) (step_size d o)
    go none e = omega arith
    go (some i) e =
        step_parsed-Consumes d (drop (i + 2) d.buf)
          (from_chars_hex (split_once (take i d.buf) (b';' ∷ [])).0) (length d.buf)
          (omega (arith, find-le d.buf crlf i e, length-drop (i + 2) d.buf))

pub step-Consumes : (d : ChunkedDecoder) → Consumes (length d.buf) (step d)
unfolding step dispatch
step-Consumes d = go d.complete d.in_chunk
  where
    go : (c i : Bool) → Consumes (length d.buf) (dispatch c i d)
    go true i = omega arith
    go false true = step_body-Consumes d
    go false false = step_size-Consumes d

-- Where the branch of the chunk body stands after taking what is there.
abbrev took : ChunkedDecoder → ChunkedDecoder
took d = record d {
  buf = drop (min (length d.buf) d.remaining) d.buf;
  remaining = d.remaining - min (length d.buf) d.remaining;
}

abbrev taken : ChunkedDecoder → Bytes
taken d = take (min (length d.buf) d.remaining) d.buf

after_take-prepend :
    (d : ChunkedDecoder) (o x : Bytes) → after_take d (o ++ x) ≡ prepend o (after_take d x)
unfolding after_take
after_take-prepend d o x = ground arith

take-split :
    (n m k : ℕ) (xs b : Bytes)
    → n ≤ length xs
    → k ≡ n + m
    → take k (xs ++ b) ≡ take n xs ++ take m (drop n xs ++ b)
take-split n m k xs b h e =
    rw (e, take-add n m (xs ++ b), take-append_left n xs b h, drop-append_left n xs b h)

drop-split :
    (n m k : ℕ) (xs b : Bytes)
    → n ≤ length xs
    → k ≡ n + m
    → drop k (xs ++ b) ≡ drop m (drop n xs ++ b)
drop-split n m k xs b h e = rw (e, drop-add n m (xs ++ b), drop-append_left n xs b h)

-- Taking from a longer buffer is taking what was there, and then from the rest.
step_body-more :
    (d : ChunkedDecoder) (b : Bytes)
    → step_body (more d b) ≡ prepend (taken d) (step_body (more (took d) b))
unfolding step_body
step_body-more d b =
    let n = min (length d.buf) d.remaining in
    let left = drop n d.buf ++ b in
    let m = min (length left) (d.remaining - n) in
    let k = min (length (d.buf ++ b)) d.remaining in
    let h : n ≤ length d.buf = omega arith in
    let e : k ≡ n + m =
      omega (arith, length-append d.buf b, length-append (drop n d.buf) b, length-drop n d.buf) in
    let r : d.remaining - k ≡ d.remaining - n - m = omega (arith, e) in
    let p = drop-split n m k d.buf b h e in
    let q = take-split n m k d.buf b h e in
    (λ i. after_take (record d { buf = p i; remaining = r i }) (q i))
    ∙ after_take-prepend (record d { buf = drop m left; remaining = d.remaining - n - m })
        (take n d.buf) (take m left)

prepend_nil : (s : Step) → s ≡ prepend [] s
prepend_nil (stop d x) = refl
prepend_nil (again d x) = refl
prepend_nil (malformed d) = refl

-- How a round with `b` behind the buffer follows from the round without.
abbrev pub Extends : ChunkedDecoder → Bytes → Step → Type 0
Extends d b (stop d' o) = step (more d b) ≡ prepend o (step (more d' b))
Extends d b (again d' o) = step (more d b) ≡ again (more d' b) o
Extends d b (malformed d') = step (more d b) ≡ malformed (more d' b)

pub step-body : (d : ChunkedDecoder) → d.complete ≡ false → d.in_chunk ≡ true → step d ≡ step_body d
unfolding step dispatch
step-body d c i =
    ap (λ (x : Bool). dispatch x d.in_chunk d) c ∙ ap (λ (x : Bool). dispatch false x d) i

pub step-size :
    (d : ChunkedDecoder)
    → d.complete ≡ false
    → d.in_chunk ≡ false
    → step d ≡ step_size d (find d.buf crlf)
unfolding step dispatch
step-size d c i =
    ap (λ (x : Bool). dispatch x d.in_chunk d) c ∙ ap (λ (x : Bool). dispatch false x d) i

-- The chunk is complete and its CRLF is there.
step_body_ready :
    (d : ChunkedDecoder)
    → d.remaining ≡ 0
    → 2 ≤ length d.buf
    → step_body d ≡ again (record d { buf = drop 2 d.buf; remaining = 0; in_chunk = false }) []
unfolding step_body after_take
step_body_ready d z h =
    let n = min (length d.buf) d.remaining in
    let e : n ≡ 0 = omega arith in
    let f : d.remaining - n ≡ 0 = omega arith in
    (λ i. after_take (record d { buf = drop (e i) d.buf; remaining = f i }) (take (e i) d.buf))
    ∙ ground arith

-- What the branch of the chunk body gives, by the bytes that are there.
after_take-Extends :
    (d D : ChunkedDecoder) (o b : Bytes)
    → step (more d b) ≡ prepend o (step_body (more D b))
    → D.complete ≡ false
    → D.in_chunk ≡ true
    → Extends d b (after_take D o)
unfolding after_take
after_take-Extends d D o b h c i =
    let waits : step (more d b) ≡ prepend o (step (more D b)) =
      h ∙ ap (prepend o) (sym (step-body (more D b) c i)) in
    elim (Bool-cases (ltb 0 D.remaining)) [
      | inl some_left ↦ rw (some_left, after_take) waits
      | inr none_left ↦ elim (Bool-cases (ltb (length D.buf) 2)) [
        | inl short ↦ rw (none_left, short, after_take) waits
        | inr ready ↦
            let z : D.remaining ≡ 0 = ground (arith, none_left) in
            let two : 2 ≤ length D.buf = ground (arith, ready) in
            rw (none_left, ready, after_take)
              (h
                ∙ ap (prepend o)
                    (step_body_ready (more D b) z (omega (arith, two, length-append D.buf b)))
                ∙ λ k.
                    again
                      (record D {
                        buf = drop-append_left 2 D.buf b two k;
                        remaining = sym z k;
                        in_chunk = false;
                      })
                      (append-nil o k))
      ]
    ]

step_body-Extends :
    (d : ChunkedDecoder) (b : Bytes)
    → d.complete ≡ false
    → d.in_chunk ≡ true
    → Extends d b (step_body d)
unfolding step_body
step_body-Extends d b c i =
    after_take-Extends d (took d) (taken d) b (step-body (more d b) c i ∙ step_body-more d b) c i

step_parsed-Extends :
    (d : ChunkedDecoder) (rest b : Bytes) (o : Option ℕ)
    → step (more d b) ≡ step_parsed (more d b) (rest ++ b) o
    → Extends d b (step_parsed d rest o)
unfolding step_parsed
step_parsed-Extends d rest b none h = h
step_parsed-Extends d rest b (some n) h = elim (Bool-cases (eqb n 0)) [
  | inl last ↦ rw last (rw (last, step_parsed) at h ∙ unfold step dispatch in refl)
  | inr more_to_come ↦ rw more_to_come (rw (more_to_come, step_parsed) at h)
]

step_size-Extends :
    (d : ChunkedDecoder) (b : Bytes)
    → d.complete ≡ false
    → d.in_chunk ≡ false
    → Extends d b (step_size d (find d.buf crlf))
step_size-Extends d b c i = go (find d.buf crlf) refl
  where
    go : (o : Option ℕ) → find d.buf crlf ≡ o → Extends d b (step_size d o)
    go none e = unfold step_size in prepend_nil (step (more d b))
    go (some j) e =
        let le : j + 2 ≤ length d.buf = find-le d.buf crlf j e in
        let at_eol =
          step-size (more d b) c i ∙ ap (step_size (more d b)) (find-append d.buf crlf b j e) in
        unfold step_size in
        step_parsed-Extends d (drop (j + 2) d.buf) b
          (from_chars_hex (split_once (take j d.buf) (b';' ∷ [])).0)
          (at_eol ∙ λ k. step_parsed (more d b) (drop-append_left (j + 2) d.buf b le k) (
            from_chars_hex (split_once (take-append_left j d.buf b (omega arith) k) (b';' ∷ [])).0))

pub step-Extends : (d : ChunkedDecoder) (b : Bytes) → Extends d b (step d)
unfolding step dispatch
step-Extends d b = go d.complete d.in_chunk refl refl
  where
    go : (c i : Bool) → d.complete ≡ c → d.in_chunk ≡ i → Extends d b (dispatch c i d)
    go true i e f = prepend_nil (step (more d b))
    go false true e f = step_body-Extends d b e f
    go false false e f = step_size-Extends d b e f
