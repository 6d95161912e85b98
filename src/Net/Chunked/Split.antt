-- ===== src/Net/Chunked/Split.antt =====
-- `ChunkedDecoder::Feed` on a body in pieces.
use zen_agent.Common.{
  ℕ, zero, suc, ◌+◌, ◌≤◌, ◌<◌, ◌≡◌, refl, sym, ap, subst, ◌∙◌, List, [], ◌∷◌, ◌++◌, length, arith,
  append_assoc, length-append,
}
use zen_agent.Common.Bytes.{Bytes}
use zen_agent.Net.Chunked.{
  ChunkedDecoder, Step, stop, again, malformed, step, Outcome, done, failed, stuck, run, Result, ok,
  malformed_chunk_size, out_of_fuel, result_of, feed,
}
use zen_agent.Net.Chunked.Steps.{Consumes, step-Consumes, more, prepend, Extends, step-Extends}
use zen_agent.Net.Chunked.Fuel.{
  before, before-before, after_step, run-suc, run-out, run_enough, run_total,
}

-- How the loop with `b` behind the buffer follows from the loop without.
abbrev Continues : ℕ → ℕ → ChunkedDecoder → Bytes → Outcome → Type 0
Continues g k d b (done d' o) =
    length d'.buf + length b < k → run g (more d b) [] ≡ before o (run k (more d' b) [])
Continues g k d b (failed d') = run g (more d b) [] ≡ failed (more d' b)
Continues g k d b stuck = Unit

-- After a round that breaks, the loop on the longer buffer goes on from there.
stop-Continues :
    (g k : ℕ) (d d' : ChunkedDecoder) (o b : Bytes)
    → length (d.buf ++ b) < suc g
    → length d'.buf ≤ length d.buf
    → step (more d b) ≡ prepend o (step (more d' b))
    → length d'.buf + length b < k
    → run (suc g) (more d b) [] ≡ before o (run k (more d' b) [])
stop-Continues g zero d d' o b h c e l = elim l [ ]
stop-Continues g (suc k) d d' o b h c e l =
    run-suc g (more d b) []
    ∙ ap (after_step g []) e
    ∙ go (step (more d' b)) (step-Consumes (more d' b))
    ∙ ap (before o) (sym (run-suc k (more d' b) []))
  where
    go :
        (s : Step)
        → Consumes (length (d'.buf ++ b)) s
        → after_step g [] (prepend o s) ≡ before o (after_step k [] s)
    go (stop x y) c' = refl
    go (malformed x) c' = refl
    go (again x y) c' =
        run-out g x (o ++ y)
        ∙ before-before o y (run g x [])
        ∙ ap (λ r. before o (before y r))
            (run_enough g k x [] (omega (arith, length-append d.buf b, length-append d'.buf b))
              (omega (arith, length-append d'.buf b)))
        ∙ ap (before o) (sym (run-out k x y))

again-Continues :
    (f g k : ℕ) (d d' : ChunkedDecoder) (o b : Bytes)
    → step (more d b) ≡ again (more d' b) o
    → Continues g k d' b (run f d' [])
    → Continues (suc g) k d b (run f d' o)
again-Continues f g k d d' o b e c =
    subst (Continues (suc g) k d b) (sym (run-out f d' o)) (go (run f d' []) c)
  where
    first : run (suc g) (more d b) [] ≡ before o (run g (more d' b) [])
    first = run-suc g (more d b) [] ∙ ap (after_step g []) e ∙ run-out g (more d' b) o

    go : (r : Outcome) → Continues g k d' b r → Continues (suc g) k d b (before o r)
    go (done x y) c' = λ l. first ∙ ap (before o) (c' l) ∙ sym (before-before o y _)
    go (failed x) c' = first ∙ ap (before o) c'
    go stuck c' = tt

run-Continues :
    (f g k : ℕ) (d : ChunkedDecoder) (b : Bytes)
    → length d.buf < f
    → length (d.buf ++ b) < g
    → Continues g k d b (run f d [])
run-Continues zero g k d b h l = elim h [ ]
run-Continues (suc f) zero k d b h l = elim l [ ]
run-Continues (suc f) (suc g) k d b h l =
    subst (Continues (suc g) k d b) (sym (run-suc f d []))
      (go (λ d'. run-Continues f g k d' b) (step d) (step-Consumes d) (step-Extends d b))
  where
    go :
        ((d' : ChunkedDecoder)
          → length d'.buf < f
          → length (d'.buf ++ b) < g
          → Continues g k d' b (run f d' []))
        → (s : Step) → Consumes (length d.buf) s
        → Extends d b s
        → Continues (suc g) k d b (after_step f [] s)
    go ih (stop d' o) c e = stop-Continues g k d d' o b l c e
    go ih (malformed d') c e = run-suc g (more d b) [] ∙ ap (after_step g []) e
    go ih (again d' o) c e =
        again-Continues f g k d d' o b e
          (ih d' (omega arith) (omega (arith, length-append d.buf b, length-append d'.buf b)))

-- Output in front of a result.
unfoldable pub prepend_result : Bytes → Result → Result
prepend_result o (ok x) = ok (o ++ x)
prepend_result o malformed_chunk_size = malformed_chunk_size
prepend_result o out_of_fuel = out_of_fuel

-- The same result, and after a success the same decoder. (After an error the buffers hold what
-- each was given.)
pub record Same (r s : ChunkedDecoder × Result) : Type 0 where
  pub result : r.1 ≡ s.1
  pub state : (o : Bytes) → r.1 ≡ ok o → r.0 ≡ s.0

-- What follows a first call, if that succeeded.
abbrev pub followed_by :
    ChunkedDecoder × Result → (ChunkedDecoder → ChunkedDecoder × Result) → ChunkedDecoder × Result
followed_by (d, ok o) k = ((k d).0, prepend_result o (k d).1)
followed_by (d, malformed_chunk_size) k = (d, malformed_chunk_size)
followed_by (d, out_of_fuel) k = (d, out_of_fuel)

abbrev pub then_feed : ChunkedDecoder × Result → Bytes → ChunkedDecoder × Result
then_feed r b = followed_by r (λ d. feed d b)

result_of-before :
    (v w o : Bytes) (r : Outcome)
    → Same (result_of v (before o r)) ((result_of w r).0, prepend_result o (result_of w r).1)
unfolding result_of prepend_result
result_of-before v w o (done d x) = record { result = refl; state = λ _ _. refl }
result_of-before v w o (failed d) = record { result = refl; state = λ o e. absurd (cc e) }
result_of-before v w o stuck = record { result = refl; state = λ o e. absurd (cc e) }

-- Feeding two pieces at once gives what feeding them one after the other gives.
pub feed-append :
    (d : ChunkedDecoder) (a b : Bytes) → Same (feed d (a ++ b)) (then_feed (feed d a) b)
unfolding feed result_of
feed-append d a b =
    subst
      (λ v.
        Same (result_of v (run (suc (length v)) (record d { buf = v }) []))
          (then_feed (feed d a) b))
      (append_assoc d.buf a b)
      (go (run (suc (length e.buf)) e []) refl (λ k.
        run-Continues (suc (length e.buf)) (suc (length (e.buf ++ b))) k e b (omega arith)
          (omega arith)))
  where
    e : ChunkedDecoder
    e = record d { buf = d.buf ++ a }

    go :
        (r : Outcome)
        → run (suc (length e.buf)) e [] ≡ r
        → ((k : ℕ) → Continues (suc (length (e.buf ++ b))) k e b r)
        → Same
            (result_of (e.buf ++ b) (run (suc (length (e.buf ++ b))) (more e b) []))
            (then_feed (result_of e.buf r) b)
    go (done d' o) q c =
        let k = suc (length (d'.buf ++ b)) in
        subst (λ r. Same (result_of (e.buf ++ b) r) (then_feed (d', ok o) b))
          (sym (c k (omega (arith, length-append d'.buf b))))
          (result_of-before (e.buf ++ b) (d'.buf ++ b) o (run k (more d' b) []))
    go (failed d') q c =
        subst
          (λ r. Same (result_of (e.buf ++ b) r) (record d' { buf = e.buf }, malformed_chunk_size))
          (sym (c 0)) (record { result = refl; state = λ o x. absurd (cc x) })
    go stuck q c = absurd (run_total (suc (length e.buf)) e [] (omega arith) q)

-- Feeding the pieces in turn, up to the first error.
unfoldable pub feed_all : ChunkedDecoder → Bytes → List Bytes → ChunkedDecoder × Result
feed_all d p [] = feed d p
feed_all d p (q ∷ qs) = followed_by (feed d p) (λ d'. feed_all d' q qs)

abbrev pub joined : Bytes → List Bytes → Bytes
joined p [] = p
joined p (q ∷ qs) = p ++ joined q qs

Same-trans : (r s t : ChunkedDecoder × Result) → Same r s → Same s t → Same r t
Same-trans r s t a b = record {
  result = a.result ∙ b.result;
  state = λ o e. a.state o e ∙ b.state o (sym a.result ∙ e);
}

ok_of_prepend_result :
    (o x : Bytes) (r : Result) → prepend_result o r ≡ ok x → (y : Bytes) × (r ≡ ok y)
unfolding prepend_result
ok_of_prepend_result o x (ok y) e = (y, refl)
ok_of_prepend_result o x malformed_chunk_size e = absurd (cc e)
ok_of_prepend_result o x out_of_fuel e = absurd (cc e)

followed_by-Same :
    (r : ChunkedDecoder × Result) (k h : ChunkedDecoder → ChunkedDecoder × Result)
    → ((d : ChunkedDecoder) → Same (k d) (h d))
    → Same (followed_by r k) (followed_by r h)
followed_by-Same (d, ok o) k h s = record {
  result = ap (prepend_result o) (s d).result;
  state = λ x e. let (y, f) = ok_of_prepend_result o x (k d).1 e in (s d).state y f;
}
followed_by-Same (d, malformed_chunk_size) k h s = record { result = refl; state = λ _ _. refl }
followed_by-Same (d, out_of_fuel) k h s = record { result = refl; state = λ _ _. refl }

-- However a body is cut into pieces, feeding them in turn gives the bytes, or the error, of
-- feeding it whole, and after a success the same decoder state.
pub feed_pieces :
    (d : ChunkedDecoder) (p : Bytes) (ps : List Bytes)
    → Same (feed d (joined p ps)) (feed_all d p ps)
unfolding feed_all
feed_pieces d p [] = record { result = refl; state = λ _ _. refl }
feed_pieces d p (q ∷ qs) =
    Same-trans (feed d (p ++ joined q qs)) (then_feed (feed d p) (joined q qs)) _
      (feed-append d p (joined q qs))
      (followed_by-Same (feed d p) (λ d'. feed d' (joined q qs)) (λ d'. feed_all d' q qs)
        (λ d'. feed_pieces d' q qs))
