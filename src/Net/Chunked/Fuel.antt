-- ===== src/Net/Chunked/Fuel.antt =====
-- The fuel of the loop of `ChunkedDecoder::Feed`.
use zen_agent.Common.{
  ℕ, zero, suc, ◌<◌, ◌≡◌, ◌≢◌, refl, sym, ap, ◌∙◌, [], ◌++◌, length, arith, append_assoc,
}
use zen_agent.Common.Bytes.{Bytes}
use zen_agent.Net.Chunked.{
  ChunkedDecoder, Step, stop, again, malformed, step, Outcome, done, failed, stuck, run,
  out_of_fuel, result_of, feed,
}
use zen_agent.Net.Chunked.Steps.{Consumes, step-Consumes}

-- Output in front of what the loop gives.
abbrev pub before : Bytes → Outcome → Outcome
before o (done d x) = done d (o ++ x)
before o (failed d) = failed d
before o stuck = stuck

-- One round, and the loop on what it leaves.
abbrev pub after_step : ℕ → Bytes → Step → Outcome
after_step f out (stop d o) = done d (out ++ o)
after_step f out (malformed d) = failed d
after_step f out (again d o) = run f d (out ++ o)

pub run-suc :
    (f : ℕ) (d : ChunkedDecoder) (out : Bytes) → run (suc f) d out ≡ after_step f out (step d)
unfolding run
run-suc f d out = go (step d)
  where
    go :
        (s : Step)
        → elim s [
          | stop d' o ↦ done d' (out ++ o)
          | malformed d' ↦ failed d'
          | again d' o ↦ run f d' (out ++ o)
        ]
          ≡ after_step f out s
    go (stop d o) = refl
    go (again d o) = refl
    go (malformed d) = refl

pub before-before : (a b : Bytes) (r : Outcome) → before (a ++ b) r ≡ before a (before b r)
before-before a b (done d x) = ap (done d) (append_assoc a b x)
before-before a b (failed d) = refl
before-before a b stuck = refl

-- What was put out before the loop stands in front.
pub run-out : (f : ℕ) (d : ChunkedDecoder) (out : Bytes) → run f d out ≡ before out (run f d [])
run-out zero d out = unfold run in refl
run-out (suc f) d out =
    run-suc f d out ∙ go (run-out f) (step d) ∙ ap (before out) (sym (run-suc f d []))
  where
    go :
        ((d : ChunkedDecoder) (out : Bytes) → run f d out ≡ before out (run f d []))
        → (s : Step) → after_step f out s ≡ before out (after_step f [] s)
    go ih (stop d o) = refl
    go ih (malformed d) = refl
    go ih (again d o) =
        ih d (out ++ o) ∙ before-before out o (run f d []) ∙ ap (before out) (sym (ih d o))

-- Any two fuels above the length of the buffer give the same.
pub run_enough :
    (f g : ℕ) (d : ChunkedDecoder) (out : Bytes)
    → length d.buf < f
    → length d.buf < g
    → run f d out ≡ run g d out
run_enough zero g d out h k = elim h [ ]
run_enough (suc f) zero d out h k = elim k [ ]
run_enough (suc f) (suc g) d out h k =
    run-suc f d out ∙ go (run_enough f g) (step d) (step-Consumes d) ∙ sym (run-suc g d out)
  where
    go :
        ((d : ChunkedDecoder) (out : Bytes)
          → length d.buf < f
          → length d.buf < g
          → run f d out ≡ run g d out)
        → (s : Step) → Consumes (length d.buf) s
        → after_step f out s ≡ after_step g out s
    go ih (stop d' o) c = refl
    go ih (malformed d') c = refl
    go ih (again d' o) c = ih d' (out ++ o) (omega arith) (omega arith)

-- With fuel above the length of the buffer the loop ends by itself.
pub run_total : (f : ℕ) (d : ChunkedDecoder) (out : Bytes) → length d.buf < f → run f d out ≢ stuck
run_total zero d out h e = elim h [ ]
run_total (suc f) d out h e =
    go (run_total f) (step d) (step-Consumes d) (sym (run-suc f d out) ∙ e)
  where
    go :
        ((d : ChunkedDecoder) (out : Bytes) → length d.buf < f → run f d out ≢ stuck)
        → (s : Step) → Consumes (length d.buf) s
        → after_step f out s ≢ stuck
    go ih (stop d' o) c e = cc e
    go ih (malformed d') c e = cc e
    go ih (again d' o) c e = ih d' (out ++ o) (omega arith) e

-- `Feed` ends on every input.
pub feed_total : (d : ChunkedDecoder) (bytes : Bytes) → (feed d bytes).1 ≢ out_of_fuel
unfolding feed result_of
feed_total d bytes = go (run (suc n) e []) (run_total (suc n) e [] (omega arith))
  where
    e : ChunkedDecoder
    e = record d { buf = d.buf ++ bytes }

    n : ℕ
    n = length e.buf

    go : (r : Outcome) → r ≢ stuck → (result_of (d.buf ++ bytes) r).1 ≢ out_of_fuel
    go (done d o) h k = cc k
    go (failed d) h k = cc k
    go stuck h k = h refl
