-- ===== src/Net/Chunked.antt =====
-- agentflow/net/http_parse.h and http_parse.cc: `ChunkedDecoder`.
-- In the loop of `Feed`, `buf` is the part of `buf_` from `pos` on, which `buf_.erase(0, pos)` keeps;
-- an error leaves the loop before the erasure, so the whole buffer stays.
pub mod Steps
pub mod Fuel
pub mod Split
pub mod Body
mod Tests
use zen_agent.Common.{
  ℕ, zero, suc, ◌+◌, ◌-◌, min, Bool, true, false, List, [], ◌∷◌, ◌++◌, Option, none, some, eqb, ltb,
  if◌then◌else◌, length, take, drop,
}
use zen_agent.Common.Bytes.{Bytes, crlf, find, split_once, from_chars_hex}

pub record ChunkedDecoder : Type 0 where
  pub buf : Bytes
  pub remaining : ℕ
  pub in_chunk : Bool
  pub complete : Bool

abbrev pub fresh : ChunkedDecoder
fresh = record { buf = []; remaining = 0; in_chunk = false; complete = false }

-- One round of the loop: it breaks, goes round again, or returns the error.
pub data Step : Type 0 where
  stop again : ChunkedDecoder → Bytes → Step
  malformed : ChunkedDecoder → Step

-- The branch `if (in_chunk_)`, once the available bytes are taken.
pub after_take : ChunkedDecoder → Bytes → Step
after_take d out =
    if ltb 0 d.remaining
    then stop d out
    else if ltb (length d.buf) 2
    then stop d out
    else again (record d { buf = drop 2 d.buf; in_chunk = false }) out

pub step_body : ChunkedDecoder → Step
unfolding after_take
step_body d =
    let n = min (length d.buf) d.remaining in
    after_take (record d { buf = drop n d.buf; remaining = d.remaining - n }) (take n d.buf)

-- The size line ends at `eol`; `rest` is what follows it.
pub step_parsed : ChunkedDecoder → Bytes → Option ℕ → Step
step_parsed d rest none = malformed d
step_parsed d rest (some n) =
    if eqb n 0
    then stop (record d { buf = rest; complete = true }) []
    else again (record d { buf = rest; remaining = n; in_chunk = true }) []

pub step_size : ChunkedDecoder → Option ℕ → Step
unfolding step_parsed
step_size d none = stop d []
step_size d (some eol) =
    step_parsed d (drop (eol + 2) d.buf)
      (from_chars_hex (split_once (take eol d.buf) (b';' ∷ [])).0)

-- The flags are `complete_` and `in_chunk_`.
pub dispatch : Bool → Bool → ChunkedDecoder → Step
unfolding step_body step_size
dispatch true i d = stop d []
dispatch false true d = step_body d
dispatch false false d = step_size d (find d.buf crlf)

pub step : ChunkedDecoder → Step
unfolding dispatch
step d = dispatch d.complete d.in_chunk d

-- How the loop ends; `stuck` means that the fuel ran out.
pub data Outcome : Type 0 where
  done : ChunkedDecoder → Bytes → Outcome
  failed : ChunkedDecoder → Outcome
  stuck : Outcome

pub run : ℕ → ChunkedDecoder → Bytes → Outcome
run zero d out = stuck
run (suc f) d out = elim (step d) [
  | stop d' o ↦ done d' (out ++ o)
  | malformed d' ↦ failed d'
  | again d' o ↦ run f d' (out ++ o)
]

pub data Result : Type 0 where
  ok : Bytes → Result
  malformed_chunk_size : Result
  out_of_fuel : Result

pub result_of : Bytes → Outcome → ChunkedDecoder × Result
result_of whole (done d out) = (d, ok out)
result_of whole (failed d) = (record d { buf = whole }, malformed_chunk_size)
result_of whole stuck = (record fresh { buf = whole }, out_of_fuel)

-- Every round that goes on consumes two bytes at least.
pub feed : ChunkedDecoder → Bytes → ChunkedDecoder × Result
feed d bytes =
    let whole = d.buf ++ bytes in
    result_of whole (run (suc (length whole)) (record d { buf = whole }) [])
