-- ===== src/Net/Sse.antt =====
-- agentflow/net/http_parse.h and http_parse.cc: `FramePayload`, `SseFramer`.
-- A loop's fuel is the length of the text it consumes, so that without fuel the text is empty.
pub mod Frames
pub mod Frame
mod Tests
pub mod Messages
pub mod Split
use zen_agent.Common.{
  ℕ, zero, suc, ◌+◌, Bool, true, false, ◌||◌, ◌==◌, List, [], ◌∷◌, ◌++◌, Option, none, some, ltb,
  eqb, if◌then◌else◌, length, take, drop, bytes_equality,
}
use zen_agent.Common.Bytes.{Bytes, ascii, crlf, find, split_once}

abbrev pub lf : Bytes
lf = b'\n' ∷ []

-- `line.remove_suffix(1)` behind a carriage return.
unfoldable pub without_cr : Bytes → Bytes
without_cr [] = []
without_cr (c ∷ []) = if eqb c b'\r' then [] else c ∷ []
without_cr (c ∷ d ∷ s) = c ∷ without_cr (d ∷ s)

unfoldable pub without_space : Bytes → Bytes
without_space [] = []
without_space (c ∷ s) = if eqb c b' ' then s else c ∷ s

abbrev pub data_name : Bytes
data_name = ascii "data"

-- A field of the name `name` and the value `value`.
unfoldable pub add_field : Bytes → Bytes × Bytes → Bytes
unfolding without_space
add_field payload (name, value) =
    if name == data_name
    then elim payload [ [] ↦ without_space value | c ∷ s ↦ (c ∷ s) ++ b'\n' ∷ without_space value ]
    else payload

-- The body of the loop, for a line without its end.
unfoldable pub add_line : Bytes → Bytes → Bytes
unfolding add_field
add_line payload [] = payload
add_line payload (c ∷ s) =
    if eqb c b':' then payload else add_field payload (split_once (c ∷ s) (b':' ∷ []))

unfoldable pub payload_from : ℕ → Bytes → Bytes → Bytes
unfolding add_line without_cr
payload_from zero payload frame = payload
payload_from (suc f) payload [] = payload
payload_from (suc f) payload (c ∷ s) =
    let halves = split_once (c ∷ s) lf in
    payload_from f (add_line payload (without_cr halves.0)) halves.1

unfoldable pub frame_payload : Bytes → Bytes
unfolding payload_from
frame_payload frame = payload_from (length frame) [] frame

pub record SseFramer : Type 0 where
  pub buf : Bytes
  pub saw_done : Bool

-- The end of the first frame and the length of what ends it, from the places of the two forms of
-- the blank line.
unfoldable pub earlier : Option ℕ → Option ℕ → Option (ℕ × ℕ)
earlier none none = none
earlier (some e) none = some (e, 2)
earlier none (some c) = some (c, 4)
earlier (some e) (some c) = if ltb c e then some (c, 4) else some (e, 2)

unfoldable pub frame_end : Bytes → Option (ℕ × ℕ)
unfolding earlier
frame_end s = earlier (find s (lf ++ lf)) (find s (crlf ++ crlf))

abbrev pub done_payload : Bytes
done_payload = ascii "[DONE]"

-- What a payload gives: nothing, the flag, or an item of the output.
unfoldable pub delivered : Bytes → List Bytes
delivered [] = []
delivered (c ∷ s) = if (c ∷ s) == done_payload then [] else (c ∷ s) ∷ []

-- The loop of `Feed`.
unfoldable pub drain : ℕ → SseFramer → SseFramer × List Bytes
unfolding frame_end delivered
drain zero d = (d, [])
drain (suc f) d = elim (frame_end d.buf) [
  | none ↦ (d, [])
  | some (e, sep) ↦
      let payload = frame_payload (take e d.buf) in
      let rest = drain f (record d {
        buf = drop (e + sep) d.buf;
        saw_done = d.saw_done || payload == done_payload;
      }) in
      (rest.0, delivered payload ++ rest.1)
]

unfoldable pub feed : SseFramer → Bytes → SseFramer × List Bytes
unfolding drain
feed d bytes = drain (length (d.buf ++ bytes)) (record d { buf = d.buf ++ bytes })

unfoldable pub flush : SseFramer → SseFramer × List Bytes
unfolding delivered
flush d =
    let payload = frame_payload d.buf in
    (record d { buf = []; saw_done = d.saw_done || payload == done_payload }, delivered payload)
