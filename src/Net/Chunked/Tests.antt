-- ===== src/Net/Chunked/Tests.antt =====
-- Runs of the decoder, and the theorems at concrete bodies.
use zen_agent.Common.{◌≡◌, ◌≢◌, refl, inl, inr, true, List, [], ◌∷◌, arith}
use zen_agent.Common.Bytes.{Bytes, ascii, find, starts_with, split_once, from_chars_hex}
use zen_agent.Net.Chunked.{fresh, ok, malformed_chunk_size, out_of_fuel, feed, run, step, result_of}
use zen_agent.Net.Chunked.Split.{Same, feed_all, joined, feed_pieces}
use zen_agent.Net.Chunked.Fuel.{feed_total}
use zen_agent.Net.Chunked.Body.{Chunk, IsChunk, encoded, feed-encoded}

-- "5;a=b\r\nhello\r\n2\r\n!!\r\n0\r\n", in three pieces.
abbrev pieces : List Bytes
pieces = ascii "llo\r" ∷ ascii "\n2\r\n!!\r\n0\r\n" ∷ []

whole_body : (feed fresh (ascii "5;a=b\r\nhello\r\n2\r\n!!\r\n0\r\n")).1 ≡ ok (ascii "hello!!")
unfolding feed run step result_of find starts_with split_once from_chars_hex
whole_body = refl

bad_size : (feed fresh (ascii "zz\r\n")).1 ≡ malformed_chunk_size
unfolding feed run step result_of find starts_with split_once from_chars_hex
bad_size = refl

feed_pieces_example :
    Same
      (feed fresh (joined (ascii "5;a=b\r\nhe") pieces))
      (feed_all fresh (ascii "5;a=b\r\nhe") pieces)
feed_pieces_example = feed_pieces fresh (ascii "5;a=b\r\nhe") pieces

abbrev hello : Chunk
hello = record { size_line = ascii "5;a=b"; payload = ascii "hello" }

hello-IsChunk : IsChunk hello
unfolding find starts_with split_once from_chars_hex
hello-IsChunk = record { sized = (omega arith, refl); filled = omega arith }

feed-encoded_example :
    feed fresh (encoded (hello ∷ []) (ascii "0") (ascii "\r\n"))
    ≡ (record fresh { buf = ascii "\r\n"; complete = true }, ok (ascii "hello"))
unfolding find starts_with split_once from_chars_hex
feed-encoded_example =
    feed-encoded (hello ∷ []) (ascii "0") (ascii "\r\n")
      (λ c i. elim i [ inl e ↦ rw e hello-IsChunk | inr n ↦ absurd n ]) (omega arith, refl)

feed_total_example : (feed fresh (ascii "5\r\nhel")).1 ≢ out_of_fuel
feed_total_example = feed_total fresh (ascii "5\r\nhel")
