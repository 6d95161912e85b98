-- ===== src/Net/Head/Tests.antt =====
-- Runs of the head parser, and the theorems at concrete responses.
use zen_agent.Common.{◌≡◌, refl, true, ◌⊎◌, [], ◌∷◌, ◌++◌, none, some}
use zen_agent.Common.Int.{pos}
use zen_agent.Common.Bytes.{
  Bytes, ascii, crlf, find, starts_with, split_once, trim_ascii, ascii_str_to_lower, from_chars_int,
}
use zen_agent.Net.Head.{
  ResponseHead, ok, malformed_status_line, malformed_status_code, incomplete, parse_response_head,
  is_chunked,
}
use zen_agent.Net.Head.Complete.{IsHead, parse_response_head-IsHead, parse_response_head-append}

abbrev response : Bytes
response = ascii "HTTP/1.1 200 OK\r\nContent-Length: 5\r\nTransfer-Encoding:  Chunked\r\n\r\n"

abbrev response_head : ResponseHead
response_head = record {
  status_code = 200;
  headers = (ascii "content-length", ascii "5") ∷ (ascii "transfer-encoding", ascii "Chunked") ∷ [];
  head_bytes = 67;
  chunked = true;
  content_length = pos 5;
}

parsed_response : parse_response_head response ≡ ok response_head
unfolding parse_response_head find starts_with split_once trim_ascii ascii_str_to_lower
    from_chars_int is_chunked
parsed_response = refl

bad_code : parse_response_head (ascii "HTTP/1.1 99 X\r\n\r\n") ≡ malformed_status_code
unfolding parse_response_head find starts_with split_once from_chars_int
bad_code = refl

bad_line : parse_response_head (ascii "HTP/1.1 200 X\r\n\r\n") ≡ malformed_status_line
unfolding parse_response_head find starts_with split_once from_chars_int
bad_line = refl

parse_response_head-IsHead_example :
    ((find response (crlf ++ crlf) ≡ none) × (response_head ≡ incomplete))
    ⊎ IsHead response response_head
parse_response_head-IsHead_example =
    parse_response_head-IsHead response response_head parsed_response

response-ended : find response (crlf ++ crlf) ≡ some 63
unfolding find starts_with
response-ended = refl

parse_response_head-append_example :
    parse_response_head (response ++ ascii "hello") ≡ parse_response_head response
parse_response_head-append_example =
    parse_response_head-append response (ascii "hello") 63 response-ended
