-- ===== src/Net/Head.antt =====
-- agentflow/net/http_parse.h and http_parse.cc: `ResponseHead` and `ParseResponseHead`.
-- Each round of the loop consumes a byte at least, so its fuel is the length of the block.
pub mod Fields
pub mod Complete
mod Tests
use zen_agent.Common.{
  is_some, ℕ, zero, suc, ◌+◌, Bool, true, false, ◌||◌, ◌&&◌, ◌==◌, bytes_equality, List, [], ◌∷◌,
  ◌++◌, Option, none, some, ltb, if◌then◌else◌, length, take,
}
use zen_agent.Common.Int.{ℤ, pos, negsuc}
use zen_agent.Common.Bytes.{
  Bytes, ascii, crlf, find, starts_with, split_once, trim_ascii, ascii_str_to_lower, from_chars_int,
}

pub record ResponseHead : Type 0 where
  pub status_code : ℕ
  pub headers : List (Bytes × Bytes)
  pub head_bytes : ℕ
  pub chunked : Bool
  pub content_length : ℤ

abbrev pub incomplete : ResponseHead
incomplete = record {
  status_code = 0;
  headers = [];
  head_bytes = 0;
  chunked = false;
  content_length = negsuc 0;
}

pub data Result : Type 0 where
  ok : ResponseHead → Result
  malformed_status_line malformed_status_code : Result

unfoldable pub is_chunked : Bytes → Bytes → Bool
is_chunked name value =
    name == ascii "transfer-encoding" && is_some (find (ascii_str_to_lower value) (ascii "chunked"))

unfoldable pub length_or : ℤ → Option ℤ → ℤ
length_or old none = old
length_or old (some n) = n

-- One header, its name in lower case, both parts trimmed.
unfoldable pub add_field : ResponseHead → Bytes → Bytes → ResponseHead
unfolding length_or
add_field head name value =
    if is_chunked name value
    then record head { chunked = true; headers = head.headers ++ (name, value) ∷ [] }
    else if name == ascii "content-length"
    then record head {
      content_length = length_or head.content_length (from_chars_int 64 value);
      headers = head.headers ++ (name, value) ∷ [];
    }
    else record head { headers = head.headers ++ (name, value) ∷ [] }

unfoldable pub add_header : ResponseHead → Bytes → ResponseHead
unfolding add_field
add_header head [] = head
add_header head (c ∷ s) =
    let halves = split_once (c ∷ s) (ascii ":") in
    add_field head (ascii_str_to_lower (trim_ascii halves.0)) (trim_ascii halves.1)

unfoldable pub add_headers : ℕ → ResponseHead → Bytes → ResponseHead
unfolding add_header
add_headers zero head remaining = head
add_headers (suc f) head [] = head
add_headers (suc f) head (c ∷ s) =
    let halves = split_once (c ∷ s) crlf in add_headers f (add_header head halves.0) halves.1

-- The status code, in range.
unfoldable pub checked_code : Option ℤ → Option ℕ
checked_code none = none
checked_code (some (negsuc n)) = none
checked_code (some (pos n)) = if ltb n 100 || ltb 599 n then none else some n

unfoldable pub with_code : Option ℕ → ℕ → Bytes → Result
unfolding add_headers
with_code none bytes block = malformed_status_code
with_code (some code) bytes block =
    let head = add_headers (length block) (record incomplete { status_code = code }) block in
    ok (record head { head_bytes = bytes })

-- The head's text, without the empty line that ends it.
unfoldable pub parse_lines : Bytes → ℕ → Result
unfolding with_code checked_code
parse_lines h bytes =
    let lines = split_once h crlf in
    let words = split_once lines.0 (ascii " ") in
    if starts_with words.0 (ascii "HTTP/")
    then with_code (checked_code (from_chars_int 32 (split_once words.1 (ascii " ")).0)) bytes
        lines.1
    else malformed_status_line

unfoldable pub parse_found : Bytes → Option ℕ → Result
unfolding parse_lines
parse_found buf none = ok incomplete
parse_found buf (some term) = parse_lines (take term buf) (term + 4)

unfoldable pub parse_response_head : Bytes → Result
unfolding parse_found
parse_response_head buf = parse_found buf (find buf (crlf ++ crlf))
