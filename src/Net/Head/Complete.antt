-- ===== src/Net/Head/Complete.antt =====
-- `ParseResponseHead` on complete heads, and with bytes behind them.
use zen_agent.Common.{
  ℕ, ◌+◌, ◌≤◌, ◌≡◌, refl, sym, ap, subst, ◌⊎◌, inl, inr, ◌++◌, Option, none, some, Bool-cases,
  length, take, take-append_left, arith,
}
use zen_agent.Common.Int.{ℤ, pos, negsuc}
use zen_agent.Common.Bytes.{Bytes, ascii, crlf, find, starts_with, split_once, from_chars_int}
use zen_agent.Common.Bytes.Find.{find-le, find-append}
use zen_agent.Net.Head.{
  ResponseHead, incomplete, ok, add_headers, checked_code, with_code, parse_lines, parse_found,
  parse_response_head,
}
use zen_agent.Net.Head.Fields.{
  Summary, add_headers-Summary, incomplete-Summary, add_headers-status_code,
}

-- A head that ends within `buf`.
pub record IsHead (buf : Bytes) (h : ResponseHead) : Type 0 where
  pub ended : (i : ℕ) × (find buf (crlf ++ crlf) ≡ some i) × (h.head_bytes ≡ i + 4)
  pub fits : h.head_bytes ≤ length buf
  pub in_range : (100 ≤ h.status_code) × (h.status_code ≤ 599)
  pub summary : Summary h

checked_code-in_range : (o : Option ℤ) (n : ℕ) → checked_code o ≡ some n → (100 ≤ n) × (n ≤ 599)
unfolding checked_code
checked_code-in_range none n e = absurd (cc e)
checked_code-in_range (some (negsuc k)) n e = absurd (cc e)
checked_code-in_range (some (pos k)) n e = ground (arith, e)

with_code-IsHead :
    (buf block : Bytes) (o : Option ℕ) (i : ℕ) (h : ResponseHead)
    → ((n : ℕ) → o ≡ some n → (100 ≤ n) × (n ≤ 599))
    → find buf (crlf ++ crlf) ≡ some i
    → with_code o (i + 4) block ≡ ok h
    → IsHead buf h
unfolding with_code
with_code-IsHead buf block none i h r e q = absurd (cc q)
with_code-IsHead buf block (some n) i h r e q =
    let start : ResponseHead = record incomplete { status_code = n } in
    let head = add_headers (length block) start block in
    let is_head : record head { head_bytes = i + 4 } ≡ h = cc q in
    let s = add_headers-Summary (length block) start block (incomplete-Summary n) in
    subst (IsHead buf) is_head (record {
      ended = (i, e, refl);
      fits = find-le buf (crlf ++ crlf) i e;
      in_range =
          subst (λ c. (100 ≤ c) × (c ≤ 599))
            (sym (add_headers-status_code (length block) start block)) (r n refl);
      summary = record { chunked = s.chunked; content_length = s.content_length };
    })

parse_lines-IsHead :
    (buf lines : Bytes) (i : ℕ) (h : ResponseHead)
    → find buf (crlf ++ crlf) ≡ some i
    → parse_lines lines (i + 4) ≡ ok h
    → IsHead buf h
unfolding parse_lines
parse_lines-IsHead buf lines i h e q =
    let words = split_once (split_once lines crlf).0 (ascii " ") in
    let code = from_chars_int 32 (split_once words.1 (ascii " ")).0 in
    elim (Bool-cases (starts_with words.0 (ascii "HTTP/"))) [
      | inl http ↦
          with_code-IsHead buf (split_once lines crlf).1 (checked_code code) i h
            (checked_code-in_range code) e (rw (http, parse_lines) at q)
      | inr other ↦ absurd (cc (rw (other, parse_lines) at q))
    ]

-- A head that is parsed is either reported incomplete, when its end is not in the buffer, or ends
-- within the buffer, with a status code in range and the fields that its headers give.
pub parse_response_head-IsHead :
    (buf : Bytes) (h : ResponseHead)
    → parse_response_head buf ≡ ok h
    → ((find buf (crlf ++ crlf) ≡ none) × (h ≡ incomplete)) ⊎ IsHead buf h
unfolding parse_response_head parse_found
parse_response_head-IsHead buf h = go (find buf (crlf ++ crlf)) refl
  where
    go :
        (o : Option ℕ)
        → find buf (crlf ++ crlf) ≡ o
        → parse_found buf o ≡ ok h
        → ((find buf (crlf ++ crlf) ≡ none) × (h ≡ incomplete)) ⊎ IsHead buf h
    go none e q = inl (e, sym (cc q))
    go (some i) e q = inr (parse_lines-IsHead buf (take i buf) i h e q)

-- Once the end of the head is there, the bytes behind it change nothing, errors included.
pub parse_response_head-append :
    (buf t : Bytes) (i : ℕ)
    → find buf (crlf ++ crlf) ≡ some i
    → parse_response_head (buf ++ t) ≡ parse_response_head buf
unfolding parse_response_head parse_found
parse_response_head-append buf t i e =
    rw (find-append buf (crlf ++ crlf) t i e, e)
      (ap (λ s. parse_lines s (i + 4))
        (take-append_left i buf t (omega (arith, find-le buf (crlf ++ crlf) i e))))
