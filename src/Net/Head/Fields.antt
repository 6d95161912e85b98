-- ===== src/Net/Head/Fields.antt =====
-- The flags of a head against the list of its headers.
use zen_agent.Common.{
  or_false, ℕ, zero, suc, ◌≡◌, refl, sym, ap, ◌∙◌, Bool, true, false, ◌||◌, ◌==◌, bytes_equality,
  List, [], ◌∷◌, ◌++◌, inl, inr, Bool-cases, if◌then◌else◌,
}
use zen_agent.Common.Int.{ℤ, negsuc}
use zen_agent.Common.Bytes.{Bytes, ascii, crlf, split_once, from_chars_int}
use zen_agent.Net.Head.{
  ResponseHead, incomplete, is_chunked, length_or, add_field, add_header, add_headers,
}

-- Some header announces the chunked coding.
pub any_chunked : List (Bytes × Bytes) → Bool
any_chunked [] = false
any_chunked ((n, v) ∷ hs) = is_chunked n v || any_chunked hs

-- What the length is after one header.
pub length_after : ℤ → Bytes → Bytes → ℤ
length_after old name value =
    if is_chunked name value
    then old
    else if name == ascii "content-length"
    then length_or old (from_chars_int 64 value)
    else old

-- The last length that a `content-length` header gives, or `old`.
pub last_length : List (Bytes × Bytes) → ℤ → ℤ
last_length [] old = old
last_length ((n, v) ∷ hs) old = last_length hs (length_after old n v)

-- The two fields say what the headers say.
pub record Summary (h : ResponseHead) : Type 0 where
  pub chunked : h.chunked ≡ any_chunked h.headers
  pub content_length : h.content_length ≡ last_length h.headers (negsuc 0)

or_true : (b : Bool) → b || true ≡ true
or_true true = refl
or_true false = refl

or_assoc : (a b c : Bool) → a || (b || c) ≡ (a || b) || c
or_assoc true b c = refl
or_assoc false b c = refl

pub incomplete-Summary : (n : ℕ) → Summary (record incomplete { status_code = n })
unfolding any_chunked last_length
incomplete-Summary n = record { chunked = refl; content_length = refl }

any_chunked-append :
    (hs ks : List (Bytes × Bytes)) → any_chunked (hs ++ ks) ≡ any_chunked hs || any_chunked ks
unfolding any_chunked
any_chunked-append [] ks = refl
any_chunked-append ((n, v) ∷ hs) ks =
    ap (◌||◌ (is_chunked n v)) (any_chunked-append hs ks)
    ∙ or_assoc (is_chunked n v) (any_chunked hs) (any_chunked ks)

last_length-append :
    (hs ks : List (Bytes × Bytes)) (old : ℤ)
    → last_length (hs ++ ks) old ≡ last_length ks (last_length hs old)
unfolding last_length
last_length-append [] ks old = refl
last_length-append ((n, v) ∷ hs) ks old = last_length-append hs ks (length_after old n v)

-- One header more.
added-Summary :
    (h : ResponseHead) (n v : Bytes) (c : Bool) (l : ℤ)
    → Summary h
    → c ≡ h.chunked || is_chunked n v
    → l ≡ length_after h.content_length n v
    → Summary (record h { chunked = c; content_length = l; headers = h.headers ++ (n, v) ∷ [] })
unfolding any_chunked last_length
added-Summary h n v c l s e f = record {
  chunked =
      e
      ∙ (λ i. s.chunked i || sym (or_false (is_chunked n v)) i)
      ∙ sym (any_chunked-append h.headers ((n, v) ∷ []));
  content_length =
      f
      ∙ ap (λ x. length_after x n v) s.content_length
      ∙ sym (last_length-append h.headers ((n, v) ∷ []) (negsuc 0));
}

add_field-Summary : (h : ResponseHead) (n v : Bytes) → Summary h → Summary (add_field h n v)
unfolding add_field length_after
add_field-Summary h n v s = elim (Bool-cases (is_chunked n v)) [
  | inl e ↦
      rw (e, add_field)
        (added-Summary h n v true h.content_length s
          (sym (ap (◌||◌ h.chunked) e ∙ or_true h.chunked)) (rw (e, length_after) refl))
  | inr e ↦ elim (Bool-cases (n == ascii "content-length")) [
    | inl f ↦
        rw (e, f, add_field)
          (added-Summary h n v h.chunked (length_or h.content_length (from_chars_int 64 v)) s
            (sym (ap (◌||◌ h.chunked) e ∙ or_false h.chunked)) (rw (e, f, length_after) refl))
    | inr f ↦
        rw (e, f, add_field)
          (added-Summary h n v h.chunked h.content_length s
            (sym (ap (◌||◌ h.chunked) e ∙ or_false h.chunked)) (rw (e, f, length_after) refl))
  ]
]

add_header-Summary : (h : ResponseHead) (line : Bytes) → Summary h → Summary (add_header h line)
unfolding add_header
add_header-Summary h [] s = s
add_header-Summary h (c ∷ line) s = add_field-Summary h _ _ s

pub add_headers-Summary :
    (f : ℕ) (h : ResponseHead) (block : Bytes) → Summary h → Summary (add_headers f h block)
unfolding add_headers
add_headers-Summary zero h block s = s
add_headers-Summary (suc f) h [] s = s
add_headers-Summary (suc f) h (c ∷ block) s = add_headers-Summary f _ _ (add_header-Summary h _ s)

-- The headers leave the status code alone.
add_field-status_code :
    (h : ResponseHead) (n v : Bytes) → (add_field h n v).status_code ≡ h.status_code
unfolding add_field
add_field-status_code h n v = elim (Bool-cases (is_chunked n v)) [
  | inl e ↦ rw (e, add_field) refl
  | inr e ↦ elim (Bool-cases (n == ascii "content-length")) [
    | inl f ↦ rw (e, f, add_field) refl
    | inr f ↦ rw (e, f, add_field) refl
  ]
]

pub add_headers-status_code :
    (f : ℕ) (h : ResponseHead) (block : Bytes) → (add_headers f h block).status_code ≡ h.status_code
unfolding add_headers add_header
add_headers-status_code zero h block = refl
add_headers-status_code (suc f) h [] = refl
add_headers-status_code (suc f) h (c ∷ block) =
    add_headers-status_code f _ _ ∙ go (split_once (c ∷ block) crlf).0
  where
    go : (line : Bytes) → (add_header h line).status_code ≡ h.status_code
    go [] = refl
    go (d ∷ s) = add_field-status_code h _ _
