-- ===== src/Tools/Pool/Key.antt =====
-- `McpClientPool::CanonicalKey`: which servers share a key.
use zen_agent.Common.{
  ℕ, ◌≡◌, ◌≢◌, ◌↔◌, refl, sym, ap, ◌∙◌, List, [], ◌∷◌, ◌++◌, ◌⊎◌, inl, inr, length, take, drop,
  take-length, drop-length, append_assoc, Bool-cases, In, All, arith, subst,
}
use zen_agent.Common.Bytes.{Bytes}
use zen_agent.Tools.Pool.{
  Server, pair_before, insert, sort, netstring, headers_key, args_key, canonical_key,
}
use zen_agent.Common.Bytes.Decimal.{to_string, IsDigit, to_string-IsDigit, to_string_inj}

abbrev IsMark : ℕ → Type 0
IsMark c = (c ≡ 31) ⊎ (c ≡ 30)

-- Neither separator stands in the text.
abbrev pub IsPlain : Bytes → Type 0
IsPlain = All (λ c. (c ≢ 31) × (c ≢ 30))

abbrev Marked : Bytes → Type 0
Marked [] = ⊥
Marked (c ∷ s) = IsMark c

not-IsMark : (c : ℕ) → (c ≢ 31) × (c ≢ 30) → ¬ IsMark c
not-IsMark c h (inl e) = h.0 e
not-IsMark c h (inr e) = h.1 e

-- A plain text ends where the next separator stands.
plain_inj :
    (s t x y : Bytes)
    → IsPlain s
    → IsPlain t
    → Marked x
    → Marked y
    → s ++ x ≡ t ++ y
    → (s ≡ t) × (x ≡ y)
plain_inj [] [] x y h k m n e = (refl, e)
plain_inj [] (b ∷ t) [] y h k m n e = elim m [ ]
plain_inj [] (b ∷ t) (c ∷ x) y h k m n e =
    let same : c ≡ b = cc e in absurd (not-IsMark b k.0 (subst IsMark same m))
plain_inj (a ∷ s) [] x [] h k m n e = elim n [ ]
plain_inj (a ∷ s) [] x (c ∷ y) h k m n e =
    let same : a ≡ c = cc e in absurd (not-IsMark a h.0 (subst IsMark (sym same) n))
plain_inj (a ∷ s) (b ∷ t) x y h k m n e =
    let head : a ≡ b = cc e in
    let tail : s ++ x ≡ t ++ y = cc e in
    let (p, q) = plain_inj s t x y h.1 k.1 m n tail in ((λ i. head i ∷ p i), q)

abbrev first : Bytes → ℕ
first [] = 0
first (c ∷ s) = c

args_key-Marked : (us : List Bytes) (r : Bytes) → Marked (args_key us (30 ∷ r))
unfolding args_key
args_key-Marked [] r = inr refl
args_key-Marked (a ∷ us) r = inl refl

args_key_inj :
    (us vs : List Bytes) (r q : Bytes)
    → All IsPlain us
    → All IsPlain vs
    → args_key us (30 ∷ r) ≡ args_key vs (30 ∷ q)
    → (us ≡ vs) × (r ≡ q)
unfolding args_key
args_key_inj [] [] r q h k e = (refl, cc e)
args_key_inj [] (b ∷ vs) r q h k e = absurd (omega (arith, ap first e))
args_key_inj (a ∷ us) [] r q h k e = absurd (omega (arith, ap first e))
args_key_inj (a ∷ us) (b ∷ vs) r q h k e =
    let tail : a ++ args_key us (30 ∷ r) ≡ b ++ args_key vs (30 ∷ q) = cc e in
    let (p, rest) =
      plain_inj a b (args_key us (30 ∷ r)) (args_key vs (30 ∷ q)) h.0 k.0 (args_key-Marked us r)
        (args_key-Marked vs q) tail in
    let (ps, last) = args_key_inj us vs r q h.1 k.1 rest in ((λ i. p i ∷ ps i), last)

-- Digits end where the colon stands.
colon_inj :
    (s t x y : Bytes)
    → All IsDigit s
    → All IsDigit t
    → s ++ b':' ∷ x ≡ t ++ b':' ∷ y
    → (s ≡ t) × (x ≡ y)
colon_inj [] [] x y h k e = (refl, cc e)
colon_inj [] (b ∷ t) x y h k e = let same : b':' ≡ b = cc e in absurd (omega (arith, same, k.0))
colon_inj (a ∷ s) [] x y h k e = let same : a ≡ b':' = cc e in absurd (omega (arith, same, h.0))
colon_inj (a ∷ s) (b ∷ t) x y h k e =
    let head : a ≡ b = cc e in
    let tail : s ++ b':' ∷ x ≡ t ++ b':' ∷ y = cc e in
    let (p, q) = colon_inj s t x y h.1 k.1 tail in ((λ i. head i ∷ p i), q)

same_length_inj : (s t x y : Bytes) → length s ≡ length t → s ++ x ≡ t ++ y → (s ≡ t) × (x ≡ y)
same_length_inj s t x y l e = (
  sym (take-length s x) ∙ (λ i. take (l i) (e i)) ∙ take-length t y,
  sym (drop-length s x) ∙ (λ i. drop (l i) (e i)) ∙ drop-length t y,
)

netstring_inj : (s t x y : Bytes) → netstring s ++ x ≡ netstring t ++ y → (s ≡ t) × (x ≡ y)
unfolding netstring
netstring_inj s t x y e =
    let tail : (to_string (length s) ++ b':' ∷ s) ++ x ≡ (to_string (length t) ++ b':' ∷ t) ++ y =
      cc e in
    let (sizes, rest) =
      colon_inj (to_string (length s)) (to_string (length t)) (s ++ x) (t ++ y)
        (to_string-IsDigit (length s)) (to_string-IsDigit (length t))
        (sym (append_assoc (to_string (length s)) (b':' ∷ s) x)
          ∙ tail
          ∙ append_assoc (to_string (length t)) (b':' ∷ t) y) in
    same_length_inj s t x y (to_string_inj (length s) (length t) sizes) rest

headers_key_inj : (hs ks : List (Bytes × Bytes)) → headers_key hs ≡ headers_key ks → hs ≡ ks
unfolding headers_key netstring
headers_key_inj [] [] e = refl
headers_key_inj [] ((k, v) ∷ ks) e = absurd (cc e)
headers_key_inj ((k, v) ∷ hs) [] e = absurd (cc e)
headers_key_inj ((k, v) ∷ hs) ((l, w) ∷ ks) e =
    let (names, rest) =
      netstring_inj k l (netstring v ++ headers_key hs) (netstring w ++ headers_key ks) e in
    let (values, last) = netstring_inj v w (headers_key hs) (headers_key ks) rest in
    let tails = headers_key_inj hs ks last in (λ i. (names i, values i) ∷ tails i)

In-insert : (h g : Bytes × Bytes) (hs : List (Bytes × Bytes)) → In h (insert g hs) ↔ In h (g ∷ hs)
unfolding insert
In-insert h g [] = (λ i. i, λ i. i)
In-insert h g (k ∷ hs) = elim (Bool-cases (pair_before k g)) [
  | inr after ↦ rw after ((λ i. i), (λ i. i))
  | inl yes_before ↦ rw yes_before (
    λ i. elim i [
      | inl e ↦ inr (inl e)
      | inr r ↦ elim ((In-insert h g hs).0 r) [ inl e ↦ inl e | inr t ↦ inr (inr t) ]
    ],
    λ i. elim i [
      | inl e ↦ inr ((In-insert h g hs).1 (inl e))
      | inr r ↦ elim r [ inl e ↦ inl e | inr t ↦ inr ((In-insert h g hs).1 (inr t)) ]
    ],
  )
]

-- Sorting keeps the headers.
In-sort : (h : Bytes × Bytes) (hs : List (Bytes × Bytes)) → In h (sort hs) ↔ In h hs
unfolding sort
In-sort h [] = (λ i. i, λ i. i)
In-sort h (g ∷ hs) = (
  λ i. elim ((In-insert h g (sort hs)).0 i) [ inl e ↦ inl e | inr r ↦ inr ((In-sort h hs).0 r) ],
  λ i. (In-insert h g (sort hs)).1 (elim i [ inl e ↦ inl e | inr r ↦ inr ((In-sort h hs).1 r) ]),
)

-- Two servers that are told apart.
pub record SameServer (s t : Server) : Type 0 where
  pub transport : s.transport ≡ t.transport
  pub command_or_url : s.command_or_url ≡ t.command_or_url
  pub args : s.args ≡ t.args
  pub headers : (h : Bytes × Bytes) → In h s.headers ↔ In h t.headers

-- Neither separator stands in the command or an argument. (The headers may hold any byte.)
pub record IsServer (s : Server) : Type 0 where
  pub command_or_url : IsPlain s.command_or_url
  pub args : All IsPlain s.args

digits-IsPlain : (s : Bytes) → All IsDigit s → IsPlain s
digits-IsPlain [] h = tt
digits-IsPlain (c ∷ s) h =
    ((λ e. omega (arith, h.0, e), λ e. omega (arith, h.0, e)), digits-IsPlain s h.1)

-- Servers with the same key have the same transport, command and arguments and hold the same
-- headers, whatever bytes stand in the headers, as long as no separator stands in a command or in an
-- argument.
pub canonical_key_inj :
    (s t : Server) → IsServer s → IsServer t → canonical_key s ≡ canonical_key t → SameServer s t
unfolding canonical_key
canonical_key_inj s t h k e =
    let (numbers, rest) =
      plain_inj (to_string s.transport) (to_string t.transport) _ _
        (digits-IsPlain (to_string s.transport) (to_string-IsDigit s.transport))
        (digits-IsPlain (to_string t.transport) (to_string-IsDigit t.transport)) (inl refl)
        (inl refl) e in
    let tail : s.command_or_url ++ args_key s.args (30 ∷ headers_key (sort s.headers))
        ≡ t.command_or_url ++ args_key t.args (30 ∷ headers_key (sort t.headers)) =
      cc rest in
    let (commands, others) =
      plain_inj s.command_or_url t.command_or_url _ _ h.command_or_url k.command_or_url
        (args_key-Marked s.args (headers_key (sort s.headers)))
        (args_key-Marked t.args (headers_key (sort t.headers))) tail in
    let (args, last) =
      args_key_inj s.args t.args (headers_key (sort s.headers)) (headers_key (sort t.headers))
        h.args k.args others in
    let sorted = headers_key_inj (sort s.headers) (sort t.headers) last in
    record {
      transport = to_string_inj s.transport t.transport numbers;
      command_or_url = commands;
      args = args;
      headers = λ g. (
        λ i. (In-sort g t.headers).0 (subst (In g) sorted ((In-sort g s.headers).1 i)),
        λ i. (In-sort g s.headers).0 (subst (In g) (sym sorted) ((In-sort g t.headers).1 i)),
      );
    }
