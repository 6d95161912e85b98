-- ===== src/Net/Url/Parts.antt =====
-- URLs that are put together from their parts, and how an authority is split again.
use zen_agent.Common.{
  ℕ, suc, ◌+◌, ◌-◌, ◌≡◌, ◌≢◌, refl, ap, ◌∙◌, Bool, false, [], ◌∷◌, ◌++◌, Option, none, some, eqb,
  if◌then◌else◌, length, take, drop, arith, take-length, drop-length, drop-add,
}
use zen_agent.Common.Bytes.{Bytes, ascii, find}
use zen_agent.Common.Bytes.Search.{Lacks, find-byte, rfind-none, rfind-byte}
use zen_agent.Net.Url.{https, http, port_behind, bracketed, host_and_port, split_authority}

-- A host name or a bracketed literal, with a port or without.
pub data Authority : Type 0 where
  named literal : Bytes → Authority
  named_port literal_port : Bytes → Bytes → Authority

pub record Url : Type 0 where
  pub secure : Bool
  pub authority : Authority
  pub path : Option Bytes

abbrev pub print_authority : Authority → Bytes
print_authority (named h) = h
print_authority (named_port h p) = h ++ b':' ∷ p
print_authority (literal a) = b'[' ∷ (a ++ b']' ∷ [])
print_authority (literal_port a p) = b'[' ∷ (a ++ b']' ∷ b':' ∷ p)

abbrev pub print_path : Option Bytes → Bytes
print_path none = []
print_path (some p) = b'/' ∷ p

abbrev pub print : Url → Bytes
print u = (if u.secure then https else http) ++ (print_authority u.authority ++ print_path u.path)

-- The host and the port that an authority stands for.
abbrev pub parts : Bytes → Authority → Bytes × Bytes
parts default (named h) = (h, default)
parts default (named_port h p) = (h, p)
parts default (literal a) = (a, default)
parts default (literal_port a p) = (a, p)

abbrev pub target_of : Option Bytes → Bytes
target_of none = ascii "/"
target_of (some p) = b'/' ∷ p

-- The bytes that would end a part early do not stand in it. (A host name with a port may hold
-- colons: the last one counts.)
abbrev pub IsName : Bytes → Type 0
IsName [] = ⊥
IsName (c ∷ s) = (c ≢ b'[') × Lacks b'/' (c ∷ s)

abbrev pub IsLiteral : Bytes → Type 0
IsLiteral a = (a ≢ []) × Lacks b']' a × Lacks b'/' a

abbrev pub IsAuthority : Authority → Type 0
IsAuthority (named h) = IsName h × Lacks b':' h
IsAuthority (named_port h p) = IsName h × Lacks b':' p × Lacks b'/' p
IsAuthority (literal a) = IsLiteral a
IsAuthority (literal_port a p) = IsLiteral a × Lacks b'/' p

Lacks-append : (c : ℕ) (s t : Bytes) → Lacks c s → Lacks c t → Lacks c (s ++ t)
Lacks-append c [] t h k = k
Lacks-append c (a ∷ s) t h k = (h.0, Lacks-append c s t h.1 k)

pub print_authority-Lacks : (a : Authority) → IsAuthority a → Lacks b'/' (print_authority a)
print_authority-Lacks (named []) (n, k) = elim n [ ]
print_authority-Lacks (named_port [] p) (n, k, m) = elim n [ ]
print_authority-Lacks (named (c ∷ h)) ((n, l), k) = l
print_authority-Lacks (named_port (c ∷ h) p) ((n, l), k, m) =
    Lacks-append b'/' (c ∷ h) (b':' ∷ p) l (ground arith, m)
print_authority-Lacks (literal a) (f, k, l) =
    (ground arith, Lacks-append b'/' a (b']' ∷ []) l (ground arith, tt))
print_authority-Lacks (literal_port a p) ((f, k, l), m) =
    (ground arith, Lacks-append b'/' a (b']' ∷ b':' ∷ p) l (ground arith, (ground arith, m)))

-- The literal and the port behind it.
split_authority-literal :
    (default a t : Bytes)
    → Lacks b']' a
    → split_authority default (b'[' ∷ (a ++ b']' ∷ t)) ≡ some (a, port_behind default t)
unfolding split_authority bracketed
split_authority-literal default a t h =
    let n = length a in
    let found : find (b'[' ∷ (a ++ b']' ∷ t)) (ascii "]") ≡ some (suc n) =
      find-byte (b'[' ∷ a) t b']' (ground arith, h) in
    let literal : take (suc n - 1) (a ++ b']' ∷ t) ≡ a =
      (let e : suc n - 1 ≡ n = omega arith in rw e (take-length a (b']' ∷ t))) in
    let rest : drop (suc n + 1) (b'[' ∷ (a ++ b']' ∷ t)) ≡ t =
      (let e : suc n + 1 ≡ suc (n + 1) = omega arith in
        rw e (drop-add n 1 (a ++ b']' ∷ t) ∙ ap (drop 1) (drop-length a (b']' ∷ t)))) in
    rw found (λ i. some (literal i, port_behind default (rest i)))

-- The authority is split into its parts.
pub split_authority-print :
    (default : Bytes) (a : Authority)
    → IsAuthority a
    → split_authority default (print_authority a) ≡ some (parts default a)
unfolding split_authority host_and_port bracketed port_behind
split_authority-print default (named []) (n, k) = elim n [ ]
split_authority-print default (named_port [] p) (n, k, m) = elim n [ ]
split_authority-print default (named (c ∷ h)) ((n, l), k) =
    let no : eqb c b'[' ≡ false = ground (arith, n) in rw (no, rfind-none (c ∷ h) b':' k) refl
split_authority-print default (named_port (c ∷ h) p) ((n, l), k, m) =
    let no : eqb c b'[' ≡ false = ground (arith, n) in
    rw
      (
        no,
        rfind-byte (c ∷ h) p b':' k,
        take-length (c ∷ h) (b':' ∷ p),
        drop-add (length (c ∷ h)) 1 (c ∷ h ++ b':' ∷ p),
        drop-length (c ∷ h) (b':' ∷ p),
      )
      refl
split_authority-print default (literal a) (f, k, l) = split_authority-literal default a [] k
split_authority-print default (literal_port a p) ((f, k, l), m) =
    split_authority-literal default a (b':' ∷ p) k
