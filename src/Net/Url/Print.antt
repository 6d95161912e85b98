-- ===== src/Net/Url/Print.antt =====
-- `ParseUrl` on URLs that are put together from their parts.
use zen_agent.Common.{
  ◌≡◌, ◌≢◌, refl, ap, ◌∙◌, Bool, true, false, [], ◌∷◌, ◌++◌, Option, none, some, take-length,
  drop-length, append-nil,
}
use zen_agent.Common.Bytes.{Bytes, ascii, starts_with}
use zen_agent.Common.Bytes.Search.{find-byte, find-byte-none}
use zen_agent.Net.Url.{
  ParsedUrl, ok, split_authority, with_host, parse_authority, parse_rest, parse_after, parse_url,
}
use zen_agent.Net.Url.Parts.{
  Authority, named, literal, named_port, literal_port, Url, print_authority, print_path, print,
  parts, target_of, IsAuthority, print_authority-Lacks, split_authority-print,
}

with_host-parts :
    (url : Bytes) (tls : Bool) (target default : Bytes) (a : Authority)
    → IsAuthority a
    → with_host url tls target (some (parts default a))
      ≡ ok (record {
        host = (parts default a).0;
        port = (parts default a).1;
        target = target;
        tls = tls;
      })
unfolding with_host
with_host-parts url tls target default (named []) (n, k) = elim n [ ]
with_host-parts url tls target default (named (c ∷ h)) k = refl
with_host-parts url tls target default (named_port [] p) (n, k, m) = elim n [ ]
with_host-parts url tls target default (named_port (c ∷ h) p) k = refl
with_host-parts url tls target default (literal []) (f, k, l) = absurd (f refl)
with_host-parts url tls target default (literal (c ∷ a)) k = refl
with_host-parts url tls target default (literal_port [] p) ((f, k, l), m) = absurd (f refl)
with_host-parts url tls target default (literal_port (c ∷ a) p) k = refl

parse_authority-some :
    (url : Bytes) (tls : Bool) (default target s : Bytes) (r : Bytes × Bytes)
    → split_authority default s ≡ some r
    → s ≢ []
    → parse_authority url tls default target s ≡ with_host url tls target (some r)
unfolding parse_authority
parse_authority-some url tls default target [] r e h = absurd (h refl)
parse_authority-some url tls default target (c ∷ s) r e h = ap (with_host url tls target) e

print_authority-filled : (a : Authority) → IsAuthority a → print_authority a ≢ []
print_authority-filled (named []) (n, k) e = elim n [ ]
print_authority-filled (named (c ∷ h)) k e = cc e
print_authority-filled (named_port [] p) (n, k, m) e = elim n [ ]
print_authority-filled (named_port (c ∷ h) p) k e = cc e
print_authority-filled (literal a) k e = cc e
print_authority-filled (literal_port a p) k e = cc e

-- What the parser gives for the parts.
abbrev pub parsed : Bool → Bytes → Authority → Option Bytes → ParsedUrl
parsed tls default a path = record {
  host = (parts default a).0;
  port = (parts default a).1;
  target = target_of path;
  tls = tls;
}

parse_authority-print :
    (url : Bytes) (tls : Bool) (default : Bytes) (a : Authority) (path : Option Bytes)
    → IsAuthority a
    → parse_authority url tls default (target_of path) (print_authority a)
      ≡ ok (parsed tls default a path)
parse_authority-print url tls default a path h =
    parse_authority-some url tls default (target_of path) (print_authority a) (parts default a)
      (split_authority-print default a h) (print_authority-filled a h)
    ∙ with_host-parts url tls (target_of path) default a h

parse_after-print :
    (url : Bytes) (tls : Bool) (default : Bytes) (a : Authority) (path : Option Bytes)
    → IsAuthority a
    → parse_after url tls default (print_authority a ++ print_path path)
      ≡ ok (parsed tls default a path)
unfolding parse_after parse_rest
parse_after-print url tls default a none h =
    rw
      (
        append-nil (print_authority a),
        find-byte-none (print_authority a) b'/' (print_authority-Lacks a h),
      )
      (parse_authority-print url tls default a none h)
parse_after-print url tls default a (some p) h =
    rw
      (
        find-byte (print_authority a) p b'/' (print_authority-Lacks a h),
        take-length (print_authority a) (b'/' ∷ p),
        drop-length (print_authority a) (b'/' ∷ p),
      )
      (parse_authority-print url tls default a (some p) h)

abbrev pub default_port : Bool → Bytes
default_port true = ascii "443"
default_port false = ascii "80"

-- A URL that is printed from its parts is parsed into them: the scheme gives `tls` and the port
-- where none is written, a bracketed literal loses its brackets, and without a path the target
-- is `/`.
pub parse_url-print :
    (u : Url)
    → IsAuthority u.authority
    → parse_url (print u) ≡ ok (parsed u.secure (default_port u.secure) u.authority u.path)
unfolding parse_url starts_with
parse_url-print u h = go u.secure
  where
    go :
        (b : Bool)
        → parse_url (print (record u { secure = b }))
          ≡ ok (parsed b (default_port b) u.authority u.path)
    go true =
        parse_after-print (print (record u { secure = true })) true (ascii "443") u.authority u.path
          h
    go false =
        parse_after-print (print (record u { secure = false })) false (ascii "80") u.authority
          u.path h
