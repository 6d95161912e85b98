-- ===== src/Net/Url.antt =====
-- agentflow/net/http_parse.h and http_parse.cc: `ParsedUrl` and `ParseUrl`.
pub mod Parts
pub mod Print
mod Tests
use zen_agent.Common.{
  ℕ, ◌+◌, ◌-◌, Bool, true, false, List, [], ◌∷◌, ◌++◌, Option, none, some, eqb, if◌then◌else◌,
  length, take, drop,
}
use zen_agent.Common.Bytes.{Bytes, ascii, find, rfind, starts_with}

pub record ParsedUrl : Type 0 where
  pub host : Bytes
  pub port : Bytes
  pub target : Bytes
  pub tls : Bool

-- The errors, each with the URL of its message.
pub data Result : Type 0 where
  ok : ParsedUrl → Result
  unsupported_scheme no_host unclosed_literal : Bytes → Result

abbrev pub https : Bytes
https = ascii "https://"

abbrev pub http : Bytes
http = ascii "http://"

-- The port behind the `]` of a bracketed literal.
unfoldable pub port_behind : Bytes → Bytes → Bytes
port_behind default [] = default
port_behind default (c ∷ s) = if eqb c b':' then s else default

-- An authority that starts with `[`: host and port, unless the `]` is missing.
unfoldable pub bracketed : Bytes → Bytes → Option ℕ → Option (Bytes × Bytes)
unfolding port_behind
bracketed default authority none = none
bracketed default authority (some close) =
    some (take (close - 1) (drop 1 authority), port_behind default (drop (close + 1) authority))

unfoldable pub host_and_port : Bytes → Bytes → Option ℕ → Bytes × Bytes
host_and_port default authority none = (authority, default)
host_and_port default authority (some colon) = (take colon authority, drop (colon + 1) authority)

-- Host and port of an authority that is not empty.
unfoldable pub split_authority : Bytes → Bytes → Option (Bytes × Bytes)
unfolding bracketed host_and_port
split_authority default [] = some ([], default)
split_authority default (c ∷ s) =
    if eqb c b'['
    then bracketed default (c ∷ s) (find (c ∷ s) (ascii "]"))
    else some (host_and_port default (c ∷ s) (rfind (c ∷ s) b':'))

unfoldable pub with_host : Bytes → Bool → Bytes → Option (Bytes × Bytes) → Result
with_host url tls target none = unclosed_literal url
with_host url tls target (some ([], port)) = no_host url
with_host url tls target (some (c ∷ s, port)) =
    ok (record { host = c ∷ s; port = port; target = target; tls = tls })

unfoldable pub parse_authority : Bytes → Bool → Bytes → Bytes → Bytes → Result
unfolding split_authority with_host
parse_authority url tls default target [] = no_host url
parse_authority url tls default target (c ∷ s) =
    with_host url tls target (split_authority default (c ∷ s))

-- What follows the scheme; the position is the one of the first slash.
unfoldable pub parse_rest : Bytes → Bool → Bytes → Bytes → Option ℕ → Result
unfolding parse_authority
parse_rest url tls default rest none = parse_authority url tls default (ascii "/") rest
parse_rest url tls default rest (some slash) =
    parse_authority url tls default (drop slash rest) (take slash rest)

unfoldable pub parse_after : Bytes → Bool → Bytes → Bytes → Result
unfolding parse_rest
parse_after url tls default rest = parse_rest url tls default rest (find rest (ascii "/"))

unfoldable pub parse_url : Bytes → Result
unfolding parse_after
parse_url url =
    if starts_with url https
    then parse_after url true (ascii "443") (drop 8 url)
    else if starts_with url http
    then parse_after url false (ascii "80") (drop 7 url)
    else unsupported_scheme url
