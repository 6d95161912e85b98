-- ===== src/Net/Url/Tests.antt =====
-- Runs of the URL parser, and the theorem at concrete URLs.
use zen_agent.Common.{◌≡◌, refl, false, none, arith}
use zen_agent.Common.Bytes.{ascii, find, rfind, starts_with}
use zen_agent.Net.Url.{ok, no_host, unclosed_literal, unsupported_scheme, parse_url}
use zen_agent.Net.Url.Parts.{Url, named_port}
use zen_agent.Net.Url.Print.{parse_url-print}

no_scheme : parse_url (ascii "ftp://x") ≡ unsupported_scheme (ascii "ftp://x")
unfolding parse_url starts_with
no_scheme = refl

only_port : parse_url (ascii "http://:80/") ≡ no_host (ascii "http://:80/")
unfolding parse_url starts_with find rfind
only_port = refl

no_bracket : parse_url (ascii "https://[::1/x") ≡ unclosed_literal (ascii "https://[::1/x")
unfolding parse_url starts_with find rfind
no_bracket = refl

abbrev local_url : Url
local_url = record { secure = false; authority = named_port (ascii "h") (ascii "80"); path = none }

parse_url-print_example :
    parse_url (ascii "http://h:80")
    ≡ ok (record { host = ascii "h"; port = ascii "80"; target = ascii "/"; tls = false })
parse_url-print_example = parse_url-print local_url (
  (ground arith, (ground arith, tt)),
  (ground arith, (ground arith, tt)),
  (ground arith, (ground arith, tt)),
)
