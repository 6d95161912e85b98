-- ===== src/Tools/Pool.antt =====
-- agentflow/tools/mcp_client_pool.h and mcp_client_pool.cc: one client for each logical server.
-- A client is told apart by the number of clients that the factory made before it.
pub mod Key
pub mod Shared
pub mod Setting
use zen_agent.Common.{
  ℕ, zero, suc, ◌+◌, ◌*◌, ◌/◌, ◌%◌, Bool, true, false, not, ◌||◌, ◌&&◌, List, [], ◌∷◌, ◌++◌, Option,
  none, some, eqb, ltb, if◌then◌else◌, length, map, bytes_equality,
}
use zen_agent.Common.Assoc.{lookup}
use zen_agent.Common.Bytes.{Bytes}
use zen_agent.Common.Bytes.Decimal.{to_string}
use zen_agent.Common.Bytes.Order.{before}

-- The fields of `McpServerSpec` that identify a server; the headers in the order in which the map
-- gives them.
pub record Server : Type 0 where
  pub transport : ℕ
  pub command_or_url : Bytes
  pub args : List Bytes
  pub headers : List (Bytes × Bytes)

abbrev pub unit_separator : ℕ
unit_separator = 31

abbrev pub record_separator : ℕ
record_separator = 30

-- `std::pair` by `operator<`.
unfoldable pub pair_before : Bytes × Bytes → Bytes × Bytes → Bool
unfolding before
pair_before (k, v) (l, w) = before k l || not (before l k) && before v w

-- `std::sort`, by insertion.
unfoldable pub insert : Bytes × Bytes → List (Bytes × Bytes) → List (Bytes × Bytes)
unfolding pair_before
insert h [] = h ∷ []
insert h (g ∷ hs) = if pair_before g h then g ∷ insert h hs else h ∷ g ∷ hs

unfoldable pub sort : List (Bytes × Bytes) → List (Bytes × Bytes)
unfolding insert
sort [] = []
sort (h ∷ hs) = insert h (sort hs)

-- A size, a colon and that many bytes, behind a separator.
unfoldable pub netstring : Bytes → Bytes
unfolding to_string
netstring s = unit_separator ∷ (to_string (length s) ++ b':' ∷ s)

unfoldable pub headers_key : List (Bytes × Bytes) → Bytes
unfolding netstring
headers_key [] = []
headers_key ((k, v) ∷ hs) = netstring k ++ (netstring v ++ headers_key hs)

unfoldable pub args_key : List Bytes → Bytes → Bytes
args_key [] rest = rest
args_key (a ∷ more) rest = unit_separator ∷ (a ++ args_key more rest)

unfoldable pub canonical_key : Server → Bytes
unfolding headers_key args_key sort
canonical_key s =
    to_string s.transport
    ++ unit_separator
      ∷ (s.command_or_url ++ args_key s.args (record_separator ∷ headers_key (sort s.headers)))

pub record Client : Type 0 where
  pub number : ℕ
  pub handler : ℕ

pub record Pool : Type 0 where
  pub clients : List (Bytes × Client)
  pub inbound_event_handler : ℕ
  pub created : ℕ

-- `GetOrCreate`, with the client it returns.
unfoldable pub get_or_create : Server → Pool → Pool × ℕ
get_or_create s p = elim (lookup (canonical_key s) p.clients) [
  | some c ↦ (p, c.number)
  | none ↦ (
    record p {
      clients =
          p.clients
          ++ (canonical_key s, record { number = p.created; handler = p.inbound_event_handler })
            ∷ [];
      created = p.created + 1;
    },
    p.created,
  )
]

-- What `SetInboundEventHandler` does under the mutex, with the clients that it copies.
unfoldable pub install_handler : ℕ → Pool → Pool × List ℕ
install_handler h p = (record p { inbound_event_handler = h }, map (λ e. e.1.number) p.clients)

-- The call of one copied client's own `SetInboundEventHandler`, behind the mutex. A client that
-- the pool no longer has is not seen here.
unfoldable pub apply_handler : ℕ → ℕ → Pool → Pool
apply_handler h n p = record p {
  clients =
      map (λ e. (e.0, record (e.1) { handler = if eqb e.1.number n then h else e.1.handler }))
        p.clients;
}

-- `Clear`, with the clients that it shuts down.
unfoldable pub clear : Pool → Pool × List ℕ
clear p = (record p { clients = [] }, map (λ e. e.1.number) p.clients)
