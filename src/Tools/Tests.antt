-- ===== src/Tools/Tests.antt =====
-- Runs of the registry, the views, the gate and the pool, and the theorems at concrete values.
use zen_agent.Common.{
  String, true, false, ◌≡◌, ◌↔◌, refl, List, [], ◌∷◌, none, some, or_else, if◌then◌else◌,
  text_equality, arith, All,
}
use zen_agent.Common.Assoc.{lookup, contains}
use zen_agent.Common.Bytes.{Bytes, ascii}
use zen_agent.Tools.{ToolSchema, Tool, native, adapter}
use zen_agent.Tools.Registry.{Policy, listed_tools, find, attach_listed, filter_of}
use zen_agent.Tools.Registry.Attach.{first_offered, mapped, find-attach_listed}
use zen_agent.Tools.Gated.{by_tier, confirm, blocked, World, decides, gives, gated_invoke}
use zen_agent.Tools.Gated.Allowed.{Allowed, IsTold, gated_invoke-Allowed, gated_invoke-IsTold}
use zen_agent.Tools.View.{add, view_from, view_invoke}
use zen_agent.Tools.View.Slice.{or_added, slice, answered, view_invoke-slice}
use zen_agent.Tools.Pool.{
  Server, Pool, canonical_key, get_or_create, install_handler, apply_handler,
}
use zen_agent.Tools.Pool.Key.{IsServer, SameServer, canonical_key_inj}
use zen_agent.Tools.Pool.Setting.{gets, applies, next, done, set_handler-everywhere}
use zen_agent.Tools.Pool.Shared.{Inv, get_or_create-shares}

abbrev named : String → ToolSchema
named n = record { name = n; description = ""; params_json_schema = "{}" }

abbrev clock : Tool
clock = native 1 (named "clock")

abbrev policy : Policy
policy = record {
  include_tools = [];
  exclude_tools = "danger" ∷ [];
  call_timeout_ms = 50;
  lazy_start = true;
}

abbrev listed : List ToolSchema
listed = named "clock" ∷ named "danger" ∷ named "search" ∷ []

find-attach_listed_example :
    find "search" (attach_listed 3 policy [] [] (listed_tools listed) (("clock", clock) ∷ [])).0
    ≡ or_else
        (find "search" (("clock", clock) ∷ []))
        (mapped (λ s. adapter 3 s 50 "") (first_offered [] ("danger" ∷ []) "search" listed))
unfolding filter_of
find-attach_listed_example =
    find-attach_listed 3 policy [] [] listed (("clock", clock) ∷ []) "search"

attached_search :
    find "search" (attach_listed 3 policy [] [] (listed_tools listed) (("clock", clock) ∷ [])).0
    ≡ some (adapter 3 (named "search") 50 "")
unfolding find attach_listed lookup contains
attached_search = refl

abbrev asks : World
asks = record {
  cancelled_at_start = false;
  gate = some (decides (record { approved = true; reason = ""; approved_args_json = "{}" }));
  cancelled_after_gate = false;
  inner = λ args. gives args;
  event_throws = λ p. false;
}

gated_invoke-Allowed_example : Allowed confirm asks "[]" "{}"
unfolding gated_invoke by_tier
gated_invoke-Allowed_example = gated_invoke-Allowed confirm asks "[]" "{}" refl

gated_invoke-IsTold_example : IsTold asks (gated_invoke blocked asks "[]")
gated_invoke-IsTold_example = gated_invoke-IsTold blocked asks "[]"

view_invoke-slice_example :
    view_invoke "clock" (
      add
        (some (native 2 (named "delegate")))
        (view_from (("clock", clock) ∷ []) (("clock", confirm) ∷ []) "" ("clock" ∷ []) []))
    ≡ or_added (some (native 2 (named "delegate"))) "clock" (
        answered (
          if contains {K = String} ("clock" ∷ []) "clock"
          then slice (("clock", clock) ∷ []) (("clock", confirm) ∷ []) "" "clock"
          else none))
view_invoke-slice_example =
    view_invoke-slice (("clock", clock) ∷ []) (("clock", confirm) ∷ []) "" "clock" ("clock" ∷ [])
      (some (native 2 (named "delegate")))

abbrev server : Bytes → Server
server token = record {
  transport = 2;
  command_or_url = ascii "http://h";
  args = [];
  headers = (ascii "Authorization", token) ∷ [];
}

server-IsServer : (token : Bytes) → IsServer (server token)
server-IsServer token = record { command_or_url = omega arith; args = tt }

canonical_key_inj_example : SameServer (server (ascii "a")) (server (ascii "a"))
canonical_key_inj_example =
    canonical_key_inj (server (ascii "a")) (server (ascii "a")) (server-IsServer (ascii "a"))
      (server-IsServer (ascii "a")) refl

abbrev empty_pool : Pool
empty_pool = record { clients = []; inbound_event_handler = 0; created = 0 }

empty_pool-Inv : Inv empty_pool
empty_pool-Inv = record { members = tt; distinct = tt }

get_or_create-shares_example :
    ((get_or_create (server (ascii "a")) empty_pool).1
      ≡ (get_or_create (server (ascii "b")) (get_or_create (server (ascii "a")) empty_pool).0).1)
    ↔ (canonical_key (server (ascii "a")) ≡ canonical_key (server (ascii "b")))
get_or_create-shares_example =
    get_or_create-shares (server (ascii "a")) (server (ascii "b")) empty_pool empty_pool-Inv

-- A pool with one client, and a setter while another client is asked for.
abbrev one_client : Pool
one_client = record {
  clients = (ascii "k", record { number = 0; handler = 5 }) ∷ [];
  inbound_event_handler = 5;
  created = 1;
}

abbrev asked_for : Pool
asked_for = (get_or_create (server (ascii "a")) (install_handler 7 one_client).0).0

set_handler-everywhere_example : All (λ e. e.1.handler ≡ 7) (apply_handler 7 0 asked_for).clients
unfolding install_handler
set_handler-everywhere_example = set_handler-everywhere 7 one_client (apply_handler 7 0 asked_for) (
    next (gets (server (ascii "a")) (0 ∷ []) (install_handler 7 one_client).0)
      (next (applies 0 [] asked_for) (done [] (apply_handler 7 0 asked_for))))

-- Two setters that overlap: the later one installs its handler, and the client keeps the earlier
-- one.
overtaken :
    apply_handler 7 0 (apply_handler 8 0 (install_handler 8 (install_handler 7 one_client).0).0)
    ≡ record {
      clients = (ascii "k", record { number = 0; handler = 7 }) ∷ [];
      inbound_event_handler = 8;
      created = 1;
    }
unfolding apply_handler install_handler
overtaken = refl

-- The key does not tell one argument that holds a separator from two arguments.
spliced_args :
    canonical_key (record (server (ascii "a")) { args = (b'x' ∷ 31 ∷ b'y' ∷ []) ∷ [] })
    ≡ canonical_key (record (server (ascii "a")) { args = ascii "x" ∷ ascii "y" ∷ [] })
unfolding canonical_key
spliced_args = refl
