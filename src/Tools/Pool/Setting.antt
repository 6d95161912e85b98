-- ===== src/Tools/Pool/Setting.antt =====
-- `McpClientPool::SetInboundEventHandler` while other calls of the pool come in between.
use zen_agent.Common.{
  ℕ, ◌≡◌, refl, Bool, true, false, List, [], ◌∷◌, inl, inr, ◌⊎◌, In, map, Option-cases, All,
  All-append, arith, eqb, if◌then◌else◌, bytes_equality,
}
use zen_agent.Common.Assoc.{lookup}
use zen_agent.Common.Bytes.{Bytes}
use zen_agent.Tools.Pool.{
  Server, canonical_key, Client, Pool, get_or_create, install_handler, apply_handler, clear,
}
use zen_agent.Tools.Pool.Shared.{All-map_with, All-weaken}

-- A step while the handler `h` is being set, with the copied clients that are left: the next of
-- them, or a call of another thread, which is not another setter.
pub data During (h : ℕ) : List ℕ → Pool → List ℕ → Pool → Type 0 where
  applies : (n : ℕ) (left : List ℕ) (p : Pool) → During h (n ∷ left) p left (apply_handler h n p)
  gets : (s : Server) (left : List ℕ) (p : Pool) → During h left p left (get_or_create s p).0
  clears : (left : List ℕ) (p : Pool) → During h left p left (clear p).0

pub data Runs (h : ℕ) : List ℕ → Pool → List ℕ → Pool → Type 0 where
  done : (left : List ℕ) (p : Pool) → Runs h left p left p
  next :
      {left mid rest : List ℕ} {p q r : Pool}
      → During h left p mid q
      → Runs h mid q rest r
      → Runs h left p rest r

-- The client has the handler, or is still to get it.
abbrev Awaits : ℕ → List ℕ → Bytes × Client → Type 0
Awaits h left e = (e.1.handler ≡ h) ⊎ In e.1.number left

record Behind (h : ℕ) (left : List ℕ) (p : Pool) : Type 0 where
  installed : p.inbound_event_handler ≡ h
  clients : All (Awaits h left) p.clients

applied :
    (h n : ℕ) (left : List ℕ) (e : Bytes × Client)
    → Awaits h (n ∷ left) e
    → Awaits h left (e.0, record (e.1) { handler = if eqb e.1.number n then h else e.1.handler })
applied h n left (k, c) w = go (eqb c.number n) refl w
  where
    go :
        (b : Bool)
        → eqb c.number n ≡ b
        → Awaits h (n ∷ left) (k, c)
        → Awaits h left (k, record c { handler = if b then h else c.handler })
    go true e w = inl refl
    go false e (inl on) = inl on
    go false e (inr (inl same)) = absurd (ground (arith, e, same))
    go false e (inr (inr later)) = inr later

During-Behind :
    (h : ℕ) {left rest : List ℕ} {p q : Pool}
    → During h left p rest q
    → Behind h left p
    → Behind h rest q
unfolding get_or_create apply_handler clear
During-Behind h (applies n left p) b = record {
  installed = b.installed;
  clients = All-map_with _ _ _ p.clients (applied h n left) b.clients;
}
During-Behind h (gets s left p) b = elim (Option-cases (lookup (canonical_key s) p.clients)) [
  | inr (c, e) ↦ rw (e, get_or_create) b
  | inl e ↦
      rw (e, get_or_create)
        (record {
          installed = b.installed;
          clients = All-append _ p.clients _ b.clients (inl b.installed, tt);
        })
]
During-Behind h (clears left p) b = record { installed = b.installed; clients = tt }

Runs-Behind :
    (h : ℕ) {left rest : List ℕ} {p q : Pool}
    → Runs h left p rest q
    → Behind h left p
    → Behind h rest q
Runs-Behind h (done left p) b = b
Runs-Behind h (next s r) b = Runs-Behind h r (During-Behind h s b)

copied : (h : ℕ) (es : List (Bytes × Client)) → All (Awaits h (map (λ e. e.1.number) es)) es
copied h [] = tt
copied h (e ∷ es) = (
  inr (inl refl),
  All-weaken (Awaits h (map (λ f. f.1.number) es)) _ es (λ f w. later f w) (copied h es),
)
  where
    later :
        (f : Bytes × Client)
        → Awaits h (map (λ g. g.1.number) es) f
        → Awaits h (e.1.number ∷ map (λ g. g.1.number) es) f
    later f (inl on) = inl on
    later f (inr i) = inr (inr i)

on_handler : (h : ℕ) (e : Bytes × Client) → Awaits h [] e → e.1.handler ≡ h
on_handler h e (inl on) = on
on_handler h e (inr i) = elim i [ ]

-- When a setter has gone through the clients that it copied, every client of the pool has its
-- handler, whatever clients other threads asked for or cleared between its parts, as long as no
-- other setter ran between them.
pub set_handler-everywhere :
    (h : ℕ) (p q : Pool)
    → Runs h (install_handler h p).1 (install_handler h p).0 [] q
    → All (λ e. e.1.handler ≡ h) q.clients
unfolding install_handler
set_handler-everywhere h p q r =
    let b = Runs-Behind h r (record { installed = refl; clients = copied h p.clients }) in
    All-weaken (Awaits h []) _ q.clients (on_handler h) b.clients
