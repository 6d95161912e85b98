-- ===== src/Tools/Pool/Shared.antt =====
-- `McpClientPool`: who shares a client.
use zen_agent.Common.{
  ℕ, ◌<◌, ◌≡◌, ◌≢◌, ◌↔◌, refl, sym, ap, ◌∙◌, List, [], ◌∷◌, ◌++◌, inl, inr, some, or_else, map,
  Bool-cases, Option-cases, All, All-append, arith, bytes_equality, ◌==◌, subst, eqb, if◌then◌else◌,
}
use zen_agent.Common.Assoc.{lookup, lookup-append, eq_self}
use zen_agent.Common.Bytes.{Bytes}
use zen_agent.Tools.Pool.{
  Server, canonical_key, Client, Pool, get_or_create, install_handler, apply_handler, clear,
}

-- The client was made by the pool.
abbrev pub InPool : Pool → Bytes × Client → Type 0
InPool p e = e.1.number < p.created

-- Clients under different keys are different clients.
abbrev pub NumbersDiffer : List (Bytes × Client) → Type 0
NumbersDiffer [] = Unit
NumbersDiffer (e ∷ es) = All (λ f. f.1.number ≢ e.1.number) es × NumbersDiffer es

pub record Inv (p : Pool) : Type 0 where
  pub members : All (InPool p) p.clients
  pub distinct : NumbersDiffer p.clients

-- The calls of the pool, the setter in its parts.
pub data Step : Pool → Pool → Type 0 where
  gets : (s : Server) (p : Pool) → Step p (get_or_create s p).0
  installs : (h : ℕ) (p : Pool) → Step p (install_handler h p).0
  applies : (h n : ℕ) (p : Pool) → Step p (apply_handler h n p)
  clears : (p : Pool) → Step p (clear p).0

pub All-map_with :
    {A : Type 0} (P Q : A → Type 0) (f : A → A) (xs : List A)
    → ((x : A) → P x → Q (f x))
    → All P xs
    → All Q (map f xs)
All-map_with P Q f [] h k = tt
All-map_with P Q f (x ∷ xs) h k = (h x k.0, All-map_with P Q f xs h k.1)

NumbersDiffer-append :
    (es : List (Bytes × Client)) (f : Bytes × Client)
    → NumbersDiffer es
    → All (λ e. f.1.number ≢ e.1.number) es
    → NumbersDiffer (es ++ f ∷ [])
NumbersDiffer-append [] f h k = (tt, tt)
NumbersDiffer-append (e ∷ es) f h k = (
  All-append (λ g. g.1.number ≢ e.1.number) es (f ∷ []) h.0 (k.0, tt),
  NumbersDiffer-append es f h.1 k.1,
)

pub All-weaken :
    (P Q : Bytes × Client → Type 0) (es : List (Bytes × Client))
    → ((e : Bytes × Client) → P e → Q e)
    → All P es
    → All Q es
All-weaken P Q [] h k = tt
All-weaken P Q (e ∷ es) h k = (h e k.0, All-weaken P Q es h k.1)

NumbersDiffer-set :
    (h : Client → ℕ) (es : List (Bytes × Client))
    → NumbersDiffer es
    → NumbersDiffer (map (λ e. (e.0, record (e.1) { handler = h e.1 })) es)
NumbersDiffer-set h [] k = tt
NumbersDiffer-set h (e ∷ es) k = (All-map_with _ _ _ es (λ f n. n) k.0, NumbersDiffer-set h es k.1)

-- Every call keeps the clients apart.
pub Step-Inv : (p q : Pool) → Step p q → Inv p → Inv q
unfolding get_or_create install_handler apply_handler clear
Step-Inv p _ (gets s _) i = elim (Option-cases (lookup (canonical_key s) p.clients)) [
  | inr (c, e) ↦ rw (e, get_or_create) i
  | inl e ↦
      rw (e, get_or_create)
        (record {
          members =
              All-append _ p.clients _
                (All-weaken (InPool p) _ p.clients (λ f k. omega (arith, k)) i.members)
                (omega arith, tt);
          distinct =
              NumbersDiffer-append p.clients _ i.distinct
                (All-weaken (InPool p) _ p.clients (λ f k q. omega (arith, k, q)) i.members);
        })
]
Step-Inv p _ (installs h _) i = record { members = i.members; distinct = i.distinct }
Step-Inv p _ (applies h n _) i = record {
  members = All-map_with (InPool p) _ _ p.clients (λ e k. k) i.members;
  distinct = NumbersDiffer-set (λ c. if eqb c.number n then h else c.handler) p.clients i.distinct;
}
Step-Inv p _ (clears _) i = record { members = tt; distinct = tt }

-- What is found under a key.
abbrev Found : Bytes → Pool → ℕ → Type 0
Found k p n = (c : Client) × (lookup k p.clients ≡ some c) × (c.number ≡ n)

Found-self :
    (s : Server) (p : Pool) → Found (canonical_key s) (get_or_create s p).0 (get_or_create s p).1
unfolding get_or_create lookup
Found-self s p = elim (Option-cases (lookup (canonical_key s) p.clients)) [
  | inr (c, e) ↦ rw (e, get_or_create) (c, e, refl)
  | inl e ↦
      let made : Client = record { number = p.created; handler = p.inbound_event_handler } in
      rw (e, get_or_create)
        (
          made,
          lookup-append (canonical_key s) p.clients ((canonical_key s, made) ∷ [])
              ∙ ap (λ o. or_else o (lookup (canonical_key s) ((canonical_key s, made) ∷ []))) e
              ∙ rw (eq_self (canonical_key s)),
          refl,
        )
]

Found-kept :
    (k : Bytes) (n : ℕ) (s : Server) (p : Pool) → Found k p n → Found k (get_or_create s p).0 n
unfolding get_or_create
Found-kept k n s p (c, found, same) = elim (Option-cases (lookup (canonical_key s) p.clients)) [
  | inr (d, e) ↦ rw (e, get_or_create) (c, found, same)
  | inl e ↦
      let made : Client = record { number = p.created; handler = p.inbound_event_handler } in
      let more : List (Bytes × Client) = (canonical_key s, made) ∷ [] in
      rw (e, get_or_create)
        (c, lookup-append k p.clients more ∙ ap (λ o. or_else o (lookup k more)) found, same)
]

All-lookup :
    (P : Bytes × Client → Type 0) (es : List (Bytes × Client)) (k : Bytes) (c : Client)
    → All P es
    → lookup k es ≡ some c
    → P (k, c)
unfolding lookup
All-lookup P [] k c h e = absurd (cc e)
All-lookup P ((j, d) ∷ es) k c h e = elim (Bool-cases (k == j)) [
  | inl same ↦
      let key : k ≡ j = (bytes_equality.same_iff k j).0 same in
      let client : d ≡ c = cc (rw same at e) in subst P (λ i. (sym key i, client i)) h.0
  | inr other ↦ All-lookup P es k c h.1 (rw other at e)
]

NumbersDiffer-lookup :
    (es : List (Bytes × Client)) (k l : Bytes) (c d : Client)
    → NumbersDiffer es
    → lookup k es ≡ some c
    → lookup l es ≡ some d
    → c.number ≡ d.number
    → k ≡ l
unfolding lookup
NumbersDiffer-lookup [] k l c d h e f n = absurd (cc e)
NumbersDiffer-lookup ((j, b) ∷ es) k l c d h e f n = elim (Bool-cases (k == j)) [
  | inl here ↦ elim (Bool-cases (l == j)) [
    | inl there ↦ (bytes_equality.same_iff k j).0 here ∙ sym ((bytes_equality.same_iff l j).0 there)
    | inr there ↦
        let first : b ≡ c = cc (rw here at e) in
        absurd (
          All-lookup (λ g. g.1.number ≢ b.number) es l d h.0 (rw there at f)
            (sym n ∙ ap (λ x. x.number) (sym first)))
  ]
  | inr here ↦ elim (Bool-cases (l == j)) [
    | inl there ↦
        let first : b ≡ d = cc (rw there at f) in
        absurd (
          All-lookup (λ g. g.1.number ≢ b.number) es k c h.0 (rw here at e)
            (n ∙ ap (λ x. x.number) (sym first)))
    | inr there ↦ NumbersDiffer-lookup es k l c d h.1 (rw here at e) (rw there at f) n
  ]
]

-- Two calls give the same client exactly if the keys of their servers are the same.
pub get_or_create-shares :
    (s t : Server) (p : Pool)
    → Inv p
    → ((get_or_create s p).1 ≡ (get_or_create t (get_or_create s p).0).1)
      ↔ (canonical_key s ≡ canonical_key t)
get_or_create-shares s t p i =
    let q = (get_or_create s p).0 in
    let (c, found_c, is_c) =
      Found-kept (canonical_key s) (get_or_create s p).1 t q (Found-self s p) in
    let (d, found_d, is_d) = Found-self t q in
    let r = (get_or_create t q).0 in
    let j = Step-Inv q r (gets t q) (Step-Inv p q (gets s p) i) in
    (
      λ e.
          NumbersDiffer-lookup r.clients (canonical_key s) (canonical_key t) c d j.distinct found_c
            found_d (is_c ∙ e ∙ sym is_d),
      λ e.
          let same : c ≡ d = cc (found_c, found_d, ap (λ k. lookup k r.clients) e) in
          sym is_c ∙ ap (λ x. x.number) same ∙ is_d,
    )
