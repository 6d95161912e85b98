-- ===== src/Workflow/Loader/Signing/Order.antt =====
-- `CanonicalForm`: the order of members and the signing do not show.
use zen_agent.Common.{◌≡◌, ◌≢◌, refl, ap, ◌∙◌, inl, inr, Bool-cases, arith, bytes_equality, ◌==◌}
use zen_agent.Common.Bytes.{Bytes, ascii}
use zen_agent.Common.Bytes.Order.{before_asym, before_trans, before_total}
use zen_agent.Common.Json.{Json, arr, obj, Items, nil, cons, Fields, end, field, put_member}
use zen_agent.Workflow.Loader.Signing.{canon, canon_items, canon_members, canon_root, canonical}

-- The same value with the members of objects in another order.
mutual
  pub data Reordered : Json → Json → Type 0 where
    same : {j : Json} → Reordered j j
    in_array : {xs ys : Items} → ReorderedItems xs ys → Reordered (arr xs) (arr ys)
    in_object : {fs gs : Fields} → ReorderedFields fs gs → Reordered (obj fs) (obj gs)

  pub data ReorderedItems : Items → Items → Type 0 where
    no_items : ReorderedItems nil nil
    items :
        {j k : Json} {xs ys : Items}
        → Reordered j k
        → ReorderedItems xs ys
        → ReorderedItems (cons j xs) (cons k ys)

  pub data ReorderedFields : Fields → Fields → Type 0 where
    no_members : ReorderedFields end end
    members :
        {k : Bytes} {v w : Json} {fs gs : Fields}
        → Reordered v w
        → ReorderedFields fs gs
        → ReorderedFields (field k v fs) (field k w gs)
    swapped :
        {k l : Bytes} {v w : Json} {fs : Fields}
        → k ≢ l
        → ReorderedFields (field k v (field l w fs)) (field l w (field k v fs))
    followed :
        {fs gs hs : Fields} → ReorderedFields fs gs → ReorderedFields gs hs → ReorderedFields fs hs

-- Two keys that differ are put into the map in either order.
put_member_comm :
    (k l : Bytes) (v w : Json) (m : Fields)
    → k ≢ l
    → put_member l w (put_member k v m) ≡ put_member k v (put_member l w m)
unfolding put_member
put_member_comm k l v w end d = ground (
  arith,
  bytes_equality.same_iff k l,
  bytes_equality.same_iff l k,
  before_asym k l,
  before_total k l,
)
put_member_comm k l v w (field j u m) d = ground (
  arith,
  bytes_equality.same_iff k l,
  bytes_equality.same_iff l k,
  bytes_equality.same_iff k j,
  bytes_equality.same_iff l j,
  before_asym k l,
  before_total k l,
  before_total k j,
  before_total l j,
  before_trans k j l,
  before_trans l j k,
  before_asym k j,
  before_asym l j,
  before_trans k l j,
  before_trans l k j,
  put_member_comm k l v w m d,
)

mutual
  unfolding canon

  canon-Reordered : {j k : Json} → Reordered j k → canon j ≡ canon k
  canon-Reordered same = refl
  canon-Reordered (in_array r) = ap arr (canon_items-Reordered r)
  canon-Reordered (in_object r) = ap obj (canon_members-Reordered r end)

  canon_items-Reordered : {xs ys : Items} → ReorderedItems xs ys → canon_items xs ≡ canon_items ys
  canon_items-Reordered no_items = refl
  canon_items-Reordered (items r s) = λ i. cons (canon-Reordered r i) (canon_items-Reordered s i)

  canon_members-Reordered :
      {fs gs : Fields}
      → ReorderedFields fs gs
      → (m : Fields) → canon_members fs m ≡ canon_members gs m
  canon_members-Reordered no_members m = refl
  canon_members-Reordered (members {k} {v} {w} {fs} {gs} r s) m =
      canon_members-Reordered s (put_member k (canon v) m)
      ∙ ap (λ x. canon_members gs (put_member k x m)) (canon-Reordered r)
  canon_members-Reordered (swapped {k} {l} {v} {w} {fs} d) m =
      ap (canon_members fs) (put_member_comm k l (canon v) (canon w) m d)
  canon_members-Reordered (followed r s) m =
      canon_members-Reordered r m ∙ canon_members-Reordered s m

canon_root-Reordered :
    {fs gs : Fields} → ReorderedFields fs gs → (m : Fields) → canon_root fs m ≡ canon_root gs m
unfolding canon_root
canon_root-Reordered no_members m = refl
canon_root-Reordered (members {k} {v} {w} {fs} {gs} r s) m =
    elim (Bool-cases (k == ascii "signing")) [
      | inl e ↦ rw e (canon_root-Reordered s m)
      | inr e ↦ rw e (
          canon_root-Reordered s (put_member k (canon v) m)
          ∙ ap (λ x. canon_root gs (put_member k x m)) (canon-Reordered r))
    ]
canon_root-Reordered (swapped {k} {l} {v} {w} {fs} d) m = elim (Bool-cases (k == ascii "signing")) [
  | inl e ↦ rw e
  | inr e ↦ elim (Bool-cases (l == ascii "signing")) [
    | inl g ↦ rw (e, g)
    | inr g ↦ rw (e, g) (ap (canon_root fs) (put_member_comm k l (canon v) (canon w) m d))
  ]
]
canon_root-Reordered (followed r s) m = canon_root-Reordered r m ∙ canon_root-Reordered s m

-- A workflow to which a signing is added, and whose members and those of every object in it stand
-- in another order, has the same canonical form.
pub canonical-signed :
    {fs gs : Fields} (v : Json)
    → ReorderedFields fs gs
    → canonical (obj (field (ascii "signing") v fs)) ≡ canonical (obj gs)
unfolding canonical canon_root
canonical-signed v r = ap obj (canon_root-Reordered r end)
