-- ===== src/Inference/Messages/Images/Missing.antt =====
-- The image references that are left in messages.
use zen_agent.Common.{
  ◌≡◌, refl, ap, ◌∙◌, List, [], ◌∷◌, ◌++◌, Option, none, some, inl, inr, Bool-cases, In,
  bytes_equality, bytes_eqb,
}
use zen_agent.Common.Assoc.{contains, lookup, In-of_contains}
use zen_agent.Common.Bytes.{Bytes, ascii}
use zen_agent.Common.Json.{
  Json, null, boolean, integer, fraction, str, arr, obj, Fields, end, field, elements, items_of,
  array_at,
}
use zen_agent.Inference.Messages.{image_key}
use zen_agent.Inference.Messages.Images.{
  add_key, collect_key, collect_items, collect_content, collect, collect_image_ref_keys,
  substituted, missed, substitute_item, before_items, substitute_items, put_content, with_content,
  substitute_message, substitute_image_refs,
}

elements-items_of : (xs : List Json) → elements (items_of xs) ≡ xs
elements-items_of [] = refl
elements-items_of (x ∷ xs) = ap (◌∷◌ x) (elements-items_of xs)

-- What a changed message has as its content.
pub content-with :
    (ys : List Json) (m : Json) (xs : List Json)
    → array_at (ascii "content") m ≡ some xs
    → array_at (ascii "content") (with_content ys m) ≡ some ys
unfolding with_content put_content
content-with ys (obj fs) xs h = go fs h
  where
    go :
        (fs : Fields)
        → array_at (ascii "content") (obj fs) ≡ some xs
        → array_at (ascii "content") (obj (put_content ys fs)) ≡ some ys
    go end h = absurd (cc h)
    go (field k v fs) h = elim (Bool-cases (bytes_eqb (ascii "content") k)) [
      | inl e ↦ rw e (rw (e, array_at) (ap some (elements-items_of ys)))
      | inr e ↦ rw e (rw (e, array_at) (go fs (rw (e, array_at) at h)))
    ]
content-with ys null xs h = absurd (cc h)
content-with ys (boolean b) xs h = absurd (cc h)
content-with ys (integer n) xs h = absurd (cc h)
content-with ys (fraction t) xs h = absurd (cc h)
content-with ys (str t) xs h = absurd (cc h)
content-with ys (arr zs) xs h = absurd (cc h)

pub In-add_key : (k j : Bytes) (keys : List Bytes) → In k keys → In k (add_key j keys)
In-add_key k j keys i = elim (Bool-cases (contains keys j)) [
  | inl e ↦ rw e i
  | inr e ↦ rw e (go keys i)
]
  where
    go : (keys : List Bytes) → In k keys → In k (keys ++ j ∷ [])
    go [] i = elim i [ ]
    go (x ∷ keys) (inl e) = inl e
    go (x ∷ keys) (inr i) = inr (go keys i)

pub In-add_self : (k : Bytes) (keys : List Bytes) → In k (add_key k keys)
In-add_self k keys = elim (Bool-cases (contains keys k)) [
  | inl e ↦ rw e (In-of_contains keys k e)
  | inr e ↦ rw e (go keys)
]
  where
    go : (keys : List Bytes) → In k (keys ++ k ∷ [])
    go [] = inl refl
    go (x ∷ keys) = inr (go keys)

module _ (urls : List (Bytes × Bytes)) where
  -- The references left in a content are those that are missed.
  collect-substitute_item :
      (o : Option Bytes) (x : Json) (missing : List Bytes)
      → image_key x ≡ o
      → collect_key (image_key (substitute_item urls o x missing).0) missing
        ≡ (substitute_item urls o x missing).1
  unfolding image_key
  collect-substitute_item none x missing e = rw e refl
  collect-substitute_item (some k) x missing e = url (lookup k urls)
    where
      url :
          (u : Option Bytes)
          → collect_key (image_key (substituted u x)) missing ≡ missed u k missing
      url none = rw e refl
      url (some u) = refl

  collect-substitute_items :
      (xs : List Json) (missing : List Bytes)
      → collect_items (substitute_items urls xs missing).0 missing
        ≡ (substitute_items urls xs missing).1
  unfolding collect_items substitute_items
  collect-substitute_items [] missing = refl
  collect-substitute_items (x ∷ xs) missing =
      go (substitute_item urls (image_key x) x missing)
        (collect-substitute_item (image_key x) x missing refl)
        (λ more. collect-substitute_items xs more)
    where
      go :
          (p : Json × List Bytes)
          → collect_key (image_key p.0) missing ≡ p.1
          → ((more : List Bytes)
              → collect_items (substitute_items urls xs more).0 more
                ≡ (substitute_items urls xs more).1)
          → collect_items (before_items p.0 (substitute_items urls xs p.1)).0 missing
            ≡ (before_items p.0 (substitute_items urls xs p.1)).1
      go (y, more) e ih = ap (collect_items (substitute_items urls xs more).0) e ∙ ih more

  collect-substitute_message :
      (o : Option (List Json)) (m : Json) (missing : List Bytes)
      → array_at (ascii "content") m ≡ o
      → collect_content (array_at (ascii "content") (substitute_message urls o m missing).0) missing
        ≡ (substitute_message urls o m missing).1
  collect-substitute_message none m missing e = ap (λ o. collect_content o missing) e
  collect-substitute_message (some xs) m missing e =
      ap (λ o. collect_content o missing) (content-with (substitute_items urls xs missing).0 m xs e)
      ∙ collect-substitute_items xs missing

  collect-substitute :
      (ms : List Json) (missing : List Bytes)
      → collect (substitute_image_refs urls ms missing).0 missing
        ≡ (substitute_image_refs urls ms missing).1
  unfolding collect substitute_image_refs
  collect-substitute [] missing = refl
  collect-substitute (m ∷ ms) missing =
      go (substitute_message urls (array_at (ascii "content") m) m missing)
        (collect-substitute_message (array_at (ascii "content") m) m missing refl)
        (λ more. collect-substitute ms more)
    where
      go :
          (p : Json × List Bytes)
          → collect_content (array_at (ascii "content") p.0) missing ≡ p.1
          → ((more : List Bytes)
              → collect (substitute_image_refs urls ms more).0 more
                ≡ (substitute_image_refs urls ms more).1)
          → collect (before_items p.0 (substitute_image_refs urls ms p.1)).0 missing
            ≡ (before_items p.0 (substitute_image_refs urls ms p.1)).1
      go (n, more) e ih = ap (collect (substitute_image_refs urls ms more).0) e ∙ ih more

  -- Behind the substitution, the keys of the references that are left are exactly those that it
  -- names as missing, in the same order.
  pub collect_image_ref_keys-substitute :
      (ms : List Json)
      → collect_image_ref_keys (substitute_image_refs urls ms []).0
        ≡ (substitute_image_refs urls ms []).1
  unfolding collect_image_ref_keys
  collect_image_ref_keys-substitute ms = collect-substitute ms []
