-- ===== src/Inference/Messages/Images/Marked.antt =====
-- The messages whose missing image references are marked as expired.
use zen_agent.Common.{
  ◌≡◌, refl, ap, ◌∙◌, false, List, [], ◌∷◌, Option, none, some, inl, inr, Bool-cases, In, All,
  bytes_equality,
}
use zen_agent.Common.Assoc.{contains, lookup, contains_of_In}
use zen_agent.Common.Bytes.{Bytes, ascii}
use zen_agent.Common.Json.{Json, array_at}
use zen_agent.Inference.Messages.{image_key}
use zen_agent.Inference.Messages.Images.{
  missed, substitute_item, before_items, substitute_items, with_content, substitute_message,
  substitute_image_refs, mark_key, mark_items, mark_content, mark_image_refs_expired,
}
use zen_agent.Inference.Messages.Images.Missing.{content-with, In-add_key, In-add_self}

-- References that have a URL, or whose key is in a list.
module _ (urls : List (Bytes × Bytes)) (keys : List Bytes) where
  CoveredUrl : Option Bytes → Bytes → Type 0
  CoveredUrl none k = In k keys
  CoveredUrl (some url) k = Unit

  CoveredKey : Option Bytes → Type 0
  unfolding CoveredUrl
  CoveredKey none = Unit
  CoveredKey (some k) = CoveredUrl (lookup k urls) k

  CoveredContent : Option (List Json) → Type 0
  unfolding CoveredKey
  CoveredContent none = Unit
  CoveredContent (some xs) = All (λ x. CoveredKey (image_key x)) xs

  Covered : List Json → Type 0
  unfolding CoveredContent
  Covered = All (λ m. CoveredContent (array_at (ascii "content") m))

  -- What is missing before is missing behind, and so is each key without a URL.
  missed-Covered :
      (o : Option Bytes) (x : Json) (missing : List Bytes)
      → ((k : Bytes) → In k (substitute_item urls o x missing).1 → In k keys)
      → CoveredKey o × ((k : Bytes) → In k missing → In k keys)
  unfolding CoveredKey CoveredUrl
  missed-Covered none x missing h = (tt, h)
  missed-Covered (some k) x missing h = go (lookup k urls) h
    where
      go :
          (u : Option Bytes)
          → ((j : Bytes) → In j (missed u k missing) → In j keys)
          → CoveredUrl u k × ((j : Bytes) → In j missing → In j keys)
      go none h = (h k (In-add_self k missing), λ j i. h j (In-add_key j k missing i))
      go (some url) h = (tt, h)

  substitute_items-Covered :
      (xs : List Json) (missing : List Bytes)
      → ((k : Bytes) → In k (substitute_items urls xs missing).1 → In k keys)
      → CoveredContent (some xs) × ((k : Bytes) → In k missing → In k keys)
  unfolding substitute_items CoveredContent
  substitute_items-Covered [] missing h = (tt, h)
  substitute_items-Covered (x ∷ xs) missing h =
      go (substitute_item urls (image_key x) x missing) (missed-Covered (image_key x) x missing)
        (λ more. substitute_items-Covered xs more) h
    where
      go :
          (p : Json × List Bytes)
          → (((k : Bytes) → In k p.1 → In k keys)
              → CoveredKey (image_key x) × ((k : Bytes) → In k missing → In k keys))
          → ((more : List Bytes)
              → ((k : Bytes) → In k (substitute_items urls xs more).1 → In k keys)
              → CoveredContent (some xs) × ((k : Bytes) → In k more → In k keys))
          → ((k : Bytes) → In k (before_items p.0 (substitute_items urls xs p.1)).1 → In k keys)
          → (CoveredKey (image_key x) × CoveredContent (some xs))
            × ((k : Bytes) → In k missing → In k keys)
      go (y, more) one ih h =
          let (rest, before) = ih more h in let (first, all) = one before in ((first, rest), all)

  substitute_message-Covered :
      (o : Option (List Json)) (m : Json) (missing : List Bytes)
      → ((k : Bytes) → In k (substitute_message urls o m missing).1 → In k keys)
      → CoveredContent o × ((k : Bytes) → In k missing → In k keys)
  unfolding CoveredContent
  substitute_message-Covered none m missing h = (tt, h)
  substitute_message-Covered (some xs) m missing h = substitute_items-Covered xs missing h

  substitute_image_refs-Covered :
      (ms : List Json) (missing : List Bytes)
      → ((k : Bytes) → In k (substitute_image_refs urls ms missing).1 → In k keys)
      → Covered ms × ((k : Bytes) → In k missing → In k keys)
  unfolding substitute_image_refs Covered
  substitute_image_refs-Covered [] missing h = (tt, h)
  substitute_image_refs-Covered (m ∷ ms) missing h =
      go (substitute_message urls (array_at (ascii "content") m) m missing)
        (substitute_message-Covered (array_at (ascii "content") m) m missing)
        (λ more. substitute_image_refs-Covered ms more) h
    where
      go :
          (p : Json × List Bytes)
          → (((k : Bytes) → In k p.1 → In k keys)
              → CoveredContent (array_at (ascii "content") m)
                × ((k : Bytes) → In k missing → In k keys))
          → ((more : List Bytes)
              → ((k : Bytes) → In k (substitute_image_refs urls ms more).1 → In k keys)
              → Covered ms × ((k : Bytes) → In k more → In k keys))
          → ((k : Bytes)
              → In k (before_items p.0 (substitute_image_refs urls ms p.1)).1
              → In k keys)
          → (CoveredContent (array_at (ascii "content") m) × Covered ms)
            × ((k : Bytes) → In k missing → In k keys)
      go (n, more) one ih h =
          let (rest, before) = ih more h in let (first, all) = one before in ((first, rest), all)

  -- Nothing is missing behind the mark.
  marked_item :
      (o : Option Bytes) (x : Json) (missing : List Bytes)
      → image_key x ≡ o
      → CoveredKey o
      → (substitute_item urls (image_key (mark_key keys o x)) (mark_key keys o x) missing).1
        ≡ missing
  unfolding CoveredKey CoveredUrl image_key
  marked_item none x missing e c = rw e refl
  marked_item (some k) x missing e c = elim (Bool-cases (contains keys k)) [
    | inl there ↦ rw (there, mark_key) refl
    | inr gone ↦ rw (gone, mark_key) (rw e (url gone (lookup k urls) c))
  ]
    where
      url :
          contains keys k ≡ false
          → (u : Option Bytes) → CoveredUrl u k
          → missed u k missing ≡ missing
      url gone none i = absurd (cc (contains_of_In keys k i, gone))
      url gone (some u) i = refl

  marked_items :
      (xs : List Json) (missing : List Bytes)
      → CoveredContent (some xs)
      → (substitute_items urls (mark_items keys xs) missing).1 ≡ missing
  unfolding substitute_items mark_items CoveredContent
  marked_items [] missing c = refl
  marked_items (x ∷ xs) missing c =
      marked_items xs
        (substitute_item urls (image_key (mark_key keys (image_key x) x))
          (mark_key keys (image_key x) x) missing).1
        c.1
      ∙ marked_item (image_key x) x missing refl c.0

  marked_message :
      (o : Option (List Json)) (m : Json) (missing : List Bytes)
      → array_at (ascii "content") m ≡ o
      → CoveredContent o
      → (substitute_message urls
          (array_at (ascii "content") (mark_content keys o m))
          (mark_content keys o m)
          missing).1
        ≡ missing
  marked_message none m missing e c = ap (λ o. (substitute_message urls o m missing).1) e
  marked_message (some xs) m missing e c =
      ap (λ o. (substitute_message urls o (with_content (mark_items keys xs) m) missing).1)
        (content-with (mark_items keys xs) m xs e)
      ∙ marked_items xs missing c

  marked_messages :
      (ms : List Json) (missing : List Bytes)
      → Covered ms
      → (substitute_image_refs urls (mark_image_refs_expired keys ms) missing).1 ≡ missing
  unfolding substitute_image_refs mark_image_refs_expired Covered
  marked_messages [] missing c = refl
  marked_messages (m ∷ ms) missing c =
      let o = array_at (ascii "content") m in
      marked_messages ms
        (substitute_message urls (array_at (ascii "content") (mark_content keys o m))
          (mark_content keys o m) missing).1
        c.1
      ∙ marked_message o m missing refl c.0

-- Once the references that a substitution names as missing are marked as expired, the same
-- substitution finds none missing.
pub substitute_image_refs-marked :
    (urls : List (Bytes × Bytes)) (ms : List Json)
    → (substitute_image_refs urls
        (mark_image_refs_expired (substitute_image_refs urls ms []).1 ms)
        []).1
      ≡ []
substitute_image_refs-marked urls ms =
    marked_messages urls (substitute_image_refs urls ms []).1 ms []
      (substitute_image_refs-Covered urls (substitute_image_refs urls ms []).1 ms [] (λ k i. i)).0
