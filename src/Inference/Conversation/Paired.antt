-- ===== src/Inference/Conversation/Paired.antt =====
-- The histories of a conversation: their messages can be read, and each request is paired.
use zen_agent.Common.{
  ◌≡◌, refl, sym, ap, subst, false, List, [], ◌∷◌, ◌++◌, Option, none, some, ◌⊎◌, inl, inr, ltb,
  if◌then◌else◌, length, Bool-cases, All, All-append, bytes_eqb, bytes_equality,
}
use zen_agent.Common.Bytes.{Bytes, ascii}
use zen_agent.Common.Json.{
  Json, null, boolean, integer, fraction, str, arr, obj, Fields, end, field, at, fields_at,
  array_at,
}
use zen_agent.Inference.Messages.{messages, system_with, system_parsed, system_message}
use zen_agent.Inference.Messages.Sent.{tool_message-Typed}
use zen_agent.Inference.Messages.Repair.{value_at, not_executed}
use zen_agent.Inference.Messages.Repair.Paired.{Extended, done, kept, added, Typed}
use zen_agent.Inference.Messages.Repair.Repaired.{Replied, repair_tool_call_pairing-Replied}
use zen_agent.Inference.Messages.Images.{
  collect_image_ref_keys, put_content, with_content, mark_items, mark_content,
  mark_image_refs_expired,
}
use zen_agent.Inference.Conversation.{
  History, Prepared, ready, refused, escaped, of_system, opened, restored, limited, prepare,
}

-- A changed content changes no other member.
at-with_content :
    (k : Bytes) (ys : List Json) (m : Json)
    → bytes_eqb k (ascii "content") ≡ false
    → at k (with_content ys m) ≡ at k m
unfolding with_content put_content
at-with_content k ys (obj fs) d = go fs
  where
    go : (fs : Fields) → fields_at k (put_content ys fs) ≡ fields_at k fs
    go end = refl
    go (field j v fs) = elim (Bool-cases (bytes_eqb (ascii "content") j)) [
      | inr e ↦ rw e (ap (λ r. if bytes_eqb k j then some v else r) (go fs))
      | inl e ↦
          let same = (bytes_equality.same_iff (ascii "content") j).0 e in
          rw e (rw (subst (λ x. bytes_eqb k x ≡ false) same d) refl)
    ]
at-with_content k ys null d = refl
at-with_content k ys (boolean b) d = refl
at-with_content k ys (integer n) d = refl
at-with_content k ys (fraction t) d = refl
at-with_content k ys (str t) d = refl
at-with_content k ys (arr xs) d = refl

mark_content-Typed :
    (keys : List Bytes) (o : Option (List Json)) (m : Json)
    → Typed m
    → Typed (mark_content keys o m)
unfolding value_at
mark_content-Typed keys none m h = h
mark_content-Typed keys (some xs) m h =
    rw
      (
        at-with_content (ascii "role") (mark_items keys xs) m refl,
        at-with_content (ascii "tool_call_id") (mark_items keys xs) m refl,
      )
      h

pub mark_image_refs_expired-Typed :
    (keys : List Bytes) (ms : List Json)
    → All Typed ms
    → All Typed (mark_image_refs_expired keys ms)
unfolding mark_image_refs_expired
mark_image_refs_expired-Typed keys [] h = tt
mark_image_refs_expired-Typed keys (m ∷ ms) h = (
  mark_content-Typed keys (array_at (ascii "content") m) m h.0,
  mark_image_refs_expired-Typed keys ms h.1,
)

Extended-Typed : {ms ns : List Json} → Extended ms ns → All Typed ms → All Typed ns
Extended-Typed done h = tt
Extended-Typed (kept e) h = (h.0, Extended-Typed e h.1)
Extended-Typed (added {id} e) h = (tool_message-Typed id not_executed, Extended-Typed e h)

pub opened-Typed : (parse : Bytes → Option Json) (text : Bytes) → All Typed (opened parse text)
unfolding opened system_message value_at
opened-Typed parse [] = tt
opened-Typed parse (c ∷ text) = go (parse (c ∷ text))
  where
    from_text : (t : Bytes) → All Typed (of_system (system_with t))
    from_text [] = tt
    from_text (d ∷ t) = (((ascii "system", refl), ([], refl)), tt)

    go : (o : Option Json) → All Typed (of_system (system_parsed o))
    go none = tt
    go (some v) = from_text _

-- How a turn that comes in is prepared: paired, with all messages in order; or the history that is
-- left is the one before, or paired too. No exception is thrown.
abbrev pub IsPrepared : History → List Json → Prepared → Type 0
IsPrepared previous incoming (ready now) = Replied now × Extended (previous ++ incoming) now
IsPrepared previous incoming (refused after status) =
    (after ≡ previous) ⊎ (Replied after × Extended (previous ++ incoming) after)
IsPrepared previous incoming escaped = ⊥

limited-IsPrepared :
    (previous : History) (incoming : List Json) (now : History)
    → Replied now × Extended (previous ++ incoming) now
    → IsPrepared previous incoming (limited previous incoming now)
unfolding limited
limited-IsPrepared previous incoming now h =
    elim (Bool-cases (ltb 20 (length (collect_image_ref_keys now)))) [
      | inr e ↦ rw e h
      | inl e ↦ rw e (go (collect_image_ref_keys incoming))
    ]
  where
    go :
        (keys : List Bytes)
        → (restored previous keys now ≡ previous)
          ⊎ (Replied (restored previous keys now)
              × Extended (previous ++ incoming) (restored previous keys now))
    go [] = inr h
    go (k ∷ keys) = inl refl

pub messages-IsPrepared :
    (previous : History) (incoming : List Json)
    → All Typed previous
    → All Typed incoming
    → IsPrepared previous incoming (prepare previous (messages incoming))
unfolding prepare
messages-IsPrepared previous incoming h k =
    let (now, (e, good)) =
      repair_tool_call_pairing-Replied (previous ++ incoming)
        (All-append Typed previous incoming h k) in
    rw e (limited-IsPrepared previous incoming now good)

-- What is left behind a prepared turn can be read.
pub IsPrepared-Typed :
    (previous : History) (incoming : List Json) (p : Prepared)
    → All Typed previous
    → All Typed incoming
    → IsPrepared previous incoming p
    → (((now : History) → p ≡ ready now → All Typed now)
        × ((after : History) (status : Bytes) → p ≡ refused after status → All Typed after))
IsPrepared-Typed previous incoming (ready now) h k g = (
  λ n e.
      subst (All Typed) (ready_inj now n e)
        (Extended-Typed g.1 (All-append Typed previous incoming h k)),
  λ a s e. absurd (cc e),
)
  where
    ready_inj : (a b : History) → ready a ≡ ready b → a ≡ b
    ready_inj a b e = cc e
IsPrepared-Typed previous incoming (refused after status) h k g = (
  λ n e. absurd (cc e),
  λ a s e. subst (All Typed) (refused_inj after a status s e) (elim g [
    | inl same ↦ subst (All Typed) (sym same) h
    | inr p ↦ Extended-Typed p.1 (All-append Typed previous incoming h k)
  ]),
)
  where
    refused_inj : (a b : History) (s t : Bytes) → refused a s ≡ refused b t → a ≡ b
    refused_inj a b s t e = cc e
IsPrepared-Typed previous incoming escaped h k g = elim g [ ]
