-- ===== src/Workflow/Loader/Signing/Verify.antt =====
-- `VerifySignature`: which signatures are accepted.
use zen_agent.Common.{
  ℕ, ◌≡◌, ◌↔◌, refl, ap, ◌∙◌, [], ◌∷◌, inl, inr, eqb, eqb_iff, length, Bool-cases, arith,
  bytes_equality, ◌==◌,
}
use zen_agent.Common.Bits.{bit_xor-zero_iff, bit_or-zero_iff}
use zen_agent.Common.Bytes.{Bytes, ascii}
use zen_agent.Workflow.Spec.{Signing}
use zen_agent.Workflow.Loader.{Result, ok, err, ◌>>=◌}
use zen_agent.Workflow.Loader.Signing.{difference, compare_signature, verify_signature}
use Prim.Native.Nat.{bit_xor, bit_or}

difference_iff :
    (s t : Bytes) (d : ℕ) → length s ≡ length t → (difference s t d ≡ 0) ↔ ((d ≡ 0) × (s ≡ t))
unfolding difference
difference_iff [] [] d l = (λ h. (h, refl), λ h. h.0)
difference_iff [] (b ∷ t) d l = absurd (omega (arith, l))
difference_iff (a ∷ s) [] d l = absurd (omega (arith, l))
difference_iff (a ∷ s) (b ∷ t) d l =
    let rest = difference_iff s t (bit_or d (bit_xor a b)) (omega (arith, l)) in
    let low = bit_or-zero_iff d (bit_xor a b) in
    let byte = bit_xor-zero_iff a b in
    (
      λ h. let (z, e) = rest.0 h in ((low.0 z).0, λ i. byte.0 (low.0 z).1 i ∷ e i),
      λ h. rest.1 (low.1 (h.0, byte.1 (ap (head b) h.1)), ap tail h.1),
    )
  where
    head : ℕ → Bytes → ℕ
    head d [] = d
    head d (x ∷ xs) = x

    tail : Bytes → Bytes
    tail [] = []
    tail (x ∷ xs) = xs

compare_signature_iff :
    (expected supplied : Bytes)
    → (compare_signature expected supplied ≡ ok tt) ↔ (expected ≡ supplied)
unfolding compare_signature
compare_signature_iff s t = elim (Bool-cases (eqb (length s) (length t))) [
  | inr e ↦
      rw e
        (λ h. absurd (cc h), λ h. absurd (cc (e, (eqb_iff (length s) (length t)).1 (ap length h))))
  | inl e ↦ elim (Bool-cases (eqb (difference s t 0) 0)) [
    | inr d ↦
        rw (e, d)
          (
            λ h. absurd (cc h),
            λ h. absurd (
                cc (
                  d,
                  (eqb_iff (difference s t 0) 0).1
                      ((difference_iff s t 0 ((eqb_iff (length s) (length t)).0 e)).1 (refl, h)),
                )),
          )
    | inl d ↦
        rw (e, d)
          (
            λ h.
                ((difference_iff s t 0 ((eqb_iff (length s) (length t)).0 e)).0
                  ((eqb_iff (difference s t 0) 0).0 d)).1,
            λ h. refl,
          )
  ]
]

ok-inj : (a b : Bytes) → ok a ≡ ok b → a ≡ b
ok-inj a b e = cc e

-- A signature is accepted exactly if its algorithm is HMAC-SHA256, its key resolves, and it is the
-- code that this key gives for the canonical text.
pub verify_signature_iff :
    (hmac : Bytes → Bytes → Bytes) (resolve : Bytes → Result Bytes) (text : Bytes) (sig : Signing)
    → (verify_signature hmac resolve text sig ≡ ok tt) ↔ (
        (sig.algo ≡ ascii "HMAC-SHA256")
        × ((key : Bytes) × ((resolve sig.key_id ≡ ok key) × (hmac key text ≡ sig.signature))))
unfolding verify_signature
verify_signature_iff hmac resolve text sig = elim (Bool-cases (sig.algo == ascii "HMAC-SHA256")) [
  | inr e ↦
      rw e (λ h. absurd (cc h), λ h. absurd (cc (e, (bytes_equality.same_iff sig.algo _).1 h.0)))
  | inl e ↦ rw e (from_key ((bytes_equality.same_iff sig.algo _).0 e) (resolve sig.key_id))
]
  where
    from_key :
        sig.algo ≡ ascii "HMAC-SHA256"
        → (r : Result Bytes)
        → ((r >>= λ key. compare_signature (hmac key text) sig.signature) ≡ ok tt) ↔ (
            (sig.algo ≡ ascii "HMAC-SHA256")
            × ((key : Bytes) × ((r ≡ ok key) × (hmac key text ≡ sig.signature))))
    from_key a (err x) = (λ h. absurd (cc h), λ h. absurd (cc h.1.1.0))
    from_key a (ok key) = (
      λ h. (a, (key, (refl, (compare_signature_iff (hmac key text) sig.signature).0 h))),
      λ (_, (k, (e, h))).
          (compare_signature_iff (hmac key text) sig.signature).1
            (ap (λ x. hmac x text) (ok-inj key k e) ∙ h),
    )
