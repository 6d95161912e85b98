-- ===== src/Workflow/Loader/Accepted.antt =====
-- `WorkflowLoader::Load`: what the workflows that it gives have in common.
use zen_agent.Common.{
  ℕ, ◌≤◌, ◌≡◌, ◌↔◌, refl, ap, ◌∙◌, Bool, true, false, List, [], Option, none, some, ltb, length,
  Bool-cases, inl, inr, if◌then◌else◌, All, arith, bytes_equality,
}
use zen_agent.Common.Assoc.{keys}
use zen_agent.Common.Bytes.{Bytes, ascii}
use zen_agent.Common.Json.{Json}
use zen_agent.Workflow.Spec.{Signing, WorkflowSpec}
use zen_agent.Workflow.Loader.{Result, ok, err, failed_precondition, ◌>>=◌}
use zen_agent.Workflow.Loader.Parse.{parse_root}
use zen_agent.Workflow.Loader.Acyclic.Search.{Route}
use zen_agent.Workflow.Loader.Acyclic.Correct.{check_acyclic_iff}
use zen_agent.Workflow.Loader.Signing.{canonical, verify_signature}
use zen_agent.Workflow.Loader.Signing.Verify.{verify_signature_iff}
use zen_agent.Workflow.Loader.Load.{
  Options, Host, with_version, check_version, effective, validate, check_signing, root_or,
  state_pool, load,
}
use zen_agent.Workflow.Loader.Valid.{
  both_iff, bind_iff, ok-inj, at_most_iff, FitsSizes, check_resource_limits_iff, FitsReferences,
  check_references_iff, Templated, check_templates_iff,
}

module _ (h : Host) where
  abbrev pub Valid : ℕ → ℕ → WorkflowSpec → Type 0
  Valid json_bytes max_json_bytes spec =
      (spec.schema_version ≤ 1)
      × (FitsSizes json_bytes max_json_bytes spec
          × (FitsReferences h.has_tool spec
              × (((n : Bytes) → ¬ Route spec.agents n n)
                  × All (λ a. Templated (keys spec.state.fields) a.1.delegates) spec.agents)))

  check_version_iff :
      (spec : WorkflowSpec) → (check_version spec ≡ ok tt) ↔ (spec.schema_version ≤ 1)
  unfolding check_version
  check_version_iff spec = elim (Bool-cases (ltb 1 spec.schema_version)) [
    | inl e ↦ rw e (λ k. absurd (cc k), λ k. absurd (ground arith))
    | inr e ↦ rw e (λ k. ground arith, λ k. refl)
  ]

  -- The checks accept a spec exactly if its schema version is at most 1, the text and the spec are
  -- within the limits, its main agent, its delegates and its tools are declared, its delegations
  -- have no cycle, and its templates parse and name fields of the state.
  pub validate_iff :
      (n max : ℕ) (spec : WorkflowSpec) → (validate h n max spec ≡ ok tt) ↔ Valid n max spec
  unfolding validate
  validate_iff n max spec = both_iff _ _ (check_version_iff spec) (
      both_iff _ _ (check_resource_limits_iff spec n max) (
        both_iff _ _ (check_references_iff h.has_tool spec)
          (both_iff _ _ (check_acyclic_iff spec.agents) (check_templates_iff spec))))

  abbrev pub SignedBy : Option (Bytes → Result Bytes) → Bytes → Signing → Type 0
  SignedBy none text sig = Unit
  SignedBy (some resolve) text sig =
      (sig.algo ≡ ascii "HMAC-SHA256")
      × ((key : Bytes) × ((resolve sig.key_id ≡ ok key) × (h.hmac key text ≡ sig.signature)))

  -- What the options ask of the signature.
  abbrev pub IsSigned : Options → Json → Option Signing → Type 0
  IsSigned opts root none = opts.require_signed ≡ false
  IsSigned opts root (some sig) = SignedBy opts.key_resolver (h.dump (canonical root)) sig

  check_signing_iff :
      (opts : Options) (root : Json) (s : Option Signing)
      → (check_signing h opts root s ≡ ok tt) ↔ IsSigned opts root s
  unfolding check_signing
  check_signing_iff opts root none = go opts.require_signed
    where
      go :
          (b : Bool)
          → ((if b then err (failed_precondition (ascii "signature_required")) else ok (tt {0}))
              ≡ ok tt)
            ↔ (b ≡ false)
      go true = (λ k. absurd (cc k), λ k. absurd (cc k))
      go false = (λ k. refl, λ k. refl)
  check_signing_iff opts root (some sig) = go opts.key_resolver
    where
      go :
          (r : Option (Bytes → Result Bytes))
          → (elim r [
            | none ↦ ok (tt {0})
            | some resolve ↦ verify_signature h.hmac resolve (h.dump (canonical root)) sig
          ]
              ≡ ok (tt {0}))
            ↔ SignedBy r (h.dump (canonical root)) sig
      go none = (λ k. tt, λ k. refl)
      go (some resolve) = verify_signature_iff h.hmac resolve (h.dump (canonical root)) sig

  root_or_iff :
      {B : Type 0} (o : Option Json) (k : Json → Result B) {b : B} {Q : Json → Type 0}
      → ((j : Json) → (k j ≡ ok b) ↔ Q j)
      → ((root_or h o >>= k) ≡ ok b) ↔ ((j : Json) × ((o ≡ some j) × Q j))
  root_or_iff none k q = (λ e. absurd (cc e), λ (j, (e, g)). absurd (cc e))
  root_or_iff (some x) k q =
      (λ e. (x, (refl, (q x).0 e)), λ (j, (e, g)). ap k (some_inj e) ∙ (q j).1 g)
    where
      some_inj : {a b : Json} → some a ≡ some b → a ≡ b
      some_inj e = cc e

  abbrev pub IsLoaded : Options → Bytes → WorkflowSpec → Option (List Bytes) → Type 0
  IsLoaded opts text spec pool =
      (length text ≤ opts.max_json_bytes)
      × ((root : Json) × ((h.parse text ≡ some root)
            × ((parsed : WorkflowSpec) × ((parse_root h.dump root ≡ ok parsed)
                  × (Valid (length text) opts.max_json_bytes (with_version parsed)
                      × (IsSigned opts root (effective parsed.signing)
                          × ((p : Option (List Bytes)) × ((state_pool h parsed.state ≡ ok p)
                                × ((with_version parsed ≡ spec) × (p ≡ pool))))))))))

  -- A workflow is loaded from a text exactly if the text is within the limit, is the JSON of a spec
  -- that the checks accept, is signed as the options ask, and the pool of its state is built; the
  -- spec that is given has schema version 1 where the text gives 0 or none.
  pub load_iff :
      (opts : Options) (text : Bytes) (spec : WorkflowSpec) (pool : Option (List Bytes))
      → (load h opts text ≡ ok (spec, pool)) ↔ IsLoaded opts text spec pool
  unfolding load
  load_iff opts text spec pool =
      both_iff _ _
        (at_most_iff opts.max_json_bytes (length text) (ascii "workflow json size ")
          (ascii " > limit ") [])
        (root_or_iff _ _ (λ root. bind_iff _ _ (λ parsed.
          both_iff _ _ (validate_iff (length text) opts.max_json_bytes (with_version parsed)) (
            both_iff _ _ (check_signing_iff opts root (effective parsed.signing)) (
              bind_iff _ _ (λ p. (
                λ e. (ap (λ x. x.0) (ok-inj e), ap (λ x. x.1) (ok-inj e)),
                λ e. (λ i. ok (e.0 i, e.1 i)),
              )))))))
