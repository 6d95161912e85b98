-- ===== src/Workflow/Loader/Signing.antt =====
-- The signature of a workflow, of agentflow/workflow/workflow_loader.cc: the canonical form of its
-- JSON, and the comparison with the code that the key gives.
pub mod Order
pub mod Verify
use zen_agent.Common.{
  ℕ, Bool, true, false, not, List, [], ◌∷◌, ◌++◌, Option, none, some, eqb, if◌then◌else◌, length,
  bytes_equality, ◌==◌,
}
use zen_agent.Common.Bytes.{Bytes, ascii}
use zen_agent.Common.Bytes.Order.{before}
use zen_agent.Common.Json.{
  Json, null, boolean, integer, fraction, str, arr, obj, Items, nil, cons, Fields, end, field,
  put_member,
}
use zen_agent.Workflow.Spec.{Signing}
use zen_agent.Workflow.Loader.{Result, ok, err, invalid, ◌>>=◌}
use Prim.Native.Nat.{bit_xor, bit_or}

unfoldable mutual
  -- The lambda `canon`, below the root.
  pub canon : Json → Json
  canon null = null
  canon (boolean b) = boolean b
  canon (integer n) = integer n
  canon (fraction t) = fraction t
  canon (str t) = str t
  canon (arr xs) = arr (canon_items xs)
  canon (obj fs) = obj (canon_members fs end)

  pub canon_items : Items → Items
  canon_items nil = nil
  canon_items (cons x xs) = cons (canon x) (canon_items xs)

  -- The loop over the members, with the map so far.
  pub canon_members : Fields → Fields → Fields
  canon_members end m = m
  canon_members (field k v fs) m = canon_members fs (put_member k (canon v) m)

-- The members of the root, without the signing.
unfoldable pub canon_root : Fields → Fields → Fields
canon_root end m = m
canon_root (field k v fs) m =
    canon_root fs (if k == ascii "signing" then m else put_member k (canon v) m)

-- `CanonicalForm`, before it is written.
unfoldable pub canonical : Json → Json
unfolding canon_root canon
canonical (obj fs) = obj (canon_root fs end)
canonical (arr xs) = canon (arr xs)
canonical null = null
canonical (boolean b) = boolean b
canonical (integer n) = integer n
canonical (fraction t) = fraction t
canonical (str t) = str t

-- The loop over two texts of one size.
unfoldable pub difference : Bytes → Bytes → ℕ → ℕ
difference [] t d = d
difference (a ∷ s) [] d = d
difference (a ∷ s) (b ∷ t) d = difference s t (bit_or d (bit_xor a b))

unfoldable pub compare_signature : Bytes → Bytes → Result (Unit {0})
unfolding difference
compare_signature expected supplied =
    if not (eqb (length expected) (length supplied))
    then invalid (ascii "signature_invalid")
    else if not (eqb (difference expected supplied 0) 0)
    then invalid (ascii "signature_invalid")
    else ok tt

-- `VerifySignature` of a canonical text; `hmac` is `HmacSha256Base64`.
unfoldable pub verify_signature :
    (Bytes → Bytes → Bytes) → (Bytes → Result Bytes) → Bytes → Signing → Result (Unit {0})
unfolding compare_signature
verify_signature hmac resolve text sig =
    if sig.algo == ascii "HMAC-SHA256"
    then (resolve sig.key_id >>= λ key. compare_signature (hmac key text) sig.signature)
    else invalid (ascii "unsupported signing algo '" ++ (sig.algo ++ ascii "'"))
