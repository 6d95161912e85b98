-- ===== src/Common/Bytes/Search.antt =====
-- A byte that a text lacks is found behind it.
use zen_agent.Common.{ℕ, ◌≡◌, ◌≢◌, refl, [], ◌∷◌, ◌++◌, none, some, eqb_iff, length, arith, All}
use zen_agent.Common.Bytes.{Bytes, find, rfind, starts_with}

abbrev pub Lacks : ℕ → Bytes → Type 0
Lacks c = All (λ x. x ≢ c)

pub find-byte : (s t : Bytes) (c : ℕ) → Lacks c s → find (s ++ c ∷ t) (c ∷ []) ≡ some (length s)
unfolding find starts_with
find-byte [] t c h = rw ((eqb_iff c c).1 refl) refl
find-byte (a ∷ s) t c h = rw (find-byte s t c h.1) (ground (arith, h.0))

pub find-byte-none : (s : Bytes) (c : ℕ) → Lacks c s → find s (c ∷ []) ≡ none
unfolding find starts_with
find-byte-none [] c h = refl
find-byte-none (a ∷ s) c h = rw (find-byte-none s c h.1) (ground (arith, h.0))

pub rfind-none : (s : Bytes) (c : ℕ) → Lacks c s → rfind s c ≡ none
unfolding rfind
rfind-none [] c h = refl
rfind-none (a ∷ s) c h = rw (rfind-none s c h.1) (ground (arith, h.0))

pub rfind-byte : (s t : Bytes) (c : ℕ) → Lacks c t → rfind (s ++ c ∷ t) c ≡ some (length s)
unfolding rfind
rfind-byte [] t c h = rw (rfind-none t c h, (eqb_iff c c).1 refl) refl
rfind-byte (a ∷ s) t c h = rw (rfind-byte s t c h) refl
