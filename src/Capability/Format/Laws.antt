-- ===== src/Capability/Format/Laws.antt =====
-- What the field formats accept, stated without their tests.
use mathlib.Core.List.{reverse}
use mathlib.Core.Option.{some-injective}
use deployment.Base.{
  ℕ, ◌≤◌, ◌≡◌, ◌≢◌, ◌↔◌, refl, String, Bool, true, List, [], all, arith, ap, Arg, exact, other, ok,
  Option, none, some, given_of, Result, optional,
}
use deployment.Base.Text.{codes, utf8_length, strip}
use deployment.Base.Text.Strip.{StartsSolid, strip_iff}
use deployment.Capability.Format.{max_identity_bytes, identity, matching}

module _ (printable : ℕ → Bool) where
  -- One printable, bounded text with no space at either end.
  pub record IsIdentity (value : String) : Type 0 where
    pub nonempty : codes value ≢ []
    pub first : StartsSolid (codes value)
    pub last : StartsSolid (reverse (codes value))
    pub shown : all printable (codes value) ≡ true
    pub bounded : utf8_length (codes value) ≤ max_identity_bytes

  identity_passes_only :
      (label value text : String)
      → identity printable label (exact value) ≡ ok text
      → IsIdentity value
  unfolding identity
  identity_passes_only label value text h =
      let kept : codes value ≡ strip (codes value) = ground arith in
      let ends = (strip_iff (codes value)).0 kept in
      record {
        nonempty = ground arith;
        first = ends.0;
        last = ends.1;
        shown = ground arith;
        bounded = ground arith;
      }

  identity_passes :
      (label value : String) → IsIdentity value → identity printable label (exact value) ≡ ok value
  unfolding identity
  identity_passes label value i =
      let kept = (strip_iff (codes value)).1 (i.first, i.last) in
      ground (arith, kept, i.nonempty, i.shown, i.bounded)

  identity_same :
      (label : String) (value : Arg String) (text : String)
      → identity printable label value ≡ ok text
      → value ≡ exact text
  unfolding identity
  identity_same label (exact value) text h = ground arith
  identity_same label other text h = cc

  -- `_identity` accepts exactly the identities, and passes them on unchanged.
  pub identity_iff :
      (label : String) (value : Arg String) (text : String)
      → (identity printable label value ≡ ok text) ↔ ((value ≡ exact text) × IsIdentity text)
  identity_iff label value text = (
    λ h.
        let same = identity_same label value text h in
        (same, identity_passes_only label text text (rw same at h)),
    λ h. rw h.0 (identity_passes label text h.1),
  )

-- A pattern accepts exactly the texts that match it, and passes them on unchanged.
pub matching_iff :
    (pattern : List ℕ → Bool) (message : String) (value : Arg String) (text : String)
    → (matching pattern message value ≡ ok text)
      ↔ ((value ≡ exact text) × (pattern (codes text) ≡ true))
unfolding matching
matching_iff pattern message (exact value) text = (
  λ h. let same : value ≡ text = ground arith in (ap exact same, rw (← same) (ground arith)),
  λ h. ground arith,
)
matching_iff pattern message other text = (λ h. cc, λ h. cc)

abbrev pub AllOf : {A : Type 0} → (A → Type 0) → Option A → Type 0
AllOf P none = Unit
AllOf P (some a) = P a

-- `optional` gives a value exactly when the value that it was given, if any, passes.
pub optional_iff :
    {A : Type 0} (check : Arg A → Result A) (P : A → Type 0)
    → ((value : Arg A) (a : A) → (check value ≡ ok a) ↔ ((value ≡ exact a) × P a))
    → (given : Option (Arg A)) (kept : Option A)
    → (optional check given ≡ ok kept) ↔ ((given ≡ given_of kept) × AllOf P kept)
optional_iff check P iff none none = (λ h. (refl, tt), λ h. refl)
optional_iff check P iff none (some a) = (λ h. cc, λ h. cc)
optional_iff check P iff (some value) none = (λ h. ground arith, λ h. cc)
optional_iff check P iff (some value) (some a) = (
  λ h. let passed = (iff value a).0 (ground arith) in (ap some passed.0, passed.1),
  λ h. rw ((iff value a).1 (some-injective _ _ h.0, h.1)),
)
