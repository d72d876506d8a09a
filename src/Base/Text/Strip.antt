-- ===== src/Base/Text/Strip.antt =====
-- A text is unchanged by `strip` exactly when neither end is a space.
use mathlib.Core.List.{reverse, reverse-reverse, reverse-append}
use deployment.Base.{
  ℕ, ◌+◌, ◌≤◌, ◌≡◌, refl, ◌↔◌, ap, ◌∙◌, false, List, [], ◌∷◌, ◌++◌, arith, length,
}
use deployment.Base.Text.{is_space, lstrip, strip}

-- The first character is not a space.
abbrev pub StartsSolid : List ℕ → Type 0
StartsSolid [] = Unit
StartsSolid (c ∷ _) = is_space c ≡ false

lstrip_solid : (s : List ℕ) → StartsSolid s → lstrip s ≡ s
unfolding lstrip
lstrip_solid [] _ = refl
lstrip_solid (c ∷ s) h = rw h

length-lstrip : (s : List ℕ) → length (lstrip s) ≤ length s
unfolding lstrip
length-lstrip [] = omega arith
length-lstrip (c ∷ s) = ground (arith, length-lstrip s)

-- A text that loses nothing on its left begins with a character that is not a space.
solid_of_length : (s : List ℕ) → length s ≤ length (lstrip s) → StartsSolid s
unfolding lstrip
solid_of_length [] h = tt
solid_of_length (c ∷ s) h = ground (arith, length-lstrip s)

length-append : (s t : List ℕ) → length (s ++ t) ≡ length s + length t
length-append [] t = omega arith
length-append (_ ∷ s) t = omega (arith, length-append s t)

length-reverse : (s : List ℕ) → length (reverse s) ≡ length s
length-reverse [] = refl
length-reverse (c ∷ s) =
    ap length (reverse-append (c ∷ []) s)
    ∙ omega (arith, length-append (reverse s) (c ∷ []), length-reverse s)

length-strip : (s : List ℕ) → length (strip s) ≤ length (lstrip s)
unfolding strip
length-strip s = omega (
  arith,
  length-reverse (lstrip (reverse (lstrip s))),
  length-lstrip (reverse (lstrip s)),
  length-reverse (lstrip s),
)

first_solid : (s : List ℕ) → s ≡ strip s → StartsSolid s
first_solid s h = solid_of_length s (omega (arith, ap length h, length-strip s))

last_solid : (s : List ℕ) → s ≡ strip s → StartsSolid (reverse s)
unfolding strip
last_solid s h =
    let kept : s ≡ reverse (lstrip (reverse s)) =
      h ∙ ap (λ t. reverse (lstrip (reverse t))) (lstrip_solid s (first_solid s h)) in
    solid_of_length (reverse s)
      (omega (arith, ap length kept, length-reverse (lstrip (reverse s)), length-reverse s))

strip_solid : (s : List ℕ) → StartsSolid s → StartsSolid (reverse s) → s ≡ strip s
unfolding strip
strip_solid s first last =
    rw (lstrip_solid s first, lstrip_solid (reverse s) last, reverse-reverse s)

pub strip_iff : (s : List ℕ) → (s ≡ strip s) ↔ (StartsSolid s × StartsSolid (reverse s))
strip_iff s = (λ h. (first_solid s h, last_solid s h), λ h. strip_solid s h.0 h.1)
