-- ===== src/Findings/Admission/Facts.antt =====
-- The tests of `accept` and what they say of a member.
use deployment.Base.{
  ℕ, ◌+◌, ◌≤◌, ◌≡◌, ◌⊎◌, refl, ap, arith, inl, inr, String, Bool, true, false, ◌&&◌, List, [], ◌∷◌,
  Option, none, some, leb, if◌then◌else◌, ◌==◌, ==_refl, string_eq,
}
use deployment.Findings.Admission.{
  Value, null, text, num, other_value, is_text, is_num, is_coded, wording, observed_of, is_stale,
}

-- A pair is in the vocabulary.
abbrev pub Listed : String × String → List (String × String) → Type 0
Listed words [] = ⊥
Listed words (pair ∷ rest) = (words ≡ pair) ⊎ Listed words rest

abbrev pub observed_value : Option ℕ → Value
observed_value none = null
observed_value (some n) = num n

-- A time that is known is not after `now`.
abbrev pub IsTimely : ℕ → Option ℕ → Type 0
IsTimely now none = Unit
IsTimely now (some n) = n ≤ now

-- A known condition was observed, and not too long ago.
abbrev pub IsFresh : ℕ → ℕ → Option ℕ → Type 0
IsFresh now freshness none = ⊥
IsFresh now freshness (some n) = now ≤ n + freshness

same_pair :
    (words pair : String × String) → (pair.0 == words.0 && pair.1 == words.1) ≡ true → words ≡ pair
same_pair (c, r) (c', r') h = pair_of (first h) (second h)
  where
    first : (c' == c && r' == r) ≡ true → c ≡ c'
    first h = ground (arith, h)

    second : (c' == c && r' == r) ≡ true → r ≡ r'
    second h = ground (arith, h)

    pair_of : c ≡ c' → r ≡ r' → ◌≡◌ {A = String × String} (c, r) (c', r')
    pair_of e e' = cc (e, e')

pub is_coded-Listed :
    (words : String × String) (codes : List (String × String))
    → is_coded words.0 words.1 codes ≡ true
    → Listed words codes
unfolding is_coded
is_coded-Listed words [] h = cc h
is_coded-Listed words (pair ∷ rest) h =
    by_test (pair.0 == words.0 && pair.1 == words.1) refl h (is_coded-Listed words rest)
  where
    by_test :
        (test : Bool)
        → (pair.0 == words.0 && pair.1 == words.1) ≡ test
        → (if test then true else is_coded words.0 words.1 rest) ≡ true
        → (is_coded words.0 words.1 rest ≡ true → Listed words rest)
        → (words ≡ pair) ⊎ Listed words rest
    by_test true e h later = inl (same_pair words pair e)
    by_test false e h later = inr (later h)

pub Listed-is_coded :
    (words : String × String) (codes : List (String × String))
    → Listed words codes
    → is_coded words.0 words.1 codes ≡ true
unfolding is_coded
Listed-is_coded words [] h = absurd h
Listed-is_coded words (pair ∷ rest) (inl e) = rw (e, ==_refl pair.0, ==_refl pair.1) refl
Listed-is_coded words (pair ∷ rest) (inr h) = ground (arith, Listed-is_coded words rest h)

pub is_stale-IsFresh :
    (now freshness : ℕ) (observed : Option ℕ)
    → IsTimely now observed
    → is_stale now freshness observed ≡ false
    → IsFresh now freshness observed
is_stale-IsFresh now freshness none t h = cc h
is_stale-IsFresh now freshness (some n) t h = ground (arith, t, h)

pub IsFresh-is_stale :
    (now freshness : ℕ) (observed : Option ℕ)
    → IsFresh now freshness observed
    → is_stale now freshness observed ≡ false
IsFresh-is_stale now freshness none h = absurd h
IsFresh-is_stale now freshness (some n) h = ground (arith, h)

pub is_text-eq :
    (value : Option Value) (s : String) → is_text value s ≡ true → value ≡ some (text s)
is_text-eq none s h = cc h
is_text-eq (some null) s h = cc h
is_text-eq (some other_value) s h = cc h
is_text-eq (some (num n)) s h = cc h
is_text-eq (some (text t)) s h = ap (λ u. some (text u)) (same t s h)
  where
    same : (t s : String) → (t == s) ≡ true → t ≡ s
    same t s h = ground (arith, h)

pub is_num-eq : (value : Option Value) (n : ℕ) → is_num value n ≡ true → value ≡ some (num n)
is_num-eq none n h = cc h
is_num-eq (some null) n h = cc h
is_num-eq (some other_value) n h = cc h
is_num-eq (some (text t)) n h = cc h
is_num-eq (some (num m)) n h = ap (λ u. some (num u)) (ground (arith, h))

pub wording_facts :
    (codes : List (String × String)) (condition reason : Option Value) (words : String × String)
    → wording codes condition reason ≡ some words
    → (condition ≡ some (text words.0)) × (reason ≡ some (text words.1)) × Listed words codes
wording_facts codes none reason words e = cc e
wording_facts codes (some null) reason words e = cc e
wording_facts codes (some other_value) reason words e = cc e
wording_facts codes (some (num _)) reason words e = cc e
wording_facts codes (some (text c)) none words e = cc e
wording_facts codes (some (text c)) (some null) words e = cc e
wording_facts codes (some (text c)) (some other_value) words e = cc e
wording_facts codes (some (text c)) (some (num _)) words e = cc e
wording_facts codes (some (text c)) (some (text r)) words e = by_test (is_coded c r codes) refl e
  where
    by_test :
        (test : Bool)
        → is_coded c r codes ≡ test
        → (if test then some (c, r) else none) ≡ some words
        → (some (text c) ≡ some (text words.0))
          × (some (text r) ≡ some (text words.1))
          × Listed words codes
    by_test false coded e = cc e
    by_test true coded e =
        let first : c ≡ words.0 = cc e in
        let second : r ≡ words.1 = cc e in
        (
          ap (λ t. some (text t)) first,
          ap (λ t. some (text t)) second,
          is_coded-Listed words codes (rw (← first, ← second) coded),
        )

pub observed_facts :
    (now : ℕ) (value : Option Value) (observed : Option ℕ)
    → observed_of now value ≡ some observed
    → (value ≡ some (observed_value observed)) × IsTimely now observed
observed_facts now none observed e = cc e
observed_facts now (some other_value) observed e = cc e
observed_facts now (some (text _)) observed e = cc e
observed_facts now (some null) none e = (refl, tt)
observed_facts now (some null) (some n) e = cc e
observed_facts now (some (num m)) none e = absurd (ground (arith, e))
observed_facts now (some (num m)) (some n) e = by_test (leb m now) refl e
  where
    by_test :
        (test : Bool)
        → leb m now ≡ test
        → (if test then some (some m) else none) ≡ some (some n)
        → (some (num m) ≡ some (num n)) × (n ≤ now)
    by_test false timely e = cc e
    by_test true timely e =
        let same : m ≡ n = cc e in
        (ap (λ u. some (num u)) same, rw (← same) (ground (arith, timely)))
