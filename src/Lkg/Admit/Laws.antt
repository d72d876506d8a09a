-- ===== src/Lkg/Admit/Laws.antt =====
-- What `validate_candidate` and `admit_successor` let through.
use deployment.Base.{
  ℕ, ◌≤◌, ◌≡◌, ◌↔◌, String, true, List, [], ◌∷◌, some, Arg, exact, other, ok, Result-cases, inl,
  inr, arith, string_eq, list_eq, nat_eq,
}
use mathlib.Core.List.{map}
use deployment.Base.Networks.{texts_of}
use deployment.Base.Runtime.{Network}
use deployment.Lkg.Candidate.{Candidate, CandidateFields, fields_of}
use deployment.Lkg.Platform.{Platform}
use deployment.Lkg.Prefixes.{parse_network, parse_networks, validate_family}
use deployment.Lkg.Admit.{validate_candidate, version_of, same_content, admit_successor}

module _ (P : Platform) where
  parse_network-same :
      (version : ℕ) (value : Arg String) (n : Network)
      → parse_network P version value ≡ ok n
      → value ≡ exact n.text
  unfolding parse_network
  parse_network-same version other n h = cc
  parse_network-same version (exact value) n h = ground arith

  parse_networks-same :
      (version : ℕ) (values : List (Arg String)) (ns : List Network)
      → parse_networks P version values ≡ ok ns
      → values ≡ map exact (texts_of ns)
  unfolding parse_networks
  parse_networks-same version [] ns h = ground arith
  parse_networks-same version (value ∷ values) ns h =
      elim (Result-cases (parse_network P version value)) [
        | inr (e, p) ↦ absurd (ground arith)
        | inl (n, p) ↦ elim (Result-cases (parse_networks P version values)) [
          | inr (e, q) ↦ absurd (ground arith)
          | inl (rest, q) ↦
              let first = parse_network-same version value n p in
              let others = parse_networks-same version values rest q in
              ground (arith, first, others)
        ]
      ]

  validate_family-same :
      (version : ℕ) (given : Arg (List (Arg String))) (kept : List String)
      → validate_family P version given ≡ ok kept
      → given ≡ exact (map exact kept)
  unfolding validate_family
  validate_family-same version other kept h = cc
  validate_family-same version (exact values) kept h =
      elim (Result-cases (parse_networks P version values)) [
        | inr (e, p) ↦ absurd (ground arith)
        | inl (ns, p) ↦ let same = parse_networks-same version values ns p in ground (arith, same)
      ]

  -- What is let through holds exactly the fields that were given.
  pub validate_candidate-same :
      (given : Arg CandidateFields) (c : Candidate)
      → validate_candidate P given ≡ ok c
      → given ≡ exact (fields_of c)
  unfolding validate_candidate
  validate_candidate-same other c h = cc
  validate_candidate-same (exact f) c h =
      elim (Result-cases (validate_family P 4 f.ipv4_prefixes)) [
        | inr (e, p) ↦ absurd (ground arith)
        | inl (ipv4, p) ↦ elim (Result-cases (validate_family P 6 f.ipv6_prefixes)) [
          | inr (e, q) ↦ absurd (ground arith)
          | inl (ipv6, q) ↦
              let same4 = validate_family-same 4 f.ipv4_prefixes ipv4 p in
              let same6 = validate_family-same 6 f.ipv6_prefixes ipv6 q in
              ground (arith, same4, same6)
        ]
      ]

  pub validate_candidate-version :
      (given : Arg CandidateFields) (c : Candidate)
      → validate_candidate P given ≡ ok c
      → (v : ℕ) × (version_of P c ≡ ok v)
  unfolding validate_candidate
  validate_candidate-version given c h = elim (Result-cases (version_of P c)) [
    | inl found ↦ found
    | inr (e, p) ↦ absurd (ground arith)
  ]

  -- A candidate that may follow an accepted one: not older, and of the same content if it is the
  -- same publication.
  pub record IsSuccessor (a c : Candidate) : Type 0 where
    pub old : ℕ
    pub new : ℕ
    pub old_version : version_of P a ≡ ok old
    pub new_version : version_of P c ≡ ok new
    pub not_older : old ≤ new
    pub same : old ≡ new → same_content c a ≡ true

  -- The document is what `validate_candidate` accepts as that candidate.
  abbrev pub IsValid : Candidate → Type 0
  IsValid c = validate_candidate P (exact (fields_of c)) ≡ ok c

  -- An accepted candidate may be followed by a valid candidate exactly when that is a successor.
  pub admit_successor_iff :
      (a c k : Candidate)
      → IsValid a
      → IsValid c
      → (admit_successor P (some (exact (fields_of a))) (exact (fields_of c)) ≡ ok k)
        ↔ ((k ≡ c) × IsSuccessor a c)
  unfolding admit_successor
  admit_successor_iff a c k valid_a valid_c =
      let (old, at_old) = validate_candidate-version (exact (fields_of a)) a valid_a in
      let (new, at_new) = validate_candidate-version (exact (fields_of c)) c valid_c in
      (
        λ h. (
          ground (arith, valid_a, valid_c, at_old, at_new),
          record {
            old = old;
            new = new;
            old_version = at_old;
            new_version = at_new;
            not_older = ground (arith, valid_a, valid_c, at_old, at_new);
            same = λ e. ground (arith, valid_a, valid_c, at_old, at_new, e);
          },
        ),
        λ (e, s).
            ground (arith, valid_a, valid_c, e, s.old_version, s.new_version, s.not_older, s.same),
      )
