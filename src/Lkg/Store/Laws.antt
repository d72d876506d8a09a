-- ===== src/Lkg/Store/Laws.antt =====
-- What reading a state file gives, and what an acceptance promotes.
use deployment.Base.{
  ◌≡◌, ◌⊎◌, refl, sym, ◌∙◌, ap, String, Option, none, some, Arg, exact, other, ok, Result-cases,
  inl, inr, arith, string_eq, nat_eq,
}
use mathlib.Core.Path.{subst}
use deployment.Lkg.Candidate.{Candidate, CandidateFields, fields_of}
use deployment.Lkg.Platform.{Platform}
use deployment.Lkg.Admit.{validate_candidate, admit_successor}
use deployment.Lkg.Admit.Laws.{validate_candidate-same, IsSuccessor, IsValid, admit_successor_iff}
use deployment.Lkg.Store.{
  File, decoded, Directory, Answers, candidate_file, content, given_fields, acknowledgement,
  read_document, read_required, admit_acceptance,
}

module _ (P : Platform) where
  content-same :
      (file : File) (given : Arg CandidateFields)
      → content file ≡ ok given
      → file ≡ decoded (exact given)
  content-same File.unsafe given h = cc
  content-same File.too_large given h = cc
  content-same File.invalid given h = cc
  content-same (decoded other) given h = cc
  content-same (decoded (exact g)) given h = cc

  -- The directory holds the document of a valid candidate under that name.
  pub record Holds (file : Option File) (c : Candidate) : Type 0 where
    pub stored : file ≡ some (candidate_file c)
    pub valid : IsValid P c

  decoded-Holds :
      (file : File) (given : Arg CandidateFields) (c : Candidate)
      → content file ≡ ok given
      → validate_candidate P given ≡ ok c
      → Holds (some file) c
  decoded-Holds file given c h v =
      let same = validate_candidate-same P given c v in
      record {
        stored = cc (content-same file given h, same);
        valid = subst (λ g. validate_candidate P g ≡ ok c) same v;
      }

  pub read_document-Holds :
      (reading : Option String) (file : Option File) (c : Candidate)
      → read_document P reading file ≡ ok (some c)
      → Holds file c
  unfolding read_document
  read_document-Holds (some message) file c h = absurd (ground arith)
  read_document-Holds none none c h = absurd (ground arith)
  read_document-Holds none (some file) c h = elim (Result-cases (content file)) [
    | inr (e, p) ↦ absurd (ground arith)
    | inl (given, p) ↦ elim (Result-cases (validate_candidate P given)) [
      | inr (e, q) ↦ absurd (ground arith)
      | inl (k, q) ↦
          let same : k ≡ c = ground arith in
          subst (λ x. Holds (some file) x) same (decoded-Holds file given k p q)
    ]
  ]

  read_document-none :
      (reading : Option String) (file : Option File)
      → read_document P reading file ≡ ok none
      → file ≡ none
  unfolding read_document
  read_document-none (some message) file h = absurd (ground arith)
  read_document-none none none h = refl
  read_document-none none (some file) h = elim (Result-cases (content file)) [
    | inr (e, p) ↦ absurd (ground arith)
    | inl (given, p) ↦ elim (Result-cases (validate_candidate P given)) [
      | inr (e, q) ↦ absurd (ground arith)
      | inl (k, q) ↦ absurd (ground arith)
    ]
  ]

  read_required-Holds :
      (reading : Option String) (file : Option File) (c : Candidate)
      → read_required P reading file ≡ ok c
      → Holds file c
  unfolding read_required
  read_required-Holds reading file c h = elim (Result-cases (read_document P reading file)) [
    | inr (e, p) ↦ absurd (ground arith)
    | inl (none, p) ↦ absurd (ground arith)
    | inl (some k, p) ↦ read_document-Holds reading file c (ground arith)
  ]

  -- A document that is held is what a reading without a fault gives.
  pub Holds-read :
      (file : Option File) (c : Candidate) → Holds file c → read_document P none file ≡ ok (some c)
  unfolding read_document
  Holds-read file c h = rw (h.stored, h.valid) refl

  -- The candidate of the directory was acknowledged and may follow what was accepted before.
  pub record Acceptable (acknowledged : Arg String) (d : Directory) (c : Candidate) : Type 0 where
    pub acknowledges : acknowledged ≡ exact c.candidate_sha256
    pub current : Holds d.candidate c
    pub follows : (d.accepted ≡ none) ⊎ ((b : Candidate) × Holds d.accepted b × IsSuccessor P b c)

  acknowledgement-same :
      (given : Arg String) (digest : String)
      → acknowledgement given ≡ ok digest
      → given ≡ exact digest
  unfolding acknowledgement
  acknowledgement-same other digest h = cc
  acknowledgement-same (exact text) digest h = ground arith

  successor_of :
      (file : Option File) (reading : Option String) (accepted : Option Candidate)
      (candidate k : Candidate)
      → read_document P reading file ≡ ok accepted
      → IsValid P candidate
      → admit_successor P (given_fields accepted) (exact (fields_of candidate)) ≡ ok k
      → (k ≡ candidate)
        × ((file ≡ none) ⊎ ((b : Candidate) × Holds file b × IsSuccessor P b candidate))
  unfolding admit_successor
  successor_of file reading none candidate k h valid admitted =
      (ground (arith, valid), inl (read_document-none reading file h))
  successor_of file reading (some b) candidate k h valid admitted =
      let held = read_document-Holds reading file b h in
      let (same, next) = (admit_successor_iff P b candidate k held.valid valid).0 admitted in
      (same, inr (b, held, next))

  pub admit_acceptance-Acceptable :
      (a : Answers) (given : Arg String) (d : Directory) (k : Candidate)
      → admit_acceptance P a given d ≡ ok k
      → Acceptable given d k
  unfolding admit_acceptance
  admit_acceptance-Acceptable a given d k h = elim (Result-cases (acknowledgement given)) [
    | inr (e, p) ↦ absurd (ground arith)
    | inl (digest, p) ↦ elim (Result-cases (read_required P a.candidate_reading d.candidate)) [
      | inr (e, q) ↦ absurd (ground arith)
      | inl (candidate, q) ↦ elim (Result-cases (read_document P a.accepted_reading d.accepted)) [
        | inr (e, r) ↦ absurd (ground arith)
        | inl (accepted, r) ↦
            elim (Result-cases
              (admit_successor P (given_fields accepted) (exact (fields_of candidate)))) [
                | inr (e, s) ↦ absurd (ground arith)
                | inl (promoted, s) ↦
                    let held = read_required-Holds a.candidate_reading d.candidate candidate q in
                    let (same, follows) =
                      successor_of d.accepted a.accepted_reading accepted candidate promoted r
                        held.valid s in
                    let kept : promoted ≡ k = ground arith in
                    let this : candidate ≡ k = sym same ∙ kept in
                    let digest_of : digest ≡ k.candidate_sha256 = ground arith in
                    subst (λ x. Acceptable given d x) this
                      (record {
                        acknowledges =
                            acknowledgement-same given digest p
                            ∙ ap exact
                                (digest_of ∙ ap (λ (x : Candidate). x.candidate_sha256) (sym this));
                        current = held;
                        follows = follows;
                      })
              ]
      ]
    ]
  ]
