-- ===== src/Lkg/History.antt =====
-- Acceptance and any sequence of publications and acceptances on one state directory.
use deployment.Base.{
  ◌≡◌, ◌≢◌, ◌⊎◌, refl, sym, ◌∙◌, ap, String, List, [], ◌∷◌, none, some, Arg, exact, Result, ok, err,
  ◌>>=◌, ◌>>◌, commit_state_uncertain, Result-cases, inl, inr, arith, string_eq, list_eq, nat_eq,
  ltb, Bool-cases,
}
use mathlib.Core.Path.{subst}
use mathlib.Core.List.{map}
use deployment.Lkg.Candidate.{Candidate, CandidateFields, fields_of, document}
use deployment.Lkg.Platform.{Platform}
use deployment.Lkg.Admit.{validate_candidate}
use deployment.Lkg.Admit.Laws.{IsSuccessor, IsValid, validate_candidate-version}
use deployment.Lkg.Store.{
  Directory, Answers, Write, written, failed_before, failed_after, put_accepted, put_candidate,
  published, passed, read_lkg, admit_acceptance, atomic_write, accept_candidate, write_candidate,
  max_state_bytes, candidate_file,
}
use deployment.Lkg.Store.Laws.{Holds, Holds-read, Acceptable, admit_acceptance-Acceptable}

prefixes_of-injective : (s t : List String) → map {B = Arg String} exact s ≡ map exact t → s ≡ t
prefixes_of-injective [] [] e = refl
prefixes_of-injective [] (_ ∷ _) e = cc
prefixes_of-injective (_ ∷ _) [] e = cc
prefixes_of-injective (x ∷ s) (y ∷ t) e =
    let rest : map {B = Arg String} exact s ≡ map exact t = cc in
    cc (prefixes_of-injective s t rest)

candidate_file-injective :
    (a b : Candidate) → some (candidate_file a) ≡ some (candidate_file b) → a ≡ b
candidate_file-injective a b e =
    let ipv4 : map {B = Arg String} exact a.ipv4_prefixes ≡ map exact b.ipv4_prefixes = cc in
    let ipv6 : map {B = Arg String} exact a.ipv6_prefixes ≡ map exact b.ipv6_prefixes = cc in
    let same4 = prefixes_of-injective a.ipv4_prefixes b.ipv4_prefixes ipv4 in
    let same6 = prefixes_of-injective a.ipv6_prefixes b.ipv6_prefixes ipv6 in
    ground (arith, same4, same6)

-- A call that changes the directory.
pub data Command : Type 0 where
  write : Answers → Arg CandidateFields → Command
  accept : Answers → Arg String → Command

module _ (P : Platform) where
  -- How an acceptance ends. Either it raised and changed nothing, or it promoted an acceptable
  -- candidate, and returned or raised `CommitStateUncertain`.
  abbrev pub Unchanged : Result (Unit {0}) × Directory → Directory → Type 0
  Unchanged (result, after) d = (result ≢ ok tt) × (after ≡ d)

  pub record Promoted (acknowledged : Arg String) (d : Directory) (result : Result (Unit {0}))
      (after : Directory) : Type 0 where
    pub candidate : Candidate
    pub acceptable : Acceptable P acknowledged d candidate
    pub replaced : after ≡ put_accepted candidate d
    pub reported :
        (result ≡ ok tt) ⊎ ((message : String) × (result ≡ err (commit_state_uncertain message)))

  published-ends :
      (acknowledged : Arg String) (d : Directory) (c : Candidate) (w : Write) (name : String)
      → Acceptable P acknowledged d c
      → let (result, after) = published w name d (put_accepted c d) in
        Unchanged (result, after) d ⊎ Promoted acknowledged d result after
  published-ends acknowledged d c failed_before name ready = inl ((λ e. cc), refl)
  published-ends acknowledged d c written name ready =
      inr (record { candidate = c; acceptable = ready; replaced = refl; reported = inl refl })
  published-ends acknowledged d c failed_after name ready =
      inr (record { candidate = c; acceptable = ready; replaced = refl; reported = inr (_, refl) })

  atomic_write-ends :
      (acknowledged : Arg String) (d : Directory) (c : Candidate) (w : Write) (name : String)
      → Acceptable P acknowledged d c
      → let (result, after) = atomic_write P w name c d (put_accepted c d) in
        Unchanged (result, after) d ⊎ Promoted acknowledged d result after
  unfolding atomic_write
  atomic_write-ends acknowledged d c w name ready =
      elim (Bool-cases (ltb max_state_bytes (P.size (document c)))) [
        | inl large ↦ rw large (inl ((λ e. cc), refl))
        | inr small ↦ rw small (published-ends acknowledged d c w name ready)
      ]

  -- An acceptance either raises and changes nothing, or puts the candidate of the directory in the
  -- place of the accepted document and returns or raises `CommitStateUncertain`. That candidate is
  -- valid, its digest was acknowledged, and it may follow what was accepted before.
  pub accept_candidate_sound :
      (a : Answers) (acknowledged : Arg String) (d : Directory)
      → let (result, after) = accept_candidate P a acknowledged d in
        Unchanged (result, after) d ⊎ Promoted acknowledged d result after
  unfolding accept_candidate
  accept_candidate_sound a acknowledged d =
      elim (Result-cases (admit_acceptance P a acknowledged d)) [
        | inr (e, p) ↦ rw p (inl ((λ h. cc), refl))
        | inl (c, p) ↦ rw p (
            atomic_write-ends acknowledged d c a.write "accepted-lkg.json"
              (admit_acceptance-Acceptable P a acknowledged d c p))
      ]

  -- A candidate that was accepted, and acknowledged, is what a reading without a fault gives.
  pub read_lkg-accept_candidate :
      (a : Answers) (acknowledged : Arg String) (d : Directory) (b : Answers)
      → (accept_candidate P a acknowledged d).0 ≡ ok tt
      → b.directory ≡ none
      → b.locked ≡ none
      → b.accepted_reading ≡ none
      → (c : Candidate) × (read_lkg P b (accept_candidate P a acknowledged d).1 ≡ ok (some c))
        × (acknowledged ≡ exact c.candidate_sha256)
        × Holds P d.candidate c
  unfolding read_lkg
  read_lkg-accept_candidate a acknowledged d b h safe free readable =
      elim (accept_candidate_sound a acknowledged d) [
        | inl (failed, _) ↦ absurd (failed h)
        | inr p ↦
            let c = p.candidate in
            let stored : (accept_candidate P a acknowledged d).1.accepted
                ≡ some (candidate_file c) =
              ap (λ (x : Directory). x.accepted) p.replaced in
            let held : Holds P (accept_candidate P a acknowledged d).1.accepted c = record {
              stored = stored;
              valid = p.acceptable.current.valid;
            } in
            (
              c,
              rw (safe, free, readable) (Holds-read P _ c held),
              p.acceptable.acknowledges,
              p.acceptable.current,
            )
      ]

  IsSuccessor-refl : (c : Candidate) → IsValid P c → IsSuccessor P c c
  IsSuccessor-refl c valid =
      let (v, at) = validate_candidate-version P (exact (fields_of c)) c valid in
      record {
        old = v;
        new = v;
        old_version = at;
        new_version = at;
        not_older = omega arith;
        same = λ _. ground arith;
      }

  IsSuccessor-trans :
      (a b c : Candidate) → IsSuccessor P a b → IsSuccessor P b c → IsSuccessor P a c
  IsSuccessor-trans a b c s t =
      let middle : s.new ≡ t.old = ground (arith, s.new_version, t.old_version) in
      record {
        old = s.old;
        new = t.new;
        old_version = s.old_version;
        new_version = t.new_version;
        not_older = ground (arith, s.not_older, t.not_older, middle);
        same = λ e.
            let first : s.old ≡ s.new = ground (arith, s.not_older, t.not_older, middle, e) in
            let second : t.old ≡ t.new = ground (arith, s.not_older, t.not_older, middle, e) in
            ground (arith, s.same first, t.same second);
      }

  published-accepted :
      (w : Write) (name : String) (c : Candidate) (d : Directory)
      → (published w name d (put_candidate c d)).1.accepted ≡ d.accepted
  published-accepted written name c d = refl
  published-accepted failed_before name c d = refl
  published-accepted failed_after name c d = refl

  -- Whatever is written as a candidate, the accepted document stays.
  write_candidate-accepted :
      (a : Answers) (given : Arg CandidateFields) (d : Directory)
      → (write_candidate P a given d).1.accepted ≡ d.accepted
  unfolding write_candidate atomic_write
  write_candidate-accepted a given d =
      elim (Result-cases
        (validate_candidate P given >>= λ c. passed a.directory >> (passed a.locked >> ok c))) [
          | inr (e, p) ↦ rw p refl
          | inl (c, p) ↦ elim (Bool-cases (ltb max_state_bytes (P.size (document c)))) [
            | inl large ↦ rw p (rw large refl)
            | inr small ↦ rw p (rw small (published-accepted a.write "candidate.json" c d))
          ]
        ]

  unfoldable step : Command → Directory → Directory
  unfolding write_candidate accept_candidate
  step (write a given) d = (write_candidate P a given d).1
  step (accept a acknowledged) d = (accept_candidate P a acknowledged d).1

  unfoldable pub run : List Command → Directory → Directory
  unfolding step
  run [] d = d
  run (command ∷ commands) d = run commands (step command d)

  -- The directory has an accepted document that may follow that one.
  pub record IsAdvanced (a : Candidate) (d : Directory) : Type 0 where
    pub accepted : Candidate
    pub held : Holds P d.accepted accepted
    pub follows : IsSuccessor P a accepted

  accept-IsAdvanced :
      (c : Candidate) (a : Answers) (acknowledged : Arg String) (d : Directory)
      → IsAdvanced c d
      → IsAdvanced c (accept_candidate P a acknowledged d).1
  accept-IsAdvanced c a acknowledged d ready = elim (accept_candidate_sound a acknowledged d) [
    | inl (_, same) ↦ subst (IsAdvanced c) (sym same) ready
    | inr p ↦ elim p.acceptable.follows [
      | inl empty ↦ absurd (cc (empty, ready.held.stored))
      | inr (b, held, next) ↦
          let same : b ≡ ready.accepted =
            candidate_file-injective b ready.accepted (sym held.stored ∙ ready.held.stored) in
          record {
            accepted = p.candidate;
            held = record {
              stored = ap (λ (x : Directory). x.accepted) p.replaced;
              valid = p.acceptable.current.valid;
            };
            follows =
                IsSuccessor-trans c ready.accepted p.candidate ready.follows
                  (subst (λ x. IsSuccessor P x p.candidate) same next);
          }
    ]
  ]

  step-IsAdvanced :
      (c : Candidate) (command : Command) (d : Directory)
      → IsAdvanced c d
      → IsAdvanced c (step command d)
  unfolding step
  step-IsAdvanced c (accept a acknowledged) d ready = accept-IsAdvanced c a acknowledged d ready
  step-IsAdvanced c (write a given) d ready = record {
    accepted = ready.accepted;
    held = record {
      stored = write_candidate-accepted a given d ∙ ready.held.stored;
      valid = ready.held.valid;
    };
    follows = ready.follows;
  }

  run-IsAdvanced_from :
      (c : Candidate) (commands : List Command) (d : Directory)
      → IsAdvanced c d
      → IsAdvanced c (run commands d)
  unfolding run
  run-IsAdvanced_from c [] d ready = ready
  run-IsAdvanced_from c (command ∷ commands) d ready =
      run-IsAdvanced_from c commands (step command d) (step-IsAdvanced c command d ready)

  -- Whatever candidates are written and accepted after a candidate was accepted, in whatever order and
  -- with whatever failures of the system, the accepted document is there and valid, is not of an older
  -- publication, and has the same content if it is of the same publication.
  pub run-IsAdvanced :
      (c : Candidate) (commands : List Command) (d : Directory)
      → Holds P d.accepted c
      → IsAdvanced c (run commands d)
  run-IsAdvanced c commands d held =
      run-IsAdvanced_from c commands d
        (record { accepted = c; held = held; follows = IsSuccessor-refl c held.valid })
