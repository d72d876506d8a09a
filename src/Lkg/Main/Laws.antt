-- ===== src/Lkg/Main/Laws.antt =====
-- What the exit status of the `accept` command says.
use deployment.Base.{
  ◌≡◌, ◌≢◌, refl, ap, String, exact, Result, ok, err, contract_error, commit_state_uncertain,
  unsupported_capability, unhandled, inl, inr,
}
use deployment.Lkg.Candidate.{Candidate}
use deployment.Lkg.Platform.{Platform}
use deployment.Lkg.Store.{Directory, Answers, put_accepted}
use deployment.Lkg.Store.Laws.{Acceptable}
use deployment.Lkg.History.{accept_candidate_sound}
use deployment.Lkg.Main.{accept, status, exit_of, main}

module _ (P : Platform) where
  -- The directory after an acceptance that committed.
  pub record Committed (digest : String) (d after : Directory) : Type 0 where
    pub candidate : Candidate
    pub acceptable : Acceptable P (exact digest) d candidate
    pub replaced : after ≡ put_accepted candidate d

  status_of-fails : (r : Result (Unit {0})) → r ≢ ok tt → exit_of r ≢ status 0
  status_of-fails (ok tt) h e = h refl
  status_of-fails (err (commit_state_uncertain m)) h e = cc
  status_of-fails (err (contract_error m)) h e = cc
  status_of-fails (err (unsupported_capability m)) h e = cc
  status_of-fails (err (unhandled m)) h e = cc

  -- If the `accept` command ends with status 0, the candidate of the directory, acknowledged and a
  -- valid successor, is the accepted document now.
  pub main-Committed :
      (a : Answers) (digest : String) (d : Directory)
      → (main P a (accept digest) d).0 ≡ status 0
      → Committed digest d (main P a (accept digest) d).1
  unfolding main
  main-Committed a digest d e = elim (accept_candidate_sound P a (exact digest) d) [
    | inl (failed, same) ↦ absurd (status_of-fails _ failed e)
    | inr p ↦ record { candidate = p.candidate; acceptable = p.acceptable; replaced = p.replaced }
  ]

  -- If the `accept` command ends with status 1, the directory is as it was.
  pub main-unchanged :
      (a : Answers) (digest : String) (d : Directory)
      → (main P a (accept digest) d).0 ≡ status 1
      → (main P a (accept digest) d).1 ≡ d
  unfolding main
  main-unchanged a digest d e = elim (accept_candidate_sound P a (exact digest) d) [
    | inl (failed, same) ↦ same
    | inr p ↦ elim p.reported [
      | inl done ↦ absurd (cc (ap exit_of done, e))
      | inr (m, unsure) ↦ absurd (cc (ap exit_of unsure, e))
    ]
  ]
