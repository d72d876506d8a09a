-- ===== src/Lkg/Main.antt =====
-- scripts/cloudfront-origin-prefix-lkg.py: `_closed_object`, `acquire_candidate_bytes` and `main`.
pub mod Laws
use deployment.Base.{
  ℕ, String, Bool, true, false, ◌||◌, List, [], ◌∷◌, Option, none, some, Arg, exact, Failure,
  Result, ok, err, contract_error, unsupported_capability, commit_state_uncertain, unhandled, ◌>>=◌,
  if◌then◌else◌, ◌==◌, string_eq,
}
use deployment.Base.Json.{Json}
use deployment.Lkg.Candidate.{Candidate, fields_of}
use deployment.Lkg.Platform.{Platform}
use deployment.Lkg.Admit.{Source, build_candidate}
use deployment.Lkg.Store.{
  Directory, Answers, Ended, after_checks, passed, write_candidate, read_candidate, read_lkg,
  accept_candidate,
}

-- `key in document`
abbrev pub has_key : String → List (String × Json) → Bool
has_key key [] = false
has_key key (pair ∷ pairs) = let (other_key, _) = pair in key == other_key || has_key key pairs

-- `_closed_object`, after the pairs that it took before; `none` is its `ValueError`.
unfoldable pub closed_object :
    List (String × Json) → List (String × Json) → Option (List (String × Json))
closed_object document [] = some document
closed_object document (pair ∷ pairs) =
    let rest = closed_object (pair ∷ document) pairs in
    let (key, _) = pair in if has_key key document then none else rest

-- The commands with what the world gives to them: the observed source and the time for `fetch`, and
-- whether the output can be written for the two that print.
pub data Command : Type 0 where
  fetch : Result (Arg Source) → String → Command
  candidate accepted : Option String → Command
  accept : String → Command

-- How the process ends: with a status, or by an exception that `main` does not catch.
pub data Exit : Type 0 where
  status : ℕ → Exit
  uncaught : String → Exit

abbrev pub exit_of : Result (Unit {0}) → Exit
exit_of (ok _) = status 0
exit_of (err (commit_state_uncertain message)) = status 2
exit_of (err (contract_error message)) = status 1
exit_of (err (unsupported_capability message)) = uncaught message
exit_of (err (unhandled message)) = uncaught message

-- `if accepted is None: raise ContractError(…)`
abbrev pub required : Option Candidate → Result Candidate
required none = err (contract_error "no accepted LKG exists")
required (some c) = ok c

module _ (P : Platform) where
  -- `acquire_candidate_bytes`, by the candidate that its bytes decode to.
  unfoldable pub acquire_candidate : Result (Arg Source) → String → Result Candidate
  acquire_candidate observed now = observed >>= λ source. build_candidate P source (exact now)

  -- The `try` block of `main`.
  unfoldable pub perform : Answers → Command → Directory → Ended (Unit {0})
  unfolding acquire_candidate
  perform a (fetch observed now) d =
      after_checks (acquire_candidate observed now) d
        (λ c. write_candidate P a (exact (fields_of c)) d)
  perform a (candidate printed) d = (read_candidate P a d >>= λ c. passed printed, d)
  perform a (accepted printed) d =
      (read_lkg P a d >>= λ found. required found >>= λ c. passed printed, d)
  perform a (accept digest) d = accept_candidate P a (exact digest) d

  -- `main` on parsed arguments
  unfoldable pub main : Answers → Command → Directory → Exit × Directory
  unfolding perform
  main a command d = let (result, after) = perform a command d in (exit_of result, after)
