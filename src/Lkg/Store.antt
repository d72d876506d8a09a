-- ===== src/Lkg/Store.antt =====
-- scripts/cloudfront-origin-prefix-lkg.py: the two documents of a state directory and the
-- operations on them. What the system answers to each call of an operation is an argument.
pub mod Laws
use deployment.Base.{
  ℕ, String, ◌<>◌, Bool, true, false, not, ◌||◌, Option, none, some, ltb, length, Arg, exact, other,
  Failure, Result, ok, err, contract_error, commit_state_uncertain, unhandled, raise_if, require,
  ◌>>=◌, ◌>>◌, ◌/=◌, string_eq, nat_eq, if◌then◌else◌,
}
use deployment.Base.Text.{codes}
use deployment.Lkg.Candidate.{Candidate, CandidateFields, fields_of, document}
use deployment.Lkg.Platform.{Platform}
use deployment.Lkg.Admit.{validate_candidate, admit_successor}

-- A state file: its links, owner or mode are not as they must be, or its content is too large or no
-- JSON, or it decodes to an object, `other` if that is no dictionary.
pub data File : Type 0 where
  unsafe too_large invalid : File
  decoded : Arg (Arg CandidateFields) → File

-- `candidate.json` and `accepted-lkg.json`
pub record Directory : Type 0 where
  pub candidate : Option File
  pub accepted : Option File

-- How the calls of `_atomic_write` go: all well, an `OSError` before the rename, or one after it.
pub data Write : Type 0 where
  written failed_before failed_after : Write

-- The answers of the system to one operation; a text is the message of a `ContractError`.
pub record Answers : Type 0 where
  -- `_assert_safe_directory`, with its synchronization
  pub directory : Option String
  -- `_fsync_directory` on the parent
  pub synchronized : Option String
  -- the entry of `_state_lock`
  pub locked : Option String
  pub candidate_reading : Option String
  pub accepted_reading : Option String
  pub write : Write

abbrev pub max_state_bytes : ℕ
max_state_bytes = 1048576

-- What an operation returns or raises, and the directory after it.
abbrev pub Ended : Type 0 → Type 0
Ended A = Result A × Directory

-- The document that a file holds.
abbrev pub content : File → Result (Arg CandidateFields)
content unsafe = err (contract_error "state file is unsafe")
content too_large = err (contract_error "state document exceeds the maximum size")
content invalid = err (contract_error "state document is invalid")
content (decoded other) = err (contract_error "state document root is invalid")
content (decoded (exact document)) = ok document

abbrev pub candidate_file : Candidate → File
candidate_file c = decoded (exact (exact (fields_of c)))

-- The directory after the rename of a written document to the one name or the other.
abbrev pub put_candidate : Candidate → Directory → Directory
put_candidate c d = record { candidate = some (candidate_file c); accepted = d.accepted }

abbrev pub put_accepted : Candidate → Directory → Directory
put_accepted c d = record { candidate = d.candidate; accepted = some (candidate_file c) }

-- A call that raises a `ContractError` or returns.
abbrev pub passed : Option String → Result (Unit {0})
passed none = ok tt
passed (some message) = err (contract_error message)

-- How `_atomic_write` ends, where `after` is the directory after the rename to `name`.
abbrev pub published : Write → String → Directory → Directory → Ended (Unit {0})
published written name before after = (ok tt, after)
published failed_before name before after =
    (err (contract_error "atomic state publication failed"), before)
published failed_after name before after = (
  err (
      commit_state_uncertain
        ("COMMITTED_DURABILITY_UNCONFIRMED:" <> name <> ":authoritative readback required")),
  after,
)

-- An operation that first calls `checks`, which change nothing.
abbrev pub after_checks : {A B : Type 0} → Result A → Directory → (A → Ended B) → Ended B
after_checks (err e) d k = (err e, d)
after_checks (ok a) d k = k a

-- `acknowledged_digest` is a text of 64 characters.
unfoldable pub acknowledgement : Arg String → Result String
acknowledgement given = do
  digest ← require given "acknowledged candidate digest is invalid"
  raise_if (length (codes digest) /= 64) "acknowledged candidate digest is invalid"
  ok digest

-- The document behind a name, once the file was read.
abbrev pub found : Option String → Option File → Result (Option (Arg CandidateFields))
found (some message) file = err (contract_error message)
found none none = ok none
found none (some file) = content file >>= λ document. ok (some document)

-- The accepted document, if there is one, as `admit_successor` takes it.
abbrev pub given_fields : Option Candidate → Option (Arg CandidateFields)
given_fields none = none
given_fields (some c) = some (exact (fields_of c))

module _ (P : Platform) where
  -- `_atomic_write`
  unfoldable pub atomic_write :
      Write → String → Candidate → Directory → Directory → Ended (Unit {0})
  atomic_write write name c before after =
      if ltb max_state_bytes (P.size (document c))
      then (err (contract_error "state document exceeds the maximum size"), before)
      else published write name before after

  -- `_read_document`, with `required=False`
  unfoldable pub read_document : Option String → Option File → Result (Option Candidate)
  read_document reading file = do
    given ← found reading file
    elim given [
      | none ↦ ok none
      | some document ↦ validate_candidate P document >>= λ c. ok (some c)
    ]

  -- `_read_document`, with `required=True`
  unfoldable pub read_required : Option String → Option File → Result Candidate
  unfolding read_document
  read_required reading file = do
    given ← read_document reading file
    elim given [ none ↦ err (contract_error "required state file is missing") | some c ↦ ok c ]

  -- `write_candidate`
  unfoldable pub write_candidate : Answers → Arg CandidateFields → Directory → Ended (Unit {0})
  unfolding atomic_write
  write_candidate a given d =
      after_checks (do c ← validate_candidate P given; passed a.directory; passed a.locked; ok c) d
        (λ c. atomic_write a.write "candidate.json" c d (put_candidate c d))

  -- `read_candidate` and `read_lkg`
  unfoldable pub read_candidate : Answers → Directory → Result Candidate
  unfolding read_required
  read_candidate a d = do
    passed a.directory
    passed a.locked
    read_required a.candidate_reading d.candidate

  unfoldable pub read_lkg : Answers → Directory → Result (Option Candidate)
  unfolding read_document
  read_lkg a d = do passed a.directory; passed a.locked; read_document a.accepted_reading d.accepted

  -- The checks of `accept_candidate`, which give the candidate to promote.
  unfoldable pub admit_acceptance : Answers → Arg String → Directory → Result Candidate
  unfolding acknowledgement read_required read_document
  admit_acceptance a acknowledged_given d = do
    acknowledged ← acknowledgement acknowledged_given
    passed a.directory
    passed a.synchronized
    passed a.locked
    candidate ← read_required a.candidate_reading d.candidate
    accepted ← read_document a.accepted_reading d.accepted
    promoted ← admit_successor P (given_fields accepted) (exact (fields_of candidate))
    raise_if (promoted.candidate_sha256 /= acknowledged)
        "acknowledgement does not match the current candidate"
    ok promoted

  -- `accept_candidate`
  unfoldable pub accept_candidate : Answers → Arg String → Directory → Ended (Unit {0})
  unfolding admit_acceptance atomic_write
  accept_candidate a acknowledged d =
      after_checks (admit_acceptance a acknowledged d) d
        (λ c. atomic_write a.write "accepted-lkg.json" c d (put_accepted c d))
