-- ===== src/Lkg/Tests.antt =====
-- The theorems about the accepted prefixes at concrete documents, and runs.
use deployment.Base.{
  String, Bool, true, [], ◌∷◌, none, some, ◌≡◌, ◌⊎◌, ◌↔◌, refl, Arg, exact, ok, err, contract_error,
  commit_state_uncertain, if◌then◌else◌, ◌==◌, string_eq, list_eq, nat_eq, option_eq,
}
use native.Mathlib.Decide.{ℕ_discrete}
use deployment.Samples.{digest_a, given_text}
use deployment.Base.Text.{strip, is_space, is_decimal, follows, ends_with}
use deployment.Base.Networks.{sorted_set}
use deployment.Base.Runtime.{Network}
use deployment.Lkg.Candidate.{Candidate, fields_of, candidate_digest, candidate_fields}
use deployment.Lkg.Platform.{Platform}
use deployment.Lkg.Provenance.{later, validate_provenance}
use deployment.Lkg.Prefixes.{
  Entry, parse_network, parse_networks, validate_family, select_entry, select_entries,
  select_prefixes,
}
use deployment.Lkg.Admit.{build_candidate, validate_candidate, admit_successor}
use deployment.Lkg.Admit.Laws.{IsSuccessor, IsValid, admit_successor_iff}
use deployment.Lkg.Store.{
  Directory, Answers, written, failed_after, candidate_file, acknowledgement, read_document,
  read_required, read_lkg, admit_acceptance, atomic_write, accept_candidate, write_candidate,
  put_accepted,
}
use deployment.Lkg.Store.Laws.{Holds}
use deployment.Base.Json.{null}
use deployment.Lkg.Main
use deployment.Lkg.Main.{main, status, closed_object}
use deployment.Lkg.Main.Laws.{Committed, main-Committed, main-unchanged}
use deployment.Lkg.History.{
  write, accept, run, Unchanged, Promoted, accept_candidate_sound, read_lkg-accept_candidate,
  IsAdvanced, run-IsAdvanced,
}

abbrev network_four : Network
network_four = record { version = 4; text = "192.0.2.0/24"; packed = 3221225984; prefixlen = 24 }

abbrev network_six : Network
network_six = record {
  version = 6;
  text = "2001:db8::/32";
  packed = 42540766411282592856903984951653826560;
  prefixlen = 32;
}

-- Second 1 and second 2 of 1970, as seconds after `datetime.min`.
abbrev platform : Platform
platform = record {
  ip_network = λ s.
      if s == "192.0.2.0/24"
      then some network_four
      else if s == "2001:db8::/32"
      then some network_six
      else none;
  from_timestamp =
      λ s. if s == "1" then some 62135596801 else if s == "2" then some 62135596802 else none;
  from_date = λ s.
      if s == "1970-01-01-00-00-01"
      then some 62135596801
      else if s == "1970-01-01-00-00-02"
      then some 62135596802
      else none;
  from_stamp = λ s. some 62135596802;
  digest = λ d. digest_a;
  size = λ d. 500;
}

abbrev candidate_of : String → String → Candidate
candidate_of token date = record {
  schema_version = 1;
  source_url = "https://ip-ranges.amazonaws.com/ip-ranges.json";
  source_sync_token = token;
  source_create_date = date;
  retrieved_at = "1970-01-01T00:00:02Z";
  service = "CLOUDFRONT_ORIGIN_FACING";
  ipv4_prefixes = "192.0.2.0/24" ∷ [];
  ipv6_prefixes = "2001:db8::/32" ∷ [];
  candidate_sha256 = digest_a;
}

abbrev older : Candidate
older = candidate_of "1" "1970-01-01-00-00-01"

abbrev newer : Candidate
newer = candidate_of "2" "1970-01-01-00-00-02"

-- What has to compute for a run.
running : Bool
unfolding strip is_space is_decimal follows ends_with sorted_set later validate_provenance
    parse_network parse_networks validate_family candidate_fields candidate_digest
    validate_candidate admit_successor acknowledgement read_document read_required read_lkg
    admit_acceptance atomic_write accept_candidate write_candidate string_eq list_eq nat_eq
    ℕ_discrete
running = true

older-IsValid : IsValid platform older
unfolding running
older-IsValid = refl

newer-IsValid : IsValid platform newer
unfolding running
newer-IsValid = refl

abbrev calm : Answers
calm = record {
  directory = none;
  synchronized = none;
  locked = none;
  candidate_reading = none;
  accepted_reading = none;
  write = written;
}

-- The newer candidate waits, and the older one is accepted.
abbrev waiting : Directory
waiting = record { candidate = some (candidate_file newer); accepted = some (candidate_file older) }

accepted_now :
    accept_candidate platform calm (given_text digest_a) waiting
    ≡ (ok tt, put_accepted newer waiting)
unfolding running
accepted_now = refl

returned_now : (accept_candidate platform calm (given_text digest_a) waiting).0 ≡ ok tt
unfolding running
returned_now = refl

-- The older candidate may not follow the newer one.
rolled_back :
    accept_candidate platform calm
      (given_text digest_a)
      (record { candidate = some (candidate_file older); accepted = some (candidate_file newer) })
    ≡ (
      err (contract_error "candidate would roll back the provider publication"),
      record { candidate = some (candidate_file older); accepted = some (candidate_file newer) },
    )
unfolding running
rolled_back = refl

-- The rename was made and its durability is not known.
uncertain_now :
    accept_candidate platform (record calm { write = failed_after }) (given_text digest_a) waiting
    ≡ (
      err (
          commit_state_uncertain
            "COMMITTED_DURABILITY_UNCONFIRMED:accepted-lkg.json:authoritative readback required"),
      put_accepted newer waiting,
    )
unfolding running
uncertain_now = refl

-- An observed document, with a prefix of another service.
abbrev entry_of : String → String → Arg Entry
entry_of prefix service = exact (record {
  prefix = exact prefix;
  region = exact "GLOBAL";
  service = exact service;
  network_border_group = exact "GLOBAL";
})

built :
    build_candidate platform
      (exact (record {
        sync_token = exact "2";
        create_date = exact "1970-01-01-00-00-02";
        prefixes = exact (
            entry_of "192.0.2.0/24" "EC2"
            ∷ entry_of "192.0.2.0/24" "CLOUDFRONT_ORIGIN_FACING"
            ∷ []);
        ipv6_prefixes = exact (entry_of "2001:db8::/32" "CLOUDFRONT_ORIGIN_FACING" ∷ []);
      }))
      (exact "1970-01-01T00:00:02Z")
    ≡ ok newer
unfolding running build_candidate select_entry select_entries select_prefixes
built = refl

admit_successor_iff_example :
    (admit_successor platform (some (exact (fields_of older))) (exact (fields_of newer)) ≡ ok newer)
    ↔ ((newer ≡ newer) × IsSuccessor platform older newer)
admit_successor_iff_example =
    admit_successor_iff platform older newer newer older-IsValid newer-IsValid

accept_candidate_sound_example :
    let (result, after) = accept_candidate platform calm (given_text digest_a) waiting in
    Unchanged platform (result, after) waiting
    ⊎ Promoted platform (given_text digest_a) waiting result after
accept_candidate_sound_example = accept_candidate_sound platform calm (given_text digest_a) waiting

read_lkg-accept_candidate_example :
    (c : Candidate) × (read_lkg platform calm
        (accept_candidate platform calm (given_text digest_a) waiting).1
      ≡ ok (some c))
    × (given_text digest_a ≡ exact c.candidate_sha256)
    × Holds platform waiting.candidate c
read_lkg-accept_candidate_example =
    read_lkg-accept_candidate platform calm (given_text digest_a) waiting calm returned_now refl
      refl refl

run-IsAdvanced_example : IsAdvanced platform older (
    run platform
      (accept calm (given_text digest_a)
        ∷ write calm (exact (fields_of older))
        ∷ accept calm (given_text digest_a)
        ∷ [])
      waiting)
run-IsAdvanced_example =
    run-IsAdvanced platform older
      (accept calm (given_text digest_a)
        ∷ write calm (exact (fields_of older))
        ∷ accept calm (given_text digest_a)
        ∷ [])
      waiting (record { stored = refl; valid = older-IsValid })

main_accepts : (main platform calm (Main.accept digest_a) waiting).0 ≡ status 0
unfolding running main
main_accepts = refl

main-Committed_example :
    Committed platform digest_a waiting (main platform calm (Main.accept digest_a) waiting).1
main-Committed_example = main-Committed platform calm digest_a waiting main_accepts

-- The lock is held by another process.
abbrev busy : Answers
busy = record calm { locked = some "state lock acquisition timed out" }

main_refuses : (main platform busy (Main.accept digest_a) waiting).0 ≡ status 1
unfolding running main
main_refuses = refl

main-unchanged_example : (main platform busy (Main.accept digest_a) waiting).1 ≡ waiting
main-unchanged_example = main-unchanged platform busy digest_a waiting main_refuses

-- A key that comes twice is refused.
repeated_key : closed_object [] (("a", null) ∷ ("b", null) ∷ ("a", null) ∷ []) ≡ none
unfolding running closed_object
repeated_key = refl
