-- ===== src/Publication/Tests.antt =====
-- A publication over a served file, with failures and crashes, and runs.
use deployment.Base.{
  ap, ℕ, zero, suc, ◌≡◌, ◌≢◌, refl, sym, ◌∙◌, inl, inr, Bool, true, false, List, [], ◌∷◌, Option,
  none, some, String, arith, if◌then◌else◌, Bool-cases, exact, other, Arg, ◌==◌, option_eq, list_eq,
  nat_eq, string_eq, leb,
}
use native.Mathlib.Decide.{ℕ_discrete}
use text.Mathlib.TextEquality.{eq_iff}
use deployment.Base.Text.{codes, is_hex_of_length}
use deployment.Samples.{digest_a}
use deployment.Publication.Disk.{linked, contents, Bytes, bytes, Disk}
use deployment.Publication.Act.{
  Verdict, done, fails, crashes, Outcome, returned, raised, system_error, attempt,
}
use deployment.Publication.Act.Rules.{Ends}
use deployment.Publication.Journal.{
  record_of, Codec, IsLawful, RecordFields, stage, read_record, admit_publication_record,
}
use deployment.Publication.Publish.{Published, completed, private_mode, has_size, publish}
use deployment.Publication.Recover.{recover_publication}
use deployment.Publication.Safe.{Safe, Final}
use deployment.Publication.Recover.Laws.{served_after}
use deployment.Publication.Crash.{
  Start, publish-Ends, IsPredecessor, IsKept, publish-recover-IsKept,
}

abbrev digest_b : String
digest_b = "bbbbbbbbbbbbbbbbbbbbbbbbbbbbbbbbbbbbbbbbbbbbbbbbbbbbbbbbbbbbbbbb"

abbrev old : Bytes
old = 1 ∷ []

abbrev new : Bytes
new = 2 ∷ 3 ∷ []

-- A field of a record as one byte.
abbrev code_of : Option (Arg String) → ℕ
code_of none = 0
code_of (some other) = 1
code_of (some (exact text)) = if text == digest_a then 2 else 3

abbrev field_of : ℕ → Option (Arg String)
field_of n =
    if leb n 0
    then none
    else if leb n 1
    then some other
    else if leb n 2
    then some (exact digest_a)
    else some (exact digest_b)

abbrev read_fields : Bytes → Option (Arg RecordFields)
read_fields (x ∷ y ∷ []) =
    some (exact (record { previous_sha256 = field_of x; candidate_sha256 = field_of y }))
read_fields _ = none

-- The digest tells the served bytes from all others.
abbrev codec : Codec
codec = record {
  digest = λ b. if b == old then digest_a else digest_b;
  encode = λ r. code_of r.previous_sha256 ∷ code_of r.candidate_sha256 ∷ [];
  decode = read_fields;
}

field_of-digest :
    (b : Bytes) → field_of (code_of (some (exact (codec.digest b)))) ≡ some (exact (codec.digest b))
unfolding string_eq
field_of-digest b = elim (Bool-cases (b == old)) [ inl e ↦ rw e refl | inr e ↦ rw e refl ]

digest_of-format : (b : Bytes) → is_hex_of_length 64 (codes (codec.digest b)) ≡ true
unfolding is_hex_of_length
digest_of-format b = elim (Bool-cases (b == old)) [ inl e ↦ rw e refl | inr e ↦ rw e refl ]

codec-IsLawful : IsLawful codec
codec-IsLawful = record {
  digest_format = digest_of-format;
  round_trip = round_trip;
  short = λ p c. omega arith;
}
  where
    round_trip :
        (p : Option Bytes) (c : Bytes)
        → codec.decode (codec.encode (record_of codec p c)) ≡ some (exact (record_of codec p c))
    round_trip none c = rw (field_of-digest c) refl
    round_trip (some b) c = rw (field_of-digest b, field_of-digest c) refl

digests_differ : digest_b ≢ digest_a
unfolding string_eq
digests_differ e = cc ((eq_iff digest_b digest_a).1 e)

digest_of_other :
    (x b : Bytes)
    → old ≡ b
    → codec.digest x ≡ codec.digest b
    → (x == old) ≡ false
    → digest_b ≡ digest_a
unfolding list_eq nat_eq ℕ_discrete
digest_of_other x b this same miss =
    let there : codec.digest b ≡ digest_a = rw (← this) refl in
    let here : codec.digest x ≡ digest_b = rw miss refl in sym here ∙ same ∙ there

-- `old` is served.
abbrev before : Disk
before = record {
  serving = record { now = some (bytes old); earlier = [] };
  journal = record { now = none; earlier = [] };
  backup = record { now = none; earlier = [] };
  candidate = none;
  rollback = none;
  saved = none;
  has_rollback = false;
  activated = [];
}

before-Start : Start (some old) before
before-Start = record { serving = refl; journal = refl }

-- What has to compute for a run.
running : Bool
unfolding attempt stage read_record admit_publication_record publish recover_publication string_eq
    list_eq nat_eq option_eq ℕ_discrete is_hex_of_length
running = true

-- So many calls that go well before the next.
abbrev after_calls : ℕ → List Verdict → List Verdict
after_calls zero s = s
after_calls (suc n) s = done ∷ after_calls n s

abbrev published : List Verdict → Outcome Published × Disk × List Verdict
published s = publish codec (exact new) private_mode true false before s

all_goes_well : (published []).0 ≡ returned completed
unfolding running
all_goes_well = refl

served_then : (published []).1.serving.now ≡ some (bytes new)
unfolding running
served_then = refl

-- The reload fails: what was served is served again, and the journal is gone.
reload_fails : (published (after_calls 25 (fails ∷ []))).0 ≡ raised system_error
unfolding running
reload_fails = refl

served_again : (published (after_calls 25 (fails ∷ []))).1.serving.now ≡ some (bytes old)
unfolding running
served_again = refl

-- A crash in place of the reload: the new bytes are found, and the recovery puts the old ones back.
cut_off : (published (after_calls 25 (crashes ∷ []))).1.serving.now ≡ some (bytes new)
unfolding running
cut_off = refl

recovered : served_after codec (published (after_calls 25 (crashes ∷ []))).1 ≡ some (bytes old)
unfolding running
recovered = refl

publish-Ends_example :
    Ends
      (Safe codec (some old) new)
      (Final codec (some old) new)
      (Safe codec (some old) new)
      (published (after_calls 25 (fails ∷ [])))
publish-Ends_example =
    publish-Ends codec new (some old) false before (after_calls 25 (fails ∷ [])) before-Start

-- The disk after that crash.
abbrev cut_off_disk : Disk
cut_off_disk = (published (after_calls 25 (crashes ∷ []))).1

-- A backup that is a link to the file of the predecessor is served too.
through_a_link :
    served_after codec
      (record cut_off_disk { backup = record { now = some (linked old); earlier = [] } })
    ≡ some (bytes old)
unfolding running
through_a_link = refl

backed_up : cut_off_disk.backup.now ≡ some (bytes old)
unfolding running
backed_up = refl

old-IsPredecessor : IsPredecessor codec (some old) cut_off_disk
old-IsPredecessor = record {
  fits = λ b e. fits b e;
  unique = λ b e x found same. unique b e x found;
}
  where
    fits : (b : Bytes) → some old ≡ some b → has_size b ≡ true
    fits b e = let same : old ≡ b = cc e in rw (← same) refl

    unique :
        (b : Bytes)
        → some old ≡ some b
        → (x : Bytes) → contents cut_off_disk.backup.now ≡ some x
        → x ≡ b
    unique b e x found =
        let there : some old ≡ some x = sym (ap contents backed_up) ∙ found in cc (e, there)

publish-recover-IsKept_example :
    IsKept codec codec-IsLawful new (some old) cut_off_disk (served_after codec cut_off_disk)
publish-recover-IsKept_example =
    publish-recover-IsKept codec codec-IsLawful new (some old) false before
      (after_calls 25 (crashes ∷ [])) cut_off_disk old-IsPredecessor before-Start
      (record { serving = inl refl; journal = inl refl; backup = inl refl; activated = refl })
