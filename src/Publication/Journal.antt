-- ===== src/Publication/Journal.antt =====
-- scripts/haproxy_config_lifecycle.py: `admit_publication_record`, `stage`, and the two shapes of a
-- journal file: its fields and its text.
use deployment.Base.{
  ℕ, ◌≤◌, ◌≡◌, String, Bool, true, false, not, ◌&&◌, ◌||◌, Option, none, some, is_none, [], length,
  ltb, Arg, exact, other, if◌then◌else◌,
}
use deployment.Base.Text.{codes, is_hex_of_length}
use mathlib.Core.Option
use deployment.Publication.Disk.{Bytes, File, bytes, dangling, contents, Slot, set_temporary}
use deployment.Publication.Act.{
  value_error, system_error, Act, pure, raise, attempt, call, when, on_error, ◌>>◌,
}

-- `MAX_CONFIG_BYTES` of scripts/haproxy_base_contract.py
abbrev pub max_config_bytes : ℕ
max_config_bytes = 65536

-- A JSON object with exactly those keys; `none` is `null`.
pub record RecordFields : Type 0 where
  pub previous_sha256 : Option (Arg String)
  pub candidate_sha256 : Option (Arg String)

-- SHA-256 in hexadecimal, `json.dumps(record, sort_keys=True).encode()`, and `json.loads`, where
-- `none` is a `ValueError` and `other` an object that is no dictionary or has other keys.
pub record Codec : Type 0 where
  pub digest : Bytes → String
  pub encode : RecordFields → Bytes
  pub decode : Bytes → Option (Arg RecordFields)

-- The record that `publish` writes.
abbrev pub record_of : Codec → Option Bytes → Bytes → RecordFields
record_of C previous data' = record {
  previous_sha256 = Option.map (λ b. exact (C.digest b)) previous;
  candidate_sha256 = some (exact (C.digest data'));
}

-- What is documented of them: a digest has 64 hexadecimal digits, and the text of a record of
-- digests is short and is read back as that record.
pub record IsLawful (C : Codec) : Type 0 where
  pub digest_format : (b : Bytes) → is_hex_of_length 64 (codes (C.digest b)) ≡ true
  pub round_trip :
      (p : Option Bytes) (c : Bytes)
      → C.decode (C.encode (record_of C p c)) ≡ some (exact (record_of C p c))
  pub short : (p : Option Bytes) (c : Bytes) → length (C.encode (record_of C p c)) ≤ 1024

-- `None`, or a text of 64 lowercase hexadecimal digits
abbrev pub is_digest : Option (Arg String) → Bool
is_digest none = true
is_digest (some other) = false
is_digest (some (exact text)) = is_hex_of_length 64 (codes text)

unfoldable pub admit_publication_record : Arg RecordFields → Act RecordFields
admit_publication_record other = raise (value_error "admit-publication-journal")
admit_publication_record (exact r) =
    if not (is_digest r.previous_sha256 && is_digest r.candidate_sha256)
      || is_none r.candidate_sha256
    then raise (value_error "admit-publication-journal")
    else pure r

-- `path.exists()`, which follows a link
abbrev pub exists : Option File → Bool
exists none = false
exists (some dangling) = false
exists (some _) = true

-- `journal.read_bytes()` after its size was read, and its record
unfoldable pub read_record : Codec → Option File → Act RecordFields
unfolding admit_publication_record
read_record C file = elim (contents file) [
  | none ↦ raise system_error
  | some b ↦
      if ltb 1024 (length b)
      then raise (value_error "admit-publication-journal")
      else elim (C.decode b) [
        | none ↦ raise (value_error "json")
        | some given ↦ admit_publication_record given
      ]
]

-- `stage`, which leaves the data in a temporary file; the record of a journal needs no `prepare`. A
-- crash while the file is written leaves it empty, and nobody reads it then.
unfoldable pub stage : Slot → Bytes → Bool → Act (Unit {0})
stage slot data' prepares = do
  attempt (set_temporary slot (some (bytes [])))
  on_error (do attempt (set_temporary slot (some (bytes data'))); call; call; when prepares call)
      (attempt (set_temporary slot none))
