-- ===== src/Lkg/Candidate.antt =====
-- scripts/cloudfront-origin-prefix-lkg.py: a candidate document with the fields of its schema, its
-- digest and its text.
use deployment.Base.{ℕ, String, List, Arg, exact}
use mathlib.Core.List.{map}
use deployment.Base.Json.{Json, text, num, arr, obj, Fields, end, field, texts}
use deployment.Lkg.Platform.{Platform}

pub record Candidate : Type 0 where
  pub schema_version : ℕ
  pub source_url : String
  pub source_sync_token : String
  pub source_create_date : String
  pub retrieved_at : String
  pub service : String
  pub ipv4_prefixes : List String
  pub ipv6_prefixes : List String
  pub candidate_sha256 : String

-- A decoded JSON object with exactly those keys. A field is `other` if its value is of another type.
pub record CandidateFields : Type 0 where
  pub schema_version : Arg ℕ
  pub source_url : Arg String
  pub source_sync_token : Arg String
  pub source_create_date : Arg String
  pub retrieved_at : Arg String
  pub service : Arg String
  pub ipv4_prefixes : Arg (List (Arg String))
  pub ipv6_prefixes : Arg (List (Arg String))
  pub candidate_sha256 : Arg String

-- The object that a candidate is written as and read back from.
abbrev pub fields_of : Candidate → CandidateFields
fields_of c = record {
  schema_version = exact c.schema_version;
  source_url = exact c.source_url;
  source_sync_token = exact c.source_sync_token;
  source_create_date = exact c.source_create_date;
  retrieved_at = exact c.retrieved_at;
  service = exact c.service;
  ipv4_prefixes = exact (map exact c.ipv4_prefixes);
  ipv6_prefixes = exact (map exact c.ipv6_prefixes);
  candidate_sha256 = exact c.candidate_sha256;
}

abbrev pub source_url : String
source_url = "https://ip-ranges.amazonaws.com/ip-ranges.json"

abbrev pub service : String
service = "CLOUDFRONT_ORIGIN_FACING"

abbrev pub schema_version : ℕ
schema_version = 1

-- The fields that the digest covers, with what follows them.
unfoldable pub candidate_fields : Candidate → Fields → Fields
candidate_fields c rest = field "schema_version" (num c.schema_version) (
    field "source_url" (text c.source_url) (
      field "source_sync_token" (text c.source_sync_token) (
        field "source_create_date" (text c.source_create_date) (
          field "retrieved_at" (text c.retrieved_at) (
            field "service" (text c.service) (
              field "ipv4_prefixes" (arr (texts c.ipv4_prefixes))
                (field "ipv6_prefixes" (arr (texts c.ipv6_prefixes)) rest)))))))

unfoldable pub document : Candidate → Json
unfolding candidate_fields
document c = obj (candidate_fields c (field "candidate_sha256" (text c.candidate_sha256) end))

-- `candidate_digest`
unfoldable pub candidate_digest : Platform → Candidate → String
unfolding candidate_fields
candidate_digest P c = P.digest (obj (candidate_fields c end))
