-- ===== src/Lkg/Admit.antt =====
-- scripts/cloudfront-origin-prefix-lkg.py: `build_candidate`, `validate_candidate` and
-- `admit_successor`.
pub mod Laws
use deployment.Base.{
  ℕ, String, ◌&&◌, ◌||◌, not, Bool, List, Option, none, some, ltb, Arg, exact, other, Result, ok,
  err, contract_error, raise_if, require, ◌>>=◌, ◌>>◌, ◌==◌, ◌/=◌, list_eq, nat_eq, string_eq,
  if◌then◌else◌,
}
use deployment.Base.Text.{codes, ends_with}
use deployment.Lkg.Candidate.{
  Candidate, CandidateFields, source_url, service, schema_version, candidate_digest,
}
use deployment.Lkg.Platform.{Platform}
use deployment.Lkg.Prefixes.{Entry, non_empty, select_prefixes, validate_family}
use deployment.Lkg.Provenance.{validate_provenance}

-- A source document that is an object with the required keys.
pub record Source : Type 0 where
  pub sync_token : Arg String
  pub create_date : Arg String
  pub prefixes : Arg (List (Arg Entry))
  pub ipv6_prefixes : Arg (List (Arg Entry))

-- The candidate with its digest.
abbrev pub sealed : Platform → Candidate → Candidate
sealed P c = record {
  schema_version = c.schema_version;
  source_url = c.source_url;
  source_sync_token = c.source_sync_token;
  source_create_date = c.source_create_date;
  retrieved_at = c.retrieved_at;
  service = c.service;
  ipv4_prefixes = c.ipv4_prefixes;
  ipv6_prefixes = c.ipv6_prefixes;
  candidate_sha256 = candidate_digest P c;
}

-- The content that one publication must not change.
abbrev pub same_content : Candidate → Candidate → Bool
same_content a b =
    a.source_url == b.source_url
    && a.service == b.service
    && a.ipv4_prefixes == b.ipv4_prefixes
    && a.ipv6_prefixes == b.ipv6_prefixes

module _ (P : Platform) where
  -- `build_candidate`
  unfoldable pub build_candidate : Arg Source → Arg String → Result Candidate
  unfolding select_prefixes validate_provenance
  build_candidate given retrieved_given = do
    source ← require given "source document has an invalid schema"
    retrieved_at ← require retrieved_given "retrieval timestamp is invalid"
    raise_if (not (ends_with b'Z' (codes retrieved_at))) "retrieval timestamp is invalid"
    sync_token ←
        non_empty source.sync_token "source provenance field syncToken is missing or invalid"
    create_date ←
        non_empty source.create_date "source provenance field createDate is missing or invalid"
    _ ← validate_provenance P sync_token create_date retrieved_at
    ipv4 ← select_prefixes P "prefixes" 4 source.prefixes
    ipv6 ← select_prefixes P "ipv6_prefixes" 6 source.ipv6_prefixes
    ok (
        sealed P (record {
          schema_version = schema_version;
          source_url = source_url;
          source_sync_token = sync_token;
          source_create_date = create_date;
          retrieved_at = retrieved_at;
          service = service;
          ipv4_prefixes = ipv4;
          ipv6_prefixes = ipv6;
          candidate_sha256 = "";
        }))

  -- `validate_candidate`, which gives the candidate with its types; an object is `other` unless it is
  -- a dictionary with exactly the expected keys.
  unfoldable pub validate_candidate : Arg CandidateFields → Result Candidate
  unfolding validate_family validate_provenance
  validate_candidate given = do
    c ← require given "candidate has an invalid schema"
    version ← require c.schema_version "candidate identity is invalid"
    url ← require c.source_url "candidate identity is invalid"
    offered ← require c.service "candidate identity is invalid"
    raise_if (version /= schema_version || url /= source_url || offered /= service)
        "candidate identity is invalid"
    sync_token ← non_empty c.source_sync_token "candidate provenance is invalid"
    create_date ← non_empty c.source_create_date "candidate provenance is invalid"
    retrieved_at ← non_empty c.retrieved_at "candidate provenance is invalid"
    digest ← non_empty c.candidate_sha256 "candidate provenance is invalid"
    _ ← validate_provenance P sync_token create_date retrieved_at
    ipv4 ← validate_family P 4 c.ipv4_prefixes
    ipv6 ← validate_family P 6 c.ipv6_prefixes
    let candidate : Candidate = record {
      schema_version = version;
      source_url = url;
      source_sync_token = sync_token;
      source_create_date = create_date;
      retrieved_at = retrieved_at;
      service = offered;
      ipv4_prefixes = ipv4;
      ipv6_prefixes = ipv6;
      candidate_sha256 = digest;
    }
    raise_if (digest /= candidate_digest P candidate) "candidate digest does not bind its contents"
    ok candidate

  -- `_validate_provenance` on the fields of a candidate.
  abbrev pub version_of : Candidate → Result ℕ
  version_of c = validate_provenance P c.source_sync_token c.source_create_date c.retrieved_at

  -- `admit_successor`, which gives the candidate with its types.
  unfoldable pub admit_successor :
      Option (Arg CandidateFields) → Arg CandidateFields → Result Candidate
  unfolding validate_candidate
  admit_successor none candidate_given = validate_candidate candidate_given
  admit_successor (some accepted_given) candidate_given = do
    candidate ← validate_candidate candidate_given
    accepted ← validate_candidate accepted_given
    candidate_version ← version_of candidate
    accepted_version ← version_of accepted
    raise_if (ltb candidate_version accepted_version)
        "candidate would roll back the provider publication"
    raise_if (candidate_version == accepted_version && not (same_content candidate accepted))
        "same provider publication has conflicting normalized content"
    ok candidate
