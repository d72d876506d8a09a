-- ===== src/Lkg/Provenance.antt =====
-- scripts/cloudfront-origin-prefix-lkg.py: `_validate_provenance`.
use deployment.Base.{
  ℕ, ◌+◌, String, not, Option, none, some, ltb, Result, ok, err, contract_error, unhandled,
  raise_if, ◌>>=◌, ◌>>◌, if◌then◌else◌, ◌/=◌, nat_eq,
}
use deployment.Base.Text.{codes, is_decimal, follows}
use deployment.Lkg.Platform.{Platform}

abbrev pub max_provider_future_skew_seconds : ℕ
max_provider_future_skew_seconds = 300

-- `datetime.max`, in whole seconds
abbrev pub latest : ℕ
latest = 315537897599

-- `retrieval + timedelta(seconds=…)`, outside of every `try`
unfoldable pub later : ℕ → ℕ → Result ℕ
later time seconds =
    if ltb latest (time + seconds) then err (unhandled "OverflowError") else ok (time + seconds)

-- One conversion in the `try` block.
abbrev converted : Option ℕ → Result ℕ
converted none = err (contract_error "source freshness metadata is invalid")
converted (some time) = ok time

-- `_validate_provenance`
unfoldable pub validate_provenance : Platform → String → String → String → Result ℕ
unfolding later
validate_provenance P sync_token create_date retrieved_at = do
  raise_if (not (is_decimal (codes sync_token))) "source sync token is invalid"
  raise_if (not (follows (codes "0000-00-00-00-00-00") (codes create_date)))
      "source creation date is invalid"
  raise_if (not (follows (codes "0000-00-00T00:00:00Z") (codes retrieved_at)))
      "retrieval timestamp is not canonical UTC"
  publication_from_token ← converted (P.from_timestamp sync_token)
  publication_from_date ← converted (P.from_date create_date)
  retrieval ← converted (P.from_stamp retrieved_at)
  raise_if (publication_from_token /= publication_from_date)
      "source publication metadata is inconsistent"
  limit ← later retrieval max_provider_future_skew_seconds
  raise_if (ltb limit publication_from_token) "source publication time is materially in the future"
  ok publication_from_token
