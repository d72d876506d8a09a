-- ===== src/Janitor/Rocky/Samples.antt =====
-- A run and its disk, for the tests.
use deployment.Base.{String, [], ◌∷◌, some, exact, other, option_eq, string_eq, list_eq, nat_eq}
use deployment.Janitor.Rocky.Contract.{Resource, Labels}

abbrev pub sha : String
sha = "0123456789abcdef0123456789abcdef01234567"

abbrev pub authority : Labels
authority = record {
  secpal_ci_owner = "rocky-host-qualification";
  repository = "secpal-deployment";
  github_run_id = "77";
  github_run_attempt = "1";
  target_sha = sha;
  control_sha = sha;
  provider_profile = "gcp-rocky-10-2-arm64";
  created_at = "1700000000";
  expires_at = "1700010000";
}

-- The disk of that run.
abbrev pub run_disk : Resource
run_disk = record {
  name = some "sprk-77-1-disk";
  labels = exact (
      ("secpal_ci_owner", exact "rocky-host-qualification")
      ∷ ("repository", exact "secpal-deployment")
      ∷ ("github_run_id", exact "77")
      ∷ ("github_run_attempt", exact "1")
      ∷ ("target_sha", exact sha)
      ∷ ("control_sha", exact sha)
      ∷ ("provider_profile", exact "gcp-rocky-10-2-arm64")
      ∷ ("created_at", exact "1700000000")
      ∷ ("expires_at", exact "1700010000")
      ∷ []);
  description = other;
  self_link =
      some
        "https://www.googleapis.com/compute/v1/projects/secpal-dev/zones/europe-west3-a/disks/sprk-77-1-disk";
  kind = some "compute#disk";
  id = some "4711";
  shown_id = "4711";
  zone = some "https://www.googleapis.com/compute/v1/projects/secpal-dev/zones/europe-west3-a";
  created = some 1700000001000000;
}
