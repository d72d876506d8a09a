-- ===== src/Publication/Recover.antt =====
-- scripts/haproxy_config_lifecycle.py: `recover_publication`.
pub mod Laws
use deployment.Base.{
  ℕ, String, Bool, true, false, not, ◌&&◌, Option, none, some, length, leb, Arg, exact, other,
  if◌then◌else◌, ◌==◌, string_eq,
}
use deployment.Publication.Disk.{
  Bytes, contents, candidate, put_serving, put_backup, replace_serving, settle_serving,
  settle_journal,
}
use deployment.Publication.Act.{value_error, Act, pure, raise, attempt, call, get, ◌>>=◌, ◌>>◌}
use deployment.Publication.Journal.{max_config_bytes, Codec, exists, read_record, stage}
use deployment.Publication.Publish.{unlink_journal}

module _ (C : Codec) where
  -- The authenticated predecessor is served again, from what a reader finds in the backup, which may
  -- be a link to a regular file. A digest was admitted, so it is a text.
  unfoldable pub restore_predecessor : Option (Arg String) → Option Bytes → Act (Unit {0})
  unfolding stage
  restore_predecessor none backup = attempt (put_serving none)
  restore_predecessor (some (exact digest)) (some b) =
      if leb (length b) max_config_bytes && C.digest b == digest
      then (do stage candidate b true; attempt (replace_serving candidate))
      else raise (value_error "admit-publication-predecessor")
  restore_predecessor (some _) _ = raise (value_error "admit-publication-predecessor")

  -- `recover_publication`
  unfoldable pub recover_publication : Act Bool
  unfolding restore_predecessor read_record unlink_journal
  recover_publication = get λ d. if not (exists d.journal.now) then pure false else (do
    r ← read_record C d.journal.now
    restore_predecessor r.previous_sha256 (contents d.backup.now)
    attempt settle_serving
    call
    unlink_journal
    attempt settle_journal
    attempt (put_backup none)
    attempt settle_journal
    pure true)
