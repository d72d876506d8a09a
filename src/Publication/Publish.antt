-- ===== src/Publication/Publish.antt =====
-- scripts/haproxy_config_lifecycle.py: `publish`. The callbacks `validate`, `prepare`, `reload` and
-- `recover` are calls that may raise; a call of `reload` that returns takes over what is served.
use deployment.Base.{
  Bool, true, false, not, ◌&&◌, ◌||◌, Option, none, some, length, ltb, leb, Arg, exact, other,
  if◌then◌else◌, ◌==◌, option_eq, list_eq, nat_eq,
}
use deployment.Publication.Disk.{
  Bytes, File, bytes, candidate, rollback, saved, set_temporary, put_serving, put_journal,
  put_backup, replace_serving, replace_journal, replace_backup, settle_serving, settle_journal,
  activate_served,
}
use deployment.Publication.Act.{
  value_error, system_error, returned, Act, pure, raise, raise_if, attempt, call, when, get,
  on_error, finally, ◌>>=◌, ◌>>◌,
}
use deployment.Publication.Journal.{record_of, max_config_bytes, Codec, exists, stage}

-- `None`, `False` and `True`
pub data Published : Type 0 where
  unchanged pending completed : Published

pub data Mode : Type 0 where
  readable private_mode other_mode : Mode

abbrev pub is_private : Mode → Bool
is_private private_mode = true
is_private _ = false

abbrev pub is_other : Mode → Bool
is_other other_mode = true
is_other _ = false

-- `0 < len(data) <= MAX_CONFIG_BYTES`
abbrev pub has_size : Bytes → Bool
has_size b = ltb 0 (length b) && leb (length b) max_config_bytes

-- The bytes that are served, if there are any.
abbrev pub read_serving : Option File → Act (Option Bytes)
read_serving none = pure none
read_serving (some (bytes b)) =
    if has_size b then pure (some b) else raise (value_error "admit-serving-file")
read_serving (some _) = raise (value_error "admit-serving-file")

-- `journal.unlink()` on what the path leads to
abbrev pub unlink_present : Option File → Act (Unit {0})
unlink_present none = raise system_error
unlink_present (some _) = attempt (put_journal none)

unfoldable pub unlink_journal : Act (Unit {0})
unlink_journal = get λ d. unlink_present d.journal.now

-- An assignment to the variable `rollback`
abbrev pub note_rollback : Bool → Act (Unit {0})
note_rollback known d s = (returned tt, record d { has_rollback = known }, s)

module _ (C : Codec) where
  -- A copy of what was served, for a recovery.
  unfoldable pub save_backup : Option Bytes → Act (Unit {0})
  unfolding stage
  save_backup none = pure tt
  save_backup (some b) = do stage saved b true; attempt (replace_backup saved)

  -- The record goes to the journal, and its directory is synchronized.
  unfoldable pub record_journal : Option Bytes → Bytes → Act (Unit {0})
  unfolding stage
  record_journal previous data' = do
    stage saved (C.encode (record_of C previous data')) false
    attempt (replace_journal saved)
    attempt settle_journal

  unfoldable pub write_journal : Option Bytes → Bytes → Act (Unit {0})
  unfolding save_backup record_journal
  write_journal previous data' = do save_backup previous; record_journal previous data'

  -- A copy of what was served, to be put back after a failure.
  unfoldable pub prepare_rollback : Option Bytes → Act (Unit {0})
  unfolding stage
  prepare_rollback none = pure tt
  prepare_rollback (some b) = do stage rollback b true; note_rollback true

  -- `journal.unlink()` and the synchronization, after the reload.
  unfoldable pub retire : Bool → Act (Unit {0})
  unfolding unlink_journal
  retire false = pure tt
  retire true = do unlink_journal; attempt settle_journal

  -- The inner `try` block.
  unfoldable pub activate : Bool → Bool → Act Published
  unfolding retire
  activate journaled prepare_initial = do
    attempt settle_serving
    if prepare_initial
        then pure pending
        else (do attempt activate_served; retire journaled; pure completed)

  -- Its handler: what was served is served again.
  unfoldable pub restore : Option Bytes → Act (Unit {0})
  restore none = attempt (put_serving none)
  restore (some _) = attempt (replace_serving rollback)

  -- The journal is written again if it is missing.
  unfoldable pub retain_journal : Option Bytes → Bytes → Act (Unit {0})
  unfolding record_journal
  retain_journal previous data' =
      get λ d. if exists d.journal.now then pure tt else record_journal previous data'

  unfoldable pub drop_journal : Act (Unit {0})
  drop_journal = do attempt (put_journal none); attempt settle_journal

  unfoldable pub compensate : Option Bytes → Bytes → Bool → Act (Unit {0})
  unfolding restore retain_journal drop_journal
  compensate previous data' journaled = do
    restore previous
    finally (attempt settle_serving) (finally (when journaled (retain_journal previous data')) call)
    when journaled drop_journal

  -- The outer `try` block after the comparison with what is served.
  unfoldable pub replace : Option Bytes → Bytes → Bool → Bool → Act Published
  unfolding prepare_rollback write_journal activate compensate
  replace previous data' journaled prepare_initial = do
    prepare_rollback previous
    when journaled (write_journal previous data')
    attempt (replace_serving candidate)
    on_error (activate journaled prepare_initial) (compensate previous data' journaled)

  -- The outer `try` block.
  unfoldable pub attempt_publication : Option Bytes → Bytes → Bool → Bool → Act Published
  unfolding replace
  attempt_publication previous data' journaled prepare_initial = do
    call
    if previous == some data'
        then (do attempt activate_served; pure unchanged)
        else replace previous data' journaled prepare_initial

  -- The outer `finally` block.
  unfoldable pub clean_up : Bool → Act (Unit {0})
  clean_up journaled = do
    attempt (set_temporary candidate none)
    get λ d. when d.has_rollback (attempt (set_temporary rollback none))
    when journaled (get λ d. if exists d.journal.now then pure tt else attempt (put_backup none))

  -- `publish` from the first `stage` on.
  unfoldable pub publish_admitted : Option Bytes → Bytes → Bool → Bool → Act Published
  unfolding attempt_publication clean_up stage
  publish_admitted previous data' journaled prepare_initial = do
    stage candidate data' true
    note_rollback false
    finally (attempt_publication previous data' journaled prepare_initial) (clean_up journaled)

  -- `publish`; a journal is given if `journaled`.
  unfoldable pub publish : Arg Bytes → Mode → Bool → Bool → Act Published
  unfolding publish_admitted
  publish other mode journaled prepare_initial = raise (value_error "admit-candidate-size")
  publish (exact data') mode journaled prepare_initial = do
    raise_if (not (has_size data')) "admit-candidate-size"
    raise_if (is_other mode || (journaled && not (is_private mode))) "admit-publication-mode"
    get λ d. raise_if (journaled && exists d.journal.now) "recover-pending-publication-first"
    get λ d.
        raise_if (prepare_initial && (not journaled || exists d.serving.now))
          "admit-first-certificate-preparation"
    previous ← get λ d. read_serving d.serving.now
    publish_admitted previous data' journaled prepare_initial
