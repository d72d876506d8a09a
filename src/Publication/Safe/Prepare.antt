-- ===== src/Publication/Safe/Prepare.antt =====
-- Up to the replacement of the served file: the rollback copy, the backup and the journal.
use deployment.Base.{◌≡◌, refl, ap, inl, inr, true, false, List, [], Option, none, some}
use deployment.Publication.Disk.{
  Bytes, File, bytes, Disk, candidate, rollback, saved, set_temporary, Every, replace_backup,
  replace_journal, replace_serving, settle_journal,
}
use deployment.Publication.Act.{Verdict}
use deployment.Publication.Act.Rules.{Ends, attempt-Ends, next-Ends, Ends-weaken}
use deployment.Publication.Journal.{record_of, Codec}
use deployment.Publication.Publish.{save_backup, record_journal, write_journal, prepare_rollback}
use deployment.Publication.Safe.{
  Every-map, IsRecord, IsBackup, Quiet, Armed, Safe, HasCandidate, HasRollback, set_temporary-Quiet,
}
use deployment.Publication.Safe.Stages.{stage-Ends, stage-Ends_safe}

module _ (C : Codec) (p : Option Bytes) (data' : Bytes) where
  -- Before the journal is written.
  pub record Preparing (d : Disk) : Type 0 where
    pub quiet : Quiet C p data' d
    pub candidate : HasCandidate C p data' d
    pub rollback : HasRollback C p data' d

  -- Once it is on the disk.
  pub record Recorded (d : Disk) : Type 0 where
    pub preparing : Preparing d
    pub journal : Every (IsRecord C p data') d.journal
    pub backup : Every (IsBackup C p data') d.backup

  -- Once the candidate is served.
  pub record Loaded (d : Disk) : Type 0 where
    pub armed : Armed C p data' d
    pub rollback : HasRollback C p data' d
    pub served : d.serving.now ≡ some (bytes data')

  pub Preparing-Safe : (d : Disk) → Preparing d → Safe C p data' d
  Preparing-Safe d h = inl h.quiet

  set_saved-Preparing :
      (f : Option File) (d : Disk) → Preparing d → Preparing (set_temporary saved f d)
  set_saved-Preparing f d h = record {
    quiet = set_temporary-Quiet C p data' saved f d h.quiet;
    candidate = h.candidate;
    rollback = h.rollback;
  }

module _ (C : Codec) (data' : Bytes) where
  WithCandidate : Option Bytes → Disk → Type 0
  WithCandidate p d = Quiet C p data' d × HasCandidate C p data' d

  pub prepare_rollback-Ends :
      (p : Option Bytes) (d : Disk) (s : List Verdict)
      → Quiet C p data' d
      → HasCandidate C p data' d
      → Ends (Safe C p data') (λ _. Preparing C p data') (Safe C p data') (prepare_rollback C p d s)
  unfolding prepare_rollback WithCandidate
  prepare_rollback-Ends none d s quiet ready = record {
    quiet = quiet;
    candidate = ready;
    rollback = inl refl;
  }
  prepare_rollback-Ends (some b) d s quiet ready =
      next-Ends (Safe C (some b) data')
        (λ _ d'. WithCandidate (some b) d' × (d'.rollback ≡ some (bytes b)))
        (λ _. Preparing C (some b) data') (Safe C (some b) data') _ _
        (stage-Ends_safe (Safe C (some b) data') (WithCandidate (some b)) rollback b true
          (λ d h. inl h.0) (λ f d h. (set_temporary-Quiet C (some b) data' rollback f d h.0, h.1)) d
          s (quiet, ready))
        (λ _ d' s' h. record {
          quiet = record { serving = h.0.0.serving; journal = h.0.0.journal };
          candidate = h.0.1;
          rollback = inr h.1;
        })

  -- The backup that a recovery will find is there.
  pub WithBackup : Option Bytes → Disk → Type 0
  WithBackup p d = Preparing C p data' d × IsBackup C p data' d.backup.now

  save_backup-Ends :
      (p : Option Bytes) (d : Disk) (s : List Verdict)
      → Preparing C p data' d
      → Ends (Safe C p data') (λ _. WithBackup p) (Safe C p data') (save_backup C p d s)
  unfolding save_backup WithBackup
  save_backup-Ends none d s h = (h, inl refl)
  save_backup-Ends (some b) d s h =
      next-Ends (Safe C (some b) data')
        (λ _ d'. Preparing C (some b) data' d' × (d'.saved ≡ some (bytes b)))
        (λ _. WithBackup (some b)) (Safe C (some b) data') _ _
        (stage-Ends_safe (Safe C (some b) data') (Preparing C (some b) data') saved b true
          (Preparing-Safe C (some b) data') (set_saved-Preparing C (some b) data') d s h)
        (λ _ d' s' (h', saved').
          attempt-Ends (Safe C (some b) data') (λ _. WithBackup (some b)) (Safe C (some b) data')
            (replace_backup saved) d' s' (inl h'.quiet) (inl h'.quiet)
            (
              record {
                quiet = record { serving = h'.quiet.serving; journal = h'.quiet.journal };
                candidate = h'.candidate;
                rollback = h'.rollback;
              },
              inr saved',
            ))

  -- The journal is as it was left at its last synchronization, with its record.
  pub record Written (p : Option Bytes) (d : Disk) : Type 0 where
    pub journal :
        d.journal ≡ record { now = some (bytes (C.encode (record_of C p data'))); earlier = [] }
    pub backup : d.backup.earlier ≡ []

  -- `record_journal` keeps what bears a new record in the journal.
  pub record_journal-Ends :
      (p : Option Bytes) (S I : Disk → Type 0) (safe : (d : Disk) → I d → S d)
      (keep : (f : Option File) (d : Disk) → I d → I (set_temporary saved f d))
      (recorded : (d : Disk) → I d → IsRecord C p data' d.saved → I (replace_journal saved d))
      (settled : (d : Disk) → I d → I (settle_journal d)) (d : Disk) (s : List Verdict)
      → I d
      → Ends S (λ _ d'. I d' × Written p d') I (record_journal C p data' d s)
  unfolding record_journal
  record_journal-Ends p S I safe keep recorded settled d s i =
      next-Ends S (λ _ d'. I d' × IsRecord C p data' d'.saved) (λ _ d'. I d' × Written p d') I _ _
        (stage-Ends S I saved (C.encode (record_of C p data')) false safe keep d s i)
        λ _ d1 s1 (i1, text).
          next-Ends S (λ _ d'. I d' × IsRecord C p data' d'.journal.now)
            (λ _ d'. I d' × Written p d') I _ _
            (attempt-Ends S (λ _ d'. I d' × IsRecord C p data' d'.journal.now) I
              (replace_journal saved) d1 s1 (safe d1 i1) i1 (recorded d1 i1 text, text))
            λ _ d2 s2 (i2, text').
              attempt-Ends S (λ _ d'. I d' × Written p d') I settle_journal d2 s2 (safe d2 i2) i2
                (
                  settled d2 i2,
                  record {
                    journal = ap (λ f. record { now = f; earlier = [] }) text';
                    backup = refl;
                  },
                )

  pub write_journal-Ends :
      (p : Option Bytes) (d : Disk) (s : List Verdict)
      → Preparing C p data' d
      → Ends
          (Safe C p data')
          (λ _. Recorded C p data')
          (Safe C p data')
          (write_journal C p data' d s)
  unfolding write_journal WithBackup
  write_journal-Ends p d s h =
      next-Ends (Safe C p data') (λ _. WithBackup p) (λ _. Recorded C p data') (Safe C p data') _ _
        (save_backup-Ends p d s h)
        λ _ d1 s1 h1.
          Ends-weaken (Safe C p data') (λ _ d'. WithBackup p d' × Written p d')
            (λ _. Recorded C p data') (WithBackup p) (Safe C p data')
            (record_journal C p data' d1 s1)
            (record_journal-Ends p (Safe C p data') (WithBackup p) (λ d h. inl h.0.quiet)
              (λ f d h. (set_saved-Preparing C p data' f d h.0, h.1))
              (λ d h text. (
                record {
                  quiet = record {
                    serving = h.0.quiet.serving;
                    journal = (inr text, h.0.quiet.journal);
                  };
                  candidate = h.0.candidate;
                  rollback = h.0.rollback;
                },
                h.1,
              ))
              (λ d h. (
                record {
                  quiet = record {
                    serving = h.0.quiet.serving;
                    journal = (h.0.quiet.journal.0, tt);
                  };
                  candidate = h.0.candidate;
                  rollback = h.0.rollback;
                },
                h.1,
              ))
              d1 s1 h1)
            (λ _ d h. record {
              preparing = h.0.0;
              journal = rw h.1.journal (refl, tt);
              backup = (h.0.1, rw h.1.backup tt);
            })
            (λ d h. inl h.0.quiet)

  pub replace_serving-Loaded :
      (p : Option Bytes) (d : Disk)
      → Recorded C p data' d
      → Loaded C p data' (replace_serving candidate d)
  replace_serving-Loaded p d h = record {
    armed = record {
      serving =
          (inr h.preparing.candidate, Every-map (λ f e. inl e) d.serving h.preparing.quiet.serving);
      journal = h.journal;
      backup = h.backup;
    };
    rollback = h.preparing.rollback;
    served = h.preparing.candidate;
  }
