-- ===== src/Publication/Safe/Whole.antt =====
-- A whole publication with a journal: what is found at any crash, after any exception, and at the end.
use deployment.Base.{
  ◌≡◌, refl, sym, ap, ◌∙◌, inl, inr, Bool, true, false, List, Option, none, some, arith,
  if◌then◌else◌, ◌==◌, option_eq, list_eq, nat_eq,
}
use deployment.Publication.Disk.{
  Bytes, File, Disk, Slot, candidate, rollback, set_temporary, put_backup, activate_served,
  replace_serving,
}
use deployment.Publication.Act.{Verdict, attempt, when, pure, next, ◌>>◌}
use deployment.Publication.Act.Rules.{Ends, attempt-Ends, next-Ends, ended-Ends, handled-Ends}
use deployment.Publication.Journal.{Codec, exists}
use deployment.Publication.Publish.{
  Published, unchanged, pending, completed, clean_up, replace, attempt_publication,
  publish_admitted,
}
use deployment.Publication.Safe.{
  Quiet, Armed, Safe, HasCandidate, Unchanged, Final, Final-Safe, set_temporary-Quiet,
  set_temporary-Safe, set_temporary-Final, previous_file,
}
use deployment.Publication.Safe.Stages.{stage-Ends_safe}
use deployment.Publication.Safe.Prepare.{
  Preparing, Recorded, Loaded, prepare_rollback-Ends, write_journal-Ends, replace_serving-Loaded,
}
use deployment.Publication.Safe.Compensate.{Broken, compensate-Ends}
use deployment.Publication.Safe.Activate.{activate-Ends}

module _ (C : Codec) (data' : Bytes) (p : Option Bytes) where
  Armed-exists : (d : Disk) → Armed C p data' d → exists d.journal.now ≡ false → ⊥
  Armed-exists d h e = cc (ap exists h.journal.0, e)

  drop_backup-Safe :
      (d : Disk)
      → Safe C p data' d
      → exists d.journal.now ≡ false
      → Safe C p data' (put_backup none d)
  drop_backup-Safe d (inl h) e = inl (record { serving = h.serving; journal = h.journal })
  drop_backup-Safe d (inr (inl h)) e = absurd (Armed-exists d h e)
  drop_backup-Safe d (inr (inr h)) e =
      inr (inr (record { serving = h.serving; journal = h.journal; activated = h.activated }))

  drop_backup-Final :
      (r : Published) (d : Disk)
      → Final C p data' r d
      → exists d.journal.now ≡ false
      → Final C p data' r (put_backup none d)
  drop_backup-Final unchanged d h e = record {
    quiet = record { serving = h.quiet.serving; journal = h.quiet.journal };
    same = h.same;
    activated = h.activated;
  }
  drop_backup-Final pending d h e = absurd (Armed-exists d h.armed e)
  drop_backup-Final completed d h e = record {
    serving = h.serving;
    journal = h.journal;
    activated = h.activated;
  }

  module _ (J : Disk → Type 0) (safe : (d : Disk) → J d → Safe C p data' d)
      (keep : (slot : Slot) (f : Option File) (d : Disk) → J d → J (set_temporary slot f d))
      (drop : (d : Disk) → J d → exists d.journal.now ≡ false → J (put_backup none d)) where
    dropped :
        (there : Bool) (d : Disk) (s : List Verdict)
        → J d
        → exists d.journal.now ≡ there
        → Ends
            (Safe C p data')
            (λ _. J)
            (Safe C p data')
            ((if there then pure tt else attempt (put_backup none)) d s)
    dropped true d s j e = j
    dropped false d s j e =
        attempt-Ends (Safe C p data') (λ _. J) (Safe C p data') (put_backup none) d s (safe d j)
          (safe d j) (drop d j e)

    unrolled :
        (known : Bool) (d : Disk) (s : List Verdict)
        → J d
        → Ends
            (Safe C p data')
            (λ _. J)
            (Safe C p data')
            (when known (attempt (set_temporary rollback none)) d s)
    unrolled true d s j =
        attempt-Ends (Safe C p data') (λ _. J) (Safe C p data') (set_temporary rollback none) d s
          (safe d j) (safe d j) (keep rollback none d j)
    unrolled false d s j = j

    clean_up-Ends :
        (d : Disk) (s : List Verdict)
        → J d
        → Ends (Safe C p data') (λ _. J) (Safe C p data') (clean_up C true d s)
    unfolding clean_up
    clean_up-Ends d s j =
        next-Ends (Safe C p data') (λ _. J) (λ _. J) (Safe C p data') _ _
          (attempt-Ends (Safe C p data') (λ _. J) (Safe C p data') (set_temporary candidate none) d
            s (safe d j) (safe d j) (keep candidate none d j))
          λ _ d s j.
            next-Ends (Safe C p data') (λ _. J) (λ _. J) (Safe C p data') _ _
              (unrolled d.has_rollback d s j) (λ _ d s j. dropped (exists d.journal.now) d s j refl)

  replace-Ends :
      (initial : Bool) (d : Disk) (s : List Verdict)
      → Quiet C p data' d
      → HasCandidate C p data' d
      → Ends
          (Safe C p data')
          (Final C p data')
          (Safe C p data')
          (replace C p data' true initial d s)
  unfolding replace
  replace-Ends initial d s quiet ready =
      next-Ends (Safe C p data') (λ _. Preparing C p data') (Final C p data') (Safe C p data') _ _
        (prepare_rollback-Ends C data' p d s quiet ready)
        λ _ d s h.
          next-Ends (Safe C p data') (λ _. Recorded C p data') (Final C p data') (Safe C p data') _
            _ (write_journal-Ends C data' p d s h)
            λ _ d s h.
              next-Ends (Safe C p data') (λ _. Loaded C p data') (Final C p data') (Safe C p data')
                _ _
                (attempt-Ends (Safe C p data') (λ _. Loaded C p data') (Safe C p data')
                  (replace_serving candidate) d s (inl h.preparing.quiet) (inl h.preparing.quiet)
                  (replace_serving-Loaded C data' p d h))
                λ _ d s h.
                  handled-Ends (Safe C p data') (Final C p data') (Broken C data' p)
                    (Safe C p data') _ _ (activate-Ends C data' p initial d s h)
                    (λ d s h. compensate-Ends C data' p d s h)

  unchanged-Ends :
      (d : Disk) (s : List Verdict)
      → Quiet C p data' d
      → p ≡ some data'
      → Ends
          (Safe C p data')
          (Final C p data')
          (Safe C p data')
          (next (attempt activate_served d s) (λ _. pure unchanged))
  unchanged-Ends d s quiet same =
      next-Ends (Safe C p data') (λ _. Unchanged C p data') (Final C p data') (Safe C p data') _ _
        (attempt-Ends (Safe C p data') (λ _. Unchanged C p data') (Safe C p data') activate_served d
          s (inl quiet) (inl quiet)
          (record {
            quiet = record { serving = quiet.serving; journal = quiet.journal };
            same = same;
            activated = inl (sym (quiet.serving.0 ∙ ap previous_file same));
          }))
        (λ _ d s h. h)

  chosen-Ends :
      (same initial : Bool) (d : Disk) (s : List Verdict)
      → (p == some data') ≡ same
      → Quiet C p data' d
      → HasCandidate C p data' d
      → Ends (Safe C p data') (Final C p data') (Safe C p data') (
          (if same
              then attempt activate_served >> pure unchanged
              else replace C p data' true initial)
            d s)
  chosen-Ends true initial d s e quiet ready = unchanged-Ends d s quiet (ground arith)
  chosen-Ends false initial d s e quiet ready = replace-Ends initial d s quiet ready

  attempt_publication-Ends :
      (initial : Bool) (d : Disk) (s : List Verdict)
      → Quiet C p data' d
      → HasCandidate C p data' d
      → Ends
          (Safe C p data')
          (Final C p data')
          (Safe C p data')
          (attempt_publication C p data' true initial d s)
  unfolding attempt_publication
  attempt_publication-Ends initial d s quiet ready =
      next-Ends (Safe C p data') (λ _ d. Quiet C p data' d × HasCandidate C p data' d)
        (Final C p data') (Safe C p data') _ _
        (attempt-Ends (Safe C p data') (λ _ d. Quiet C p data' d × HasCandidate C p data' d)
          (Safe C p data') (λ x. x) d s (inl quiet) (inl quiet) (quiet, ready))
        (λ _ d s (q, r). chosen-Ends (p == some data') initial d s refl q r)

  pub publish_admitted-Ends :
      (initial : Bool) (d : Disk) (s : List Verdict)
      → Quiet C p data' d
      → Ends
          (Safe C p data')
          (Final C p data')
          (Safe C p data')
          (publish_admitted C p data' true initial d s)
  unfolding publish_admitted
  publish_admitted-Ends initial d s quiet =
      next-Ends (Safe C p data') (λ _ d. Quiet C p data' d × HasCandidate C p data' d)
        (Final C p data') (Safe C p data') _ _
        (stage-Ends_safe (Safe C p data') (Quiet C p data') candidate data' true (λ d h. inl h)
          (set_temporary-Quiet C p data' candidate) d s quiet)
        λ _ d s (q, r).
          ended-Ends (Safe C p data') (Final C p data') (Final C p data') (Safe C p data')
            (Safe C p data') _ _
            (attempt_publication-Ends initial (record d { has_rollback = false }) s
              (record { serving = q.serving; journal = q.journal }) r)
            (λ a d s h.
              clean_up-Ends (Final C p data' a) (Final-Safe C p data' a)
                (set_temporary-Final C p data' a) (drop_backup-Final a) d s h)
            (λ d s h.
              clean_up-Ends (Safe C p data') (λ d h. h) (set_temporary-Safe C p data')
                drop_backup-Safe d s h)
