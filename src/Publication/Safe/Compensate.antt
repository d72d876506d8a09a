-- ===== src/Publication/Safe/Compensate.antt =====
-- After the replacement of the served file: the handler that puts back what was served.
use deployment.Base.{
  ◌≡◌, ◌⊎◌, refl, ap, inl, inr, Bool, true, false, List, Option, none, some, if◌then◌else◌,
}
use deployment.Publication.Disk.{
  Bytes, File, Disk, rollback, saved, set_temporary, Every, put_serving, put_journal,
  replace_serving, settle_serving, settle_journal,
}
use deployment.Publication.Act.{Verdict, attempt, call, pure, ended, finally}
use deployment.Publication.Act.Rules.{Ends, attempt-Ends, next-Ends, ended-Ends, Ends-weaken}
use deployment.Publication.Journal.{Codec, exists}
use deployment.Publication.Publish.{
  record_journal, restore, retain_journal, drop_journal, compensate,
}
use deployment.Publication.Safe.{
  Every-map, IsPrevious, Quiet, Armed, Committed, Safe, HasRollback, set_temporary-Committed,
}
use deployment.Publication.Safe.Stages.{call-Ends}
use deployment.Publication.Safe.Prepare.{record_journal-Ends}

module _ (C : Codec) (data' : Bytes) where
  -- The new bytes may be served, and the old ones can be put back.
  unfoldable pub Broken : Option Bytes → Disk → Type 0
  Broken p d = (Armed C p data' d ⊎ Committed C p data' d) × HasRollback C p data' d

  -- The old bytes are served, and the disk may still hold others.
  Restored : Option Bytes → Disk → Type 0
  Restored p d = (Armed C p data' d × IsPrevious C p data' d.serving.now) ⊎ Committed C p data' d

  -- The disk holds no others.
  Settled : Option Bytes → Disk → Type 0
  Settled p d = (Armed C p data' d × Every (IsPrevious C p data') d.serving) ⊎ Committed C p data' d

  Restored-Safe : (p : Option Bytes) (d : Disk) → Restored p d → Safe C p data' d
  unfolding Restored
  Restored-Safe p d (inl h) = inr (inl h.0)
  Restored-Safe p d (inr h) = inr (inr h)

  Settled-Safe : (p : Option Bytes) (d : Disk) → Settled p d → Safe C p data' d
  unfolding Settled
  Settled-Safe p d (inl h) = inr (inl h.0)
  Settled-Safe p d (inr h) = inr (inr h)

  Broken-Safe : (p : Option Bytes) (d : Disk) → Broken p d → Safe C p data' d
  unfolding Broken
  Broken-Safe p d (inl h, _) = inr (inl h)
  Broken-Safe p d (inr h, _) = inr (inr h)

  -- What was served is put in place.
  put_previous :
      (p : Option Bytes) (d : Disk) (f : Option File)
      → IsPrevious C p data' f
      → Armed C p data' d ⊎ Committed C p data' d
      → Restored p (put_serving f d)
  unfolding Restored
  put_previous p d f same (inl h) =
      inl (record { serving = (inl same, h.serving); journal = h.journal; backup = h.backup }, same)
  put_previous p d f same (inr h) =
      inr (record { serving = (inl same, h.serving); journal = h.journal; activated = h.activated })

  drop_rollback :
      (p : Option Bytes) (f : Option File) (d : Disk)
      → Restored p (put_serving f d)
      → Restored p (put_serving f (set_temporary rollback none d))
  unfolding Restored
  drop_rollback p f d (inl (h, same)) =
      inl (record { serving = h.serving; journal = h.journal; backup = h.backup }, same)
  drop_rollback p f d (inr h) =
      inr (record { serving = h.serving; journal = h.journal; activated = h.activated })

  restore-Ends :
      (p : Option Bytes) (d : Disk) (s : List Verdict)
      → Broken p d
      → Ends (Safe C p data') (λ _. Restored p) (Safe C p data') (restore C p d s)
  unfolding restore Broken
  restore-Ends none d s h =
      attempt-Ends (Safe C none data') (λ _. Restored none) (Safe C none data') (put_serving none) d
        s (Broken-Safe none d h) (Broken-Safe none d h) (put_previous none d none refl h.0)
  restore-Ends (some b) d s (h, inl e) = absurd (cc e)
  restore-Ends (some b) d s (h, inr e) =
      attempt-Ends (Safe C (some b) data') (λ _. Restored (some b)) (Safe C (some b) data')
        (replace_serving rollback) d s (Broken-Safe (some b) d (h, inr e))
        (Broken-Safe (some b) d (h, inr e))
        (drop_rollback (some b) d.rollback d (put_previous (some b) d d.rollback e h))

  settle_serving-Ends :
      (p : Option Bytes) (d : Disk) (s : List Verdict)
      → Restored p d
      → Ends (Safe C p data') (λ _. Settled p) (Restored p) (attempt settle_serving d s)
  unfolding Restored Settled
  settle_serving-Ends p d s (inl (h, same)) =
      attempt-Ends (Safe C p data') (λ _. Settled p) (Restored p) settle_serving d s (inr (inl h))
        (inl (h, same))
        (inl (
          record { serving = (h.serving.0, tt); journal = h.journal; backup = h.backup },
          (same, tt),
        ))
  settle_serving-Ends p d s (inr h) =
      attempt-Ends (Safe C p data') (λ _. Settled p) (Restored p) settle_serving d s (inr (inr h))
        (inr h)
        (inr (record { serving = (h.serving.0, tt); journal = h.journal; activated = h.activated }))

  -- The journal is there unless the new bytes were taken over, and then it may be written again.
  retain_Committed :
      (p : Option Bytes) (d : Disk) (s : List Verdict)
      → Committed C p data' d
      → Ends
          (Safe C p data')
          (λ _. Committed C p data')
          (Committed C p data')
          (record_journal C p data' d s)
  retain_Committed p d s h =
      Ends-weaken (Safe C p data') _ (λ _. Committed C p data') (Committed C p data')
        (Committed C p data') (record_journal C p data' d s)
        (record_journal-Ends C data' p (Safe C p data') (Committed C p data') (λ d h. inr (inr h))
          (set_temporary-Committed C p data' saved)
          (λ d h text. record {
            serving = h.serving;
            journal = (inr text, h.journal);
            activated = h.activated;
          })
          (λ d h. record {
            serving = h.serving;
            journal = (h.journal.0, tt);
            activated = h.activated;
          })
          d s h)
        (λ _ d h. h.0) (λ d h. h)

  -- What holds after either end of the synchronization.
  Or : (Disk → Type 0) → Option Bytes → Disk → Type 0
  Or X p d = X d ⊎ Committed C p data' d

  retained :
      (p : Option Bytes) (X : Disk → Type 0) (there : Bool) (d : Disk) (s : List Verdict)
      → (X d → there ≡ true)
      → Or X p d
      → Ends
          (Safe C p data')
          (λ _. Or X p)
          (Or X p)
          ((if there then pure tt else record_journal C p data') d s)
  unfolding Or
  retained p X true d s found h = h
  retained p X false d s found (inl h) = absurd (cc (found h))
  retained p X false d s found (inr h) =
      Ends-weaken (Safe C p data') (λ _. Committed C p data') (λ _. Or X p) (Committed C p data')
        (Or X p) (record_journal C p data' d s) (retain_Committed p d s h) (λ _ d h. inr h)
        (λ d h. inr h)

  exists_of_record : (p : Option Bytes) (d : Disk) → Armed C p data' d → exists d.journal.now ≡ true
  exists_of_record p d h = ap exists h.journal.0

  -- `retain_journal` and `recover`
  retain-Ends :
      (p : Option Bytes) (X : Disk → Type 0) (armed : (d : Disk) → X d → Armed C p data' d)
      (d : Disk) (s : List Verdict)
      → Or X p d
      → Ends (Safe C p data') (λ _. Or X p) (Or X p) (ended (retain_journal C p data' d s) call)
  unfolding retain_journal Or
  retain-Ends p X armed d s h =
      ended-Ends (Safe C p data') (λ _. Or X p) (λ _. Or X p) (Or X p) (Or X p) _ call
        (retained p X (exists d.journal.now) d s (λ x. exists_of_record p d (armed d x)) h)
        (λ _ d s h. call-Ends (Safe C p data') (Or X p) (safe p X armed) d s h)
        (λ d s h. call-Ends (Safe C p data') (Or X p) (safe p X armed) d s h)
    where
      safe :
          (p : Option Bytes) (X : Disk → Type 0) (armed : (d : Disk) → X d → Armed C p data' d)
          (d : Disk)
          → Or X p d
          → Safe C p data' d
      safe p X armed d (inl x) = inr (inl (armed d x))
      safe p X armed d (inr h) = inr (inr h)

  -- The `try` and the two `finally` of the handler.
  recover-Ends :
      (p : Option Bytes) (d : Disk) (s : List Verdict)
      → Restored p d
      → Ends
          (Safe C p data')
          (λ _. Settled p)
          (Safe C p data')
          (ended (attempt settle_serving d s) (finally (retain_journal C p data') call))
  unfolding Or Settled Restored
  recover-Ends p d s h =
      ended-Ends (Safe C p data') (λ _. Settled p) (λ _. Settled p) (Restored p) (Safe C p data') _
        _ (settle_serving-Ends p d s h)
        (λ _ d s h.
          Ends-weaken (Safe C p data') (λ _. Settled p) (λ _. Settled p) (Settled p)
            (Safe C p data') (ended (retain_journal C p data' d s) call)
            (retain-Ends p (λ d. Armed C p data' d × Every (IsPrevious C p data') d.serving)
              (λ d x. x.0) d s h)
            (λ _ d h. h) (Settled-Safe p))
        (λ d s h.
          Ends-weaken (Safe C p data') (λ _. Restored p) (λ _. Safe C p data') (Restored p)
            (Safe C p data') (ended (retain_journal C p data' d s) call)
            (retain-Ends p (λ d. Armed C p data' d × IsPrevious C p data' d.serving.now)
              (λ d x. x.0) d s h)
            (λ _. Restored-Safe p) (Restored-Safe p))

  -- The journal goes once nothing but the old bytes can be found, or the new ones were taken over.
  Closed : Option Bytes → Disk → Type 0
  Closed p d = Quiet C p data' d ⊎ Committed C p data' d

  closed : (p : Option Bytes) (d : Disk) → Settled p d → Closed p (put_journal none d)
  unfolding Settled Closed
  closed p d (inl (h, same)) = inl (record {
    serving = same;
    journal = (inl refl, Every-map (λ f e. inr e) d.journal h.journal);
  })
  closed p d (inr h) =
      inr (record { serving = h.serving; journal = (inl refl, h.journal); activated = h.activated })

  Closed-Safe : (p : Option Bytes) (d : Disk) → Closed p d → Safe C p data' d
  unfolding Closed
  Closed-Safe p d (inl h) = inl h
  Closed-Safe p d (inr h) = inr (inr h)

  settle_journal-Closed : (p : Option Bytes) (d : Disk) → Closed p d → Closed p (settle_journal d)
  unfolding Closed
  settle_journal-Closed p d (inl h) =
      inl (record { serving = h.serving; journal = (h.journal.0, tt) })
  settle_journal-Closed p d (inr h) =
      inr (record { serving = h.serving; journal = (h.journal.0, tt); activated = h.activated })

  drop_journal-Ends :
      (p : Option Bytes) (d : Disk) (s : List Verdict)
      → Settled p d
      → Ends (Safe C p data') (λ _. Safe C p data') (Safe C p data') (drop_journal C d s)
  unfolding drop_journal
  drop_journal-Ends p d s h =
      next-Ends (Safe C p data') (λ _. Closed p) (λ _. Safe C p data') (Safe C p data') _ _
        (attempt-Ends (Safe C p data') (λ _. Closed p) (Safe C p data') (put_journal none) d s
          (Settled-Safe p d h) (Settled-Safe p d h) (closed p d h))
        λ _ d s h.
          attempt-Ends (Safe C p data') (λ _. Safe C p data') (Safe C p data') settle_journal d s
            (Closed-Safe p d h) (Closed-Safe p d h) (Closed-Safe p _ (settle_journal-Closed p d h))

  -- Whatever fails in the handler, what is found is safe.
  pub compensate-Ends :
      (p : Option Bytes) (d : Disk) (s : List Verdict)
      → Broken p d
      → Ends (Safe C p data') (λ _. Safe C p data') (Safe C p data') (compensate C p data' true d s)
  unfolding compensate
  compensate-Ends p d s h =
      next-Ends (Safe C p data') (λ _. Restored p) (λ _. Safe C p data') (Safe C p data') _ _
        (restore-Ends p d s h)
        λ _ d s h.
          next-Ends (Safe C p data') (λ _. Settled p) (λ _. Safe C p data') (Safe C p data') _ _
            (recover-Ends p d s h) λ _ d s h. drop_journal-Ends p d s h
