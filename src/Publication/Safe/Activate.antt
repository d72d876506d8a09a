-- ===== src/Publication/Safe/Activate.antt =====
-- The reload of the served file, and the clean-up.
use deployment.Base.{◌≡◌, refl, sym, ap, inl, inr, Bool, true, false, List, [], Option, none, some}
use deployment.Publication.Disk.{
  Bytes, File, bytes, Disk, In, put_journal, settle_serving, settle_journal, activate_served,
}
use deployment.Publication.Act.{Verdict, pure, next}
use deployment.Publication.Act.Rules.{Ends, attempt-Ends, next-Ends}
use deployment.Publication.Journal.{Codec}
use deployment.Publication.Publish.{completed, unlink_present, unlink_journal, retire, activate}
use deployment.Publication.Safe.{
  Every-map, IsRecord, Committed, Safe, HasRollback, Completed, Final,
}
use deployment.Publication.Safe.Prepare.{Loaded}
use deployment.Publication.Safe.Compensate.{Broken}

module _ (C : Codec) (data' : Bytes) (p : Option Bytes) where
  -- The new bytes are served, and nothing else can be found there.
  Served : Disk → Type 0
  Served d = Loaded C p data' d × (d.serving.earlier ≡ [])

  Loaded-Safe : (d : Disk) → Loaded C p data' d → Safe C p data' d
  Loaded-Safe d h = inr (inl h.armed)

  Loaded-Broken : (d : Disk) → Loaded C p data' d → Broken C data' p d
  unfolding Broken
  Loaded-Broken d h = (inl h.armed, h.rollback)

  serving_of : (d : Disk) → Served d → d.serving ≡ record { now = some (bytes data'); earlier = [] }
  unfolding Served
  serving_of d (h, none_earlier) = cc (h.served, none_earlier)

  -- They were taken over, too.
  Active : Disk → Type 0
  Active d = Served d × In (some (bytes data')) d.activated

  -- The journal is gone for a reader.
  record Retiring (d : Disk) : Type 0 where
    committed : Committed C p data' d
    rollback : HasRollback C p data' d
    serving : d.serving ≡ record { now = some (bytes data'); earlier = [] }
    journal : d.journal.now ≡ none

  Retiring-Broken : (d : Disk) → Retiring d → Broken C data' p d
  unfolding Broken
  Retiring-Broken d h = (inr h.committed, h.rollback)

  Active-Broken : (d : Disk) → Active d → Broken C data' p d
  unfolding Active Served
  Active-Broken d h = Loaded-Broken d h.0.0

  retiring : (d : Disk) → Active d → Retiring (put_journal none d)
  unfolding Active Served
  retiring d h = record {
    committed = record {
      serving = h.0.0.armed.serving;
      journal = (inl refl, Every-map (λ f e. inr e) d.journal h.0.0.armed.journal);
      activated = h.1;
    };
    rollback = h.0.0.rollback;
    serving = serving_of d h.0;
    journal = refl;
  }

  unlink_journal-Ends :
      (d : Disk) (s : List Verdict)
      → Active d
      → Ends (Safe C p data') (λ _. Retiring) (Broken C data' p) (unlink_journal d s)
  unfolding unlink_journal Active Served
  unlink_journal-Ends d s h = found d.journal.now (h.0.0.armed.journal.0)
    where
      found :
          (f : Option File)
          → IsRecord C p data' f
          → Ends (Safe C p data') (λ _. Retiring) (Broken C data' p) (unlink_present f d s)
      found none e = absurd (cc e)
      found (some _) e =
          attempt-Ends (Safe C p data') (λ _. Retiring) (Broken C data' p) (put_journal none) d s
            (Loaded-Safe d h.0.0) (Active-Broken d h) (retiring d h)

  completed-Ends :
      (d : Disk) (s : List Verdict)
      → Active d
      → Ends
          (Safe C p data')
          (Final C p data')
          (Broken C data' p)
          (next (retire C true d s) (λ _. pure completed))
  unfolding retire
  completed-Ends d s h =
      next-Ends (Safe C p data') (λ _. Completed C p data') (Final C p data') (Broken C data' p) _ _
        (next-Ends (Safe C p data') (λ _. Retiring) (λ _. Completed C p data') (Broken C data' p) _
          _ (unlink_journal-Ends d s h)
          λ _ d s h.
            attempt-Ends (Safe C p data') (λ _. Completed C p data') (Broken C data' p)
              settle_journal d s (inr (inr h.committed)) (Retiring-Broken d h)
              (record {
                serving = h.serving;
                journal = ap (λ f. record { now = f; earlier = [] }) h.journal;
                activated = h.committed.activated;
              }))
        (λ _ d s h. h)

  settled : (d : Disk) → Loaded C p data' d → Served (settle_serving d)
  unfolding Served
  settled d h = (
    record {
      armed = record {
        serving = (h.armed.serving.0, tt);
        journal = h.armed.journal;
        backup = h.armed.backup;
      };
      rollback = h.rollback;
      served = h.served;
    },
    refl,
  )

  activated : (d : Disk) → Served d → Active (activate_served d)
  unfolding Active Served
  activated d h = (
    (
      record {
        armed = record {
          serving = h.0.armed.serving;
          journal = h.0.armed.journal;
          backup = h.0.armed.backup;
        };
        rollback = h.0.rollback;
        served = h.0.served;
      },
      h.1,
    ),
    inl (sym h.0.served),
  )

  pub activate-Ends :
      (initial : Bool) (d : Disk) (s : List Verdict)
      → Loaded C p data' d
      → Ends (Safe C p data') (Final C p data') (Broken C data' p) (activate C true initial d s)
  unfolding activate Served
  activate-Ends true d s h =
      next-Ends (Safe C p data') (λ _. Served) (Final C p data') (Broken C data' p) _ _
        (attempt-Ends (Safe C p data') (λ _. Served) (Broken C data' p) settle_serving d s
          (Loaded-Safe d h) (Loaded-Broken d h) (settled d h))
        (λ _ d s h. record { armed = h.0.armed; serving = serving_of d h })
  activate-Ends false d s h =
      next-Ends (Safe C p data') (λ _. Served) (Final C p data') (Broken C data' p) _ _
        (attempt-Ends (Safe C p data') (λ _. Served) (Broken C data' p) settle_serving d s
          (Loaded-Safe d h) (Loaded-Broken d h) (settled d h))
        λ _ d s h.
          next-Ends (Safe C p data') (λ _. Active) (Final C p data') (Broken C data' p) _ _
            (attempt-Ends (Safe C p data') (λ _. Active) (Broken C data' p) activate_served d s
              (Loaded-Safe d h.0) (Loaded-Broken d h.0) (activated d h))
            (λ _ d s h. completed-Ends d s h)
