-- ===== src/Publication/Safe.antt =====
-- What may be found on the disk at any moment of a publication with a journal.
pub mod Stages
pub mod Prepare
pub mod Compensate
pub mod Activate
pub mod Whole
use deployment.Base.{
  ◌≡◌, ◌⊎◌, refl, inl, inr, Bool, true, false, List, [], ◌∷◌, Option, none, some, arith,
}
use mathlib.Core.Option
use deployment.Publication.Disk.{
  Bytes, File, bytes, Entry, put, settle, Disk, Slot, candidate, rollback, saved, set_temporary,
  All, Every, In, put_journal, put_serving, put_backup,
}
use deployment.Publication.Journal.{record_of, Codec, exists}
use deployment.Publication.Publish.{Published, unchanged, pending, completed}

module _ {P Q : Option File → Type 0} (weaker : (f : Option File) → P f → Q f) where
  All-map : (l : List (Option File)) → All P l → All Q l
  All-map [] h = tt
  All-map (f ∷ l) h = (weaker f h.0, All-map l h.1)

  pub Every-map : (e : Entry) → Every P e → Every Q e
  Every-map e h = (weaker e.now h.0, All-map e.earlier h.1)

abbrev pub previous_file : Option Bytes → Option File
previous_file p = Option.map bytes p

module _ (C : Codec) (p : Option Bytes) (data' : Bytes) where
  abbrev pub IsPrevious : Option File → Type 0
  IsPrevious f = f ≡ previous_file p

  abbrev pub IsEither : Option File → Type 0
  IsEither f = (f ≡ previous_file p) ⊎ (f ≡ some (bytes data'))

  abbrev pub IsRecord : Option File → Type 0
  IsRecord f = f ≡ some (bytes (C.encode (record_of C p data')))

  abbrev pub IsTrace : Option File → Type 0
  IsTrace f = (f ≡ none) ⊎ IsRecord f

  -- The backup serves a recovery.
  abbrev pub IsBackup : Option File → Type 0
  IsBackup f = (p ≡ none) ⊎ (f ≡ previous_file p)

  -- Nothing but what was served before can be found.
  pub record Quiet (d : Disk) : Type 0 where
    pub serving : Every IsPrevious d.serving
    pub journal : Every IsTrace d.journal

  -- The new bytes may be found, and the journal and the backup are there.
  pub record Armed (d : Disk) : Type 0 where
    pub serving : Every IsEither d.serving
    pub journal : Every IsRecord d.journal
    pub backup : Every IsBackup d.backup

  -- The new bytes were taken over by a reload.
  pub record Committed (d : Disk) : Type 0 where
    pub serving : Every IsEither d.serving
    pub journal : Every IsTrace d.journal
    pub activated : In (some (bytes data')) d.activated

  abbrev pub Safe : Disk → Type 0
  Safe d = Quiet d ⊎ Armed d ⊎ Committed d

  -- The temporary files that a publication goes on with.
  abbrev pub HasCandidate : Disk → Type 0
  HasCandidate d = d.candidate ≡ some (bytes data')

  abbrev pub HasRollback : Disk → Type 0
  HasRollback d = (p ≡ none) ⊎ (d.rollback ≡ previous_file p)

  -- How a publication ends if it returns.
  pub record Completed (d : Disk) : Type 0 where
    pub serving : d.serving ≡ record { now = some (bytes data'); earlier = [] }
    pub journal : d.journal ≡ record { now = none; earlier = [] }
    pub activated : In (some (bytes data')) d.activated

  pub record Pending (d : Disk) : Type 0 where
    pub armed : Armed d
    pub serving : d.serving ≡ record { now = some (bytes data'); earlier = [] }

  pub record Unchanged (d : Disk) : Type 0 where
    pub quiet : Quiet d
    pub same : p ≡ some data'
    pub activated : In (some (bytes data')) d.activated

  abbrev pub Final : Published → Disk → Type 0
  Final unchanged = Unchanged
  Final pending = Pending
  Final completed = Completed

  -- The temporary files do not matter.
  pub set_temporary-Quiet :
      (slot : Slot) (f : Option File) (d : Disk) → Quiet d → Quiet (set_temporary slot f d)
  set_temporary-Quiet candidate f d h = record { serving = h.serving; journal = h.journal }
  set_temporary-Quiet rollback f d h = record { serving = h.serving; journal = h.journal }
  set_temporary-Quiet saved f d h = record { serving = h.serving; journal = h.journal }

  pub set_temporary-Armed :
      (slot : Slot) (f : Option File) (d : Disk) → Armed d → Armed (set_temporary slot f d)
  set_temporary-Armed candidate f d h = record {
    serving = h.serving;
    journal = h.journal;
    backup = h.backup;
  }
  set_temporary-Armed rollback f d h = record {
    serving = h.serving;
    journal = h.journal;
    backup = h.backup;
  }
  set_temporary-Armed saved f d h = record {
    serving = h.serving;
    journal = h.journal;
    backup = h.backup;
  }

  pub set_temporary-Committed :
      (slot : Slot) (f : Option File) (d : Disk) → Committed d → Committed (set_temporary slot f d)
  set_temporary-Committed candidate f d h = record {
    serving = h.serving;
    journal = h.journal;
    activated = h.activated;
  }
  set_temporary-Committed rollback f d h = record {
    serving = h.serving;
    journal = h.journal;
    activated = h.activated;
  }
  set_temporary-Committed saved f d h = record {
    serving = h.serving;
    journal = h.journal;
    activated = h.activated;
  }

  pub set_temporary-Safe :
      (slot : Slot) (f : Option File) (d : Disk) → Safe d → Safe (set_temporary slot f d)
  set_temporary-Safe slot f d (inl h) = inl (set_temporary-Quiet slot f d h)
  set_temporary-Safe slot f d (inr (inl h)) = inr (inl (set_temporary-Armed slot f d h))
  set_temporary-Safe slot f d (inr (inr h)) = inr (inr (set_temporary-Committed slot f d h))

  pub set_temporary-Final :
      (r : Published) (slot : Slot) (f : Option File) (d : Disk)
      → Final r d
      → Final r (set_temporary slot f d)
  set_temporary-Final unchanged candidate f d h = record {
    quiet = set_temporary-Quiet candidate f d h.quiet;
    same = h.same;
    activated = h.activated;
  }
  set_temporary-Final unchanged rollback f d h = record {
    quiet = set_temporary-Quiet rollback f d h.quiet;
    same = h.same;
    activated = h.activated;
  }
  set_temporary-Final unchanged saved f d h = record {
    quiet = set_temporary-Quiet saved f d h.quiet;
    same = h.same;
    activated = h.activated;
  }
  set_temporary-Final pending candidate f d h = record {
    armed = set_temporary-Armed candidate f d h.armed;
    serving = h.serving;
  }
  set_temporary-Final pending rollback f d h = record {
    armed = set_temporary-Armed rollback f d h.armed;
    serving = h.serving;
  }
  set_temporary-Final pending saved f d h = record {
    armed = set_temporary-Armed saved f d h.armed;
    serving = h.serving;
  }
  set_temporary-Final completed candidate f d h = record {
    serving = h.serving;
    journal = h.journal;
    activated = h.activated;
  }
  set_temporary-Final completed rollback f d h = record {
    serving = h.serving;
    journal = h.journal;
    activated = h.activated;
  }
  set_temporary-Final completed saved f d h = record {
    serving = h.serving;
    journal = h.journal;
    activated = h.activated;
  }

  pub Final-Safe : (r : Published) (d : Disk) → Final r d → Safe d
  Final-Safe unchanged d h = inl h.quiet
  Final-Safe pending d h = inr (inl h.armed)
  Final-Safe completed d h = inr (
      inr (record {
        serving = rw h.serving (inr refl, tt);
        journal = rw h.journal (inl refl, tt);
        activated = h.activated;
      }))
