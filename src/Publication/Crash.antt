-- ===== src/Publication/Crash.antt =====
-- A publication with a journal, a crash at any moment, and the recovery after it.
use deployment.Base.{
  ◌≡◌, ◌⊎◌, refl, sym, ap, inl, inr, Bool, true, false, List, [], ◌∷◌, Option, none, some, String,
  not, ◌&&◌, ◌||◌, arith, if◌then◌else◌, exact, option_eq, list_eq, nat_eq, string_eq, length, leb,
}
use mathlib.Core.Path.{subst}
use deployment.Publication.Disk.{
  Bytes, File, bytes, linked, dangling, unsafe, contents, Entry, Disk, Every, All, In, Possible,
  Restart,
}
use deployment.Publication.Act.{
  Verdict, Outcome, returned, raised, crashed, value_error, raise, pure, raise_if,
}
use deployment.Publication.Act.Rules.{Ends, next-Ends}
use deployment.Publication.Journal.{Codec, IsLawful, exists, max_config_bytes}
use deployment.Publication.Publish.{
  Published, private_mode, has_size, read_serving, publish, publish_admitted,
}
use deployment.Publication.Recover.Laws.{
  served_after, recover-idle, recover-first, recover-backup, recover-any,
}
use deployment.Publication.Safe.{IsRecord, Quiet, Armed, Safe, Final, Final-Safe, previous_file}
use deployment.Publication.Safe.Whole.{publish_admitted-Ends}

-- The disk before a publication: what is served is settled, and no publication is under way.
pub record Start (p : Option Bytes) (d : Disk) : Type 0 where
  pub serving : d.serving ≡ record { now = previous_file p; earlier = [] }
  pub journal : d.journal ≡ record { now = none; earlier = [] }

Start-Quiet :
    (C : Codec) (data' : Bytes) (p : Option Bytes) (d : Disk) → Start p d → Quiet C p data' d
Start-Quiet C data' p d h = record {
  serving = rw h.serving (refl, tt);
  journal = rw h.journal (inl refl, tt);
}

module _ (C : Codec) (data' : Bytes) where
  read-Ends :
      (p : Option Bytes) (f : Option File) (d : Disk) (s : List Verdict)
      → Quiet C p data' d
      → f ≡ previous_file p
      → Ends
          (Safe C p data')
          (λ q d'. (q ≡ p) × Quiet C p data' d')
          (Safe C p data')
          (read_serving f d s)
  read-Ends none none d s h e = (refl, h)
  read-Ends (some b) none d s h e = absurd (cc e)
  read-Ends p (some dangling) d s h e = inl h
  read-Ends p (some unsafe) d s h e = inl h
  read-Ends p (some (linked _)) d s h e = inl h
  read-Ends none (some (bytes x)) d s h e = absurd (cc e)
  read-Ends (some b) (some (bytes x)) d s h e = sized (has_size x)
    where
      sized :
          (fits : Bool)
          → Ends
              (Safe C (some b) data')
              (λ q d'. (q ≡ some b) × Quiet C (some b) data' d')
              (Safe C (some b) data')
              ((if fits then pure (some x) else raise (value_error "admit-serving-file")) d s)
      sized true = (cc e, h)
      sized false = inl h

  raise_if-Ends :
      (p : Option Bytes) (b : Bool) (message : String) (d : Disk) (s : List Verdict)
      → Quiet C p data' d
      → Ends (Safe C p data') (λ _. Quiet C p data') (Safe C p data') (raise_if b message d s)
  raise_if-Ends p true message d s h = inl h
  raise_if-Ends p false message d s h = h

  -- However the calls of a publication with a journal go, at a crash and after an exception the disk
  -- is one of the states from which a recovery serves what was served before or what a reload has taken
  -- over; and a publication that returns has done what its answer says. Before, what is served is
  -- settled and no journal is there.
  pub publish-Ends :
      (p : Option Bytes) (initial : Bool) (d : Disk) (s : List Verdict)
      → Start p d
      → Ends
          (Safe C p data')
          (Final C p data')
          (Safe C p data')
          (publish C (exact data') private_mode true initial d s)
  unfolding publish
  publish-Ends p initial d s start =
      next-Ends (Safe C p data') (λ _. I) (Final C p data') (Safe C p data') _ _
        (guard (not (has_size data')) "admit-candidate-size" d s (i, start.serving))
        λ _ d2 s2 h2.
          next-Ends (Safe C p data') (λ _. I) (Final C p data') (Safe C p data') _ _
            (guard (exists d2.journal.now) "recover-pending-publication-first" d2 s2 h2)
            λ _ d3 s3 h3.
              next-Ends (Safe C p data') (λ _. I) (Final C p data') (Safe C p data') _ _
                (guard (initial && (false || exists d3.serving.now))
                  "admit-first-certificate-preparation" d3 s3 h3)
                λ _ d4 s4 h4.
                  next-Ends (Safe C p data') (λ q d'. (q ≡ p) × Quiet C p data' d')
                    (Final C p data') (Safe C p data') _ _
                    (read-Ends p d4.serving.now d4 s4 h4.0 (ap (λ (e : Entry). e.now) h4.1))
                    λ q d5 s5 (same, quiet).
                      subst
                        (λ q.
                          Ends (Safe C p data') (Final C p data') (Safe C p data')
                            (publish_admitted C q data' true initial d5 s5))
                        (sym same) (publish_admitted-Ends C data' p initial d5 s5 quiet)
    where
      I : Disk → Type 0
      I d = Quiet C p data' d × (d.serving ≡ record { now = previous_file p; earlier = [] })

      i : Quiet C p data' d
      i = Start-Quiet C data' p d start

      guard :
          (b : Bool) (message : String) (d : Disk) (s : List Verdict)
          → I d
          → Ends (Safe C p data') (λ _. I) (Safe C p data') (raise_if b message d s)
      guard true message d s h = inl h.0
      guard false message d s h = h

All-In :
    (P : Option File → Type 0) (l : List (Option File)) (f : Option File) → All P l → In f l → P f
All-In P [] f h here = absurd here
All-In P (x ∷ l) f h (inl e) = subst P (sym e) h.0
All-In P (x ∷ l) f h (inr later) = All-In P l f h.1 later

Every-Possible :
    (P : Option File → Type 0) (e : Entry) (f : Option File) → Every P e → Possible e f → P f
Every-Possible P e f h (inl now) = subst P (sym now) h.0
Every-Possible P e f h (inr earlier) = All-In P e.earlier f h.1 earlier

-- What was served before, if anything, is of an admitted size, and the backup that is found does not
-- have its digest by accident.
pub record IsPredecessor (C : Codec) (p : Option Bytes) (d : Disk) : Type 0 where
  pub fits : (b : Bytes) → p ≡ some b → has_size b ≡ true
  pub unique :
      (b : Bytes)
      → p ≡ some b
      → (x : Bytes) → contents d.backup.now ≡ some x
      → C.digest x ≡ C.digest b
      → x ≡ b

module _ (C : Codec) (law : IsLawful C) (data' : Bytes) where
  -- What was served before is served, or the new bytes, and then a reload had taken them over.
  pub IsKept : Option Bytes → Disk → Option File → Type 0
  IsKept p d f =
      (f ≡ previous_file p) ⊎ ((f ≡ some (bytes data')) × In (some (bytes data')) d.activated)

  -- A recovery that finds the record keeps what stood before, or puts the predecessor back.
  recorded-IsKept :
      (p : Option Bytes) (d : Disk)
      → IsPredecessor C p d
      → IsRecord C p data' d.journal.now
      → IsKept p d d.serving.now
      → IsKept p d (served_after C d)
  unfolding IsKept
  recorded-IsKept none d good e kept = inl (recover-first C law data' d e)
  recorded-IsKept (some b) d good e kept =
      elim (recover-any C law b data' d (good.unique b refl) e) [
        | inl back ↦ inl back
        | inr same ↦ rw same kept
      ]

  idle-IsKept :
      (p : Option Bytes) (d : Disk)
      → d.journal.now ≡ none
      → IsKept p d d.serving.now
      → IsKept p d (served_after C d)
  idle-IsKept p d e kept = rw (recover-idle C d e) kept

  trace-IsKept :
      (p : Option Bytes) (d : Disk)
      → IsPredecessor C p d
      → (d.journal.now ≡ none) ⊎ IsRecord C p data' d.journal.now
      → IsKept p d d.serving.now
      → IsKept p d (served_after C d)
  trace-IsKept p d good (inl e) kept = idle-IsKept p d e kept
  trace-IsKept p d good (inr e) kept = recorded-IsKept p d good e kept

  Armed-IsKept :
      (p : Option Bytes) (d d' : Disk)
      → IsPredecessor C p d'
      → Armed C p data' d
      → Restart d d'
      → IsKept p d' (served_after C d')
  unfolding IsKept
  Armed-IsKept none d d' good h r =
      inl (
        recover-first C law data' d'
          (Every-Possible _ d.journal d'.journal.now h.journal r.journal))
  Armed-IsKept (some b) d d' good h r =
      elim (Every-Possible _ d.backup d'.backup.now h.backup r.backup) [
        | inl e ↦ absurd (cc e)
        | inr e ↦ inl (
            recover-backup C law b data' b d' (fits_of (good.fits b refl)) refl
              (Every-Possible _ d.journal d'.journal.now h.journal r.journal) (rw e refl))
      ]
    where
      fits_of : has_size b ≡ true → leb (length b) max_config_bytes ≡ true
      fits_of h = ground arith

  pub recover-IsKept :
      (p : Option Bytes) (d d' : Disk)
      → IsPredecessor C p d'
      → Safe C p data' d
      → Restart d d'
      → IsKept p d' (served_after C d')
  unfolding IsKept
  recover-IsKept p d d' good (inl h) r =
      trace-IsKept p d' good (Every-Possible _ d.journal d'.journal.now h.journal r.journal)
        (inl (Every-Possible _ d.serving d'.serving.now h.serving r.serving))
  recover-IsKept p d d' good (inr (inl h)) r = Armed-IsKept p d d' good h r
  recover-IsKept p d d' good (inr (inr h)) r =
      trace-IsKept p d' good (Every-Possible _ d.journal d'.journal.now h.journal r.journal)
        (elim (Every-Possible _ d.serving d'.serving.now h.serving r.serving) [
          | inl e ↦ inl e
          | inr e ↦ inr (e, rw r.activated h.activated)
        ])

  Ends-Safe :
      (p : Option Bytes) (o : Outcome Published × Disk × List Verdict)
      → Ends (Safe C p data') (Final C p data') (Safe C p data') o
      → Safe C p data' o.1
  Ends-Safe p (returned a, d, s) h = Final-Safe C p data' a d h
  Ends-Safe p (raised e, d, s) h = h
  Ends-Safe p (crashed, d, s) h = h

  -- A publication with a journal may be cut off at any call, and any of its calls may fail. Whatever
  -- the disk then holds of what was not synchronized, after a recovery whose calls go well what was
  -- served before is served, or the new bytes, and then a reload had taken them over. Before, what is
  -- served is settled and no journal is there; the predecessor has a size that a publication accepts,
  -- and the backup that is found does not have its digest by accident.
  pub publish-recover-IsKept :
      (p : Option Bytes) (initial : Bool) (d : Disk) (s : List Verdict) (d' : Disk)
      → IsPredecessor C p d'
      → Start p d
      → Restart (publish C (exact data') private_mode true initial d s).1 d'
      → IsKept p d' (served_after C d')
  publish-recover-IsKept p initial d s d' good start r =
      recover-IsKept p _ d' good (Ends-Safe p _ (publish-Ends C data' p initial d s start)) r
