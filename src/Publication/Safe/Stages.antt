-- ===== src/Publication/Safe/Stages.antt =====
-- The parts of a publication, each by what holds before and after it.
use deployment.Base.{◌≡◌, refl, Bool, true, false, List, [], Option, none, some}
use deployment.Publication.Disk.{
  Bytes, File, bytes, Disk, Slot, candidate, rollback, saved, set_temporary, temporary,
}
use deployment.Publication.Act.{Verdict, call, when}
use deployment.Publication.Act.Rules.{Ends, attempt-Ends, next-Ends, handled-Ends, Ends-weaken}
use deployment.Publication.Journal.{stage}

temporary-set_temporary :
    (slot : Slot) (f : Option File) (d : Disk) → temporary slot (set_temporary slot f d) ≡ f
temporary-set_temporary candidate f d = refl
temporary-set_temporary rollback f d = refl
temporary-set_temporary saved f d = refl

module _ (S : Disk → Type 0) where
  -- What holds at every moment holds after a call with no effect.
  pub call-Ends :
      (I : Disk → Type 0) (safe : (d : Disk) → I d → S d) (d : Disk) (s : List Verdict)
      → I d
      → Ends S (λ _. I) I (call d s)
  call-Ends I safe d s i = attempt-Ends S (λ _. I) I (λ x. x) d s (safe d i) i i

  when-Ends :
      (I : Disk → Type 0) (safe : (d : Disk) → I d → S d) (b : Bool) (d : Disk) (s : List Verdict)
      → I d
      → Ends S (λ _. I) I (when b call d s)
  when-Ends I safe true d s i = call-Ends I safe d s i
  when-Ends I safe false d s i = i

  -- `stage` keeps what does not depend on its temporary file, and leaves the data there.
  pub stage-Ends :
      (I : Disk → Type 0) (slot : Slot) (x : Bytes) (prepares : Bool)
      (safe : (d : Disk) → I d → S d)
      (keep : (f : Option File) (d : Disk) → I d → I (set_temporary slot f d)) (d : Disk)
      (s : List Verdict)
      → I d
      → Ends S (λ _ d'. I d' × (temporary slot d' ≡ some (bytes x))) I (stage slot x prepares d s)
  unfolding stage
  stage-Ends I slot x prepares safe keep d s i =
      next-Ends S (λ _. I) (λ _. J) I _ _
        (attempt-Ends S (λ _. I) I _ d s (safe d i) i (keep (some (bytes [])) d i))
        λ _ d1 s1 i1.
          handled-Ends S (λ _. J) I I _ _
            (next-Ends S (λ _. J) (λ _. J) I _ _
              (attempt-Ends S (λ _. J) I _ d1 s1 (safe d1 i1) i1
                (keep (some (bytes x)) d1 i1, temporary-set_temporary slot (some (bytes x)) d1))
              λ _ d2 s2 j2.
                next-Ends S (λ _. J) (λ _. J) I _ _ (quiet_call d2 s2 j2)
                  λ _ d3 s3 j3.
                    next-Ends S (λ _. J) (λ _. J) I _ _ (quiet_call d3 s3 j3)
                      λ _ d4 s4 j4. prepared prepares d4 s4 j4)
            (λ d2 s2 i2. attempt-Ends S (λ _. I) I _ d2 s2 (safe d2 i2) i2 (keep none d2 i2))
    where
      J : Disk → Type 0
      J d' = I d' × (temporary slot d' ≡ some (bytes x))

      quiet_call : (d : Disk) (s : List Verdict) → J d → Ends S (λ _. J) I (call d s)
      quiet_call d s j = attempt-Ends S (λ _. J) I (λ x. x) d s (safe d j.0) j.0 j

      prepared :
          (b : Bool) (d : Disk) (s : List Verdict) → J d → Ends S (λ _. J) I (when b call d s)
      prepared true d s j = quiet_call d s j
      prepared false d s j = j

  -- The same, where an exception need not keep more than what holds at every moment.
  pub stage-Ends_safe :
      (I : Disk → Type 0) (slot : Slot) (x : Bytes) (prepares : Bool)
      (safe : (d : Disk) → I d → S d)
      (keep : (f : Option File) (d : Disk) → I d → I (set_temporary slot f d)) (d : Disk)
      (s : List Verdict)
      → I d
      → Ends S (λ _ d'. I d' × (temporary slot d' ≡ some (bytes x))) S (stage slot x prepares d s)
  stage-Ends_safe I slot x prepares safe keep d s i =
      Ends-weaken S (λ _ d'. I d' × (temporary slot d' ≡ some (bytes x)))
        (λ _ d'. I d' × (temporary slot d' ≡ some (bytes x))) I S (stage slot x prepares d s)
        (stage-Ends I slot x prepares safe keep d s i) (λ _ d' h. h) safe
