-- ===== src/Publication/Disk.antt =====
-- The files that a publication works on, and what the disk may hold of them.
use deployment.Base.{ℕ, ◌≡◌, ◌⊎◌, List, [], ◌∷◌, Bool, Option, none, some}

abbrev pub Bytes : Type 0
Bytes = List ℕ

-- What a path leads to: a regular file with one link, another way to a regular file (a symbolic link
-- or one of several links), a link to nothing, or anything else.
pub data File : Type 0 where
  bytes linked : Bytes → File
  dangling unsafe : File

-- What a reader that follows links finds in a regular file.
abbrev pub contents : Option File → Option Bytes
contents none = none
contents (some (bytes b)) = some b
contents (some (linked b)) = some b
contents (some dangling) = none
contents (some unsafe) = none

-- A directory entry: what a reader sees now, and what it was since its directory was synchronized
-- last. After a power failure any of these may be found.
pub record Entry : Type 0 where
  pub now : Option File
  pub earlier : List (Option File)

abbrev pub put : Option File → Entry → Entry
put file entry = record { now = file; earlier = entry.now ∷ entry.earlier }

-- The directory of the entry is synchronized.
abbrev pub settle : Entry → Entry
settle entry = record { now = entry.now; earlier = [] }

pub record Disk : Type 0 where
  -- `serving`, `journal`, and `journal.with_name(journal.name + '.pem')`
  pub serving : Entry
  pub journal : Entry
  pub backup : Entry
  -- The temporary files that `stage` gives. Nobody else opens them.
  pub candidate : Option File
  pub rollback : Option File
  pub saved : Option File
  -- The variable `rollback` of `publish` is not `None`.
  pub has_rollback : Bool
  -- What was served at each call of `reload` that returned.
  pub activated : List (Option File)

-- The temporary files by their variables.
pub data Slot : Type 0 where
  candidate rollback saved : Slot

abbrev pub set_temporary : Slot → Option File → Disk → Disk
set_temporary candidate file d = record d { candidate = file }
set_temporary rollback file d = record d { rollback = file }
set_temporary saved file d = record d { saved = file }

abbrev pub temporary : Slot → Disk → Option File
temporary candidate d = d.candidate
temporary rollback d = d.rollback
temporary saved d = d.saved

-- `serving.unlink`, `journal.unlink` and `backup.unlink`, or an `os.replace` onto them.
abbrev pub put_serving : Option File → Disk → Disk
put_serving file d = record d { serving = put file d.serving }

abbrev pub put_journal : Option File → Disk → Disk
put_journal file d = record d { journal = put file d.journal }

abbrev pub put_backup : Option File → Disk → Disk
put_backup file d = record d { backup = put file d.backup }

-- `os.replace` of a temporary file
abbrev pub replace_serving : Slot → Disk → Disk
replace_serving slot d = put_serving (temporary slot d) (set_temporary slot none d)

abbrev pub replace_journal : Slot → Disk → Disk
replace_journal slot d = put_journal (temporary slot d) (set_temporary slot none d)

abbrev pub replace_backup : Slot → Disk → Disk
replace_backup slot d = put_backup (temporary slot d) (set_temporary slot none d)

-- `sync_directory(serving.parent)` and `sync_directory(journal.parent)`
abbrev pub settle_serving : Disk → Disk
settle_serving d = record d { serving = settle d.serving }

abbrev pub settle_journal : Disk → Disk
settle_journal d = record d { journal = settle d.journal; backup = settle d.backup }

abbrev pub activate_served : Disk → Disk
activate_served d = record d { activated = d.serving.now ∷ d.activated }

-- One of the values that the disk may hold for the entry.
abbrev pub In : {A : Type 0} → A → List A → Type 0
In a [] = ⊥
In a (x ∷ xs) = (a ≡ x) ⊎ In a xs

abbrev pub Possible : Entry → Option File → Type 0
Possible entry file = (file ≡ entry.now) ⊎ In file entry.earlier

-- Whatever the disk holds for the entry has the property.
abbrev pub All {ℓ κ} : {A : Type ℓ} → (A → Type κ) → List A → Type κ
All P [] = Unit
All P (x ∷ xs) = P x × All P xs

abbrev pub Every : (Option File → Type 0) → Entry → Type 0
Every P entry = P entry.now × All P entry.earlier

-- What is found after a power failure.
pub record Restart (before after : Disk) : Type 0 where
  pub serving : Possible before.serving after.serving.now
  pub journal : Possible before.journal after.journal.now
  pub backup : Possible before.backup after.backup.now
  pub activated : after.activated ≡ before.activated
