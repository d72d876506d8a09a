-- ===== src/Subids/Tests.antt =====
-- The allocation at a concrete file, and runs.
use deployment.Base.{
  ℕ, ◌≡◌, ◌↔◌, refl, Bool, true, List, [], ◌∷◌, ◌++◌, Option, none, some, ok, err, unhandled,
}
use deployment.Base.Text.{codes}
use deployment.Subids.{
  Range, up_to_colon, number_after, line_match, entry, ranges_of, ranges, is_free, search, allocate,
}
use deployment.Subids.Laws.{IsAllocated, allocate_iff}

-- A comment, an empty line, and an entry over the first range.
abbrev subuid : Option (List (List ℕ))
subuid = some (codes "# accounts" ∷ codes "" ∷ codes "rocky:1048000:70000" ∷ [])

running : Bool
unfolding up_to_colon number_after line_match entry ranges_of ranges is_free search allocate
running = true

allocated : allocate subuid none (1200000 ∷ []) ≡ ok (some 1245184)
unfolding running
allocated = refl

malformed :
    ranges (some (codes "rocky:1:x" ∷ [])) ≡ err (unhandled "malformed subordinate-ID entry")
unfolding running
malformed = refl

out_of_range :
    ranges (some (codes "rocky:4294967295:2" ∷ []))
    ≡ err (unhandled "out-of-range subordinate-ID entry")
unfolding running
out_of_range = refl

allocate_iff_example : (allocate subuid none (1200000 ∷ []) ≡ ok (some 1245184)) ↔ (
    (users : List Range) × (groups : List Range) × (ranges subuid ≡ ok users)
    × (ranges none ≡ ok groups)
    × IsAllocated (users ++ groups) (1200000 ∷ []) (some 1245184))
allocate_iff_example = allocate_iff subuid none (1200000 ∷ []) (some 1245184)

nothing : ranges none ≡ ok []
unfolding running
nothing = refl

-- One entry takes every identifier.
abbrev all_taken : Option (List (List ℕ))
all_taken = some (codes "rocky:0:4294967296" ∷ [])

exhausted : allocate all_taken none [] ≡ ok none
unfolding running
exhausted = refl

everything : ranges all_taken ≡ ok (record { start = 0; stop = 4294967296 } ∷ [])
unfolding running
everything = refl
