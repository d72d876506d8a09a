-- ===== src/Subids.antt =====
-- scripts/ci-cloud/allocate-rocky-subids.py: the first aligned free range of subordinate IDs.
pub mod Laws
mod Tests
use deployment.Base.{
  ℕ, zero, suc, ◌+◌, ◌-◌, ◌*◌, String, Bool, true, false, ◌&&◌, ◌||◌, not, List, [], ◌∷◌, ◌++◌,
  Option, none, some, ltb, leb, eqb, all, length, Result, ok, err, unhandled, ◌>>=◌, ◌>>◌,
  if◌then◌else◌,
}
use deployment.Base.Text.{is_digit}

-- `range(start, stop)`
pub record Range : Type 0 where
  pub start : ℕ
  pub stop : ℕ

abbrev pub width : ℕ
width = 65536

-- The code points up to the first colon, and what follows the colon if there is one.
unfoldable pub up_to_colon : List ℕ → List ℕ × Option (List ℕ)
up_to_colon [] = ([], none)
up_to_colon (c ∷ s) =
    let (field, rest) = up_to_colon s in if eqb c b':' then ([], some s) else (c ∷ field, rest)

-- `int(digits)`, after the number that the digits before them give.
unfoldable pub number_after : ℕ → List ℕ → ℕ
number_after n [] = n
number_after n (c ∷ s) = number_after (n * 10 + (c - b'0')) s

-- `[0-9]{1,10}`
abbrev pub is_number : List ℕ → Bool
is_number s = leb 1 (length s) && leb (length s) 10 && all is_digit s

-- `LINE.fullmatch(line)` with `map(int, match.groups())`; `none` is no match.
unfoldable pub line_match : List ℕ → Option (ℕ × ℕ)
unfolding up_to_colon number_after
line_match line =
    let (name, after_name) = up_to_colon line in
    elim after_name [
      | none ↦ none
      | some rest ↦
          let (start, after_start) = up_to_colon rest in
          elim after_start [
            | none ↦ none
            | some count ↦
                if leb 1 (length name) && leb (length name) 64 && is_number start && is_number count
                then some (number_after 0 start, number_after 0 count)
                else none
          ]
    ]

-- `not line or line.startswith("#")`
abbrev pub is_skipped : List ℕ → Bool
is_skipped [] = true
is_skipped (c ∷ _) = eqb c b'#'

-- The entry of a line that is not skipped.
unfoldable pub entry : List ℕ → Result Range
unfolding line_match
entry line = elim (line_match line) [
  | none ↦ err (unhandled "malformed subordinate-ID entry")
  | some fields ↦
      let (start, count) = fields in
      if ltb count 1 || ltb 4294967296 (start + count)
      then err (unhandled "out-of-range subordinate-ID entry")
      else ok (record { start = start; stop = start + count })
]

-- The loop of `ranges`.
unfoldable pub ranges_of : List (List ℕ) → Result (List Range)
unfolding entry
ranges_of [] = ok []
ranges_of (line ∷ lines) = elim (is_skipped line) [
  | true ↦ ranges_of lines
  | false ↦ entry line >>= λ range. ranges_of lines >>= λ rest. ok (range ∷ rest)
]

-- `ranges`, on the lines of the file, or on none if it does not exist.
unfoldable pub ranges : Option (List (List ℕ)) → Result (List Range)
unfolding ranges_of
ranges none = ok []
ranges (some lines) = ranges_of lines

-- The range of that start overlaps no range and holds no identifier.
unfoldable pub is_free : List Range → List ℕ → ℕ → Bool
is_free occupied ids start =
    all (λ (item : Range). leb (start + width) item.start || leb item.stop start) occupied
    && all (λ id. not (leb start id && ltb id (start + width))) ids

-- The loop of `main` over as many starts, from one on.
unfoldable pub search : List Range → List ℕ → ℕ → ℕ → Option ℕ
unfolding is_free
search occupied ids zero start = none
search occupied ids (suc count) start = elim (is_free occupied ids start) [
  | true ↦ some start
  | false ↦ search occupied ids count (start + width)
]

-- `range(1_048_576, 4_294_901_761, WIDTH)` has that many starts.
abbrev pub first_start : ℕ
first_start = 1048576

abbrev pub starts : ℕ
starts = 65520

-- `main` on the two files and the identifiers of the accounts: what it prints, `none` if no range
-- remains.
unfoldable pub allocate :
    Option (List (List ℕ)) → Option (List (List ℕ)) → List ℕ → Result (Option ℕ)
unfolding ranges search
allocate subuid subgid ids = ranges subuid >>= λ users.
    ranges subgid >>= λ groups. ok (search (users ++ groups) ids starts first_start)
