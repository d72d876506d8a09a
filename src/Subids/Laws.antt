-- ===== src/Subids/Laws.antt =====
-- What an allocated range is free of, and when there is none.
use deployment.Base.{
  ℕ, zero, suc, ◌+◌, ◌*◌, ◌≤◌, ◌<◌, ◌≡◌, ◌⊎◌, ◌↔◌, refl, ap, ◌∙◌, true, false, not, ◌&&◌, ◌||◌,
  List, [], ◌∷◌, ◌++◌, Option, none, some, ok, inl, inr, arith, all, ltb, leb, Bool-cases,
  Result-cases,
}
use deployment.Subids.{Range, width, is_free, search, ranges, first_start, starts, allocate}

-- The identifier lies in one of the ranges.
pub InRanges : ℕ → List Range → Type 0
InRanges id [] = ⊥
InRanges id (r ∷ rs) = ((r.start ≤ id) × (id < r.stop)) ⊎ InRanges id rs

pub IsOneOf : ℕ → List ℕ → Type 0
IsOneOf id [] = ⊥
IsOneOf id (n ∷ ns) = (id ≡ n) ⊎ IsOneOf id ns

ranges_avoid :
    (occupied : List Range) (start id : ℕ)
    → all (λ (item : Range). leb (start + width) item.start || leb item.stop start) occupied ≡ true
    → start ≤ id
    → id < start + width
    → ¬ InRanges id occupied
unfolding InRanges
ranges_avoid [] start id h low high inside = inside
ranges_avoid (r ∷ rs) start id h low high (inl (above, below)) = ground arith
ranges_avoid (r ∷ rs) start id h low high (inr inside) =
    ranges_avoid rs start id (ground arith) low high inside

ids_avoid :
    (ids : List ℕ) (start id : ℕ)
    → all (λ n. not (leb start n && ltb n (start + width))) ids ≡ true
    → start ≤ id
    → id < start + width
    → ¬ IsOneOf id ids
unfolding IsOneOf
ids_avoid [] start id h low high inside = inside
ids_avoid (n ∷ ns) start id h low high (inl same) = ground arith
ids_avoid (n ∷ ns) start id h low high (inr inside) =
    ids_avoid ns start id (ground arith) low high inside

-- No identifier from that start on, as many as the width, is taken.
pub IsUntaken : List Range → List ℕ → ℕ → Type 0
IsUntaken occupied ids start =
    (id : ℕ) → start ≤ id → id < start + width → ¬ (InRanges id occupied ⊎ IsOneOf id ids)

is_free-IsUntaken :
    (occupied : List Range) (ids : List ℕ) (start : ℕ)
    → is_free occupied ids start ≡ true
    → IsUntaken occupied ids start
unfolding is_free IsUntaken
is_free-IsUntaken occupied ids start h id low high (inl inside) =
    ranges_avoid occupied start id (ground arith) low high inside
is_free-IsUntaken occupied ids start h id low high (inr inside) =
    ids_avoid ids start id (ground arith) low high inside

-- The start is one of those tried, its range is free, and no range tried before it is.
pub record IsFirst (occupied : List Range) (ids : List ℕ) (count from found : ℕ) : Type 0 where
  pub index : ℕ
  pub tried : index < count
  pub aligned : found ≡ from + index * width
  pub free : is_free occupied ids found ≡ true
  pub least : (j : ℕ) → j < index → is_free occupied ids (from + j * width) ≡ false

least_after :
    (occupied : List Range) (ids : List ℕ) (from index : ℕ)
    → is_free occupied ids from ≡ false
    → ((j : ℕ) → j < index → is_free occupied ids (from + width + j * width) ≡ false)
    → (j : ℕ) → j < suc index
    → is_free occupied ids (from + j * width) ≡ false
least_after occupied ids from index taken below zero h =
    let same : from ≡ from + 0 * width = omega arith in rw (← same) taken
least_after occupied ids from index taken below (suc j) h =
    let same : from + width + j * width ≡ from + suc j * width = omega arith in
    rw (← same) (below j (omega arith))

search-IsFirst :
    (occupied : List Range) (ids : List ℕ) (count from found : ℕ)
    → search occupied ids count from ≡ some found
    → IsFirst occupied ids count from found
unfolding search
search-IsFirst occupied ids zero from found h = absurd (ground arith)
search-IsFirst occupied ids (suc count) from found h =
    elim (Bool-cases (is_free occupied ids from)) [
      | inl free ↦
          let same : from ≡ found = ground arith in
          record {
            index = 0;
            tried = omega arith;
            aligned = omega arith;
            free = rw (← same) free;
            least = λ j below. absurd (omega arith);
          }
      | inr taken ↦
          let rest = search-IsFirst occupied ids count (from + width) found (ground arith) in
          record {
            index = suc rest.index;
            tried = omega (arith, rest.tried);
            aligned = omega (arith, rest.aligned);
            free = rest.free;
            least = least_after occupied ids from rest.index taken rest.least;
          }
    ]

search-none :
    (occupied : List Range) (ids : List ℕ) (count from : ℕ)
    → search occupied ids count from ≡ none
    → (j : ℕ) → j < count
    → is_free occupied ids (from + j * width) ≡ false
unfolding search
search-none occupied ids zero from h j below = absurd (omega (arith, below))
search-none occupied ids (suc count) from h j below =
    elim (Bool-cases (is_free occupied ids from)) [
      | inl free ↦ absurd (ground arith)
      | inr taken ↦
          least_after occupied ids from count taken
            (search-none occupied ids count (from + width) (ground arith)) j below
    ]

search_taken :
    (occupied : List Range) (ids : List ℕ) (count from : ℕ)
    → is_free occupied ids from ≡ false
    → search occupied ids (suc count) from ≡ search occupied ids count (from + width)
unfolding search
search_taken occupied ids count from taken = rw (search, taken) refl

search_free :
    (occupied : List Range) (ids : List ℕ) (count from : ℕ)
    → is_free occupied ids from ≡ true
    → search occupied ids (suc count) from ≡ some from
unfolding search
search_free occupied ids count from free = rw (search, free) refl

first-search :
    (occupied : List Range) (ids : List ℕ) (count from found index : ℕ)
    → index < count
    → found ≡ from + index * width
    → is_free occupied ids found ≡ true
    → ((j : ℕ) → j < index → is_free occupied ids (from + j * width) ≡ false)
    → search occupied ids count from ≡ some found
unfolding search
first-search occupied ids zero from found index tried aligned free least =
    absurd (omega (arith, tried))
first-search occupied ids (suc count) from found zero tried aligned free least =
    let same : found ≡ from = omega (arith, aligned) in
    rw same (search_free occupied ids count from (rw (← same) free))
first-search occupied ids (suc count) from found (suc index) tried aligned free least =
    let here : from + 0 * width ≡ from = omega arith in
    let taken : is_free occupied ids from ≡ false = rw (← here) (least 0 (omega arith)) in
    search_taken occupied ids count from taken
    ∙ (first-search occupied ids count (from + width) found index (omega (arith, tried))
        (omega (arith, aligned)) free
        (λ j below.
          let same : from + suc j * width ≡ from + width + j * width = omega arith in
          rw (← same) (least (suc j) (omega (arith, below)))))

none-search :
    (occupied : List Range) (ids : List ℕ) (count from : ℕ)
    → ((j : ℕ) → j < count → is_free occupied ids (from + j * width) ≡ false)
    → search occupied ids count from ≡ none
unfolding search
none-search occupied ids zero from h = refl
none-search occupied ids (suc count) from h =
    let here : from + 0 * width ≡ from = omega arith in
    let taken : is_free occupied ids from ≡ false = rw (← here) (h 0 (omega arith)) in
    search_taken occupied ids count from taken
    ∙ (none-search occupied ids count (from + width) (λ j below.
        let same : from + suc j * width ≡ from + width + j * width = omega arith in
        rw (← same) (h (suc j) (omega (arith, below)))))

-- What `main` prints is the first of the starts that it tries whose range is free; the range ends
-- within the 32-bit identifiers and none of its identifiers is in an entry of the two files or
-- among those of the accounts.
pub allocate_sound :
    (subuid subgid : Option (List (List ℕ))) (ids : List ℕ) (start : ℕ)
    → allocate subuid subgid ids ≡ ok (some start)
    → (users : List Range) × (groups : List Range) × (ranges subuid ≡ ok users)
      × (ranges subgid ≡ ok groups)
      × IsFirst (users ++ groups) ids starts first_start start
      × IsUntaken (users ++ groups) ids start
      × (start + width ≤ 4294967296)
unfolding allocate
allocate_sound subuid subgid ids start h = elim (Result-cases (ranges subuid)) [
  | inr (e, p) ↦ absurd (ground arith)
  | inl (users, p) ↦ elim (Result-cases (ranges subgid)) [
    | inr (e, q) ↦ absurd (ground arith)
    | inl (groups, q) ↦
        let found : search (users ++ groups) ids starts first_start ≡ some start = ground arith in
        let first = search-IsFirst (users ++ groups) ids starts first_start start found in
        (
          users,
          groups,
          p,
          q,
          first,
          is_free-IsUntaken (users ++ groups) ids start first.free,
          omega (arith, first.tried, first.aligned),
        )
  ]
]

-- If `main` finds nothing, then no range that it tries is free.
pub allocate-none :
    (subuid subgid : Option (List (List ℕ))) (ids : List ℕ) (users groups : List Range)
    → ranges subuid ≡ ok users
    → ranges subgid ≡ ok groups
    → allocate subuid subgid ids ≡ ok none
    → (j : ℕ) → j < starts
    → is_free (users ++ groups) ids (first_start + j * width) ≡ false
unfolding allocate
allocate-none subuid subgid ids users groups p q h =
    search-none (users ++ groups) ids starts first_start (ground (arith, p, q))

-- What `main` should print: the first free start, whose range no entry and no account uses and which
-- ends within the 32-bit identifiers, or nothing where no start is free.
abbrev pub IsAllocated : List Range → List ℕ → Option ℕ → Type 0
IsAllocated occupied ids none =
    (j : ℕ) → j < starts → is_free occupied ids (first_start + j * width) ≡ false
IsAllocated occupied ids (some start) =
    IsFirst occupied ids starts first_start start
    × IsUntaken occupied ids start
    × (start + width ≤ 4294967296)

search_iff :
    (occupied : List Range) (ids : List ℕ) (result : Option ℕ)
    → (search occupied ids starts first_start ≡ result) ↔ IsAllocated occupied ids result
search_iff occupied ids none =
    (search-none occupied ids starts first_start, none-search occupied ids starts first_start)
search_iff occupied ids (some start) = (
  λ e.
      let first = search-IsFirst occupied ids starts first_start start e in
      (
        first,
        is_free-IsUntaken occupied ids start first.free,
        omega (arith, first.tried, first.aligned),
      ),
  λ (first, _, _).
      first-search occupied ids starts first_start start first.index first.tried first.aligned
        first.free first.least,
)

-- `main` ends with a result exactly if the two files have only valid entries and the result is the
-- first start whose range is free, which no entry and no account uses and which ends within the
-- 32-bit identifiers, or is nothing and no start is free.
pub allocate_iff :
    (subuid subgid : Option (List (List ℕ))) (ids : List ℕ) (result : Option ℕ)
    → (allocate subuid subgid ids ≡ ok result) ↔ (
        (users : List Range) × (groups : List Range) × (ranges subuid ≡ ok users)
        × (ranges subgid ≡ ok groups)
        × IsAllocated (users ++ groups) ids result)
unfolding allocate
allocate_iff subuid subgid ids result = (
  λ h. elim (Result-cases (ranges subuid)) [
    | inr (e, p) ↦ absurd (ground arith)
    | inl (users, p) ↦ elim (Result-cases (ranges subgid)) [
      | inr (e, q) ↦ absurd (ground arith)
      | inl (groups, q) ↦
          let found : search (users ++ groups) ids starts first_start ≡ result = ground arith in
          (users, groups, p, q, (search_iff (users ++ groups) ids result).0 found)
    ]
  ],
  λ (users, groups, p, q, h).
      rw (p, q) (ap (λ (r : Option ℕ). ok r) ((search_iff (users ++ groups) ids result).1 h)),
)
