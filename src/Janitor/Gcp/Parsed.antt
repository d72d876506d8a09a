-- ===== src/Janitor/Gcp/Parsed.antt =====
-- What `parse_candidate` accepts.
use deployment.Base.{
  &&-left, &&-right, ℕ, ◌+◌, ◌≤◌, ◌≡◌, refl, ap, ◌∙◌, arith, String, Bool, true, false, not, ◌&&◌,
  Option, none, some, if◌then◌else◌, ◌==◌, option_eq, string_eq, list_eq, nat_eq,
}
use deployment.Base.Text.{codes}
use deployment.Janitor.Dict.{member}
use deployment.Janitor.Patterns.{is_number, int, ◌>>=◌ as ◌>>=o◌}
use deployment.Janitor.Gcp.Contract.{
  resource_kinds, zone, Resource, Labels, read_labels, expected_name, last_part, is_valid,
  is_placed, is_owned, is_over, Candidate, candidate_of, parse_candidate, same_candidate,
  is_changed,
}

-- The resource carries the labels of a run whose time, of three hours at most, is over, under the
-- name that the labels give it.
pub record IsExpired (kind : String) (resource : Resource) (labels : Labels) (now : ℕ)
    : Type 0 where
  pub of_kind : member kind resource_kinds ≡ true
  pub labelled : read_labels resource.labels ≡ some labels
  pub valid : is_valid labels ≡ true
  pub named : resource.name ≡ some (expected_name kind labels)
  pub short : int labels.expires_at ≤ int labels.created_at + 10800
  pub over : int labels.expires_at ≤ now

over_facts : (c e now : ℕ) → is_over c e now ≡ true → (e ≤ c + 10800) × (e ≤ now)
over_facts c e now h = (ground (arith, h), ground (arith, h))

name_of_placed :
    (name : Option String) (expected : String) (at identified : Bool)
    → (name == some expected && at && identified) ≡ true
    → name ≡ some expected
name_of_placed name expected at identified h = ground (arith, h)

module _ (kind : String) (resource : Resource) (now : ℕ) (candidate : Candidate) where
  -- The candidate is made of an expired resource.
  abbrev pub FromExpired : Type 0
  FromExpired =
      (labels : Labels) × IsExpired kind resource labels now
      × (candidate_of kind resource labels ≡ candidate)

  expired :
      (labels : Labels)
      → member kind resource_kinds ≡ true
      → read_labels resource.labels ≡ some labels
      → (is_valid labels && is_placed kind labels resource) ≡ true
      → is_over (int labels.created_at) (int labels.expires_at) now ≡ true
      → IsExpired kind resource labels now
  expired labels known labelled owned over = record {
    of_kind = known;
    labelled = labelled;
    valid = &&-left (is_valid labels) (is_placed kind labels resource) owned;
    named =
        name_of_placed resource.name (expected_name kind labels)
          (last_part (codes resource.shown_zone) (codes resource.shown_zone) == codes zone)
          (is_number 30 (codes resource.shown_id))
          (&&-right (is_valid labels) (is_placed kind labels resource) owned);
    short = (over_facts (int labels.created_at) (int labels.expires_at) now over).0;
    over = (over_facts (int labels.created_at) (int labels.expires_at) now over).1;
  }

  accepted :
      (labels : Labels) (test : Bool)
      → member kind resource_kinds ≡ true
      → read_labels resource.labels ≡ some labels
      → (is_owned kind labels resource
          && is_over (int labels.created_at) (int labels.expires_at) now)
        ≡ test
      → (if test then some (candidate_of kind resource labels) else none) ≡ some candidate
      → FromExpired
  unfolding is_owned
  accepted labels false known labelled e h = cc h
  accepted labels true known labelled e h = (
    labels,
    expired labels known labelled
        (&&-left (is_owned kind labels resource)
          (is_over (int labels.created_at) (int labels.expires_at) now) e)
        (&&-right (is_owned kind labels resource)
          (is_over (int labels.created_at) (int labels.expires_at) now) e),
    cc h,
  )

  -- What `parse_candidate` gives is made of an expired resource.
  pub parse_candidate-FromExpired : parse_candidate kind resource now ≡ some candidate → FromExpired
  unfolding parse_candidate
  parse_candidate-FromExpired e = by_kind (member kind resource_kinds) refl e
    where
      by_labels :
          (given : Option Labels)
          → member kind resource_kinds ≡ true
          → read_labels resource.labels ≡ given
          → (given >>=o λ l.
              if is_owned kind l resource && is_over (int l.created_at) (int l.expires_at) now
              then some (candidate_of kind resource l)
              else none)
            ≡ some candidate
          → FromExpired
      by_labels none known labelled e = cc e
      by_labels (some labels) known labelled e = accepted labels _ known labelled refl e

      by_kind :
          (known : Bool)
          → member kind resource_kinds ≡ known
          → (if known
              then (read_labels resource.labels >>=o λ l.
                  if is_owned kind l resource && is_over (int l.created_at) (int l.expires_at) now
                  then some (candidate_of kind resource l)
                  else none)
              else none)
            ≡ some candidate
          → FromExpired
      by_kind false known e = cc e
      by_kind true known e = by_labels (read_labels resource.labels) known refl e

same_kind_and_name :
    (c d : Candidate) → same_candidate c d ≡ true → (c.kind ≡ d.kind) × (c.name ≡ d.name)
same_kind_and_name c d h = facts c.kind d.kind c.name d.name _ _ h
  where
    facts :
        (k k' n n' : String) (i l : Bool)
        → (k == k' && i && n == n' && l) ≡ true
        → (k ≡ k') × (n ≡ n')
    facts k k' n n' i l h = (ground (arith, h), ground (arith, h))

-- A resource that did not change is expired, under the name of the candidate.
pub unchanged-IsExpired :
    (candidate : Candidate) (live : Resource) (now : ℕ)
    → is_changed (parse_candidate candidate.kind live now) candidate ≡ false
    → (labels : Labels) × IsExpired candidate.kind live labels now
      × (expected_name candidate.kind labels ≡ candidate.name)
unchanged-IsExpired candidate live now h =
    by_current (parse_candidate candidate.kind live now) refl h
  where
    same_of : (c d : Candidate) → not (same_candidate c d) ≡ false → same_candidate c d ≡ true
    same_of c d h = ground (arith, h)

    by_current :
        (current : Option Candidate)
        → parse_candidate candidate.kind live now ≡ current
        → is_changed current candidate ≡ false
        → (labels : Labels) × IsExpired candidate.kind live labels now
          × (expected_name candidate.kind labels ≡ candidate.name)
    by_current none parsed h = cc h
    by_current (some current) parsed h =
        let (labels, expired, made) =
          parse_candidate-FromExpired candidate.kind live now current parsed in
        (
          labels,
          expired,
          ap (λ (c : Candidate). c.name) made
              ∙ (same_kind_and_name current candidate (same_of current candidate h)).1,
        )
