-- ===== src/Janitor/Rocky/Expired/Parsed.antt =====
-- What `parse_candidate` accepts.
use deployment.Base.{
  &&-right, ℕ, ◌+◌, ◌-◌, ◌≤◌, ◌≡◌, refl, ap, arith, String, Bool, true, false, ◌&&◌, Option, none,
  some, if◌then◌else◌, leb, ltb, ◌==◌, option_eq, string_eq, list_eq,
}
use deployment.Janitor.Patterns.{int, ◌>>=◌ as ◌>>=o◌}
use deployment.Janitor.Rocky.Contract.{
  Component, Resource, Labels, name_of, Candidate, ownership, is_owned, is_valid, is_bounded,
  owned_candidate, parse_candidate,
}

-- The resource carries the labels of a run whose time, of three hours at most, is over, under the
-- name that the labels give it.
pub record IsExpired (component : Component) (resource : Resource) (labels : Labels) (now : ℕ)
    : Type 0 where
  pub labelled : ownership resource component ≡ some labels
  pub owned : is_owned labels resource.name component ≡ true
  pub named : resource.name ≡ some (name_of labels component)
  pub short : int labels.expires_at ≤ int labels.created_at + 10800
  pub over : int labels.expires_at ≤ now

last_facts :
    (m n : ℕ) (x y : Option String)
    → (x == y && ltb m n && leb (n - m) 10800) ≡ true
    → (x ≡ y) × (n ≤ m + 10800)
last_facts m n x y h = (ground (arith, h), ground (arith, h))

owned_facts :
    (labels : Labels) (name : Option String) (component : Component)
    → is_owned labels name component ≡ true
    → (name ≡ some (name_of labels component))
      × (int labels.expires_at ≤ int labels.created_at + 10800)
unfolding is_owned
owned_facts labels name component h =
    last_facts (int labels.created_at) (int labels.expires_at) name
      (some (name_of labels component))
      (&&-right (is_valid labels) (is_bounded labels name component) h)

candidate_labels :
    (component : Component) (labels : Labels) (candidate : Candidate)
    → some (record { component = component; labels = labels }) ≡ some candidate
    → labels ≡ candidate.labels
candidate_labels component labels candidate e = ap (λ (o : Option Candidate). labels_or labels o) e
  where
    labels_or : Labels → Option Candidate → Labels
    labels_or l none = l
    labels_or l (some k) = k.labels

pub parse_candidate-IsExpired :
    (component : Component) (resource : Resource) (now : ℕ) (candidate : Candidate)
    → parse_candidate component resource now ≡ some candidate
    → IsExpired component resource candidate.labels now
unfolding parse_candidate owned_candidate
parse_candidate-IsExpired component resource now candidate e =
    by_labels (ownership resource component) refl e
  where
    expired :
        (labels : Labels) (late : Bool)
        → ownership resource component ≡ some labels
        → is_owned labels resource.name component ≡ true
        → ltb now (int labels.expires_at) ≡ late
        → (if late then none else some (record { component = component; labels = labels }))
          ≡ some candidate
        → IsExpired component resource candidate.labels now
    expired labels true labelled owned e h = cc h
    expired labels false labelled owned e h =
        let same : labels ≡ candidate.labels = candidate_labels component labels candidate h in
        rw (← same) (record {
          labelled = labelled;
          owned = owned;
          named = (owned_facts labels resource.name component owned).0;
          short = (owned_facts labels resource.name component owned).1;
          over = ground (arith, e);
        })

    by_owned :
        (labels : Labels) (owned : Bool)
        → ownership resource component ≡ some labels
        → is_owned labels resource.name component ≡ owned
        → ((if owned then some (record { component = component; labels = labels }) else none)
            >>=o λ candidate.
                if ltb now (int candidate.labels.expires_at) then none else some candidate)
          ≡ some candidate
        → IsExpired component resource candidate.labels now
    by_owned labels true labelled owned e = expired labels _ labelled owned refl e
    by_owned labels false labelled owned e = cc e

    by_labels :
        (given : Option Labels)
        → ownership resource component ≡ given
        → ((given >>=o λ l.
              if is_owned l resource.name component
              then some (record { component = component; labels = l })
              else none)
            >>=o λ candidate.
                if ltb now (int candidate.labels.expires_at) then none else some candidate)
          ≡ some candidate
        → IsExpired component resource candidate.labels now
    by_labels none labelled e = cc e
    by_labels (some labels) labelled e =
        by_owned labels (is_owned labels resource.name component) labelled refl e
