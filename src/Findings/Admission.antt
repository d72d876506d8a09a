-- ===== src/Findings/Admission.antt =====
-- scripts/public_findings.py: `Source`, `accept` and what they call.
pub mod Facts
pub mod Laws
pub mod Complete
use deployment.Base.{
  ℕ, ◌-◌, String, Bool, true, false, not, ◌&&◌, ◌||◌, List, [], ◌∷◌, Option, none, some, Arg, exact,
  other, all, leb, ltb, eqb, length, if◌then◌else◌, ◌==◌, ◌/=◌, string_eq,
}
use deployment.Base.Text.{codes, is_word, is_digit, is_hex_of_length}
use deployment.Findings.{Bytes}

-- `_code` with its three patterns; they differ in the first character and in those after it.
abbrev pub is_lower : ℕ → Bool
is_lower c = leb b'a' c && leb c b'z'

abbrev pub is_upper : ℕ → Bool
is_upper c = leb b'A' c && leb c b'Z'

abbrev pub matches : (ℕ → Bool) → (ℕ → Bool) → List ℕ → Bool
matches first later [] = false
matches first later (c ∷ s) = first c && all later s && leb (length s) 63

-- `[a-z][a-z0-9-]{0,63}`
abbrev pub is_code : String → Bool
is_code s = matches is_lower (λ c. is_word c || eqb c b'-') (codes s)

-- `[A-Za-z][A-Za-z0-9-]{0,63}`
abbrev pub is_capability : String → Bool
is_capability s =
    matches (λ c. is_upper c || is_lower c) (λ c. is_upper c || is_word c || eqb c b'-') (codes s)

-- `[A-Z][A-Z0-9_-]{0,63}`
abbrev pub is_condition : String → Bool
is_condition s =
    matches is_upper (λ c. is_upper c || is_digit c || eqb c b'_' || eqb c b'-') (codes s)

-- `_digest`
abbrev pub is_digest : String → Bool
is_digest s = is_hex_of_length 64 (codes s)

-- `Source`; its codes are a frozenset in the code, here a list of different pairs.
pub record Source : Type 0 where
  pub producer : String
  pub category : String
  pub capability : String
  pub codes : List (String × String)
  pub freshness_seconds : ℕ

abbrev pub is_category : String → Bool
is_category s =
    s == "health" || s == "security" || s == "update" || s == "conformance" || s == "integrity"

-- The test of `Source.__post_init__`.
unfoldable pub is_source : Source → Bool
is_source s =
    is_code s.producer
    && is_category s.category
    && is_capability s.capability
    && (leb 1 s.freshness_seconds && leb s.freshness_seconds 31536000)
    && (leb 1 (length s.codes) && leb (length s.codes) 128)
    && all (λ pair. is_condition pair.0 && is_code pair.1) s.codes

-- A member of the object: what the code tells apart. `other` stands for the rest, also for a negative
-- number and for a truth value.
pub data Value : Type 0 where
  null other_value : Value
  text : String → Value
  num : ℕ → Value

abbrev pub Object : Type 0
Object = List (String × Value)

-- What `json.loads` reads: an object, by its pairs in the order of the text, or another value.
pub data Document : Type 0 where
  object : Object → Document
  no_object : Document

-- `value[key]`
unfoldable pub value_at : String → Object → Option Value
value_at key [] = none
value_at key ((k, v) ∷ rest) = let later = value_at key rest in if k == key then some v else later

abbrev pub has_key : Object → String → Bool
has_key value key = elim (value_at key value) [ none ↦ false | some _ ↦ true ]

-- `_pairs`: no key occurs twice.
unfoldable pub is_unique : Object → Bool
unfolding value_at
is_unique [] = true
is_unique ((k, _) ∷ rest) = let later = is_unique rest in not (has_key rest k) && later

abbrev pub member : String → List String → Bool
member key [] = false
member key (k ∷ rest) = let later = member key rest in if k == key then true else later

abbrev pub fields : List String
fields =
    "schema_version" ∷ "producer" ∷ "category" ∷ "capability" ∷ "subject_sha256" ∷ "evidence_sha256"
    ∷ "condition" ∷ "reason" ∷ "observed_at" ∷ []

-- `set(value) == {...}`
unfoldable pub has_fields : Object → Bool
unfolding value_at
has_fields value = all (λ pair. member pair.0 fields) value && all (has_key value) fields

-- `value[key] == text`
abbrev pub is_text : Option Value → String → Bool
is_text (some (text t)) s = t == s
is_text _ s = false

-- `type(value[key]) is int and value[key] == number`
abbrev pub is_num : Option Value → ℕ → Bool
is_num (some (num m)) n = eqb m n
is_num _ n = false

-- The members that must be those of the source and of the caller.
unfoldable pub has_provenance : Object → Source → String → String → Bool
unfolding value_at
has_provenance value source subject evidence =
    is_num (value_at "schema_version" value) 1
    && is_text (value_at "producer" value) source.producer
    && is_text (value_at "category" value) source.category
    && is_text (value_at "capability" value) source.capability
    && is_text (value_at "subject_sha256" value) subject
    && is_text (value_at "evidence_sha256" value) evidence

-- `(condition, reason) in codes`
unfoldable pub is_coded : String → String → List (String × String) → Bool
is_coded condition reason [] = false
is_coded condition reason ((c, r) ∷ rest) =
    let later = is_coded condition reason rest in
    if c == condition && r == reason then true else later

-- The condition and the reason, if they are texts of the vocabulary.
abbrev pub wording : List (String × String) → Option Value → Option Value → Option (String × String)
wording codes (some (text c)) (some (text r)) = if is_coded c r codes then some (c, r) else none
wording codes _ _ = none

-- `observed`, if it is `None` or a time not after `now`.
abbrev pub observed_of : ℕ → Option Value → Option (Option ℕ)
observed_of now (some null) = some none
observed_of now (some (num n)) = if leb n now then some (some n) else none
observed_of now _ = none

-- `observed is None or now - observed > freshness_seconds`
abbrev pub is_stale : ℕ → ℕ → Option ℕ → Bool
is_stale now freshness none = true
is_stale now freshness (some n) = ltb freshness (now - n)

-- The members of an accepted object, without `schema_version`, which is 1.
pub record Finding : Type 0 where
  pub producer : String
  pub category : String
  pub capability : String
  pub subject_sha256 : String
  pub evidence_sha256 : String
  pub condition : String
  pub reason : String
  pub observed_at : Option ℕ

-- What a call returns, or the `ValueError` that it raises.
pub data Admission (A : Type 0) : Type 0 where
  admitted : A → Admission A
  value_error : String → Admission A

abbrev pub finding_of : Source → String → String → String × String → Option ℕ → Finding
finding_of source subject evidence words observed = record {
  producer = source.producer;
  category = source.category;
  capability = source.capability;
  subject_sha256 = subject;
  evidence_sha256 = evidence;
  condition = words.0;
  reason = words.1;
  observed_at = observed;
}

abbrev pub admit_fresh :
    Source → String → String → ℕ → String × String → Option (Option ℕ) → Admission Finding
admit_fresh source subject evidence now words none = value_error "finding-observation-time"
admit_fresh source subject evidence now words (some observed) =
    if words.0 /= "UNKNOWN" && is_stale now source.freshness_seconds observed
    then value_error "finding-stale-observation"
    else admitted (finding_of source subject evidence words observed)

abbrev pub admit_words :
    Source → String → String → ℕ → Option Value → Option (String × String) → Admission Finding
admit_words source subject evidence now observed none =
    value_error "finding-provenance-or-vocabulary"
admit_words source subject evidence now observed (some words) =
    admit_fresh source subject evidence now words (observed_of now observed)

-- The tests of `accept` on the members.
unfoldable pub admit_object : Source → String → String → ℕ → Object → Admission Finding
unfolding is_unique has_fields has_provenance is_coded
admit_object source subject evidence now value =
    if not (is_unique value)
    then value_error "finding-json"
    else if not (has_fields value)
    then value_error "finding-fields"
    else if not (has_provenance value source subject evidence)
    then value_error "finding-provenance-or-vocabulary"
    else admit_words source subject evidence now (value_at "observed_at" value)
        (wording source.codes (value_at "condition" value) (value_at "reason" value))

abbrev pub admit_document : Source → String → String → ℕ → Option Document → Admission Finding
admit_document source subject evidence now none = value_error "finding-json"
admit_document source subject evidence now (some no_object) = value_error "finding-fields"
admit_document source subject evidence now (some (object value)) =
    admit_object source subject evidence now value

-- The test of the arguments of `accept`.
abbrev pub is_input : Bytes → String → String → ℕ → Bool
is_input raw subject evidence now =
    (leb 1 (length raw) && leb (length raw) 4096)
    && is_digest subject
    && is_digest evidence
    && ltb now 9223372036854775808

-- `accept`, where `loads` is `json.loads` of pairs. The snapshot is the canonical text of the finding.
unfoldable pub accept :
    (Bytes → Option Document)
    → Arg Bytes
    → Arg Source
    → Arg String
    → Arg String
    → Arg ℕ
    → Admission Finding
unfolding admit_object
accept loads (exact raw) (exact source) (exact subject) (exact evidence) (exact now) =
    if is_input raw subject evidence now
    then admit_document source subject evidence now (loads raw)
    else value_error "finding-input"
accept loads _ _ _ _ _ = value_error "finding-input"
