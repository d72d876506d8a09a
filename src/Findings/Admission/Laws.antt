-- ===== src/Findings/Admission/Laws.antt =====
-- What `accept` admits.
use deployment.Base.{
  ℕ, ◌≡◌, ◌⊎◌, refl, arith, inl, inr, String, Bool, true, false, not, ◌&&◌, Option, none, some,
  exact, if◌then◌else◌, ◌/=◌, ==-cases, string_eq,
}
use deployment.Findings.{Bytes}
use deployment.Findings.Admission.{
  Source, Value, text, num, Object, Document, object, no_object, value_at, is_unique, has_fields,
  is_text, is_num, has_provenance, wording, observed_of, is_stale, Finding, admitted, value_error,
  finding_of, admit_fresh, admit_words, admit_object, admit_document, is_input, accept,
}
use deployment.Findings.Admission.Facts.{
  Listed, observed_value, IsTimely, IsFresh, is_stale-IsFresh, IsFresh-is_stale, is_text-eq,
  is_num-eq, wording_facts, observed_facts,
}

module _ (source : Source) (subject evidence : String) (now : ℕ) where
  -- The finding is of the source, the subject and the evidence, in the words of the source, and its
  -- time is one at which it may be told.
  pub record Belongs (f : Finding) : Type 0 where
    pub producer : f.producer ≡ source.producer
    pub category : f.category ≡ source.category
    pub capability : f.capability ≡ source.capability
    pub of_subject : f.subject_sha256 ≡ subject
    pub of_evidence : f.evidence_sha256 ≡ evidence
    pub listed : Listed (f.condition, f.reason) source.codes
    pub timely : IsTimely now f.observed_at
    pub fresh : (f.condition ≡ "UNKNOWN") ⊎ IsFresh now source.freshness_seconds f.observed_at

  -- The object has the nine members of the finding, and no other.
  pub record IsObjectOf (value : Object) (f : Finding) : Type 0 where
    pub unique : is_unique value ≡ true
    pub nine : has_fields value ≡ true
    pub version : value_at "schema_version" value ≡ some (num 1)
    pub producer : value_at "producer" value ≡ some (text f.producer)
    pub category : value_at "category" value ≡ some (text f.category)
    pub capability : value_at "capability" value ≡ some (text f.capability)
    pub of_subject : value_at "subject_sha256" value ≡ some (text f.subject_sha256)
    pub of_evidence : value_at "evidence_sha256" value ≡ some (text f.evidence_sha256)
    pub condition : value_at "condition" value ≡ some (text f.condition)
    pub reason : value_at "reason" value ≡ some (text f.reason)
    pub observed_at : value_at "observed_at" value ≡ some (observed_value f.observed_at)

  -- An admitted finding, with the object that it was read from.
  abbrev pub Accepted : Object → Finding → Type 0
  Accepted value f = IsObjectOf value f × Belongs f

  IsFresh-unless_unknown :
      (condition : String) (observed : Option ℕ)
      → IsTimely now observed
      → (condition /= "UNKNOWN" && is_stale now source.freshness_seconds observed) ≡ false
      → (condition ≡ "UNKNOWN") ⊎ IsFresh now source.freshness_seconds observed
  IsFresh-unless_unknown condition observed t h = elim (==-cases condition "UNKNOWN") [
    | inl (same, _) ↦ inl same
    | inr (differ, _) ↦ inr (
        is_stale-IsFresh now source.freshness_seconds observed t
          (known condition (is_stale now source.freshness_seconds observed) differ h))
  ]
    where
      known :
          (condition : String) (stale : Bool)
          → (condition ≡ "UNKNOWN" → ⊥)
          → (condition /= "UNKNOWN" && stale) ≡ false
          → stale ≡ false
      known condition true differ h = absurd (ground (arith, differ, h))
      known condition false differ h = refl

  pub stale_of :
      (condition : String) (observed : Option ℕ)
      → (condition ≡ "UNKNOWN") ⊎ IsFresh now source.freshness_seconds observed
      → (condition /= "UNKNOWN" && is_stale now source.freshness_seconds observed) ≡ false
  stale_of condition observed (inl e) = ground (arith, e)
  stale_of condition observed (inr h) =
      rw (IsFresh-is_stale now source.freshness_seconds observed h) (ground arith)

  provenance_facts :
      (value : Object)
      → has_provenance value source subject evidence ≡ true
      → (value_at "schema_version" value ≡ some (num 1))
        × (value_at "producer" value ≡ some (text source.producer))
        × (value_at "category" value ≡ some (text source.category))
        × (value_at "capability" value ≡ some (text source.capability))
        × (value_at "subject_sha256" value ≡ some (text subject))
        × (value_at "evidence_sha256" value ≡ some (text evidence))
  unfolding has_provenance
  provenance_facts value h =
      facts (value_at "schema_version" value) (value_at "producer" value)
        (value_at "category" value) (value_at "capability" value) (value_at "subject_sha256" value)
        (value_at "evidence_sha256" value) h
    where
      facts :
          (v p k c s e : Option Value)
          → (is_num v 1
              && is_text p source.producer
              && is_text k source.category
              && is_text c source.capability
              && is_text s subject
              && is_text e evidence)
            ≡ true
          → (v ≡ some (num 1))
            × (p ≡ some (text source.producer))
            × (k ≡ some (text source.category))
            × (c ≡ some (text source.capability))
            × (s ≡ some (text subject))
            × (e ≡ some (text evidence))
      facts v p k c s e h = by_parts _ _ _ _ _ _ refl refl refl refl refl refl h
        where
          by_parts :
              (a b c' d e' f : Bool)
              → is_num v 1 ≡ a
              → is_text p source.producer ≡ b
              → is_text k source.category ≡ c'
              → is_text c source.capability ≡ d
              → is_text s subject ≡ e'
              → is_text e evidence ≡ f
              → (a && b && c' && d && e' && f) ≡ true
              → (v ≡ some (num 1))
                × (p ≡ some (text source.producer))
                × (k ≡ some (text source.category))
                × (c ≡ some (text source.capability))
                × (s ≡ some (text subject))
                × (e ≡ some (text evidence))
          by_parts true true true true true true v' p' k' c'' s' e'' h = (
            is_num-eq v 1 v',
            is_text-eq p source.producer p',
            is_text-eq k source.category k',
            is_text-eq c source.capability c'',
            is_text-eq s subject s',
            is_text-eq e evidence e'',
          )
          by_parts false b c' d e' f v' p' k' c'' s' e'' h = cc h
          by_parts true false c' d e' f v' p' k' c'' s' e'' h = cc h
          by_parts true true false d e' f v' p' k' c'' s' e'' h = cc h
          by_parts true true true false e' f v' p' k' c'' s' e'' h = cc h
          by_parts true true true true false f v' p' k' c'' s' e'' h = cc h
          by_parts true true true true true false v' p' k' c'' s' e'' h = cc h

  -- The last two tests, for an object that passed the others.
  admit_words-Accepted :
      (value : Object) (f : Finding)
      → is_unique value ≡ true
      → has_fields value ≡ true
      → has_provenance value source subject evidence ≡ true
      → admit_words source subject evidence now
          (value_at "observed_at" value)
          (wording source.codes (value_at "condition" value) (value_at "reason" value))
        ≡ admitted f
      → Accepted value f
  admit_words-Accepted value f unique nine provenance e =
      by_words (wording source.codes (value_at "condition" value) (value_at "reason" value)) refl e
    where
      by_stale :
          (words : String × String) (observed : Option ℕ) (stale : Bool)
          → wording source.codes (value_at "condition" value) (value_at "reason" value) ≡ some words
          → observed_of now (value_at "observed_at" value) ≡ some observed
          → (words.0 /= "UNKNOWN" && is_stale now source.freshness_seconds observed) ≡ stale
          → (if stale
              then value_error "finding-stale-observation"
              else admitted (finding_of source subject evidence words observed))
            ≡ admitted f
          → Accepted value f
      by_stale words observed true worded timed fresh e = cc e
      by_stale words observed false worded timed fresh e =
          let same : finding_of source subject evidence words observed ≡ f = cc e in
          let (v, p, k, c, s, d) = provenance_facts value provenance in
          let (condition, reason, listed) =
            wording_facts source.codes (value_at "condition" value) (value_at "reason" value) words
              worded in
          let (at, timely) = observed_facts now (value_at "observed_at" value) observed timed in
          rw (← same) (
            record {
              unique = unique;
              nine = nine;
              version = v;
              producer = p;
              category = k;
              capability = c;
              of_subject = s;
              of_evidence = d;
              condition = condition;
              reason = reason;
              observed_at = at;
            },
            record {
              producer = refl;
              category = refl;
              capability = refl;
              of_subject = refl;
              of_evidence = refl;
              listed = listed;
              timely = timely;
              fresh = IsFresh-unless_unknown words.0 observed timely fresh;
            },
          )

      by_observed :
          (words : String × String) (observed : Option (Option ℕ))
          → wording source.codes (value_at "condition" value) (value_at "reason" value) ≡ some words
          → observed_of now (value_at "observed_at" value) ≡ observed
          → admit_fresh source subject evidence now words observed ≡ admitted f
          → Accepted value f
      by_observed words none worded timed e = cc e
      by_observed words (some observed) worded timed e =
          by_stale words observed _ worded timed refl e

      by_words :
          (words : Option (String × String))
          → wording source.codes (value_at "condition" value) (value_at "reason" value) ≡ words
          → admit_words source subject evidence now (value_at "observed_at" value) words
            ≡ admitted f
          → Accepted value f
      by_words none worded e = cc e
      by_words (some words) worded e =
          by_observed words (observed_of now (value_at "observed_at" value)) worded refl e

  admit_object-Accepted :
      (value : Object) (f : Finding)
      → admit_object source subject evidence now value ≡ admitted f
      → Accepted value f
  unfolding admit_object
  admit_object-Accepted value f e =
      by_tests (is_unique value) (has_fields value) (has_provenance value source subject evidence)
        refl refl refl e
    where
      by_tests :
          (unique nine provenance : Bool)
          → is_unique value ≡ unique
          → has_fields value ≡ nine
          → has_provenance value source subject evidence ≡ provenance
          → (if not unique
              then value_error "finding-json"
              else if not nine
              then value_error "finding-fields"
              else if not provenance
              then value_error "finding-provenance-or-vocabulary"
              else admit_words source subject evidence now
                  (value_at "observed_at" value)
                  (wording source.codes (value_at "condition" value) (value_at "reason" value)))
            ≡ admitted f
          → Accepted value f
      by_tests false nine provenance u n p e = cc e
      by_tests true false provenance u n p e = cc e
      by_tests true true false u n p e = cc e
      by_tests true true true u n p e = admit_words-Accepted value f u n p e

  -- What is admitted is one object with the nine members of the finding and no other; the finding is
  -- of the source, the subject and the evidence, in the words of the source, was not observed after
  -- `now`, and, unless it is UNKNOWN, was observed and not too long ago.
  pub accept_sound :
      (loads : Bytes → Option Document) (raw : Bytes) (f : Finding)
      → accept loads (exact raw) (exact source) (exact subject) (exact evidence) (exact now)
        ≡ admitted f
      → (value : Object) × (loads raw ≡ some (object value)) × Accepted value f
  unfolding accept
  accept_sound loads raw f e = by_input (is_input raw subject evidence now) e
    where
      by_document :
          (document : Option Document)
          → loads raw ≡ document
          → admit_document source subject evidence now document ≡ admitted f
          → (value : Object) × (loads raw ≡ some (object value)) × Accepted value f
      by_document none read e = cc e
      by_document (some no_object) read e = cc e
      by_document (some (object value)) read e = (value, read, admit_object-Accepted value f e)

      by_input :
          (test : Bool)
          → (if test
              then admit_document source subject evidence now (loads raw)
              else value_error "finding-input")
            ≡ admitted f
          → (value : Object) × (loads raw ≡ some (object value)) × Accepted value f
      by_input false e = cc e
      by_input true e = by_document (loads raw) refl e
