-- ===== src/Findings/Admission/Complete.antt =====
-- `accept` admits every finding that it should.
use deployment.Base.{
  ℕ, ◌≡◌, ◌↔◌, refl, arith, String, Bool, true, false, Option, none, some, exact, if◌then◌else◌,
  ==_refl, string_eq,
}
use deployment.Findings.{Bytes}
use deployment.Findings.Admission.{
  Source, Value, text, Object, Document, object, value_at, is_text, has_provenance, wording,
  observed_of, Finding, admitted, value_error, admit_fresh, admit_object, admit_document, is_input,
  accept,
}
use deployment.Findings.Admission.Facts.{observed_value, IsTimely, Listed-is_coded}
use deployment.Findings.Admission.Laws.{Belongs, IsObjectOf, Accepted, stale_of, accept_sound}

eq-is_text :
    (value : Option Value) (t s : String) → value ≡ some (text t) → t ≡ s → is_text value s ≡ true
eq-is_text value t s e same = rw (e, same) (==_refl s)

timely-observed_of :
    (now : ℕ) (observed : Option ℕ)
    → IsTimely now observed
    → observed_of now (some (observed_value observed)) ≡ some observed
timely-observed_of now none t = refl
timely-observed_of now (some n) t = ground (arith, t)

module _ (source : Source) (subject evidence : String) (now : ℕ) where
  module _ (value : Object) (f : Finding)
      (of_value : IsObjectOf source subject evidence now value f)
      (belongs : Belongs source subject evidence now f) where
    provenance_holds : has_provenance value source subject evidence ≡ true
    unfolding has_provenance
    provenance_holds =
        rw
          (
            of_value.version,
            eq-is_text (value_at "producer" value) f.producer source.producer of_value.producer
                belongs.producer,
            eq-is_text (value_at "category" value) f.category source.category of_value.category
                belongs.category,
            eq-is_text (value_at "capability" value) f.capability source.capability
                of_value.capability belongs.capability,
            eq-is_text (value_at "subject_sha256" value) f.subject_sha256 subject
                of_value.of_subject belongs.of_subject,
            eq-is_text (value_at "evidence_sha256" value) f.evidence_sha256 evidence
                of_value.of_evidence belongs.of_evidence,
          )
          refl

    words_hold :
        wording source.codes (value_at "condition" value) (value_at "reason" value)
        ≡ some (f.condition, f.reason)
    words_hold =
        rw
          (
            of_value.condition,
            of_value.reason,
            Listed-is_coded (f.condition, f.reason) source.codes belongs.listed,
          )
          refl

    fresh_holds :
        admit_fresh source subject evidence now (f.condition, f.reason) (some f.observed_at)
        ≡ admitted f
    fresh_holds =
        rw
          (
            stale_of source subject evidence now f.condition f.observed_at belongs.fresh,
            ← belongs.producer,
            ← belongs.category,
            ← belongs.capability,
            ← belongs.of_subject,
            ← belongs.of_evidence,
          )
          refl

    admit_object_holds : admit_object source subject evidence now value ≡ admitted f
    unfolding admit_object
    admit_object_holds =
        rw
          (
            of_value.unique,
            of_value.nine,
            provenance_holds,
            words_hold,
            of_value.observed_at,
            timely-observed_of now f.observed_at belongs.timely,
          )
          fresh_holds

  -- `accept` admits a finding exactly if its arguments are within their bounds, the text is one object
  -- with the nine members of the finding and no other, and the finding is of the source, the subject
  -- and the evidence, in the words of the source, was not observed after `now`, and, unless it is
  -- UNKNOWN, was observed and not too long ago.
  pub accept_iff :
      (loads : Bytes → Option Document) (raw : Bytes) (f : Finding)
      → (accept loads (exact raw) (exact source) (exact subject) (exact evidence) (exact now)
          ≡ admitted f)
        ↔ ((is_input raw subject evidence now ≡ true)
            × ((value : Object) × (loads raw ≡ some (object value))
                × Accepted source subject evidence now value f))
  unfolding accept
  accept_iff loads raw f = (
    λ e. (
      input_of (is_input raw subject evidence now) e,
      accept_sound source subject evidence now loads raw f e,
    ),
    λ (input, (value, read, (of_value, belongs))).
        rw (input, read) (admit_object_holds value f of_value belongs),
  )
    where
      input_of :
          (test : Bool)
          → (if test
              then admit_document source subject evidence now (loads raw)
              else value_error "finding-input")
            ≡ admitted f
          → test ≡ true
      input_of true e = refl
      input_of false e = cc e
