-- ===== src/Findings/Notification/Tests.antt =====
-- Runs of `accept` and `notify`, and the theorems at them.
use deployment.Base.{
  ℕ, suc, ◌≡◌, ◌↔◌, refl, String, Bool, true, false, [], ◌∷◌, Option, none, some, exact, eqb,
  if◌then◌else◌, string_eq,
}
use deployment.Base.Text.{is_hex_of_length}
use native.Mathlib.Decide.{ℕ_discrete}
use deployment.Findings.{Bytes, Stream, State, wrote, raised, write_from, send}
use deployment.Findings.Admission.{
  Source, text, num, Object, Document, object, Finding, admitted, value_error, value_at, is_unique,
  has_fields, has_provenance, is_coded, is_source, is_input, admit_object, accept,
}
use deployment.Findings.Admission.Facts.{observed_value}
use deployment.Findings.Admission.Laws.{Accepted}
use deployment.Findings.Admission.Complete.{accept_iff}
use deployment.Findings.Notification.{
  Codec, Send, acknowledged, delivered, failed, silenced, receipt, returned, Input, accept_input,
  notify,
}
use deployment.Findings.Notification.Sent.{Sent, traced_if, notify-Sent}
use deployment.Findings.Notification.Adapter.{Left, adapter, notify-Left}

-- What has to compute for a run.
running : Bool
unfolding is_hex_of_length ℕ_discrete value_at is_unique has_fields has_provenance is_coded
    is_source admit_object accept accept_input notify send write_from string_eq
running = true

abbrev digest : String
digest = "0123456789abcdef0123456789abcdef0123456789abcdef0123456789abcdef"

abbrev source : Source
source = record {
  producer = "viewer-tls";
  category = "health";
  capability = "ViewerTLS";
  codes = ("WARNING", "expires-soon") ∷ ("UNKNOWN", "not-observed") ∷ [];
  freshness_seconds = 300;
}

source_admitted : is_source source ≡ true
unfolding running
source_admitted = refl

abbrev finding_at : String → String → Option ℕ → Finding
finding_at condition reason observed = record {
  producer = "viewer-tls";
  category = "health";
  capability = "ViewerTLS";
  subject_sha256 = digest;
  evidence_sha256 = digest;
  condition = condition;
  reason = reason;
  observed_at = observed;
}

abbrev warning : Finding
warning = finding_at "WARNING" "expires-soon" (some 1000)

-- The object of a finding, by its sorted keys.
abbrev members : Finding → Object
members f =
    ("capability", text f.capability)
    ∷ ("category", text f.category)
    ∷ ("condition", text f.condition)
    ∷ ("evidence_sha256", text f.evidence_sha256)
    ∷ ("observed_at", observed_value f.observed_at)
    ∷ ("producer", text f.producer)
    ∷ ("reason", text f.reason)
    ∷ ("schema_version", num 1)
    ∷ ("subject_sha256", text f.subject_sha256)
    ∷ []

-- The object of a finding as a producer writes it, by the first byte of the text: the warning, a
-- warning without a time, an unknown state without a time, and a warning that repeats a member.
abbrev loaded : ℕ → Object
loaded byte =
    if eqb byte 1
    then members warning
    else if eqb byte 2
    then ("schema_version", num 1)
      ∷ ("producer", text "viewer-tls")
      ∷ ("category", text "health")
      ∷ ("capability", text "ViewerTLS")
      ∷ ("subject_sha256", text digest)
      ∷ ("evidence_sha256", text digest)
      ∷ ("condition", text "WARNING")
      ∷ ("reason", text "expires-soon")
      ∷ ("observed_at", num 1000)
      ∷ []
    else if eqb byte 3
    then members (finding_at "WARNING" "expires-soon" none)
    else if eqb byte 4
    then members (finding_at "UNKNOWN" "not-observed" none)
    else ("reason", text "expires-soon") ∷ members warning

abbrev loads : Bytes → Option Document
loads [] = none
loads (byte ∷ _) = some (object (loaded byte))

abbrev codec : Codec
codec = record {
  loads = loads;
  snapshot = λ f. 1 ∷ [];
  envelope = λ id f. 7 ∷ 8 ∷ [];
  sha256 = λ bytes. digest;
}

abbrev input_at : ℕ → ℕ → Input
input_at byte now = record {
  raw = exact (byte ∷ []);
  source = exact source;
  subject_sha256 = exact digest;
  evidence_sha256 = exact digest;
  now = exact now;
}

accepted : accept_input codec (input_at 2 1300) ≡ admitted warning
unfolding running
accepted = refl

too_old : accept_input codec (input_at 2 1301) ≡ value_error "finding-stale-observation"
unfolding running
too_old = refl

too_new : accept_input codec (input_at 2 999) ≡ value_error "finding-observation-time"
unfolding running
too_new = refl

known_untimed : accept_input codec (input_at 3 1300) ≡ value_error "finding-stale-observation"
unfolding running
known_untimed = refl

unknown_untimed :
    accept_input codec (input_at 4 1300) ≡ admitted (finding_at "UNKNOWN" "not-observed" none)
unfolding running
unknown_untimed = refl

repeated : accept_input codec (input_at 5 1300) ≡ value_error "finding-json"
unfolding running
repeated = refl

accept_iff_example :
    (accept loads (exact (2 ∷ [])) (exact source) (exact digest) (exact digest) (exact 1300)
      ≡ admitted warning)
    ↔ ((is_input (2 ∷ []) digest digest 1300 ≡ true)
        × ((value : Object) × (loads (2 ∷ []) ≡ some (object value))
            × Accepted source digest digest 1300 value warning))
accept_iff_example = accept_iff source digest digest 1300 loads (2 ∷ []) warning

-- A `send` that counts its calls.
abbrev counted : Send ℕ
counted envelope calls = (acknowledged, suc calls)

notified :
    notify codec (input_at 2 1300) (exact digest) (exact false) (some counted) 0
    ≡ (returned (receipt codec digest warning delivered), 1)
unfolding running
notified = refl

kept_silent :
    notify codec (input_at 2 1300) (exact digest) (exact true) (some counted) 0
    ≡ (returned (receipt codec digest warning silenced), 0)
unfolding running
kept_silent = refl

notify-Sent_example :
    Sent codec
      (input_at 2 1300)
      (exact false)
      (exact digest)
      (notify codec
        (input_at 2 1300)
        (exact digest)
        (exact false)
        (traced_if codec (input_at 2 1300) (exact false) (some counted))
        (0, [])).0
      (notify codec
        (input_at 2 1300)
        (exact digest)
        (exact false)
        (traced_if codec (input_at 2 1300) (exact false) (some counted))
        (0, [])).1.1
notify-Sent_example =
    notify-Sent codec (input_at 2 1300) (exact false) (exact digest) (some counted) 0

-- A stream that takes one byte at a time and fails at the third call.
abbrev failing : Stream ℕ
failing = record {
  write = λ bytes calls. ((if eqb calls 2 then raised 0 else wrote 1), suc calls);
  flush = λ calls. (true, calls);
}

abbrev fresh_state : State ℕ
fresh_state = record { usable = true; wire = []; world = 0 }

cut_off :
    (notify codec
      (input_at 2 1300)
      (exact digest)
      (exact false)
      (some (adapter failing 9 codec (input_at 2 1300)))
      fresh_state).0
    ≡ returned (receipt codec digest warning failed)
unfolding running
cut_off = refl

notify-Left_example :
    Left failing 9 codec
      (input_at 2 1300)
      fresh_state
      (notify codec
        (input_at 2 1300)
        (exact digest)
        (exact false)
        (some (adapter failing 9 codec (input_at 2 1300)))
        fresh_state).0
      (notify codec
        (input_at 2 1300)
        (exact digest)
        (exact false)
        (some (adapter failing 9 codec (input_at 2 1300)))
        fresh_state).1
notify-Left_example =
    notify-Left failing 9 codec (input_at 2 1300) (exact digest) (exact false) fresh_state
