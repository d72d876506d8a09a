-- ===== src/Findings/Notification.antt =====
-- scripts/public_findings.py: `notify`.
pub mod Sent
pub mod Adapter
mod Tests
use deployment.Base.{
  String, Bool, true, false, not, List, Option, none, some, Arg, exact, other, ℕ, if◌then◌else◌,
}
use deployment.Findings.{Bytes}
use deployment.Findings.Admission.{
  Source, Document, Finding, Admission, admitted, value_error, is_digest, accept,
}

-- JSON and SHA-256: `json.loads` of pairs, the canonical text of a finding and of an envelope with
-- its notification and its finding, and the digest of a text.
pub record Codec : Type 0 where
  pub loads : Bytes → Option Document
  pub snapshot : Finding → Bytes
  pub envelope : String → Finding → Bytes
  pub sha256 : Bytes → String

-- What `send(envelope)` does: it returns `True` or another value, it raises an `Exception`, or it
-- raises another exception, which nobody catches.
pub data Response : Type 0 where
  acknowledged unacknowledged raised interrupted : Response

abbrev pub Send : Type 0 → Type 0
Send World = Bytes → World → Response × World

-- `result['delivery']`
pub data Delivery : Type 0 where
  silenced delivered failed : Delivery

-- `result`, whose `schema_version` is 1.
pub record Receipt : Type 0 where
  pub notification_id : String
  pub finding_sha256 : String
  pub delivery : Delivery

-- What `notify` returns, or the `ValueError` or other exception that it raises.
pub data Notice : Type 0 where
  returned : Receipt → Notice
  rejected : String → Notice
  broken_off : Notice

-- The arguments of `accept`.
pub record Input : Type 0 where
  pub raw : Arg Bytes
  pub source : Arg Source
  pub subject_sha256 : Arg String
  pub evidence_sha256 : Arg String
  pub now : Arg ℕ

unfoldable pub accept_input : Codec → Input → Admission Finding
unfolding accept
accept_input codec i = accept codec.loads i.raw i.source i.subject_sha256 i.evidence_sha256 i.now

abbrev pub receipt : Codec → String → Finding → Delivery → Receipt
receipt codec id f delivery = record {
  notification_id = id;
  finding_sha256 = codec.sha256 (codec.snapshot f);
  delivery = delivery;
}

module _ {World : Type 0} (codec : Codec) where
  -- The `try` block.
  abbrev pub deliver : String → Finding → Response × World → Notice × World
  deliver id f (acknowledged, w) = (returned (receipt codec id f delivered), w)
  deliver id f (unacknowledged, w) = (returned (receipt codec id f failed), w)
  deliver id f (raised, w) = (returned (receipt codec id f failed), w)
  deliver id f (interrupted, w) = (broken_off, w)

  -- What follows the acceptance; `send` is there if it is callable.
  abbrev pub attempt :
      Finding → Arg String → Arg Bool → Option (Send World) → World → Notice × World
  attempt f (exact id) (exact silent) (some send) w =
      if not (is_digest id)
      then (rejected "finding-notification-input", w)
      else if silent
      then (returned (receipt codec id f silenced), w)
      else deliver id f (send (codec.envelope id f) w)
  attempt f _ _ _ w = (rejected "finding-notification-input", w)

  abbrev pub notify_admitted :
      Admission Finding → Arg String → Arg Bool → Option (Send World) → World → Notice × World
  notify_admitted (value_error message) id silent send w = (rejected message, w)
  notify_admitted (admitted f) id silent send w = attempt f id silent send w

  -- `notify`
  unfoldable pub notify :
      Input → Arg String → Arg Bool → Option (Send World) → World → Notice × World
  unfolding accept_input
  notify input id silent send w = notify_admitted (accept_input codec input) id silent send w
