-- ===== src/Findings/Notification/Adapter.antt =====
-- `notify` through the stream adapter.
use mathlib.Core.List.{append-nil}
use deployment.Base.{
  ℕ, ◌≡◌, refl, sym, ap, ◌∙◌, String, Bool, true, false, not, [], ◌++◌, some, Arg, exact, other,
  if◌then◌else◌,
}
use deployment.Findings
use deployment.Findings.{Bytes, Stream, State, write_from, record_of, send}
use deployment.Findings.Writing.{Took, write_from-Took}
use deployment.Findings.Admission.{Finding, Admission, admitted, value_error, is_digest}
use deployment.Findings.Notification.{
  Codec, Response, acknowledged, unacknowledged, raised, interrupted, Send, Delivery, silenced,
  delivered, failed, receipt, Notice, returned, rejected, broken_off, Input, accept_input, deliver,
  attempt, notify_admitted, notify,
}

-- How `notify` sees the end of a call of the adapter; one that is not finished within its fuel counts
-- as broken off.
abbrev pub response_of : Findings.Delivery → Response
response_of Findings.delivered = acknowledged
response_of Findings.refused = unacknowledged
response_of Findings.failed = raised
response_of Findings.unfinished = interrupted

module _ {World : Type 0} (stream : Stream World) (fuel : ℕ) (codec : Codec) (input : Input) where
  abbrev pub adapter : Send (State World)
  adapter envelope s =
      (response_of (send stream fuel envelope s).0, (send stream fuel envelope s).1)

  -- The stream took the whole record of the envelope, and the adapter stays usable.
  abbrev pub Whole : State World → String → Finding → State World → Type 0
  Whole s id f s' =
      (s.usable ≡ true) × (s'.usable ≡ true) × (s'.wire ≡ s.wire ++ record_of (codec.envelope id f))

  -- The stream took the front of that record, and the adapter is not usable any more.
  abbrev pub Partly : State World → String → Finding → State World → Type 0
  Partly s id f s' =
      (s'.usable ≡ false)
      × ((part : Bytes) × (left : Bytes) × (part ++ left ≡ record_of (codec.envelope id f))
          × (s'.wire ≡ s.wire ++ part))

  abbrev pub By : State World → String → Finding → Delivery → State World → Type 0
  By s id f silenced s' = s' ≡ s
  By s id f delivered s' = Whole s id f s'
  By s id f failed s' = Partly s id f s'

  -- What the stream has after a call of `notify`.
  abbrev pub Left : State World → Notice → State World → Type 0
  Left s (rejected message) s' = s' ≡ s
  Left s (returned r) s' =
      (f : Finding) × (accept_input codec input ≡ admitted f)
      × By s r.notification_id f r.delivery s'
  Left s broken_off s' =
      (f : Finding) × (accept_input codec input ≡ admitted f) × ((id : String) × Partly s id f s')

  abbrev IsLeft : State World → Notice × State World → Type 0
  IsLeft s end = Left s end.0 end.1

  Took-Whole :
      (s s' : State World) (id : String) (f : Finding)
      → s.usable ≡ true
      → Took stream (record_of (codec.envelope id f)) s.wire (Findings.delivered, s')
      → Whole s id f s'
  Took-Whole s s' id f usable took =
      (usable, took.fate.1, took.grown ∙ ap (λ l. s.wire ++ l) all_taken)
    where
      all_taken : took.taken ≡ record_of (codec.envelope id f)
      all_taken =
          sym (append-nil took.taken) ∙ ap (λ l. took.taken ++ l) (sym took.fate.0) ∙ took.whole

  by_end :
      (s s' : State World) (id : String) (f : Finding) (end : Findings.Delivery)
      → accept_input codec input ≡ admitted f
      → s.usable ≡ true
      → Took stream (record_of (codec.envelope id f)) s.wire (end, s')
      → IsLeft s (deliver codec id f (response_of end, s'))
  by_end s s' id f Findings.delivered accepted usable took =
      (f, accepted, Took-Whole s s' id f usable took)
  by_end s s' id f Findings.refused accepted usable took =
      (f, accepted, (took.fate, (took.taken, took.left, took.whole, took.grown)))
  by_end s s' id f Findings.failed accepted usable took =
      (f, accepted, (took.fate, (took.taken, took.left, took.whole, took.grown)))
  by_end s s' id f Findings.unfinished accepted usable took =
      (f, accepted, (id, (took.fate, (took.taken, took.left, took.whole, took.grown))))

  delivered-Left :
      (s : State World) (id : String) (f : Finding)
      → accept_input codec input ≡ admitted f
      → IsLeft s (deliver codec id f (adapter (codec.envelope id f) s))
  unfolding send
  delivered-Left s id f accepted = by_state s.usable refl
    where
      by_state :
          (usable : Bool)
          → s.usable ≡ usable
          → IsLeft s (
              deliver codec id f (
                response_of
                    (if usable
                      then write_from stream fuel (record_of (codec.envelope id f)) s.wire s.world
                      else (Findings.refused, s)).0,
                (if usable
                    then write_from stream fuel (record_of (codec.envelope id f)) s.wire s.world
                    else (Findings.refused, s)).1,
              ))
      by_state true usable =
          by_end s (write_from stream fuel (record_of (codec.envelope id f)) s.wire s.world).1 id f
            (write_from stream fuel (record_of (codec.envelope id f)) s.wire s.world).0 accepted
            usable (write_from-Took stream fuel (record_of (codec.envelope id f)) s.wire s.world)
      by_state false usable = (
        f,
        accepted,
        (usable, ([], record_of (codec.envelope id f), refl, sym (append-nil s.wire))),
      )

  attempt-Left :
      (s : State World) (id : Arg String) (silent : Arg Bool) (f : Finding)
      → accept_input codec input ≡ admitted f
      → IsLeft s (attempt codec f id silent (some adapter) s)
  attempt-Left s other silent f accepted = refl
  attempt-Left s (exact id) other f accepted = refl
  attempt-Left s (exact id) (exact silent) f accepted = by_tests silent (is_digest id)
    where
      by_tests :
          (silent digest : Bool)
          → IsLeft s (
              if not digest
              then (rejected "finding-notification-input", s)
              else if silent
              then (returned (receipt codec id f silenced), s)
              else deliver codec id f (adapter (codec.envelope id f) s))
      by_tests silent false = refl
      by_tests true true = (f, accepted, refl)
      by_tests false true = delivered-Left s id f accepted

  -- A notification through the adapter: after DELIVERED the stream has the whole record of the envelope
  -- of the finding that `accept` admits, and the adapter is still usable. After FAILED the stream has
  -- the front of that record at most, and the adapter is not usable any more. After SILENCED or a
  -- ValueError nothing has changed.
  pub notify-Left :
      (id : Arg String) (silent : Arg Bool) (s : State World)
      → Left s
          (notify codec input id silent (some adapter) s).0
          (notify codec input id silent (some adapter) s).1
  unfolding notify
  notify-Left id silent s = by_admission (accept_input codec input) refl
    where
      by_admission :
          (admission : Admission Finding)
          → accept_input codec input ≡ admission
          → IsLeft s (notify_admitted codec admission id silent (some adapter) s)
      by_admission (value_error message) e = refl
      by_admission (admitted f) e = attempt-Left s id silent f e
