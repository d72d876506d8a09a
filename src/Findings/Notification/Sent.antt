-- ===== src/Findings/Notification/Sent.antt =====
-- The calls of `send` that `notify` makes.
use deployment.Base.{
  ◌≡◌, ◌⊎◌, refl, inl, inr, String, Bool, true, false, not, List, [], ◌∷◌, Option, none, some, Arg,
  exact, other, if◌then◌else◌,
}
use deployment.Findings.{Bytes}
use deployment.Findings.Admission.{Finding, Admission, admitted, value_error, is_digest}
use deployment.Findings.Notification.{
  Codec, Response, acknowledged, unacknowledged, raised, interrupted, Send, Delivery, silenced,
  delivered, failed, receipt, Notice, returned, rejected, broken_off, Input, accept_input, deliver,
  attempt, notify_admitted, notify,
}

-- A call of `send` and its response.
abbrev pub Call : Type 0
Call = Bytes × Response

abbrev logged :
    {World : Type 0} → Bytes → List Call → Response × World → Response × (World × List Call)
logged bytes log (response, w) = (response, (w, (bytes, response) ∷ log))

-- A `send` that keeps a log of its calls.
abbrev pub traced : {World : Type 0} → Send World → Send (World × List Call)
traced send bytes (w, log) = logged bytes log (send bytes w)

module _ (codec : Codec) (input : Input) (silent : Arg Bool) where
  -- One call, with the envelope of the notification and the accepted finding.
  abbrev pub Once : String → Finding → Response → List Call → Type 0
  Once id f response log = log ≡ (codec.envelope id f, response) ∷ []

  abbrev pub Calls : String → Finding → Delivery → List Call → Type 0
  Calls id f silenced log = (silent ≡ exact true) × (log ≡ [])
  Calls id f delivered log = (silent ≡ exact false) × Once id f acknowledged log
  Calls id f failed log =
      (silent ≡ exact false) × (Once id f unacknowledged log ⊎ Once id f raised log)

  -- What the log says of the way in which a call of `notify` ended.
  abbrev pub Sent : Arg String → Notice → List Call → Type 0
  Sent id (rejected message) log = log ≡ []
  Sent id (returned r) log =
      (f : Finding) × (accept_input codec input ≡ admitted f)
      × (id ≡ exact r.notification_id)
      × (is_digest r.notification_id ≡ true)
      × (r.finding_sha256 ≡ codec.sha256 (codec.snapshot f))
      × Calls r.notification_id f r.delivery log
  Sent id broken_off log =
      (f : Finding) × (accept_input codec input ≡ admitted f)
      × ((given : String) × (id ≡ exact given) × Once given f interrupted log)

  module _ {World : Type 0} where
    abbrev pub traced_if : Option (Send World) → Option (Send (World × List Call))
    traced_if none = none
    traced_if (some send) = some (traced send)

    abbrev IsSent : Arg String → Notice × (World × List Call) → Type 0
    IsSent id end = Sent id end.0 end.1.1

    deliver-Sent :
        (id : String) (f : Finding) (response : Response × World)
        → accept_input codec input ≡ admitted f
        → is_digest id ≡ true
        → silent ≡ exact false
        → IsSent (exact id) (deliver codec id f (logged (codec.envelope id f) [] response))
    deliver-Sent id f (acknowledged, w) accepted digest loud =
        (f, accepted, refl, digest, refl, (loud, refl))
    deliver-Sent id f (unacknowledged, w) accepted digest loud =
        (f, accepted, refl, digest, refl, (loud, inl refl))
    deliver-Sent id f (raised, w) accepted digest loud =
        (f, accepted, refl, digest, refl, (loud, inr refl))
    deliver-Sent id f (interrupted, w) accepted digest loud = (f, accepted, (id, refl, refl))

    attempt-Sent :
        (f : Finding) (id : Arg String) (send : Option (Send World)) (w : World)
        → accept_input codec input ≡ admitted f
        → IsSent id (attempt codec f id silent (traced_if send) (w, []))
    attempt-Sent f id send w accepted = by_arguments id silent send refl
      where
        by_tests :
            (id : String) (quiet digest : Bool) (send : Send World)
            → silent ≡ exact quiet
            → is_digest id ≡ digest
            → IsSent (exact id) (
                if not digest
                then (rejected "finding-notification-input", (w, []))
                else if quiet
                then (returned (receipt codec id f silenced), (w, []))
                else deliver codec id f (traced send (codec.envelope id f) (w, [])))
        by_tests id quiet false send said e = refl
        by_tests id true true send said e = (f, accepted, refl, e, refl, (said, refl))
        by_tests id false true send said e =
            deliver-Sent id f (send (codec.envelope id f) w) accepted e said

        by_arguments :
            (id : Arg String) (quiet : Arg Bool) (send : Option (Send World))
            → silent ≡ quiet
            → IsSent id (attempt codec f id quiet (traced_if send) (w, []))
        by_arguments other quiet send e = refl
        by_arguments (exact id) other send e = refl
        by_arguments (exact id) (exact quiet) none e = refl
        by_arguments (exact id) (exact quiet) (some send) e =
            by_tests id quiet (is_digest id) send e refl

    -- However `send` responds, `notify` calls it at most once. It is not called if a ValueError is
    -- raised or the receipt says SILENCED. Otherwise it is called with the envelope of the notification
    -- and of the finding that `accept` admits; DELIVERED stands for `True`, and FAILED for any other
    -- value or an exception. A receipt has the digest of the snapshot of that finding.
    pub notify-Sent :
        (id : Arg String) (send : Option (Send World)) (w : World)
        → Sent id
            (notify codec input id silent (traced_if send) (w, [])).0
            (notify codec input id silent (traced_if send) (w, [])).1.1
    unfolding notify
    notify-Sent id send w = by_admission (accept_input codec input) refl
      where
        by_admission :
            (admission : Admission Finding)
            → accept_input codec input ≡ admission
            → IsSent id (notify_admitted codec admission id silent (traced_if send) (w, []))
        by_admission (value_error message) e = refl
        by_admission (admitted f) e = attempt-Sent f id send w e
