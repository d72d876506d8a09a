-- ===== src/Findings/Framing.antt =====
-- What the stream has taken after any calls of `send`.
use deployment.Base.{
  ℕ, ◌≡◌, ◌⊎◌, refl, sym, ap, ◌∙◌, inl, inr, Bool, true, false, List, [], ◌∷◌, ◌++◌,
}
use mathlib.Core.Path.{subst}
use mathlib.Core.List.{append_assoc, append-nil}
use deployment.Findings.{
  Bytes, Stream, State, Delivery, delivered, refused, failed, unfinished, write_from, record_of,
  send, send_all,
}
use deployment.Findings.Writing.{Took, write_from-Took}

-- The records of these envelopes, one after the other.
unfoldable pub frames : List Bytes → Bytes
frames [] = []
frames (envelope ∷ rest) = record_of envelope ++ frames rest

module _ {World : Type 0} (stream : Stream World) where
  -- The envelopes whose calls ended with a delivery.
  abbrev pub delivered_of : List Bytes → List Delivery → List Bytes
  delivered_of (envelope ∷ rest) (delivered ∷ ends) = envelope ∷ delivered_of rest ends
  delivered_of (envelope ∷ rest) (_ ∷ ends) = delivered_of rest ends
  delivered_of _ _ = []

  -- The stream has the records of the envelopes that were delivered, whole and in order, and then a
  -- part. Either all were delivered, the part is empty and the adapter is usable; or those delivered
  -- come first, the part is the front of the record of the next one, and the adapter is not usable.
  pub record Framed (start : Bytes) (envelopes done : List Bytes) (s : State World) : Type 0 where
    pub part : Bytes
    pub grown : s.wire ≡ (start ++ frames done) ++ part
    pub front :
        ((s.usable ≡ true) × (part ≡ []) × (envelopes ≡ done))
        ⊎ ((s.usable ≡ false)
            × ((envelope : Bytes) × (rest : List Bytes) × (left : Bytes) × (envelopes
                  ≡ done ++ (envelope ∷ rest))
                × (part ++ left ≡ record_of envelope)))

  abbrev pub state : Bool → Bytes → World → State World
  state usable wire w = record { usable = usable; wire = wire; world = w }

  unused :
      (fuel : ℕ) (envelopes : List Bytes) (wire : Bytes) (w : World)
      → ((send_all stream fuel envelopes (state false wire w)).1 ≡ state false wire w)
        × (delivered_of envelopes (send_all stream fuel envelopes (state false wire w)).0 ≡ [])
  unfolding send_all send
  unused fuel [] wire w = (refl, refl)
  unused fuel (envelope ∷ rest) wire w = unused fuel rest wire w

  start_grown : (wire : Bytes) → wire ≡ (wire ++ []) ++ []
  start_grown wire = sym (append-nil wire) ∙ sym (append-nil (wire ++ []))

  -- After a call that did not deliver, nothing more is taken.
  cut_off :
      (fuel : ℕ) (envelope : Bytes) (rest : List Bytes) (wire wire' : Bytes) (w : World)
      (end : Delivery)
      → (taken left : Bytes) → taken ++ left ≡ record_of envelope
      → wire' ≡ wire ++ taken
      → Framed wire
          (envelope ∷ rest)
          (delivered_of rest (send_all stream fuel rest (state false wire' w)).0)
          (send_all stream fuel rest (state false wire' w)).1
  unfolding frames
  cut_off fuel envelope rest wire wire' w end taken left whole grown =
      subst
        (λ done.
          Framed wire (envelope ∷ rest) done (send_all stream fuel rest (state false wire' w)).1)
        (sym (unused fuel rest wire' w).1)
        (subst (λ s. Framed wire (envelope ∷ rest) [] s) (sym (unused fuel rest wire' w).0)
          (record {
            part = taken;
            grown = grown ∙ ap (λ l. l ++ taken) (sym (append-nil wire));
            front = inr (refl, (envelope, rest, left, refl, whole));
          }))

  -- After a delivery the next calls go on.
  went_on :
      (envelope : Bytes) (wire wire' : Bytes) (rest done : List Bytes) (s : State World)
      → wire' ≡ wire ++ record_of envelope
      → Framed wire' rest done s
      → Framed wire (envelope ∷ rest) (envelope ∷ done) s
  unfolding frames
  went_on envelope wire wire' rest done s grown h = record {
    part = h.part;
    grown =
        h.grown
        ∙ ap (λ l. l ++ h.part)
            (ap (λ l. l ++ frames done) grown
              ∙ append_assoc wire (record_of envelope) (frames done));
    front = one_longer h.front;
  }
    where
      one_longer :
          ((s.usable ≡ true) × (h.part ≡ []) × (rest ≡ done))
            ⊎ ((s.usable ≡ false)
                × ((next : Bytes) × (later : List Bytes) × (left : Bytes) × (rest
                      ≡ done ++ (next ∷ later))
                    × (h.part ++ left ≡ record_of next)))
          → ((s.usable ≡ true) × (h.part ≡ []) × (envelope ∷ rest ≡ envelope ∷ done))
            ⊎ ((s.usable ≡ false)
                × ((next : Bytes) × (later : List Bytes) × (left : Bytes) × (envelope ∷ rest
                      ≡ envelope ∷ (done ++ (next ∷ later)))
                    × (h.part ++ left ≡ record_of next)))
      one_longer (inl (usable, empty, all)) = inl (usable, empty, ap (λ l. envelope ∷ l) all)
      one_longer (inr (unusable, (next, later, left, split, whole))) =
          inr (unusable, (next, later, left, ap (λ l. envelope ∷ l) split, whole))

  one_more :
      (fuel : ℕ) (envelope : Bytes) (rest : List Bytes) (wire : Bytes) (end : Delivery)
      (usable : Bool) (wire' : Bytes) (w : World)
      → Took stream (record_of envelope) wire (end, state usable wire' w)
      → (usable ≡ true
          → Framed wire' rest
              (delivered_of rest (send_all stream fuel rest (state true wire' w)).0)
              (send_all stream fuel rest (state true wire' w)).1)
      → Framed wire
          (envelope ∷ rest)
          (delivered_of
            (envelope ∷ rest)
            (end ∷ (send_all stream fuel rest (state usable wire' w)).0))
          (send_all stream fuel rest (state usable wire' w)).1
  one_more fuel envelope rest wire delivered true wire' w took go_on =
      went_on envelope wire wire' rest _ _ (took.grown ∙ ap (λ l. wire ++ l) all_taken) (go_on refl)
    where
      all_taken : took.taken ≡ record_of envelope
      all_taken =
          sym (append-nil took.taken) ∙ ap (λ l. took.taken ++ l) (sym took.fate.0) ∙ took.whole
  one_more fuel envelope rest wire delivered false wire' w took go_on = cc took.fate.1
  one_more fuel envelope rest wire refused true wire' w took go_on = cc took.fate
  one_more fuel envelope rest wire failed true wire' w took go_on = cc took.fate
  one_more fuel envelope rest wire unfinished true wire' w took go_on = cc took.fate
  one_more fuel envelope rest wire refused false wire' w took go_on =
      cut_off fuel envelope rest wire wire' w refused took.taken took.left took.whole took.grown
  one_more fuel envelope rest wire failed false wire' w took go_on =
      cut_off fuel envelope rest wire wire' w failed took.taken took.left took.whole took.grown
  one_more fuel envelope rest wire unfinished false wire' w took go_on =
      cut_off fuel envelope rest wire wire' w unfinished took.taken took.left took.whole took.grown

  -- Whatever is sent through a usable adapter, and however the stream answers, the stream takes the
  -- records of the envelopes that were delivered, whole and in order. If these are all, it has nothing
  -- more and the adapter stays usable; otherwise they are those before some envelope, the stream has at
  -- most the front of the record of that one after them, and the adapter is not usable any more.
  pub send_all-Framed :
      (fuel : ℕ) (envelopes : List Bytes) (wire : Bytes) (w : World)
      → Framed wire envelopes
          (delivered_of envelopes (send_all stream fuel envelopes (state true wire w)).0)
          (send_all stream fuel envelopes (state true wire w)).1
  unfolding send_all send frames
  send_all-Framed fuel [] wire w = record {
    part = [];
    grown = start_grown wire;
    front = inl (refl, refl, refl);
  }
  send_all-Framed fuel (envelope ∷ rest) wire w =
      one_more fuel envelope rest wire (write_from stream fuel (record_of envelope) wire w).0
        (write_from stream fuel (record_of envelope) wire w).1.usable
        (write_from stream fuel (record_of envelope) wire w).1.wire
        (write_from stream fuel (record_of envelope) wire w).1.world
        (write_from-Took stream fuel (record_of envelope) wire w) λ _. send_all-Framed fuel rest _ _
