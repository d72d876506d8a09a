-- ===== src/Findings/Writing.antt =====
-- What one call of `send` makes the stream take.
use deployment.Base.{
  ℕ, zero, suc, ◌≡◌, refl, sym, ap, ◌∙◌, Bool, true, false, ◌&&◌, [], ◌∷◌, ◌++◌, leb, length,
  if◌then◌else◌,
}
use mathlib.Core.List.{append_assoc, append-nil}
use deployment.Findings.{
  Bytes, take, drop, Answer, wrote, broke, raised, Stream, State, Delivery, delivered, refused,
  failed, write_from, flushed, stopped,
}

take-drop : (n : ℕ) (bytes : Bytes) → take n bytes ++ drop n bytes ≡ bytes
take-drop zero bytes = refl
take-drop (suc n) [] = refl
take-drop (suc n) (b ∷ bytes) = ap (λ l. b ∷ l) (take-drop n bytes)

-- What is left of a record, and whether the adapter is usable, by how a call ends.
abbrev pub Fate : Delivery → Bytes → Bool → Type 0
Fate delivered left usable = (left ≡ []) × (usable ≡ true)
Fate _ left usable = usable ≡ false

module _ {World : Type 0} (stream : Stream World) where
  -- A call took the front of the bytes.
  pub record Took (bytes wire : Bytes) (end : Delivery × State World) : Type 0 where
    pub taken : Bytes
    pub left : Bytes
    pub whole : taken ++ left ≡ bytes
    pub grown : end.1.wire ≡ wire ++ taken
    pub fate : Fate end.0 left end.1.usable

  more_taken :
      (n : ℕ) (bytes wire : Bytes) (end : Delivery × State World)
      → Took (drop n bytes) (wire ++ take n bytes) end
      → Took bytes wire end
  more_taken n bytes wire end h = record {
    taken = take n bytes ++ h.taken;
    left = h.left;
    whole =
        append_assoc (take n bytes) h.taken h.left
        ∙ ap (λ l. take n bytes ++ l) h.whole
        ∙ take-drop n bytes;
    grown = h.grown ∙ append_assoc wire (take n bytes) h.taken;
    fate = h.fate;
  }

  stopped_at :
      (n : ℕ) (bytes wire : Bytes) (end : Delivery) (w : World)
      → ((left : Bytes) → Fate end left false)
      → Took bytes wire (end, record { usable = false; wire = wire ++ take n bytes; world = w })
  stopped_at n bytes wire end w fate = record {
    taken = take n bytes;
    left = drop n bytes;
    whole = take-drop n bytes;
    grown = refl;
    fate = fate (drop n bytes);
  }

  -- What one answer leads to, if the rest goes on well.
  answer-Took :
      (fuel : ℕ) (bytes wire : Bytes) (w : World) (answer : Answer)
      → ((n : ℕ)
          → Took
              (drop n bytes)
              (wire ++ take n bytes)
              (write_from stream fuel (drop n bytes) (wire ++ take n bytes) w))
      → Took bytes wire (elim answer [
        | wrote n ↦
            if leb 1 n && leb n (length bytes)
            then write_from stream fuel (drop n bytes) (wire ++ take n bytes) w
            else stopped stream refused (wire ++ take n bytes) w
        | broke n ↦ stopped stream refused (wire ++ take n bytes) w
        | raised n ↦ stopped stream failed (wire ++ take n bytes) w
      ])
  answer-Took fuel bytes wire w (broke n) again = stopped_at n bytes wire refused w (λ _. refl)
  answer-Took fuel bytes wire w (raised n) again = stopped_at n bytes wire failed w (λ _. refl)
  answer-Took fuel bytes wire w (wrote n) again = by_test (leb 1 n && leb n (length bytes))
    where
      by_test :
          (good : Bool)
          → Took bytes wire (
              if good
              then write_from stream fuel (drop n bytes) (wire ++ take n bytes) w
              else stopped stream refused (wire ++ take n bytes) w)
      by_test true = more_taken n bytes wire _ (again n)
      by_test false = stopped_at n bytes wire refused w (λ _. refl)

  pub write_from-Took :
      (fuel : ℕ) (bytes wire : Bytes) (w : World)
      → Took bytes wire (write_from stream fuel bytes wire w)
  unfolding write_from
  write_from-Took fuel [] wire w = ended (stream.flush w)
    where
      ended : (answer : Bool × World) → Took [] wire (flushed stream wire answer)
      ended (true, w) = record {
        taken = [];
        left = [];
        whole = refl;
        grown = sym (append-nil wire);
        fate = (refl, refl);
      }
      ended (false, w) = record {
        taken = [];
        left = [];
        whole = refl;
        grown = sym (append-nil wire);
        fate = refl;
      }
  write_from-Took zero (b ∷ bytes) wire w = record {
    taken = [];
    left = b ∷ bytes;
    whole = refl;
    grown = sym (append-nil wire);
    fate = refl;
  }
  write_from-Took (suc fuel) (b ∷ bytes) wire w =
      answer-Took fuel (b ∷ bytes) wire (stream.write (b ∷ bytes) w).1
        (stream.write (b ∷ bytes) w).0
        λ n.
          write_from-Took fuel (drop n (b ∷ bytes)) (wire ++ take n (b ∷ bytes))
            (stream.write (b ∷ bytes) w).1
