-- ===== src/Findings/Finishing.antt =====
-- A call of `send` comes to its end.
use deployment.Base.{
  ℕ, zero, suc, ◌≤◌, ◌≡◌, ◌≢◌, refl, arith, Bool, true, false, ◌&&◌, [], ◌∷◌, ◌++◌, leb, length,
  if◌then◌else◌,
}
use deployment.Findings.{
  Bytes, take, drop, Answer, wrote, broke, raised, Stream, State, Delivery, refused, failed,
  unfinished, write_from, flushed, stopped, record_of, send,
}

length-drop : (n : ℕ) (bytes : Bytes) → length (drop n bytes) ≤ length bytes
length-drop zero bytes = omega arith
length-drop (suc n) [] = omega arith
length-drop (suc n) (b ∷ bytes) = omega (arith, length-drop n bytes)

length-drop-suc :
    (n : ℕ) (b : ℕ) (bytes : Bytes) → leb 1 n ≡ true → length (drop n (b ∷ bytes)) ≤ length bytes
length-drop-suc zero b bytes h = cc h
length-drop-suc (suc n) b bytes h = length-drop n bytes

module _ {World : Type 0} (stream : Stream World) where
  abbrev IsEnded : Delivery × State World → Type 0
  IsEnded end = end.0 ≢ unfinished

  flushed-finishes :
      (wire : Bytes) (answer : Bool × World) → (flushed stream wire answer).0 ≢ unfinished
  flushed-finishes wire (true, w) e = cc e
  flushed-finishes wire (false, w) e = cc e

  -- One answer, if the rest comes to its end.
  answer-IsEnded :
      (fuel : ℕ) (b : ℕ) (bytes wire : Bytes) (w : World) (answer : Answer)
      → ((n : ℕ)
          → leb 1 n ≡ true
          → (write_from stream fuel (drop n (b ∷ bytes)) (wire ++ take n (b ∷ bytes)) w).0
            ≢ unfinished)
      → IsEnded (elim answer [
        | wrote n ↦
            if leb 1 n && leb n (length (b ∷ bytes))
            then write_from stream fuel (drop n (b ∷ bytes)) (wire ++ take n (b ∷ bytes)) w
            else stopped stream refused (wire ++ take n (b ∷ bytes)) w
        | broke n ↦ stopped stream refused (wire ++ take n (b ∷ bytes)) w
        | raised n ↦ stopped stream failed (wire ++ take n (b ∷ bytes)) w
      ])
  answer-IsEnded fuel b bytes wire w (broke n) again = λ e. cc e
  answer-IsEnded fuel b bytes wire w (raised n) again = λ e. cc e
  answer-IsEnded fuel b bytes wire w (wrote n) again =
      by_test (leb 1 n) (leb n (length (b ∷ bytes))) refl
    where
      by_test :
          (first second : Bool)
          → leb 1 n ≡ first
          → (if first && second
              then write_from stream fuel (drop n (b ∷ bytes)) (wire ++ take n (b ∷ bytes)) w
              else stopped stream refused (wire ++ take n (b ∷ bytes)) w).0
            ≢ unfinished
      by_test true true h = again n h
      by_test true false h = λ e. cc e
      by_test false second h = λ e. cc e

  write_from-finishes :
      (fuel : ℕ) (bytes wire : Bytes) (w : World)
      → length bytes ≤ fuel
      → (write_from stream fuel bytes wire w).0 ≢ unfinished
  unfolding write_from
  write_from-finishes fuel [] wire w le = flushed-finishes wire (stream.flush w)
  write_from-finishes zero (b ∷ bytes) wire w le = absurd (omega (arith, le))
  write_from-finishes (suc fuel) (b ∷ bytes) wire w le =
      answer-IsEnded fuel b bytes wire (stream.write (b ∷ bytes) w).1 (stream.write (b ∷ bytes) w).0
        λ n h.
          write_from-finishes fuel (drop n (b ∷ bytes)) (wire ++ take n (b ∷ bytes))
            (stream.write (b ∷ bytes) w).1 (omega (arith, le, length-drop-suc n b bytes h))

  -- However the stream answers, a call of `send` comes to its end within one turn for each byte of the
  -- record.
  pub send-finishes :
      (fuel : ℕ) (envelope : Bytes) (s : State World)
      → length (record_of envelope) ≤ fuel
      → (send stream fuel envelope s).0 ≢ unfinished
  unfolding send
  send-finishes fuel envelope s le = by_state s.usable
    where
      by_state :
          (usable : Bool)
          → (if usable
              then write_from stream fuel (record_of envelope) s.wire s.world
              else (refused, s)).0
            ≢ unfinished
      by_state true = write_from-finishes fuel (record_of envelope) s.wire s.world le
      by_state false = λ e. cc e
