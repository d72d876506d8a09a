-- ===== src/Findings.antt =====
-- scripts/public_findings.py: `stream_adapter`; Admission has `accept`, Notification `notify`.
pub mod Writing
pub mod Framing
pub mod Finishing
pub mod Admission
pub mod Notification
pub mod Tests
use deployment.Base.{
  ℕ, zero, suc, ◌+◌, ◌-◌, Bool, true, false, not, ◌&&◌, List, [], ◌∷◌, ◌++◌, Option, none, some,
  leb, length, if◌then◌else◌,
}

abbrev pub Bytes : Type 0
Bytes = List ℕ

abbrev pub take : ℕ → Bytes → Bytes
take zero bytes = []
take (suc n) [] = []
take (suc n) (b ∷ bytes) = b ∷ take n bytes

abbrev pub drop : ℕ → Bytes → Bytes
drop zero bytes = bytes
drop (suc n) [] = []
drop (suc n) (b ∷ bytes) = drop n bytes

-- What `stream.write` does with the bytes that it is given: it takes so many from the front and
-- returns their number; or it takes so many and returns another value or raises.
pub data Answer : Type 0 where
  wrote broke raised : ℕ → Answer

-- The stream of the operator, with its answers.
pub record Stream (World : Type 0) : Type 0 where
  pub write : Bytes → World → Answer × World
  -- `stream.flush()`, which raises or not
  pub flush : World → Bool × World

-- `usable`, what the stream has taken, and the rest.
pub record State (World : Type 0) : Type 0 where
  pub usable : Bool
  pub wire : Bytes
  pub world : World

-- How a call of `send` ends; `unfinished` where the fuel is used up.
pub data Delivery : Type 0 where
  delivered refused failed unfinished : Delivery

-- `record`
abbrev pub record_of : Bytes → Bytes
record_of envelope = envelope ++ (b'\n' ∷ [])

module _ {World : Type 0} (stream : Stream World) where
  abbrev pub flushed : Bytes → Bool × World → Delivery × State World
  flushed wire (true, w) = (delivered, record { usable = true; wire = wire; world = w })
  flushed wire (false, w) = (failed, record { usable = false; wire = wire; world = w })

  abbrev pub stopped : Delivery → Bytes → World → Delivery × State World
  stopped end wire w = (end, record { usable = false; wire = wire; world = w })

  -- The loop of `send` over the bytes from `offset` on, and what follows it.
  unfoldable pub write_from : ℕ → Bytes → Bytes → World → Delivery × State World
  write_from fuel [] wire w = flushed wire (stream.flush w)
  write_from zero (b ∷ bytes) wire w = stopped unfinished wire w
  write_from (suc fuel) (b ∷ bytes) wire w = elim (stream.write (b ∷ bytes) w).0 [
    | wrote n ↦
        if leb 1 n && leb n (length (b ∷ bytes))
        then write_from fuel (drop n (b ∷ bytes)) (wire ++ take n (b ∷ bytes))
            (stream.write (b ∷ bytes) w).1
        else stopped refused (wire ++ take n (b ∷ bytes)) (stream.write (b ∷ bytes) w).1
    | broke n ↦ stopped refused (wire ++ take n (b ∷ bytes)) (stream.write (b ∷ bytes) w).1
    | raised n ↦ stopped failed (wire ++ take n (b ∷ bytes)) (stream.write (b ∷ bytes) w).1
  ]

  -- `send`
  unfoldable pub send : ℕ → Bytes → State World → Delivery × State World
  unfolding write_from
  send fuel envelope s =
      if s.usable then write_from fuel (record_of envelope) s.wire s.world else (refused, s)

  -- Several calls, one after the other.
  unfoldable pub send_all : ℕ → List Bytes → State World → List Delivery × State World
  unfolding send
  send_all fuel [] s = ([], s)
  send_all fuel (envelope ∷ rest) s =
      let (end, s1) = send fuel envelope s in
      let (ends, s2) = send_all fuel rest s1 in (end ∷ ends, s2)
