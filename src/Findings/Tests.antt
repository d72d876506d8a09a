-- ===== src/Findings/Tests.antt =====
-- Runs of the adapter over streams that take a few bytes at a time.
use deployment.Base.{ℕ, suc, ◌≡◌, ◌≢◌, refl, arith, true, List, [], ◌∷◌, if◌then◌else◌, eqb}
use deployment.Findings.{
  Bytes, wrote, raised, Stream, delivered, refused, failed, unfinished, write_from, send, send_all,
}
use deployment.Findings.Framing.{Framed, delivered_of, state, send_all-Framed}
use deployment.Findings.Finishing.{send-finishes}

-- A stream that takes one byte at a time and fails at the third call.
abbrev failing : Stream ℕ
failing = record {
  write = λ bytes calls. ((if eqb calls 3 then raised 0 else wrote 1), suc calls);
  flush = λ calls. (true, calls);
}

abbrev envelopes : List Bytes
envelopes = (1 ∷ []) ∷ (2 ∷ 3 ∷ []) ∷ (4 ∷ []) ∷ []

-- The first record is delivered, the second is cut off after its first byte, the third is refused.
ends :
    (send_all failing 9 envelopes (state failing true [] 0)).0 ≡ delivered ∷ failed ∷ refused ∷ []
unfolding send_all send write_from
ends = refl

taken : (send_all failing 9 envelopes (state failing true [] 0)).1.wire ≡ 1 ∷ 10 ∷ 2 ∷ []
unfolding send_all send write_from
taken = refl

send_all-Framed_example :
    Framed failing [] envelopes
      (delivered_of failing envelopes (send_all failing 9 envelopes (state failing true [] 0)).0)
      (send_all failing 9 envelopes (state failing true [] 0)).1
send_all-Framed_example = send_all-Framed failing 9 envelopes [] 0

send-finishes_example : (send failing 3 (2 ∷ 3 ∷ []) (state failing true [] 0)).0 ≢ unfinished
send-finishes_example = send-finishes failing 3 (2 ∷ 3 ∷ []) (state failing true [] 0) (omega arith)
