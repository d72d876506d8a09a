-- ===== src/Publication/Act.antt =====
-- Computations on the disk whose every call may succeed, raise, or be the last before a crash.
pub mod Rules
use deployment.Base.{String, Bool, true, false, List, [], ◌∷◌}
use deployment.Publication.Disk.{Disk}

pub data Failure : Type 0 where
  -- `ValueError` with its message
  value_error : String → Failure
  -- an exception of the system or of a callback
  system_error : Failure

-- How a computation ends. Nothing of the process runs after a crash.
pub data Outcome (A : Type 0) : Type 0 where
  returned : A → Outcome A
  raised : Failure → Outcome A
  crashed : Outcome A

-- What happens to the next call. Where the list ends all goes well.
pub data Verdict : Type 0 where
  done fails crashes : Verdict

abbrev pub Act : Type 0 → Type 0
Act A = Disk → List Verdict → Outcome A × Disk × List Verdict

abbrev pub pure : {A : Type 0} → A → Act A
pure a d s = (returned a, d, s)

abbrev pub raise : {A : Type 0} → Failure → Act A
raise e d s = (raised e, d, s)

abbrev pub next :
    {A B : Type 0} → Outcome A × Disk × List Verdict → (A → Act B) → Outcome B × Disk × List Verdict
next (returned a, d, s) k = k a d s
next (raised e, d, s) k = (raised e, d, s)
next (crashed, d, s) k = (crashed, d, s)

infixl 5 ◌>>=◌ ◌>>◌
abbrev pub ◌>>=◌ : {A B : Type 0} → Act A → (A → Act B) → Act B
◌>>=◌ m k d s = next (m d s) k

abbrev pub ◌>>◌ : {B : Type 0} → Act (Unit {0}) → Act B → Act B
m >> k = m >>= λ _. k

-- One call of the system or of a callback, with its effect if it returns.
unfoldable pub attempt : (Disk → Disk) → Act (Unit {0})
attempt effect d [] = (returned tt, effect d, [])
attempt effect d (done ∷ s) = (returned tt, effect d, s)
attempt effect d (fails ∷ s) = (raised system_error, d, s)
attempt effect d (crashes ∷ s) = (crashed, d, s)

-- A call with no effect on the disk.
abbrev pub call : Act (Unit {0})
call = attempt (λ d. d)

abbrev pub get : {A : Type 0} → (Disk → Act A) → Act A
get f d s = f d d s

abbrev pub when : Bool → Act (Unit {0}) → Act (Unit {0})
when true m = m
when false m = pure tt

-- `raise ValueError(message)` under a test
abbrev pub raise_if : Bool → String → Act (Unit {0})
raise_if true message = raise (value_error message)
raise_if false message = pure tt

-- After the handler of an exception has returned, the exception goes on.
abbrev pub reraise :
    {A : Type 0}
    → Failure
    → Outcome (Unit {0}) × Disk × List Verdict
    → Outcome A × Disk × List Verdict
reraise e (returned _, d, s) = (raised e, d, s)
reraise e (raised e', d, s) = (raised e', d, s)
reraise e (crashed, d, s) = (crashed, d, s)

abbrev pub handled :
    {A : Type 0}
    → Outcome A × Disk × List Verdict
    → Act (Unit {0})
    → Outcome A × Disk × List Verdict
handled (returned a, d, s) handler = (returned a, d, s)
handled (raised e, d, s) handler = reraise e (handler d s)
handled (crashed, d, s) handler = (crashed, d, s)

-- `try: body except BaseException: handler; raise`
abbrev pub on_error : {A : Type 0} → Act A → Act (Unit {0}) → Act A
on_error body handler d s = handled (body d s) handler

abbrev pub keep :
    {A : Type 0} → A → Outcome (Unit {0}) × Disk × List Verdict → Outcome A × Disk × List Verdict
keep a (returned _, d, s) = (returned a, d, s)
keep a (raised e, d, s) = (raised e, d, s)
keep a (crashed, d, s) = (crashed, d, s)

abbrev pub ended :
    {A : Type 0}
    → Outcome A × Disk × List Verdict
    → Act (Unit {0})
    → Outcome A × Disk × List Verdict
ended (returned a, d, s) last = keep a (last d s)
ended (raised e, d, s) last = reraise e (last d s)
ended (crashed, d, s) last = (crashed, d, s)

-- `try: body finally: last`
abbrev pub finally : {A : Type 0} → Act A → Act (Unit {0}) → Act A
finally body last d s = ended (body d s) last
