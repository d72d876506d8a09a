-- ===== src/Base/Results.antt =====
-- Python objects that a `type(x) is T` test inspects, and calls that return or raise.
use Prim.Native.String.{String}
use mathlib.Core.Path.{◌≡◌, refl}
use mathlib.Core.Logic.{◌⊎◌, inl, inr}
use mathlib.Core.Bool.{Bool, true, false}
use mathlib.Core.Option.{Option, none, some}

-- What a caller hands over: a value that passes the test `type(x) is A`, or any other object.
pub data Arg {ℓ} (A : Type ℓ) : Type ℓ where
  exact : A → Arg A
  other : Arg A

-- `ContractError`, its subclass `UnsupportedCapability`, `CommitStateUncertain`, and an exception
-- of the interpreter that no caller expects, with their messages.
pub data Failure : Type 0 where
  contract_error unsupported_capability commit_state_uncertain unhandled : String → Failure

-- What a call returns, or the exception that it raises.
pub data Result {i} (Value : Type i) : Type i where
  ok : Value → Result Value
  err : Failure → Result Value

infixl 5 ◌>>=◌
abbrev pub ◌>>=◌ {i j} :
    {Value : Type i} {Next : Type j} → Result Value → (Value → Result Next) → Result Next
err failure >>= continue = err failure
ok value >>= continue = continue value

-- `if test: raise ContractError(message)`
abbrev pub raise_if : Bool → String → Result (Unit {0})
raise_if true message = err (contract_error message)
raise_if false message = ok tt

-- A statement, and what follows it.
infixl 5 ◌>>◌
abbrev pub ◌>>◌ {i} : {Next : Type i} → Result (Unit {0}) → Result Next → Result Next
check >> next = check >>= λ _. next

-- `if type(x) is not T: raise ContractError(message)`
abbrev pub require {ℓ} : {A : Type ℓ} → Arg A → String → Result A
require (exact a) message = ok a
require other message = err (contract_error message)

-- `if value is not None: check(value)`
abbrev pub optional {ℓ κ} :
    {A : Type ℓ} {B : Type κ} → (A → Result B) → Option A → Result (Option B)
optional check none = ok none
optional check (some a) = check a >>= λ b. ok (some b)

-- A field that holds `None` or a value of its type, as a caller gives it.
abbrev pub given_of {ℓ} : {A : Type ℓ} → Option A → Option (Arg A)
given_of none = none
given_of (some a) = some (exact a)

pub given_of-injective {ℓ} : {A : Type ℓ} (s t : Option A) → given_of s ≡ given_of t → s ≡ t
given_of-injective none none e = refl
given_of-injective none (some t) e = cc
given_of-injective (some s) none e = cc
given_of-injective (some s) (some t) e = cc

abbrev pub is_ok {ℓ} : {A : Type ℓ} → Result A → Bool
is_ok (ok _) = true
is_ok (err _) = false

-- To split on a call that may fail and keep the equation.
pub Result-cases {ℓ} :
    {A : Type ℓ} (m : Result A) → ((a : A) × (m ≡ ok a)) ⊎ ((e : Failure) × (m ≡ err e))
Result-cases (ok a) = inl (a, refl)
Result-cases (err e) = inr (e, refl)

-- A chain that returns has a first call that returns.
pub >>=-eq-ok {i j} :
    {Value : Type i} {Next : Type j} (first : Result Value) (continue : Value → Result Next)
    {last : Next}
    → (first >>= continue) ≡ ok last
    → (value : Value) × (first ≡ ok value) × (continue value ≡ ok last)
>>=-eq-ok (err failure) continue returns = cc
>>=-eq-ok (ok value) continue returns = (value, refl, returns)
