-- ===== src/Janitor/Patterns.antt =====
-- The patterns that both janitors demand of a name or a label, and `int` of decimal digits.
use deployment.Base.{
  Option, none, some, ℕ, ◌+◌, ◌*◌, ◌-◌, String, Bool, true, false, ◌&&◌, List, [], ◌∷◌, leb, eqb,
  length, if◌then◌else◌,
}
use deployment.Base.Text.{codes, is_decimal, is_digit, is_hex_of_length}

-- `[1-9][0-9]{0,n-1}`
abbrev pub is_number : ℕ → List ℕ → Bool
is_number n s = is_decimal s && leb (length s) n

-- `RUN_ID`, `RUN_ATTEMPT`, `SHA` and `EPOCH`
abbrev pub is_run_id : String → Bool
is_run_id s = is_number 20 (codes s)

abbrev pub is_run_attempt : String → Bool
is_run_attempt s = is_number 3 (codes s)

abbrev pub is_sha : String → Bool
is_sha s = is_hex_of_length 40 (codes s)

abbrev pub is_epoch : String → Bool
is_epoch s = is_decimal (codes s) && eqb (length (codes s)) 10

-- `int(text)` of decimal digits
unfoldable pub value_of : ℕ → List ℕ → ℕ
value_of n [] = n
value_of n (c ∷ s) = value_of (10 * n + (c - b'0')) s

abbrev pub int : String → ℕ
int s = value_of 0 (codes s)

-- What is left after a prefix.
unfoldable pub after_prefix : List ℕ → List ℕ → List ℕ × Bool
after_prefix [] s = (s, true)
after_prefix (_ ∷ _) [] = ([], false)
after_prefix (p ∷ ps) (c ∷ s) =
    let rest = after_prefix ps s in if eqb p c then rest else ([], false)

unfoldable pub digits : List ℕ → List ℕ
digits [] = []
digits (c ∷ s) = let rest = digits s in if is_digit c then c ∷ rest else []

unfoldable pub after_digits : List ℕ → List ℕ
after_digits [] = []
after_digits (c ∷ s) = let rest = after_digits s in if is_digit c then rest else c ∷ s

-- What follows a value that may be missing.
infixl 5 ◌>>=◌
abbrev pub ◌>>=◌ {ℓ κ} : {A : Type ℓ} {B : Type κ} → Option A → (A → Option B) → Option B
none >>= continue = none
some a >>= continue = continue a
