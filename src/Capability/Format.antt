-- ===== src/Capability/Format.antt =====
-- scripts/provider-capability-contract.py: `_identity`, `_matches` and the patterns.
-- `printable` is CPython's table of printable code points, `str.isprintable` of one character.
pub mod Laws
use deployment.Base.{
  ℕ, ◌+◌, String, ◌<>◌, Bool, true, false, not, ◌||◌, List, [], ◌∷◌, ltb, all, if◌then◌else◌, Arg,
  exact, other, Result, ok, err, contract_error, raise_if, ◌>>=◌, ◌>>◌, ◌==◌, ◌/=◌, list_eq, nat_eq,
}
use deployment.Base.Text.{codes, strip, utf8_length, is_hex_of_length, is_diagnostic}

abbrev pub max_identity_bytes : ℕ
max_identity_bytes = 4096

-- A value that passes is the text itself.
unfoldable pub identity : (ℕ → Bool) → String → Arg String → Result String
identity printable label other =
    err (contract_error (label <> " must be one explicit non-empty identity"))
identity printable label (exact value) = do
  raise_if (codes value == [] || codes value /= strip (codes value))
      (label <> " must be one explicit non-empty identity")
  raise_if (not (all printable (codes value)) || ltb max_identity_bytes (utf8_length (codes value)))
      (label <> " is outside the bounded identity format")
  ok value

-- `if not _matches(pattern, value): raise ContractError(message)`; what passes is the text itself.
unfoldable pub matching : (List ℕ → Bool) → String → Arg String → Result String
matching pattern message other = err (contract_error message)
matching pattern message (exact value) =
    if pattern (codes value) then ok value else err (contract_error message)

-- `SHA1`, `SHA256` and `DIAGNOSTIC`
abbrev pub sha1 : List ℕ → Bool
sha1 = is_hex_of_length 40

abbrev pub sha256 : List ℕ → Bool
sha256 = is_hex_of_length 64

abbrev pub diagnostic : List ℕ → Bool
diagnostic = is_diagnostic true
