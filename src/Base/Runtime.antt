-- ===== src/Base/Runtime.antt =====
-- What the contracts take from the interpreter: the table behind `str.isprintable`, the module
-- `ipaddress`, and SHA-256 over the canonical text of a document.
use deployment.Base.{ℕ, String, Bool, Option}
use deployment.Base.Json.{Json}

-- `ipaddress.ip_network(value, strict=True)`, by what the contracts read of it.
pub record Network : Type 0 where
  pub version : ℕ
  -- `str(network)`
  pub text : String
  -- `network.network_address.packed`, as one number
  pub packed : ℕ
  pub prefixlen : ℕ

pub record Runtime : Type 0 where
  -- `str.isprintable` of one character
  pub printable : ℕ → Bool
  -- `none` is a `ValueError`
  pub ip_network : String → Option Network
  -- `hashlib.sha256` of `json.dumps` with sorted keys, in hexadecimal
  pub digest : Json → String
