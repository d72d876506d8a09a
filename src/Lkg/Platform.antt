-- ===== src/Lkg/Platform.antt =====
-- scripts/cloudfront-origin-prefix-lkg.py: what the script takes from the interpreter.
use deployment.Base.{ℕ, String, Option}
use deployment.Base.Json.{Json}
use deployment.Base.Runtime.{Network}

-- A point in time is the number of seconds after `datetime.min`; `none` is one of the exceptions
-- that `_validate_provenance` turns into a `ContractError`.
pub record Platform : Type 0 where
  -- `ipaddress.ip_network(value, strict=True)`; `none` is a `ValueError`
  pub ip_network : String → Option Network
  -- `datetime.fromtimestamp(int(value), UTC)`
  pub from_timestamp : String → Option ℕ
  -- `datetime.strptime(value, "%Y-%m-%d-%H-%M-%S")`
  pub from_date : String → Option ℕ
  -- `datetime.strptime(value, "%Y-%m-%dT%H:%M:%SZ")`
  pub from_stamp : String → Option ℕ
  -- SHA-256 over `_canonical_bytes`, in hexadecimal
  pub digest : Json → String
  -- the length of `_canonical_bytes`
  pub size : Json → ℕ
