-- ===== src/Firewall/Prefixes.antt =====
-- scripts/provider-firewall-contract.py: `_identity`, `_sha256`, `_supported_operations` and
-- `_prefixes`.
use deployment.Base.{
  ℕ, String, ◌<>◌, Bool, true, false, not, ◌&&◌, ◌||◌, List, [], ◌∷◌, none, some, ltb, all, Arg,
  exact, other, Result, ok, err, contract_error, raise_if, require, ◌>>=◌, ◌>>◌, ◌==◌, ◌/=◌,
  list_eq, nat_eq, string_eq,
}
use deployment.Base.Text.{codes, strip, utf8_length}
use deployment.Base.Networks.{sorted_set, texts_of}
use deployment.Base.Runtime.{Network, Runtime}
use deployment.Capability.Format.{max_identity_bytes, matching, sha256}
use deployment.Capability.Target.{Operations}
use deployment.Capability.Request.{is_empty}

-- `_sha256`
abbrev pub digest_field : String → Arg String → Result String
digest_field label = matching sha256 (label <> " is invalid")

-- `_supported_operations`; `other` is no frozenset, or has a member that is no `Operation`.
unfoldable pub supported_operations : Arg Operations → Result Operations
supported_operations given = do
  operations ← require given "adapter supported operations are invalid"
  raise_if (is_empty operations) "adapter supported operations are invalid"
  ok operations

abbrev is_nil : List (Arg String) → Bool
is_nil [] = true
is_nil (_ ∷ _) = false

module _ (R : Runtime) where
  -- `_identity`
  unfoldable pub identity : String → Arg String → Result String
  identity label other = err (contract_error (label <> " is invalid"))
  identity label (exact value) = do
    raise_if
        (codes value == []
          || codes value /= strip (codes value)
          || not (all R.printable (codes value))
          || ltb max_identity_bytes (utf8_length (codes value)))
        (label <> " is invalid")
    ok value

  -- One value of the loop in `_prefixes`.
  unfoldable pub network_of : ℕ → Arg String → Result Network
  network_of version other = err (contract_error "firewall CIDR is invalid")
  network_of version (exact value) = do
    raise_if (strip (codes value) /= codes value) "firewall CIDR is invalid"
    elim (R.ip_network value) [
      | none ↦ err (contract_error "firewall CIDR is malformed")
      | some network ↦ do
        raise_if (network.version /= version || network.text /= value || network.prefixlen == 0)
            "firewall CIDR is wrong-family, non-canonical, or default"
        ok network
    ]

  -- The loop in `_prefixes`, which keeps the text of each value.
  unfoldable pub networks_of : ℕ → List (Arg String) → Result (List Network)
  unfolding network_of
  networks_of version [] = ok []
  networks_of version (value ∷ values) = do
    network ← network_of version value
    networks ← networks_of version values
    ok (network ∷ networks)

  -- `_prefixes`; the values are `other` unless they are a tuple.
  unfoldable pub prefixes : Arg (List (Arg String)) → ℕ → Bool → Result (List String)
  unfolding networks_of sorted_set
  prefixes other version required = err (contract_error "firewall prefix family is invalid")
  prefixes (exact values) version required = do
    raise_if (required && is_nil values) "firewall prefix family is invalid"
    networks ← networks_of version values
    raise_if (texts_of (sorted_set networks) /= texts_of networks)
        "firewall CIDRs are duplicate or non-deterministic"
    ok (texts_of networks)
