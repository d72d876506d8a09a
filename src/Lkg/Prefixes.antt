-- ===== src/Lkg/Prefixes.antt =====
-- scripts/cloudfront-origin-prefix-lkg.py: `_parse_network` and `_select_prefixes`.
use deployment.Base.{
  ℕ, String, ◌<>◌, Bool, true, false, ◌||◌, List, [], ◌∷◌, none, some, Arg, exact, other, Result,
  ok, err, contract_error, raise_if, require, ◌>>=◌, ◌>>◌, if◌then◌else◌, ◌==◌, ◌/=◌, list_eq,
  nat_eq, string_eq,
}
use deployment.Base.Text.{codes, strip}
use deployment.Base.Networks.{sorted_set, texts_of}
use deployment.Base.Runtime.{Network}
use deployment.Lkg.Candidate.{service}
use deployment.Lkg.Platform.{Platform}

-- An entry of a source collection that is an object with the required keys.
pub record Entry : Type 0 where
  pub prefix : Arg String
  pub region : Arg String
  pub service : Arg String
  pub network_border_group : Arg String

-- `isinstance(value, str) and value`, and the value
abbrev pub non_empty : Arg String → String → Result String
non_empty other message = err (contract_error message)
non_empty (exact value) message = if value == "" then err (contract_error message) else ok value

-- `prefix in selected`
abbrev pub is_selected : Network → List Network → Bool
is_selected network [] = false
is_selected network (n ∷ ns) = network.text == n.text || is_selected network ns

abbrev pub is_nil {ℓ} : {A : Type ℓ} → List A → Bool
is_nil [] = true
is_nil (_ ∷ _) = false

-- A version in a message.
abbrev shown : ℕ → String
shown version = if version == 4 then "4" else "6"

module _ (P : Platform) where
  -- `_parse_network`, which gives the network whose text it returns.
  unfoldable pub parse_network : ℕ → Arg String → Result Network
  parse_network version other = err (contract_error "source CIDR is missing or ambiguous")
  parse_network version (exact value) = do
    raise_if (value == "" || strip (codes value) /= codes value)
        "source CIDR is missing or ambiguous"
    elim (P.ip_network value) [
      | none ↦ err (contract_error "source CIDR is malformed")
      | some network ↦ do
        raise_if (network.version /= version || network.text /= value)
            "source CIDR is non-canonical or wrong family"
        raise_if (network.prefixlen == 0) "source CIDR must not be a default route"
        ok network
    ]

  -- One turn of the loop in `_select_prefixes`, on what is selected before it.
  unfoldable pub select_entry : String → ℕ → Arg Entry → List Network → Result (List Network)
  unfolding parse_network
  select_entry collection version given selected = do
    entry ← require given ("source " <> collection <> " entry has an invalid schema")
    let invalid = "source " <> collection <> " entry contains an invalid value"
    _ ← non_empty entry.prefix invalid
    _ ← non_empty entry.region invalid
    offered ← non_empty entry.service invalid
    _ ← non_empty entry.network_border_group invalid
    network ← parse_network version entry.prefix
    (if offered /= service
        then ok selected
        else if is_selected network selected
        then err (contract_error "source contains duplicate selected CIDRs")
        else ok (network ∷ selected))

  unfoldable pub select_entries :
      String → ℕ → List (Arg Entry) → List Network → Result (List Network)
  unfolding select_entry
  select_entries collection version [] selected = ok selected
  select_entries collection version (entry ∷ entries) selected = do
    selected' ← select_entry collection version entry selected
    select_entries collection version entries selected'

  -- `_select_prefixes`; a collection is `other` unless it is a list.
  unfoldable pub select_prefixes : String → ℕ → Arg (List (Arg Entry)) → Result (List String)
  unfolding select_entries sorted_set
  select_prefixes collection version given = do
    entries ← require given ("source collection " <> collection <> " is missing or invalid")
    selected ← select_entries collection version entries []
    raise_if (is_nil selected)
        ("source has no " <> service <> " IPv" <> shown version <> " prefixes")
    ok (texts_of (sorted_set selected))

  -- `[_parse_network(prefix, version) for prefix in prefixes]`
  unfoldable pub parse_networks : ℕ → List (Arg String) → Result (List Network)
  unfolding parse_network
  parse_networks version [] = ok []
  parse_networks version (value ∷ values) = do
    network ← parse_network version value
    networks ← parse_networks version values
    ok (network ∷ networks)

  -- One family of prefixes in `validate_candidate`.
  unfoldable pub validate_family : ℕ → Arg (List (Arg String)) → Result (List String)
  unfolding parse_networks sorted_set
  validate_family version given = do
    values ← require given "candidate has an empty prefix family"
    raise_if (is_nil values) "candidate has an empty prefix family"
    networks ← parse_networks version values
    raise_if (texts_of networks /= texts_of (sorted_set networks))
        "candidate prefixes are not deterministic"
    ok (texts_of networks)
