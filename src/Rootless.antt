-- ===== src/Rootless.antt =====
-- scripts/production-state.py: `map_rootless_id`, and what `load_contract` demands of the mapping.
pub mod Laws
pub mod Tests
use deployment.Base.{
  ℕ, ◌+◌, ◌-◌, String, Bool, true, false, not, ◌&&◌, ◌||◌, leb, ltb, eqb, Result, ok, err,
  contract_error, raise_if, if◌then◌else◌, ◌>>◌,
}

-- A Python object: an integer that is no Boolean, `negative n` for `-(n + 1)`, or anything else.
pub data Value : Type 0 where
  natural : ℕ → Value
  negative : ℕ → Value
  no_integer : Value

-- The members of the mapping that have numbers.
pub record Mapping : Type 0 where
  pub service_uid : Value
  pub service_gid : Value
  pub uid_start : Value
  pub gid_start : Value
  pub count : Value

pub data Kind : Type 0 where
  uid gid another_kind : Kind

-- `mapping[f"service_{kind}"]` and `mapping[f"{kind}_start"]`
abbrev pub service_of : Kind → Mapping → Value
service_of gid mapping = mapping.service_gid
service_of _ mapping = mapping.service_uid

abbrev pub start_of : Kind → Mapping → Value
start_of gid mapping = mapping.gid_start
start_of _ mapping = mapping.uid_start

-- `count == 65536`
abbrev pub is_count : Value → Bool
is_count (natural n) = eqb n 65536
is_count _ = false

-- The host range that `load_contract` accepts.
abbrev pub is_range : Value → Value → Bool
is_range (natural service) (natural start) =
    leb 1000 service
    && leb service 60000
    && ltb 60000 start
    && not (leb start service && ltb service (start + 65536))
    && leb (start + 65536 - 1) 4294967294
is_range _ _ = false

-- The tests of `load_contract` on the mapping.
unfoldable pub is_mapping : Mapping → Bool
is_mapping mapping =
    is_count mapping.count
    && is_range (service_of uid mapping) (start_of uid mapping)
    && is_range (service_of gid mapping) (start_of gid mapping)

abbrev message : String
message = "mapped host identity is outside the supported system range"

abbrev within : ℕ → Result ℕ
within host_id = raise_if (ltb 4294967294 host_id) message >> ok host_id

-- `start + container_id - 1`, for a container identity that is not 0
abbrev pub offset : Value → ℕ → Result ℕ
offset (natural start) container_id = within (start + container_id - 1)
offset (negative n) container_id =
    if ltb container_id (n + 2)
    then err (contract_error message)
    else within (container_id - (n + 2))
offset no_integer container_id = err (contract_error message)

abbrev pub host_of : Value → Value → ℕ → Result ℕ
host_of no_integer start container_id =
    err (contract_error "rootless mapping contains a malformed host identity")
host_of service no_integer container_id =
    err (contract_error "rootless mapping contains a malformed host identity")
host_of (natural service) start container_id =
    if eqb container_id 0 then within service else offset start container_id
host_of (negative _) start container_id =
    if eqb container_id 0 then err (contract_error message) else offset start container_id

abbrev pub mapped : Value → Mapping → Kind → Result ℕ
mapped no_integer mapping kind = err (contract_error "container identity is not an integer")
mapped (negative _) mapping kind =
    err (contract_error "container identity is outside the reviewed rootless mapping")
mapped (natural container_id) mapping kind =
    raise_if (not (is_count mapping.count) || ltb 65536 container_id)
      "container identity is outside the reviewed rootless mapping"
    >> host_of (service_of kind mapping) (start_of kind mapping) container_id

-- `map_rootless_id`
unfoldable pub map_rootless_id : Value → Mapping → Kind → Result ℕ
map_rootless_id container_id mapping another_kind =
    err (contract_error "rootless mapping identity kind is unsupported")
map_rootless_id container_id mapping uid = mapped container_id mapping uid
map_rootless_id container_id mapping gid = mapped container_id mapping gid
