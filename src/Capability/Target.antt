-- ===== src/Capability/Target.antt =====
-- scripts/provider-capability-contract.py: `Operation` and `ResourceTarget`.
use deployment.Base.{ℕ, String, Bool, Option, Arg, Result, ok, optional, ◌>>=◌, Eq, string_dec}
use deployment.Capability.Format.{identity}

pub data Operation : Type 0 where
  create inspect rebuild delete : Operation

pub record ResourceTarget : Type 0 where
  pub provider : String
  pub scope : String
  pub requested_key : String
  pub provider_resource_id : Option String
  pub expected_version : Option String

-- A set of operations, by its members. `==` on it is Python's equality of sets.
pub record Operations : Type 0 where
  pub has_create : Bool
  pub has_inspect : Bool
  pub has_rebuild : Bool
  pub has_delete : Bool

-- `operation in operations`
abbrev pub contains : Operations → Operation → Bool
contains s create = s.has_create
contains s inspect = s.has_inspect
contains s rebuild = s.has_rebuild
contains s delete = s.has_delete

unfoldable pub Operation-discrete : Discrete Operation
Operation-discrete = hlevel

unfoldable pub Operations-discrete : Discrete Operations
Operations-discrete = hlevel

unfoldable pub ResourceTarget-discrete : Discrete ResourceTarget
ResourceTarget-discrete = hlevel string_dec

instance unfoldable pub operation_eq : Eq Operation
unfolding Operation-discrete
operation_eq = record { dec = Operation-discrete }

instance unfoldable pub operations_eq : Eq Operations
unfolding Operations-discrete
operations_eq = record { dec = Operations-discrete }

instance unfoldable pub target_eq : Eq ResourceTarget
unfolding ResourceTarget-discrete string_dec
target_eq = record { dec = ResourceTarget-discrete }

-- The fields of a target as a caller gives them.
pub record TargetFields : Type 0 where
  pub provider : Arg String
  pub scope : Arg String
  pub requested_key : Arg String
  pub provider_resource_id : Option (Arg String)
  pub expected_version : Option (Arg String)

module _ (printable : ℕ → Bool) where
  -- `ResourceTarget(...)`: the checks of `__post_init__` on the fields as given.
  unfoldable pub resource_target :
      Arg String
      → Arg String
      → Arg String
      → Option (Arg String)
      → Option (Arg String)
      → Result ResourceTarget
  resource_target provider scope requested_key provider_resource_id expected_version = do
    provider' ← identity printable "provider" provider
    scope' ← identity printable "provider scope" scope
    requested_key' ← identity printable "requested target key" requested_key
    resource' ← optional (identity printable "provider resource identity") provider_resource_id
    version' ← optional (identity printable "expected provider resource version") expected_version
    ok (record {
      provider = provider';
      scope = scope';
      requested_key = requested_key';
      provider_resource_id = resource';
      expected_version = version';
    })
