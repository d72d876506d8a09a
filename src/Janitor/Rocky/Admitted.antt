-- ===== src/Janitor/Rocky/Admitted.antt =====
-- The identity that `admit_exact` gives.
use deployment.Base.{
  ◌≡◌, arith, String, Bool, true, false, Option, none, some, if◌then◌else◌, string_eq,
}
use deployment.Janitor.Call.{Reply, gave, refused, escaped}
use deployment.Janitor.Rocky.Contract.{
  Component, Resource, Labels, name_of, Candidate, owned_candidate,
}
use deployment.Janitor.Rocky.Observe.{
  admit_exact, component_path, is_placed, at_path, of_run, admitted_id, same_labels,
}

admitted_id-eq :
    (given : Option String) (id : String) → admitted_id given ≡ some id → given ≡ some id
admitted_id-eq none id e = cc e
admitted_id-eq (some given) id e = ground (arith, e)

at_path-id :
    (resource : Resource) (component : Component) (authority : Labels) (path : Reply String)
    (id : String)
    → at_path resource component authority path ≡ gave (some id)
    → resource.id ≡ some id
at_path-id resource component authority (gave path) id e =
    by_test (is_placed resource component authority path) e
  where
    by_test :
        (test : Bool)
        → gave (if test then admitted_id resource.id else none) ≡ gave (some id)
        → resource.id ≡ some id
    by_test true e = admitted_id-eq resource.id id (cc e)
    by_test false e = cc e
at_path-id resource component authority (refused message) id e = cc e
at_path-id resource component authority escaped id e = cc e

-- The identity that is admitted is the resource's.
pub admit_exact-id :
    (resource : Resource) (component : Component) (authority : Labels) (id : String)
    → admit_exact resource component authority ≡ gave (some id)
    → resource.id ≡ some id
unfolding admit_exact
admit_exact-id resource component authority id e =
    by_candidate (owned_candidate component resource) e
  where
    by_candidate :
        (candidate : Option Candidate)
        → of_run resource component authority candidate ≡ gave (some id)
        → resource.id ≡ some id
    by_candidate none e = cc e
    by_candidate (some candidate) e = by_test (same_labels candidate.labels authority) e
      where
        by_test :
            (test : Bool)
            → (if test
                then at_path resource component authority
                    (component_path component (name_of authority component))
                else gave none)
              ≡ gave (some id)
            → resource.id ≡ some id
        by_test true e = at_path-id resource component authority _ id e
        by_test false e = cc e
