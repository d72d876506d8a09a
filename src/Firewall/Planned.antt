-- ===== src/Firewall/Planned.antt =====
-- What a mutation plan takes from the accepted document and from the observation.
use mathlib.Core.Path.{subst}
use mathlib.Core.List.{map}
use deployment.Base.{
  ℕ, ◌≡◌, ◌↔◌, refl, sym, String, false, List, [], ◌∷◌, none, some, arith, exact, ok, Result-cases,
  inl, inr, if◌then◌else◌,
}
use deployment.Base.Runtime.{Network, Runtime}
use deployment.Capability.Target.{ResourceTarget}
use deployment.Capability.Request.{ExecutionAuthority}
use deployment.Lkg.Candidate.{Candidate}
use deployment.Base.Networks.{texts_of}
use deployment.Firewall.Prefixes.{network_of, networks_of, prefixes}
use deployment.Firewall.Types.{
  no_mutation, replace_owned, current, FirewallIntent, FirewallPolicy, FirewallObservation,
  revision, FirewallPlan, firewall_policy, firewall_plan,
}
use deployment.Firewall.Observe.{admit_observation}
use deployment.Firewall.Observed.{Observed, admit_observation-Observed, SameResource}
use deployment.Firewall.Plan.{owns, desired_policy, target_at, plan}
use deployment.Firewall.Verify.{policy_of}
use deployment.Firewall.Recovery.{owns_iff, target_at-same}

module _ (R : Runtime) where
  network_of-text :
      (version : ℕ) (value : String) (n : Network)
      → network_of R version (exact value) ≡ ok n
      → n.text ≡ value
  unfolding network_of
  network_of-text version value n h = ground arith

  networks_of-texts :
      (version : ℕ) (values : List String) (ns : List Network)
      → networks_of R version (map exact values) ≡ ok ns
      → texts_of ns ≡ values
  unfolding networks_of
  networks_of-texts version [] ns h = ground arith
  networks_of-texts version (v ∷ values) ns h =
      elim (Result-cases (network_of R version (exact v))) [
        | inr (f, e) ↦ absurd (ground arith)
        | inl (n, e) ↦ elim (Result-cases (networks_of R version (map exact values))) [
          | inr (f, e') ↦ absurd (ground arith)
          | inl (ms, e') ↦
              let first = network_of-text version v n e in
              let rest = networks_of-texts version values ms e' in ground arith
        ]
      ]

  prefixes-same :
      (version : ℕ) (values texts : List String)
      → prefixes R (exact (map exact values)) version false ≡ ok texts
      → texts ≡ values
  unfolding prefixes
  prefixes-same version values texts h =
      elim (Result-cases (networks_of R version (map exact values))) [
        | inr (f, e) ↦ absurd (ground arith)
        | inl (ns, e) ↦ let same = networks_of-texts version values ns e in ground (arith, same)
      ]

  -- The policy that is desired has the prefixes of the accepted document.
  pub record IsDesired (intent : FirewallIntent) (c : Candidate) (d : FirewallPolicy) : Type 0 where
    pub protocol : d.protocol ≡ intent.origin_protocol
    pub port : d.port ≡ intent.origin_port
    pub ipv4 : d.ipv4_sources ≡ c.ipv4_prefixes
    pub ipv6 : d.ipv6_sources ≡ c.ipv6_prefixes

  desired_policy-IsDesired :
      (intent : FirewallIntent) (c : Candidate) (d : FirewallPolicy)
      → desired_policy R (exact intent) c ≡ ok d
      → IsDesired intent c d
  unfolding desired_policy firewall_policy
  desired_policy-IsDesired intent c d h =
      elim (Result-cases (prefixes R (exact (map exact c.ipv4_prefixes)) 4 false)) [
        | inr (f, e) ↦ absurd (ground arith)
        | inl (v4, e) ↦
            elim (Result-cases (prefixes R (exact (map exact c.ipv6_prefixes)) 6 false)) [
              | inr (f, e') ↦ absurd (ground arith)
              | inl (v6, e') ↦
                  let same4 = prefixes-same 4 c.ipv4_prefixes v4 e in
                  let same6 = prefixes-same 6 c.ipv6_prefixes v6 e' in ground (arith, same4, same6)
            ]
      ]

-- What a plan says, from the intent, the accepted document and the observation that it rests on.
pub record IsPlanFor (R : Runtime) (intent : FirewallIntent) (c : Candidate)
    (o : FirewallObservation) (p : FirewallPlan) : Type 0 where
  pub desired : IsDesired R intent c p.desired
  pub accepted : p.accepted_lkg_identity ≡ c.candidate_sha256
  pub idle : (p.action ≡ no_mutation) ↔ (policy_of o.owned ≡ some p.desired)
  pub prior : p.prior_owned ≡ o.owned
  pub version : p.target.expected_version ≡ revision o
  pub resource : SameResource p.target o.request.target
  pub preserved : p.preserved_state_sha256 ≡ o.preserved_state_sha256
  pub access : p.operator_access ≡ o.operator_access

module _ (R : Runtime) (intent : FirewallIntent) (c : Candidate) (o : FirewallObservation)
    (d : FirewallPolicy) (t : ResourceTarget) where
  drafted_plan : FirewallPlan
  drafted_plan = record {
    action = if owns d o.owned then no_mutation else replace_owned;
    target = t;
    adapter_id = o.request.adapter_id;
    source_revision = o.request.source_revision;
    supported_operations = o.supported_operations;
    accepted_lkg_identity = c.candidate_sha256;
    desired = d;
    prior_owned = o.owned;
    preserved_state_sha256 = o.preserved_state_sha256;
    operator_access = o.operator_access;
  }

  drafted_plan-IsPlanFor :
      desired_policy R (exact intent) c ≡ ok d
      → target_at R o ≡ ok t
      → IsPlanFor R intent c o drafted_plan
  unfolding drafted_plan
  drafted_plan-IsPlanFor wanted at =
      let (version, same) = target_at-same R o t at in
      record {
        desired = desired_policy-IsDesired R intent c d wanted;
        accepted = refl;
        idle = ground (arith, owns_iff d o);
        prior = refl;
        version = version;
        resource = same;
        preserved = refl;
        access = refl;
      }

firewall_plan-same : (R : Runtime) (q p : FirewallPlan) → firewall_plan R q ≡ ok p → p ≡ q
unfolding firewall_plan
firewall_plan-same R q p h = ground arith

-- A plan rests on an authorized current observation, and desires the prefixes of the accepted
-- document under the intent. It is idle exactly if the owned policy is the desired one already, it is
-- bound to the version that was read, and it records what it found and must preserve.
pub plan_sound :
    (R : Runtime) (intent : FirewallIntent) (c : Candidate) (o : FirewallObservation)
    (a : ExecutionAuthority) (p : FirewallPlan)
    → plan R (exact intent) (exact (ok (some c))) (exact o) (exact a) ≡ ok p
    → Observed R o a current none none × IsPlanFor R intent c o p
unfolding plan drafted_plan
plan_sound R intent c o a p h =
    elim (Result-cases (admit_observation R (exact o) (exact a) current none none)) [
      | inr (f, e) ↦ absurd (ground arith)
      | inl (now, e) ↦
          let (kept, seen) = admit_observation-Observed R o a current none none now e in
          elim (Result-cases (desired_policy R (exact intent) c)) [
            | inr (f, e') ↦ absurd (ground arith)
            | inl (d, e') ↦ elim (Result-cases (target_at R o)) [
              | inr (f, e'') ↦ absurd (ground (arith, kept))
              | inl (t, e'') ↦
                  let made : firewall_plan R (drafted_plan R intent c o d t) ≡ ok p =
                    ground (arith, kept) in
                  (
                    seen,
                    subst (IsPlanFor R intent c o) (sym (firewall_plan-same R _ p made))
                        (drafted_plan-IsPlanFor R intent c o d t e' e''),
                  )
            ]
          ]
    ]
