-- ===== src/Endpoint/Assess/Laws.antt =====
-- What each verdict of `assess` means.
use deployment.Base.{◌≡◌, ◌≢◌, ◌↔◌, refl, true, some, arith, Arg, exact, other}
use deployment.Endpoint.State.{RoutingState, SwitchPlan}
use deployment.Endpoint.Ports.{Mutation}
use deployment.Endpoint.Assess.{
  Outcome, applied, already_satisfied, rejected, uncertain, recovery_required, committed,
  mutation_of, assess,
}

-- The state lies within the endpoint and the exposure of the plan.
pub record IsWithin (request : SwitchPlan) (observed : RoutingState) : Type 0 where
  pub endpoint : observed.endpoint ≡ request.before.endpoint
  pub exposure : observed.exposure_sha256 ≡ request.before.exposure_sha256

-- The state is what the plan leads to, made by the plan's own operation in a new generation.
pub record Committed (request : SwitchPlan) (observed : RoutingState) : Type 0 where
  pub within : IsWithin request observed
  pub target : observed.target ≡ request.target
  pub generation : observed.generation ≢ request.before.generation
  pub operation : observed.operation_id ≡ some request.operation_id

pub committed_iff :
    (request : SwitchPlan) (observed : RoutingState)
    → (committed request observed ≡ true) ↔ Committed request observed
unfolding committed
committed_iff request observed = ground arith

-- What a verdict says of the mutation that was reported and of the state that was read back.
abbrev pub Justified : SwitchPlan → Mutation → RoutingState → Outcome → Type 0
Justified request mutation observed applied =
    Committed request observed × (mutation ≢ Mutation.rejected)
Justified request mutation observed already_satisfied = ⊥
Justified request mutation observed rejected =
    IsWithin request observed
    × (mutation ≡ Mutation.rejected)
    × (observed.operation_id ≢ some request.operation_id)
Justified request mutation observed uncertain =
    (observed ≡ request.before) × (mutation ≡ Mutation.unknown)
Justified request mutation observed recovery_required =
    (Committed request observed → mutation ≡ Mutation.rejected)
    × (IsWithin request observed
        → mutation ≡ Mutation.rejected
        → observed.operation_id ≡ some request.operation_id)
    × (mutation ≡ Mutation.unknown → observed ≢ request.before)

verdict :
    (request : SwitchPlan) (mutation : Mutation) (observed : RoutingState) (outcome : Outcome)
    → (assess (exact request) (exact mutation) (exact observed)).outcome ≡ outcome
    → Justified request mutation observed outcome
unfolding assess committed
verdict request m observed applied h = ground arith
verdict request m observed already_satisfied h = ground arith
verdict request m observed rejected h = ground arith
verdict request m observed uncertain h = ground arith
verdict request m observed recovery_required h =
    (λ c. ground arith, λ w e. ground arith, λ e. ground arith)

-- The other verdicts leave nothing for recovery.
only_recovery :
    (request : SwitchPlan) (m : Mutation) (observed : RoutingState) (outcome : Outcome)
    → Justified request m observed recovery_required
    → Justified request m observed outcome
    → outcome ≡ recovery_required
only_recovery request m observed applied (c, _, _) (j, ne) = absurd (ne (c j))
only_recovery request m observed already_satisfied h j = absurd j
only_recovery request m observed rejected (_, r, _) (w, e, ne) = absurd (ne (r w e))
only_recovery request m observed uncertain (_, _, u) (e, k) = absurd (u k e)
only_recovery request m observed recovery_required h j = refl

assess_exact :
    (request : SwitchPlan) (m : Mutation) (observed : RoutingState) (outcome : Outcome)
    → Justified request m observed outcome
    → (assess (exact request) (exact m) (exact observed)).outcome ≡ outcome
unfolding assess committed
assess_exact request m observed applied h = ground arith
assess_exact request m observed already_satisfied h = absurd h
assess_exact request m observed rejected h = ground arith
assess_exact request m observed uncertain h = ground arith
assess_exact request m observed recovery_required h =
    only_recovery request m observed _ h (verdict request m observed _ refl)

-- `assess` gives an outcome exactly when that outcome is justified by the state that was read back
-- and by the mutation that was reported, an object of another type being an unknown mutation.
pub assess_iff :
    (request : SwitchPlan) (mutation : Arg Mutation) (observed : RoutingState) (outcome : Outcome)
    → ((assess (exact request) mutation (exact observed)).outcome ≡ outcome)
      ↔ Justified request (mutation_of mutation) observed outcome
unfolding assess
assess_iff request (exact m) observed outcome =
    (verdict request m observed outcome, assess_exact request m observed outcome)
assess_iff request other observed outcome = (
  verdict request Mutation.unknown observed outcome,
  assess_exact request Mutation.unknown observed outcome,
)
