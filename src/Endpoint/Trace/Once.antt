-- ===== src/Endpoint/Trace/Once.antt =====
-- A plan is dispatched at most once over any sequence of executions, if the authority grants each
-- claim once.
use mathlib.Core.Path.{subst}
use mathlib.Core.Logic.{if_pos, if_neg}
use deployment.Base.{
  ℕ, suc, ◌≤◌, ◌≡◌, refl, String, Bool, true, false, List, [], ◌∷◌, arith, Arg, exact, other, ◌==◌,
  string_eq, if◌then◌else◌, Bool-cases, inl, inr,
}
use deployment.Endpoint.State.{Endpoint, SwitchPlan, RoutingState-discrete}
use deployment.Endpoint.Ports.{Ports, Attempt, returned, raised}
use deployment.Endpoint.Assess.{committed}
use deployment.Endpoint.Switch.{
  execute, reconcile, reauthorized, dispatch, resolve, proceed, Inspection, seen, refused,
  unavailable, validated, authorized,
}
use deployment.Endpoint.Trace.{Call, switch, Logged, traced}

-- The owner's registry of claims: a claim is granted for an operation that is not claimed, which it
-- then is, and a claim is never forgotten.
pub record ClaimsOnce (P : Ports) : Type 0 where
  pub claimed : P.World → String → Bool
  pub grants :
      (r : SwitchPlan) (w : P.World)
      → (P.claim_dispatch r w).0 ≡ returned (exact true)
      → (claimed w r.operation_id ≡ false)
        × (claimed (P.claim_dispatch r w).1 r.operation_id ≡ true)
  pub keeps_observe :
      (k : String) (e : Endpoint) (w : P.World)
      → claimed w k ≡ true
      → claimed (P.observe e w).1 k ≡ true
  pub keeps_validate :
      (k : String) (r : SwitchPlan) (w : P.World)
      → claimed w k ≡ true
      → claimed (P.validate r w).1 k ≡ true
  pub keeps_switch :
      (k : String) (r : SwitchPlan) (w : P.World)
      → claimed w k ≡ true
      → claimed (P.compare_and_switch r w).1 k ≡ true
  pub keeps_authorize :
      (k : String) (r : SwitchPlan) (w : P.World)
      → claimed w k ≡ true
      → claimed (P.authorize r w).1 k ≡ true
  pub keeps_claim :
      (k : String) (r : SwitchPlan) (w : P.World)
      → claimed w k ≡ true
      → claimed (P.claim_dispatch r w).1 k ≡ true

-- How often a log switches for an operation.
abbrev pub switches : String → List Call → ℕ
switches k [] = 0
switches k (switch r _ ∷ log) = if r.operation_id == k then suc (switches k log) else switches k log
switches k (_ ∷ log) = switches k log

-- Executions of some plans, one after the other.
pub execute_all : (P : Ports) → List SwitchPlan → Logged P → Logged P
execute_all P [] s = s
execute_all P (r ∷ plans) s = execute_all P plans (execute (traced P) (exact r) s).1

module _ (P : Ports) (c : ClaimsOnce P) (k : String) where
  -- An operation that is switched is claimed, and switched once.
  abbrev Inv : Logged P → Type 0
  Inv (w, log) = switches k log ≤ (if c.claimed w k then 1 else 0)

  kept :
      (w w' : P.World) (n : ℕ)
      → (c.claimed w k ≡ true → c.claimed w' k ≡ true)
      → n ≤ (if c.claimed w k then 1 else 0)
      → n ≤ (if c.claimed w' k then 1 else 0)
  kept w w' n keeps h = elim (Bool-cases (c.claimed w k)) [
    | inl old ↦ rw (keeps old) (rw old at h)
    | inr new ↦ ground arith
  ]

  reauthorized-Inv :
      (r : SwitchPlan) (a : Attempt (Unit {0})) (s : Logged P)
      → Inv s
      → Inv (reauthorized (traced P) r a s).1
  unfolding reauthorized
  reauthorized-Inv r raised s h = h
  reauthorized-Inv r (returned _) (w, log) h = kept _ _ _ (c.keeps_observe k r.before.endpoint w) h

  reconcile-Inv : (r : SwitchPlan) (s : Logged P) → Inv s → Inv (reconcile (traced P) (exact r) s).1
  unfolding reconcile
  reconcile-Inv r (w, log) h = reauthorized-Inv r _ _ (kept _ _ _ (c.keeps_authorize k r w) h)

  -- A switch for an operation that was just claimed.
  dispatch-Inv :
      (r : SwitchPlan) (w : P.World) (log : List Call)
      → switches k (switch r (returned other) ∷ log) ≤ (if c.claimed w k then 1 else 0)
      → Inv (dispatch (traced P) r (w, log)).1
  unfolding dispatch
  dispatch-Inv r w log h =
      kept _ _ _ (c.keeps_observe k r.before.endpoint _) (kept _ _ _ (c.keeps_switch k r w) h)

  resolve-Inv :
      (r : SwitchPlan) (w : P.World) (log : List Call) (a : Attempt (Arg Bool))
      → (P.claim_dispatch r w).0 ≡ a
      → Inv (w, log)
      → Inv (resolve (traced P) r a ((P.claim_dispatch r w).1, Call.claim a ∷ log)).1
  unfolding resolve
  resolve-Inv r w log raised e h = kept _ _ _ (c.keeps_claim k r w) h
  resolve-Inv r w log (returned other) e h = kept _ _ _ (c.keeps_claim k r w) h
  resolve-Inv r w log (returned (exact false)) e h =
      reconcile-Inv r _ (kept _ _ _ (c.keeps_claim k r w) h)
  resolve-Inv r w log (returned (exact true)) e h =
      dispatch-Inv r _ (Call.claim (returned (exact true)) ∷ log)
        (elim (string_eq.dec r.operation_id k) [
          | yes same ↦
              let (free, taken) = c.grants r w e in
              rw
                (if_pos _ same, subst (λ j. c.claimed (P.claim_dispatch r w).1 j ≡ true) same taken)
                (granted (subst (λ j. c.claimed w j ≡ false) same free) h)
          | no differ ↦ rw (if_neg _ differ) (kept _ _ _ (c.keeps_claim k r w) h)
        ])
    where
      granted :
          c.claimed w k ≡ false
          → switches k log ≤ (if c.claimed w k then 1 else 0)
          → suc (switches k log) ≤ 1
      granted free bound = ground arith

  proceed-Inv :
      (r : SwitchPlan) (i : Inspection) (s : Logged P) → Inv s → Inv (proceed (traced P) r i s).1
  unfolding proceed
  proceed-Inv r unavailable s h = h
  proceed-Inv r (refused _) s h = h
  proceed-Inv r (seen current) s h = elim (Bool-cases (committed r current)) [
    | inl done ↦ rw done h
    | inr open_still ↦ elim (RoutingState-discrete current r.before) [
      | no stale ↦ rw (open_still, if_neg _ stale) h
      | yes fresh ↦ rw (open_still, if_pos _ fresh) (resolve-Inv r s.0 s.1 _ refl h)
    ]
  ]

  validated-Inv :
      (r : SwitchPlan) (a : Attempt (Unit {0})) (s : Logged P)
      → Inv s
      → Inv (validated (traced P) r a s).1
  unfolding validated
  validated-Inv r raised s h = h
  validated-Inv r (returned _) (w, log) h =
      proceed-Inv r _ _ (kept _ _ _ (c.keeps_observe k r.before.endpoint w) h)

  authorized-Inv :
      (r : SwitchPlan) (a : Attempt (Unit {0})) (s : Logged P)
      → Inv s
      → Inv (authorized (traced P) r a s).1
  unfolding authorized
  authorized-Inv r raised s h = h
  authorized-Inv r (returned _) (w, log) h =
      validated-Inv r _ _ (kept _ _ _ (c.keeps_validate k r w) h)

  execute_all-Inv : (plans : List SwitchPlan) (s : Logged P) → Inv s → Inv (execute_all P plans s)
  unfolding execute_all execute
  execute_all-Inv [] s h = h
  execute_all-Inv (r ∷ plans) (w, log) h =
      execute_all-Inv plans _ (authorized-Inv r _ _ (kept _ _ _ (c.keeps_authorize k r w) h))

-- Whatever plans are executed, in whatever order and however often, the routing is switched at most
-- once for each operation.
pub switches-execute_all :
    (P : Ports) (c : ClaimsOnce P) (k : String) (plans : List SwitchPlan) (w : P.World)
    → switches k (execute_all P plans (w, [])).1 ≤ 1
switches-execute_all P c k plans w =
    let h = execute_all-Inv P c k plans (w, []) (omega arith) in ground arith
