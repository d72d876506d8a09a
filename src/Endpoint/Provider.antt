-- ===== src/Endpoint/Provider.antt =====
-- What `execute` does to the routing, if the ports keep the contracts that their docstrings state:
-- the observer reads the native state, the adapter compares the whole state before and switches
-- atomically, and no other call changes the routing.
use mathlib.Core.Path.{subst}
use mathlib.Core.Logic.{if_pos, if_neg}
use deployment.Base.{
  ◌≡◌, ◌≢◌, ◌⊎◌, inl, inr, refl, ap, sym, ◌∙◌, String, Bool, true, false, Option, arith, Arg, exact,
  other, Bool-cases,
}
use deployment.Endpoint.State.{Endpoint, RoutingState, SwitchPlan, RoutingState-discrete}
use deployment.Endpoint.Ports.{Ports, Mutation, Attempt, returned, raised}
use deployment.Endpoint.Assess.{
  Outcome, Result, applied, already_satisfied, rejected, uncertain, recovery_required, committed,
  assess,
}
use deployment.Endpoint.Assess.Laws.{Committed, committed_iff, assess_iff}
use deployment.Endpoint.Switch.{
  Inspection, seen, refused, unavailable, admit_observation, verify, satisfied_already, conclude,
  reported, execute, reconcile, reauthorized, dispatch, resolve, proceed, validated, authorized,
}

pub record IsLawful (P : Ports) : Type 0 where
  -- The provider's native routing of one endpoint.
  pub route : P.World → Endpoint → RoutingState
  -- A fresh authenticated native read.
  pub reads :
      (e : Endpoint) (w : P.World) (s : RoutingState)
      → (P.observe e w).0 ≡ returned (exact s)
      → s ≡ route w e
  pub observe_keeps : (e : Endpoint) (w : P.World) → route (P.observe e w).1 ≡ route w
  pub validate_keeps : (r : SwitchPlan) (w : P.World) → route (P.validate r w).1 ≡ route w
  pub authorize_keeps : (r : SwitchPlan) (w : P.World) → route (P.authorize r w).1 ≡ route w
  pub claim_keeps : (r : SwitchPlan) (w : P.World) → route (P.claim_dispatch r w).1 ≡ route w
  -- A rejection guarantees no mutation.
  pub rejects :
      (r : SwitchPlan) (w : P.World)
      → (P.compare_and_switch r w).0 ≡ returned (exact Mutation.rejected)
      → route (P.compare_and_switch r w).1 ≡ route w
  -- Compare and switch: nothing changes, or the state before was the one planned from, and the
  -- endpoint's new state is the one planned for.
  pub switches :
      (r : SwitchPlan) (w : P.World)
      → (route (P.compare_and_switch r w).1 ≡ route w)
        ⊎ ((route w r.before.endpoint ≡ r.before)
            × Committed r (route (P.compare_and_switch r w).1 r.before.endpoint)
            × ((e : Endpoint)
                → e ≢ r.before.endpoint
                → route (P.compare_and_switch r w).1 e ≡ route w e))

assess_other :
    (r : SwitchPlan) (s : RoutingState)
    → assess (exact r) (exact Mutation.unknown) (exact s) ≡ assess (exact r) other (exact s)
unfolding assess
assess_other r s = refl

reported_rejected :
    (a : Attempt (Arg Mutation))
    → reported a ≡ exact Mutation.rejected
    → a ≡ returned (exact Mutation.rejected)
reported_rejected (returned m) e = ap returned e
reported_rejected raised e = ground arith

module _ (P : Ports) (l : IsLawful P) where
  -- What one execution may do to the routing.
  pub data Effect (r : SwitchPlan) (w w' : P.World) : Type 0 where
    unchanged : l.route w' ≡ l.route w → Effect r w w'
    switched :
        l.route w r.before.endpoint ≡ r.before
        → Committed r (l.route w' r.before.endpoint)
        → ((e : Endpoint) → e ≢ r.before.endpoint → l.route w' e ≡ l.route w e)
        → Effect r w w'

  -- What the caller may rely on for each outcome.
  abbrev pub Promise : SwitchPlan → P.World → P.World → Outcome → Type 0
  Promise r w w' applied = Committed r (l.route w' r.before.endpoint)
  Promise r w w' already_satisfied =
      Committed r (l.route w' r.before.endpoint) × (l.route w' ≡ l.route w)
  Promise r w w' rejected = l.route w' ≡ l.route w
  Promise r w w' uncertain = Unit
  Promise r w w' recovery_required = Unit

  abbrev pub Honest : SwitchPlan → P.World → Result × P.World → Type 0
  Honest r w (result, w') = Effect r w w' × Promise r w w' result.outcome

  -- The state that an admitted observation shows is the route.
  seen-route :
      (e : Endpoint) (w : P.World) (s : RoutingState)
      → admit_observation e (P.observe e w).0 ≡ seen s
      → s ≡ l.route (P.observe e w).1 e
  seen-route e w s h =
      let here : (P.observe e w).0 ≡ returned (exact s) = ground arith in
      l.reads e w s here ∙ ap (λ f. f e) (sym (l.observe_keeps e w))

  assess-Promise :
      (r : SwitchPlan) (m : Mutation) (s : RoutingState) (w w' : P.World) (o : Outcome)
      → s ≡ l.route w' r.before.endpoint
      → (m ≡ Mutation.rejected → l.route w' ≡ l.route w)
      → (assess (exact r) (exact m) (exact s)).outcome ≡ o
      → Promise r w w' o
  assess-Promise r m s w w' applied e keep h =
      subst (Committed r) e ((assess_iff r (exact m) s applied).0 h).0
  assess-Promise r m s w w' already_satisfied e keep h =
      absurd ((assess_iff r (exact m) s already_satisfied).0 h)
  assess-Promise r m s w w' rejected e keep h = keep ((assess_iff r (exact m) s rejected).0 h).1
  assess-Promise r m s w w' uncertain e keep h = tt
  assess-Promise r m s w w' recovery_required e keep h = tt

  satisfied-Promise :
      (r : SwitchPlan) (s : RoutingState) (w w' : P.World) (o : Outcome) (d : String)
      (x : Option RoutingState)
      → l.route w' ≡ l.route w
      → Promise r w w' o
      → Promise r w w'
          (satisfied_already s (record { outcome = o; diagnostic = d; observed = x })).outcome
  satisfied-Promise r s w w' applied d x keep h = (h, keep)
  satisfied-Promise r s w w' already_satisfied d x keep h = h
  satisfied-Promise r s w w' rejected d x keep h = h
  satisfied-Promise r s w w' uncertain d x keep h = h
  satisfied-Promise r s w w' recovery_required d x keep h = h

  conclude-Promise :
      (r : SwitchPlan) (w w' : P.World) (i : Inspection)
      → ((s : RoutingState) → i ≡ seen s → s ≡ l.route w' r.before.endpoint)
      → l.route w' ≡ l.route w
      → Promise r w w' (conclude r i).outcome
  conclude-Promise r w w' unavailable reads keep = tt
  conclude-Promise r w w' (refused _) reads keep = tt
  conclude-Promise r w w' (seen s) reads keep =
      satisfied-Promise r s w w' _ _ _ keep
        (assess-Promise r Mutation.unknown s w w' _ (reads s refl) (λ e. cc) refl)

  verify-Promise :
      (r : SwitchPlan) (m : Arg Mutation) (w w' : P.World) (i : Inspection)
      → ((s : RoutingState) → i ≡ seen s → s ≡ l.route w' r.before.endpoint)
      → (m ≡ exact Mutation.rejected → l.route w' ≡ l.route w)
      → Promise r w w' (verify r m i).outcome
  verify-Promise r m w w' unavailable reads keep = tt
  verify-Promise r m w w' (refused _) reads keep = tt
  verify-Promise r (exact m) w w' (seen s) reads keep =
      assess-Promise r m s w w' _ (reads s refl) (λ e. keep (ap exact e)) refl
  verify-Promise r other w w' (seen s) reads keep =
      subst (λ (x : Result). Promise r w w' x.outcome) (assess_other r s)
        (assess-Promise r Mutation.unknown s w w' _ (reads s refl) (λ e. cc) refl)

  reauthorized-Honest :
      (r : SwitchPlan) (a : Attempt (Unit {0})) (w v : P.World)
      → l.route v ≡ l.route w
      → Honest r w (reauthorized P r a v)
  unfolding reauthorized
  reauthorized-Honest r raised w v keep = (unchanged keep, keep)
  reauthorized-Honest r (returned _) w v keep =
      let still = l.observe_keeps r.before.endpoint v ∙ keep in
      (unchanged still, conclude-Promise r w _ _ (seen-route r.before.endpoint v) still)

  reconcile-Honest :
      (r : SwitchPlan) (w v : P.World)
      → l.route v ≡ l.route w
      → Honest r w (reconcile P (exact r) v)
  unfolding reconcile
  reconcile-Honest r w v keep = reauthorized-Honest r _ w _ (l.authorize_keeps r v ∙ keep)

  moved :
      (r : SwitchPlan) (w v u u' : P.World)
      → l.route v ≡ l.route w
      → l.route u' ≡ l.route u
      → (l.route u ≡ l.route v)
        ⊎ ((l.route v r.before.endpoint ≡ r.before)
            × Committed r (l.route u r.before.endpoint)
            × ((e : Endpoint) → e ≢ r.before.endpoint → l.route u e ≡ l.route v e))
      → Effect r w u'
  moved r w v u u' keep still (inl same) = unchanged (still ∙ same ∙ keep)
  moved r w v u u' keep still (inr (before, after, others)) =
      switched (ap (λ f. f r.before.endpoint) (sym keep) ∙ before)
        (subst (λ f. Committed r (f r.before.endpoint)) (sym still) after)
        (λ e ne. ap (λ f. f e) still ∙ others e ne ∙ ap (λ f. f e) keep)

  dispatch-Honest :
      (r : SwitchPlan) (w v : P.World) → l.route v ≡ l.route w → Honest r w (dispatch P r v)
  unfolding dispatch
  dispatch-Honest r w v keep =
      let still = l.observe_keeps r.before.endpoint (P.compare_and_switch r v).1 in
      (
        moved r w v _ _ keep still (l.switches r v),
        verify-Promise r _ w _ _ (seen-route r.before.endpoint (P.compare_and_switch r v).1)
            (λ e. still ∙ l.rejects r v (reported_rejected _ e) ∙ keep),
      )

  resolve-Honest :
      (r : SwitchPlan) (a : Attempt (Arg Bool)) (w v : P.World)
      → l.route v ≡ l.route w
      → Honest r w (resolve P r a v)
  unfolding resolve
  resolve-Honest r raised w v keep = (unchanged keep, tt)
  resolve-Honest r (returned other) w v keep = (unchanged keep, tt)
  resolve-Honest r (returned (exact false)) w v keep = reconcile-Honest r w v keep
  resolve-Honest r (returned (exact true)) w v keep = dispatch-Honest r w v keep

  proceed-Honest :
      (r : SwitchPlan) (i : Inspection) (w v : P.World)
      → ((s : RoutingState) → i ≡ seen s → s ≡ l.route v r.before.endpoint)
      → l.route v ≡ l.route w
      → Honest r w (proceed P r i v)
  unfolding proceed
  proceed-Honest r unavailable w v reads keep = (unchanged keep, tt)
  proceed-Honest r (refused _) w v reads keep = (unchanged keep, keep)
  proceed-Honest r (seen s) w v reads keep = elim (Bool-cases (committed r s)) [
    | inl done ↦
        rw done
          (unchanged keep, (subst (Committed r) (reads s refl) ((committed_iff r s).0 done), keep))
    | inr open_still ↦ elim (RoutingState-discrete s r.before) [
      | no stale ↦ rw (open_still, if_neg _ stale) (unchanged keep, keep)
      | yes fresh ↦
          rw (open_still, if_pos _ fresh) (resolve-Honest r _ w _ (l.claim_keeps r v ∙ keep))
    ]
  ]

  validated-Honest :
      (r : SwitchPlan) (a : Attempt (Unit {0})) (w v : P.World)
      → l.route v ≡ l.route w
      → Honest r w (validated P r a v)
  unfolding validated
  validated-Honest r raised w v keep = (unchanged keep, keep)
  validated-Honest r (returned _) w v keep =
      proceed-Honest r _ w _ (seen-route r.before.endpoint v)
        (l.observe_keeps r.before.endpoint v ∙ keep)

  authorized-Honest :
      (r : SwitchPlan) (a : Attempt (Unit {0})) (w v : P.World)
      → l.route v ≡ l.route w
      → Honest r w (authorized P r a v)
  unfolding authorized
  authorized-Honest r raised w v keep = (unchanged keep, keep)
  authorized-Honest r (returned _) w v keep = validated-Honest r _ w _ (l.validate_keeps r v ∙ keep)

-- With lawful ports, `execute` leaves the routing as it was, or switches it from exactly the state
-- planned from to the state planned for and touches no other endpoint. `applied` and
-- `already_satisfied` mean that the endpoint now has the state planned for, and `rejected` and
-- `already_satisfied` that this execution changed nothing.
pub execute-Honest :
    (P : Ports) (l : IsLawful P) (r : SwitchPlan) (w : P.World)
    → Honest P l r w (execute P (exact r) w)
unfolding execute
execute-Honest P l r w = authorized-Honest P l r _ w _ (l.authorize_keeps r w)
