-- ===== src/Endpoint/Ports.antt =====
-- scripts/endpoint_switch.py: `Observer`, `Adapter` and `CutoverAuthority`, which others implement.
-- A call may raise, may answer with an object of another type, and may change the world.
use deployment.Base.{Bool, Arg}
use deployment.Endpoint.State.{Endpoint, RoutingState, SwitchPlan}

pub data Mutation : Type 0 where
  applied rejected unknown : Mutation

pub data Attempt (A : Type 0) : Type 0 where
  returned : A → Attempt A
  raised : Attempt A

pub record Ports : Type 1 where
  pub World : Type 0
  pub observe : Endpoint → World → Attempt (Arg RoutingState) × World
  pub validate : SwitchPlan → World → Attempt (Unit {0}) × World
  pub compare_and_switch : SwitchPlan → World → Attempt (Arg Mutation) × World
  pub authorize : SwitchPlan → World → Attempt (Unit {0}) × World
  pub claim_dispatch : SwitchPlan → World → Attempt (Arg Bool) × World

-- A computation over the world.
abbrev pub Act : Type 0 → Type 0 → Type 0
Act W A = W → A × W

abbrev pub pure : {W A : Type 0} → A → Act W A
pure a w = (a, w)

infixl 5 ◌>>=◌
abbrev pub ◌>>=◌ : {W A B : Type 0} → Act W A → (A → Act W B) → Act W B
◌>>=◌ m f w = let (a, w') = m w in f a w'
