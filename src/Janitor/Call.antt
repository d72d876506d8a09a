-- ===== src/Janitor/Call.antt =====
-- Calls of a cloud client: they return or raise, and may change the world.
use deployment.Base.{◌≡◌, refl, String, Bool, true, false}

-- `JanitorError`, `OSError` and `ValueError` are refusals with their message. Any other exception
-- escapes from every handler.
pub data Reply {ℓ} (A : Type ℓ) : Type ℓ where
  gave : A → Reply A
  refused : String → Reply A
  escaped : Reply A

abbrev pub Act : Type 0 → Type 0 → Type 0
Act World A = World → Reply A × World

abbrev pub pure : {World A : Type 0} → A → Act World A
pure a w = (gave a, w)

-- `raise JanitorError(message)`
abbrev pub refuse : {World A : Type 0} → String → Act World A
refuse message w = (refused message, w)

-- Another exception.
abbrev pub escape : {World A : Type 0} → Act World A
escape w = (escaped, w)

-- A computation that does not touch the world.
abbrev pub lift : {World A : Type 0} → Reply A → Act World A
lift reply w = (reply, w)

abbrev pub next : {World A B : Type 0} → Reply A × World → (A → Act World B) → Reply B × World
next (gave a, w) continue = continue a w
next (refused message, w) continue = (refused message, w)
next (escaped, w) continue = (escaped, w)

infixl 5 ◌>>=◌ ◌>>◌
abbrev pub ◌>>=◌ : {World A B : Type 0} → Act World A → (A → Act World B) → Act World B
◌>>=◌ first continue w = next (first w) continue

abbrev pub ◌>>◌ : {World B : Type 0} → Act World (Unit {0}) → Act World B → Act World B
first >> then = first >>= λ _. then

abbrev pub refuse_if : {World : Type 0} → Bool → String → Act World (Unit {0})
refuse_if true message = refuse message
refuse_if false message = pure tt

-- What holds after a call: `Q` of its result if it returns, and `E` if it raises.
abbrev pub Ends :
    {World A : Type 0} → (A → World → Type 0) → (World → Type 0) → Reply A × World → Type 0
Ends Q E (gave a, w) = Q a w
Ends Q E (refused message, w) = E w
Ends Q E (escaped, w) = E w

module _ {World A B : Type 0} (I : A → World → Type 0) (Q : B → World → Type 0)
    (E : World → Type 0) where
  pub next-Ends :
      (reply : Reply A × World) (continue : A → Act World B)
      → Ends I E reply
      → ((a : A) (w : World) → I a w → Ends Q E (continue a w))
      → Ends Q E (next reply continue)
  next-Ends (gave a, w) continue h go_on = go_on a w h
  next-Ends (refused message, w) continue h go_on = h
  next-Ends (escaped, w) continue h go_on = h

module _ {World A : Type 0} (Q Q' : A → World → Type 0) (E E' : World → Type 0) where
  pub Ends-weaken :
      (reply : Reply A × World)
      → ((a : A) (w : World) → Q a w → Q' a w)
      → ((w : World) → E w → E' w)
      → Ends Q E reply
      → Ends Q' E' reply
  Ends-weaken (gave a, w) good bad h = good a w h
  Ends-weaken (refused message, w) good bad h = bad w h
  Ends-weaken (escaped, w) good bad h = bad w h

-- A call that returns had a first part that returned.
pub next-gave :
    {World A B : Type 0} (reply : Reply A × World) (continue : A → Act World B) (b : B) (w' : World)
    → next reply continue ≡ (gave b, w')
    → (a : A) × (w : World) × (reply ≡ (gave a, w)) × (continue a w ≡ (gave b, w'))
next-gave (gave a, w) continue b w' e = (a, w, refl, e)
next-gave (refused message, w) continue b w' e = cc e
next-gave (escaped, w) continue b w' e = cc e
