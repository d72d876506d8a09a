-- ===== src/Janitor/Rocky/Request/Paging.antt =====
-- How the loop of `list_component` ends.
use deployment.Base.{
  ℕ, zero, suc, ◌≡◌, ◌≢◌, refl, sym, String, List, [], ◌++◌, none, exact, ≢-==, string_eq,
}
use deployment.Janitor.Call.{gave}
use deployment.Janitor.Rocky.Contract.{Component, Resource}
use deployment.Janitor.Rocky.Request.{text, Ports, list_from, list_component}

module _ {World : Type 0} (ports : Ports World) (component : Component) where
  -- The page with this token, whenever it is asked for.
  unfoldable pub IsPage : String → List Resource → String → Type 0
  IsPage token items next =
      (w : World)
      → (w' : World) × (ports.get_page component token w
          ≡ (gave (record { items = exact items; next_token = text next }), w'))

  -- A list with a second page, which is the last and so has no token, is never given: the loop begins
  -- with the first page again.
  pub list_component-loops :
      (token : String) (first last : List Resource) (fuel : ℕ) (w : World)
      → token ≢ ""
      → IsPage "" first token
      → IsPage token last ""
      → (list_component ports fuel component w).0 ≡ gave none
  unfolding list_from IsPage
  list_component-loops token first last fuel w more page_one page_two = (from fuel [] w).0
    where
      from :
          (fuel : ℕ) (result : List Resource) (w : World)
          → ((list_from ports fuel component "" result w).0 ≡ gave none)
            × ((list_from ports fuel component token result w).0 ≡ gave none)
      from zero result w = (refl, refl)
      from (suc fuel) result w =
          let (w1, e1) = page_one w in
          let (w2, e2) = page_two w in
          (
            rw (e1, ≢-== token "" more) (from fuel (result ++ first) w1).1,
            rw (e2, ≢-== "" token (λ e. more (sym e))) (from fuel (result ++ last) w2).0,
          )
