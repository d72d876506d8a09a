-- ===== src/Janitor/Gcp/Client/Paging.antt =====
-- How the loop of `list_resources` ends.
use mathlib.Core.List.{append_assoc, append-nil}
use deployment.Base.{
  ℕ, zero, suc, ◌≤◌, ◌≡◌, ◌≢◌, ◌↔◌, inl, inr, refl, sym, ap, ◌∙◌, arith, String, Bool, List, [],
  ◌∷◌, ◌++◌, Option, some, ◌==◌, ≢-==, ==-cases, ==_refl, string_eq, length, if◌then◌else◌,
}
use deployment.Janitor.Call.{
  Reply, gave, refused, escaped, Act, next, pure, lift, ◌>>=◌, ◌>>◌, refuse_if,
}
use deployment.Janitor.Gcp.Contract.{Resource}
use deployment.Janitor.Gcp.Client.{
  get, Document, Ports, request, resource_path, items_of, next_of, page_path, list_from,
  list_resources,
}

module _ {World : Type 0} (ports : Ports World) (project kind : String) where
  -- One page: its items and the token of the next one.
  abbrev pub page : String → Act World (List Resource × String)
  page token = do
    path ← lift (resource_path project kind "")
    document ← request ports get (page_path path token)
    items ← lift (items_of document)
    next ← lift (next_of document)
    pure (items, next)

  -- Pages that are asked for one after the other, from the one with this token up to the first
  -- without a next one; no page is followed by itself.
  unfoldable pub Chain : String → World → List (List Resource × String) → World → Type 0
  Chain token w [] w' = ⊥
  Chain token w ((items, next) ∷ []) w' = (page token w ≡ (gave (items, next), w')) × (next ≡ "")
  Chain token w ((items, next) ∷ second ∷ rest) w' =
      (w1 : World) × (page token w ≡ (gave (items, next), w1))
      × (next ≢ "")
      × (next ≢ token)
      × Chain next w1 (second ∷ rest) w'

abbrev pub items_in : List (List Resource × String) → List Resource
items_in [] = []
items_in ((items, _) ∷ rest) = items ++ items_in rest

module _ {World : Type 0} (ports : Ports World) (project kind : String) where
  -- What the loop does with a page.
  abbrev after_page :
      ℕ → String → List Resource → List Resource × String → Act World (Option (List Resource))
  after_page fuel token resources (items, next) =
      if next == ""
      then pure (some (resources ++ items))
      else refuse_if (next == token) "Google Compute pagination did not advance"
        >> list_from ports project fuel kind next (resources ++ items)

  list_from-page :
      (fuel : ℕ) (token : String) (resources : List Resource) (w : World)
      → list_from ports project (suc fuel) kind token resources w
        ≡ next (page ports project kind token w) (after_page fuel token resources)
  unfolding list_from
  list_from-page fuel token resources w = by_path (resource_path project kind "")
    where
      by_next :
          (items : List Resource) (given : Reply String) (w : World)
          → next (given, w) (λ (to : String). after_page fuel token resources (items, to))
            ≡ next
                (next (given, w) (λ (to : String). pure (items, to)))
                (after_page fuel token resources)
      by_next items (gave to) w = refl
      by_next items (refused message) w = refl
      by_next items escaped w = refl

      by_items :
          (document : Document) (given : Reply (List Resource)) (w : World)
          → next
              (given, w)
              (λ items.
                lift (next_of document) >>= λ to. after_page fuel token resources (items, to))
            ≡ next
                (next (given, w) (λ items. lift (next_of document) >>= λ to. pure (items, to)))
                (after_page fuel token resources)
      by_items document (gave items) w = by_next items (next_of document) w
      by_items document (refused message) w = refl
      by_items document escaped w = refl

      by_document :
          (answer : Reply Document × World)
          → next answer (λ document. lift (items_of document) >>= λ items.
              lift (next_of document) >>= λ to. after_page fuel token resources (items, to))
            ≡ next
                (next answer (λ document. lift (items_of document) >>= λ items.
                  lift (next_of document) >>= λ to. pure (items, to)))
                (after_page fuel token resources)
      by_document (gave document, w) = by_items document (items_of document) w
      by_document (refused message, w) = refl
      by_document (escaped, w) = refl

      by_path :
          (path : Reply String)
          → (lift path >>= λ path. request ports get (page_path path token) >>= λ document.
                lift (items_of document) >>= λ items.
                lift (next_of document) >>= λ to. after_page fuel token resources (items, to))
              w
            ≡ next
                ((lift path >>= λ path. request ports get (page_path path token) >>= λ document.
                    lift (items_of document) >>= λ items.
                    lift (next_of document) >>= λ to. pure (items, to))
                  w)
                (after_page fuel token resources)
      by_path (gave path) = by_document (request ports get (page_path path token) w)
      by_path (refused message) = refl
      by_path escaped = refl

  abbrev found : List Resource → World → Reply (Option (List Resource)) × World
  found all w = (gave (some all), w)

  Chain-given :
      (pages : List (List Resource × String)) (fuel : ℕ) (token : String)
      (resources : List Resource) (w w' : World)
      → Chain ports project kind token w pages w'
      → length pages ≤ fuel
      → list_from ports project fuel kind token resources w ≡ found (resources ++ items_in pages) w'
  unfolding Chain
  Chain-given [] fuel token resources w w' h le = absurd h
  Chain-given (_ ∷ _) zero token resources w w' h le = absurd (omega (arith, le))
  Chain-given ((items, to) ∷ []) (suc fuel) token resources w w' (asked, last) le =
      list_from-page fuel token resources w
      ∙ rw (asked, last, ==_refl {A = String} "", append-nil items) refl
  Chain-given ((items, to) ∷ second ∷ rest) (suc fuel) token resources w w' (w1, asked, more, on, h)
        le =
      list_from-page fuel token resources w
      ∙ rw (asked, ≢-== to "" more, ≢-== to token on)
          (Chain-given (second ∷ rest) fuel to (resources ++ items) w1 w' h (omega (arith, le))
            ∙ ap (λ all. (gave (some all), w'))
                (append_assoc resources items (items_in (second ∷ rest))))

  -- A result comes from a chain of pages.
  abbrev FromChain : ℕ → String → List Resource → World → List Resource → World → Type 0
  FromChain fuel token resources w all w' =
      (pages : List (List Resource × String)) × Chain ports project kind token w pages w'
      × (length pages ≤ fuel)
      × (all ≡ resources ++ items_in pages)

  -- One page, if what follows it comes from a chain.
  page-Chain :
      (fuel : ℕ) (token : String) (resources : List Resource) (w : World) (all : List Resource)
      (w' : World) (items : List Resource) (to : String) (w1 : World)
      → page ports project kind token w ≡ (gave (items, to), w1)
      → after_page fuel token resources (items, to) w1 ≡ found all w'
      → (list_from ports project fuel kind to (resources ++ items) w1 ≡ found all w'
          → FromChain fuel to (resources ++ items) w1 all w')
      → FromChain (suc fuel) token resources w all w'
  unfolding Chain
  page-Chain fuel token resources w all w' items to w1 asked e again = elim (==-cases to "") [
    | inl (last, test) ↦ last_page last (by_test test e)
    | inr (more, test) ↦ elim (==-cases to token) [
      | inl (same, stuck) ↦ cc (by_tests test stuck e)
      | inr (on, moves) ↦ earlier_page more on (again (by_tests test moves e))
    ]
  ]
    where
      tested : Bool → Bool → Reply (Option (List Resource)) × World
      tested last stuck =
          (if last
              then pure (some (resources ++ items))
              else refuse_if stuck "Google Compute pagination did not advance"
                >> list_from ports project fuel kind to (resources ++ items))
            w1

      by_tests :
          {last stuck : Bool}
          → (to == "") ≡ last
          → (to == token) ≡ stuck
          → tested (to == "") (to == token) ≡ found all w'
          → tested last stuck ≡ found all w'
      by_tests t u e = rw (← t, ← u) e

      by_test :
          {last : Bool}
          → (to == "") ≡ last
          → tested (to == "") (to == token) ≡ found all w'
          → tested last (to == token) ≡ found all w'
      by_test t e = rw (← t) e

      last_page :
          to ≡ ""
          → found (resources ++ items) w1 ≡ found all w'
          → FromChain (suc fuel) token resources w all w'
      last_page last e =
          let same : resources ++ items ≡ all = cc e in
          let world : w1 ≡ w' = cc e in
          (
            (items, to) ∷ [],
            (asked ∙ ap (λ v. (gave (items, to), v)) world, last),
            omega arith,
            rw (append-nil items) (sym same),
          )

      earlier_page :
          to ≢ ""
          → to ≢ token
          → FromChain fuel to (resources ++ items) w1 all w'
          → FromChain (suc fuel) token resources w all w'
      earlier_page more on ([], h, le, e) = absurd h
      earlier_page more on (second ∷ rest, h, le, e) = (
        (items, to) ∷ second ∷ rest,
        (w1, asked, more, on, h),
        omega (arith, le),
        e ∙ append_assoc resources items (items_in (second ∷ rest)),
      )

  given-Chain :
      (fuel : ℕ) (token : String) (resources : List Resource) (w : World) (all : List Resource)
      (w' : World)
      → list_from ports project fuel kind token resources w ≡ found all w'
      → FromChain fuel token resources w all w'
  unfolding list_from
  given-Chain zero token resources w all w' e = cc e
  given-Chain (suc fuel) token resources w all w' e =
      by_page (page ports project kind token w) refl
        (sym (list_from-page fuel token resources w) ∙ e)
        (λ items to w1. given-Chain fuel to (resources ++ items) w1 all w')
    where
      by_page :
          (answer : Reply (List Resource × String) × World)
          → page ports project kind token w ≡ answer
          → next answer (after_page fuel token resources) ≡ found all w'
          → ((items : List Resource) (to : String) (w1 : World)
              → list_from ports project fuel kind to (resources ++ items) w1 ≡ found all w'
              → FromChain fuel to (resources ++ items) w1 all w')
          → FromChain (suc fuel) token resources w all w'
      by_page (refused message, w1) asked e again = cc e
      by_page (escaped, w1) asked e again = cc e
      by_page (gave (items, to), w1) asked e again =
          page-Chain fuel token resources w all w' items to w1 asked e (again items to w1)

  -- Within so many turns, the list is given exactly if a chain of at most so many pages begins with
  -- the first one, and then it has the items of all of them, in order.
  pub list_resources_iff :
      (fuel : ℕ) (w : World) (all : List Resource) (w' : World)
      → (list_resources ports project fuel kind w ≡ (gave (some all), w')) ↔ (
          (pages : List (List Resource × String)) × Chain ports project kind "" w pages w'
          × (length pages ≤ fuel)
          × (all ≡ items_in pages))
  list_resources_iff fuel w all w' = (
    λ e. given-Chain fuel "" [] w all w' e,
    λ (pages, h, le, e). rw e (Chain-given pages fuel "" [] w w' h le),
  )
