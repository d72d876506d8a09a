-- ===== src/Janitor/Rocky/Authority/Names.antt =====
-- The names of an admitted run are names of resources.
use Prim.Native.Char.{code}
use Prim.Native.String.append
use deployment.Base.{
  &&-left, ==_refl, ℕ, ◌≡◌, refl, sym, ap, ◌∙◌, arith, String, ◌<>◌, Bool, true, false, ◌&&◌, List,
  [], ◌∷◌, ◌++◌, Option, none, some, Arg, exact, other, if◌then◌else◌, all, ◌==◌, string_eq,
  list_eq, nat_eq, option_eq, eqb, ltb,
}
use mathlib.Core.Path.{subst}
use deployment.Base.Text.{codes, is_decimal, is_digit}
use deployment.Janitor.Call.{Reply, gave, refused}
use deployment.Janitor.Patterns.{
  int, ◌>>=◌, is_sha, is_epoch, is_number, is_run_id, is_run_attempt, digits, after_digits,
  after_prefix,
}
use deployment.Janitor.Dict.{Dict}
use deployment.Janitor.Rocky.Contract.{
  Component, instance', Labels, name_of, scope, component_name, is_profile, is_valid, is_bounded,
  is_owned, owned_candidate, ownership, Candidate, Resource,
}
use deployment.Janitor.Rocky.Authority.{
  text_or_empty, Env, exact_authority, of_resource, at_time, agree, env_at, expected_of,
}
use deployment.Janitor.Rocky.Observe.{component_path, is_resource_name, run_then, attempt_then}

codes-append : (s t : String) → codes (s <> t) ≡ codes s ++ codes t
codes-append String.[] t = ap codes (append.nil t)
codes-append (String.◌∷◌ c s) t =
    ap codes (append.cons c s t) ∙ ap (λ l. code c ∷ l) (codes-append s t)

-- Digits before a dash.
digits-dash : (s t : List ℕ) → all is_digit s ≡ true → digits (s ++ (b'-' ∷ t)) ≡ s
unfolding digits
digits-dash [] t h = refl
digits-dash (c ∷ s) t h = ground (arith, h, digits-dash s t)

after_digits-dash :
    (s t : List ℕ) → all is_digit s ≡ true → after_digits (s ++ (b'-' ∷ t)) ≡ b'-' ∷ t
unfolding after_digits
after_digits-dash [] t h = refl
after_digits-dash (c ∷ s) t h = ground (arith, h, after_digits-dash s t)

after_prefix-append : (p s : List ℕ) → after_prefix p (p ++ s) ≡ (s, true)
unfolding after_prefix
after_prefix-append [] s = refl
after_prefix-append (c ∷ p) s = rw (eqb_refl c) (after_prefix-append p s)
  where
    eqb_refl : (n : ℕ) → eqb n n ≡ true
    eqb_refl n = ground arith

digits_of : (n : ℕ) (s : List ℕ) → is_number n s ≡ true → all is_digit s ≡ true
unfolding is_decimal
digits_of n [] h = refl
digits_of n (c ∷ s) h = ground (arith, h)

dash_codes : (s : String) → codes ("-" <> s) ≡ b'-' ∷ codes s
dash_codes s = codes-append "-" s

-- The part of a name from the number of the attempt on.
attempt_then-digits :
    (component : Component) (attempt : List ℕ)
    → is_number 3 attempt ≡ true
    → attempt_then component (attempt ++ codes ("-" <> component_name component), true) ≡ true
attempt_then-digits component attempt h =
    rw
      (
        dash_codes (component_name component),
        digits-dash attempt (codes (component_name component)) (digits_of 3 attempt h),
        after_digits-dash attempt (codes (component_name component)) (digits_of 3 attempt h),
        h,
        ==_refl (b'-' ∷ codes (component_name component)),
      )
      refl

run_then-digits :
    (component : Component) (run attempt : List ℕ)
    → is_number 20 run ≡ true
    → is_number 3 attempt ≡ true
    → run_then component
        (run ++ (b'-' ∷ (attempt ++ codes ("-" <> component_name component))), true)
      ≡ true
run_then-digits component run attempt h h' =
    rw
      (
        digits-dash run (attempt ++ codes ("-" <> component_name component)) (digits_of 20 run h),
        after_digits-dash run (attempt ++ codes ("-" <> component_name component))
            (digits_of 20 run h),
        h,
        after_prefix-append (b'-' ∷ []) (attempt ++ codes ("-" <> component_name component)),
      )
      (attempt_then-digits component attempt h')

name_codes :
    (l : Labels) (component : Component)
    → codes (name_of l component)
      ≡ codes "sprk-"
        ++ (codes l.github_run_id
            ++ (b'-' ∷ (codes l.github_run_attempt ++ codes ("-" <> component_name component))))
name_codes l component =
    codes-append "sprk-" _
    ∙ ap (λ s. codes "sprk-" ++ s)
        (codes-append l.github_run_id _
          ∙ ap (λ s. codes l.github_run_id ++ s)
              (dash_codes _ ∙ ap (λ s. b'-' ∷ s) (codes-append l.github_run_attempt _)))

is_resource_name-name_of :
    (l : Labels) (component : Component)
    → is_run_id l.github_run_id ≡ true
    → is_run_attempt l.github_run_attempt ≡ true
    → is_resource_name component (name_of l component) ≡ true
unfolding is_resource_name
is_resource_name-name_of l component h h' =
    subst (λ o. run_then component o ≡ true)
      (sym (
        ap (after_prefix (codes "sprk-")) (name_codes l component)
        ∙ after_prefix-append (codes "sprk-") _))
      (run_then-digits component (codes l.github_run_id) (codes l.github_run_attempt) h h')

-- The numbers of valid labels.
numbers_of :
    (l : Labels)
    → is_valid l ≡ true
    → (is_run_id l.github_run_id ≡ true) × (is_run_attempt l.github_run_attempt ≡ true)
numbers_of l h =
    pick (l.secpal_ci_owner == "rocky-host-qualification") (l.repository == "secpal-deployment")
      (is_profile l.provider_profile) (is_run_id l.github_run_id)
      (is_run_attempt l.github_run_attempt) (is_sha l.target_sha) (is_sha l.control_sha)
      (is_epoch l.created_at) (is_epoch l.expires_at) h
  where
    pick :
        (a b c d e f g i j : Bool)
        → (a && b && c && d && e && f && g && i && j) ≡ true
        → (d ≡ true) × (e ≡ true)
    pick a b c d e f g i j h = (ground (arith, h), ground (arith, h))

owned_candidate-IsValid :
    (component : Component) (resource : Resource) (candidate : Candidate)
    → owned_candidate component resource ≡ some candidate
    → is_valid candidate.labels ≡ true
unfolding owned_candidate is_owned
owned_candidate-IsValid component resource candidate e = by_labels (ownership resource component) e
  where
    labels_or : Labels → Option Candidate → Labels
    labels_or l none = l
    labels_or l (some k) = k.labels

    by_owned :
        (labels : Labels) (owned : Bool)
        → (is_valid labels && is_bounded labels resource.name component) ≡ owned
        → (if owned then some (record { component = component; labels = labels }) else none)
          ≡ some candidate
        → is_valid candidate.labels ≡ true
    by_owned labels false owned e = cc e
    by_owned labels true owned e =
        subst (λ l. is_valid l ≡ true) (ap (labels_or labels) e)
          (&&-left (is_valid labels) (is_bounded labels resource.name component) owned)

    by_labels :
        (given : Option Labels)
        → (given >>= λ l.
            if is_owned l resource.name component
            then some (record { component = component; labels = l })
            else none)
          ≡ some candidate
        → is_valid candidate.labels ≡ true
    by_labels none e = cc e
    by_labels (some labels) e = by_owned labels _ refl e

-- What `exact_authority` gives are the labels of an owned candidate.
at_time-IsValid :
    (now : ℕ) (resource : Resource) (authority : Labels) (given : Option Candidate)
    → owned_candidate instance' resource ≡ given
    → at_time now given ≡ gave authority
    → is_valid authority ≡ true
at_time-IsValid now resource authority none from e = cc e
at_time-IsValid now resource authority (some candidate) from e =
    by_time (ltb now (int candidate.labels.created_at)) e
  where
    labels_or : Reply Labels → Labels
    labels_or (gave l) = l
    labels_or _ = candidate.labels

    by_time :
        (early : Bool)
        → (if early
            then refused "trusted ownership interval or identity is malformed"
            else gave candidate.labels)
          ≡ gave authority
        → is_valid authority ≡ true
    by_time true e = cc e
    by_time false e =
        subst (λ l. is_valid l ≡ true) (ap labels_or e)
          (owned_candidate-IsValid instance' resource candidate from)

of_resource-IsValid :
    (sha : String) (now : ℕ) (authority : Labels) (given : Option Resource)
    → of_resource sha now given ≡ gave authority
    → is_valid authority ≡ true
of_resource-IsValid sha now authority none e = cc e
of_resource-IsValid sha now authority (some resource) e = by_sha (is_sha sha) e
  where
    by_sha :
        (well : Bool)
        → (if well
            then at_time now (owned_candidate instance' resource)
            else refused "trusted control SHA is malformed")
          ≡ gave authority
        → is_valid authority ≡ true
    by_sha true e = at_time-IsValid now resource authority _ refl e
    by_sha false e = cc e

exact_authority-IsValid :
    (variables : Arg Dict) (env : Env) (now : ℕ) (authority : Labels)
    → exact_authority variables env now ≡ gave authority
    → is_valid authority ≡ true
unfolding exact_authority
exact_authority-IsValid other env now authority e = cc e
exact_authority-IsValid (exact variables) env now authority e = by_context _ e
  where
    by_context :
        (accepted : Bool)
        → (if accepted
            then of_resource
                (text_or_empty (env_at "GITHUB_SHA" env))
                now
                (agree variables (expected_of env))
            else refused "exact cleanup requires accepted-main control")
          ≡ gave authority
        → is_valid authority ≡ true
    by_context true e = of_resource-IsValid _ now authority _ e
    by_context false e = cc e

-- The names of an admitted run are names of its resources: `component_path` gives the path of each
-- component.
pub exact_authority-component_path :
    (variables : Arg Dict) (env : Env) (now : ℕ) (authority : Labels) (component : Component)
    → exact_authority variables env now ≡ gave authority
    → component_path component (name_of authority component)
      ≡ gave (scope component <> "/" <> name_of authority component)
unfolding component_path
exact_authority-component_path variables env now authority component e =
    let valid : is_valid authority ≡ true = exact_authority-IsValid variables env now authority e in
    rw
      (is_resource_name-name_of authority component (numbers_of authority valid).0
        (numbers_of authority valid).1)
      refl
