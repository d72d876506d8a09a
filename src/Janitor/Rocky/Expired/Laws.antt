-- ===== src/Janitor/Rocky/Expired/Laws.antt =====
-- `cleanup_expired` over any client: what stands before its deletions.
use deployment.Base.{
  &&-right, ℕ, ◌≡◌, refl, arith, String, Bool, true, false, not, List, [], ◌∷◌, ◌++◌, Option, none,
  some, if◌then◌else◌, ltb, ◌==◌, option_eq, string_eq, list_eq,
}
use deployment.Janitor.Call.{
  Reply, gave, refused, escaped, Act, next, refuse_if, pure, lift, ◌>>=◌, ◌>>◌,
}
use deployment.Janitor.Rocky.Contract.{
  Component, delete_order, Resource, Labels, items, name_of, Candidate, parse_candidate,
}
use deployment.Janitor.Rocky.Observe.{Client, same_labels}
use deployment.Janitor.Rocky.Trace.{Event, got, deleted, listed, traced}
use deployment.Janitor.Rocky.Expired.{
  Group, member_of, is_changed, same_candidate, same_component, parse_live, id_of, collect,
  delete_live, expire, expire_members, expire_runs, cleanup_expired, is_uniform, sorted_runs,
  add_all,
}
use deployment.Janitor.Rocky.Expired.Parsed.{IsExpired, parse_candidate-IsExpired}

-- What stands before a deletion: the read just before it found under this name and with this identity
-- a resource whose time is over.
pub record IsDue (component : Component) (name id : String) (now : ℕ) (log : List Event)
    : Type 0 where
  pub resource : Resource
  pub labels : Labels
  pub earlier : List Event
  pub after_read : log ≡ got component name (gave (some resource)) ∷ earlier
  pub expired : IsExpired component resource labels now
  pub by_name : name ≡ name_of labels component
  pub by_id : id ≡ resource.shown_id

-- The log has deletions only with `--apply`, and each is due.
abbrev pub Due : Bool → ℕ → List Event → Type 0
Due apply now [] = Unit
Due apply now (deleted component name id ∷ log) =
    ((apply ≡ true) × IsDue component name id now log) × Due apply now log
Due apply now (got _ _ _ ∷ log) = Due apply now log
Due apply now (listed _ ∷ log) = Due apply now log

same_name :
    (l l' : Labels) (component : Component)
    → same_labels l l' ≡ true
    → name_of l' component ≡ name_of l component
same_name l l' component h = named (same_items h)
  where
    same_items : (items l == items l') ≡ true → items l ≡ items l'
    same_items h = ground (arith, h)

    named : items l ≡ items l' → name_of l' component ≡ name_of l component
    named e =
        let run : l.github_run_id ≡ l'.github_run_id = cc e in
        let attempt : l.github_run_attempt ≡ l'.github_run_attempt = cc e in rw (run, attempt) refl

-- What was read again is the candidate.
unchanged-IsDue :
    (component : Component) (live : Option Resource) (now : ℕ) (candidate : Candidate)
    (log : List Event)
    → is_changed (parse_live component live now) candidate ≡ false
    → IsDue component
        (name_of candidate.labels component)
        (id_of live)
        now
        (got component (name_of candidate.labels component) (gave live) ∷ log)
unchanged-IsDue component none now candidate log h = cc h
unchanged-IsDue component (some resource) now candidate log h =
    by_current (parse_candidate component resource now) refl h
  where
    by_current :
        (current : Option Candidate)
        → parse_candidate component resource now ≡ current
        → is_changed current candidate ≡ false
        → IsDue component
            (name_of candidate.labels component)
            resource.shown_id
            now
            (got component (name_of candidate.labels component) (gave (some resource)) ∷ log)
    by_current none parsed h = cc h
    by_current (some current) parsed h = record {
      resource = resource;
      labels = current.labels;
      earlier = log;
      after_read = refl;
      expired = parse_candidate-IsExpired component resource now current parsed;
      by_name = same_name current.labels candidate.labels component (
          &&-right (same_component current.component candidate.component)
            (same_labels current.labels candidate.labels) (both current candidate h));
      by_id = refl;
    }
      where
        both : (c d : Candidate) → not (same_candidate c d) ≡ false → same_candidate c d ≡ true
        both c d h = ground (arith, h)

module _ {World : Type 0} (client : Client World) (now : ℕ) (apply : Bool) where
  -- Of the state after a call, however it ends.
  abbrev pub Kept : {A : Type 0} → Reply A × (World × List Event) → Type 0
  Kept reply = Due apply now reply.1.1

  next-Kept :
      {A B : Type 0} (reply : Reply A × (World × List Event))
      (continue : A → Act (World × List Event) B)
      → Kept reply
      → ((a : A) (s : World × List Event) → Due apply now s.1 → Kept (continue a s))
      → Kept (next reply continue)
  next-Kept (gave a, s) continue h go_on = go_on a s h
  next-Kept (refused message, s) continue h go_on = h
  next-Kept (escaped, s) continue h go_on = h

  delete_live-Kept :
      (component : Component) (candidate : Candidate) (live : Option Resource) (w : World)
      (log : List Event)
      → Due apply now log
      → is_changed (parse_live component live now) candidate ≡ false
      → Kept (
          delete_live
            (traced client)
            now
            apply
            component
            candidate
            live
            (w, got component (name_of candidate.labels component) (gave live) ∷ log))
  delete_live-Kept component candidate live w log h same = by_apply apply refl
    where
      read : List Event
      read = got component (name_of candidate.labels component) (gave live) ∷ log

      sent :
          (reply : Reply (Unit {0}) × World)
          → apply ≡ true
          → Kept (
            reply.0,
            (reply.1, deleted component (name_of candidate.labels component) (id_of live) ∷ read),
          )
      sent (gave _, w) e = ((e, unchanged-IsDue component live now candidate log same), h)
      sent (refused message, w) e = ((e, unchanged-IsDue component live now candidate log same), h)
      sent (escaped, w) e = ((e, unchanged-IsDue component live now candidate log same), h)

      by_apply :
          (a : Bool)
          → apply ≡ a
          → Kept (
              (if a
                  then (traced client).delete_component component
                      (name_of candidate.labels component)
                      (id_of live)
                  else pure tt)
                (w, read))
      by_apply true e =
          sent
            (client.delete_component component (name_of candidate.labels component) (id_of live) w)
            e
      by_apply false e = h

  expire-Kept :
      (component : Component) (candidate : Option Candidate) (s : World × List Event)
      → Due apply now s.1
      → Kept (expire (traced client) now apply component candidate s)
  unfolding expire
  expire-Kept component none s h = h
  expire-Kept component (some candidate) (w, log) h =
      by_reply (client.get_component component (name_of candidate.labels component) w)
    where
      tested :
          (live : Option Resource) (w : World) (changed : Bool)
          → is_changed (parse_live component live now) candidate ≡ changed
          → Kept {A = List (Component × String)} (
              (do
                refuse_if changed "Rocky resource ownership changed during cleanup"
                delete_live (traced client) now apply component candidate live
                pure ((component, name_of candidate.labels component) ∷ []))
                (w, got component (name_of candidate.labels component) (gave live) ∷ log))
      tested live w true e = h
      tested live w false e =
          next-Kept
            (delete_live (traced client) now apply component candidate live
              (w, got component (name_of candidate.labels component) (gave live) ∷ log))
            _ (delete_live-Kept component candidate live w log h e) λ _ s h2. h2

      by_reply :
          (reply : Reply (Option Resource) × World)
          → Kept {A = List (Component × String)} (
              next
                (
                  reply.0,
                  (reply.1, got component (name_of candidate.labels component) reply.0 ∷ log),
                )
                λ live. do
                  refuse_if
                      (is_changed (parse_live component live now) candidate)
                      "Rocky resource ownership changed during cleanup"
                  delete_live (traced client) now apply component candidate live
                  pure ((component, name_of candidate.labels component) ∷ []))
      by_reply (gave live, w) =
          tested live w (is_changed (parse_live component live now) candidate) refl
      by_reply (refused message, w) = h
      by_reply (escaped, w) = h

  expire_members-Kept :
      (components : List Component) (members : List Candidate) (s : World × List Event)
      → Due apply now s.1
      → Kept (expire_members (traced client) now apply components members s)
  unfolding expire_members
  expire_members-Kept [] members s h = h
  expire_members-Kept (component ∷ rest) members s h =
      next-Kept (expire (traced client) now apply component (member_of component members) s) _
        (expire-Kept component (member_of component members) s h)
        λ _ s2 h2.
          next-Kept (expire_members (traced client) now apply rest members s2) _
            (expire_members-Kept rest members s2 h2) λ _ s3 h3. h3

  expire_runs-Kept :
      (groups : List Group) (s : World × List Event)
      → Due apply now s.1
      → Kept (expire_runs (traced client) now apply groups s)
  unfolding expire_runs
  expire_runs-Kept [] s h = h
  expire_runs-Kept (group ∷ rest) s h =
      next-Kept
        ((if is_uniform group.members
            then expire_members (traced client) now apply delete_order group.members
            else pure [])
          s)
        (λ deleted. do more ← expire_runs (traced client) now apply rest; pure (deleted ++ more))
        (members (is_uniform group.members))
        λ _ s2 h2.
          next-Kept (expire_runs (traced client) now apply rest s2) _ (expire_runs-Kept rest s2 h2)
            λ _ s3 h3. h3
    where
      members :
          (uniform : Bool)
          → Kept (
              (if uniform
                  then expire_members (traced client) now apply delete_order group.members
                  else pure [])
                s)
      members true = expire_members-Kept delete_order group.members s h
      members false = h

  collect-Kept :
      (components : List Component) (groups : List Group) (s : World × List Event)
      → Due apply now s.1
      → Kept (collect (traced client) now apply components groups s)
  unfolding collect
  collect-Kept [] groups s h = h
  collect-Kept (component ∷ rest) groups (w, log) h =
      next-Kept ((traced client).list_component component (w, log))
        (λ resources. do
          more ← lift (add_all component now resources groups)
          collect (traced client) now apply rest more)
        h
        λ resources s h2.
          next-Kept (lift (add_all component now resources groups) s)
            (collect (traced client) now apply rest) h2 λ more s3 h3. collect-Kept rest more s3 h3

  -- Over any client, `cleanup_expired` deletes nothing without `apply`. With it, each deletion follows
  -- at once on a read that found, under the name and with the identity that it deletes, a resource
  -- with the labels of a run of three hours at most whose time is over.
  pub cleanup_expired-Due : (w : World) → Kept (cleanup_expired (traced client) now apply (w, []))
  unfolding cleanup_expired
  cleanup_expired-Due w = by_clock (ltb now 1600000000)
    where
      by_clock :
          (early : Bool)
          → Kept (
              (do
                refuse_if early "janitor clock is outside the supported epoch"
                groups ← collect (traced client) now apply delete_order []
                expire_runs (traced client) now apply (sorted_runs groups))
                (w, []))
      by_clock true = tt
      by_clock false =
          next-Kept (collect (traced client) now apply delete_order [] (w, []))
            (λ groups. expire_runs (traced client) now apply (sorted_runs groups))
            (collect-Kept delete_order [] (w, []) tt)
            λ groups s h. expire_runs-Kept (sorted_runs groups) s h
