-- ===== src/Janitor/Gcp/Keeps.antt =====
-- What `cleanup_expired` keeps, over any client whose operations keep it.
use deployment.Base.{
  ℕ, ◌≡◌, refl, String, Bool, true, false, List, [], ◌∷◌, ◌++◌, if◌then◌else◌, ltb, option_eq,
  string_eq, list_eq,
}
use deployment.Janitor.Call.{Reply, Act, pure, Ends, next, next-Ends, ◌>>=◌, ◌>>◌, refuse_if}
use deployment.Janitor.Gcp.Contract.{
  resource_kinds, Resource, Candidate, parse_candidate, is_changed,
}
use deployment.Janitor.Gcp.Cleanup.{Client, parse_all, find, expire, expire_all, cleanup_expired}

module _ {World : Type 0} (client : Client World) (now : ℕ) (apply : Bool) (I : World → Type 0)
    (Read : String → String → Resource → World → Type 0) where
  abbrev pub Kept : {A : Type 0} → Reply A × World → Type 0
  Kept reply = Ends (λ _ w. I w) I reply

  -- The laws of a client: a property of the world is kept, a read shows what it read, and a deletion
  -- is asked for only with `apply` and after a read that showed the unchanged candidate.
  pub record IsKeeping : Type 0 where
    pub lists : (kind : String) (w : World) → I w → Kept (client.list_resources kind w)
    pub reads :
        (kind name : String) (w : World)
        → I w
        → Ends (λ resource w. I w × Read kind name resource w) I (client.get_resource kind name w)
    pub deletes :
        (candidate : Candidate) (live : Resource) (w : World)
        → apply ≡ true
        → I w
        → Read candidate.kind candidate.name live w
        → is_changed (parse_candidate candidate.kind live now) candidate ≡ false
        → Kept (client.delete_resource candidate.kind candidate.name w)

  module _ (keeping : IsKeeping) where
    next-Kept :
        {A B : Type 0} (reply : Reply A × World) (continue : A → Act World B)
        → Kept reply
        → ((a : A) (w : World) → I w → Kept (continue a w))
        → Kept (next reply continue)
    next-Kept {A} {B} reply continue =
        next-Ends (λ (a : A) w. I w) (λ (b : B) w. I w) I reply continue

    find-Kept :
        (kinds : List String) (expired : List Candidate) (w : World)
        → I w
        → Kept (find client now kinds expired w)
    unfolding find
    find-Kept [] expired w h = h
    find-Kept (kind ∷ rest) expired w h =
        next-Kept (client.list_resources kind w) _ (keeping.lists kind w h)
          λ resources. find-Kept rest (expired ++ parse_all kind now resources)

    unchanged-Kept :
        (candidate : Candidate) (live : Resource) (changed : Bool) (w : World)
        → I w
        → Read candidate.kind candidate.name live w
        → is_changed (parse_candidate candidate.kind live now) candidate ≡ changed
        → Kept {A = String × String} (
            (do
              refuse_if changed "resource ownership changed during cleanup"
              if apply then client.delete_resource candidate.kind candidate.name else pure tt
              pure (candidate.kind, candidate.name))
              w)
    unchanged-Kept candidate live true w h shown e = h
    unchanged-Kept candidate live false w h shown e = by_apply apply refl
      where
        by_apply :
            (a : Bool)
            → apply ≡ a
            → Kept {A = String × String} (
                (do
                  if a then client.delete_resource candidate.kind candidate.name else pure tt
                  pure (candidate.kind, candidate.name))
                  w)
        by_apply true applied =
            next-Kept (client.delete_resource candidate.kind candidate.name w) _
              (keeping.deletes candidate live w applied h shown e) λ _ w1 h1. h1
        by_apply false applied = h

    expire-Kept :
        (candidate : Candidate) (w : World) → I w → Kept (expire client now apply candidate w)
    unfolding expire
    expire-Kept candidate w h =
        next-Ends (λ resource w. I w × Read candidate.kind candidate.name resource w)
          (λ (_ : String × String) w. I w) I (client.get_resource candidate.kind candidate.name w) _
          (keeping.reads candidate.kind candidate.name w h)
          λ live w1 (h1, shown). unchanged-Kept candidate live _ w1 h1 shown refl

    expire_all-Kept :
        (candidates : List Candidate) (w : World)
        → I w
        → Kept (expire_all client now apply candidates w)
    unfolding expire_all
    expire_all-Kept [] w h = h
    expire_all-Kept (candidate ∷ rest) w h =
        next-Kept (expire client now apply candidate w) _ (expire-Kept candidate w h)
          λ deleted w1 h1.
            next-Kept (expire_all client now apply rest w1) _ (expire_all-Kept rest w1 h1)
              λ _ w2 h2. h2

    pub cleanup_expired-Kept : (w : World) → I w → Kept (cleanup_expired client now apply w)
    unfolding cleanup_expired
    cleanup_expired-Kept w h = by_clock (ltb now 1600000000)
      where
        by_clock :
            (early : Bool)
            → Kept {A = List (String × String)} (
                (do
                  refuse_if early "janitor clock is outside the supported epoch"
                  expired ← find client now resource_kinds []
                  expire_all client now apply expired)
                  w)
        by_clock true = h
        by_clock false =
            next-Kept (find client now resource_kinds [] w) _ (find-Kept resource_kinds [] w h)
              λ expired. expire_all-Kept expired
