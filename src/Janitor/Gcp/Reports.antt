-- ===== src/Janitor/Gcp/Reports.antt =====
-- What a cleanup that returns reports.
use deployment.Base.{
  ℕ, ◌≡◌, refl, ap, ◌∙◌, String, Bool, true, false, List, [], ◌∷◌, ◌++◌, if◌then◌else◌, ltb,
  string_eq,
}
use deployment.Janitor.Call.{gave, next, pure, next-gave, refuse_if}
use deployment.Janitor.Gcp.Contract.{
  resource_kinds, Resource, Candidate, parse_candidate, is_changed,
}
use deployment.Janitor.Gcp.Cleanup.{Client, parse_all, find, expire, expire_all, cleanup_expired}

-- The kinds and names of candidates.
abbrev pub keys : List Candidate → List (String × String)
keys [] = []
keys (candidate ∷ rest) = (candidate.kind, candidate.name) ∷ keys rest

module _ {World : Type 0} (client : Client World) (now : ℕ) (apply : Bool) where
  abbrev Key : Type 0
  Key = String × String

  -- The deletion that follows a read, with `apply` only.
  abbrev pub Deleted : Bool → Candidate → World → World → Type 0
  Deleted true candidate w w' =
      client.delete_resource candidate.kind candidate.name w ≡ (gave tt, w')
  Deleted false candidate w w' = w' ≡ w

  -- A candidate was read again, had not changed, and with `apply` its deletion returned.
  pub record Expired (candidate : Candidate) (w w' : World) : Type 0 where
    pub live : Resource
    pub between : World
    pub read : client.get_resource candidate.kind candidate.name w ≡ (gave live, between)
    pub unchanged : is_changed (parse_candidate candidate.kind live now) candidate ≡ false
    pub removed : Deleted apply candidate between w'

  -- One candidate after the other.
  abbrev pub AllExpired : List Candidate → World → World → Type 0
  AllExpired [] w w' = w' ≡ w
  AllExpired (candidate ∷ rest) w w' = (w1 : World) × Expired candidate w w1 × AllExpired rest w1 w'

  deletion_of :
      (a : Bool) (candidate : Candidate) (w w' : World) {done : Unit {0}}
      → (if a then client.delete_resource candidate.kind candidate.name else pure tt) w
        ≡ (gave done, w')
      → Deleted a candidate w w'
  deletion_of true candidate w w' e = e
  deletion_of false candidate w w' e = cc e

  after_test :
      (test : Bool) (message : String) (w w0 : World) {done : Unit {0}}
      → refuse_if test message w ≡ (gave done, w0)
      → (w0 ≡ w) × (test ≡ false)
  after_test true message w w0 e = cc e
  after_test false message w w0 e = (cc e, refl)

  expire-Expired :
      (candidate : Candidate) (w : World) (key : Key) (w' : World)
      → expire client now apply candidate w ≡ (gave key, w')
      → (key ≡ (candidate.kind, candidate.name)) × Expired candidate w w'
  unfolding expire
  expire-Expired candidate w key w' e =
      let (live, w1, read, e1) =
        next-gave (client.get_resource candidate.kind candidate.name w) _ key w' e in
      let (_, w2, tested, e2) =
        next-gave
          (refuse_if (is_changed (parse_candidate candidate.kind live now) candidate)
            "resource ownership changed during cleanup" w1)
          _ key w' e1 in
      let (_, w3, removed, e3) =
        next-gave
          ((if apply then client.delete_resource candidate.kind candidate.name else pure tt) w2) _
          key w' e2 in
      (key_of e3, ended w1 w2 w3 live read (after_test _ _ w1 w2 tested) removed (world_of e3))
    where
      key_of :
          {w3 : World}
          → pure (candidate.kind, candidate.name) w3 ≡ (gave key, w')
          → key ≡ (candidate.kind, candidate.name)
      key_of e = cc e

      world_of : {w3 : World} → pure (candidate.kind, candidate.name) w3 ≡ (gave key, w') → w3 ≡ w'
      world_of e = cc e

      ended :
          (w1 w2 w3 : World) (live : Resource) {done : Unit {0}}
          → client.get_resource candidate.kind candidate.name w ≡ (gave live, w1)
          → (w2 ≡ w1) × (is_changed (parse_candidate candidate.kind live now) candidate ≡ false)
          → (if apply then client.delete_resource candidate.kind candidate.name else pure tt) w2
            ≡ (gave done, w3)
          → w3 ≡ w'
          → Expired candidate w w'
      ended w1 w2 w3 live read (same, unchanged) removed last = record {
        live = live;
        between = w2;
        read = rw same read;
        unchanged = unchanged;
        removed = rw (← last) (deletion_of apply candidate w2 w3 removed);
      }

  expire_all-AllExpired :
      (candidates : List Candidate) (w : World) (deleted : List Key) (w' : World)
      → expire_all client now apply candidates w ≡ (gave deleted, w')
      → (deleted ≡ keys candidates) × AllExpired candidates w w'
  unfolding expire_all
  expire_all-AllExpired [] w deleted w' e = (cc e, cc e)
  expire_all-AllExpired (candidate ∷ rest) w deleted w' e =
      let (key, w1, e1, f1) = next-gave (expire client now apply candidate w) _ deleted w' e in
      let (more, w2, e2, f2) = next-gave (expire_all client now apply rest w1) _ deleted w' f1 in
      let (head, expired) = expire-Expired candidate w key w1 e1 in
      let (tail, others) = expire_all-AllExpired rest w1 more w2 e2 in
      let last : w2 ≡ w' = cc f2 in
      (cc (f2, head, tail), (w1, expired, moved rest w1 w2 last others))
    where
      moved :
          (rest : List Candidate) (w1 w2 : World)
          → w2 ≡ w'
          → AllExpired rest w1 w2
          → AllExpired rest w1 w'
      moved rest w1 w2 last h = rw (← last) h

  -- The reports of a cleanup.
  abbrev pub Complete : World → List Key → World → Type 0
  Complete w deleted w' =
      (instances : List Resource) × (disks : List Resource) × (w1 : World) × (w2 : World)
      × (client.list_resources "instances" w ≡ (gave instances, w1))
      × (client.list_resources "disks" w1 ≡ (gave disks, w2))
      × (deleted ≡ keys (parse_all "instances" now instances ++ parse_all "disks" now disks))
      × AllExpired (parse_all "instances" now instances ++ parse_all "disks" now disks) w2 w'

  expire_all-Complete :
      (w0 : World) (deleted : List Key) (w' : World)
      → next (find client now resource_kinds [] w0) (expire_all client now apply)
        ≡ (gave deleted, w')
      → Complete w0 deleted w'
  unfolding find
  expire_all-Complete w0 deleted w' e =
      let (found, w2, e2, f2) = next-gave (find client now resource_kinds [] w0) _ deleted w' e in
      let (instances, v1, g1, h1) =
        next-gave (client.list_resources "instances" w0) _ found w2 e2 in
      let (disks, v2, g2, h2) = next-gave (client.list_resources "disks" v1) _ found w2 h1 in
      let listed : found ≡ parse_all "instances" now instances ++ parse_all "disks" now disks =
        cc h2 in
      let here : w2 ≡ v2 = cc h2 in
      let (all_keys, all_expired) = expire_all-AllExpired found w2 deleted w' f2 in
      (
        instances,
        disks,
        v1,
        v2,
        g1,
        g2,
        all_keys ∙ ap keys listed,
        ended found _ w2 v2 w' listed here all_expired,
      )
    where
      ended :
          (found list : List Candidate) (w2 v2 w' : World)
          → found ≡ list
          → w2 ≡ v2
          → AllExpired found w2 w'
          → AllExpired list v2 w'
      ended found list w2 v2 w' listed here h = rw (← listed, ← here) h

  -- A cleanup that returns has listed the instances and then the disks, and reports the kinds and the
  -- names of all of them whose time is over, in the order of the lists. Each of these was read again
  -- and had not changed, and with `apply` its deletion returned.
  pub cleanup_expired-Complete :
      (w : World) (deleted : List Key) (w' : World)
      → cleanup_expired client now apply w ≡ (gave deleted, w')
      → Complete w deleted w'
  unfolding cleanup_expired
  cleanup_expired-Complete w deleted w' e =
      let (_, w0, e0, f0) =
        next-gave (refuse_if (ltb now 1600000000) "janitor clock is outside the supported epoch" w)
          _ deleted w' e in
      moved w0 (after_test _ _ w w0 e0).0 (expire_all-Complete w0 deleted w' f0)
    where
      moved : (w0 : World) → w0 ≡ w → Complete w0 deleted w' → Complete w deleted w'
      moved w0 same h = rw (← same) h
