-- ===== src/Rootless/Laws.antt =====
-- Which host identities the containers get.
use deployment.Base.{
  ℕ, ◌+◌, ◌-◌, ◌≤◌, ◌≡◌, refl, inl, inr, arith, ap, ◌∙◌, ◌≢◌, ◌>>◌, String, Bool, true, false, not,
  ◌&&◌, ◌||◌, ltb, eqb, Result, ok, raise_if, Bool-cases,
}
use mathlib.Core.Path.{subst}
use deployment.Rootless.{
  Value, natural, negative, no_integer, Mapping, Kind, uid, gid, another_kind, service_of, start_of,
  is_count, is_range, is_mapping, host_of, mapped, map_rootless_id,
}

-- What an accepted range maps to.
host_of-total :
    (service start : Value) (container_id : ℕ)
    → is_range service start ≡ true
    → container_id ≤ 65536
    → (host : ℕ) × (host_of service start container_id ≡ ok host)
      × (1000 ≤ host)
      × (host ≤ 4294967294)
host_of-total (natural service) (natural start) container_id range le =
    elim (Bool-cases (eqb container_id 0)) [
      | inl first ↦ (service, ground arith, ground arith, ground arith)
      | inr later ↦ (start + container_id - 1, ground arith, ground arith, ground arith)
    ]
host_of-total (natural service) (negative _) container_id range le = cc range
host_of-total (natural service) no_integer container_id range le = cc range
host_of-total (negative _) start container_id range le = cc range
host_of-total no_integer start container_id range le = cc range

host_of-injective :
    (service start c d host : ℕ)
    → is_range (natural service) (natural start) ≡ true
    → c ≤ 65536
    → d ≤ 65536
    → host_of (natural service) (natural start) c ≡ ok host
    → host_of (natural service) (natural start) d ≡ ok host
    → c ≡ d
host_of-injective service start c d host range lc ld e f = ground arith

-- The ranges of an accepted mapping.
range_of :
    (mapping : Mapping)
    → is_mapping mapping ≡ true
    → (is_range (service_of uid mapping) (start_of uid mapping) ≡ true)
      × (is_range (service_of gid mapping) (start_of gid mapping) ≡ true)
      × (is_count mapping.count ≡ true)
unfolding is_mapping
range_of mapping h =
    split (is_count mapping.count) (is_range (service_of uid mapping) (start_of uid mapping))
      (is_range (service_of gid mapping) (start_of gid mapping)) h
  where
    split : (a b c : Bool) → (a && b && c) ≡ true → (b ≡ true) × (c ≡ true) × (a ≡ true)
    split true true true h = (refl, refl, refl)
    split true true false h = cc h
    split true false c h = cc h
    split false b c h = cc h

counted :
    {A : Type 0} (count : Value) (container_id : ℕ) (rest : Result A) (text : String)
    → is_count count ≡ true
    → container_id ≤ 65536
    → (raise_if (not (is_count count) || ltb 65536 container_id) text >> rest) ≡ rest
counted count container_id rest text h le =
    let fits : ltb 65536 container_id ≡ false = ground arith in rw (h, fits) refl

-- With an accepted mapping, each identity of a container from 0 to 65536 has a host identity of a known
-- kind, which is from 1000 to 4294967294.
pub map_rootless_id-total :
    (mapping : Mapping) (kind : Kind) (container_id : ℕ)
    → is_mapping mapping ≡ true
    → kind ≢ another_kind
    → container_id ≤ 65536
    → (host : ℕ) × (map_rootless_id (natural container_id) mapping kind ≡ ok host)
      × (1000 ≤ host)
      × (host ≤ 4294967294)
unfolding map_rootless_id
map_rootless_id-total mapping another_kind container_id h known le = absurd (known refl)
map_rootless_id-total mapping uid container_id h known le =
    let (host, e, low, high) =
      host_of-total (service_of uid mapping) (start_of uid mapping) container_id
        (range_of mapping h).0 le in
    (host, counted mapping.count container_id _ _ (range_of mapping h).2 le ∙ e, low, high)
map_rootless_id-total mapping gid container_id h known le =
    let (host, e, low, high) =
      host_of-total (service_of gid mapping) (start_of gid mapping) container_id
        (range_of mapping h).1 le in
    (host, counted mapping.count container_id _ _ (range_of mapping h).2 le ∙ e, low, high)

-- A container identity that is mapped is one of the range.
in_range :
    {A : Type 0} (count : Value) (container_id : ℕ) (rest : Result A) (text : String) (a : A)
    → is_count count ≡ true
    → (raise_if (not (is_count count) || ltb 65536 container_id) text >> rest) ≡ ok a
    → (container_id ≤ 65536) × (rest ≡ ok a)
in_range count container_id rest text a h e =
    by_test (ltb 65536 container_id) refl
      (subst (λ b. (raise_if (not b || ltb 65536 container_id) text >> rest) ≡ ok a) h e)
  where
    by_test :
        (beyond : Bool)
        → ltb 65536 container_id ≡ beyond
        → (raise_if beyond text >> rest) ≡ ok a
        → (container_id ≤ 65536) × (rest ≡ ok a)
    by_test true f e = cc e
    by_test false f e = (ground arith, e)

values-injective :
    (service start : Value) (c d host : ℕ)
    → is_range service start ≡ true
    → c ≤ 65536
    → d ≤ 65536
    → host_of service start c ≡ ok host
    → host_of service start d ≡ ok host
    → c ≡ d
values-injective (natural service) (natural start) c d host range lc ld e f =
    host_of-injective service start c d host range lc ld e f
values-injective (natural service) (negative _) c d host range lc ld e f = cc range
values-injective (natural service) no_integer c d host range lc ld e f = cc range
values-injective (negative _) start c d host range lc ld e f = cc range
values-injective no_integer start c d host range lc ld e f = cc range

mapped-injective :
    (mapping : Mapping) (kind : Kind) (c d : Value) (host : ℕ)
    → is_count mapping.count ≡ true
    → is_range (service_of kind mapping) (start_of kind mapping) ≡ true
    → mapped c mapping kind ≡ ok host
    → mapped d mapping kind ≡ ok host
    → c ≡ d
mapped-injective mapping kind no_integer d host count range e f = cc e
mapped-injective mapping kind (negative _) d host count range e f = cc e
mapped-injective mapping kind (natural c) no_integer host count range e f = cc f
mapped-injective mapping kind (natural c) (negative _) host count range e f = cc f
mapped-injective mapping kind (natural c) (natural d) host count range e f =
    let (lc, e') = in_range mapping.count c _ _ host count e in
    let (ld, f') = in_range mapping.count d _ _ host count f in
    ap natural (
      values-injective (service_of kind mapping) (start_of kind mapping) c d host range lc ld e' f')

-- With an accepted mapping, no two objects are mapped to the same host identity of a kind.
pub map_rootless_id-injective :
    (mapping : Mapping) (kind : Kind) (c d : Value) (host : ℕ)
    → is_mapping mapping ≡ true
    → map_rootless_id c mapping kind ≡ ok host
    → map_rootless_id d mapping kind ≡ ok host
    → c ≡ d
unfolding map_rootless_id
map_rootless_id-injective mapping another_kind c d host h e f = cc e
map_rootless_id-injective mapping uid c d host h e f =
    mapped-injective mapping uid c d host (range_of mapping h).2 (range_of mapping h).0 e f
map_rootless_id-injective mapping gid c d host h e f =
    mapped-injective mapping gid c d host (range_of mapping h).2 (range_of mapping h).1 e f
