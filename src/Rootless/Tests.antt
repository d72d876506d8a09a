-- ===== src/Rootless/Tests.antt =====
-- Runs of the mapping of a deployment, and the theorems at it.
use deployment.Base.{ℕ, ◌≤◌, ◌≡◌, ◌≢◌, refl, arith, true, ok}
use deployment.Rootless.{natural, Mapping, uid, gid, another_kind, is_mapping, map_rootless_id}
use deployment.Rootless.Laws.{map_rootless_id-total, map_rootless_id-injective}

abbrev mapping : Mapping
mapping = record {
  service_uid = natural 1001;
  service_gid = natural 1002;
  uid_start = natural 100000;
  gid_start = natural 200000;
  count = natural 65536;
}

mapping_accepted : is_mapping mapping ≡ true
unfolding is_mapping
mapping_accepted = refl

postgres : map_rootless_id (natural 101) mapping uid ≡ ok 100100
unfolding map_rootless_id
postgres = refl

gid-≢ : gid ≢ another_kind
gid-≢ e = cc e

map_rootless_id-total_example :
    (host : ℕ) × (map_rootless_id (natural 65536) mapping gid ≡ ok host)
    × (1000 ≤ host)
    × (host ≤ 4294967294)
map_rootless_id-total_example =
    map_rootless_id-total mapping gid 65536 mapping_accepted gid-≢ (omega arith)

map_rootless_id-injective_example : natural 101 ≡ natural 101
map_rootless_id-injective_example =
    map_rootless_id-injective mapping uid (natural 101) (natural 101) 100100 mapping_accepted
      postgres postgres
