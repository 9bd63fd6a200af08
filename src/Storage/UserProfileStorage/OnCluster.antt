-- ===== src/Storage/UserProfileStorage/OnCluster.antt =====
-- The cluster of src/redis_cluster.cc with the clients of src/redispp.cc, as src/user_profile_storage.cc
-- uses it. A pointer to a client is its node and its role.
pub mod RoundTrip
mod Tests
use recomm_engine.Prelude.{ℕ, Bool, true, false, Option, none, some, ◌>>=◌}
use recomm_engine.Prelude.Int.{ℤ}
use recomm_engine.Prelude.Texts.{Text}
use recomm_engine.RedisClient.Hiredis.{Hiredis, Client}
use recomm_engine.RedisClient.Commands.{get_value, set_ex}
use recomm_engine.RedisCluster.{get_node}
use recomm_engine.RedisCluster.Servers.{
  Cluster, set_master, set_slave, Role, the_master, the_slave, client_of, get_redis_node,
}
use recomm_engine.Storage.UserProfileStorage.{Redis}

abbrev pub set_client : {X : Type 0} → Text → Role → Client X → Cluster X → Cluster X
set_client name the_master c cl = set_master name c cl
set_client name the_slave c cl = set_slave name c cl

abbrev pub pointer : Text → Role → Bool → Option (Text × Role)
pointer name role false = none
pointer name role true = some (name, role)

module _ {N X : Type 0} (h : Hiredis N X) (hash : Text → ℕ) where
  unfoldable pub on_cluster : Redis (N × Cluster X) (Text × Role)
  on_cluster = record {
    get_redis_node = λ key s. do
      name ← get_node hash key s.1.hash_ring
      (n, cl, role, found) ← get_redis_node h hash key s.0 s.1
      some ((n, cl), pointer name role found);
    get = λ p key s. do
      c ← client_of p.1 (s.1.servers p.0)
      let (n, c, got) = get_value h key c s.0
      some ((n, set_client p.0 p.1 c s.1), got);
    set_ex = λ p key value life s. do
      c ← client_of p.1 (s.1.servers p.0)
      let (n, c, done) = set_ex h key value life c s.0
      some ((n, set_client p.0 p.1 c s.1), done);
  }
