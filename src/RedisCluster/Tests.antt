-- ===== src/RedisCluster/Tests.antt =====
-- A ring of src/redis_cluster.cc with three places, and a cluster on it.
use recomm_engine.Prelude.{ℕ, ◌+◌, ◌*◌, ◌≡◌, refl, some, [], ◌∷◌, arith}
use recomm_engine.Prelude.Maps.{Map}
use recomm_engine.Prelude.Texts.{Text, ascii}
use recomm_engine.RedisCluster.{Node, lower_bound, get_node, to_string}
use recomm_engine.Prelude.{Option, true, none, if◌then◌else◌, ◌==◌}
use recomm_engine.Prelude.Int.{pos}
use recomm_engine.RedisClient.Hiredis.{Hiredis, Client, status, closed}
use recomm_engine.RedisClient.Connection.{connect, disconnect, reconnect, pong, ping_server}
use recomm_engine.RedisCluster.Servers.{Cluster, set_master, the_master, try_master, get_redis_node}
use recomm_engine.RedisCluster.Servers.Choice.{IsChoice, get_redis_node-IsChoice}
use recomm_engine.RedisCluster.Owner.{Owns, get_node_lem}

abbrev ring : Map Node
ring =
    (10, record { node_name = 97 ∷ []; replicas = 2 })
    ∷ (20, record { node_name = 98 ∷ []; replicas = 1 })
    ∷ (30, record { node_name = 97 ∷ []; replicas = 2 })
    ∷ []

abbrev hash : Text → ℕ
hash [] = 0
hash (c ∷ t) = c + 2 * hash t

name_cut : to_string 1234567890 ≡ 49 ∷ 50 ∷ 51 ∷ 52 ∷ 53 ∷ 54 ∷ 55 ∷ 56 ∷ 57 ∷ []
unfolding to_string
name_cut = refl

-- The key's hash is 35, behind the last place.
get_node_lem_example :
    (k : ℕ) × (node : Node) × (get_node hash (35 ∷ []) ring ≡ some node.node_name)
    × Owns ring 35 k node
get_node_lem_example = get_node_lem hash (35 ∷ []) ring (omega arith, (omega arith, tt)) (λ e. cc)

-- Context 0 is lost, and each new one works.
abbrev net : Hiredis ℕ ℕ
net = record {
  connect_with_timeout = λ ip port second n. (n + 1, n + 1);
  err = λ x n. pos 0;
  errstr = λ x n. ascii "lost";
  set_timeout = λ x second micro n. (n, true);
  free = λ x n. n;
  append_command = λ x c n. (n, true);
  command = λ x c n. (n, if x == 0 then none else some (status (ascii "PONG")));
  get_reply = λ x n. (n, none);
  receive = λ x n. (n, closed);
}

abbrev master : Option ℕ → Client ℕ
master ctx = record { ip = ascii "a"; port = pos 6379; ctx = ctx; last_error = [] }

abbrev cluster : Cluster ℕ
cluster = record {
  is_open_slave = pos 0;
  hash_ring = ring;
  servers = λ name. record { master = some (master (some 0)); slave = none };
}

get_redis_node-IsChoice_example :
    IsChoice {N = ℕ}
      (ascii "a")
      cluster
      (1, set_master (ascii "a") (master (some 1)) cluster, the_master, true)
unfolding get_redis_node try_master ping_server pong reconnect disconnect connect get_node
    lower_bound
get_redis_node-IsChoice_example =
    get_redis_node-IsChoice net hash (35 ∷ []) (ascii "a") 0 cluster
      (1, set_master (ascii "a") (master (some 1)) cluster, the_master, true) refl refl
