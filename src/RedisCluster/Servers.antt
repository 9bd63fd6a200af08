-- ===== src/RedisCluster/Servers.antt =====
-- The servers of src/redis_cluster.cc: their loading from a configuration, and the choice of a live
-- client, over the clients of src/redispp.cc. `N` is the network, and `X` a context of hiredis. Boost's
-- parser and `lexical_cast` are arguments. `none` is a crash or an exception.
pub mod Choice
use recomm_engine.Prelude.{
  ℕ, Bool, true, false, ◌&&◌, not, Option, none, some, List, [], ◌∷◌, if◌then◌else◌, ◌>>=◌,
}
use recomm_engine.Prelude.Texts.{Text, same_text}
use recomm_engine.Prelude.Maps.{Map}
use recomm_engine.Prelude.Int.{ℤ, pos, eqb_ℤ}
use recomm_engine.RedisClient.Hiredis.{Hiredis, Client}
use recomm_engine.RedisClient.Connection.{new_client, connect, reconnect, ping_server}
use recomm_engine.RedisCluster.{Node, add_node, get_node}

pub record RedisPair (X : Type 0) : Type 0 where
  pub master : Option (Client X)
  pub slave : Option (Client X)

-- `servers name` is the pair that `servers_[name]` gives, two nulls where there was none.
pub record Cluster (X : Type 0) : Type 0 where
  pub is_open_slave : ℤ
  pub hash_ring : Map Node
  pub servers : Text → RedisPair X

-- The configuration, each server by its fields, and the conversions of text.
pub record Config : Type 0 where
  pub is_open_slave : Option ℤ
  pub redises_master : List (List Text)
  pub redises_slave : List (List Text)

pub data ConfigFile : Type 0 where
  not_good : ConfigFile
  not_parsed : ConfigFile
  parsed : Config → ConfigFile

pub record Casts : Type 0 where
  pub to_int : Text → Option ℤ
  pub to_unsigned : Text → Option ℕ

module _ {X : Type 0} where
  abbrev pub set_server : Text → RedisPair X → Cluster X → Cluster X
  set_server name p cl = record cl { servers = λ n. if same_text name n then p else cl.servers n }

  abbrev pub set_master : Text → Client X → Cluster X → Cluster X
  set_master name c cl = set_server name (record (cl.servers name) { master = some c }) cl

  abbrev pub set_slave : Text → Client X → Cluster X → Cluster X
  set_slave name c cl = set_server name (record (cl.servers name) { slave = some c }) cl

  abbrev with_flag : Option ℤ → Cluster X → Cluster X
  with_flag none cl = cl
  with_flag (some flag) cl = record cl { is_open_slave = flag }

module _ {N X : Type 0} (h : Hiredis N X) (casts : Casts) (hash : Text → ℕ) where
  -- The network and the cluster, and the result.
  abbrev Loaded : Type 0
  Loaded = Option (N × Cluster X × Bool)

  -- A master of the configuration: its node on the ring, its client, and no slave yet.
  unfoldable pub add_master : List Text → N → Cluster X → Loaded
  add_master (node_name ∷ host ∷ port ∷ replicas ∷ rest) n cl =
      go (casts.to_int port) (casts.to_unsigned replicas)
    where
      go : Option ℤ → Option ℕ → Loaded
      go none replicas = some (n, cl, false)
      go (some port) none = some (n, cl, false)
      go (some port) (some replicas) =
          let (n, c, connected) = connect h (new_client h host port) n in
          let cl = record cl { hash_ring = add_node hash node_name replicas cl.hash_ring } in
          some (
            if connected
            then (n, set_server node_name (record { master = some c; slave = none }) cl, true)
            else (n, set_master node_name c cl, false))
  add_master (node_name ∷ host ∷ port ∷ []) n cl = elim (casts.to_int port) [
    | none ↦ some (n, cl, false)
    | some port ↦ none
  ]
  add_master fields n cl = none

  unfoldable pub add_slave : List Text → N → Cluster X → Loaded
  add_slave (node_name ∷ host ∷ port ∷ rest) n cl = go (casts.to_int port)
    where
      go : Option ℤ → Loaded
      go none = some (n, cl, false)
      go (some port) =
          let (n, c, connected) = connect h (new_client h host port) n in
          some (n, set_slave node_name c cl, connected)
  add_slave fields n cl = none

  -- A loop over servers, which stops at the first that fails.
  unfoldable pub add_all :
      (List Text → N → Cluster X → Loaded) → List (List Text) → N → Cluster X → Loaded
  add_all add [] n cl = some (n, cl, true)
  add_all add (fields ∷ items) n cl = do
    (n, cl, done) ← add fields n cl
    if done then add_all add items n cl else some (n, cl, false)

  unfoldable pub load_redises_master : ConfigFile → N → Cluster X → Loaded
  load_redises_master not_good n cl = some (n, cl, false)
  load_redises_master not_parsed n cl = none
  load_redises_master (parsed cfg) n cl =
      add_all add_master cfg.redises_master n (with_flag cfg.is_open_slave cl)

  unfoldable pub load_redises_slave : ConfigFile → N → Cluster X → Loaded
  load_redises_slave not_good n cl = some (n, cl, false)
  load_redises_slave not_parsed n cl = none
  load_redises_slave (parsed cfg) n cl =
      add_all add_slave cfg.redises_slave n (with_flag cfg.is_open_slave cl)

  -- The file is read once for the masters and once for the slaves.
  unfoldable pub initialize : ConfigFile → ConfigFile → N → Cluster X → Loaded
  initialize first second n cl = do
    (n, cl, done) ← load_redises_master first n cl
    if done && not (eqb_ℤ cl.is_open_slave (pos 0))
        then load_redises_slave second n cl
        else some (n, cl, done)

pub data Role : Type 0 where
  the_master the_slave : Role

abbrev pub client_of : {X : Type 0} → Role → RedisPair X → Option (Client X)
client_of the_master p = p.master
client_of the_slave p = p.slave

-- The network and the cluster, what `*client` points to, and the result.
abbrev pub Chosen : Type 0 → Type 0 → Type 0
Chosen N X = N × Cluster X × Role × Bool

module _ {N X : Type 0} (h : Hiredis N X) (hash : Text → ℕ) where
  abbrev back_master : Text → Client X → N → Cluster X → Chosen N X
  back_master name c n cl =
      let (n, c, back) = reconnect h c n in (n, set_master name c cl, the_master, back)

  abbrev back_slave : Text → Client X → N → Cluster X → Chosen N X
  back_slave name c n cl =
      let (n, c, back) = reconnect h c n in (n, set_slave name c cl, the_slave, back)

  -- The slave, where the master could not be reached; a null pointer is a crash.
  unfoldable pub try_slave : Text → Option (Client X) → N → Cluster X → Option (Chosen N X)
  try_slave name none n cl = none
  try_slave name (some c) n cl =
      let (n, c, alive) = ping_server h c n in
      some (if alive then (n, set_slave name c cl, the_slave, true) else back_slave name c n cl)

  -- Where neither the ping nor the first reconnection succeeded.
  abbrev second_chance : Text → Client X → N → Cluster X → Option (Chosen N X)
  second_chance name c n cl =
      if eqb_ℤ cl.is_open_slave (pos 0)
      then some (back_master name c n cl)
      else try_slave name (cl.servers name).slave n (set_master name c cl)

  unfoldable pub try_master : Text → Option (Client X) → N → Cluster X → Option (Chosen N X)
  try_master name none n cl = none
  try_master name (some c) n cl =
      let (n, c, alive) = ping_server h c n in
      let (n2, c2, back) = reconnect h c n in
      let rest = second_chance name c2 n2 cl in
      if alive
      then some (n, set_master name c cl, the_master, true)
      else if back
      then some (n2, set_master name c2 cl, the_master, true)
      else rest

  unfoldable pub get_redis_node : Text → N → Cluster X → Option (Chosen N X)
  get_redis_node key n cl = do
    name ← get_node hash key cl.hash_ring
    try_master name (cl.servers name).master n cl
