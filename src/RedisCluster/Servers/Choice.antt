-- ===== src/RedisCluster/Servers/Choice.antt =====
-- The client that GetRedisNode of src/redis_cluster.cc chooses.
use recomm_engine.Prelude.{
  ℕ, ◌≡◌, ◌≢◌, refl, subst, sym, ap, ◌∙◌, Bool, true, false, Bool-cases, Option-cases, inl, inr,
  Option, none, some, [],
}
use recomm_engine.Prelude.Texts.{Text, ascii, same_text, same_text_refl, same_text_sound}
use recomm_engine.Prelude.Int.{pos, eqb_ℤ}
use recomm_engine.RedisClient.Hiredis.{ping, Reply, reply_str, Hiredis, Client}
use recomm_engine.RedisClient.Connection.{
  not_connected, connect, disconnect, reconnect, pong, ping_server,
}
use recomm_engine.RedisCluster.{get_node}
use recomm_engine.RedisCluster.Servers.{
  RedisPair, Cluster, set_server, set_master, set_slave, the_master, the_slave, client_of, Chosen,
  try_slave, try_master, get_redis_node,
}

abbrev IsConnected : {X : Type 0} → Client X → Type 0
IsConnected {X} c = (x : X) × (c.ctx ≡ some x)

-- A choice for the node `name` of a cluster `cl`.
pub record IsChoice {N X : Type 0} (name : Text) (cl : Cluster X) (r : Chosen N X) : Type 0 where
  -- A true result comes with a client that has a connection.
  pub connected :
      r.3 ≡ true → (c : Client X) × (client_of r.2 (r.1.servers name) ≡ some c) × IsConnected c
  -- The slave is chosen in the mode of masters and slaves alone.
  pub slave_mode : r.2 ≡ the_slave → cl.is_open_slave ≢ pos 0
  -- The other nodes' servers are as they were.
  pub others : (other : Text) → name ≢ other → r.1.servers other ≡ cl.servers other
  pub same_ring : r.1.hash_ring ≡ cl.hash_ring

module _ {N X : Type 0} (h : Hiredis N X) (hash : Text → ℕ) where
  pong-ctx : (reply : Reply) (c : Client X) → (pong h reply c).0.ctx ≡ c.ctx
  unfolding pong
  pong-ctx reply c = elim (Bool-cases (same_text (ascii "PONG") (reply_str reply))) [
    | inl alive ↦ rw alive refl
    | inr dead ↦ rw dead refl
  ]

  ping_server-IsConnected :
      (c : Client X) (n : N) → (ping_server h c n).2 ≡ true → IsConnected (ping_server h c n).1
  unfolding ping_server
  ping_server-IsConnected c n = at c.ctx
    where
      at :
          (ctx : Option X)
          → let c = record c { ctx = ctx } in
            (ping_server h c n).2 ≡ true → IsConnected (ping_server h c n).1
      at none = λ e. absurd cc
      at (some x) = elim (Option-cases (h.command x ping n).1) [
        | inl lost ↦ rw lost (λ e. absurd cc)
        | inr (reply, found) ↦ rw found (λ e. (x, pong-ctx reply (record c { ctx = some x })))
      ]

  connect-IsConnected :
      (c : Client X) (n : N)
      → let c = record c { ctx = none } in (connect h c n).2 ≡ true → IsConnected (connect h c n).1
  unfolding connect
  connect-IsConnected c n =
      let (n1, x) = h.connect_with_timeout c.ip c.port (pos 5) n in
      elim (Bool-cases (eqb_ℤ (h.err x n1) (pos 0))) [
        | inl fine ↦ rw fine (λ e. (x, refl))
        | inr wrong ↦ rw wrong (λ e. absurd cc)
      ]

  reconnect-IsConnected :
      (c : Client X) (n : N) → (reconnect h c n).2 ≡ true → IsConnected (reconnect h c n).1
  unfolding reconnect disconnect
  reconnect-IsConnected c n = at c.ctx
    where
      at :
          (ctx : Option X)
          → let c = record c { ctx = ctx } in
            (reconnect h c n).2 ≡ true → IsConnected (reconnect h c n).1
      at none = connect-IsConnected (record c { last_error = not_connected }) n
      at (some x) = connect-IsConnected (record c { last_error = [] }) (h.free x n)

  set_server-same :
      (name : Text) (p : RedisPair X) (cl : Cluster X) → (set_server name p cl).servers name ≡ p
  set_server-same name p cl = rw (same_text_refl name) refl

  set_server-other :
      (name : Text) (p : RedisPair X) (cl : Cluster X) (other : Text)
      → name ≢ other
      → (set_server name p cl).servers other ≡ cl.servers other
  set_server-other name p cl other apart = elim (Bool-cases (same_text name other)) [
    | inl hit ↦ absurd (apart (same_text_sound name other hit))
    | inr miss ↦ rw miss refl
  ]

  master-IsChoice :
      (name : Text) (c : Client X) (n : N) (cl : Cluster X) (result : Bool)
      → (result ≡ true → IsConnected c)
      → IsChoice name cl (n, set_master name c cl, the_master, result)
  master-IsChoice name c n cl result good = record {
    connected = λ e. (c, ap (λ p. p.master) (set_server-same name _ cl), good e);
    slave_mode = λ e. absurd cc;
    others = set_server-other name _ cl;
    same_ring = refl;
  }

  slave-IsChoice :
      (name : Text) (m c : Client X) (n : N) (cl : Cluster X) (result : Bool)
      → cl.is_open_slave ≢ pos 0
      → (result ≡ true → IsConnected c)
      → IsChoice name cl (n, set_slave name c (set_master name m cl), the_slave, result)
  slave-IsChoice name m c n cl result slaves good = record {
    connected = λ e. (c, ap (λ p. p.slave) (set_server-same name _ (set_master name m cl)), good e);
    slave_mode = λ e. slaves;
    others = λ other apart.
        set_server-other name _ (set_master name m cl) other apart
        ∙ set_server-other name _ cl other apart;
    same_ring = refl;
  }

  -- Not a crash, and so a choice.
  abbrev Chooses : Text → Cluster X → Option (Chosen N X) → Type 0
  Chooses name cl none = Unit
  Chooses name cl (some r) = IsChoice name cl r

  try_slave-Chooses :
      (name : Text) (m : Client X) (slave : Option (Client X)) (n : N) (cl : Cluster X)
      → cl.is_open_slave ≢ pos 0
      → Chooses name cl (try_slave h hash name slave n (set_master name m cl))
  unfolding try_slave
  try_slave-Chooses name m none n cl slaves = tt
  try_slave-Chooses name m (some c) n cl slaves =
      let (n1, c1, alive) = ping_server h c n in
      elim (Bool-cases (ping_server h c n).2) [
        | inl yes_alive ↦ rw yes_alive (
            slave-IsChoice name m c1 n1 cl true slaves (λ e. ping_server-IsConnected c n yes_alive))
        | inr dead ↦ rw dead (slave-IsChoice name m _ _ cl _ slaves (reconnect-IsConnected c1 n1))
      ]

  try_master-Chooses :
      (name : Text) (master : Option (Client X)) (n : N) (cl : Cluster X)
      → Chooses name cl (try_master h hash name master n cl)
  unfolding try_master
  try_master-Chooses name none n cl = tt
  try_master-Chooses name (some c) n cl =
      let (n1, c1, alive) = ping_server h c n in
      let (n2, c2, back) = reconnect h c1 n1 in
      elim (Bool-cases (ping_server h c n).2) [
        | inl yes_alive ↦
            rw yes_alive
              (master-IsChoice name c1 n1 cl true (λ e. ping_server-IsConnected c n yes_alive))
        | inr dead ↦ rw dead (elim (Bool-cases (reconnect h c1 n1).2) [
          | inl yes_back ↦
              rw yes_back
                (master-IsChoice name c2 n2 cl true (λ e. reconnect-IsConnected c1 n1 yes_back))
          | inr gone ↦ rw gone (elim (Bool-cases (eqb_ℤ cl.is_open_slave (pos 0))) [
            | inl alone ↦ rw alone (master-IsChoice name _ _ cl _ (reconnect-IsConnected c2 n2))
            | inr pairs ↦ rw pairs (
                try_slave-Chooses name c2 (cl.servers name).slave n2 cl (λ e. absurd (
                  let no : eqb_ℤ (pos 0) (pos 0) ≡ false =
                    subst (λ k. eqb_ℤ k (pos 0) ≡ false) e pairs in
                  cc)))
          ])
        ])
      ]

  -- What GetRedisNode answers for a key of this node: if it is true, the client has a connection, by
  -- its answer to a ping or by a new one; it is the slave only where slaves are open; the servers of
  -- the other nodes and the ring are as before.
  pub get_redis_node-IsChoice :
      (key name : Text) (n : N) (cl : Cluster X) (r : Chosen N X)
      → get_node hash key cl.hash_ring ≡ some name
      → get_redis_node h hash key n cl ≡ some r
      → IsChoice name cl r
  unfolding get_redis_node
  get_redis_node-IsChoice key name n cl r owned chosen =
      let found : try_master h hash name (cl.servers name).master n cl ≡ some r =
        sym (rw owned refl) ∙ chosen in
      subst (Chooses name cl) found (try_master-Chooses name (cl.servers name).master n cl)
