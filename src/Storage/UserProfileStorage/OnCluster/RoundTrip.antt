-- ===== src/Storage/UserProfileStorage/OnCluster/RoundTrip.antt =====
-- What src/user_profile_storage.cc gives back after a profile was put, through src/redis_cluster.cc and
-- src/redispp.cc down to the server.
use recomm_engine.Prelude.{
  ℕ, ◌≡◌, refl, ap, ◌∙◌, true, false, Bool-cases, inl, inr, none, some, [], ◌∷◌,
}
use recomm_engine.Prelude.Int.{ℤ, pos, negsuc, leb_ℤ}
use recomm_engine.Prelude.Texts.{Text, ascii, same_text_refl}
use recomm_engine.Util.Bytes.{Thrift}
use recomm_engine.RedisClient.Hiredis.{Command, ping, get, Reply, status, string, Hiredis, Client}
use recomm_engine.RedisClient.Connection.{pong, ping_server}
use recomm_engine.RedisClient.Commands.{begins, get_value, set_ex, read_ok, read_string, no_key}
use recomm_engine.RedisClient.Transaction.{set_command}
use recomm_engine.RedisClient.Protocol.{is_plain, Conn, IsServer, IsPipe, asked_lem}
use recomm_engine.RedisCluster.{get_node}
use recomm_engine.RedisCluster.Servers.{Cluster, set_master, the_master, try_master, get_redis_node}
use recomm_engine.Storage.UserProfileStorage.{
  UserProfile, get_user_profile, set_to_redis, put_user_profile,
}
use recomm_engine.Storage.UserProfileStorage.OnCluster.{on_cluster}

-- The data of a server: a ping changes nothing, and a key has the value that was last set.
pub record IsStore {S : Type 0} (run : Command → S → S × Reply) : Type 0 where
  pub ping_pong : (s : S) → run ping s ≡ (s, status (ascii "PONG"))
  pub set_ok :
      (key value : Text) (life : ℤ) (s : S)
      → (run (set_command key value life) s).1 ≡ status (ascii "OK")
  pub set_get :
      (key value : Text) (life : ℤ) (s : S)
      → (run (get key) (run (set_command key value life) s).0).1 ≡ string value

set_command-plain : (key value : Text) (life : ℤ) → is_plain (set_command key value life) ≡ true
set_command-plain key value life = elim (Bool-cases (leb_ℤ life (pos 0))) [
  | inl forever ↦ rw forever refl
  | inr limited ↦ rw limited refl
]

module _ {N X S : Type 0} (h : Hiredis N X) (x : X) (run : Command → S → S × Reply)
    (serve : Command → Conn run → Conn run × Reply) (server : IsServer run serve)
    (pipe : IsPipe h x serve) (store : IsStore run) (hash : Text → ℕ) (key name : Text) where
  -- The key belongs to this node, and its master has a connection on which everything has been read.
  pub record Ready (s : S) (d : N × Cluster X) : Type 0 where
    pub owned : get_node hash key d.1.hash_ring ≡ some name
    pub client : Client X
    pub master : (d.1.servers name).master ≡ some client
    pub ctx : client.ctx ≡ some x
    pub view : pipe.view d.0 ≡ ((s, none), [])

  set_master-Ready :
      (s : S) (c : Client X) (n : N) (cl : Cluster X)
      → get_node hash key cl.hash_ring ≡ some name
      → c.ctx ≡ some x
      → pipe.view n ≡ ((s, none), [])
      → Ready s (n, set_master name c cl)
  set_master-Ready s c n cl owned ctx view = record {
    owned = owned;
    client = c;
    master = rw (same_text_refl name) refl;
    ctx = ctx;
    view = view;
  }

  ping_lem :
      (c : Client X) (n : N) (s : S)
      → c.ctx ≡ some x
      → pipe.view n ≡ ((s, none), [])
      → (n' : N) × (ping_server h c n ≡ (n', record c { last_error = [] }, true))
        × (pipe.view n' ≡ ((s, none), []))
  unfolding ping_server pong
  ping_lem c n s e v =
      let a = server.plain ping s refl in
      let p = store.ping_pong s in
      let (got, after) =
        pipe.command ping n (s, none) [] (status (ascii "PONG")) [] v
          (ap (λ (t : Conn run × Reply). t.1 ∷ []) a ∙ ap (λ (t : S × Reply). t.1 ∷ []) p) in
      (
        (h.command x ping n).0,
        rw e (rw got refl),
        after ∙ (λ i. ((a i).0, [])) ∙ (λ i. (((p i).0, none), [])),
      )

  get_redis_node-Ready :
      (s : S) (d : N × Cluster X)
      → Ready s d
      → (d' : N × Cluster X) × ((on_cluster h hash).get_redis_node key d
          ≡ some (d', some (name, the_master)))
        × Ready s d'
  unfolding on_cluster get_redis_node try_master
  get_redis_node-Ready s d r =
      let (n', pinged, view) = ping_lem r.client d.0 s r.ctx r.view in
      let c' : Client X = record r.client { last_error = [] } in
      (
        (n', set_master name c' d.1),
        rw r.owned (rw r.master (rw pinged refl)),
        set_master-Ready s c' n' d.1 r.owned r.ctx view,
      )

  get-Ready :
      (s : S) (d : N × Cluster X) (value : Text)
      → Ready s d
      → (run (get key) s).1 ≡ string value
      → (d' : N × Cluster X) × ((on_cluster h hash).get (name, the_master) key d
          ≡ some (d', (value, pos 0)))
  unfolding on_cluster get_value read_string
  get-Ready s d value r found =
      let (n', asked, view) =
        asked_lem h x run serve server pipe ([], negsuc 0) (read_string no_key) (get key) r.client
          d.0 s r.ctx refl r.view in
      let c' : Client X = record r.client {
        last_error = (read_string no_key (run (get key) s).1).0;
      } in
      (
        (n', set_master name c' d.1),
        rw r.master (
            rw asked
              (ap (λ r. some ((n', set_master name c' d.1), (read_string no_key r).1)) found)),
      )

  set_ex-Ready :
      (s : S) (d : N × Cluster X) (value : Text) (life : ℤ)
      → Ready s d
      → (d' : N × Cluster X) × ((on_cluster h hash).set_ex (name, the_master) key value life d
          ≡ some (d', true))
        × Ready (run (set_command key value life) s).0 d'
  unfolding on_cluster set_ex read_ok begins
  set_ex-Ready s d value life r =
      let cmd = set_command key value life in
      let (n', asked, view) =
        asked_lem h x run serve server pipe false read_ok cmd r.client d.0 s r.ctx
          (set_command-plain key value life) r.view in
      let ok = store.set_ok key value life s in
      let c' : Client X = record r.client { last_error = (read_ok (run cmd s).1).0 } in
      (
        (n', set_master name c' d.1),
        rw r.master (rw asked (rw ok refl)),
        set_master-Ready _ c' n' d.1 r.owned r.ctx view,
      )

  -- Over a working connection to the master of a user's node, a profile that PutUserProfile sets,
  -- with an answer of 0, is what the next GetUserProfile for that user gives, with 0 too, where Thrift
  -- reads back what it writes.
  pub get_user_profile-put_user_profile :
      (thrift : Thrift UserProfile) (profile before : UserProfile) (life : ℤ) (s : S)
      (d : N × Cluster X)
      → Ready s d
      → thrift.from_string (thrift.to_string profile) before ≡ (profile, true)
      → (d1 d2 : N × Cluster X) × (put_user_profile
            (on_cluster h hash)
            thrift
            key
            profile
            false
            life
            d
          ≡ some (d1, 0))
        × (get_user_profile (on_cluster h hash) thrift key before d1 ≡ some (d2, (0, profile)))
  unfolding put_user_profile get_user_profile set_to_redis
  get_user_profile-put_user_profile thrift profile before life s d r reads =
      let value = thrift.to_string profile in
      let (d0, chosen0, r0) = get_redis_node-Ready s d r in
      let (d1, did, r1) = set_ex-Ready s d0 value life r0 in
      let s1 = (run (set_command key value life) s).0 in
      let (d2, chosen2, r2) = get_redis_node-Ready s1 d1 r1 in
      let (d3, got) = get-Ready s1 d2 value r2 (store.set_get key value life s) in
      (d1, d3, rw chosen0 (rw did refl), rw chosen2 (rw got (rw reads refl)))
