-- ===== src/Storage/UserProfileStorage/OnCluster/Tests.antt =====
-- A cluster of one node, with the store of the examples of the client.
use recomm_engine.Prelude.{
  ℕ, ◌≡◌, refl, ap, true, false, Bool, Bool-cases, inl, inr, none, some, List, [], ◌∷◌,
}
use recomm_engine.Prelude.Int.{pos, leb_ℤ}
use recomm_engine.Prelude.Texts.{Text, ascii, find_text-assign_text}
use recomm_engine.Util.Bytes.{Thrift}
use recomm_engine.RedisClient.Hiredis.{Reply}
use recomm_engine.RedisClient.Protocol.{Conn}
use recomm_engine.RedisClient.Example.{
  line, line_pipe, client, run, value_of, store_serve, store_server, store,
}
use recomm_engine.RedisCluster.{lower_bound, get_node}
use recomm_engine.RedisCluster.Servers.{Cluster}
use recomm_engine.Storage.UserProfileStorage.{
  UserProfile, fresh_profile, get_user_profile, put_user_profile,
}
use recomm_engine.Storage.UserProfileStorage.OnCluster.{on_cluster}
use recomm_engine.Storage.UserProfileStorage.OnCluster.RoundTrip.{
  IsStore, get_user_profile-put_user_profile,
}

run-IsStore : IsStore run
run-IsStore = record {
  ping_pong = λ s. refl;
  set_ok = λ key value life s. elim (Bool-cases (leb_ℤ life (pos 0))) [
    | inl forever ↦ rw forever refl
    | inr limited ↦ rw limited refl
  ];
  set_get = λ key value life s.
      let found = ap value_of (find_text-assign_text key (value ∷ []) s) in
      elim (Bool-cases (leb_ℤ life (pos 0))) [
        | inl forever ↦ rw forever found
        | inr limited ↦ rw limited found
      ];
}

abbrev hash : Text → ℕ
hash t = 5

abbrev cluster : Cluster Bool
cluster = record {
  is_open_slave = pos 0;
  hash_ring = (7, record { node_name = ascii "n"; replicas = 1 }) ∷ [];
  servers = λ name. record { master = some client; slave = none };
}

abbrev thrift : Thrift UserProfile
thrift = record { to_string = λ v. v.uid; from_string = λ t v. (record v { uid = t }, true) }

abbrev user : UserProfile
user = record fresh_profile { uid = ascii "u" }

abbrev start : (Conn run × List Reply) × Cluster Bool
start = (((store, none), []), cluster)

get_user_profile-put_user_profile_example :
    (d1 d2 : (Conn run × List Reply) × Cluster Bool) × (put_user_profile
        (on_cluster (line store_serve) hash)
        thrift
        (ascii "u")
        user
        false
        (pos 172000)
        start
      ≡ some (d1, 0))
    × (get_user_profile (on_cluster (line store_serve) hash) thrift (ascii "u") fresh_profile d1
        ≡ some (d2, (0, user)))
unfolding lower_bound get_node
get_user_profile-put_user_profile_example =
    get_user_profile-put_user_profile (line store_serve) true run store_serve store_server
      (line_pipe store_serve) run-IsStore hash (ascii "u") (ascii "n") thrift user fresh_profile
      (pos 172000) store start
      (record { owned = refl; client = client; master = refl; ctx = refl; view = refl }) refl
