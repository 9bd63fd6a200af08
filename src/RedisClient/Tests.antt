-- ===== src/RedisClient/Tests.antt =====
-- The theorems about src/redispp.cc at two servers.
use recomm_engine.Prelude.{ℕ, zero, suc, ◌≡◌, refl, true, false, List, [], ◌∷◌}
use recomm_engine.Prelude.Texts.{Text, ascii}
use recomm_engine.RedisClient.Hiredis.{Command, get, Reply, error, string, code_success}
use recomm_engine.RedisClient.Commands.{begins, get_value, read_string}
use recomm_engine.RedisClient.Transaction.{multi_get}
use recomm_engine.RedisClient.Batch.{one_by_one, SameAs, multi_get_lem}
use recomm_engine.RedisClient.Stale.{multi_get_leaves_a_reply}
use recomm_engine.RedisClient.Example.{
  line, line_pipe, client, run, store_serve, store_server, store, keys, start,
}

multi_get_lem_example :
    SameAs
      (line store_serve)
      true
      run
      store_serve
      store_server
      (line_pipe store_serve)
      (multi_get (line store_serve) keys client start)
      (one_by_one (get_value (line store_serve)) keys client start)
multi_get_lem_example =
    multi_get_lem (line store_serve) true run store_serve store_server (line_pipe store_serve) keys
      client start store refl refl

abbrev hash_keys : List (Text × Text)
hash_keys = (ascii "a", []) ∷ (ascii "z", ascii "f") ∷ []

-- A server that refuses two commands while it loads its data, and then answers each GET by its key.
abbrev loading : Command → ℕ → ℕ × Reply
loading c (suc k) = (k, error (ascii "LOADING"))
loading (get k) zero = (zero, string k)
loading c zero = (zero, error (ascii "ERR EXEC without MULTI"))

-- The Get of "c" brings the value of "b".
multi_get_leaves_a_reply_example :
    ((multi_get (line loading) (ascii "a" ∷ ascii "b" ∷ []) client (2, [])).2.1 ≡ false)
    × (let o = multi_get (line loading) (ascii "a" ∷ ascii "b" ∷ []) client (2, []) in
        (get_value (line loading) (ascii "c") o.1 o.0).2 ≡ (ascii "b", code_success))
unfolding read_string begins
multi_get_leaves_a_reply_example =
    multi_get_leaves_a_reply (line loading) true loading (line_pipe loading) (ascii "a")
      (ascii "b" ∷ []) (ascii "c") client (2, []) 2 refl refl refl
