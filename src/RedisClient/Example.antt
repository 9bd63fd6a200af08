-- ===== src/RedisClient/Example.antt =====
-- A server, and a connection to it, on which the theorems about src/redispp.cc are run.
use recomm_engine.Prelude.{refl, Bool, true, false, Option, none, some, List, [], ◌∷◌, ◌++◌}
use recomm_engine.Prelude.Int.{pos}
use recomm_engine.Prelude.Texts.{Text, TextMap, ascii, find_text, assign_text}
use recomm_engine.RedisClient.Hiredis.{
  Command, setex, ping, multi, exec, get, lpop, set, hget, Reply, status, error, string, nil, array,
  of_list, Hiredis, Client, no_descriptor,
}
use recomm_engine.RedisClient.Protocol.{is_plain, run_all, Conn, ok_reply, queued, IsServer, IsPipe}

-- A connection that keeps the replies that are not read.
module _ {C : Type 0} (serve : Command → C → C × Reply) where
  abbrev pub Line : Type 0
  Line = C × List Reply

  abbrev pub take_reply : Line → Line × Option Reply
  take_reply (t, []) = ((t, []), none)
  take_reply (t, r ∷ q) = ((t, q), some r)

  abbrev pub put : Command → Line → Line
  put c (t, q) = ((serve c t).0, q ++ (serve c t).1 ∷ [])

  abbrev pub line : Hiredis Line Bool
  line = record {
    connect_with_timeout = λ ip port second n. (n, true);
    err = λ x n. pos 0;
    errstr = λ x n. [];
    set_timeout = λ x second micro n. (n, true);
    free = λ x n. n;
    append_command = λ x c n. (put c n, true);
    command = λ x c n. take_reply (put c n);
    get_reply = λ x n. take_reply n;
    receive = λ x n. (n, no_descriptor);
  }

  abbrev pub line_pipe : IsPipe line true serve
  line_pipe = record {
    view = λ n. n;
    append = λ c n t q v. (refl, rw v refl);
    command = λ c n t q r rest v w. (rw v (rw w refl), rw v (rw w refl));
    get_reply = λ n t r q v. (rw v refl, rw v refl);
  }

abbrev pub client : Client Bool
client = record { ip = ascii "127.0.0.1"; port = pos 6379; ctx = some true; last_error = [] }

-- A store of lists: a value is a list of one, and a field of a hash has a key of its own.
abbrev pub Store : Type 0
Store = TextMap (List Text)

abbrev pub value_of : Option (List Text) → Reply
value_of (some (v ∷ [])) = string v
value_of (some vs) = error (ascii "WRONGTYPE")
value_of none = nil

abbrev pub popped : Text → Option (List Text) → Store → Store × Reply
popped k (some (v ∷ vs)) s = (assign_text k vs s, string v)
popped k (some []) s = (s, nil)
popped k none s = (s, nil)

abbrev pub run : Command → Store → Store × Reply
run (get k) s = (s, value_of (find_text k s))
run (hget k f) s = (s, value_of (find_text (k ++ f) s))
run (set k v) s = (assign_text k (v ∷ []) s, status (ascii "OK"))
run (lpop k) s = popped k (find_text k s) s
run ping s = (s, status (ascii "PONG"))
run (setex k l v) s = (assign_text k (v ∷ []) s, status (ascii "OK"))
run c s = (s, error (ascii "ERR"))

abbrev pub at : Command → Bool → Store → Option (List Command) → Conn run × Reply
at c true s none = (((run c s).0, none), (run c s).1)
at c true s (some cs) = ((s, some (cs ++ c ∷ [])), queued run)
at multi false s none = ((s, some []), ok_reply run)
at exec false s (some cs) = (((run_all run cs s).0, none), array (of_list (run_all run cs s).1))
at c false s w = ((s, w), error (ascii "ERR"))

abbrev pub store_serve : Command → Conn run → Conn run × Reply
store_serve c (s, w) = at c (is_plain c) s w

pub store_server : IsServer run store_serve
store_server = record {
  begin = λ s. refl;
  wait = λ c s cs p. rw p refl;
  commit = λ s cs. refl;
  plain = λ c s p. rw p refl;
}

abbrev pub store : Store
store = (ascii "a", ascii "1" ∷ []) ∷ (ascii "b", ascii "2" ∷ ascii "3" ∷ []) ∷ []

abbrev pub keys : List Text
keys = ascii "a" ∷ ascii "z" ∷ []

abbrev pub start : Conn run × List Reply
start = ((store, none), [])
