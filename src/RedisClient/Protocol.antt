-- ===== src/RedisClient/Protocol.antt =====
-- What src/redispp.cc relies on: a connection over which hiredis sends commands in order and reads the
-- replies in order, and a server with the transactions of Redis. `run` is the effect of a command
-- outside a transaction on the server's data `S`.
use recomm_engine.Prelude.{
  ℕ, zero, suc, ◌≡◌, refl, sym, ap, ◌∙◌, Bool, true, false, Option, none, some, List, [], ◌∷◌, ◌++◌,
  append_assoc, append-nil, length, All,
}
use recomm_engine.Prelude.Texts.{Text, ascii}
use recomm_engine.RedisClient.Hiredis.{
  Command, ping, multi, exec, get, del, hgetall, lpop, rpop, set, hget, lpush, rpush, setex, hset,
  expire, Reply, status, array, of_list, Hiredis, Client,
}
use recomm_engine.RedisClient.Commands.{begins, asked}
use recomm_engine.RedisClient.Transaction.{
  append_all, replicate, read_queued, transaction, executed,
}

-- The commands that do not begin or end a transaction.
abbrev pub is_plain : Command → Bool
is_plain multi = false
is_plain exec = false
is_plain ping = true
is_plain (get k) = true
is_plain (del k) = true
is_plain (hgetall k) = true
is_plain (lpop k) = true
is_plain (rpop k) = true
is_plain (set k v) = true
is_plain (hget k f) = true
is_plain (lpush k v) = true
is_plain (rpush k v) = true
is_plain (setex k l v) = true
is_plain (hset k f v) = true
is_plain (expire k l) = true

module _ {S : Type 0} (run : Command → S → S × Reply) where
  unfoldable pub run_all : List Command → S → S × List Reply
  run_all [] s = (s, [])
  run_all (c ∷ cs) s = let (s, r) = run c s in let (s, rs) = run_all cs s in (s, r ∷ rs)

  -- The data, and the commands that wait in a transaction.
  abbrev pub Conn : Type 0
  Conn = S × Option (List Command)

  abbrev pub ok_reply : Reply
  ok_reply = status (ascii "OK")

  abbrev pub queued : Reply
  queued = status (ascii "QUEUED")

  -- The server's answer to a command, by the protocol of MULTI, the commands, and EXEC.
  pub record IsServer (serve : Command → Conn → Conn × Reply) : Type 0 where
    pub begin : (s : S) → serve multi (s, none) ≡ ((s, some []), ok_reply)
    pub wait :
        (c : Command) (s : S) (cs : List Command)
        → is_plain c ≡ true
        → serve c (s, some cs) ≡ ((s, some (cs ++ c ∷ [])), queued)
    pub commit :
        (s : S) (cs : List Command)
        → serve exec (s, some cs) ≡ (((run_all cs s).0, none), array (of_list (run_all cs s).1))
    pub plain :
        (c : Command) (s : S)
        → is_plain c ≡ true
        → serve c (s, none) ≡ (((run c s).0, none), (run c s).1)

-- A context whose connection works: commands reach the server in order, and its replies come back in
-- order. `view` is the server's side and the replies that are not read yet.
pub record IsPipe {N X C : Type 0} (h : Hiredis N X) (x : X) (serve : Command → C → C × Reply)
    : Type 0 where
  pub view : N → C × List Reply
  pub append :
      (c : Command) (n : N) (t : C) (q : List Reply)
      → view n ≡ (t, q)
      → ((h.append_command x c n).1 ≡ true)
        × (view (h.append_command x c n).0 ≡ ((serve c t).0, q ++ (serve c t).1 ∷ []))
  pub command :
      (c : Command) (n : N) (t : C) (q : List Reply) (r : Reply) (rest : List Reply)
      → view n ≡ (t, q)
      → q ++ (serve c t).1 ∷ [] ≡ r ∷ rest
      → ((h.command x c n).1 ≡ some r) × (view (h.command x c n).0 ≡ ((serve c t).0, rest))
  pub get_reply :
      (n : N) (t : C) (r : Reply) (q : List Reply)
      → view n ≡ (t, r ∷ q)
      → ((h.get_reply x n).1 ≡ some r) × (view (h.get_reply x n).0 ≡ (t, q))

module _ {N X S : Type 0} (h : Hiredis N X) (x : X) (run : Command → S → S × Reply)
    (serve : Command → Conn run → Conn run × Reply) (server : IsServer run serve)
    (pipe : IsPipe h x serve) where
  -- A command of one reply, on a connection where everything has been read: the method sees its own
  -- reply, and everything has been read again.
  pub asked_lem :
      {R : Type 0} (failed : R) (read : Reply → Text × R) (cmd : Command) (c : Client X) (n : N)
      (s : S)
      → c.ctx ≡ some x
      → is_plain cmd ≡ true
      → pipe.view n ≡ ((s, none), [])
      → (n' : N) × (asked h failed read cmd c n
          ≡ (n', record c { last_error = (read (run cmd s).1).0 }, (read (run cmd s).1).1))
        × (pipe.view n' ≡ (((run cmd s).0, none), []))
  unfolding asked
  asked_lem failed read cmd c n s e p v =
      let a = server.plain cmd s p in
      let (got, after) =
        pipe.command cmd n (s, none) [] (run cmd s).1 [] v
          (ap (λ (t : Conn run × Reply). t.1 ∷ []) a) in
      ((h.command x cmd n).0, rw e (rw got refl), after ∙ (λ i. ((a i).0, [])))

  append_lem :
      (cmd : Command) (n : N) (s : S) (cs : List Command) (q : List Reply)
      → is_plain cmd ≡ true
      → pipe.view n ≡ ((s, some cs), q)
      → ((h.append_command x cmd n).1 ≡ true)
        × (pipe.view (h.append_command x cmd n).0
            ≡ ((s, some (cs ++ cmd ∷ [])), q ++ queued run ∷ []))
  append_lem cmd n s cs q p v =
      let (done, after) = pipe.append cmd n (s, some cs) q v in
      let w = server.wait cmd s cs p in (done, after ∙ (λ i. ((w i).0, q ++ (w i).1 ∷ [])))

  append_all_lem :
      (cmds : List Command) (n : N) (s : S) (cs : List Command) (q : List Reply)
      → All (λ c. is_plain c ≡ true) cmds
      → pipe.view n ≡ ((s, some cs), q)
      → (n' : N) × (append_all h x cmds n ≡ (n', true))
        × (pipe.view n' ≡ ((s, some (cs ++ cmds)), q ++ replicate (length cmds) (queued run)))
  unfolding append_all
  append_all_lem [] n s cs q p v =
      (n, refl, v ∙ (λ i. ((s, some (sym (append-nil cs) i)), sym (append-nil q) i)))
  append_all_lem (c ∷ cmds) n s cs q p v =
      let (done, after) = append_lem c n s cs q p.0 v in
      let (n', run', view') =
        append_all_lem cmds (h.append_command x c n).0 s (cs ++ c ∷ []) (q ++ queued run ∷ []) p.1
          after in
      (
        n',
        rw done run',
        view' ∙ (λ i. (
          (s, some (append_assoc cs (c ∷ []) cmds i)),
          append_assoc q (queued run ∷ []) (replicate (length cmds) (queued run)) i,
        )),
      )

  read_queued_lem :
      (k : ℕ) (n : N) (t : Conn run) (q : List Reply)
      → pipe.view n ≡ (t, replicate k (queued run) ++ q)
      → (n' : N) × (read_queued h x k n ≡ (n', none)) × (pipe.view n' ≡ (t, q))
  unfolding read_queued begins
  read_queued_lem zero n t q v = (n, refl, v)
  read_queued_lem (suc k) n t q v =
      let (got, after) = pipe.get_reply n t (queued run) (replicate k (queued run) ++ q) v in
      let (n', run', view') = read_queued_lem k (h.get_reply x n).0 t q after in
      (n', rw got run', view')

  -- A transaction runs its commands one after another, brings their replies back in that order, and
  -- leaves nothing unread.
  pub transaction_lem :
      (cmds : List Command) (n : N) (s : S)
      → All (λ c. is_plain c ≡ true) cmds
      → pipe.view n ≡ ((s, none), [])
      → (n' : N) × (transaction h x (read_queued h x (length cmds)) cmds n
          ≡ (n', executed (of_list (run_all run cmds s).1)))
        × (pipe.view n' ≡ (((run_all run cmds s).0, none), []))
  unfolding transaction
  transaction_lem cmds n s p v =
      let b = server.begin s in
      let (done1, view1) = pipe.append multi n (s, none) [] v in
      let (n2, run2, view2) =
        append_all_lem cmds (h.append_command x multi n).0 s [] (ok_reply run ∷ []) p
          (view1 ∙ (λ i. ((b i).0, (b i).1 ∷ []))) in
      let c = server.commit s cmds in
      let rs = replicate (length cmds) (queued run) in
      let (got3, view3) =
        pipe.command exec n2 (s, some cmds) (ok_reply run ∷ rs) (ok_reply run)
          (rs ++ (serve exec (s, some cmds)).1 ∷ []) view2 refl in
      let (n4, run4, view4) = read_queued_lem (length cmds) (h.command x exec n2).0 _ _ view3 in
      let (got5, view5) = pipe.get_reply n4 _ _ [] view4 in
      (
        (h.get_reply x n4).0,
        rw done1 (rw run2 (rw got3 (rw run4 (rw got5 (rw c refl))))),
        view5 ∙ (λ i. ((c i).0, [])),
      )
