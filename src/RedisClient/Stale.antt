-- ===== src/RedisClient/Stale.antt =====
-- What src/redispp.cc leaves behind when a transaction is given up, and who reads it.
use recomm_engine.Prelude.{
  ◌≡◌, refl, sym, ◌∙◌, true, false, some, List, [], ◌∷◌, ◌++◌, append_assoc, append-nil, map,
  length, subst, Bool-cases, inl, inr,
}
use recomm_engine.Prelude.Texts.{Text, ascii, same_text}
use recomm_engine.RedisClient.Hiredis.{
  Command, ping, multi, exec, get, Reply, reply_str, Hiredis, Client, Outcome, code_error,
  unexpected_reply,
}
use recomm_engine.RedisClient.Connection.{pong, ping_server}
use recomm_engine.RedisClient.Commands.{asked, read_string, no_key, get_value}
use recomm_engine.RedisClient.Transaction.{
  append_all, is_queued, replicate, read_queued, transaction, Batch, multi_strings, multi_get,
}
use recomm_engine.RedisClient.Protocol.{IsPipe}

-- The command that is sent after these, in a transaction.
abbrev pub next_command : List Text → Command
next_command [] = exec
next_command (k ∷ ks) = get k

module _ {N X C : Type 0} (h : Hiredis N X) (x : X) (serve : Command → C → C × Reply)
    (pipe : IsPipe h x serve) where
  unfoldable send_all : List Command → C → C × List Reply
  send_all [] t = (t, [])
  send_all (c ∷ cs) t = let (t, r) = serve c t in let (t, rs) = send_all cs t in (t, r ∷ rs)

  append_all-send_all :
      (cmds : List Command) (n : N) (t : C) (q : List Reply)
      → pipe.view n ≡ (t, q)
      → (n' : N) × (append_all h x cmds n ≡ (n', true))
        × (pipe.view n' ≡ ((send_all cmds t).0, q ++ (send_all cmds t).1))
  unfolding append_all send_all
  append_all-send_all [] n t q v = (n, refl, v ∙ (λ i. (t, sym (append-nil q) i)))
  append_all-send_all (c ∷ cmds) n t q v =
      let (done, after) = pipe.append c n t q v in
      let r = (serve c t).1 in
      let (n', run', view') =
        append_all-send_all cmds (h.append_command x c n).0 (serve c t).0 (q ++ r ∷ []) after in
      (
        n',
        rw done run',
        view' ∙ (λ i. (
          (send_all cmds (serve c t).0).0,
          append_assoc q (r ∷ []) (send_all cmds (serve c t).0).1 i,
        )),
      )

  -- A command on a connection with an unread reply is answered by that one, and its own reply is left.
  asked_stale :
      {R : Type 0} (bad : R) (read : Reply → Text × R) (cmd : Command) (c : Client X) (n : N)
      (t : C) (r : Reply) (q : List Reply)
      → c.ctx ≡ some x
      → pipe.view n ≡ (t, r ∷ q)
      → ((asked h bad read cmd c n).2 ≡ (read r).1)
        × (pipe.view (asked h bad read cmd c n).0 ≡ ((serve cmd t).0, q ++ (serve cmd t).1 ∷ []))
  unfolding asked
  asked_stale bad read cmd c n t r q e v =
      let (got, after) = pipe.command cmd n t (r ∷ q) r (q ++ (serve cmd t).1 ∷ []) v refl in
      rw e (rw got (refl, after))

  -- What is unread after the transaction: the reply to the command after the first key, and others.
  pub record GivenUp (ks : List Text) (t : C) (o : Outcome N X (Batch Text)) : Type 0 where
    pub result : o.2.1 ≡ false
    pub ctx : o.1.ctx ≡ some x
    pub server : C
    pub rest : List Reply
    pub unread : pipe.view o.0 ≡ (server, (serve (next_command ks) t).1 ∷ rest)

  unread_of :
      (ks : List Text) (t : C)
      → (rest : List Reply) × ((send_all (map get ks) t).1
            ++ (serve exec (send_all (map get ks) t).0).1 ∷ []
          ≡ (serve (next_command ks) t).1 ∷ rest)
  unfolding send_all
  unread_of [] t = ([], refl)
  unread_of (k ∷ ks) t = (_, refl)

  multi_get-GivenUp :
      (k : Text) (ks : List Text) (c : Client X) (n : N) (t : C)
      → c.ctx ≡ some x
      → pipe.view n ≡ (t, [])
      → is_queued (serve (get k) (serve multi t).0).1 ≡ false
      → GivenUp ks (serve (get k) (serve multi t).0).0 (multi_get h (k ∷ ks) c n)
  unfolding multi_get multi_strings transaction read_queued send_all
  multi_get-GivenUp k ks c n t e v refused =
      let (done1, view1) = pipe.append multi n t [] v in
      let t1 = (serve multi t).0 in
      let r0 = (serve multi t).1 in
      let r1 = (serve (get k) t1).1 in
      let t2 = (serve (get k) t1).0 in
      let cmds = map get (k ∷ ks) in
      let (n2, run2, view2) =
        append_all-send_all cmds (h.append_command x multi n).0 t1 (r0 ∷ []) view1 in
      let t3 = (send_all (map get ks) t2).0 in
      let last = (send_all (map get ks) t2).1 ++ (serve exec t3).1 ∷ [] in
      let (got3, view3) =
        pipe.command exec n2 t3 (r0 ∷ r1 ∷ (send_all (map get ks) t2).1) r0 (r1 ∷ last) view2
          refl in
      let (got4, view4) = pipe.get_reply (h.command x exec n2).0 _ r1 last view3 in
      let n4 = (h.get_reply x (h.command x exec n2).0).0 in
      let (rest, first) = unread_of ks t2 in
      let ran : multi_get h (k ∷ ks) c n ≡ (
        n4,
        record c { last_error = unexpected_reply r1 },
        (replicate (length cmds) ([], code_error), false),
      ) =
        rw e (rw done1 (rw run2 (rw got3 (rw got4 (rw refused refl))))) in
      subst (GivenUp ks t2) (sym ran) (record {
        result = refl;
        ctx = e;
        server = (serve exec t3).0;
        rest = rest;
        unread = view4 ∙ (λ i. ((serve exec t3).0, first i));
      })

  -- On a working connection with nothing unread, where the server does not queue the GET of the first
  -- key of a MultiGet, the reply that the next command of the transaction got is what the next Get of
  -- any key reads as its own: the value that it returns, and the code, are those of that reply.
  pub multi_get_leaves_a_reply :
      (k : Text) (ks : List Text) (next : Text) (c : Client X) (n : N) (t : C)
      → c.ctx ≡ some x
      → pipe.view n ≡ (t, [])
      → is_queued (serve (get k) (serve multi t).0).1 ≡ false
      → let o = multi_get h (k ∷ ks) c n in
        (o.2.1 ≡ false)
        × ((get_value h next o.1 o.0).2
            ≡ (read_string no_key
                (serve (next_command ks) (serve (get k) (serve multi t).0).0).1).1)
  unfolding get_value
  multi_get_leaves_a_reply k ks next c n t e v refused =
      let g = multi_get-GivenUp k ks c n t e v refused in
      let o = multi_get h (k ∷ ks) c n in
      (
        g.result,
        (asked_stale ([], code_error) (read_string no_key) (get next) o.1 o.0 g.server _ g.rest
            g.ctx g.unread).0,
      )

  -- Ping reads such a reply as its own too, and so is false unless its text is PONG.
  pub ping_server_stale :
      (c : Client X) (n : N) (t : C) (r : Reply) (q : List Reply)
      → c.ctx ≡ some x
      → pipe.view n ≡ (t, r ∷ q)
      → ((ping_server h c n).2 ≡ same_text (ascii "PONG") (reply_str r))
        × (pipe.view (ping_server h c n).0 ≡ ((serve ping t).0, q ++ (serve ping t).1 ∷ []))
  unfolding ping_server pong
  ping_server_stale c n t r q e v =
      let (got, after) = pipe.command ping n t (r ∷ q) r (q ++ (serve ping t).1 ∷ []) v refl in
      let b = Bool-cases (same_text (ascii "PONG") (reply_str r)) in
      rw e (
        rw got (elim b [
          | inl yes_pong ↦ rw yes_pong (refl, after)
          | inr no_pong ↦ rw no_pong (refl, after)
        ]))
