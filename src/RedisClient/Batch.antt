-- ===== src/RedisClient/Batch.antt =====
-- MultiGet, MultiHashGet, MultiListPopLeft and MultiListPopRight of src/redispp.cc are the single calls,
-- made one after another.
use recomm_engine.Prelude.{
  suc, ◌≤◌, ◌≡◌, ◌↔◌, refl, sym, ap, subst, ◌∙◌, true, false, none, some, List, [], ◌∷◌, map,
  length, arith, All, ◌==◌, ==_iff, Bool-cases, inl, inr,
}
use recomm_engine.Prelude.Int.{ℤ, eqb_ℤ, eqb_ℤ→eq}
use recomm_engine.Prelude.Texts.{Text}
use recomm_engine.RedisClient.Hiredis.{
  Command, get, hget, lpop, rpop, Reply, status, error, string, integer, nil, array, elements,
  of_list, Hiredis, Client, Outcome, code_error, code_success,
}
use recomm_engine.RedisClient.Commands.{
  asked, read_string, no_key, no_field, get_value, hash_get, list_pop_left, list_pop_right,
}
use recomm_engine.RedisClient.Transaction.{
  Batch, read_element, count_success, multi_strings, multi_get, hget_all, multi_hash_get,
  multi_list_pop_left, multi_list_pop_right,
}
use recomm_engine.RedisClient.Protocol.{
  is_plain, run_all, Conn, IsServer, IsPipe, asked_lem, transaction_lem,
}

-- The calls one after another, with their results.
unfoldable pub one_by_one :
    {N X K R : Type 0}
    → (K → Client X → N → Outcome N X R)
    → List K
    → Client X
    → N
    → Outcome N X (List R)
one_by_one call [] c n = (n, c, [])
one_by_one call (k ∷ ks) c n =
    let (n, c, r) = call k c n in let (n, c, rs) = one_by_one call ks c n in (n, c, r ∷ rs)

read_string-read_element : (missing : Text) (r : Reply) → (read_string missing r).1 ≡ read_element r
unfolding read_string read_element
read_string-read_element missing (status t) = refl
read_string-read_element missing (error t) = refl
read_string-read_element missing (string t) = refl
read_string-read_element missing (integer n) = refl
read_string-read_element missing nil = refl
read_string-read_element missing (array rs) = refl

elements-of_list : (rs : List Reply) → elements (of_list rs) ≡ rs
elements-of_list [] = refl
elements-of_list (r ∷ rs) = ap (◌∷◌ r) (elements-of_list rs)

count_success-le : {V : Type 0} (vs : List (V × ℤ)) → count_success vs ≤ length vs
unfolding count_success
count_success-le [] = omega arith
count_success-le ((v, code) ∷ vs) = ground (arith, count_success-le vs)

-- All the codes are 0.
abbrev pub AllSuccess : {V : Type 0} → List (V × ℤ) → Type 0
AllSuccess = All λ v. v.1 ≡ code_success

count_success_iff :
    {V : Type 0} (vs : List (V × ℤ)) → (count_success vs ≡ length vs) ↔ AllSuccess vs
unfolding count_success
count_success_iff [] = ((λ e. tt), λ a. refl)
count_success_iff ((v, code) ∷ vs) = elim (Bool-cases (eqb_ℤ code code_success)) [
  | inl yes_code ↦ (
    (λ e. (eqb_ℤ→eq code code_success yes_code, (count_success_iff vs).0 (ground (arith, e)))),
    λ a. rw yes_code (omega (arith, (count_success_iff vs).1 a.1)),
  )
  | inr no_code ↦
      ((λ e. absurd (ground (arith, e, count_success-le vs))), λ a. absurd (wrong code no_code a.0))
]
  where
    wrong : (code : ℤ) → eqb_ℤ code code_success ≡ false → code ≡ code_success → ⊥
    wrong code e f =
        let g : eqb_ℤ code_success code_success ≡ false =
          subst (λ c. eqb_ℤ c code_success ≡ false) f e in
        cc

hget_all-pairs :
    (ks : List (Text × Text))
    → hget_all (map (λ k. k.0) ks) (map (λ k. k.1) ks) ≡ some (map (λ k. hget k.0 k.1) ks)
unfolding hget_all
hget_all-pairs [] = refl
hget_all-pairs (k ∷ ks) = rw (hget_all-pairs ks) refl

module _ {N X S : Type 0} (h : Hiredis N X) (x : X) (run : Command → S → S × Reply)
    (serve : Command → Conn run → Conn run × Reply) (server : IsServer run serve)
    (pipe : IsPipe h x serve) where
  length-run_all : (cmds : List Command) (s : S) → length (run_all run cmds s).1 ≡ length cmds
  unfolding run_all
  length-run_all [] s = refl
  length-run_all (c ∷ cmds) s = ap suc (length-run_all cmds (run c s).0)

  -- A batch gives what the single calls give, in order; its result is whether all of them succeeded;
  -- and both leave the server in the same state, with nothing unread.
  pub record SameAs (batch : Outcome N X (Batch Text)) (each : Outcome N X (List (Text × ℤ)))
      : Type 0 where
    pub values : batch.2.0 ≡ each.2
    pub result : (batch.2.1 ≡ true) ↔ AllSuccess each.2
    pub same_view : pipe.view batch.0 ≡ pipe.view each.0
    pub all_read : (pipe.view batch.0).1 ≡ []

  module _ {K : Type 0} (missing : Text) (make : K → Command)
      (plain : (k : K) → is_plain (make k) ≡ true) where
    abbrev call : K → Client X → N → Outcome N X (Text × ℤ)
    call k = asked h ([], code_error) (read_string missing) (make k)

    one_by_one_lem :
        (ks : List K) (c : Client X) (n : N) (s : S)
        → c.ctx ≡ some x
        → pipe.view n ≡ ((s, none), [])
        → let each = one_by_one call ks c n in
          (each.2 ≡ map read_element (run_all run (map make ks) s).1)
          × (pipe.view each.0 ≡ (((run_all run (map make ks) s).0, none), []))
    unfolding one_by_one run_all
    one_by_one_lem [] c n s e v = (refl, v)
    one_by_one_lem (k ∷ ks) c n s e v =
        let read = read_string missing in
        let (n1, run1, view1) =
          asked_lem h x run serve server pipe ([], code_error) read (make k) c n s e (plain k) v in
        let s1 = (run (make k) s).0 in
        let r1 = (run (make k) s).1 in
        let c1 : Client X = record c { last_error = (read r1).0 } in
        let (rs, view2) = one_by_one_lem ks c1 n1 s1 e view1 in
        rw run1 ((λ i. read_string-read_element missing r1 i ∷ rs i), view2)

    make-plain : (ks : List K) → All (λ c. is_plain c ≡ true) (map make ks)
    make-plain [] = tt
    make-plain (k ∷ ks) = (plain k, make-plain ks)

    multi_strings_lem :
        (ks : List K) (c : Client X) (n : N) (s : S)
        → c.ctx ≡ some x
        → pipe.view n ≡ ((s, none), [])
        → SameAs (multi_strings h (map make ks) c n) (one_by_one call ks c n)
    unfolding multi_strings
    multi_strings_lem ks c n s e v =
        let cmds = map make ks in
        let rs = (run_all run cmds s).1 in
        let vs = map read_element rs in
        let (n', run', view') =
          transaction_lem h x run serve server pipe cmds n s (make-plain ks) v in
        let (each, view2) = one_by_one_lem ks c n s e v in
        let full : (length (elements (of_list rs)) == length cmds) ≡ true =
          (==_iff _ _).1 (ap length (elements-of_list rs) ∙ length-run_all cmds s) in
        let size : length vs ≡ length cmds = length-elements rs ∙ length-run_all cmds s in
        let right : ((count_success vs == length cmds) ≡ true) ↔ AllSuccess vs = (
          (λ b. (count_success_iff vs).0 ((==_iff _ _).0 b ∙ sym size)),
          λ a. (==_iff _ _).1 ((count_success_iff vs).1 a ∙ size),
        ) in
        let ran : multi_strings h cmds c n
            ≡ (n', record c { last_error = [] }, (vs, count_success vs == length cmds)) =
          rw e (rw run' (rw full (rw (elements-of_list rs) refl))) in
        subst (λ b. SameAs b (one_by_one call ks c n)) (sym ran)
          (record {
            values = sym each;
            result =
                subst (λ l. ((count_success vs == length cmds) ≡ true) ↔ AllSuccess l) (sym each)
                  right;
            same_view = view' ∙ sym view2;
            all_read = ap (λ w. w.1) view';
          })
      where
        length-elements : (rs : List Reply) → length (map read_element rs) ≡ length rs
        length-elements [] = refl
        length-elements (r ∷ rs) = ap suc (length-elements rs)

  -- Over a working connection to a server with the transactions of Redis, MultiGet gives what the
  -- single calls of Get for the keys give, in order, values and codes; it is true exactly if all of
  -- them return 0; and it leaves the server and the connection as they do, with nothing unread.
  pub multi_get_lem :
      (keys : List Text) (c : Client X) (n : N) (s : S)
      → c.ctx ≡ some x
      → pipe.view n ≡ ((s, none), [])
      → SameAs (multi_get h keys c n) (one_by_one (get_value h) keys c n)
  unfolding multi_get get_value
  multi_get_lem keys c n s e v = multi_strings_lem no_key get (λ k. refl) keys c n s e v

  -- The same holds of MultiListPopLeft and ListPopLeft, which change the server.
  pub multi_list_pop_left_lem :
      (keys : List Text) (c : Client X) (n : N) (s : S)
      → c.ctx ≡ some x
      → pipe.view n ≡ ((s, none), [])
      → SameAs (multi_list_pop_left h keys c n) (one_by_one (list_pop_left h) keys c n)
  unfolding multi_list_pop_left list_pop_left
  multi_list_pop_left_lem keys c n s e v = multi_strings_lem no_key lpop (λ k. refl) keys c n s e v

  pub multi_list_pop_right_lem :
      (keys : List Text) (c : Client X) (n : N) (s : S)
      → c.ctx ≡ some x
      → pipe.view n ≡ ((s, none), [])
      → SameAs (multi_list_pop_right h keys c n) (one_by_one (list_pop_right h) keys c n)
  unfolding multi_list_pop_right list_pop_right
  multi_list_pop_right_lem keys c n s e v = multi_strings_lem no_key rpop (λ k. refl) keys c n s e v

  -- And of MultiHashGet and HashGet, for as many fields as keys.
  pub multi_hash_get_lem :
      (ks : List (Text × Text)) (c : Client X) (n : N) (s : S)
      → c.ctx ≡ some x
      → pipe.view n ≡ ((s, none), [])
      → (r : Outcome N X (Batch Text)) × (multi_hash_get h
            (map (λ k. k.0) ks)
            (map (λ k. k.1) ks)
            c
            n
          ≡ some r)
        × SameAs r (one_by_one (λ k. hash_get h k.0 k.1) ks c n)
  unfolding multi_hash_get hash_get
  multi_hash_get_lem ks c n s e v = (
    multi_strings h (map (λ k. hget k.0 k.1) ks) c n,
    rw (hget_all-pairs ks) refl,
    multi_strings_lem no_field (λ k. hget k.0 k.1) (λ k. refl) ks c n s e v,
  )
