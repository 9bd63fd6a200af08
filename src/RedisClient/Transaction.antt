-- ===== src/RedisClient/Transaction.antt =====
-- The methods of src/redispp.cc that send many commands as one transaction, MULTI to EXEC, and then
-- read one reply for each. A method that gives up on the way leaves the replies it has not read.
use recomm_engine.Prelude.{
  ℕ, zero, suc, ◌+◌, Bool, true, false, Option, none, some, List, [], ◌∷◌, map, length, ◌==◌,
  if◌then◌else◌, ◌>>=◌,
}
use recomm_engine.Prelude.Int.{ℤ, pos, leb_ℤ, eqb_ℤ}
use recomm_engine.Prelude.Texts.{Text, TextMap, ascii}
use recomm_engine.RedisClient.Hiredis.{
  Command, multi, exec, get, hgetall, lpop, rpop, set, hget, setex, hset, expire, Reply, status,
  error, string, integer, nil, array, Elements, elements, end, element, Hiredis, Client, Outcome,
  code_error, code_success, code_missing, unexpected_reply,
}
use recomm_engine.RedisClient.Connection.{not_connected}
use recomm_engine.RedisClient.Commands.{is_status, read_fields}

abbrev pub is_queued : Reply → Bool
is_queued = is_status (ascii "QUEUED")

abbrev pub replicate : {A : Type 0} → ℕ → A → List A
replicate zero a = []
replicate (suc n) a = a ∷ replicate n a

-- What EXEC brought back, or the error.
pub data Executed : Type 0 where
  failed : Text → Executed
  executed : Elements → Executed

module _ {N X : Type 0} (h : Hiredis N X) (x : X) where
  unfoldable pub append_all : List Command → N → N × Bool
  append_all [] n = (n, true)
  append_all (c ∷ cs) n =
      let (n, done) = h.append_command x c n in
      let rest = append_all cs n in if done then rest else (n, false)

  abbrev pub queued_reply : (N → N × Option Text) → N × Option Reply → N × Option Text
  queued_reply k (n, none) = (n, some (h.errstr x n))
  queued_reply k (n, some r) =
      let rest = k n in if is_queued r then rest else (n, some (unexpected_reply r))

  -- Reads a reply for each of so many commands: nothing when all were queued, and else the error.
  unfoldable pub read_queued : ℕ → N → N × Option Text
  read_queued zero n = (n, none)
  read_queued (suc k) n = queued_reply (read_queued k) (h.get_reply x n)

  -- MultiHashSetEx with a time to live reads two replies for each key. The second reading leaves the
  -- pointer as it was where it fails, at the reply before, so that the failure is not seen.
  abbrev expire_reply : (N → N × Option Text) → N × Option Reply → N × Option Text
  expire_reply k (n, none) = k n
  expire_reply k (n, some r) =
      let rest = k n in if is_queued r then rest else (n, some (unexpected_reply r))

  unfoldable pub read_queued_pairs : ℕ → N → N × Option Text
  read_queued_pairs zero n = (n, none)
  read_queued_pairs (suc k) n =
      queued_reply (λ n. expire_reply (read_queued_pairs k) (h.get_reply x n)) (h.get_reply x n)

  abbrev exec_reply : N × Option Reply → N × Executed
  exec_reply (n, none) = (n, failed (h.errstr x n))
  exec_reply (n, some (array rs)) = (n, executed rs)
  exec_reply (n, some (status t)) = (n, failed (unexpected_reply (status t)))
  exec_reply (n, some (error t)) = (n, failed (unexpected_reply (error t)))
  exec_reply (n, some (string t)) = (n, failed (unexpected_reply (string t)))
  exec_reply (n, some (integer i)) = (n, failed (unexpected_reply (integer i)))
  exec_reply (n, some nil) = (n, failed (unexpected_reply nil))

  abbrev read_exec : N × Option Text → N × Executed
  read_exec (n, some e) = (n, failed e)
  read_exec (n, none) = exec_reply (h.get_reply x n)

  -- The reply that comes with EXEC is that to MULTI, and is dropped.
  abbrev read_multi : (N → N × Option Text) → N × Option Reply → N × Executed
  read_multi read (n, none) = (n, failed (h.errstr x n))
  read_multi read (n, some r) = read_exec (read n)

  abbrev send_exec : (N → N × Option Text) → N × Bool → N × Executed
  send_exec read (n, false) = (n, failed (h.errstr x n))
  send_exec read (n, true) = read_multi read (h.command x exec n)

  unfoldable pub transaction : (N → N × Option Text) → List Command → N → N × Executed
  transaction read cmds n =
      let (n, done) = h.append_command x multi n in
      if done then send_exec read (append_all cmds n) else (n, failed (h.errstr x n))

-- One element of the reply to MultiGet, MultiHashGet, MultiListPopLeft and MultiListPopRight: the
-- value and the code. The initial ones stay where the type is another.
unfoldable pub read_element : Reply → Text × ℤ
read_element (error t) = ([], code_error)
read_element (string t) = (t, code_success)
read_element nil = ([], code_missing)
read_element (status t) = ([], code_error)
read_element (integer n) = ([], code_error)
read_element (array rs) = ([], code_error)

-- One element of the reply to MultiHashGetAllFields; `none` is a failed `CHECK`.
unfoldable pub read_element_fields : Reply → Option (TextMap Text × ℤ)
read_element_fields (error t) = some ([], code_error)
read_element_fields (array end) = some ([], code_missing)
read_element_fields (array (element r rs)) = do
  m ← read_fields (element r rs) []
  some (m, code_success)
read_element_fields nil = some ([], code_missing)
read_element_fields (status t) = some ([], code_error)
read_element_fields (string t) = some ([], code_error)
read_element_fields (integer n) = some ([], code_error)

unfoldable pub all_fields : List Reply → Option (List (TextMap Text × ℤ))
all_fields [] = some []
all_fields (r ∷ rs) = do v ← read_element_fields r; vs ← all_fields rs; some (v ∷ vs)

-- `ok_num`.
unfoldable pub count_success : {V : Type 0} → List (V × ℤ) → ℕ
count_success [] = 0
count_success ((v, code) ∷ vs) = (if eqb_ℤ code code_success then 1 else 0) + count_success vs

-- The number of fields is not compared with that of the keys: a missing one is read out of range.
unfoldable pub hget_all : List Text → List Text → Option (List Command)
hget_all [] fields = some []
hget_all (k ∷ keys) [] = none
hget_all (k ∷ keys) (f ∷ fields) = do rest ← hget_all keys fields; some (hget k f ∷ rest)

abbrev pub set_command : Text → Text → ℤ → Command
set_command key value life = if leb_ℤ life (pos 0) then set key value else setex key life value

-- `none` where the times to live are fewer, which is read out of range.
unfoldable pub set_all : List Text → List Text → List ℤ → Option (List Command)
set_all [] values lives = some []
set_all (k ∷ keys) [] lives = none
set_all (k ∷ keys) (v ∷ values) [] = none
set_all (k ∷ keys) (v ∷ values) (l ∷ lives) = do
  rest ← set_all keys values lives
  some (set_command k v l ∷ rest)

abbrev hset_commands : Text → Text → Text → ℤ → List Command → List Command
hset_commands k f v life rest =
    if leb_ℤ life (pos 0) then hset k f v ∷ rest else hset k f v ∷ expire k life ∷ rest

unfoldable pub hset_all : List Text → List Text → List Text → ℤ → List Command
hset_all (k ∷ keys) (f ∷ fields) (v ∷ values) life =
    hset_commands k f v life (hset_all keys fields values life)
hset_all keys fields values life = []

-- `*values` with `*ret_codes`, and the result.
abbrev pub Batch : Type 0 → Type 0
Batch V = List (V × ℤ) × Bool

module _ {N X : Type 0} (h : Hiredis N X) where
  -- On success the error text is that of the array, which has none.
  abbrev strings_of : ℕ → Client X → N × Executed → Outcome N X (Batch Text)
  strings_of size c (n, failed e) =
      (n, record c { last_error = e }, (replicate size ([], code_error), false))
  strings_of size c (n, executed rs) =
      let vs = map read_element (elements rs) in
      if length (elements rs) == size
      then (n, record c { last_error = [] }, (vs, count_success vs == size))
      else (
        n,
        record c { last_error = unexpected_reply (array rs) },
        (replicate size ([], code_error), false),
      )

  abbrev multi_at : List Command → Client X → N → Option X → Outcome N X (Batch Text)
  multi_at cmds c n none = (
    n,
    record c { last_error = not_connected },
    (replicate (length cmds) ([], code_error), false),
  )
  multi_at cmds c n (some x) =
      strings_of (length cmds) c (transaction h x (read_queued h x (length cmds)) cmds n)

  unfoldable pub multi_strings : List Command → Client X → N → Outcome N X (Batch Text)
  multi_strings cmds c n = multi_at cmds c n c.ctx

  unfoldable pub multi_get : List Text → Client X → N → Outcome N X (Batch Text)
  multi_get keys = multi_strings (map get keys)

  unfoldable pub multi_list_pop_left : List Text → Client X → N → Outcome N X (Batch Text)
  multi_list_pop_left keys = multi_strings (map lpop keys)

  unfoldable pub multi_list_pop_right : List Text → Client X → N → Outcome N X (Batch Text)
  multi_list_pop_right keys = multi_strings (map rpop keys)

  unfoldable pub multi_hash_get :
      List Text → List Text → Client X → N → Option (Outcome N X (Batch Text))
  multi_hash_get keys fields c n = do cmds ← hget_all keys fields; some (multi_strings cmds c n)

  abbrev fields_at :
      ℕ
      → Client X
      → N
      → Elements
      → Option (List (TextMap Text × ℤ))
      → Option (Outcome N X (Batch (TextMap Text)))
  fields_at size c n rs none = none
  fields_at size c n rs (some vs) =
      some (n, record c { last_error = [] }, (vs, count_success vs == size))

  abbrev fields_of : ℕ → Client X → N × Executed → Option (Outcome N X (Batch (TextMap Text)))
  fields_of size c (n, failed e) =
      some (n, record c { last_error = e }, (replicate size ([], code_error), false))
  fields_of size c (n, executed rs) =
      if length (elements rs) == size
      then fields_at size c n rs (all_fields (elements rs))
      else some (
        n,
        record c { last_error = unexpected_reply (array rs) },
        (replicate size ([], code_error), false),
      )

  abbrev all_fields_at :
      List Text → Client X → N → Option X → Option (Outcome N X (Batch (TextMap Text)))
  all_fields_at keys c n none = some (
    n,
    record c { last_error = not_connected },
    (replicate (length keys) ([], code_error), false),
  )
  all_fields_at keys c n (some x) =
      fields_of (length keys) c
        (transaction h x (read_queued h x (length keys)) (map hgetall keys) n)

  unfoldable pub multi_hash_get_all_fields :
      List Text → Client X → N → Option (Outcome N X (Batch (TextMap Text)))
  multi_hash_get_all_fields keys c n = all_fields_at keys c n c.ctx

  -- The replies to the single commands are not looked at.
  abbrev set_of : Client X → N × Executed → Outcome N X Bool
  set_of c (n, failed e) = (n, record c { last_error = e }, false)
  set_of c (n, executed rs) = (n, record c { last_error = [] }, true)

  abbrev set_ex_at :
      List Text → List Text → List ℤ → Client X → N → Option X → Option (Outcome N X Bool)
  set_ex_at keys values lives c n none = some (n, record c { last_error = not_connected }, false)
  set_ex_at keys values lives c n (some x) =
      if length keys == length values
      then (do
        cmds ← set_all keys values lives
        some (set_of c (transaction h x (read_queued h x (length keys)) cmds n)))
      else some (n, record c { last_error = ascii "#keys != #values" }, false)

  unfoldable pub multi_set_ex :
      List Text → List Text → List ℤ → Client X → N → Option (Outcome N X Bool)
  multi_set_ex keys values lives c n = set_ex_at keys values lives c n c.ctx

  -- The overload with one time to live for all.
  unfoldable pub multi_set_ex_all :
      List Text → List Text → ℤ → Client X → N → Option (Outcome N X Bool)
  multi_set_ex_all keys values life = multi_set_ex keys values (replicate (length keys) life)

  abbrev hash_set_ex_at :
      List Text → List Text → List Text → ℤ → Client X → N → Option X → Outcome N X Bool
  hash_set_ex_at keys fields values life c n none =
      (n, record c { last_error = not_connected }, false)
  hash_set_ex_at keys fields values life c n (some x) =
      let size = length keys in
      let read = if leb_ℤ life (pos 0) then read_queued h x size else read_queued_pairs h x size in
      if size == length values
      then (if size == length fields
          then set_of c (transaction h x read (hset_all keys fields values life) n)
          else (n, record c { last_error = ascii "#keys != #fields" }, false))
      else (n, record c { last_error = ascii "#keys != #values" }, false)

  unfoldable pub multi_hash_set_ex :
      List Text → List Text → List Text → ℤ → Client X → N → Outcome N X Bool
  multi_hash_set_ex keys fields values life c n = hash_set_ex_at keys fields values life c n c.ctx
