-- ===== src/RedisClient/Commands.antt =====
-- The commands of src/redispp.cc that ask for one reply.
use recomm_engine.Prelude.{
  Bool, true, false, ◌&&◌, ◌||◌, Option, none, some, List, [], ◌∷◌, ◌==◌, if◌then◌else◌,
}
use recomm_engine.Prelude.Int.{ℤ, pos, eqb_ℤ, leb_ℤ, to_int32}
use recomm_engine.Prelude.Texts.{Text, TextMap, ascii, assign_text}
use recomm_engine.RedisClient.Hiredis.{
  Command, get, del, hgetall, lpop, rpop, set, hget, lpush, rpush, setex, hset, expire, Reply,
  status, error, string, integer, nil, array, Elements, end, element, Hiredis, Client, Outcome,
  code_error, code_success, code_missing, unexpected_reply,
}
use recomm_engine.RedisClient.Connection.{not_connected}

-- `strncmp(expected, str, len) == 0`: the reply is `expected`, or a part of it from its front.
unfoldable pub begins : Text → Text → Bool
begins expected [] = true
begins [] (x ∷ xs) = x == 0
begins (e ∷ expected) (x ∷ xs) = (e == x) && begins expected xs

abbrev pub is_status : Text → Reply → Bool
is_status expected (status t) = begins expected t
is_status expected (error t) = false
is_status expected (string t) = false
is_status expected (integer n) = false
is_status expected nil = false
is_status expected (array rs) = false

-- Get, HashGet, ListPopLeft and ListPopRight: the error, and the value with the code.
unfoldable pub read_string : Text → Reply → Text × (Text × ℤ)
read_string missing (error t) = (t, ([], code_error))
read_string missing (string t) = ([], (t, code_success))
read_string missing nil = (missing, ([], code_missing))
read_string missing (status t) = ([], ([], code_error))
read_string missing (integer n) = ([], ([], code_error))
read_string missing (array rs) = ([], ([], code_error))

unfoldable pub read_ok : Reply → Text × Bool
read_ok r = if is_status (ascii "OK") r then ([], true) else (unexpected_reply r, false)

unfoldable pub read_deleted : Reply → Text × ℤ
read_deleted (integer n) = ([], code_success)
read_deleted (error t) = (t, code_error)
read_deleted (string t) = ([], code_error)
read_deleted nil = ([], code_error)
read_deleted (status t) = ([], code_error)
read_deleted (array rs) = ([], code_error)

-- ListPushLeft and ListPushRight. The length is an `int32`, and untouched on a failure.
unfoldable pub read_pushed : ℤ → Reply → Text × (ℤ × Bool)
read_pushed list_length (error t) = (t, (list_length, false))
read_pushed list_length (integer n) = ([], (to_int32 n, true))
read_pushed list_length (string t) = ([], (list_length, false))
read_pushed list_length nil = ([], (list_length, false))
read_pushed list_length (status t) = ([], (list_length, false))
read_pushed list_length (array rs) = ([], (list_length, false))

abbrev one_of : List ℤ → Reply → Bool
one_of ks (integer n) = any ks
  where
    any : List ℤ → Bool
    any [] = false
    any (k ∷ ks) = eqb_ℤ k n || any ks
one_of ks (status t) = false
one_of ks (error t) = false
one_of ks (string t) = false
one_of ks nil = false
one_of ks (array rs) = false

unfoldable pub read_integer : List ℤ → Reply → Text × Bool
read_integer ks r = if one_of ks r then ([], true) else (unexpected_reply r, false)

-- The fields and values of an array in turn. `none` is a `CHECK` that fails: a field without a value,
-- or one that is not a string.
unfoldable pub read_fields : Elements → TextMap Text → Option (TextMap Text)
read_fields end m = some m
read_fields (element (string f) (element (string v) rs)) m = read_fields rs (assign_text f v m)
read_fields rs m = none

unfoldable pub read_all_fields : Reply → Text × Option (TextMap Text × ℤ)
read_all_fields (array end) = (ascii "the key dosen't exist", some ([], code_missing))
read_all_fields (array (element r rs)) = ([], found (read_fields (element r rs) []))
  where
    found : Option (TextMap Text) → Option (TextMap Text × ℤ)
    found none = none
    found (some m) = some (m, code_success)
read_all_fields r = (unexpected_reply r, some ([], code_error))

abbrev pub no_key : Text
no_key = ascii "the key doesn't exist"

abbrev pub no_field : Text
no_field = ascii "the key-field doesn't exist"

module _ {N X : Type 0} (h : Hiredis N X) where
  abbrev answered :
      {R : Type 0} → R → (Reply → Text × R) → X → Client X → N × Option Reply → Outcome N X R
  answered failed read x c (n, none) = (n, record c { last_error = h.errstr x n }, failed)
  answered failed read x c (n, some reply) =
      let (e, r) = read reply in (n, record c { last_error = e }, r)

  abbrev asked_at :
      {R : Type 0} → R → (Reply → Text × R) → Command → Client X → N → Option X → Outcome N X R
  asked_at failed read cmd c n none = (n, record c { last_error = not_connected }, failed)
  asked_at failed read cmd c n (some x) = answered failed read x c (h.command x cmd n)

  -- A method that sends one command: `failed` without a connection or a reply, and else what `read`
  -- makes of the reply, with the error text.
  unfoldable pub asked :
      {R : Type 0} → R → (Reply → Text × R) → Command → Client X → N → Outcome N X R
  asked failed read cmd c n = asked_at failed read cmd c n c.ctx

  unfoldable pub set_ex : Text → Text → ℤ → Client X → N → Outcome N X Bool
  set_ex key value life_in_seconds =
      asked false read_ok
        (if leb_ℤ life_in_seconds (pos 0) then set key value else setex key life_in_seconds value)

  unfoldable pub get_value : Text → Client X → N → Outcome N X (Text × ℤ)
  get_value key = asked ([], code_error) (read_string no_key) (get key)

  unfoldable pub delete : Text → Client X → N → Outcome N X ℤ
  delete key = asked code_error read_deleted (del key)

  unfoldable pub hash_get : Text → Text → Client X → N → Outcome N X (Text × ℤ)
  hash_get key field = asked ([], code_error) (read_string no_field) (hget key field)

  unfoldable pub hash_get_all_fields : Text → Client X → N → Outcome N X (Option (TextMap Text × ℤ))
  hash_get_all_fields key = asked (some ([], code_error)) read_all_fields (hgetall key)

  -- The time to live is set by a second command.
  abbrev then_expire : Text → ℤ → Outcome N X Bool → Outcome N X Bool
  then_expire key life_in_seconds (n, c, false) = (n, c, false)
  then_expire key life_in_seconds (n, c, true) =
      if leb_ℤ life_in_seconds (pos 0)
      then (n, c, true)
      else asked false (read_integer (pos 1 ∷ [])) (expire key life_in_seconds) c n

  unfoldable pub hash_set_ex : Text → Text → Text → ℤ → Client X → N → Outcome N X Bool
  hash_set_ex key field value life_in_seconds c n =
      then_expire key life_in_seconds
        (asked false (read_integer (pos 0 ∷ pos 1 ∷ [])) (hset key field value) c n)

  unfoldable pub list_push_left : Text → Text → ℤ → Client X → N → Outcome N X (ℤ × Bool)
  list_push_left key value list_length =
      asked (list_length, false) (read_pushed list_length) (lpush key value)

  unfoldable pub list_push_right : Text → Text → ℤ → Client X → N → Outcome N X (ℤ × Bool)
  list_push_right key value list_length =
      asked (list_length, false) (read_pushed list_length) (rpush key value)

  unfoldable pub list_pop_left : Text → Client X → N → Outcome N X (Text × ℤ)
  list_pop_left key = asked ([], code_error) (read_string no_key) (lpop key)

  unfoldable pub list_pop_right : Text → Client X → N → Outcome N X (Text × ℤ)
  list_pop_right key = asked ([], code_error) (read_string no_key) (rpop key)
