-- ===== src/RedisClient/Hiredis.antt =====
-- What src/redispp.cc uses of hiredis, the client that it is, and its answers. `X` is a context, `N`
-- the state of the network with the contexts and the servers behind them.
use recomm_engine.Prelude.{ℕ, ◌+◌, Bool, Option, List, [], ◌∷◌, ◌++◌}
use recomm_engine.Prelude.Int.{ℤ, pos, negsuc}
use recomm_engine.Prelude.Texts.{Text, ascii}

-- A command with the arguments of its format. A key, field or value is any text, since its format
-- is `%b` with its length.
pub data Command : Type 0 where
  ping multi exec : Command
  get del hgetall lpop rpop : Text → Command
  set hget lpush rpush : Text → Text → Command
  setex : Text → ℤ → Text → Command
  hset : Text → Text → Text → Command
  expire : Text → ℤ → Command

mutual
  -- A `redisReply` by its type.
  pub data Reply : Type 0 where
    status error string : Text → Reply
    integer : ℤ → Reply
    nil : Reply
    array : Elements → Reply

  pub data Elements : Type 0 where
    end : Elements
    element : Reply → Elements → Elements

abbrev pub elements : Elements → List Reply
elements end = []
elements (element r rs) = r ∷ elements rs

abbrev pub of_list : List Reply → Elements
of_list [] = end
of_list (r ∷ rs) = element r (of_list rs)

abbrev pub reply_type : Reply → ℕ
reply_type (string t) = 1
reply_type (array rs) = 2
reply_type (integer n) = 3
reply_type nil = 4
reply_type (status t) = 5
reply_type (error t) = 6

-- `reply->str` and `reply->len`: a reply with no text has a null pointer and length 0.
abbrev pub reply_str : Reply → Text
reply_str (string t) = t
reply_str (array rs) = []
reply_str (integer n) = []
reply_str nil = []
reply_str (status t) = t
reply_str (error t) = t

-- What `recv` without waiting finds: a descriptor below 0, bytes, the end, nothing yet, or an error.
pub data Received : Type 0 where
  no_descriptor bytes closed would_block broken : Received

-- `true` is `REDIS_OK`; no reply is a null pointer.
pub record Hiredis (N X : Type 0) : Type 0 where
  pub connect_with_timeout : Text → ℤ → ℤ → N → N × X
  pub err : X → N → ℤ
  pub errstr : X → N → Text
  pub set_timeout : X → ℤ → ℤ → N → N × Bool
  pub free : X → N → N
  pub append_command : X → Command → N → N × Bool
  pub command : X → Command → N → N × Option Reply
  pub get_reply : X → N → N × Option Reply
  pub receive : X → N → N × Received

pub record Client (X : Type 0) : Type 0 where
  pub ip : Text
  pub port : ℤ
  pub ctx : Option X
  pub last_error : Text

-- What a method leaves, and its result with its out-parameters.
abbrev pub Outcome : Type 0 → Type 0 → Type 0 → Type 0
Outcome N X R = N × Client X × R

-- The codes -1, 0 and 1.
abbrev pub code_error : ℤ
code_error = negsuc 0

abbrev pub code_success : ℤ
code_success = pos 0

abbrev pub code_missing : ℤ
code_missing = pos 1

-- `boost::format("unexpected reply, type: %1%")`.
abbrev pub unexpected_reply : Reply → Text
unexpected_reply r = ascii "unexpected reply, type: " ++ (48 + reply_type r) ∷ []
