-- ===== src/RedisClient/Connection.antt =====
-- The connection of src/redispp.cc: Connect, Disconnect, Reconnect, Ping, SetReadWriteTimeOut and
-- IsConnected.
use recomm_engine.Prelude.{
  ℕ, zero, suc, ◌+◌, ◌*◌, ◌/◌, ◌%◌, Bool, true, false, Option, none, some, [], ◌++◌, if◌then◌else◌,
  ◌>>=◌,
}
use recomm_engine.Prelude.Int.{ℤ, pos, negsuc, eqb_ℤ}
use recomm_engine.Prelude.Texts.{Text, ascii, same_text}
use recomm_engine.RedisClient.Hiredis.{
  ping, Reply, reply_str, Received, no_descriptor, bytes, closed, would_block, broken, Hiredis,
  Client, Outcome,
}

abbrev negate : ℕ → ℤ
negate zero = pos 0
negate (suc k) = negsuc k

-- `int` division and remainder, towards zero, and a product that stays in range.
abbrev div_int : ℤ → ℕ → ℤ
div_int (pos n) d = pos (n / d)
div_int (negsuc n) d = negate ((n + 1) / d)

abbrev mod_int : ℤ → ℕ → ℤ
mod_int (pos n) d = pos (n % d)
mod_int (negsuc n) d = negate ((n + 1) % d)

abbrev times_int : ℤ → ℕ → ℤ
times_int (pos n) k = pos (n * k)
times_int (negsuc n) k = negate ((n + 1) * k)

abbrev pub not_connected : Text
not_connected = ascii "redis not connected"

module _ {N X : Type 0} (h : Hiredis N X) where
  -- The constructor: no connection yet.
  abbrev pub new_client : Text → ℤ → Client X
  new_client ip port = record { ip = ip; port = port; ctx = none; last_error = [] }

  unfoldable pub connect : Client X → N → Outcome N X Bool
  connect c n = go c.ctx
    where
      go : Option X → Outcome N X Bool
      go (some x) = (n, record c { last_error = ascii "redis is already connected." }, false)
      go none =
          let (n, x) = h.connect_with_timeout c.ip c.port (pos 5) n in
          if eqb_ℤ (h.err x n) (pos 0)
          then (
            (h.set_timeout x (pos 5) (pos 0) n).0,
            record c { ctx = some x; last_error = [] },
            true,
          )
          else (h.free x n, record c { ctx = none; last_error = h.errstr x n }, false)

  unfoldable pub disconnect : Client X → N → Outcome N X Bool
  disconnect c n = go c.ctx
    where
      go : Option X → Outcome N X Bool
      go none = (n, record c { last_error = not_connected }, false)
      go (some x) = (h.free x n, record c { ctx = none; last_error = [] }, true)

  unfoldable pub reconnect : Client X → N → Outcome N X Bool
  reconnect c n = let (n, c, done) = disconnect (record c { last_error = [] }) n in connect c n

  -- `strcmp` sees the text up to its first zero byte, and the length is that of "PONG".
  unfoldable pub pong : Reply → Client X → Client X × Bool
  pong reply c =
      if same_text (ascii "PONG") (reply_str reply)
      then (record c { last_error = [] }, true)
      else (record c { last_error = ascii "unknown reply for PING: " ++ reply_str reply }, false)

  unfoldable pub ping_server : Client X → N → Outcome N X Bool
  ping_server c n = go c.ctx
    where
      answer : N → X → Option Reply → Outcome N X Bool
      answer n x none = (n, record c { last_error = h.errstr x n }, false)
      answer n x (some reply) = let (c, alive) = pong reply c in (n, c, alive)

      go : Option X → Outcome N X Bool
      go none = (n, record c { last_error = not_connected }, false)
      go (some x) = let (n, reply) = h.command x ping n in answer n x reply

  unfoldable pub set_read_write_time_out : ℤ → Client X → N → Outcome N X Bool
  set_read_write_time_out timeout_in_ms c n = go c.ctx
    where
      go : Option X → Outcome N X Bool
      go none = (n, c, false)
      go (some x) =
          let second = div_int timeout_in_ms 1000 in
          let ms = mod_int timeout_in_ms 1000 in
          let (n, done) = h.set_timeout x second (times_int ms 1000) n in (n, c, done)

  abbrev is_open : Received → Bool
  is_open no_descriptor = false
  is_open bytes = false
  is_open closed = false
  is_open would_block = true
  is_open broken = false

  -- With no context it is a crash, `none`.
  unfoldable pub is_connected : Client X → N → Option (Outcome N X Bool)
  is_connected c n = do x ← c.ctx; let (n, r) = h.receive x n; some (n, c, is_open r)
