-- ===== src/Storage/UserProfileStorage/Increment.antt =====
-- What an increment of src/user_profile_storage.cc does to the keywords of a user.
use recomm_engine.Prelude.{◌≡◌, refl, true, Option, none, some, ◌>>=◌}
use recomm_engine.Prelude.Int.{ℤ}
use recomm_engine.Prelude.Texts.{Text}
use recomm_engine.Util.Bytes.{Thrift}
use recomm_engine.Storage.UserProfileStorage.{
  UserProfile, Redis, fresh_profile, plus, get_user_profile, incremented, put_user_profile,
  set_to_redis, code_of,
}

-- The two weights of a keyword, added.
abbrev pub both : Option ℤ → Option ℤ → Option ℤ
both org none = org
both org (some w) = some (plus org w)

module _ {D P : Type 0} (redis : Redis D P) (thrift : Thrift UserProfile) where
  -- An increment for a user that Redis does not know sets an empty profile, whatever was to be added:
  -- the result, with the state of Redis, is that of the setting of the empty profile.
  pub put_user_profile-unknown :
      (user_id : Text) (profile : UserProfile) (life : ℤ) (d d1 d2 : D) (p : P)
      → redis.get_redis_node user_id d ≡ some (d1, some p)
      → get_user_profile redis thrift user_id fresh_profile d1 ≡ some (d2, (1, fresh_profile))
      → put_user_profile redis thrift user_id profile true life d
        ≡ (set_to_redis redis thrift p user_id fresh_profile life d2 >>= code_of redis thrift)
  unfolding put_user_profile incremented
  put_user_profile-unknown user_id profile life d d1 d2 p chosen unknown =
      rw chosen (rw unknown refl)
