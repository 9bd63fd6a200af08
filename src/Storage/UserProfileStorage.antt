-- ===== src/Storage/UserProfileStorage.antt =====
-- src/user_profile_storage.cc over an interface of the cluster of src/redis_cluster.h, which OnCluster
-- fills. Thrift serialises. `none` is a crash.
pub mod Increment
pub mod OnCluster
use recomm_engine.Prelude.{
  ℕ, Bool, true, false, Option, none, some, List, [], ◌∷◌, ◌==◌, if◌then◌else◌, ◌>>=◌,
}
use recomm_engine.Prelude.Maps.{Map, find, assign}
use recomm_engine.Prelude.Int.{ℤ, pos, negsuc, ◌+ℤ◌, to_int32, eqb_ℤ}
use recomm_engine.Prelude.Texts.{Text}
use recomm_engine.Util.Bytes.{Thrift}

pub record UserProfile : Type 0 where
  pub uid : Text
  pub keywords : Map ℤ
  pub history : List ℕ
  pub rest : Text

abbrev pub fresh_profile : UserProfile
fresh_profile = record { uid = []; keywords = []; history = []; rest = [] }

-- `D` is the state of the cluster, and `P` a pointer to one of its clients.
pub record Redis (D P : Type 0) : Type 0 where
  -- The client for a key, or none where the result is false.
  pub get_redis_node : Text → D → Option (D × Option P)
  -- The value and the code: -1 is an error, 0 a value, 1 no value.
  pub get : P → Text → D → Option (D × (Text × ℤ))
  pub set_ex : P → Text → Text → ℤ → D → Option (D × Bool)

module _ {D P : Type 0} (redis : Redis D P) (thrift : Thrift UserProfile) where
  abbrev parsed : UserProfile × Bool → ℕ × UserProfile
  parsed (profile, true) = (0, profile)
  parsed (profile, false) = (2, profile)

  -- What a value and its code make of the profile.
  abbrev answer : UserProfile → Text × ℤ → ℕ × UserProfile
  answer profile (value, ret) =
      if eqb_ℤ ret (negsuc 0)
      then (2, profile)
      else if eqb_ℤ ret (pos 0)
      then parsed (thrift.from_string value profile)
      else if eqb_ℤ ret (pos 1)
      then (1, profile)
      else (0, profile)

  abbrev get_from : Text → UserProfile → D × Option P → Option (D × (ℕ × UserProfile))
  get_from user_id profile (d, none) = some (d, (2, profile))
  get_from user_id profile (d, some p) = do
    (d, got) ← redis.get p user_id d
    some (d, answer profile got)

  -- The result, and what `*profile` holds: 0 is success, 1 no such user, 2 a failure.
  unfoldable pub get_user_profile : Text → UserProfile → D → Option (D × (ℕ × UserProfile))
  get_user_profile user_id profile d = redis.get_redis_node user_id d >>= get_from user_id profile

  unfoldable pub set_to_redis : P → Text → UserProfile → ℤ → D → Option (D × Bool)
  set_to_redis p user_id profile life_in_seconds d =
      redis.set_ex p user_id (thrift.to_string profile) life_in_seconds d

-- An `int32_t` that overflows wraps around.
abbrev pub plus : Option ℤ → ℤ → ℤ
plus none w = w
plus (some v) w = to_int32 (v +ℤ w)

unfoldable pub increment_keywords : Map ℤ → Map ℤ → Map ℤ
increment_keywords org [] = org
increment_keywords org ((k, w) ∷ add) = increment_keywords (assign k (plus (find k org) w) org) add

unfoldable pub increment_user_profile : UserProfile → UserProfile → UserProfile
increment_user_profile org_profile add_profile = record org_profile {
  keywords = increment_keywords org_profile.keywords add_profile.keywords;
}

-- What an increment sets, from the result of GetUserProfile.
unfoldable pub incremented : ℕ × UserProfile → UserProfile → UserProfile
incremented (ret, org_profile) profile =
    if ret == 0 then increment_user_profile org_profile profile else org_profile

module _ {D P : Type 0} (redis : Redis D P) (thrift : Thrift UserProfile) where
  abbrev pub code_of : D × Bool → Option (D × ℕ)
  code_of (d, true) = some (d, 0)
  code_of (d, false) = some (d, 2)

  -- The client is chosen once more by GetUserProfile; the profile is set by the first.
  abbrev put_on : Text → UserProfile → Bool → ℤ → D × Option P → Option (D × ℕ)
  put_on user_id profile is_increment life (d, none) = some (d, 2)
  put_on user_id profile false life (d, some p) =
      set_to_redis redis thrift p user_id profile life d >>= code_of
  put_on user_id profile true life (d, some p) = do
    (d, got) ← get_user_profile redis thrift user_id fresh_profile d
    let set = set_to_redis redis thrift p user_id (incremented got profile) life d >>= code_of
    if got.0 == 2 then some (d, 2) else set

  unfoldable pub put_user_profile : Text → UserProfile → Bool → ℤ → D → Option (D × ℕ)
  put_user_profile user_id profile is_increment life_in_seconds d =
      redis.get_redis_node user_id d >>= put_on user_id profile is_increment life_in_seconds
