-- ===== src/Storage/LocalDict.antt =====
-- src/local_dict.cc over leveldb. `D` is the state of a database. A dictionary whose database could
-- not be opened has none, and a use of it is a crash, `none`.
pub mod Contents
use recomm_engine.Prelude.{
  ℕ, Bool, true, false, Option, none, some, List, [], ◌∷◌, ◌>>=◌, if◌then◌else◌,
}
use recomm_engine.Prelude.Texts.{Text}

-- `leveldb::Status`, as far as it is asked.
pub data Status : Type 0 where
  ok not_found failed : Status

pub record Leveldb (D : Type 0) : Type 0 where
  pub put : Text → Text → D → D × Status
  -- The value is meaningful with `ok` alone.
  pub get : Text → D → Status × Text

pub record LocalDict (D : Type 0) : Type 0 where
  pub persistence : Option D

module _ {D : Type 0} where
  abbrev opened : Status → D → Option D
  opened ok db = some db
  opened not_found db = none
  opened failed db = none

  -- The constructor, from what `DB::Open` gives.
  unfoldable pub new : Status × D → LocalDict D
  new (status, db) = record { persistence = opened status db }

unfoldable pub purge : {D : Type 0} → LocalDict D → LocalDict D × Bool
purge dict = (dict, true)

abbrev pub is_ok : Status → Bool
is_ok ok = true
is_ok not_found = false
is_ok failed = false

abbrev get_result : Status × Text → Text → ℕ × Text
get_result (ok, v) value = (0, v)
get_result (not_found, v) value = (1, value)
get_result (failed, v) value = (2, value)

module _ {D : Type 0} (db : Leveldb D) where
  unfoldable pub put : Text → Text → LocalDict D → Option (LocalDict D × Bool)
  put key value dict = do
    d ← dict.persistence
    let (d, status) = db.put key value d
    some (record { persistence = some d }, is_ok status)

  -- The result, and what `*value` holds afterwards: 0 is success, 1 not found, 2 an error.
  unfoldable pub get : Text → Text → LocalDict D → Option (ℕ × Text)
  get key value dict = do d ← dict.persistence; some (get_result (db.get key d) value)

  -- The loop over the pairs that are read from a file; what was put before a failure stays.
  unfoldable pub put_all : List (Text × Text) → LocalDict D → Option (LocalDict D × Bool)
  put_all [] dict = some (dict, true)
  put_all ((key, value) ∷ pairs) dict = do
    (dict, done) ← put key value dict
    if done then put_all pairs dict else some (dict, false)

  -- `pairs` are the words of the file, two by two.
  unfoldable pub bootstrap : List (Text × Text) → LocalDict D → Option (LocalDict D × Bool)
  bootstrap pairs dict = put_all pairs (purge dict).0
