-- ===== src/Storage/StoryProfileStorage.antt =====
-- src/story_profile_storage.cc: the stories by the hash of their ids, serialised by Thrift.
pub mod RoundTrip
use recomm_engine.Prelude.{
  ℕ, zero, suc, ◌+◌, ◌/◌, ◌%◌, ◌^◌, Bool, true, false, Option, none, some, List, [], ◌∷◌, ◌>>=◌,
  ◌==◌, if◌then◌else◌,
}
use recomm_engine.Prelude.Texts.{Text}
use recomm_engine.Util.Bytes.{Thrift, bytes}
use recomm_engine.Indexing.Base.{StoryProfile}
use recomm_engine.Storage.LocalDict.{Leveldb, LocalDict, Status}
use recomm_engine.Storage.LocalDict

unfoldable pub key_bytes : ℕ → Text
key_bytes key = bytes 8 ((key + 2 ^ 63) % 2 ^ 64)

module _ {D : Type 0} (db : Leveldb D) (thrift : Thrift StoryProfile) where
  unfoldable pub add_profile : ℕ → StoryProfile → LocalDict D → Option (LocalDict D × Bool)
  add_profile key value dict = LocalDict.put db (key_bytes key) (thrift.to_string value) dict

  abbrev profile_of : ℕ × Text → StoryProfile → StoryProfile × Bool
  profile_of (status, serialized_value) value =
      if status == 0
      then thrift.from_string serialized_value value
      else if status == 1
      then (record value { story_id = [] }, false)
      else (value, false)

  unfoldable pub get_profile : ℕ → StoryProfile → LocalDict D → Option (StoryProfile × Bool)
  get_profile key value dict = do
    got ← LocalDict.get db (key_bytes key) [] dict
    some (profile_of got value)

-- Initialize, from what `DB::Open` gives: the dictionary is made in any case.
unfoldable pub initialize : {D : Type 0} → Status × D → LocalDict D × Bool
initialize opened = (LocalDict.new opened, true)

-- The iterators of leveldb over a database.
pub record Cursor (D I : Type 0) : Type 0 where
  pub seek_to_first : D → I
  pub seek_to_last : D → I
  pub next : I → I
  pub prev : I → I
  pub valid : I → Bool
  pub key : I → Text
  pub value : I → Text

pub record StoryIterator (I : Type 0) : Type 0 where
  pub iterator : I
  pub reverse : Bool

module _ {D I : Type 0} (cursor : Cursor D I) where
  unfoldable pub new_story_iterator : D → Bool → StoryIterator I
  new_story_iterator db reverse = record {
    iterator = if reverse then cursor.seek_to_last db else cursor.seek_to_first db;
    reverse = reverse;
  }

  unfoldable pub next_story : StoryIterator I → StoryIterator I × Bool
  next_story it =
      let moved = if it.reverse then cursor.prev it.iterator else cursor.next it.iterator in
      (record it { iterator = moved }, cursor.valid moved)

  unfoldable pub story_key : StoryIterator I → Text
  story_key it = cursor.key it.iterator

  unfoldable pub story_value : StoryIterator I → Text
  story_value it = cursor.value it.iterator

-- GetIterator makes none.
unfoldable pub get_iterator : {I : Type 0} → Bool → Option (StoryIterator I)
get_iterator reverse = none
