-- ===== src/Handlers/StoryManagement.antt =====
-- src/story_management_handler.cc: a story goes into the inverted index and the forward index.
pub mod Status
use recomm_engine.Prelude.{
  ℕ, ◌≡◌, refl, Bool, true, false, Option, none, some, ◌>>=◌, if◌then◌else◌, Option-cases,
  Bool-cases, inl, inr,
}
use recomm_engine.Prelude.Texts.{Text}
use recomm_engine.Indexing.Base.{StoryProfile, StoryAddingRequest}
use recomm_engine.Indexing.State.{InstantIndex}
use recomm_engine.Indexing.InstantIndex
use recomm_engine.Storage.LocalDict.{Leveldb, LocalDict}
use recomm_engine.Storage.StoryProfileStorage.{add_profile}
use recomm_engine.Util.Bytes.{Thrift}

pub data StoryManagementStatus : Type 0 where
  sms_ok sms_error : StoryManagementStatus

pub record Stores (D : Type 0) : Type 0 where
  pub inverted_index : InstantIndex
  pub forward_index : LocalDict D

module _ {D : Type 0} (db : Leveldb D) (thrift : Thrift StoryProfile) (city_hash64 : Text → ℕ) where
  -- The status is set to an error where the forward index fails, and then to success.
  unfoldable pub add_to_forward_index :
      StoryAddingRequest → Stores D → Option (Stores D × StoryManagementStatus)
  add_to_forward_index request s = do
    (dict, done) ←
        add_profile db thrift (city_hash64 request.story.story_id) request.story s.forward_index
    let status : StoryManagementStatus = if done then sms_ok else sms_error
    let status : StoryManagementStatus = sms_ok
    some (record s { forward_index = dict }, status)

  unfoldable pub add_story :
      ℕ → ℕ → StoryAddingRequest → Stores D → Option (Stores D × StoryManagementStatus)
  add_story now1 now2 request s =
      let (index, added) = InstantIndex.add_story now1 now2 request s.inverted_index in
      let s = record s { inverted_index = index } in
      if added then add_to_forward_index request s else some (s, sms_error)
