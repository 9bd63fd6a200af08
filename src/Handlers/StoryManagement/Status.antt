-- ===== src/Handlers/StoryManagement/Status.antt =====
-- The status that src/story_management_handler.cc reports.
use recomm_engine.Prelude.{ℕ, ◌≡◌, refl, true, some, Bool-cases, inl, inr, if◌then◌else◌}
use recomm_engine.Util.ProducerConsumerQueue.{is_full, try_put_internal}
use recomm_engine.Prelude.Texts.{Text}
use recomm_engine.Indexing.Base.{StoryProfile, StoryAddingRequest}
use recomm_engine.Indexing.InstantIndex
use recomm_engine.Storage.LocalDict.{Leveldb, put}
use recomm_engine.Storage.StoryProfileStorage.{add_profile}
use recomm_engine.Util.Bytes.{Thrift}
use recomm_engine.Handlers.StoryManagement.{
  Stores, sms_ok, sms_error, add_to_forward_index, add_story,
}

module _ {D : Type 0} (db : Leveldb D) (thrift : Thrift StoryProfile) (city_hash64 : Text → ℕ) where
  -- With an open database `add_story` does not crash. It reports success exactly if the pool of the
  -- index builder has room, whether the profile could be stored or not; without room the profile
  -- is not stored. The story goes to both pools of the index either way.
  pub add_story_status :
      (now1 now2 : ℕ) (request : StoryAddingRequest) (s : Stores D) (d : D)
      → s.forward_index.persistence ≡ some d
      → (s' : Stores D) × (add_story db thrift city_hash64 now1 now2 request s
          ≡ some (s', if is_full s.inverted_index.doc_pool then sms_error else sms_ok))
        × (s'.inverted_index ≡ (InstantIndex.add_story now1 now2 request s.inverted_index).0)
        × (is_full s.inverted_index.doc_pool ≡ true → s'.forward_index ≡ s.forward_index)
  unfolding add_story add_to_forward_index add_profile put InstantIndex.add_story try_put_internal
  add_story_status now1 now2 request s d e = elim (Bool-cases (is_full s.inverted_index.doc_pool)) [
    | inl full ↦ rw full (_, refl, refl, λ f. refl)
    | inr room ↦ rw room (rw e (_, refl, refl, λ f. cc))
  ]
