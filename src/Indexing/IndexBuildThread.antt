-- ===== src/Indexing/IndexBuildThread.antt =====
-- src/indexing/index_build_thread.cc: the attachment, the new posting lists and the postings of a
-- story. `clock i` is the i-th reading of the clock in one call, in seconds.
pub mod Refines
pub mod Postings
use recomm_engine.Prelude.{ℕ, ◌+◌, ◌%◌, Bool, Option, none, some, List, [], ◌∷◌, ◌>>=◌}
use recomm_engine.Prelude.Maps.{Map, find, assign}
use recomm_engine.Prelude.Int.{ℤ, pos, negsuc, ◌+ℤ◌, to_int32}
use recomm_engine.Util.LocklessList.{u32_mod}
use recomm_engine.Util.ProducerConsumerQueue.{
  Queue, timeout_use_default, try_put_internal, try_get_internal,
}
use recomm_engine.Prelude.Texts.{Text}
use recomm_engine.Indexing.Base.{Posting, StoryProfile, StoryAddingRequest, to_float}
use recomm_engine.Indexing.PostingList.{PostingList, push_posting}
use recomm_engine.Indexing.PostingList
use recomm_engine.Indexing.State.{InstantIndex}

-- Step 1, under the writer's lock of the attachments: a fresh local id, and the global id for it.
unfoldable pub register : (Text → ℕ) → StoryProfile → InstantIndex → InstantIndex × ℕ
register city_hash64 story s = (
  record s {
    local_docid_counter = (s.local_docid_counter + 1) % u32_mod;
    num_indexed_stories_current = to_int32 (s.num_indexed_stories_current +ℤ pos 1);
    num_indexed_stories_total = to_int32 (s.num_indexed_stories_total +ℤ pos 1);
    att = assign s.local_docid_counter (city_hash64 story.story_id) s.att;
  },
  s.local_docid_counter,
)

abbrev pub add_missing {ℓ} : {V : Type ℓ} → Option V → ℕ → List ℕ → List ℕ
add_missing none k ks = k ∷ ks
add_missing (some v) k ks = ks

-- The first pass of step 2: the keywords that have no posting list.
unfoldable pub new_tokens {ℓ} : {V : Type ℓ} → Map ℤ → Map V → List ℕ
new_tokens [] index = []
new_tokens ((k, w) ∷ kw) index = add_missing (find k index) k (new_tokens kw index)

unfoldable pub create_lists : List ℕ → Map PostingList → Option (Map PostingList)
create_lists [] index = some index
create_lists (k ∷ ks) index = do plist ← PostingList.new; create_lists ks (assign k plist index)

-- A posting for each keyword. The `CHECK` is that the keyword is found.
unfoldable pub add_postings : (ℕ → ℕ) → ℕ → ℕ → Map ℤ → Map PostingList → Option (Map PostingList)
add_postings clock i local_id [] index = some index
add_postings clock i local_id ((k, w) ∷ kw) index = do
  plist ← find k index
  plist ←
      push_posting
        (record {
          local_docid = local_id;
          weight = to_float w;
          timestamp = to_int32 (pos (clock i));
        })
        plist
  add_postings clock (i + 1) local_id kw (assign k plist index)

unfoldable pub add_story_internal :
    (Text → ℕ) → (ℕ → ℕ) → StoryAddingRequest → InstantIndex → Option InstantIndex
add_story_internal city_hash64 clock req s = do
  let (s1, local_id) = register city_hash64 req.story s
  index ← create_lists (new_tokens req.story.keywords s1.index) s1.index
  index ← add_postings clock 0 local_id req.story.keywords index
  some (record s1 { index = index })

-- AddStory, which TryPut answers.
abbrev pub add_story : ℕ → StoryAddingRequest → InstantIndex → InstantIndex × Bool
add_story now req s =
    let (doc_pool, accepted) = try_put_internal now req timeout_use_default s.doc_pool in
    (record s { doc_pool = doc_pool }, accepted)

abbrev built : (Text → ℕ) → (ℕ → ℕ) → Option StoryAddingRequest → InstantIndex → Option InstantIndex
built city_hash64 clock none s = some s
built city_hash64 clock (some req) s = add_story_internal city_hash64 clock req s

-- One round of Run, where the pool has a story; `Get` waits until it has. The result of
-- AddStoryInternal, which is always true, is not looked at.
unfoldable pub run_round : (Text → ℕ) → (ℕ → ℕ) → (ℕ → ℕ) → InstantIndex → Option InstantIndex
run_round city_hash64 pool_clock clock s =
    let (doc_pool, got) = try_get_internal pool_clock s.doc_pool in
    built city_hash64 clock got (record s { doc_pool = doc_pool })
