-- ===== src/Indexing/Interleaving.antt =====
-- The threads of src/indexing on one index: AddStory of instant_index.cc, the index builder, and the
-- cleaner. A step is what a thread does to one posting list, or a critical section under a writer's
-- lock. The passes over the lists hold a reader's lock, which the two threads share, so the steps of
-- their passes come in any order. Two operations on the same list at one time, which that lock does not
-- rule out, are not modelled: each is one step.
pub mod Sound
pub mod Tokens
pub mod Steps
pub mod Runs
use recomm_engine.Prelude.{
  ℕ, ◌+◌, Bool, true, false, Option, none, some, List, [], ◌∷◌, length, ◌>>=◌, if◌then◌else◌,
}
use recomm_engine.Prelude.Maps.{Map, find, assign}
use recomm_engine.Prelude.Int.{ℤ, pos, sub_ℕ, ◌+ℤ◌, to_int32}
use recomm_engine.Prelude.Texts.{Text}
use recomm_engine.Util.ProducerConsumerQueue.{try_get_internal}
use recomm_engine.Indexing.Base.{Posting, StoryProfile, StoryAddingRequest, to_float}
use recomm_engine.Indexing.PostingList.{push_posting}
use recomm_engine.Indexing.PostingList
use recomm_engine.Indexing.State.{InstantIndex}
use recomm_engine.Indexing.InstantIndex.{add_story}
use recomm_engine.Indexing.IndexBuildThread.{register, new_tokens, create_lists}
use recomm_engine.Indexing.CleanOldStoryThread.{
  target_time, mark_list, clear_list, delete_attachments,
}

-- Where the builder stands: it waits for a story; it has one to register; it looks for its new tokens;
-- it creates their lists; it adds postings, for these keywords.
pub data Builder : Type 0 where
  waits : Builder
  registers : StoryAddingRequest → Builder
  looks : StoryAddingRequest → ℕ → Builder
  creates : StoryAddingRequest → ℕ → List ℕ → Builder
  posts : Map ℤ → ℕ → Builder

-- Where the cleaner stands: between rounds; marking the lists of these tokens; between its passes;
-- clearing them, with the documents collected; deleting these.
pub data Cleaner : Type 0 where
  sleeps : Cleaner
  marks : ℤ → List ℕ → Cleaner
  marked : Cleaner
  clears : List ℕ → List ℕ → Cleaner
  deletes : List ℕ → Cleaner

pub record Threads : Type 0 where
  pub state : InstantIndex
  pub builder : Builder
  pub cleaner : Cleaner

abbrev pub keys {ℓ} : {V : Type ℓ} → Map V → List ℕ
keys [] = []
keys ((k, v) ∷ m) = k ∷ keys m

-- The cleaner has the reader's lock of the index during its passes.
abbrev pub has_lock : Cleaner → Bool
has_lock sleeps = false
has_lock (marks target tokens) = true
has_lock marked = false
has_lock (clears tokens docs) = true
has_lock (deletes docs) = false

abbrev taken : Option StoryAddingRequest → Builder
taken none = waits
taken (some req) = registers req

-- One step of the builder, with the clocks of the pool and of the postings. It waits for the writer's
-- lock of the index while the cleaner has the reader's.
module _ (city_hash64 : Text → ℕ) (pool_clock : ℕ → ℕ) (now : ℕ) where
  unfoldable pub build : Builder → Cleaner → InstantIndex → Option (InstantIndex × Builder)
  build waits c s =
      let (doc_pool, got) = try_get_internal pool_clock s.doc_pool in
      some (record s { doc_pool = doc_pool }, taken got)
  build (registers req) c s =
      let (s, local_id) = register city_hash64 req.story s in some (s, looks req local_id)
  build (looks req local_id) c s =
      some (s, creates req local_id (new_tokens req.story.keywords s.index))
  build (creates req local_id tokens) c s =
      if has_lock c then some (s, creates req local_id tokens) else do
        index ← create_lists tokens s.index
        some (record s { index = index }, posts req.story.keywords local_id)
  build (posts [] local_id) c s = some (s, waits)
  build (posts ((k, w) ∷ keywords) local_id) c s = do
    plist ← find k s.index
    plist ←
        push_posting
          (record { local_docid = local_id; weight = to_float w; timestamp = to_int32 (pos now) })
          plist
    some (record s { index = assign k plist s.index }, posts keywords local_id)

-- One step of the cleaner, with the time and the life time of a story.
module _ (now doc_life_time : ℕ) where
  unfoldable pub clean : Cleaner → InstantIndex → Option (InstantIndex × Cleaner)
  clean sleeps s = some (s, marks (target_time now doc_life_time) (keys s.index))
  clean (marks target []) s = some (s, marked)
  clean (marks target (k ∷ tokens)) s = do
    plist ← find k s.index
    plist ← mark_list target plist
    some (record s { index = assign k plist s.index }, marks target tokens)
  clean marked s = some (s, clears (keys s.index) [])
  clean (clears [] docs) s = some (s, deletes docs)
  clean (clears (k ∷ tokens) docs) s = do
    plist ← find k s.index
    (plist, docs) ← clear_list plist docs
    some (record s { index = assign k plist s.index }, clears tokens docs)
  clean (deletes docs) s = some (
    record s {
      att = delete_attachments docs s.att;
      num_indexed_stories_total = to_int32 (s.num_indexed_stories_total +ℤ sub_ℕ 0 (length docs));
      delete_doc_cnt = s.delete_doc_cnt + length docs;
    },
    sleeps,
  )

-- Whose step comes next.
pub data Turn : Type 0 where
  adds : ℕ → ℕ → StoryAddingRequest → Turn
  builds : (ℕ → ℕ) → ℕ → Turn
  cleans : ℕ → ℕ → Turn

module _ (city_hash64 : Text → ℕ) where
  unfoldable pub turn : Turn → Threads → Option Threads
  turn (adds now1 now2 req) t = some (record t { state = (add_story now1 now2 req t.state).0 })
  turn (builds pool_clock now) t = do
    (s, b) ← build city_hash64 pool_clock now t.builder t.cleaner t.state
    some (record t { state = s; builder = b })
  turn (cleans now doc_life_time) t = do
    (s, c) ← clean now doc_life_time t.cleaner t.state
    some (record t { state = s; cleaner = c })

  unfoldable pub run_turns : List Turn → Threads → Option Threads
  run_turns [] t = some t
  run_turns (e ∷ es) t = turn e t >>= run_turns es
