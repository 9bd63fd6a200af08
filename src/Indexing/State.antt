-- ===== src/Indexing/State.antt =====
-- What src/indexing/instant_index.h and its threads share: the index from tokens to posting lists,
-- the attachments from local to global document ids, the counters of src/monitor_manager.h that the
-- index keeps, and the two pools of stories. The read-write mutexes make each critical section a step.
pub mod Represents
use recomm_engine.Prelude.{ℕ, List}
use recomm_engine.Prelude.Maps.{Map}
use recomm_engine.Prelude.Int.{ℤ}
use recomm_engine.Util.ProducerConsumerQueue.{Queue}
use recomm_engine.Indexing.Base.{StoryAddingRequest}
use recomm_engine.Indexing.PostingList.{PostingList}

pub record InstantIndex : Type 0 where
  pub index : Map PostingList
  pub att : Map ℕ
  pub local_docid_counter : ℕ
  pub num_indexed_stories_current : ℤ
  pub num_indexed_stories_total : ℤ
  pub delete_doc_cnt : ℕ
  -- The pool of the index builder, and that of the replay log.
  pub doc_pool : Queue StoryAddingRequest
  pub log_pool : Queue StoryAddingRequest
