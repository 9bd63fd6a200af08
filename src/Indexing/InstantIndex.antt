-- ===== src/Indexing/InstantIndex.antt =====
-- The interface of src/indexing/instant_index.cc for readers and for new stories. An iterator comes
-- with the list that it refers to.
use recomm_engine.Prelude.{
  ℕ, Bool, true, false, Option, none, some, List, [], ◌∷◌, length, ◌==◌, ◌++◌, ◌>>=◌,
}
use recomm_engine.Prelude.Maps.{Map, find, assign}
use recomm_engine.Util.ProducerConsumerQueue.{try_put_internal, timeout_use_default}
use recomm_engine.Util.ProducerConsumerQueue as Queue
use recomm_engine.Util.Strings.{digits, string_append_f}
use recomm_engine.Prelude.Int.{ℤ, pos}
use recomm_engine.Prelude.Texts.{Text, ascii}
use recomm_engine.Indexing.IndexBuildThread
use recomm_engine.Indexing.Base.{StoryAddingRequest}
use recomm_engine.Indexing.PostingList.{PostingList, PostingIterator, new_iterator}
use recomm_engine.Indexing.State.{InstantIndex}

abbrev iterator_of : Option PostingList → Option (Option (PostingList × PostingIterator))
iterator_of none = some none
iterator_of (some plist) = do it ← new_iterator plist; some (some (plist, it))

unfoldable pub get_posting_list : ℕ → InstantIndex → Option (Option (PostingList × PostingIterator))
get_posting_list token_id s = iterator_of (find token_id s.index)

abbrev add_found {ℓ} : {V : Type ℓ} → ℕ → Option V → Map V → Map V
add_found k none m = m
add_found k (some v) m = assign k v m

unfoldable pub get_posting_list_batch :
    List ℕ
    → InstantIndex
    → Map (PostingList × PostingIterator)
    → Option (Map (PostingList × PostingIterator))
get_posting_list_batch [] s ret = some ret
get_posting_list_batch (t ∷ tokens) s ret = do
  found ← get_posting_list t s
  get_posting_list_batch tokens s (add_found t found ret)

abbrev translated : Option ℕ → ℕ → ℕ × Bool
translated none res = (res, false)
translated (some global_docid) res = (global_docid, true)

-- What `*res` holds afterwards, and the result.
unfoldable pub translate_to_global_id : ℕ → InstantIndex → ℕ → ℕ × Bool
translate_to_global_id local_id s res = translated (find local_id s.att) res

unfoldable pub translate_all : List ℕ → InstantIndex → Map ℕ → Map ℕ
translate_all [] s res = res
translate_all (l ∷ locals) s res = translate_all locals s (add_found l (find l s.att) res)

unfoldable pub translate_to_global_id_batch : List ℕ → InstantIndex → Map ℕ → Map ℕ × Bool
translate_to_global_id_batch locals s res =
    let res = translate_all locals s res in (res, length locals == length res)

-- AddStory: the story goes to the builder, and, whether that took it or not, to the replay log.
unfoldable pub add_story : ℕ → ℕ → StoryAddingRequest → InstantIndex → InstantIndex × Bool
add_story now1 now2 req s =
    let (s, ret) = IndexBuildThread.add_story now1 req s in
    let (log_pool, backed_up) = try_put_internal now2 req timeout_use_default s.log_pool in
    (record s { log_pool = log_pool }, ret)

-- Init, and the constructors of the threads that it makes: an empty index, with two pools of these
-- sizes. The counters of src/monitor_manager.h are those of the process.
unfoldable pub init : ℕ → ℕ → ℤ → ℤ → InstantIndex
init doc_pool_size replay_log_buffer current total = record {
  index = [];
  att = [];
  local_docid_counter = 1;
  num_indexed_stories_current = current;
  num_indexed_stories_total = total;
  delete_doc_cnt = 0;
  doc_pool = Queue.new doc_pool_size (pos 0);
  log_pool = Queue.new replay_log_buffer (pos 0);
}

-- GetState, for sizes that an `int` can hold.
unfoldable pub get_state : InstantIndex → Text → Text
get_state s info =
    let info =
      (string_append_f (ascii "Total Token num: " ++ digits 10 (length s.index) ++ ascii " ")
        info).0 in
    (string_append_f (ascii "Total docs: " ++ digits 10 (length s.att) ++ 10 ∷ []) info).0
