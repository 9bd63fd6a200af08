-- ===== src/Indexing/CleanOldStoryThread.antt =====
-- src/indexing/clean_old_story_thread.cc: marking, clearing and the deletion of attachments. Between
-- the two passes the thread sleeps, and the index builder may add postings.
pub mod Passes
pub mod Round
pub mod Young
pub mod Whole
use recomm_engine.Prelude.{
  ℕ, zero, suc, ◌+◌, Bool, true, false, not, Option, none, some, List, [], ◌∷◌, ◌==◌, elem, length,
  if◌then◌else◌, ◌>>=◌, ◌>>◌, check,
}
use recomm_engine.Prelude.Maps.{Map, erase}
use recomm_engine.Prelude.Int.{ℤ, pos, sub_ℕ, leb_ℤ, ◌+ℤ◌, to_int32}
use recomm_engine.Util.LocklessList.{Ptr, null, Store, load}
use recomm_engine.Indexing.Base.{Posting}
use recomm_engine.Indexing.State.{InstantIndex}
use recomm_engine.Indexing.PostingList.{
  PostingList, get_fake_front, get_end_mark, set_end_mark, erase_after, push_posting,
}

-- Documents pushed before this second are to go. Both are seconds, an `int64_t` and a flag.
abbrev pub target_time : ℕ → ℕ → ℤ
target_time now doc_life_time = sub_ℕ now doc_life_time

-- The end mark: the node before the first that is too old.
unfoldable pub find_end_mark : ℕ → Store Posting → ℤ → Ptr → Option Ptr
find_end_mark zero s target cur = none
find_end_mark (suc fuel) s target cur = do
  n ← load s cur
  if n.next == null then some cur else (do
    m ← load s n.next
    if leb_ℤ target m.value.timestamp then find_end_mark fuel s target n.next else some cur)

unfoldable pub mark_list : ℤ → PostingList → Option PostingList
mark_list target plist = do
  check (not (get_fake_front plist == null))
  cur ←
      find_end_mark (plist.inner_list.node_num + 2) plist.inner_list.store target
        (get_fake_front plist)
  some (set_end_mark cur plist)

unfoldable pub mark_all : ℤ → Map PostingList → Option (Map PostingList)
mark_all target [] = some []
mark_all target ((token, plist) ∷ m) = do
  plist ← mark_list target plist
  m ← mark_all target m
  some ((token, plist) ∷ m)

-- `unordered_set::insert`.
unfoldable pub insert_doc : ℕ → List ℕ → List ℕ
insert_doc d docs = if elem d docs then docs else d ∷ docs

unfoldable pub collect_docs : ℕ → Store Posting → Ptr → List ℕ → Option (List ℕ)
collect_docs zero s cur docs = none
collect_docs (suc fuel) s cur docs =
    if cur == null
    then some docs
    else do n ← load s cur; collect_docs fuel s n.next (insert_doc n.value.local_docid docs)

unfoldable pub clear_list : PostingList → List ℕ → Option (PostingList × List ℕ)
clear_list plist docs =
    let mark = get_end_mark plist in
    if mark == null then some (set_end_mark null plist, docs) else do
      n ← load plist.inner_list.store mark
      docs ← collect_docs (plist.inner_list.node_num + 2) plist.inner_list.store n.next docs
      plist ← erase_after mark plist
      some (set_end_mark null plist, docs)

unfoldable pub clear_all : Map PostingList → List ℕ → Option (Map PostingList × List ℕ)
clear_all [] docs = some ([], docs)
clear_all ((token, plist) ∷ m) docs = do
  (plist, docs) ← clear_list plist docs
  (m, docs) ← clear_all m docs
  some ((token, plist) ∷ m, docs)

unfoldable pub delete_attachments : List ℕ → Map ℕ → Map ℕ
delete_attachments [] att = att
delete_attachments (d ∷ docs) att = delete_attachments docs (erase d att)

-- The two critical sections of a round of Run on the whole state, with the second's deletions.
unfoldable pub mark_round : ℕ → ℕ → InstantIndex → Option InstantIndex
mark_round now doc_life_time s = do
  index ← mark_all (target_time now doc_life_time) s.index
  some (record s { index = index })

unfoldable pub clear_round : InstantIndex → Option InstantIndex
clear_round s = do
  (index, docs) ← clear_all s.index []
  some (record s {
    index = index;
    att = delete_attachments docs s.att;
    num_indexed_stories_total = to_int32 (s.num_indexed_stories_total +ℤ sub_ℕ 0 (length docs));
    delete_doc_cnt = s.delete_doc_cnt + length docs;
  })

-- A round in which the builder adds nothing between the two.
unfoldable pub clean_round : ℕ → ℕ → InstantIndex → Option InstantIndex
clean_round now doc_life_time s = mark_round now doc_life_time s >>= clear_round

-- What the index builder adds to one list while the thread sleeps between its passes.
unfoldable pub push_all : List Posting → PostingList → Option PostingList
push_all [] plist = some plist
push_all (v ∷ vs) plist = push_posting v plist >>= push_all vs

-- Both passes over one list, with the builder's postings between them.
unfoldable pub round : ℤ → List Posting → PostingList → Option (PostingList × List ℕ)
round target vs plist = do
  plist ← mark_list target plist
  plist ← push_all vs plist
  clear_list plist []
