-- ===== src/Indexing/PostingList.antt =====
-- The class PostingList of src/indexing/posting.h and posting.cc, and its iterator of iterator.h and
-- iterator.cc. `none` is a crash, as in the list below, or the exception of `GetValue`.
pub mod Visible
pub mod Writer
use recomm_engine.Prelude.{
  ℕ, zero, suc, ◌+◌, Bool, true, false, not, Option, none, some, ◌==◌, if◌then◌else◌, ◌>>=◌, ◌>>◌,
  check,
}
use recomm_engine.Util.LocklessList.{Ptr, null, Store, LocklessList, load, set_next, set_value}
use recomm_engine.Util.LocklessList
use recomm_engine.Indexing.Base.{Posting, zero_posting}

pub record PostingList : Type 0 where
  pub inner_list : LocklessList Posting
  pub end_mark : Ptr

unfoldable pub new : Option PostingList
new = do l ← LocklessList.new zero_posting; some (record { inner_list = l; end_mark = null })

abbrev pub get_fake_front : PostingList → Ptr
get_fake_front plist = plist.inner_list.front

abbrev pub get_end_mark : PostingList → Ptr
get_end_mark plist = plist.end_mark

abbrev pub set_end_mark : Ptr → PostingList → PostingList
set_end_mark mark plist = record plist { end_mark = mark }

unfoldable pub add_posting : Ptr → PostingList → Option PostingList
add_posting p plist = do
  l ← LocklessList.push_front p plist.inner_list
  some (record plist { inner_list = l })

unfoldable pub allocate_posting : PostingList → Option (PostingList × Ptr)
allocate_posting plist = do
  (l, p) ← LocklessList.allocate zero_posting plist.inner_list
  s ← set_next l.store p null
  some (record plist { inner_list = record l { store = s } }, p)

unfoldable pub erase_after : Ptr → PostingList → Option PostingList
erase_after p plist =
    if p == null
    then some plist
    else do l ← LocklessList.erase_after p plist.inner_list; some (record plist { inner_list = l })

-- What the index builder does with a list: a node is allocated, filled in through `p->data`, added.
unfoldable pub push_posting : Posting → PostingList → Option PostingList
push_posting v plist = do
  (plist, p) ← allocate_posting plist
  s ← set_value plist.inner_list.store p v
  add_posting p (record plist { inner_list = record (plist.inner_list) { store = s } })

-- The loop of Size.
unfoldable pub size_loop : ℕ → Store Posting → Ptr → Ptr → ℕ → Option ℕ
size_loop zero s mark cur size = none
size_loop (suc fuel) s mark cur size = if cur == null then some size else do
  n ← load s cur
  if n.next == null
      then some size
      else if cur == mark
      then some size
      else size_loop fuel s mark n.next (size + 1)

unfoldable pub size : PostingList → Option ℕ
size plist =
    if get_fake_front plist == get_end_mark plist
    then some 0
    else size_loop (plist.inner_list.node_num + 2) plist.inner_list.store plist.end_mark
        (get_fake_front plist) 0

pub record PostingIterator : Type 0 where
  pub cur : Ptr
  pub has_value : Bool

unfoldable pub new_iterator : PostingList → Option PostingIterator
new_iterator plist = do
  check (not (get_fake_front plist == null))
  some (record { cur = get_fake_front plist; has_value = false })

abbrev answer : PostingIterator → Bool → PostingIterator × Bool
answer it b = (record it { has_value = b }, b)

unfoldable pub has_value : PostingList → PostingIterator → Option (PostingIterator × Bool)
has_value plist it = if it.cur == null then some (answer it false) else do
  n ← load plist.inner_list.store it.cur
  some (
      answer it (
        if n.next == null
        then false
        else if get_end_mark plist == get_fake_front plist
        then false
        else if it.cur == get_end_mark plist
        then false
        else true))

unfoldable pub get_value : PostingList → PostingIterator → Option (PostingIterator × Posting)
get_value plist it = do
  check it.has_value
  n ← load plist.inner_list.store it.cur
  m ← load plist.inner_list.store n.next
  some (record it { has_value = false }, m.value)

unfoldable pub next : PostingList → PostingIterator → Option PostingIterator
next plist it = do n ← load plist.inner_list.store it.cur; some (record it { cur = n.next })

-- The loop that iterator.h prescribes: `while (it->HasValue()) { it->GetValue(); ...; it->Next(); }`.
unfoldable pub iterate {ℓ} :
    {S : Type ℓ} → (Posting → S → S) → ℕ → PostingList → PostingIterator → S → Option S
iterate body zero plist it s = none
iterate body (suc fuel) plist it s = do
  (it, more) ← has_value plist it
  if more
      then (do
        (it, p) ← get_value plist it
        it ← next plist it
        iterate body fuel plist it (body p s))
      else some s
