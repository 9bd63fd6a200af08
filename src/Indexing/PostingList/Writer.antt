-- ===== src/Indexing/PostingList/Writer.antt =====
-- The writer's operations on a posting list of src/indexing/posting.cc.
use recomm_engine.Prelude.{◌+◌, ◌<◌, ◌≡◌, refl, ◌∙◌, some, ◌∷◌, ◌++◌, length, arith, ◌==◌, false}
use recomm_engine.Util.LocklessList.{Ptr, null, LocklessList, node, write, u32_mod}
use recomm_engine.Util.LocklessList.Chain.{
  Cells, IsList, Chain-write, held-write, set_next-ok, set_value-ok, write-eq,
}
use recomm_engine.Util.LocklessList.Push.{IsLoose, allocate-Allocated, push_front_lem}
use recomm_engine.Util.LocklessList.Erase.{last_address, last_address-live, erase_after_lem}
use recomm_engine.Indexing.Base.{Posting, zero_posting}
use recomm_engine.Indexing.PostingList.{
  PostingList, add_posting, allocate_posting, erase_after, push_posting,
}

-- A write to the caller's own node is seen by nobody else.
write-IsList :
    {l : LocklessList Posting} {xs : Cells Posting} (p : Ptr) (n : _)
    → IsList l xs
    → IsLoose l xs p
    → IsList (record l { store = write l.store p n }) xs
write-IsList {l} {xs} p n is h = record {
  fake = is.fake;
  chain =
      Chain-write l.store l.front p n ((l.front, is.fake) ∷ xs) (ground (arith, h.apart)) is.chain;
  counted = is.counted;
  small = is.small;
  once = is.once;
  made = is.made;
  started = is.started;
  pooled = λ a i. held-write l.store p n a (is.pooled a i);
}

write-IsLoose :
    {l : LocklessList Posting} {xs : Cells Posting} (p : Ptr) (n : _)
    → IsLoose l xs p
    → IsLoose (record l { store = write l.store p n }) xs p
write-IsLoose {l} p n h = record {
  ne_null = h.ne_null;
  made = h.made;
  apart = h.apart;
  held = (n, write-eq l.store p n);
}

-- Allocate, fill in, add: the posting is in front, and nothing else has changed.
pub push_posting_lem :
    (v : Posting) (plist : PostingList) (xs : Cells Posting)
    → IsList plist.inner_list xs
    → length xs + 2 < u32_mod
    → (plist' : PostingList) × (p : Ptr) × (push_posting v plist ≡ some plist')
      × IsList plist'.inner_list ((p, v) ∷ xs)
      × (plist'.end_mark ≡ plist.end_mark)
      × (plist'.inner_list.front ≡ plist.inner_list.front)
unfolding push_posting allocate_posting add_posting write-IsLoose
push_posting_lem v plist xs is room =
    let l = plist.inner_list in
    let r = allocate-Allocated zero_posting l xs is in
    let l0 = r.list in
    let h0 = r.is_loose in
    let n1 = node h0.held.0.value null in
    let l1 : LocklessList Posting = record l0 { store = write l0.store r.node n1 } in
    let is1 : IsList l1 xs = write-IsList r.node n1 r.is_list h0 in
    let h1 : IsLoose l1 xs r.node = write-IsLoose r.node n1 h0 in
    let n2 = node v null in
    let l2 : LocklessList Posting = record l1 { store = write l1.store r.node n2 } in
    let is2 : IsList l2 xs = write-IsList r.node n2 is1 h1 in
    let h2 : IsLoose l2 xs r.node = write-IsLoose r.node n2 h1 in
    let (l', run, is', same, pool) = push_front_lem l2 xs r.node is2 h2 room in
    (
      record plist { inner_list = l' },
      r.node,
      rw (r.returns) (
          rw (set_next-ok l0.store r.node null h0.ne_null h0.held.1)
            (rw (set_value-ok l1.store r.node v h1.ne_null h1.held.1) (rw run))),
      is',
      refl,
      same ∙ r.same_front,
    )

-- EraseAfter of a node of the list, or of the fake front, keeps the postings up to that node.
pub erase_after_kept :
    (plist : PostingList) (kept gone : Cells Posting)
    → IsList plist.inner_list (kept ++ gone)
    → (plist' : PostingList) × (erase_after (last_address plist.inner_list.front kept) plist
        ≡ some plist')
      × IsList plist'.inner_list kept
      × (plist'.end_mark ≡ plist.end_mark)
      × (plist'.inner_list.front ≡ plist.inner_list.front)
unfolding erase_after
erase_after_kept plist kept gone is =
    let (l', run, is', same, pool) = erase_after_lem plist.inner_list kept gone is in
    let live : (last_address plist.inner_list.front kept == null) ≡ false =
      last_address-live plist.inner_list kept gone is in
    (record plist { inner_list = l' }, rw live (rw run), is', refl, same)
