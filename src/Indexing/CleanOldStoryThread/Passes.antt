-- ===== src/Indexing/CleanOldStoryThread/Passes.antt =====
-- The two passes of src/indexing/clean_old_story_thread.cc over one posting list.
use recomm_engine.Prelude.{
  ℕ, zero, suc, ◌+◌, ◌<◌, ◌≡◌, ◌≢◌, refl, sym, ap, ◌∙◌, true, false, some, List, [], ◌∷◌, ◌++◌,
  ◌==◌, length, length-append, arith, if◌then◌else◌, Bool-cases, inl, inr,
}
use recomm_engine.Prelude.Int.{ℤ, leb_ℤ}
use recomm_engine.Util.LocklessList.{Ptr, null, Store, LocklessList, node}
use recomm_engine.Util.LocklessList.Chain.{Cells, Chain, IsList, load-ok}
use recomm_engine.Util.LocklessList.Erase.{last_address, last_address-live, list-Cut}
use recomm_engine.Indexing.Base.{Posting}
use recomm_engine.Indexing.PostingList.{PostingList, set_end_mark}
use recomm_engine.Indexing.PostingList.Writer.{erase_after_kept}
use recomm_engine.Indexing.CleanOldStoryThread.{
  find_end_mark, mark_list, insert_doc, collect_docs, clear_list,
}

-- The postings up to the first one older than `target`, and the rest.
unfoldable pub recent : ℤ → Cells Posting → Cells Posting
recent target [] = []
recent target ((a, v) ∷ xs) = if leb_ℤ target v.timestamp then (a, v) ∷ recent target xs else []

unfoldable pub stale : ℤ → Cells Posting → Cells Posting
stale target [] = []
stale target ((a, v) ∷ xs) = if leb_ℤ target v.timestamp then stale target xs else (a, v) ∷ xs

pub recent-append-stale : (t : ℤ) (xs : Cells Posting) → recent t xs ++ stale t xs ≡ xs
unfolding recent stale
recent-append-stale t [] = refl
recent-append-stale t ((a, v) ∷ xs) = ground (arith, recent-append-stale t xs)

find_end_mark_lem :
    (fuel : ℕ) (s : Store Posting) (t : ℤ) (cur : Ptr) (w : Posting) (q : Ptr) (xs : Cells Posting)
    → cur ≢ null
    → s cur ≡ some (node w q)
    → Chain s q xs
    → length xs < fuel
    → find_end_mark fuel s t cur ≡ some (last_address cur (recent t xs))
unfolding find_end_mark recent
find_end_mark_lem zero s t cur w q xs ne holds rest f = absurd (omega arith)
find_end_mark_lem (suc fuel) s t cur w q [] ne holds (e, _) f =
    let last : (q == null) ≡ true = ground arith in rw (load-ok s cur ne holds) (rw last)
find_end_mark_lem (suc fuel) s t cur w q ((a, v) ∷ xs) ne holds (r, e, na, ha, rest) f =
    let more : (q == null) ≡ false = ground arith in
    let nq : q ≢ null = λ z. na (sym e ∙ z) in
    let hq : s q ≡ some (node v r) = ap s e ∙ ha in
    rw (load-ok s cur ne holds) (
      rw more (
        rw (load-ok s q nq hq) (elim (Bool-cases (leb_ℤ t v.timestamp)) [
          | inl new ↦ rw new (
              ap (find_end_mark fuel s t) e
              ∙ find_end_mark_lem fuel s t a v r xs na ha rest (omega arith))
          | inr old ↦ rw old refl
        ])))

-- Marking sets the end mark behind the recent postings, so that readers see those alone.
pub mark_list_lem :
    (t : ℤ) (plist : PostingList) (xs : Cells Posting)
    → IsList plist.inner_list xs
    → mark_list t plist
      ≡ some (record plist { end_mark = last_address plist.inner_list.front (recent t xs) })
unfolding mark_list
mark_list_lem t plist xs is =
    let l = plist.inner_list in
    let (q, e, ne, holds, rest) = is.chain in
    let live : (l.front == null) ≡ false = ground arith in
    rw live (
      rw (
        find_end_mark_lem (l.node_num + 2) l.store t l.front is.fake q xs ne holds rest
          (omega (arith, is.counted))))

abbrev pub insert_docs : Cells Posting → List ℕ → List ℕ
insert_docs [] docs = docs
insert_docs ((a, v) ∷ xs) docs = insert_docs xs (insert_doc v.local_docid docs)

collect_docs_lem :
    (fuel : ℕ) (s : Store Posting) (p : Ptr) (xs : Cells Posting) (docs : List ℕ)
    → Chain s p xs
    → length xs < fuel
    → collect_docs fuel s p docs ≡ some (insert_docs xs docs)
unfolding collect_docs
collect_docs_lem zero s p xs docs ch f = absurd (omega arith)
collect_docs_lem (suc fuel) s p [] docs (e, _) f =
    let last : (p == null) ≡ true = ground arith in rw last
collect_docs_lem (suc fuel) s p ((a, v) ∷ xs) docs (q, e, ne, holds, rest) f =
    let more : (p == null) ≡ false = ground arith in
    let np : p ≢ null = λ z. ne (sym e ∙ z) in
    let hp : s p ≡ some (node v q) = ap s e ∙ holds in
    rw more (rw (load-ok s p np hp) (collect_docs_lem fuel s q xs _ rest (omega arith)))

clear_marked :
    (l : LocklessList Posting) (kept gone : Cells Posting) (docs : List ℕ)
    → IsList l (kept ++ gone)
    → (plist' : PostingList) × (clear_list
          (record { inner_list = l; end_mark = last_address l.front kept })
          docs
        ≡ some (plist', insert_docs gone docs))
      × IsList plist'.inner_list kept
      × (plist'.end_mark ≡ null)
      × (plist'.inner_list.front ≡ l.front)
unfolding clear_list
clear_marked l kept gone docs is =
    let plist : PostingList = record { inner_list = l; end_mark = last_address l.front kept } in
    let c = list-Cut l kept gone is in
    let (plist', run, is', same, front) = erase_after_kept plist kept gone is in
    let room = length-append kept gone in
    (
      set_end_mark null plist',
      rw (last_address-live l kept gone is) (
          rw (load-ok l.store _ c.ne_null c.holds) (
            rw
              (collect_docs_lem (l.node_num + 2) l.store c.next gone docs c.rest
                (omega (arith, is.counted)))
              (rw run))),
      is',
      refl,
      front,
    )

-- Clearing cuts a list behind its end mark, wherever that stands by then, collects the documents of
-- the postings that go, and takes the mark away.
pub clear_list_lem :
    (plist : PostingList) (kept gone : Cells Posting) (docs : List ℕ)
    → IsList plist.inner_list (kept ++ gone)
    → plist.end_mark ≡ last_address plist.inner_list.front kept
    → (plist' : PostingList) × (clear_list plist docs ≡ some (plist', insert_docs gone docs))
      × IsList plist'.inner_list kept
      × (plist'.end_mark ≡ null)
      × (plist'.inner_list.front ≡ plist.inner_list.front)
clear_list_lem plist kept gone docs is mark =
    let (plist', run, is', same, front) = clear_marked plist.inner_list kept gone docs is in
    (
      plist',
      (λ i. clear_list (record { inner_list = plist.inner_list; end_mark = mark i }) docs) ∙ run,
      is',
      same,
      front,
    )

-- A list that was made after the marking has no end mark, and clearing leaves it alone.
pub clear_list-unmarked :
    (plist : PostingList) (docs : List ℕ)
    → plist.end_mark ≡ null
    → clear_list plist docs ≡ some (plist, docs)
unfolding clear_list
clear_list-unmarked plist docs e = rw e refl
