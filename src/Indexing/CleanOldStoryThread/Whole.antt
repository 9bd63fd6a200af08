-- ===== src/Indexing/CleanOldStoryThread/Whole.antt =====
-- A whole round of src/indexing/clean_old_story_thread.cc over the index and the attachments.
use recomm_engine.Prelude.{
  ℕ, ◌+◌, length, ◌≡◌, refl, sym, ap, subst, ◌∙◌, Bool, true, false, Bool-cases, inl, inr, ◌||◌,
  ◌==◌, none, some, List, [], ◌∷◌, elem, if◌then◌else◌,
}
use recomm_engine.Prelude.Maps.{Map, find, erase, find-erase}
use recomm_engine.Prelude.Int.{ℤ, leb_ℤ, sub_ℕ, ◌+ℤ◌, to_int32}
use recomm_engine.Util.LocklessList.Chain.{Cells, IsList, values}
use recomm_engine.Util.LocklessList.Erase.{last_address}
use recomm_engine.Indexing.Base.{Posting}
use recomm_engine.Indexing.PostingList.{PostingList}
use recomm_engine.Indexing.State.{InstantIndex}
use recomm_engine.Indexing.State.Represents.{Represents}
use recomm_engine.Indexing.CleanOldStoryThread.{
  target_time, insert_doc, mark_all, clear_all, delete_attachments, mark_round, clear_round,
  clean_round,
}
use recomm_engine.Indexing.CleanOldStoryThread.Passes.{
  recent, stale, recent-append-stale, mark_list_lem, insert_docs, clear_list_lem,
}

module _ (t : ℤ) where
  -- The postings in front of the first that is too old, and the others.
  unfoldable pub young_of : List Posting → List Posting
  young_of [] = []
  young_of (v ∷ vs) = if leb_ℤ t v.timestamp then v ∷ young_of vs else []

  unfoldable pub old_of : List Posting → List Posting
  old_of [] = []
  old_of (v ∷ vs) = if leb_ℤ t v.timestamp then old_of vs else v ∷ vs

  abbrev pub insert_all : List Posting → List ℕ → List ℕ
  insert_all [] docs = docs
  insert_all (v ∷ vs) docs = insert_all vs (insert_doc v.local_docid docs)

  -- The abstract index after a round, and the documents that went.
  abbrev pub kept : Map (List Posting) → Map (List Posting)
  kept [] = []
  kept ((k, vs) ∷ M) = (k, young_of vs) ∷ kept M

  abbrev pub gone : Map (List Posting) → List ℕ → List ℕ
  gone [] docs = docs
  gone ((k, vs) ∷ M) docs = gone M (insert_all (old_of vs) docs)

  values-recent : (xs : Cells Posting) → values (recent t xs) ≡ young_of (values xs)
  unfolding recent young_of
  values-recent [] = refl
  values-recent ((a, v) ∷ xs) = elim (Bool-cases (leb_ℤ t v.timestamp)) [
    | inl young ↦ rw young (ap (◌∷◌ v) (values-recent xs))
    | inr old ↦ rw old refl
  ]

  values-stale : (xs : Cells Posting) → values (stale t xs) ≡ old_of (values xs)
  unfolding stale old_of
  values-stale [] = refl
  values-stale ((a, v) ∷ xs) = elim (Bool-cases (leb_ℤ t v.timestamp)) [
    | inl young ↦ rw young (values-stale xs)
    | inr old ↦ rw old refl
  ]

  insert_docs-values :
      (xs : Cells Posting) (docs : List ℕ) → insert_docs xs docs ≡ insert_all (values xs) docs
  insert_docs-values [] docs = refl
  insert_docs-values ((a, v) ∷ xs) docs = insert_docs-values xs (insert_doc v.local_docid docs)

  -- A list whose end mark stands behind its young postings.
  record Marked (plist : PostingList) (vs : List Posting) : Type 0 where
    cells : Cells Posting
    is_list : IsList plist.inner_list cells
    same : values cells ≡ vs
    mark : plist.end_mark ≡ last_address plist.inner_list.front (recent t cells)

  abbrev AllMarked : Map PostingList → Map (List Posting) → Type 0
  AllMarked [] [] = Unit
  AllMarked [] (n ∷ M) = ⊥
  AllMarked (m ∷ ms) [] = ⊥
  AllMarked ((k, plist) ∷ m) ((j, vs) ∷ M) = (k ≡ j) × Marked plist vs × AllMarked m M

  mark_all-AllMarked :
      (m : Map PostingList) (M : Map (List Posting))
      → Represents m M
      → (m' : Map PostingList) × (mark_all t m ≡ some m') × AllMarked m' M
  unfolding mark_all
  mark_all-AllMarked [] [] r = ([], refl, tt)
  mark_all-AllMarked [] (n ∷ M) r = absurd r
  mark_all-AllMarked (n ∷ m) [] r = absurd r
  mark_all-AllMarked ((k, plist) ∷ m) ((j, vs) ∷ M) (e, h, r) =
      let (m', run, marked) = mark_all-AllMarked m M r in
      let plist' : PostingList = record plist {
        end_mark = last_address plist.inner_list.front (recent t h.cells);
      } in
      (
        (k, plist') ∷ m',
        rw (mark_list_lem t plist h.cells h.is_list) (rw run refl),
        (e, record { cells = h.cells; is_list = h.is_list; same = h.same; mark = refl }, marked),
      )

  clear_all-Represents :
      (m : Map PostingList) (M : Map (List Posting)) (docs : List ℕ)
      → AllMarked m M
      → (m' : Map PostingList) × (clear_all m docs ≡ some (m', gone M docs))
        × Represents m' (kept M)
  unfolding clear_all
  clear_all-Represents [] [] docs r = ([], refl, tt)
  clear_all-Represents [] (n ∷ M) docs r = absurd r
  clear_all-Represents (n ∷ m) [] docs r = absurd r
  clear_all-Represents ((k, plist) ∷ m) ((j, vs) ∷ M) docs (e, h, r) =
      let split = subst (IsList plist.inner_list) (sym (recent-append-stale t h.cells)) h.is_list in
      let (plist', run, is', unmarked, front) =
        clear_list_lem plist (recent t h.cells) (stale t h.cells) docs split h.mark in
      let docs1 : insert_docs (stale t h.cells) docs ≡ insert_all (old_of vs) docs =
        insert_docs-values (stale t h.cells) docs
        ∙ ap (λ l. insert_all l docs) (values-stale h.cells ∙ ap old_of h.same) in
      let (m', rest, rep) = clear_all-Represents m M (insert_all (old_of vs) docs) r in
      (
        (k, plist') ∷ m',
        rw run (rw docs1 (rw rest refl)),
        (
          e,
          record {
            cells = recent t h.cells;
            is_list = is';
            same = values-recent h.cells ∙ ap young_of h.same;
          },
          rep,
        ),
      )

find-delete_attachments :
    (i : ℕ) (docs : List ℕ) (att : Map ℕ)
    → find i (delete_attachments docs att) ≡ (if elem i docs then none else find i att)
unfolding delete_attachments
find-delete_attachments i [] att = refl
find-delete_attachments i (d ∷ docs) att =
    find-delete_attachments i docs (erase d att)
    ∙ rw (find-erase i d att) (two_tests (d == i) (elem i docs))
  where
    two_tests :
        (b c : Bool)
        → (if c then none else (if b then none else find i att))
          ≡ (if b || c then none else find i att)
    two_tests true true = refl
    two_tests true false = refl
    two_tests false true = refl
    two_tests false false = refl

-- A round in which no story is added keeps, of every list of a sound index, the postings in front of
-- the first that is older than the life time, and deletes the translations of the documents of the
-- others, and of no other document; it does not crash.
pub clean_round_lem :
    (now doc_life_time : ℕ) (s : InstantIndex) (M : Map (List Posting))
    → Represents s.index M
    → let t = target_time now doc_life_time in
      (s' : InstantIndex) × (clean_round now doc_life_time s ≡ some s')
      × Represents s'.index (kept t M)
      × ((i : ℕ) → find i s'.att ≡ (if elem i (gone t M []) then none else find i s.att))
unfolding clean_round mark_round clear_round
clean_round_lem now doc_life_time s M r =
    let t = target_time now doc_life_time in
    let (m1, marks, marked) = mark_all-AllMarked t s.index M r in
    let (m2, clears, rep) = clear_all-Represents t m1 M [] marked in
    let docs = gone t M [] in
    (
      record s {
        index = m2;
        att = delete_attachments docs s.att;
        num_indexed_stories_total = to_int32 (s.num_indexed_stories_total +ℤ sub_ℕ 0 (length docs));
        delete_doc_cnt = s.delete_doc_cnt + length docs;
      },
      rw marks (rw clears refl),
      rep,
      λ i. find-delete_attachments i docs s.att,
    )
