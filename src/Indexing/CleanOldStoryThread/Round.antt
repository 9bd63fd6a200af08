-- ===== src/Indexing/CleanOldStoryThread/Round.antt =====
-- One round of src/indexing/clean_old_story_thread.cc over a posting list, with the index builder at
-- work between the two passes.
use mathlib.Core.List.{reverse, reverse-cons}
use recomm_engine.Prelude.{
  ◌+◌, ◌<◌, ◌≡◌, subst, refl, sym, ap, ◌∙◌, some, List, [], ◌∷◌, ◌++◌, length, append_assoc, arith,
}
use recomm_engine.Prelude.Int.{ℤ}
use recomm_engine.Util.LocklessList.{Ptr, null, u32_mod}
use recomm_engine.Util.LocklessList.Chain.{Cells, IsList, values, values-append}
use recomm_engine.Util.LocklessList.Erase.{last_address}
use recomm_engine.Indexing.Base.{Posting}
use recomm_engine.Indexing.PostingList.{PostingList}
use recomm_engine.Indexing.PostingList.Writer.{push_posting_lem}
use recomm_engine.Indexing.CleanOldStoryThread.{push_all, round}
use recomm_engine.Indexing.CleanOldStoryThread.Passes.{
  recent, stale, recent-append-stale, mark_list_lem, insert_docs, clear_list_lem,
}

record Pushed (vs : List Posting) (plist : PostingList) (xs : Cells Posting) : Type 0 where
  list : PostingList
  new : Cells Posting
  run : push_all vs plist ≡ some list
  is_list : IsList list.inner_list (new ++ xs)
  newest_first : values new ≡ reverse vs
  same_mark : list.end_mark ≡ plist.end_mark
  same_front : list.inner_list.front ≡ plist.inner_list.front

push_all_lem :
    (vs : List Posting) (plist : PostingList) (xs : Cells Posting)
    → IsList plist.inner_list xs
    → length vs + length xs + 2 < u32_mod
    → Pushed vs plist xs
unfolding push_all
push_all_lem [] plist xs is room = record {
  list = plist;
  new = [];
  run = refl;
  is_list = is;
  newest_first = refl;
  same_mark = refl;
  same_front = refl;
}
push_all_lem (v ∷ vs) plist xs is room =
    let (plist1, p, run, is1, mark, front) = push_posting_lem v plist xs is (omega arith) in
    let r = push_all_lem vs plist1 ((p, v) ∷ xs) is1 (omega arith) in
    record {
      list = r.list;
      new = r.new ++ (p, v) ∷ [];
      run = rw run r.run;
      is_list = rw (append_assoc r.new ((p, v) ∷ []) xs) r.is_list;
      newest_first =
          values-append r.new ((p, v) ∷ [])
          ∙ ap (λ (l : List Posting). l ++ v ∷ []) r.newest_first
          ∙ sym (reverse-cons v vs);
      same_mark = r.same_mark ∙ mark;
      same_front = r.same_front ∙ front;
    }

last_address-append :
    (p : Ptr) (xs : Cells Posting) (c : Ptr × Posting) (ys : Cells Posting)
    → last_address p (xs ++ c ∷ ys) ≡ last_address p (c ∷ ys)
last_address-append p [] c ys = refl
last_address-append p ((a, v) ∷ xs) c ys = last_address-append a xs c ys

-- A round that keeps the cells `keeps new`, where `new` are those pushed between the passes, and
-- collects the documents of `goes new`.
pub record Rounded (t : ℤ) (vs : List Posting) (plist : PostingList)
    (keeps goes : Cells Posting → Cells Posting) : Type 0 where
  pub list : PostingList
  pub new : Cells Posting
  pub run : round t vs plist ≡ some (list, insert_docs (goes new) [])
  pub newest_first : values new ≡ reverse vs
  pub is_list : IsList list.inner_list (keeps new)
  pub unmarked : list.end_mark ≡ null

module _ (t : ℤ) (vs : List Posting) (plist : PostingList) (xs : Cells Posting) where
  abbrev marked : PostingList
  marked = record plist { end_mark = last_address plist.inner_list.front (recent t xs) }

  Rounded-of :
      (keeps goes : Cells Posting → Cells Posting)
      → IsList plist.inner_list xs
      → (r : Pushed vs marked xs) → r.new ++ xs ≡ keeps r.new ++ goes r.new
      → r.list.end_mark ≡ last_address r.list.inner_list.front (keeps r.new)
      → Rounded t vs plist keeps goes
  unfolding round
  Rounded-of keeps goes is r split mark =
      let (list, run, is', un, front) =
        clear_list_lem r.list (keeps r.new) (goes r.new) []
          (subst (IsList r.list.inner_list) split r.is_list) mark in
      record {
        list = list;
        new = r.new;
        run = rw (mark_list_lem t plist xs is) (rw (r.run) run);
        newest_first = r.newest_first;
        is_list = is';
        unmarked = un;
      }

  module _ (is : IsList plist.inner_list xs) (room : length vs + length xs + 2 < u32_mod) where
    -- If the newest posting is not too old, a round keeps what was added between its passes and the
    -- recent postings, and the documents of exactly the others go.
    pub round_keeps :
        (c : Ptr × Posting) (cs : Cells Posting)
        → recent t xs ≡ c ∷ cs
        → Rounded t vs plist (λ new. new ++ recent t xs) (λ new. stale t xs)
    round_keeps c cs e =
        let r = push_all_lem vs marked xs is room in
        let split : r.new ++ xs ≡ (r.new ++ recent t xs) ++ stale t xs = sym (
          append_assoc r.new (recent t xs) (stale t xs)
          ∙ ap (◌++◌ r.new) (recent-append-stale t xs)) in
        Rounded-of (λ new. new ++ recent t xs) (λ new. stale t xs) is r split
          (r.same_mark
            ∙ ap (last_address plist.inner_list.front) e
            ∙ sym (
                ap (λ l. last_address r.list.inner_list.front (r.new ++ l)) e
                ∙ last_address-append r.list.inner_list.front r.new c cs))

    -- If every posting is too old, the end mark is the fake front, and the round drops all that was
    -- added between its passes too: the list ends empty, and the new documents go with the old.
    pub round_loses : recent t xs ≡ [] → Rounded t vs plist (λ new. []) (λ new. new ++ xs)
    round_loses e =
        let r = push_all_lem vs marked xs is room in
        Rounded-of (λ new. []) (λ new. new ++ xs) is r refl
          (r.same_mark ∙ ap (last_address plist.inner_list.front) e ∙ sym r.same_front)
