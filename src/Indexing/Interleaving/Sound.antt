-- ===== src/Indexing/Interleaving/Sound.antt =====
-- A posting list of src/indexing at any time: its end mark is null, or stands at its fake front or at
-- one of its nodes.
use recomm_engine.Prelude.{
  ℕ, ◌+◌, ◌≤◌, ◌<◌, ◌≡◌, ◌⊎◌, inl, inr, refl, sym, ap, subst, ◌∙◌, Bool-cases, some, List, [], ◌∷◌,
  ◌++◌, length, length-append, arith, ltb, ◌==◌,
}
use recomm_engine.Prelude.Int.{ℤ}
use recomm_engine.Prelude.Maps.{Map, find, assign}
use recomm_engine.Util.LocklessList.{Ptr, null, u32_mod}
use recomm_engine.Util.LocklessList.Chain.{Cells, IsList}
use recomm_engine.Util.LocklessList.Erase.{last_address}
use recomm_engine.Util.LocklessList.Lifetime.{new_lem}
use recomm_engine.Indexing.Base.{Posting, zero_posting}
use recomm_engine.Indexing.PostingList.{PostingList, push_posting}
use recomm_engine.Indexing.PostingList
use recomm_engine.Indexing.PostingList.Writer.{push_posting_lem}
use recomm_engine.Indexing.CleanOldStoryThread.{mark_list, clear_list}
use recomm_engine.Indexing.CleanOldStoryThread.Passes.{
  recent, stale, recent-append-stale, mark_list_lem, clear_list_lem, clear_list-unmarked,
}

-- The mark is at the end of a part of the list, which may be empty.
pub record MarkedAt (plist : PostingList) (xs : Cells Posting) : Type 0 where
  pub kept : Cells Posting
  pub gone : Cells Posting
  pub split : kept ++ gone ≡ xs
  pub at : plist.end_mark ≡ last_address plist.inner_list.front kept

pub record IsSound (n : ℕ) (plist : PostingList) : Type 0 where
  pub cells : Cells Posting
  pub is_list : IsList plist.inner_list cells
  pub small : length cells ≤ n
  pub mark : (plist.end_mark ≡ null) ⊎ MarkedAt plist cells

pub IsSound-mono : (n k : ℕ) (plist : PostingList) → n ≤ k → IsSound n plist → IsSound k plist
IsSound-mono n k plist h s = record {
  cells = s.cells;
  is_list = s.is_list;
  small = omega (arith, s.small);
  mark = s.mark;
}

pub new-IsSound : (plist : PostingList) × (PostingList.new ≡ some plist) × IsSound 0 plist
unfolding PostingList.new
new-IsSound =
    let (l, run, is) = new_lem zero_posting in
    (
      record { inner_list = l; end_mark = 0 },
      rw run,
      record { cells = []; is_list = is; small = omega arith; mark = inl refl },
    )

-- A new node in front leaves the mark where it is. At the fake front it now hides the new node too.
MarkedAt-push :
    (plist plist' : PostingList) (c : Ptr × Posting) (xs kept gone : Cells Posting)
    → kept ++ gone ≡ xs
    → plist.end_mark ≡ last_address plist.inner_list.front kept
    → plist'.end_mark ≡ plist.end_mark
    → plist'.inner_list.front ≡ plist.inner_list.front
    → MarkedAt plist' (c ∷ xs)
MarkedAt-push plist plist' c xs [] gone split at mark front = record {
  kept = [];
  gone = c ∷ xs;
  split = refl;
  at = mark ∙ at ∙ sym front;
}
MarkedAt-push plist plist' c xs (k ∷ kept) gone split at mark front = record {
  kept = c ∷ k ∷ kept;
  gone = gone;
  split = ap (◌∷◌ c) split;
  at = mark ∙ at;
}

pub push-IsSound :
    (v : Posting) (n : ℕ) (plist : PostingList)
    → IsSound n plist
    → n + 2 < u32_mod
    → (plist' : PostingList) × (push_posting v plist ≡ some plist') × IsSound (n + 1) plist'
push-IsSound v n plist s room =
    let (plist', p, run, is, mark, front) =
      push_posting_lem v plist s.cells s.is_list (omega (arith, s.small)) in
    (
      plist',
      run,
      record {
        cells = (p, v) ∷ s.cells;
        is_list = is;
        small = omega (arith, s.small);
        mark = elim (s.mark) [
          | inl none_yet ↦ inl (mark ∙ none_yet)
          | inr m ↦
              inr (MarkedAt-push plist plist' (p, v) s.cells m.kept m.gone m.split m.at mark front)
        ];
      },
    )

pub mark_list-IsSound :
    (t : ℤ) (n : ℕ) (plist : PostingList)
    → IsSound n plist
    → (plist' : PostingList) × (mark_list t plist ≡ some plist') × IsSound n plist'
mark_list-IsSound t n plist s = (
  record plist { end_mark = last_address plist.inner_list.front (recent t s.cells) },
  mark_list_lem t plist s.cells s.is_list,
  record {
    cells = s.cells;
    is_list = s.is_list;
    small = s.small;
    mark = inr (record {
      kept = recent t s.cells;
      gone = stale t s.cells;
      split = recent-append-stale t s.cells;
      at = refl;
    });
  },
)

pub clear_list-IsSound :
    (docs : List ℕ) (n : ℕ) (plist : PostingList)
    → IsSound n plist
    → (plist' : PostingList) × (docs' : List ℕ) × (clear_list plist docs ≡ some (plist', docs'))
      × IsSound n plist'
clear_list-IsSound docs n plist s = elim (s.mark) [
  | inl none_yet ↦ (plist, docs, clear_list-unmarked plist docs none_yet, s)
  | inr m ↦
      let (plist', run, is, unmarked, front) =
        clear_list_lem plist m.kept m.gone docs
          (subst (IsList plist.inner_list) (sym m.split) s.is_list) m.at in
      (
        plist',
        _,
        run,
        record {
          cells = m.kept;
          is_list = is;
          small = omega (arith, s.small, ap length m.split, length-append m.kept m.gone);
          mark = inl unmarked;
        },
      )
]

-- Every list of the index.
abbrev pub AllSound : ℕ → Map PostingList → Type 0
AllSound n [] = Unit
AllSound n ((k, plist) ∷ m) = IsSound n plist × AllSound n m

pub AllSound-mono : (n k : ℕ) (m : Map PostingList) → n ≤ k → AllSound n m → AllSound k m
AllSound-mono n k [] h s = tt
AllSound-mono n k ((j, p) ∷ m) h s = (IsSound-mono n k p h s.0, AllSound-mono n k m h s.1)

pub find-AllSound :
    (n i : ℕ) (m : Map PostingList) {plist : PostingList}
    → AllSound n m
    → find i m ≡ some plist
    → IsSound n plist
unfolding find
find-AllSound n i [] s e = cc
find-AllSound n i ((j, p) ∷ m) s e = elim (Bool-cases (j == i)) [
  | inl hit ↦ subst (IsSound n) (ground (arith, hit, e)) s.0
  | inr miss ↦ find-AllSound n i m s.1 (ground (arith, miss, e))
]

pub assign-AllSound :
    (n i : ℕ) (plist : PostingList) (m : Map PostingList)
    → IsSound n plist
    → AllSound n m
    → AllSound n (assign i plist m)
unfolding assign
assign-AllSound n i plist [] h s = (h, tt)
assign-AllSound n i plist ((j, p) ∷ m) h s = elim (Bool-cases (ltb i j)) [
  | inl low ↦ rw low (h, s)
  | inr high ↦ rw high (elim (Bool-cases (j == i)) [
    | inl hit ↦ rw hit (h, s.1)
    | inr miss ↦ rw miss (s.0, assign-AllSound n i plist m h s.1)
  ])
]
