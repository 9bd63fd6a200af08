-- ===== src/Indexing/CleanOldStoryThread/Young.antt =====
-- What a reader sees of a posting list after the marking pass of src/indexing/clean_old_story_thread.cc.
use recomm_engine.Prelude.{
  ◌≤◌, ◌≡◌, refl, sym, ap, subst, ◌∙◌, some, List, [], ◌∷◌, ◌++◌, arith, count, All, keep_if, true,
  false, ◌==◌, Bool-cases, inl, inr,
}
use recomm_engine.Prelude.Int.{ℤ, ◌≤ℤ◌, leb_ℤ}
use recomm_engine.Util.LocklessList.{Ptr}
use recomm_engine.Util.LocklessList.Chain.{Cells, addresses, IsList, values}
use recomm_engine.Util.LocklessList.Erase.{last_address, last_address-mem, count-addresses-append}
use recomm_engine.Indexing.Base.{Posting}
use recomm_engine.Indexing.PostingList.{PostingList}
use recomm_engine.Indexing.PostingList.Visible.{upto, visible}
use recomm_engine.Indexing.CleanOldStoryThread.{mark_list}
use recomm_engine.Indexing.CleanOldStoryThread.Passes.{
  recent, stale, recent-append-stale, mark_list_lem,
}

-- The timestamps fall along the list, as those of a clock that does not run backwards.
abbrev pub IsNewestFirst : List Posting → Type 0
IsNewestFirst [] = Unit
IsNewestFirst (v ∷ vs) = All (λ w. w.timestamp ≤ℤ v.timestamp) vs × IsNewestFirst vs

keep_if-old :
    (t : ℤ) (v : Posting) (vs : List Posting)
    → leb_ℤ t v.timestamp ≡ false
    → All (λ w. w.timestamp ≤ℤ v.timestamp) vs
    → keep_if (λ w. leb_ℤ t w.timestamp) vs ≡ []
keep_if-old t v [] old h = refl
keep_if-old t v (w ∷ vs) old h =
    let low = h.0 in
    let off : leb_ℤ t w.timestamp ≡ false = ground arith in rw off (keep_if-old t v vs old h.1)

recent-young :
    (t : ℤ) (xs : Cells Posting)
    → IsNewestFirst (values xs)
    → values (recent t xs) ≡ keep_if (λ v. leb_ℤ t v.timestamp) (values xs)
unfolding recent
recent-young t [] o = refl
recent-young t ((a, v) ∷ xs) (low, o) = elim (Bool-cases (leb_ℤ t v.timestamp)) [
  | inl new ↦ rw new (ap (◌∷◌ v) (recent-young t xs o))
  | inr old ↦ rw old (sym (keep_if-old t v (values xs) old low))
]

-- A mark at the last of the kept nodes shows those alone.
upto-last_address :
    (p : Ptr) (kept gone : Cells Posting)
    → ((a : Ptr) → count a (p ∷ addresses (kept ++ gone)) ≤ 1)
    → upto (last_address p kept) p (kept ++ gone) ≡ values kept
unfolding upto
upto-last_address p [] [] once = refl
upto-last_address p [] ((a, v) ∷ gone) once = let hit : (p == p) ≡ true = ground arith in rw hit
upto-last_address p ((a, v) ∷ kept) gone once =
    let last = last_address a kept in
    let miss : (p == last) ≡ false =
      ground (arith, once last, last_address-mem a kept, count-addresses-append last kept gone) in
    let rest : (b : Ptr) → count b (a ∷ addresses (kept ++ gone)) ≤ 1 =
      λ b. ground (arith, once b) in
    rw miss (ap (◌∷◌ v) (upto-last_address a kept gone rest))

-- On a sound list whose timestamps fall along it, marking ends, and from then on readers see exactly
-- the postings that are young enough.
pub mark_list-young :
    (t : ℤ) (plist : PostingList) (xs : Cells Posting)
    → IsList plist.inner_list xs
    → IsNewestFirst (values xs)
    → (plist' : PostingList) × (mark_list t plist ≡ some plist')
      × (visible plist' xs ≡ keep_if (λ v. leb_ℤ t v.timestamp) (values xs))
mark_list-young t plist xs is o =
    let front = plist.inner_list.front in
    let e = recent-append-stale t xs in
    let once : (a : Ptr) → count a (front ∷ addresses (recent t xs ++ stale t xs)) ≤ 1 =
      subst (λ ys. (a : Ptr) → count a (front ∷ addresses ys) ≤ 1) (sym e)
        (λ a. omega (arith, is.once a)) in
    (
      record plist { end_mark = last_address front (recent t xs) },
      mark_list_lem t plist xs is,
      ap (upto (last_address front (recent t xs)) front) (sym e)
          ∙ upto-last_address front (recent t xs) (stale t xs) once
          ∙ recent-young t xs o,
    )
