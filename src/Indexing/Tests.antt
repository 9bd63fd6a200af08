-- ===== src/Indexing/Tests.antt =====
-- The theorems on the index of src/indexing at two posting lists.
use mathlib.Core.List.{foldl}
use recomm_engine.Indexing.Example.{
  posting, cells, two-IsList, plist, abstract, index, request, index-Represents,
}
use recomm_engine.Prelude.{
  ℕ, none, elem, if◌then◌else◌, ◌≡◌, refl, some, inr, List, [], ◌∷◌, ◌++◌, arith, length, keep_if,
  ◌>>=◌,
}
use recomm_engine.Prelude.Maps.{find}
use recomm_engine.Prelude.Int.{pos, leb_ℤ}
use recomm_engine.Util.LocklessList.Chain.{values}
use recomm_engine.Indexing.Base.{to_float, round_float}
use recomm_engine.Indexing.PostingList.{PostingList, new_iterator, iterate}
use recomm_engine.Indexing.PostingList.Visible.{visible, read_lem}
use recomm_engine.Indexing.CleanOldStoryThread.Passes.{recent, stale}
use recomm_engine.Indexing.CleanOldStoryThread.Round.{Rounded, round_keeps, round_loses}
use recomm_engine.Indexing.CleanOldStoryThread.{mark_list, target_time, clean_round}
use recomm_engine.Indexing.CleanOldStoryThread.Whole.{kept, gone, clean_round_lem}
use recomm_engine.Indexing.Interleaving.{
  waits, sleeps, Threads, Turn, adds, builds, cleans, run_turns,
}
use recomm_engine.Indexing.Interleaving.Steps.{IsSafe}
use recomm_engine.Indexing.Interleaving.Runs.{run_turns-IsSafe}
use recomm_engine.Indexing.State.{InstantIndex}
use recomm_engine.Indexing.State.Represents.{Represents}
use recomm_engine.Indexing.CleanOldStoryThread.Young.{mark_list-young}
use recomm_engine.Indexing.IndexBuildThread.Postings.{Indexed, add_story_internal-Indexed}

weight_rounds : to_float (pos 16777217) ≡ pos 16777216
unfolding to_float round_float
weight_rounds = refl

read_lem_example :
    (do it ← new_iterator plist; iterate (λ p docs. p.local_docid ∷ docs) 4 plist it [])
    ≡ some (foldl (λ docs p. p.local_docid ∷ docs) [] (visible plist cells))
read_lem_example = read_lem (λ p docs. p.local_docid ∷ docs) plist cells [] two-IsList

round_keeps_example :
    Rounded
      (pos 30)
      (posting 3 60 ∷ [])
      plist
      (λ new. new ++ recent (pos 30) cells)
      (λ new. stale (pos 30) cells)
unfolding recent
round_keeps_example =
    round_keeps (pos 30) (posting 3 60 ∷ []) plist cells two-IsList (omega arith) (3, posting 2 50)
      [] refl

round_loses_example : Rounded (pos 55) (posting 3 60 ∷ []) plist (λ new. []) (λ new. new ++ cells)
unfolding recent
round_loses_example =
    round_loses (pos 55) (posting 3 60 ∷ []) plist cells two-IsList (omega arith) refl

mark_list-young_example :
    (plist' : PostingList) × (mark_list (pos 30) plist ≡ some plist')
    × (visible plist' cells ≡ keep_if (λ v. leb_ℤ (pos 30) v.timestamp) (values cells))
mark_list-young_example =
    mark_list-young (pos 30) plist cells two-IsList ((omega arith, tt), (tt, tt))

-- At second 100, with a life time of 60, document 1 goes.
clean_round_lem_example :
    let t = target_time 100 60 in
    (s' : InstantIndex) × (clean_round 100 60 index ≡ some s')
    × Represents s'.index (kept t abstract)
    × ((i : ℕ) → find i s'.att ≡ (if elem i (gone t abstract []) then none else find i index.att))
clean_round_lem_example = clean_round_lem 100 60 index abstract index-Represents

-- A story is added and built in while the cleaner marks and clears.
abbrev turns : List Turn
turns =
    adds 1 1 request
    ∷ builds (λ i. 2) 70
    ∷ builds (λ i. 2) 70
    ∷ builds (λ i. 2) 70
    ∷ builds (λ i. 2) 70
    ∷ cleans 100 60
    ∷ builds (λ i. 2) 70
    ∷ cleans 100 60
    ∷ builds (λ i. 2) 71
    ∷ cleans 100 60
    ∷ cleans 100 60
    ∷ []

index-IsSafe : IsSafe 2 (record { state = index; builder = waits; cleaner = sleeps })
index-IsSafe = record {
  lists = (
    record {
      cells = cells;
      is_list = two-IsList;
      small = omega arith;
      mark = inr (record {
        kept = (3, posting 2 50) ∷ [];
        gone = (2, posting 1 20) ∷ [];
        split = refl;
        at = refl;
      });
    },
    tt,
  );
  building = tt;
  cleaning = tt;
}

run_turns-IsSafe_example :
    (t : Threads) × (run_turns length turns
        (record { state = index; builder = waits; cleaner = sleeps })
      ≡ some t)
    × IsSafe 13 t
run_turns-IsSafe_example =
    run_turns-IsSafe length turns 2 (record { state = index; builder = waits; cleaner = sleeps })
      index-IsSafe (omega arith)

add_story_internal-Indexed_example : Indexed length (λ i. 70) request index abstract
add_story_internal-Indexed_example =
    add_story_internal-Indexed length (λ i. 70) request index abstract 2 index-Represents
      (omega arith, tt) (omega arith, tt) (omega arith)
