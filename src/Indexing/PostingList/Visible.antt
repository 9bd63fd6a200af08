-- ===== src/Indexing/PostingList/Visible.antt =====
-- What readers see of a posting list of src/indexing/posting.cc: the postings up to the end mark.
use mathlib.Core.List.{foldl}
use recomm_engine.Prelude.{
  ℕ, zero, suc, ◌+◌, ◌<◌, ◌≡◌, ◌≢◌, refl, sym, ap, ◌∙◌, true, false, some, List, [], ◌∷◌, ◌==◌,
  length, arith, if◌then◌else◌, Bool-cases, inl, inr, ==_iff, ◌>>=◌,
}
use recomm_engine.Util.LocklessList.{Ptr, null, Store, node}
use recomm_engine.Util.LocklessList.Chain.{Cells, Chain, IsList, load-ok}
use recomm_engine.Indexing.Base.{Posting}
use recomm_engine.Indexing.PostingList.{
  PostingList, PostingIterator, size_loop, size, new_iterator, has_value, get_value, next, iterate,
}

-- The postings behind the node `c`, as far as the end mark. A mark at `c` hides them all.
unfoldable pub upto : Ptr → Ptr → Cells Posting → List Posting
upto mark c [] = []
upto mark c ((a, v) ∷ xs) = if c == mark then [] else v ∷ upto mark a xs

abbrev pub visible : PostingList → Cells Posting → List Posting
visible plist xs = upto plist.end_mark plist.inner_list.front xs

size_loop_lem :
    (fuel : ℕ) (s : Store Posting) (mark cur : Ptr) (w : Posting) (q : Ptr) (xs : Cells Posting)
    (n : ℕ)
    → cur ≢ null
    → s cur ≡ some (node w q)
    → Chain s q xs
    → length xs < fuel
    → size_loop fuel s mark cur n ≡ some (n + length (upto mark cur xs))
unfolding size_loop upto
size_loop_lem zero s mark cur w q xs n ne holds rest f = absurd (omega arith)
size_loop_lem (suc fuel) s mark cur w q [] n ne holds (e, _) f =
    let live : (cur == null) ≡ false = ground arith in
    let last : (q == null) ≡ true = ground arith in
    rw (live, load-ok s cur ne holds) (rw last (ground arith))
size_loop_lem (suc fuel) s mark cur w q ((a, v) ∷ xs) n ne holds (r, e, na, ha, rest) f =
    let live : (cur == null) ≡ false = ground arith in
    let more : (q == null) ≡ false = ground arith in
    let ih = size_loop_lem fuel s mark a v r xs (n + 1) na ha rest (omega arith) in
    rw (live, load-ok s cur ne holds)
      (rw (more, e)
        (elim (Bool-cases (cur == mark)) [
          | inl stop ↦ rw stop (ground arith)
          | inr go ↦ rw go (ih ∙ ap (λ (k : ℕ). some k) (omega arith))
        ]))

upto-marked : (mark c : Ptr) (xs : Cells Posting) → (c == mark) ≡ true → upto mark c xs ≡ []
unfolding upto
upto-marked mark c [] h = refl
upto-marked mark c ((a, v) ∷ xs) h = rw h

-- On a sound list Size counts the postings that a reader sees.
pub size_lem :
    (plist : PostingList) (xs : Cells Posting)
    → IsList plist.inner_list xs
    → size plist ≡ some (length (visible plist xs))
unfolding size
size_lem plist xs is =
    let l = plist.inner_list in
    let (q, e, ne, holds, rest) = is.chain in
    elim (Bool-cases (l.front == plist.end_mark)) [
      | inl stop ↦ rw (stop, upto-marked plist.end_mark l.front xs stop)
      | inr go ↦ rw go (
          size_loop_lem (l.node_num + 2) l.store plist.end_mark l.front is.fake q xs 0 ne holds rest
            (omega (arith, is.counted))
          ∙ ap (λ (k : ℕ). some k) (omega arith))
    ]

-- The loop of a reader.
iterate_lem {ℓ} :
    {S : Type ℓ} (body : Posting → S → S) (fuel : ℕ) (plist : PostingList) (it : PostingIterator)
    (w : Posting) (q : Ptr) (xs : Cells Posting) (s : S)
    → it.cur ≢ null
    → plist.inner_list.store it.cur ≡ some (node w q)
    → Chain plist.inner_list.store q xs
    → length xs < fuel
    → (plist.end_mark ≡ plist.inner_list.front → it.cur ≡ plist.inner_list.front)
    → iterate body fuel plist it s
      ≡ some (foldl (λ t p. body p t) s (upto plist.end_mark it.cur xs))
unfolding iterate upto has_value get_value next
iterate_lem body zero plist it w q xs s ne holds rest f h = absurd (omega arith)
iterate_lem body (suc fuel) plist it w q [] s ne holds (e, _) f h =
    let live : (it.cur == null) ≡ false = ground arith in
    let last : (q == null) ≡ true = ground arith in
    rw (live, load-ok plist.inner_list.store it.cur ne holds) (rw last refl)
iterate_lem body (suc fuel) plist it w q ((a, v) ∷ xs) s ne holds (r, e, na, ha, rest) f h =
    let l = plist.inner_list in
    let live : (it.cur == null) ≡ false = ground arith in
    let more : (q == null) ≡ false = ground arith in
    let nq : q ≢ null = λ z. na (sym e ∙ z) in
    let hq : l.store q ≡ some (node v r) = ap l.store e ∙ ha in
    let there = load-ok l.store it.cur ne holds in
    rw (live, there)
      (rw more (elim (Bool-cases (plist.end_mark == l.front)) [
        | inl same ↦
            let stop : (it.cur == plist.end_mark) ≡ true =
              ground (arith, h ((==_iff plist.end_mark l.front).0 same)) in
            rw same (rw stop refl)
        | inr other ↦ rw other (elim (Bool-cases (it.cur == plist.end_mark)) [
          | inl stop ↦ rw stop refl
          | inr go ↦ rw go (
              rw (there, load-ok l.store q nq hq)
                (rw there (
                  iterate_lem body fuel plist (record { cur = q; has_value = false }) v r xs
                    (body v s) nq hq rest (omega arith) (λ z. absurd (ground arith))
                  ∙ ap (λ c. some (foldl (λ t p. body p t) (body v s) (upto plist.end_mark c xs)))
                      e)))
        ])
      ]))

-- A reader that goes through a list as iterator.h prescribes does its work on each posting up to the
-- end mark, newest first, each once, and comes to an end.
pub read_lem {ℓ} :
    {S : Type ℓ} (body : Posting → S → S) (plist : PostingList) (xs : Cells Posting) (s : S)
    → IsList plist.inner_list xs
    → (do it ← new_iterator plist; iterate body (plist.inner_list.node_num + 2) plist it s)
      ≡ some (foldl (λ t p. body p t) s (visible plist xs))
unfolding new_iterator
read_lem body plist xs s is =
    let l = plist.inner_list in
    let (q, e, ne, holds, rest) = is.chain in
    let live : (l.front == null) ≡ false = ground arith in
    rw live (
      iterate_lem body (l.node_num + 2) plist (record { cur = l.front; has_value = false }) is.fake
        q xs s ne holds rest (omega (arith, is.counted)) (λ z. refl))
