-- ===== src/Retrieval/Handler/Results.antt =====
-- The reply of src/retrieval/retrieval_handler.cpp.
use mathlib.Core.Path.{transport}
use recomm_engine.Prelude.{
  ℕ, zero, suc, ◌+◌, ◌≤◌, ◌≡◌, ◌≢◌, refl, sym, ap, ◌∙◌, Bool, false, some, List, [], ◌∷◌, length,
  take, length-take, arith, ◌⊎◌, inl, inr, Bool-cases, ◌==◌, if◌then◌else◌, ltb, subst, min,
}
use recomm_engine.Indexing.Base.{Posting}
use recomm_engine.Indexing.State.{InstantIndex}
use recomm_engine.Retrieval.Reader.{RetrievalRequestInfo, KeyOfDoc}
use recomm_engine.Retrieval.Reader.Hits.{Shows, hits, begin_intersect_lem}
use recomm_engine.Retrieval.Handler.{
  RetrievalResult, RetrievalResponse, ResultSet, state_ok, reply_docs, make_reply, dump, retrieve,
  init, closed_reader,
}
use recomm_engine.Retrieval.Handler.Sorting.{
  In, In-take, Descending, Descending-take, IsSort, NoBetter, cut,
}
use recomm_engine.Retrieval.Handler.Candidates.{
  entry, candidates, Passes, score_docs_lem, candidates_sound, candidates_complete,
}

reply_docs_lem :
    (n : ℕ) (docs : List RetrievalResult) → n ≤ length docs → reply_docs n docs ≡ some (take n docs)
unfolding reply_docs
reply_docs_lem zero docs h = refl
reply_docs_lem (suc n) [] h = absurd (omega arith)
reply_docs_lem (suc n) (d ∷ docs) h = rw (reply_docs_lem n docs (omega arith)) refl

-- A document that some keyword hits, and enough of them.
abbrev pub Relevant :
    (ℕ → ℕ → Bool) → ℕ → InstantIndex → (ℕ → List KeyOfDoc) → RetrievalResult → ℕ → Type 0
Relevant under size s found e d =
    (found d ≢ []) × (under (length (found d)) size ≡ false) × (e ≡ entry under size s d (found d))

-- A reply that holds the best of the relevant documents, `found` giving the keywords that hit each.
pub record Replied (under : ℕ → ℕ → Bool) (max_doc_return size : ℕ) (s : InstantIndex)
    (found : ℕ → List KeyOfDoc) (r : RetrievalResponse) : Type 0 where
  pub code : r.resp_code ≡ state_ok
  pub counted : r.num_results ≡ length r.results
  pub bounded : length r.results ≤ max_doc_return
  pub descending : Descending r.results
  -- Every result is a relevant document, with its global id and its number of hits.
  pub sound : (e : RetrievalResult) → In e r.results → (d : ℕ) × Relevant under size s found e d
  -- Every relevant document is a result, unless the reply is full of ones that are no worse.
  pub complete :
      (e : RetrievalResult) (d : ℕ)
      → Relevant under size s found e d
      → In e r.results ⊎ ((length r.results ≡ max_doc_return) × NoBetter e r.results)

abbrev pub fresh_response : RetrievalResponse
fresh_response = record { resp_code = state_ok; num_results = 0; results = [] }

module _ (under : ℕ → ℕ → Bool) (sort : List RetrievalResult → List RetrievalResult)
    (max_doc_return : ℕ) (is_sort : IsSort sort) where
  make_reply_lem :
      (set : ResultSet)
      → set.doc_num ≡ length set.docs
      → make_reply fresh_response
          (if ltb max_doc_return set.doc_num then max_doc_return else set.doc_num)
          (record set { docs = sort set.docs })
        ≡ some (record {
          resp_code = state_ok;
          num_results = min max_doc_return (length set.docs);
          results = take (min max_doc_return (length set.docs)) (sort set.docs);
        })
  unfolding make_reply
  make_reply_lem set e =
      let n : (if ltb max_doc_return set.doc_num then max_doc_return else set.doc_num)
          ≡ min max_doc_return (length set.docs) =
        ground arith in
      let room : min max_doc_return (length set.docs) ≤ length (sort set.docs) =
        omega (arith, is_sort.same_length set.docs) in
      rw n (
        rw (reply_docs_lem _ (sort set.docs) room)
          (elim (Bool-cases (min max_doc_return (length set.docs) == 0)) [
            | inl z ↦ rw z refl
            | inr z ↦ rw z refl
          ]))

  -- On an index whose lists are sound, the retrieval does not crash and ends, and its reply to a
  -- fresh response holds the best relevant documents: each result is a document with enough hits
  -- among the postings that readers see, its score their number; scores fall; no more results
  -- than the limit; and a relevant document is missing only from a full reply of no lower scores.
  pub retrieve_lem :
      (s : InstantIndex) (seen : ℕ → List Posting) (keywords : List RetrievalRequestInfo)
      → Shows s seen
      → (r : RetrievalResponse) × (retrieve under sort max_doc_return s keywords fresh_response
          ≡ some r)
        × Replied under max_doc_return (length keywords) s (λ d. hits seen d keywords) r
  unfolding retrieve dump
  retrieve_lem s seen keywords shows =
      let size = length keywords in
      let (r, run, start, c) = begin_intersect_lem s seen shows keywords closed_reader in
      let m = r.doc_hits_info in
      let (r', set, run', docs, num) =
        score_docs_lem under size s (length r.iter + 1) r.iter r.keyword_info m init
          (omega arith) in
      let cs = candidates under size s m in
      let all : set.docs ≡ cs = docs ∙ ap (candidates under size s) start in
      let count : set.doc_num ≡ length set.docs = omega (arith, num, ap length docs) in
      let xs = sort set.docs in
      let len = is_sort.same_length set.docs in
      let n : min max_doc_return (length set.docs) ≡ min max_doc_return (length xs) = omega arith in
      let passes : (e : RetrievalResult) (d : ℕ)
          → Passes under size s m e d ≡ Relevant under size s (λ d. hits seen d keywords) e d =
        λ e d.
          ap (λ ks. (ks ≢ []) × (under (length ks) size ≡ false) × (e ≡ entry under size s d ks))
            (c.keys d) in
      (
        record {
          resp_code = state_ok;
          num_results = min max_doc_return (length set.docs);
          results = take (min max_doc_return (length set.docs)) xs;
        },
        rw run (rw run' (make_reply_lem set count)),
        record {
          code = refl;
          counted = omega (arith, length-take (min max_doc_return (length set.docs)) xs);
          bounded = omega (arith, length-take (min max_doc_return (length set.docs)) xs);
          descending = Descending-take _ xs (is_sort.descending set.docs);
          sound = λ e i.
              let in_set = (is_sort.same_entries e set.docs).0 (In-take e _ xs i) in
              let (d, p) =
                candidates_sound under size s m e c.full c.ordered (subst (In e) all in_set) in
              (d, transport (passes e d) p);
          complete = λ e d rel.
              let i = candidates_complete under size s m e d (transport (sym (passes e d)) rel) in
              let in_sorted = (is_sort.same_entries e set.docs).1 (subst (In e) (sym all) i) in
              rw n (cut max_doc_return xs e (is_sort.descending set.docs) in_sorted);
        },
      )
