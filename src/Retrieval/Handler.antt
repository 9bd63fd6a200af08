-- ===== src/Retrieval/Handler.antt =====
-- src/retrieval/retrieval_handler.cpp, with the ranker of ranker.cpp and the set of results of
-- result_set.h. A score is a `double` that was made from a size, so it is a natural number.
-- `under score size` is the test `score < FLAGS_hit_keywords_ratio * size` on doubles; `sort` is
-- `std::sort`, whose order of equal scores nobody promises. `none` is an index out of range.
pub mod Sorting
pub mod Candidates
pub mod Results
use recomm_engine.Prelude.{
  ℕ, zero, suc, ◌+◌, Bool, Option, none, some, List, [], ◌∷◌, ◌++◌, length, ltb, ◌==◌,
  if◌then◌else◌, ◌>>=◌,
}
use recomm_engine.Prelude.Maps.{Map}
use recomm_engine.Indexing.State.{InstantIndex}
use recomm_engine.Retrieval.Reader.{
  RetrievalRequestInfo, KeyOfDoc, DocInfo, IndexReader, begin_intersect, next_doc, end_intersect,
}

pub data RetrievalResponseCode : Type 0 where
  state_ok state_error state_keyword_not_found : RetrievalResponseCode

-- An entry of the set of results, and a result of the response.
pub record RetrievalResult : Type 0 where
  pub story_id : ℕ
  pub score : ℕ

pub record RetrievalResponse : Type 0 where
  pub resp_code : RetrievalResponseCode
  pub num_results : ℕ
  pub results : List RetrievalResult

pub record ResultSet : Type 0 where
  pub docs : List RetrievalResult
  pub doc_num : ℕ
  pub max_num : ℕ

abbrev pub compute_rank : DocInfo → ℕ
compute_rank doc = length doc.key_info

abbrev pub init : ResultSet
init = record { docs = []; doc_num = 0; max_num = 0 }

unfoldable pub insert_doc : ℕ → ℕ → ResultSet → ResultSet
insert_doc story_id score set = record set {
  docs = set.docs ++ record { story_id = story_id; score = score } ∷ [];
  doc_num = set.doc_num + 1;
}

unfoldable pub dump : (List RetrievalResult → List RetrievalResult) → ResultSet → ResultSet × ℕ
dump sort set = (record set { docs = sort set.docs }, set.doc_num)

-- The body of the loop over the documents.
unfoldable pub score_doc : (ℕ → ℕ → Bool) → ℕ → DocInfo → ResultSet → ResultSet
score_doc under size doc set =
    if under (compute_rank doc) size then set else insert_doc doc.story_id (compute_rank doc) set

-- The loop `while (index_reader.nextDoc(&iter))`, whose body is `k`.
abbrev scored :
    (IndexReader → DocInfo → Option (IndexReader × ResultSet))
    → ResultSet
    → IndexReader × Option DocInfo
    → Option (IndexReader × ResultSet)
scored k set (r, none) = some (r, set)
scored k set (r, some doc) = k r doc

unfoldable pub score_docs :
    ℕ
    → (ℕ → ℕ → Bool)
    → ℕ
    → InstantIndex
    → IndexReader
    → ResultSet
    → Option (IndexReader × ResultSet)
score_docs zero under size s r set = none
score_docs (suc fuel) under size s r set =
    scored (λ r doc. score_docs fuel under size s r (score_doc under size doc set)) set
      (next_doc s r)

-- The loop of makeReply: `doc(i)` for i below `doc_num`.
unfoldable pub reply_docs : ℕ → List RetrievalResult → Option (List RetrievalResult)
reply_docs zero docs = some []
reply_docs (suc n) [] = none
reply_docs (suc n) (d ∷ docs) = do rest ← reply_docs n docs; some (d ∷ rest)

unfoldable pub make_reply : RetrievalResponse → ℕ → ResultSet → Option RetrievalResponse
make_reply response doc_num doc_set = do
  let response =
      if doc_num == 0 then record response { resp_code = state_keyword_not_found } else response
  let response = record response { resp_code = state_ok; num_results = doc_num }
  results ← reply_docs doc_num doc_set.docs
  some (record response { results = response.results ++ results })

abbrev pub closed_reader : IndexReader
closed_reader = record { keyword_info = []; doc_hits_info = []; iter = [] }

unfoldable pub retrieve :
    (ℕ → ℕ → Bool)
    → (List RetrievalResult → List RetrievalResult)
    → ℕ
    → InstantIndex
    → List RetrievalRequestInfo
    → RetrievalResponse
    → Option RetrievalResponse
retrieve under sort max_doc_return s keywords response = do
  r ← begin_intersect keywords s closed_reader
  (r, doc_set) ← score_docs (length r.iter + 1) under (length keywords) s r init
  let (doc_set, doc_num) = dump sort doc_set
  let doc_num : ℕ = if ltb max_doc_return doc_num then max_doc_return else doc_num
  make_reply response doc_num doc_set
