-- ===== src/Retrieval/Tests.antt =====
-- A retrieval of src/retrieval over the index with two documents, of which readers see one.
use recomm_engine.Prelude.{◌≡◌, some, List, [], ◌∷◌}
use recomm_engine.Prelude.Int.{pos}
use recomm_engine.Indexing.Example.{index}
use recomm_engine.Retrieval.Example.{sort, sort-IsSort, under, seen, index-Shows}
use recomm_engine.Retrieval.Reader.{RetrievalRequestInfo, IndexReader, begin_intersect}
use recomm_engine.Retrieval.Reader.Hits.{hits, Collects, begin_intersect_lem}
use recomm_engine.Retrieval.Handler.{RetrievalResponse, retrieve, closed_reader}
use recomm_engine.Retrieval.Handler.Results.{Replied, fresh_response, retrieve_lem}

abbrev keywords : List RetrievalRequestInfo
keywords = record { keyword = 5; weight = pos 1 } ∷ record { keyword = 8; weight = pos 1 } ∷ []

retrieve_lem_example :
    (r : RetrievalResponse) × (retrieve under sort 100 index keywords fresh_response ≡ some r)
    × Replied under 100 2 index (λ d. hits seen d keywords) r
retrieve_lem_example = retrieve_lem under sort 100 sort-IsSort index seen keywords index-Shows

begin_intersect_lem_example :
    (r : IndexReader) × (begin_intersect keywords index closed_reader ≡ some r)
    × (r.iter ≡ r.doc_hits_info)
    × Collects r.doc_hits_info (λ d. hits seen d keywords)
begin_intersect_lem_example = begin_intersect_lem index seen index-Shows keywords closed_reader
