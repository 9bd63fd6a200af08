-- ===== src/Retrieval/Reader.antt =====
-- src/retrieval/index_reader.cpp with types.h: for each document the keywords that hit it.
pub mod Hits
use recomm_engine.Prelude.{ℕ, ◌+◌, ◌^◌, Option, none, some, List, [], ◌∷◌, ◌++◌, ◌>>=◌}
use recomm_engine.Prelude.Maps.{Map, find, assign}
use recomm_engine.Prelude.Int.{ℤ}
use recomm_engine.Indexing.Base.{Posting}
use recomm_engine.Indexing.PostingList.{PostingList, PostingIterator, iterate}
use recomm_engine.Indexing.State.{InstantIndex}
use recomm_engine.Indexing.InstantIndex.{get_posting_list, translate_to_global_id}

pub record RetrievalRequestInfo : Type 0 where
  pub keyword : ℕ
  pub weight : ℤ

-- A `double` that was made from a `float` with an integer's value has that value.
pub record KeyOfDoc : Type 0 where
  pub keyword_id : ℕ
  pub weight_in_doc : ℤ

pub record DocInfo : Type 0 where
  pub story_id : ℕ
  pub key_info : List KeyOfDoc

-- `iter` is the part of the map from `m_iter` on.
pub record IndexReader : Type 0 where
  pub keyword_info : List RetrievalRequestInfo
  pub doc_hits_info : Map (List KeyOfDoc)
  pub iter : Map (List KeyOfDoc)

abbrev pub add_back {ℓ} : {A : Type ℓ} → A → Option (List A) → List A
add_back x none = x ∷ []
add_back x (some xs) = xs ++ x ∷ []

unfoldable pub add_hit_keyword_to_doc_info :
    KeyOfDoc → ℕ → Map (List KeyOfDoc) → Map (List KeyOfDoc)
add_hit_keyword_to_doc_info key_info doc_id m = assign doc_id (add_back key_info (find doc_id m)) m

abbrev pub hit_body : ℕ → Posting → Map (List KeyOfDoc) → Map (List KeyOfDoc)
hit_body keyword onedoc m =
    add_hit_keyword_to_doc_info (record { keyword_id = keyword; weight_in_doc = onedoc.weight })
      onedoc.local_docid m

-- The postings of one keyword.
unfoldable pub read_hits :
    ℕ → Option (PostingList × PostingIterator) → Map (List KeyOfDoc) → Option (Map (List KeyOfDoc))
read_hits keyword none m = some m
read_hits keyword (some (plist, it)) m =
    iterate (hit_body keyword) (plist.inner_list.node_num + 2) plist it m

unfoldable pub all_hits :
    List RetrievalRequestInfo → InstantIndex → Map (List KeyOfDoc) → Option (Map (List KeyOfDoc))
all_hits [] s m = some m
all_hits (k ∷ infos) s m = do
  iter ← get_posting_list k.keyword s
  m ← read_hits k.keyword iter m
  all_hits infos s m

unfoldable pub begin_intersect :
    List RetrievalRequestInfo → InstantIndex → IndexReader → Option IndexReader
begin_intersect keywords s r = do
  m ← all_hits keywords s []
  some (record { keyword_info = keywords; doc_hits_info = m; iter = m })

-- The local id itself, an unsigned one, where the document's attachment is gone.
unfoldable pub get_global_id_from_local_id : InstantIndex → ℕ → ℕ
get_global_id_from_local_id s local_id = (translate_to_global_id local_id s (local_id + 2 ^ 63)).0

unfoldable pub next_doc : InstantIndex → IndexReader → IndexReader × Option DocInfo
next_doc s r = go r.iter
  where
    go : Map (List KeyOfDoc) → IndexReader × Option DocInfo
    go [] = (r, none)
    go ((local_id, keys) ∷ rest) = (
      record r { iter = rest },
      some (record { story_id = get_global_id_from_local_id s local_id; key_info = keys }),
    )

abbrev pub end_intersect : IndexReader → IndexReader
end_intersect r = record r { doc_hits_info = []; keyword_info = [] }
