-- ===== src/Handlers/Tests.antt =====
-- The theorems on the services at one request.
use recomm_engine.Prelude.{
  ℕ, ◌≡◌, refl, Bool, true, false, none, some, List, [], ◌∷◌, length, if◌then◌else◌,
}
use recomm_engine.Prelude.Int.{pos}
use recomm_engine.Util.ProducerConsumerQueue.{is_full}
use recomm_engine.Prelude.Texts.{Text}
use recomm_engine.Indexing.Base.{StoryProfile}
use recomm_engine.Indexing.Example.{index, request}
use recomm_engine.Indexing.InstantIndex
use recomm_engine.Storage.LocalDict.{not_found, failed, Leveldb}
use recomm_engine.Util.Bytes.{Thrift}
use recomm_engine.Storage.UserProfileStorage.{UserProfile}
use recomm_engine.Retrieval.Handler.{RetrievalResult, RetrievalResponse, retrieve}
use recomm_engine.Retrieval.Reader.Hits.{hits}
use recomm_engine.Retrieval.Handler.Results.{Replied}
use recomm_engine.Retrieval.Example.{sort, sort-IsSort, under, seen, index-Shows}
use recomm_engine.Handlers.StoryManagement.{Stores, sms_ok, sms_error, add_story}
use recomm_engine.Handlers.StoryManagement.Status.{add_story_status}
use recomm_engine.Handlers.Query.{
  RecommendationRequest, RecommendationResponse, Rank, collect_candidates, query,
}
use recomm_engine.Handlers.Query.Candidates.{Collected, collect_candidates_lem}
use recomm_engine.Handlers.Query.Outcome.{Served, keywords_of, query_lem}

-- A database that stores nothing.
abbrev broken : Leveldb Text
broken = record { put = λ key value d. (d, failed); get = λ key d. (not_found, []) }

abbrev thrift : Thrift StoryProfile
thrift = record { to_string = λ v. v.story_id; from_string = λ t v. (v, false) }

abbrev stores : Stores Text
stores = record { inverted_index = index; forward_index = record { persistence = some [] } }

-- Success is reported although the profile was not stored.
add_story_status_example :
    (s' : Stores Text) × (add_story broken thrift length 3 4 request stores
      ≡ some (s', if is_full index.doc_pool then sms_error else sms_ok))
    × (s'.inverted_index ≡ (InstantIndex.add_story 3 4 request index).0)
    × (is_full index.doc_pool ≡ true → s'.forward_index ≡ stores.forward_index)
add_story_status_example = add_story_status broken thrift length 3 4 request stores [] refl

abbrev story : StoryProfile
story = record { story_id = 97 ∷ []; signature = 9; keywords = (5, pos 3) ∷ []; rest = [] }

-- Every story is stored, under the same profile.
abbrev get_profile : ℕ → StoryProfile → StoryProfile × Bool
get_profile key v = (story, true)

abbrev get_user_profile : Text → UserProfile → ℕ × UserProfile
get_user_profile uid v =
    (0, record { uid = uid; keywords = (8, pos 1) ∷ []; history = 11 ∷ []; rest = [] })

abbrev rank : Rank
rank user_profile story_profile candidates ranked debug =
    (record { story_id = 97 ∷ []; score = [] } ∷ [], pos 1)

abbrev query_request : RecommendationRequest
query_request = record { uid = 98 ∷ []; url = 97 ∷ []; top_n = pos 10 }

query_lem_example :
    (r : RecommendationResponse) × (reply : RetrievalResponse) × (query get_user_profile get_profile
        length
        (retrieve under sort 100 index)
        (λ id. some rank)
        query_request
        []
      ≡ some r)
    × Replied under 100
        (length (keywords_of get_user_profile get_profile length (λ id. some rank) query_request))
        index
        (λ d.
          hits seen d
            (keywords_of get_user_profile get_profile length (λ id. some rank) query_request))
        reply
    × Served get_user_profile get_profile length (λ id. some rank) query_request [] reply r
query_lem_example =
    query_lem get_user_profile get_profile length (λ id. some rank) (λ id e. some≢none e) under sort
      100 sort-IsSort index seen query_request [] index-Shows refl
  where
    some≢none : some rank ≡ none → ⊥
    some≢none e = cc

abbrev results : List RetrievalResult
results =
    record { story_id = 11; score = 2 }
    ∷ record { story_id = 22; score = 1 }
    ∷ record { story_id = 33; score = 1 }
    ∷ []

collect_candidates_lem_example :
    Collected
      (λ id. (story, true))
      (11 ∷ [])
      []
      results
      (collect_candidates (λ id. (story, true)) (11 ∷ []) [] results)
collect_candidates_lem_example = collect_candidates_lem (λ id. (story, true)) (11 ∷ []) results
