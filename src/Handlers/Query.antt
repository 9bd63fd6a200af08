-- ===== src/Handlers/Query.antt =====
-- RecommEngineHandler::query of src/recomm_engine_handler.cc. A plugin's `Rank` is a function: what it
-- leaves in the results, and the number it returns. `select` is AlgoPluginManager::Select; a null
-- plugin is a crash. `retrieve` is the handler of src/retrieval, and `get_profile` the storage of
-- stories, whose first part is what the profile holds afterwards.
pub mod Candidates
pub mod Outcome
use recomm_engine.Prelude.{
  ℕ, ◌+◌, Bool, true, false, ◌||◌, Option, none, some, List, [], ◌∷◌, ◌++◌, map, take, length, min,
  elem, ◌==◌, if◌then◌else◌, ◌>>=◌,
}
use recomm_engine.Prelude.Maps.{Map}
use recomm_engine.Prelude.Int.{ℤ, pos, negsuc, eqb_ℤ}
use recomm_engine.Prelude.Texts.{Text}
use recomm_engine.Indexing.Base.{StoryProfile}
use recomm_engine.Retrieval.Reader.{RetrievalRequestInfo}
use recomm_engine.Retrieval.Handler.{
  RetrievalResult, RetrievalResponse, RetrievalResponseCode, state_ok, state_error,
  state_keyword_not_found,
}
use recomm_engine.Retrieval.Handler.Results.{fresh_response}
use recomm_engine.Storage.UserProfileStorage.{UserProfile, fresh_profile}

pub data RecommendationResponseCode : Type 0 where
  rrc_ok rrc_error rrc_uid_not_found rrc_no_doc rrc_no_candidate rrc_no_profile
        rrc_empty_rank_result :
      RecommendationResponseCode

pub record RecommendationRequest : Type 0 where
  pub uid : Text
  pub url : Text
  pub top_n : ℤ

-- The score is kept as the plugin's own number, of which the handler only prints it.
pub record RecommendationResult : Type 0 where
  pub story_id : Text
  pub score : Text

pub record RecommendationResponse : Type 0 where
  pub response_code : RecommendationResponseCode
  pub results : List RecommendationResult

abbrev pub Rank : Type 0
Rank =
    UserProfile
    → StoryProfile
    → List StoryProfile
    → List RecommendationResult
    → Bool
    → List RecommendationResult × ℤ

abbrev pub fresh_story : StoryProfile
fresh_story = record { story_id = []; signature = 0; keywords = []; rest = [] }

abbrev info_of : ℕ × ℤ → RetrievalRequestInfo
info_of (k, w) = record { keyword = k; weight = w }

-- The keywords of the user, then those of the story.
unfoldable pub retrieval_request : UserProfile → StoryProfile → List RetrievalRequestInfo
retrieval_request user_profile story_profile =
    map info_of user_profile.keywords ++ map info_of story_profile.keywords

-- The loop over the results of the retrieval. `existence` is the set of signatures so far.
unfoldable pub collect_candidates :
    (ℕ → StoryProfile × Bool) → List ℕ → List ℕ → List RetrievalResult → List StoryProfile
collect_candidates get_profile history existence [] = []
collect_candidates get_profile history existence (r ∷ results) =
    let skip = collect_candidates get_profile history existence results in
    let (story_profile, found) = get_profile r.story_id in
    let keep =
      collect_candidates get_profile history (story_profile.signature ∷ existence) results in
    if elem r.story_id history
    then skip
    else if found
    then (if elem story_profile.signature existence then skip else story_profile ∷ keep)
    else skip

-- `static_cast<std::size_t>(topN)` of a negative number is larger than any size.
unfoldable pub truncated : ℤ → List RecommendationResult → List RecommendationResult
truncated (pos n) results = take (min n (length results)) results
truncated (negsuc n) results = results

-- Step 5, after the plugin has ranked.
unfoldable pub after_rank : ℤ → List RecommendationResult × ℤ → RecommendationResponse
after_rank top_n (results, num_results) =
    if eqb_ℤ (pos (length results)) num_results
    then (if length results == 0
        then record { response_code = rrc_empty_rank_result; results = results }
        else record { response_code = rrc_ok; results = truncated top_n results })
    else record { response_code = rrc_error; results = results }

abbrev pub is_state_ok : RetrievalResponseCode → Bool
is_state_ok state_ok = true
is_state_ok state_error = false
is_state_ok state_keyword_not_found = false

module _ (get_user_profile : Text → UserProfile → ℕ × UserProfile)
    (get_profile : ℕ → StoryProfile → StoryProfile × Bool) (city_hash64 : Text → ℕ)
    (retrieve : List RetrievalRequestInfo → RetrievalResponse → Option RetrievalResponse)
    (select : Text → Option Rank) where
  -- From the candidates on.
  unfoldable pub rank_candidates :
      ℤ
      → UserProfile
      → StoryProfile
      → List StoryProfile
      → List RecommendationResult
      → Option RecommendationResponse
  rank_candidates top_n user_profile story_profile candidates results =
      if length candidates == 0
      then some (record { response_code = rrc_no_candidate; results = results })
      else do
        ranking_plugin ← select user_profile.uid
        some (after_rank top_n (ranking_plugin user_profile story_profile candidates results false))

  unfoldable pub query :
      RecommendationRequest → List RecommendationResult → Option RecommendationResponse
  query request results =
      let user_profile = (get_user_profile request.uid fresh_profile).1 in
      let (story_profile, stored) = get_profile (city_hash64 request.url) fresh_story in
      if stored
      then (do
        response ← retrieve (retrieval_request user_profile story_profile) fresh_response
        if is_state_ok response.resp_code
            then rank_candidates request.top_n user_profile story_profile
                (collect_candidates (λ id. get_profile id fresh_story) user_profile.history []
                  response.results)
                results
            else some (record { response_code = rrc_no_doc; results = results }))
      else some (record { response_code = rrc_error; results = results })
