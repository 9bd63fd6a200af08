-- ===== src/Handlers/Query/Outcome.antt =====
-- What src/recomm_engine_handler.cc answers.
use recomm_engine.Prelude.{
  ℕ, zero, suc, ◌≡◌, ◌≢◌, refl, sym, ap, ◌∙◌, Bool, true, false, Option, none, some, List, [], ◌∷◌,
  take, length, length-take, arith, ◌==◌, Bool-cases, inl, inr, min,
}
use recomm_engine.Prelude.Int.{ℤ, pos, negsuc, eqb_ℤ, eqb_ℤ→eq}
use recomm_engine.Prelude.Texts.{Text}
use recomm_engine.Indexing.Base.{StoryProfile, Posting}
use recomm_engine.Retrieval.Reader.{RetrievalRequestInfo}
use recomm_engine.Indexing.State.{InstantIndex}
use recomm_engine.Retrieval.Handler.{RetrievalResult, RetrievalResponse, retrieve}
use recomm_engine.Retrieval.Handler.Sorting.{IsSort}
use recomm_engine.Retrieval.Reader.Hits.{Shows, hits}
use recomm_engine.Retrieval.Handler.Results.{Replied, retrieve_lem}
use recomm_engine.Storage.UserProfileStorage.{UserProfile, fresh_profile}
use recomm_engine.Handlers.Query.{
  RecommendationRequest, RecommendationResult, RecommendationResponse, Rank, fresh_story, rrc_ok,
  rrc_error, rrc_no_candidate, rrc_empty_rank_result, rrc_no_doc, retrieval_request,
  collect_candidates, truncated, after_rank, rank_candidates, query,
}

-- The first so many of the results: all of them for a negative number.
abbrev pub Truncated : ℤ → List RecommendationResult → List RecommendationResult → Type 0
Truncated (pos n) ranked results =
    (results ≡ take n ranked) × (length results ≡ min n (length ranked))
Truncated (negsuc n) ranked results = results ≡ ranked

-- What an answer may be, given what the plugin left and returned.
pub record Ranked (top_n : ℤ) (ranked : List RecommendationResult × ℤ) (r : RecommendationResponse)
    : Type 0 where
  pub not_no_doc : r.response_code ≢ rrc_no_doc
  pub full_number : r.response_code ≡ rrc_ok → pos (length ranked.0) ≡ ranked.1
  pub some_left : r.response_code ≡ rrc_ok → ranked.0 ≢ []
  pub cut : r.response_code ≡ rrc_ok → Truncated top_n ranked.0 r.results

truncated_lem :
    (top_n : ℤ) (ranked : List RecommendationResult)
    → Truncated top_n ranked (truncated top_n ranked)
unfolding truncated
truncated_lem (pos n) ranked =
    (take-min n ranked, omega (arith, length-take (min n (length ranked)) ranked))
  where
    take-min : (n : ℕ) (xs : List RecommendationResult) → take (min n (length xs)) xs ≡ take n xs
    take-min zero xs = let z : min 0 (length xs) ≡ 0 = omega arith in rw z refl
    take-min (suc n) [] = let z : min (suc n) 0 ≡ 0 = omega arith in rw z refl
    take-min (suc n) (x ∷ xs) =
        let m : min (suc n) (suc (length xs)) ≡ suc (min n (length xs)) = omega arith in
        rw m (ap (◌∷◌ x) (take-min n xs))
truncated_lem (negsuc n) ranked = refl

after_rank_lem :
    (top_n : ℤ) (ranked : List RecommendationResult) (num : ℤ)
    → Ranked top_n (ranked, num) (after_rank top_n (ranked, num))
unfolding after_rank
after_rank_lem top_n ranked num = elim (Bool-cases (eqb_ℤ (pos (length ranked)) num)) [
  | inl same ↦ rw same (elim (Bool-cases (length ranked == 0)) [
    | inl empty ↦ rw empty (record {
      not_no_doc = λ e. cc;
      full_number = λ e. cc;
      some_left = λ e. cc;
      cut = λ e. absurd (clash e);
    })
    | inr left ↦ rw left (record {
      not_no_doc = λ e. cc;
      full_number = λ e. eqb_ℤ→eq (pos (length ranked)) num same;
      some_left = λ e z. ground (arith, ap length z);
      cut = λ e. truncated_lem top_n ranked;
    })
  ])
  | inr other ↦ rw other (record {
    not_no_doc = λ e. cc;
    full_number = λ e. cc;
    some_left = λ e. cc;
    cut = λ e. absurd (wrong e);
  })
]
  where
    clash : rrc_empty_rank_result ≡ rrc_ok → ⊥
    clash e = cc

    wrong : rrc_error ≡ rrc_ok → ⊥
    wrong e = cc

not_ok : rrc_no_candidate ≡ rrc_ok → ⊥
not_ok c = cc

cons≢nil : {x : StoryProfile} {xs : List StoryProfile} → x ∷ xs ≡ [] → ⊥
cons≢nil c = cc

module _ (get_user_profile : Text → UserProfile → ℕ × UserProfile)
    (get_profile : ℕ → StoryProfile → StoryProfile × Bool) (city_hash64 : Text → ℕ)
    (select : Text → Option Rank) where
  abbrev pub user_of : RecommendationRequest → UserProfile
  user_of request = (get_user_profile request.uid fresh_profile).1

  abbrev pub story_of : RecommendationRequest → StoryProfile
  story_of request = (get_profile (city_hash64 request.url) fresh_story).0

  abbrev pub keywords_of : RecommendationRequest → List RetrievalRequestInfo
  keywords_of request = retrieval_request (user_of request) (story_of request)

  abbrev pub candidates_of : RecommendationRequest → RetrievalResponse → List StoryProfile
  candidates_of request reply =
      collect_candidates (λ id. get_profile id fresh_story) (user_of request).history []
        reply.results

  -- The answer to a request, from what the retrieval replied.
  pub record Served (request : RecommendationRequest) (results : List RecommendationResult)
      (reply : RetrievalResponse) (r : RecommendationResponse) : Type 0 where
    pub not_no_doc : r.response_code ≢ rrc_no_doc
    -- An answer with the code for success is the front of the plugin's ranking of the candidates.
    pub served :
        r.response_code ≡ rrc_ok
        → (rank : Rank) × (select (user_of request).uid ≡ some rank)
          × (candidates_of request reply ≢ [])
          × Ranked request.top_n
              (rank
                (user_of request)
                (story_of request)
                (candidates_of request reply)
                results
                false)
              r

  module _ (plugins : (id : Text) → select id ≢ none) (retrieval : _) where
    rank_candidates_lem :
        (request : RecommendationRequest) (results : List RecommendationResult)
        (reply : RetrievalResponse)
        → (r : RecommendationResponse) × (rank_candidates get_user_profile get_profile city_hash64
              retrieval select request.top_n
              (user_of request)
              (story_of request)
              (candidates_of request reply)
              results
            ≡ some r)
          × Served request results reply r
    unfolding rank_candidates
    rank_candidates_lem request results reply =
        go (candidates_of request reply) refl (select (user_of request).uid) refl
      where
        go :
            (cs : List StoryProfile)
            → candidates_of request reply ≡ cs
            → (o : Option Rank) → select (user_of request).uid ≡ o
            → (r : RecommendationResponse) × (rank_candidates get_user_profile get_profile
                  city_hash64 retrieval select request.top_n
                  (user_of request)
                  (story_of request)
                  (candidates_of request reply)
                  results
                ≡ some r)
              × Served request results reply r
        go [] e o f = (
          record { response_code = rrc_no_candidate; results = results },
          rw e refl,
          record { not_no_doc = λ c. cc; served = λ c. absurd (not_ok c) },
        )
        go (c ∷ cs) e none f = absurd (plugins (user_of request).uid f)
        go (c ∷ cs) e (some rank) f =
            let ranked = rank (user_of request) (story_of request) (c ∷ cs) results false in
            let ne : (length (c ∷ cs) == 0) ≡ false = ground arith in
            let l = after_rank_lem request.top_n ranked.0 ranked.1 in
            (
              after_rank request.top_n ranked,
              rw e (rw ne (rw f refl)),
              record {
                not_no_doc = l.not_no_doc;
                served = λ code. (rank, f, (λ z. cons≢nil (sym e ∙ z)), rw e l);
              },
            )

  -- For a story that is stored, over an index of sound lists and with a plugin for every user, a
  -- query ends without a crash. The retrieval for the keywords of the user and of the story gives the
  -- best documents; the answer is never that there is none; and an answer with the code for
  -- success is the front, as long as the request says, of what the plugin made of the candidates.
  pub query_lem :
      (plugins : (id : Text) → select id ≢ none) (under : ℕ → ℕ → Bool)
      (sort : List RetrievalResult → List RetrievalResult) (max_doc_return : ℕ)
      → IsSort sort
      → (s : InstantIndex) (seen : ℕ → List Posting) (request : RecommendationRequest)
        (results : List RecommendationResult)
      → Shows s seen
      → (get_profile (city_hash64 request.url) fresh_story).1 ≡ true
      → (r : RecommendationResponse) × (reply : RetrievalResponse) × (query get_user_profile
            get_profile city_hash64
            (retrieve under sort max_doc_return s)
            select
            request
            results
          ≡ some r)
        × Replied under max_doc_return
            (length (keywords_of request))
            s
            (λ d. hits seen d (keywords_of request))
            reply
        × Served request results reply r
  unfolding query
  query_lem plugins under sort max_doc_return is_sort s seen request results shows stored =
      let retrieval = retrieve under sort max_doc_return s in
      let (reply, run, replied) =
        retrieve_lem under sort max_doc_return is_sort s seen (keywords_of request) shows in
      let (r, run', served) = rank_candidates_lem plugins retrieval request results reply in
      (r, reply, rw stored (rw run (rw (replied.code) run')), replied, served)
