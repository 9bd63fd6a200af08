-- ===== src/Handlers/Query/Candidates.antt =====
-- The candidates that src/recomm_engine_handler.cc hands to the plugin.
use recomm_engine.Prelude.{
  ℕ, ◌≡◌, refl, sym, ap, subst, ◌∙◌, Bool, true, false, ◌||◌, List, [], ◌∷◌, All, elem, ◌==◌,
  Bool-cases, ==_iff, inl, inr,
}
use recomm_engine.Indexing.Base.{StoryProfile}
use recomm_engine.Retrieval.Handler.{RetrievalResult}
use recomm_engine.Retrieval.Handler.Sorting.{In}
use recomm_engine.Handlers.Query.{collect_candidates}

-- No signature is among these, and none stands twice.
abbrev pub Distinct : List ℕ → List StoryProfile → Type 0
Distinct old [] = Unit
Distinct old (c ∷ cs) = (elem c.signature old ≡ false) × Distinct (c.signature ∷ old) cs

abbrev pub signatures : List StoryProfile → List ℕ
signatures [] = []
signatures (c ∷ cs) = c.signature ∷ signatures cs

module _ (get_profile : ℕ → StoryProfile × Bool) (history : List ℕ) where
  -- The story of a result that the user has not seen.
  abbrev pub Fresh : List RetrievalResult → StoryProfile → Type 0
  Fresh results c =
      (r : RetrievalResult) × In r results
      × (elem r.story_id history ≡ false)
      × (get_profile r.story_id ≡ (c, true))

  -- These are the candidates of a list of results, where the signatures `existence` are taken.
  pub record Collected (existence : List ℕ) (results : List RetrievalResult)
      (cs : List StoryProfile) : Type 0 where
    pub distinct : Distinct existence cs
    pub fresh : All (Fresh results) cs
    pub complete :
        (c : StoryProfile)
        → Fresh results c
        → (elem c.signature existence || elem c.signature (signatures cs)) ≡ true

  Fresh-cons :
      (r : RetrievalResult) (results : List RetrievalResult) (cs : List StoryProfile)
      → All (Fresh results) cs
      → All (Fresh (r ∷ results)) cs
  Fresh-cons r results [] a = tt
  Fresh-cons r results (c ∷ cs) ((q, i, h, g), a) = ((q, inr i, h, g), Fresh-cons r results cs a)

  -- A result whose story is no candidate, or one whose signature is taken.
  skipped :
      (existence : List ℕ) (r : RetrievalResult) (results : List RetrievalResult)
      (cs : List StoryProfile)
      → Collected existence results cs
      → ((c : StoryProfile)
          → elem r.story_id history ≡ false
          → get_profile r.story_id ≡ (c, true)
          → elem c.signature existence ≡ true)
      → Collected existence (r ∷ results) cs
  skipped existence r results cs h head = record {
    distinct = h.distinct;
    fresh = Fresh-cons r results cs h.fresh;
    complete = λ c (q, i, new, got). elim i [
      | inl e ↦
          let taken =
            head c (subst (λ q. elem q.story_id history ≡ false) e new)
              (subst (λ q. get_profile q.story_id ≡ (c, true)) e got) in
          rw taken refl
      | inr j ↦ h.complete c (q, j, new, got)
    ];
  }

  or_swap : (a b c : Bool) → ((a || b) || c) ≡ true → (b || (a || c)) ≡ true
  or_swap true true c h = refl
  or_swap true false c h = refl
  or_swap false b c h = h

  kept :
      (existence : List ℕ) (r : RetrievalResult) (results : List RetrievalResult) (c : StoryProfile)
      (cs : List StoryProfile)
      → elem r.story_id history ≡ false
      → get_profile r.story_id ≡ (c, true)
      → elem c.signature existence ≡ false
      → Collected (c.signature ∷ existence) results cs
      → Collected existence (r ∷ results) (c ∷ cs)
  kept existence r results c cs new got first h = record {
    distinct = (first, h.distinct);
    fresh = ((r, inl refl, new, got), Fresh-cons r results cs h.fresh);
    complete = λ d (q, i, new', got'). elim i [
      | inl e ↦
          let same : d ≡ c = ap (λ p. p.0) (sym got' ∙ ap (λ q. get_profile q.story_id) e ∙ got) in
          let hit : (c.signature == d.signature) ≡ true =
            (==_iff c.signature d.signature).1 (ap (λ p. p.signature) (sym same)) in
          or_swap (c.signature == d.signature) (elem d.signature existence) _ (rw hit refl)
      | inr j ↦
          or_swap (c.signature == d.signature) (elem d.signature existence) _
            (h.complete d (q, j, new', got'))
    ];
  }

  collect_candidates_from :
      (existence : List ℕ) (results : List RetrievalResult)
      → Collected existence results (collect_candidates get_profile history existence results)
  unfolding collect_candidates
  collect_candidates_from existence [] = record {
    distinct = tt;
    fresh = tt;
    complete = λ c (q, i, h, g). absurd i;
  }
  collect_candidates_from existence (r ∷ results) =
      let skip = collect_candidates_from existence results in
      let c = (get_profile r.story_id).0 in
      let keep = collect_candidates_from (c.signature ∷ existence) results in
      elim (Bool-cases (elem r.story_id history)) [
        | inl seen ↦ rw seen (skipped existence r results _ skip λ d new got. cc)
        | inr new ↦ rw new (elim (Bool-cases ((get_profile r.story_id).1)) [
          | inl found ↦ rw found (elim (Bool-cases (elem c.signature existence)) [
            | inl taken ↦ rw taken (
                skipped existence r results _ skip
                  λ d new got. subst (λ p. elem p.0.signature existence ≡ true) got taken)
            | inr first ↦ rw first (kept existence r results c _ new (λ i. (c, found i)) first keep)
          ])
          | inr missing ↦ rw missing (
              skipped existence r results _ skip
                λ d new got. (let clash : false ≡ true = sym missing ∙ ap (λ p. p.1) got in cc))
        ])
      ]

  -- The candidates are profiles of results that are not in the user's history, with distinct
  -- signatures; and the signature of each such profile is that of a candidate.
  pub collect_candidates_lem :
      (results : List RetrievalResult)
      → Collected [] results (collect_candidates get_profile history [] results)
  collect_candidates_lem results = collect_candidates_from [] results
