-- ===== src/Indexing/IndexBuildThread/Refines.antt =====
-- AddStoryInternal of src/indexing/index_build_thread.cc carries out its specification on the
-- abstract index, and does not crash.
use recomm_engine.Prelude.{
  ℕ, suc, ◌+◌, ◌<◌, ◌≡◌, ◌≢◌, refl, sym, ap, subst, ◌∙◌, Option, none, some, List, [], ◌∷◌, length,
  arith, All, elem, Option-cases, inl, inr, true, if◌then◌else◌, ==_refl, ◌%◌,
}
use recomm_engine.Prelude.Maps.{Map, find, assign, find-assign}
use recomm_engine.Prelude.Int.{ℤ, pos, to_int32}
use recomm_engine.Util.LocklessList.{u32_mod}
use recomm_engine.Util.LocklessList.Chain.{length-values}
use recomm_engine.Util.LocklessList.Lifetime.{new_lem}
use recomm_engine.Prelude.Texts.{Text}
use recomm_engine.Indexing.Base.{Posting, zero_posting, StoryAddingRequest, to_float}
use recomm_engine.Indexing.PostingList
use recomm_engine.Indexing.PostingList.{PostingList, push_posting}
use recomm_engine.Indexing.PostingList.Writer.{push_posting_lem}
use recomm_engine.Indexing.State.{InstantIndex}
use recomm_engine.Indexing.State.Represents.{
  Holds, Represents, Found, find-Represents, assign-Represents, Short, Short-mono, find-Short,
  assign-Short,
}
use recomm_engine.Indexing.IndexBuildThread.{
  register, new_tokens, create_lists, add_postings, add_story_internal,
}

abbrev pub Abstract : Type 0
Abstract = Map (List Posting)

-- An empty list for each of the tokens.
unfoldable pub create_empty : List ℕ → Abstract → Abstract
create_empty [] M = M
create_empty (k ∷ ks) M = create_empty ks (assign k [] M)

abbrev pub or_nil : Option (List Posting) → List Posting
or_nil none = []
or_nil (some vs) = vs

abbrev pub posting_of : (ℕ → ℕ) → ℕ → ℕ → ℤ → Posting
posting_of clock i local_id w = record {
  local_docid = local_id;
  weight = to_float w;
  timestamp = to_int32 (pos (clock i));
}

-- A posting in front of each keyword's list.
unfoldable pub post : (ℕ → ℕ) → ℕ → ℕ → Map ℤ → Abstract → Abstract
post clock i local_id [] M = M
post clock i local_id ((k, w) ∷ kw) M =
    post clock (i + 1) local_id kw (assign k (posting_of clock i local_id w ∷ or_nil (find k M)) M)

unfoldable pub add_story_spec : (ℕ → ℕ) → ℕ → Map ℤ → Abstract → Abstract
add_story_spec clock local_id kw M = post clock 0 local_id kw (create_empty (new_tokens kw M) M)

new_posting_list : (plist : PostingList) × (PostingList.new ≡ some plist) × Holds plist []
unfolding PostingList.new
new_posting_list =
    let (l, run, is) = new_lem zero_posting in
    (
      record { inner_list = l; end_mark = 0 },
      rw run,
      record { cells = []; is_list = is; same = refl },
    )

create_lists_lem :
    (ks : List ℕ) (m : Map PostingList) (M : Abstract)
    → Represents m M
    → (m' : Map PostingList) × (create_lists ks m ≡ some m') × Represents m' (create_empty ks M)
unfolding create_lists create_empty
create_lists_lem [] m M r = (m, refl, r)
create_lists_lem (k ∷ ks) m M r =
    let (plist, run, h) = new_posting_list in
    let (m', run', r') =
      create_lists_lem ks (assign k plist m) (assign k [] M)
        (assign-Represents k plist [] m M h r) in
    (m', rw run run', r')

create_empty-Short : (n : ℕ) (ks : List ℕ) (M : Abstract) → Short n M → Short n (create_empty ks M)
unfolding create_empty
create_empty-Short n [] M s = s
create_empty-Short n (k ∷ ks) M s =
    create_empty-Short n ks (assign k [] M) (assign-Short n k [] M (omega arith) s)

-- Every keyword has a list.
abbrev pub Known : Map ℤ → Abstract → Type 0
Known kw M = All (λ c. find c.0 M ≢ none) kw

Known-assign :
    (k : ℕ) (vs : List Posting) (kw : Map ℤ) (M : Abstract) → Known kw M → Known kw (assign k vs M)
Known-assign k vs [] M h = tt
Known-assign k vs ((j, w) ∷ kw) M h =
    (ground (arith, h.0, find-assign j k vs M), Known-assign k vs kw M h.1)

-- The list of a known token.
record Held (k : ℕ) (m : Map PostingList) (M : Abstract) : Type 0 where
  plist : PostingList
  list : List Posting
  found : find k m ≡ some plist
  listed : find k M ≡ some list
  holds : Holds plist list

Held-of :
    (k : ℕ) (m : Map PostingList) (M : Abstract) → Represents m M → find k M ≢ none → Held k m M
Held-of k m M r h = go (find k m) (find k M) refl refl (find-Represents k m M r)
  where
    go :
        (o : Option PostingList) (p : Option (List Posting))
        → find k m ≡ o
        → find k M ≡ p
        → Found o p
        → Held k m M
    go none none e f x = absurd (h f)
    go none (some vs) e f x = absurd x
    go (some plist) none e f x = absurd x
    go (some plist) (some vs) e f x = record {
      plist = plist;
      list = vs;
      found = e;
      listed = f;
      holds = x;
    }

push_posting-Holds :
    (v : Posting) (plist : PostingList) (vs : List Posting)
    → Holds plist vs
    → length vs + 2 < u32_mod
    → (plist' : PostingList) × (push_posting v plist ≡ some plist') × Holds plist' (v ∷ vs)
push_posting-Holds v plist vs h room =
    let size : length h.cells ≡ length vs = sym (length-values h.cells) ∙ ap length h.same in
    let (plist', p, run, is, mark, front) =
      push_posting_lem v plist h.cells h.is_list (omega arith) in
    (plist', run, record { cells = (p, v) ∷ h.cells; is_list = is; same = ap (◌∷◌ v) h.same })

add_postings_lem :
    (clock : ℕ → ℕ) (i local_id n : ℕ) (kw : Map ℤ) (m : Map PostingList) (M : Abstract)
    → Represents m M
    → Known kw M
    → Short n M
    → n + length kw + 2 < u32_mod
    → (m' : Map PostingList) × (add_postings clock i local_id kw m ≡ some m')
      × Represents m' (post clock i local_id kw M)
      × Short (n + length kw) (post clock i local_id kw M)
unfolding add_postings post
add_postings_lem clock i local_id n [] m M r known s room =
    (m, refl, r, Short-mono n (n + 0) M (omega arith) s)
add_postings_lem clock i local_id n ((k, w) ∷ kw) m M r known s room =
    let v = posting_of clock i local_id w in
    let h = Held-of k m M r known.0 in
    let short = find-Short n k M s h.listed in
    let (plist, run, held) = push_posting-Holds v h.plist h.list h.holds (omega arith) in
    let M' = assign k (v ∷ h.list) M in
    let (m', run', r', s') =
      add_postings_lem clock (i + 1) local_id (n + 1) kw (assign k plist m) M'
        (assign-Represents k plist (v ∷ h.list) m M held r)
        (Known-assign k (v ∷ h.list) kw M known.1)
        (assign-Short (n + 1) k (v ∷ h.list) M (omega arith)
          (Short-mono n (n + 1) M (omega arith) s))
        (omega arith) in
    let size : n + 1 + length kw ≡ n + suc (length kw) = omega arith in
    (
      m',
      rw (h.found) (rw run run'),
      rw (h.listed) r',
      rw (h.listed) (subst (λ k. Short k (post clock (i + 1) local_id kw M')) size s'),
    )

-- The tokens that are new are so in both views.
pub new_tokens-Represents :
    (kw : Map ℤ) (m : Map PostingList) (M : Abstract)
    → Represents m M
    → new_tokens kw m ≡ new_tokens kw M
unfolding new_tokens
new_tokens-Represents [] m M r = refl
new_tokens-Represents ((k, w) ∷ kw) m M r =
    go (new_tokens-Represents kw m M r) (find k m) (find k M) refl refl (find-Represents k m M r)
  where
    go :
        new_tokens kw m ≡ new_tokens kw M
        → (o : Option PostingList) (p : Option (List Posting)) → find k m ≡ o
        → find k M ≡ p
        → Found o p
        → new_tokens ((k, w) ∷ kw) m ≡ new_tokens ((k, w) ∷ kw) M
    go rest none none e f x = rw (e, f) (ap (◌∷◌ k) rest)
    go rest none (some vs) e f x = absurd x
    go rest (some plist) none e f x = absurd x
    go rest (some plist) (some vs) e f x = rw (e, f) rest

pub find-create_empty :
    (i : ℕ) (ks : List ℕ) (M : Abstract)
    → find i (create_empty ks M) ≡ (if elem i ks then some [] else find i M)
unfolding create_empty
find-create_empty i [] M = refl
find-create_empty i (k ∷ ks) M =
    ground (arith, find-create_empty i ks (assign k [] M), find-assign i k [] M)

pub new_tokens-none :
    (k : ℕ) (w : ℤ) (kw : Map ℤ) (M : Abstract)
    → find k M ≡ none
    → new_tokens ((k, w) ∷ kw) M ≡ k ∷ new_tokens kw M
unfolding new_tokens
new_tokens-none k w kw M e = rw e

pub new_tokens-some :
    (k : ℕ) (w : ℤ) (kw : Map ℤ) (M : Abstract) {vs : List Posting}
    → find k M ≡ some vs
    → new_tokens ((k, w) ∷ kw) M ≡ new_tokens kw M
unfolding new_tokens
new_tokens-some k w kw M e = rw e

pub Known-create_empty :
    (kw : Map ℤ) (ks : List ℕ) (M : Abstract)
    → ((i : ℕ) → elem i (new_tokens kw M) ≡ true → elem i ks ≡ true)
    → Known kw (create_empty ks M)
Known-create_empty [] ks M h = tt
Known-create_empty ((k, w) ∷ kw) ks M h = elim (Option-cases (find k M)) [
  | inl new ↦
      let split = new_tokens-none k w kw M new in
      let there : elem k ks ≡ true = h k (ap (elem k) split ∙ ground (arith, ==_refl k)) in
      (
        ground (arith, find-create_empty k ks M),
        Known-create_empty kw ks M (λ i e. h i (ap (elem i) split ∙ ground arith)),
      )
  | inr (vs, old) ↦
      let split = new_tokens-some k w kw M old in
      (
        ground (arith, find-create_empty k ks M),
        Known-create_empty kw ks M (λ i e. h i (ap (elem i) split ∙ e)),
      )
]

pub record Added (city_hash64 : Text → ℕ) (clock : ℕ → ℕ) (req : StoryAddingRequest)
    (s : InstantIndex) (M : Abstract) (n : ℕ) : Type 0 where
  pub state : InstantIndex
  pub run : add_story_internal city_hash64 clock req s ≡ some state
  pub represents :
      Represents state.index (add_story_spec clock s.local_docid_counter req.story.keywords M)
  pub short :
      Short
        (n + length req.story.keywords)
        (add_story_spec clock s.local_docid_counter req.story.keywords M)
  pub att : state.att ≡ assign s.local_docid_counter (city_hash64 req.story.story_id) s.att
  pub counter : state.local_docid_counter ≡ (s.local_docid_counter + 1) % u32_mod

-- On an index whose lists are sound and stay below 2^32 - 2 postings, adding a story does not crash;
-- the new index represents what the specification makes of the old one, the attachment is stored
-- under the old counter, and the counter moves on.
pub add_story_internal_refines :
    (city_hash64 : Text → ℕ) (clock : ℕ → ℕ) (req : StoryAddingRequest) (s : InstantIndex)
    (M : Abstract) (n : ℕ)
    → Represents s.index M
    → Short n M
    → n + length req.story.keywords + 2 < u32_mod
    → Added city_hash64 clock req s M n
unfolding add_story_internal register add_story_spec
add_story_internal_refines city_hash64 clock req s M n r short room =
    let kw = req.story.keywords in
    let ks = new_tokens kw M in
    let (m1, run1, r1) = create_lists_lem ks s.index M r in
    let (m2, run2, r2, s2) =
      add_postings_lem clock 0 s.local_docid_counter n kw m1 (create_empty ks M) r1
        (Known-create_empty kw ks M (λ i e. e)) (create_empty-Short n ks M short) room in
    record {
      state = record ((register city_hash64 req.story s).0) { index = m2 };
      run = rw (new_tokens-Represents kw s.index M r) (rw run1 (rw run2));
      represents = r2;
      short = s2;
      att = refl;
      counter = refl;
    }
