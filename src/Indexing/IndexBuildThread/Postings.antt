-- ===== src/Indexing/IndexBuildThread/Postings.antt =====
-- What a token's list holds after AddStoryInternal of src/indexing/index_build_thread.cc.
use recomm_engine.Prelude.{
  ℕ, ◌+◌, ltb, ◌%◌, ◌^◌, ◌<◌, All, length, ◌≤◌, ◌≡◌, ◌≢◌, refl, sym, ap, ◌∙◌, ==_iff, Option, none,
  some, List, [], ◌∷◌, arith, elem, true, false, Bool, if◌then◌else◌, ◌==◌, Bool-cases,
  Option-cases, inl, inr,
}
use recomm_engine.Prelude.Maps.{Map, find, assign, find-assign, Above, Above-IsOrdered, IsOrdered}
use recomm_engine.Prelude.Int.{ℤ, pos, negsuc, pos_part, neg_part, to_int32}
use recomm_engine.Indexing.Base.{Posting, StoryAddingRequest, round_float, to_float}
use recomm_engine.Prelude.Texts.{Text}
use recomm_engine.Util.LocklessList.{u32_mod}
use recomm_engine.Indexing.State.{InstantIndex}
use recomm_engine.Indexing.State.Represents.{Represents, Short}
use recomm_engine.Indexing.IndexBuildThread.{new_tokens, add_story_internal}
use recomm_engine.Indexing.IndexBuildThread.Refines.{
  Abstract, create_empty, or_nil, posting_of, post, add_story_spec, find-create_empty,
  new_tokens-none, new_tokens-some, add_story_internal_refines,
}

-- The posting that a token gets: that of its place among the keywords.
unfoldable pub posted : (ℕ → ℕ) → ℕ → ℕ → Map ℤ → ℕ → Option Posting
posted clock n local_id [] i = none
posted clock n local_id ((k, w) ∷ kw) i =
    if k == i then some (posting_of clock n local_id w) else posted clock (n + 1) local_id kw i

abbrev pub add_front : Option Posting → Option (List Posting) → Option (List Posting)
add_front none o = o
add_front (some v) o = some (v ∷ or_nil o)

posted-Above :
    (clock : ℕ → ℕ) (n local_id k i : ℕ) (kw : Map ℤ)
    → Above k kw
    → i ≤ k
    → posted clock n local_id kw i ≡ none
unfolding posted
posted-Above clock n local_id k i [] a h = refl
posted-Above clock n local_id k i ((j, w) ∷ kw) a h =
    ground (arith, posted-Above clock (n + 1) local_id j i kw a.1)

find-post :
    (clock : ℕ → ℕ) (n local_id i : ℕ) (kw : Map ℤ) (M : Abstract)
    → IsOrdered kw
    → find i (post clock n local_id kw M) ≡ add_front (posted clock n local_id kw i) (find i M)
unfolding post posted
find-post clock n local_id i [] M o = refl
find-post clock n local_id i ((k, w) ∷ kw) M o =
    let vs = posting_of clock n local_id w ∷ or_nil (find k M) in
    ground (
      arith,
      find-post clock (n + 1) local_id i kw (assign k vs M) (Above-IsOrdered k kw o),
      find-assign i k vs M,
      posted-Above clock (n + 1) local_id k i kw o,
    )

-- A new token is a keyword with no list.
elem-new_tokens :
    (clock : ℕ → ℕ) (n local_id i : ℕ) (kw : Map ℤ) (M : Abstract)
    → elem i (new_tokens kw M) ≡ true
    → (find i M ≡ none) × (posted clock n local_id kw i ≢ none)
unfolding posted new_tokens
elem-new_tokens clock n local_id i [] M h = cc
elem-new_tokens clock n local_id i ((k, w) ∷ kw) M h = elim (Bool-cases (k == i)) [
  | inl hit ↦ elim (Option-cases (find k M)) [
    | inl new ↦ (ap (λ j. find j M) (sym ((==_iff k i).0 hit)) ∙ new, ground arith)
    | inr (vs, old) ↦ ground (
      arith,
      ap (elem i) (new_tokens-some k w kw M old),
      elem-new_tokens clock (n + 1) local_id i kw M,
    )
  ]
  | inr miss ↦ elim (Option-cases (find k M)) [
    | inl new ↦ ground (
      arith,
      ap (elem i) (new_tokens-none k w kw M new),
      elem-new_tokens clock (n + 1) local_id i kw M,
    )
    | inr (vs, old) ↦ ground (
      arith,
      ap (elem i) (new_tokens-some k w kw M old),
      elem-new_tokens clock (n + 1) local_id i kw M,
    )
  ]
]

add_front-nil :
    (b : Bool) (p : Option Posting) (o : Option (List Posting))
    → (b ≡ true → (o ≡ none) × (p ≢ none))
    → add_front p (if b then some [] else o) ≡ add_front p o
add_front-nil false p o h = refl
add_front-nil true none o h = absurd ((h refl).1 refl)
add_front-nil true (some v) o h = ap (λ l. some (v ∷ or_nil l)) (sym (h refl).0)

-- After a story each of its keywords has one more posting, in front, with the story's local id; every
-- other token's list is what it was.
pub find-add_story_spec :
    (clock : ℕ → ℕ) (local_id i : ℕ) (kw : Map ℤ) (M : Abstract)
    → IsOrdered kw
    → find i (add_story_spec clock local_id kw M)
      ≡ add_front (posted clock 0 local_id kw i) (find i M)
unfolding add_story_spec
find-add_story_spec clock local_id i kw M o =
    find-post clock 0 local_id i kw (create_empty (new_tokens kw M) M) o
    ∙ ap (add_front (posted clock 0 local_id kw i)) (find-create_empty i (new_tokens kw M) M)
    ∙ add_front-nil (elem i (new_tokens kw M)) _ (find i M)
        (elem-new_tokens clock 0 local_id i kw M)

-- The same posting with the numbers as they are, before they become a `float` and an `int`.
abbrev pub placed : (ℕ → ℕ) → ℕ → ℕ → Map ℤ → ℕ → Option Posting
placed clock n local_id [] i = none
placed clock n local_id ((k, w) ∷ kw) i =
    if k == i
    then some (record { local_docid = local_id; weight = w; timestamp = pos (clock n) })
    else placed clock (n + 1) local_id kw i

-- A `float` holds this weight exactly.
abbrev pub IsExact : ℕ × ℤ → Type 0
IsExact c = (pos_part c.1 < 2 ^ 24) × (neg_part c.1 < 2 ^ 24)

round_float-small : (n : ℕ) → n < 2 ^ 24 → round_float n ≡ n
unfolding round_float
round_float-small n h = let small : ltb n (2 ^ 24) ≡ true = ground arith in rw small refl

to_float-IsExact : (k : ℕ) (w : ℤ) → IsExact (k, w) → to_float w ≡ w
unfolding to_float
to_float-IsExact k (pos n) h = ap pos (round_float-small n h.0)
to_float-IsExact k (negsuc n) h =
    ap negsuc (omega (arith, round_float-small (n + 1) (omega (arith, h))))

to_int32-small : (n : ℕ) → n < 2 ^ 31 → to_int32 (pos n) ≡ pos n
unfolding to_int32
to_int32-small n h = ground arith

posted-exact :
    (clock : ℕ → ℕ) (n local_id : ℕ) (kw : Map ℤ)
    → All IsExact kw
    → ((j : ℕ) → clock j < 2 ^ 31)
    → (i : ℕ) → posted clock n local_id kw i ≡ placed clock n local_id kw i
unfolding posted
posted-exact clock n local_id [] small early i = refl
posted-exact clock n local_id ((k, w) ∷ kw) small early i = elim (Bool-cases (k == i)) [
  | inl hit ↦
      rw hit (rw (to_float-IsExact k w small.0) (rw (to_int32-small (clock n) (early n)) refl))
  | inr miss ↦ rw miss (posted-exact clock (n + 1) local_id kw small.1 early i)
]

-- The index and the translations after a story.
pub record Indexed (city_hash64 : Text → ℕ) (clock : ℕ → ℕ) (req : StoryAddingRequest)
    (s : InstantIndex) (M : Abstract) : Type 0 where
  pub state : InstantIndex
  pub run : add_story_internal city_hash64 clock req s ≡ some state
  pub contents : Abstract
  pub represents : Represents state.index contents
  pub lists :
      (k : ℕ)
      → find k contents
        ≡ add_front (posted clock 0 s.local_docid_counter req.story.keywords k) (find k M)
  pub exact :
      All IsExact req.story.keywords
      → ((j : ℕ) → clock j < 2 ^ 31)
      → (k : ℕ)
      → posted clock 0 s.local_docid_counter req.story.keywords k
        ≡ placed clock 0 s.local_docid_counter req.story.keywords k
  pub translations :
      (i : ℕ)
      → find i state.att ≡ (
          if s.local_docid_counter == i
          then some (city_hash64 req.story.story_id)
          else find i s.att)
  pub counter : state.local_docid_counter ≡ (s.local_docid_counter + 1) % u32_mod

-- On a sound index whose lists stay below 2^32 - 2 postings, AddStoryInternal does not crash. Then the
-- list of each keyword is what it was, or was empty if the token had none, with one posting more in
-- front, and the list of every other token is what it was. The posting has the counter for its local
-- id; its weight and time are those of the keyword and the clock, exactly if a weight is below 2^24
-- and the clock below 2^31. The story's hash is stored under the counter, over what stood there; every
-- other translation stays; and the counter moves on.
pub add_story_internal-Indexed :
    (city_hash64 : Text → ℕ) (clock : ℕ → ℕ) (req : StoryAddingRequest) (s : InstantIndex)
    (M : Abstract) (n : ℕ)
    → Represents s.index M
    → Short n M
    → IsOrdered req.story.keywords
    → n + length req.story.keywords + 2 < u32_mod
    → Indexed city_hash64 clock req s M
add_story_internal-Indexed city_hash64 clock req s M n r short ordered room =
    let added = add_story_internal_refines city_hash64 clock req s M n r short room in
    let id = s.local_docid_counter in
    record {
      state = added.state;
      run = added.run;
      contents = add_story_spec clock id req.story.keywords M;
      represents = added.represents;
      lists = λ k. find-add_story_spec clock id k req.story.keywords M ordered;
      exact = λ small early. posted-exact clock 0 id req.story.keywords small early;
      translations =
          λ i. ap (find i) added.att ∙ find-assign i id (city_hash64 req.story.story_id) s.att;
      counter = added.counter;
    }
