-- ===== src/Indexing/Interleaving/Tokens.antt =====
-- Which tokens of src/indexing have a posting list: those that the builder and the cleaner look up have
-- one.
use recomm_engine.Prelude.{
  ℕ, ◌≡◌, ◌≢◌, ◌⊎◌, inl, inr, refl, sym, subst, ◌∙◌, true, Bool-cases, Option-cases, none, some,
  List, [], ◌∷◌, arith, All, elem, ◌==◌,
}
use recomm_engine.Prelude.Int.{ℤ}
use recomm_engine.Prelude.Maps.{Map, find, assign, find-assign}
use recomm_engine.Indexing.PostingList.{PostingList}
use recomm_engine.Indexing.IndexBuildThread.{new_tokens, create_lists}
use recomm_engine.Indexing.Interleaving.{keys}
use recomm_engine.Indexing.Interleaving.Sound.{IsSound-mono, AllSound, new-IsSound, assign-AllSound}

-- The token has a list.
abbrev pub Has : Map PostingList → ℕ → Type 0
Has m k = find k m ≢ none

-- A keyword has a list, or gets one.
abbrev pub Covered : Map PostingList → List ℕ → Map ℤ → Type 0
Covered m tokens [] = Unit
Covered m tokens ((k, w) ∷ kw) = (Has m k ⊎ (elem k tokens ≡ true)) × Covered m tokens kw

abbrev pub AllHave : Map PostingList → Map ℤ → Type 0
AllHave m [] = Unit
AllHave m ((k, w) ∷ kw) = Has m k × AllHave m kw

-- Of the second map every token of the first has a list.
abbrev pub Grows : Map PostingList → Map PostingList → Type 0
Grows m m' = (k : ℕ) → Has m k → Has m' k

pub assign-Grows : (i : ℕ) (p : PostingList) (m : Map PostingList) → Grows m (assign i p m)
assign-Grows i p m k h = ground (arith, h, find-assign k i p m)

pub Covered-Grows :
    (m m' : Map PostingList) (tokens : List ℕ) (kw : Map ℤ)
    → Grows m m'
    → Covered m tokens kw
    → Covered m' tokens kw
Covered-Grows m m' tokens [] g h = tt
Covered-Grows m m' tokens ((k, w) ∷ kw) g h =
    (elim (h.0) [ inl has ↦ inl (g k has) | inr new ↦ inr new ], Covered-Grows m m' tokens kw g h.1)

pub AllHave-Grows :
    (m m' : Map PostingList) (kw : Map ℤ) → Grows m m' → AllHave m kw → AllHave m' kw
AllHave-Grows m m' [] g h = tt
AllHave-Grows m m' ((k, w) ∷ kw) g h = (g k h.0, AllHave-Grows m m' kw g h.1)

pub Tokens-Grows :
    (m m' : Map PostingList) (tokens : List ℕ)
    → Grows m m'
    → All (Has m) tokens
    → All (Has m') tokens
Tokens-Grows m m' [] g h = tt
Tokens-Grows m m' (k ∷ tokens) g h = (g k h.0, Tokens-Grows m m' tokens g h.1)

Covered-more :
    (m : Map PostingList) (k : ℕ) (tokens : List ℕ) (kw : Map ℤ)
    → Covered m tokens kw
    → Covered m (k ∷ tokens) kw
Covered-more m k tokens [] h = tt
Covered-more m k tokens ((j, w) ∷ kw) h = (
  elim (h.0) [ inl has ↦ inl has | inr new ↦ inr (ground (arith, new)) ],
  Covered-more m k tokens kw h.1,
)

pub new_tokens-Covered : (kw : Map ℤ) (m : Map PostingList) → Covered m (new_tokens kw m) kw
new_tokens-Covered [] m = tt
new_tokens-Covered ((k, w) ∷ kw) m =
    let rest = new_tokens-Covered kw m in
    let goal : List ℕ → Type 0 = λ tokens. Covered m tokens ((k, w) ∷ kw) in
    elim (Option-cases (find k m)) [
      | inl new ↦
          subst goal (sym (added new))
            (inr (ground arith), Covered-more m k (new_tokens kw m) kw rest)
      | inr (p, old) ↦ subst goal (sym (skipped old)) ((inl λ e. cc (sym old ∙ e)), rest)
    ]
  where
    added : find k m ≡ none → new_tokens ((k, w) ∷ kw) m ≡ k ∷ new_tokens kw m
    added e = unfold new_tokens in rw e refl

    skipped : {p : PostingList} → find k m ≡ some p → new_tokens ((k, w) ∷ kw) m ≡ new_tokens kw m
    skipped e = unfold new_tokens in rw e refl

pub keys-Has : (m : Map PostingList) → All (Has m) (keys m)
unfolding find
keys-Has [] = tt
keys-Has ((k, p) ∷ m) =
    (ground arith, Tokens-Grows m ((k, p) ∷ m) (keys m) (λ i h. ground (arith, h)) (keys-Has m))

-- The lists that are made for new tokens.
pub record Created (n : ℕ) (tokens : List ℕ) (m : Map PostingList) : Type 0 where
  pub index : Map PostingList
  pub run : create_lists tokens m ≡ some index
  pub sound : AllSound n index
  pub grown : Grows m index
  pub made : (k : ℕ) → elem k tokens ≡ true → Has index k

pub create_lists-Created :
    (n : ℕ) (tokens : List ℕ) (m : Map PostingList) → AllSound n m → Created n tokens m
unfolding create_lists
create_lists-Created n [] m s = record {
  index = m;
  run = refl;
  sound = s;
  grown = λ k h. h;
  made = λ k e. cc;
}
create_lists-Created n (i ∷ tokens) m s =
    let (plist, run, new) = new-IsSound in
    let m1 = assign i plist m in
    let r =
      create_lists-Created n tokens m1
        (assign-AllSound n i plist m (IsSound-mono 0 n plist (omega arith) new) s) in
    record {
      index = r.index;
      run = rw run (r.run);
      sound = r.sound;
      grown = λ k h. r.grown k (assign-Grows i plist m k h);
      made = λ k e. elim (Bool-cases (i == k)) [
        | inl hit ↦ r.grown k (ground (arith, hit, find-assign k i plist m))
        | inr miss ↦ r.made k (ground (arith, miss, e))
      ];
    }

pub Covered-Created :
    (n : ℕ) (tokens : List ℕ) (m : Map PostingList) (r : Created n tokens m) (kw : Map ℤ)
    → Covered m tokens kw
    → AllHave r.index kw
Covered-Created n tokens m r [] h = tt
Covered-Created n tokens m r ((k, w) ∷ kw) h = (
  elim (h.0) [ inl has ↦ r.grown k has | inr new ↦ r.made k new ],
  Covered-Created n tokens m r kw h.1,
)
