-- ===== src/Indexing/State/Represents.antt =====
-- The abstract view of the index of src/indexing/instant_index.h: for each token its postings,
-- newest first, with no addresses.
use recomm_engine.Prelude.{
  ℕ, ◌≤◌, ◌≡◌, refl, inl, inr, Option, none, some, List, [], ◌∷◌, length, arith, ltb, ◌==◌,
  Bool-cases,
}
use recomm_engine.Prelude.Maps.{Map, find, assign}
use recomm_engine.Util.LocklessList.Chain.{Cells, IsList, values}
use recomm_engine.Indexing.Base.{Posting}
use recomm_engine.Indexing.PostingList.{PostingList}

-- The list is sound and holds these postings.
pub record Holds (plist : PostingList) (vs : List Posting) : Type 0 where
  pub cells : Cells Posting
  pub is_list : IsList plist.inner_list cells
  pub same : values cells ≡ vs

abbrev pub Represents : Map PostingList → Map (List Posting) → Type 0
Represents [] [] = Unit
Represents [] (n ∷ M) = ⊥
Represents (m ∷ ms) [] = ⊥
Represents ((k, plist) ∷ m) ((j, vs) ∷ M) = (k ≡ j) × Holds plist vs × Represents m M

abbrev pub Found : Option PostingList → Option (List Posting) → Type 0
Found none none = Unit
Found none (some vs) = ⊥
Found (some plist) none = ⊥
Found (some plist) (some vs) = Holds plist vs

pub find-Represents :
    (i : ℕ) (m : Map PostingList) (M : Map (List Posting))
    → Represents m M
    → Found (find i m) (find i M)
unfolding find
find-Represents i [] [] r = tt
find-Represents i [] (n ∷ M) r = absurd r
find-Represents i (n ∷ m) [] r = absurd r
find-Represents i ((k, plist) ∷ m) ((j, vs) ∷ M) (e, h, r) = elim (Bool-cases (j == i)) [
  | inl hit ↦ rw e (rw hit h)
  | inr miss ↦ rw e (rw miss (find-Represents i m M r))
]

pub assign-Represents :
    (i : ℕ) (plist : PostingList) (vs : List Posting) (m : Map PostingList) (M : Map (List Posting))
    → Holds plist vs
    → Represents m M
    → Represents (assign i plist m) (assign i vs M)
unfolding assign
assign-Represents i plist vs [] [] h r = (refl, h, tt)
assign-Represents i plist vs [] (n ∷ M) h r = absurd r
assign-Represents i plist vs (n ∷ m) [] h r = absurd r
assign-Represents i plist vs ((k, p) ∷ m) ((j, ws) ∷ M) h (e, g, r) = elim (Bool-cases (ltb i j)) [
  | inl low ↦ rw e (rw low (refl, h, (refl, g, r)))
  | inr high ↦ rw e (
      rw high (elim (Bool-cases (j == i)) [
        | inl hit ↦ rw hit (refl, h, r)
        | inr miss ↦ rw miss (refl, g, assign-Represents i plist vs m M h r)
      ]))
]

-- No list is longer than `n`.
abbrev pub Short : ℕ → Map (List Posting) → Type 0
Short n [] = Unit
Short n ((k, vs) ∷ M) = (length vs ≤ n) × Short n M

pub Short-mono : (n k : ℕ) (M : Map (List Posting)) → n ≤ k → Short n M → Short k M
Short-mono n k [] h s = tt
Short-mono n k ((j, vs) ∷ M) h s = (omega arith, Short-mono n k M h s.1)

pub find-Short :
    (n i : ℕ) (M : Map (List Posting)) {vs : List Posting}
    → Short n M
    → find i M ≡ some vs
    → length vs ≤ n
unfolding find
find-Short n i [] s e = cc
find-Short n i ((j, ws) ∷ M) s e = elim (Bool-cases (j == i)) [
  | inl hit ↦ ground arith
  | inr miss ↦ find-Short n i M s.1 (ground arith)
]

pub assign-Short :
    (n i : ℕ) (vs : List Posting) (M : Map (List Posting))
    → length vs ≤ n
    → Short n M
    → Short n (assign i vs M)
unfolding assign
assign-Short n i vs [] h s = (h, tt)
assign-Short n i vs ((j, ws) ∷ M) h s = ground (arith, assign-Short n i vs M)
