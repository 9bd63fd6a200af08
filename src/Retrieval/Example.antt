-- ===== src/Retrieval/Example.antt =====
-- A sort, and what readers see of the index with two documents, for the tests.
use recomm_engine.Prelude.{
  ℕ, ◌+◌, ◌≡◌, ◌≤◌, refl, Bool, List, [], ◌∷◌, length, arith, All, inl, inr, ◌==◌, ltb, leb, ◌*◌,
  if◌then◌else◌, Bool-cases,
}
use recomm_engine.Prelude.Maps.{find}
use recomm_engine.Indexing.Base.{Posting}
use recomm_engine.Indexing.PostingList.Visible.{upto}
use recomm_engine.Indexing.Example.{posting, cells, two-IsList, index}
use recomm_engine.Retrieval.Reader.Hits.{Shows}
use recomm_engine.Retrieval.Handler.{RetrievalResult}
use recomm_engine.Retrieval.Handler.Sorting.{In, Descending, IsSort}

abbrev insert : RetrievalResult → List RetrievalResult → List RetrievalResult
insert e [] = e ∷ []
insert e (x ∷ xs) = if leb x.score e.score then e ∷ x ∷ xs else x ∷ insert e xs

abbrev pub sort : List RetrievalResult → List RetrievalResult
sort [] = []
sort (x ∷ xs) = insert x (sort xs)

length-insert :
    (e : RetrievalResult) (xs : List RetrievalResult) → length (insert e xs) ≡ length xs + 1
length-insert e [] = refl
length-insert e (x ∷ xs) = elim (Bool-cases (leb x.score e.score)) [
  | inl low ↦ rw low (omega arith)
  | inr high ↦ rw high (omega (arith, length-insert e xs))
]

length-sort : (xs : List RetrievalResult) → length (sort xs) ≡ length xs
length-sort [] = refl
length-sort (x ∷ xs) = omega (arith, length-insert x (sort xs), length-sort xs)

insert-In : (y e : RetrievalResult) (xs : List RetrievalResult) → In y (insert e xs) → In y (e ∷ xs)
insert-In y e [] h = h
insert-In y e (x ∷ xs) h = elim (Bool-cases (leb x.score e.score)) [
  | inl low ↦ rw low at h
  | inr high ↦ elim (rw high at h) [
    | inl i ↦ inr (inl i)
    | inr i ↦ elim (insert-In y e xs i) [ inl j ↦ inl j | inr j ↦ inr (inr j) ]
  ]
]

In-insert : (y e : RetrievalResult) (xs : List RetrievalResult) → In y (e ∷ xs) → In y (insert e xs)
In-insert y e [] h = h
In-insert y e (x ∷ xs) h = elim (Bool-cases (leb x.score e.score)) [
  | inl low ↦ rw low h
  | inr high ↦ rw high (elim h [
    | inl i ↦ inr (In-insert y e xs (inl i))
    | inr i ↦ elim i [ inl j ↦ inl j | inr j ↦ inr (In-insert y e xs (inr j)) ]
  ])
]

sort-In : (y : RetrievalResult) (xs : List RetrievalResult) → In y (sort xs) → In y xs
sort-In y [] h = h
sort-In y (x ∷ xs) h = elim (insert-In y x (sort xs) h) [
  | inl i ↦ inl i
  | inr i ↦ inr (sort-In y xs i)
]

In-sort : (y : RetrievalResult) (xs : List RetrievalResult) → In y xs → In y (sort xs)
In-sort y [] h = h
In-sort y (x ∷ xs) (inl i) = In-insert y x (sort xs) (inl i)
In-sort y (x ∷ xs) (inr i) = In-insert y x (sort xs) (inr (In-sort y xs i))

All-insert :
    (n : ℕ) (e : RetrievalResult) (xs : List RetrievalResult)
    → e.score ≤ n
    → All (λ y. y.score ≤ n) xs
    → All (λ y. y.score ≤ n) (insert e xs)
All-insert n e [] h a = (h, tt)
All-insert n e (x ∷ xs) h a = elim (Bool-cases (leb x.score e.score)) [
  | inl low ↦ rw low (h, a)
  | inr high ↦ rw high (a.0, All-insert n e xs h a.1)
]

All-le :
    (m n : ℕ) (xs : List RetrievalResult)
    → m ≤ n
    → All (λ y. y.score ≤ m) xs
    → All (λ y. y.score ≤ n) xs
All-le m n [] h a = tt
All-le m n (x ∷ xs) h a = (omega arith, All-le m n xs h a.1)

insert-Descending :
    (e : RetrievalResult) (xs : List RetrievalResult) → Descending xs → Descending (insert e xs)
insert-Descending e [] d = (tt, tt)
insert-Descending e (x ∷ xs) d = elim (Bool-cases (leb x.score e.score)) [
  | inl low ↦
      let h : x.score ≤ e.score = ground arith in rw low ((h, All-le x.score e.score xs h d.0), d)
  | inr high ↦
      let h : e.score ≤ x.score = ground arith in
      rw high (All-insert x.score e xs h d.0, insert-Descending e xs d.1)
]

sort-Descending : (xs : List RetrievalResult) → Descending (sort xs)
sort-Descending [] = tt
sort-Descending (x ∷ xs) = insert-Descending x (sort xs) (sort-Descending xs)

pub sort-IsSort : IsSort sort
sort-IsSort = record {
  same_length = length-sort;
  same_entries = λ e xs. (sort-In e xs, In-sort e xs);
  descending = sort-Descending;
}

-- A fifth of the keywords.
abbrev pub under : ℕ → ℕ → Bool
under score size = ltb (5 * score) size

abbrev pub seen : ℕ → List Posting
seen token = if 5 == token then posting 2 50 ∷ [] else []

pub index-Shows : Shows index seen
unfolding find upto
index-Shows token = elim (Bool-cases (5 == token)) [
  | inl hit ↦ rw hit (cells, two-IsList, refl)
  | inr miss ↦ rw miss refl
]
