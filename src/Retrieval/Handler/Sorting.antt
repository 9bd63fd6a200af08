-- ===== src/Retrieval/Handler/Sorting.antt =====
-- Results in the order of src/retrieval/result_set.h, a higher score before a lower one, and their
-- truncation.
use recomm_engine.Prelude.{
  ℕ, zero, suc, ◌≤◌, ◌≡◌, refl, sym, ◌↔◌, List, [], ◌∷◌, length, take, arith, All, ◌⊎◌, inl, inr,
  subst, min,
}
use recomm_engine.Retrieval.Handler.{RetrievalResult}

abbrev pub In : RetrievalResult → List RetrievalResult → Type 0
In e [] = ⊥
In e (x ∷ xs) = (e ≡ x) ⊎ In e xs

abbrev pub Descending : List RetrievalResult → Type 0
Descending [] = Unit
Descending (x ∷ xs) = All (λ e. e.score ≤ x.score) xs × Descending xs

-- What `std::sort` promises, with a higher score before a lower one.
pub record IsSort (sort : List RetrievalResult → List RetrievalResult) : Type 0 where
  pub same_length : (xs : List RetrievalResult) → length (sort xs) ≡ length xs
  pub same_entries : (e : RetrievalResult) (xs : List RetrievalResult) → In e (sort xs) ↔ In e xs
  pub descending : (xs : List RetrievalResult) → Descending (sort xs)

pub In-take : (e : RetrievalResult) (n : ℕ) (xs : List RetrievalResult) → In e (take n xs) → In e xs
In-take e zero xs h = absurd h
In-take e (suc n) [] h = absurd h
In-take e (suc n) (x ∷ xs) (inl h) = inl h
In-take e (suc n) (x ∷ xs) (inr h) = inr (In-take e n xs h)

Descending-In :
    (e : RetrievalResult) (n : ℕ) (xs : List RetrievalResult)
    → All (λ y. y.score ≤ n) xs
    → In e xs
    → e.score ≤ n
Descending-In e n [] a h = absurd h
Descending-In e n (x ∷ xs) a (inl h) = subst (λ y. y.score ≤ n) (sym h) a.0
Descending-In e n (x ∷ xs) a (inr h) = Descending-In e n xs a.1 h

-- No lower than all of these.
abbrev pub NoBetter : RetrievalResult → List RetrievalResult → Type 0
NoBetter e = All λ y. e.score ≤ y.score

-- What a truncation cuts off scores no better than what stays, and the truncation is full.
pub cut_off :
    (n : ℕ) (xs : List RetrievalResult) (e : RetrievalResult)
    → Descending xs
    → In e xs
    → In e (take n xs) ⊎ ((length (take n xs) ≡ n) × NoBetter e (take n xs))
cut_off zero xs e d h = inr (refl, tt)
cut_off (suc n) [] e d h = absurd h
cut_off (suc n) (x ∷ xs) e d (inl h) = inl (inl h)
cut_off (suc n) (x ∷ xs) e d (inr h) = elim (cut_off n xs e d.1 h) [
  | inl i ↦ inl (inr i)
  | inr (full, low) ↦ inr (omega arith, (Descending-In e x.score xs d.0 h, low))
]

pub Descending-take : (n : ℕ) (xs : List RetrievalResult) → Descending xs → Descending (take n xs)
Descending-take zero xs d = tt
Descending-take (suc n) [] d = tt
Descending-take (suc n) (x ∷ xs) d = (All-take-le n xs d.0, Descending-take n xs d.1)
  where
    All-take-le :
        (n : ℕ) (xs : List RetrievalResult)
        → All (λ e. e.score ≤ x.score) xs
        → All (λ e. e.score ≤ x.score) (take n xs)
    All-take-le zero xs a = tt
    All-take-le (suc n) [] a = tt
    All-take-le (suc n) (y ∷ ys) a = (a.0, All-take-le n ys a.1)

pub In-take_all :
    (e : RetrievalResult) (n : ℕ) (xs : List RetrievalResult)
    → length xs ≤ n
    → In e xs
    → In e (take n xs)
In-take_all e n [] h i = absurd i
In-take_all e zero (x ∷ xs) h i = absurd (omega arith)
In-take_all e (suc n) (x ∷ xs) h (inl i) = inl i
In-take_all e (suc n) (x ∷ xs) h (inr i) = inr (In-take_all e n xs (omega arith) i)

-- What stays and what goes when a sorted list is cut at `n` entries.
pub cut :
    (n : ℕ) (xs : List RetrievalResult) (e : RetrievalResult)
    → Descending xs
    → In e xs
    → let kept = take (min n (length xs)) xs in In e kept ⊎ ((length kept ≡ n) × NoBetter e kept)
cut n xs e d i = elim (leb_cases n (length xs)) [
  | inl less ↦ let m : min n (length xs) ≡ n = omega arith in rw m (cut_off n xs e d i)
  | inr more ↦ inl (In-take_all e (min n (length xs)) xs (omega arith) i)
]
  where
    leb_cases : (a b : ℕ) → (a ≤ b) ⊎ (b ≤ a)
    leb_cases a b = ground arith
