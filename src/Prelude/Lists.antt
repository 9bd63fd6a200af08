-- ===== src/Prelude/Lists.antt =====
-- Lists measured and indexed by native numbers, under the library's names, and predicates on them.
use Prim.Native.Nat.{ℕ, zero, suc, ◌+◌, ◌-◌, ◌≤◌, min}
use mathlib.Core.Path.{◌≡◌, refl, sym, ap, ◌∙◌}
use mathlib.Core.Bool.{Bool, false, ◌||◌}
use mathlib.Core.List.{List, [], ◌∷◌, ◌++◌}
use native.Mathlib.Omega.{arith}
use recomm_engine.Prelude.Tests.{◌==◌, if◌then◌else◌}

module _ {ℓ} {A : Type ℓ} where
  abbrev pub length : List A → ℕ
  length [] = 0
  length (x ∷ xs) = suc (length xs)

  abbrev pub take : ℕ → List A → List A
  take zero xs = []
  take (suc n) [] = []
  take (suc n) (x ∷ xs) = x ∷ take n xs

  abbrev pub drop : ℕ → List A → List A
  drop zero xs = xs
  drop (suc n) [] = []
  drop (suc n) (x ∷ xs) = drop n xs

  -- The entries that pass a Boolean test.
  abbrev pub keep_if : (A → Bool) → List A → List A
  keep_if p [] = []
  keep_if p (x ∷ xs) = if p x then x ∷ keep_if p xs else keep_if p xs

  abbrev pub All {κ} : (A → Type κ) → List A → Type κ
  All P [] = Unit
  All P (x ∷ xs) = P x × All P xs

  pub length-append : (xs ys : List A) → length (xs ++ ys) ≡ length xs + length ys
  length-append [] ys = omega arith
  length-append (x ∷ xs) ys = omega (arith, length-append xs ys)

  pub length-take-le : (n : ℕ) (xs : List A) → length (take n xs) ≤ n
  length-take-le zero xs = omega arith
  length-take-le (suc n) [] = omega arith
  length-take-le (suc n) (x ∷ xs) = omega (arith, length-take-le n xs)

  pub length-take : (n : ℕ) (xs : List A) → length (take n xs) ≡ min n (length xs)
  length-take zero xs = omega arith
  length-take (suc n) [] = omega arith
  length-take (suc n) (x ∷ xs) = omega (arith, length-take n xs)

  pub drop-drop : (m n : ℕ) (t : List A) → drop m (drop n t) ≡ drop (n + m) t
  drop-drop m zero t = ap (λ k. drop k t) (omega arith)
  drop-drop m (suc n) [] = drop-nil m ∙ sym (drop-nil (suc n + m))
    where
      drop-nil : (m : ℕ) → drop m [] ≡ []
      drop-nil zero = refl
      drop-nil (suc m) = refl
  drop-drop m (suc n) (c ∷ t) =
      drop-drop m n t ∙ ap (λ k. drop k (c ∷ t)) {x = suc (n + m)} (omega arith)

  pub length-drop : (n : ℕ) (t : List A) → length (drop n t) ≡ length t - n
  length-drop zero t = omega arith
  length-drop (suc n) [] = omega arith
  length-drop (suc n) (c ∷ t) = omega (arith, length-drop n t)

  pub take-all : (n : ℕ) (t : List A) → length t ≤ n → take n t ≡ t
  take-all zero [] h = refl
  take-all zero (c ∷ t) h = absurd (omega (arith, h))
  take-all (suc n) [] h = refl
  take-all (suc n) (c ∷ t) h = ap (◌∷◌ c) (take-all n t (omega (arith, h)))

  pub drop-all : (n : ℕ) (t : List A) → length t ≤ n → drop n t ≡ []
  drop-all zero [] h = refl
  drop-all zero (c ∷ t) h = absurd (omega (arith, h))
  drop-all (suc n) [] h = refl
  drop-all (suc n) (c ∷ t) h = drop-all n t (omega (arith, h))

module _ {ℓ κ} {A : Type ℓ} (P : A → Type κ) where
  pub All-append : (xs ys : List A) → All P xs → All P ys → All P (xs ++ ys)
  All-append [] ys hx hy = hy
  All-append (x ∷ xs) ys hx hy = (hx.0, All-append xs ys hx.1 hy)

  pub All-take : (n : ℕ) (xs : List A) → All P xs → All P (take n xs)
  All-take zero xs h = tt
  All-take (suc n) [] h = tt
  All-take (suc n) (x ∷ xs) h = (h.0, All-take n xs h.1)

-- Membership of numbers, as a test.
abbrev pub elem : ℕ → List ℕ → Bool
elem a [] = false
elem a (x ∷ xs) = (x == a) || elem a xs

module _ (key : ℕ) where
  -- How often a number stands in a list.
  abbrev pub count : List ℕ → ℕ
  count [] = 0
  count (n ∷ ns) = (if n == key then 1 else 0) + count ns

  pub count-append : (front back : List ℕ) → count (front ++ back) ≡ count front + count back
  count-append [] back = omega arith
  count-append (n ∷ front) back = omega (arith, count-append front back)
