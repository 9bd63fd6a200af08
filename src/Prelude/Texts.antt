-- ===== src/Prelude/Texts.antt =====
-- Text as its bytes, with literals, and maps with texts for keys: `std::map<std::string, ...>` where
-- no order is asked of it.
use Prim.Native.Char.{code}
use Prim.Native.String.{String}
use Prim.Native.Nat.{ℕ}
use mathlib.Core.Path.{◌≡◌, refl, ap, ◌∙◌}
use mathlib.Core.Logic.{◌≢◌, inl, inr}
use mathlib.Core.Bool.{Bool, true, false, ◌&&◌}
use mathlib.Core.Option.{Option, none, some}
use mathlib.Core.List.{List, [], ◌∷◌}
use native.Mathlib.Omega.{arith}
use recomm_engine.Prelude.Tests.{◌==◌, ==_iff, if◌then◌else◌, Bool-cases}

abbrev pub Text : Type 0
Text = List ℕ

-- The bytes of an ASCII literal.
abbrev pub ascii : String → Text
ascii String.[] = []
ascii (String.◌∷◌ c s) = code c ∷ ascii s

abbrev pub same_text : Text → Text → Bool
same_text [] [] = true
same_text [] (y ∷ ys) = false
same_text (x ∷ xs) [] = false
same_text (x ∷ xs) (y ∷ ys) = (x == y) && same_text xs ys

pub same_text_refl : (t : Text) → same_text t t ≡ true
same_text_refl [] = refl
same_text_refl (x ∷ xs) = ground (arith, same_text_refl xs)

pub same_text_sound : (s t : Text) → same_text s t ≡ true → s ≡ t
same_text_sound [] [] h = refl
same_text_sound [] (y ∷ ys) h = cc
same_text_sound (x ∷ xs) [] h = cc
same_text_sound (x ∷ xs) (y ∷ ys) h = elim (Bool-cases (x == y)) [
  | inl hit ↦ (λ i. ((==_iff x y).0 hit) i ∷ xs) ∙ ap (◌∷◌ y) (same_text_sound xs ys (ground arith))
  | inr miss ↦ ground arith
]

same_text-different : (j k : Text) → j ≢ k → same_text j k ≡ false
same_text-different j k apart = elim (Bool-cases (same_text j k)) [
  | inl hit ↦ absurd (apart (same_text_sound j k hit))
  | inr miss ↦ miss
]

abbrev pub TextMap {ℓ} : Type ℓ → Type ℓ
TextMap V = List (Text × V)

module _ {ℓ} {V : Type ℓ} where
  unfoldable pub find_text : Text → TextMap V → Option V
  find_text k [] = none
  find_text k ((j, v) ∷ m) = if same_text j k then some v else find_text k m

  unfoldable pub assign_text : Text → V → TextMap V → TextMap V
  assign_text k v [] = (k, v) ∷ []
  assign_text k v ((j, w) ∷ m) = if same_text j k then (j, v) ∷ m else (j, w) ∷ assign_text k v m

  pub find_text-assign_text :
      (k : Text) (v : V) (m : TextMap V) → find_text k (assign_text k v m) ≡ some v
  unfolding find_text assign_text
  find_text-assign_text k v [] = rw (same_text_refl k) refl
  find_text-assign_text k v ((j, u) ∷ m) = elim (Bool-cases (same_text j k)) [
    | inl hit ↦ rw hit (rw hit refl)
    | inr miss ↦ rw miss (rw miss (find_text-assign_text k v m))
  ]

  pub find_text-other :
      (i k : Text) (v : V) (m : TextMap V) → k ≢ i → find_text i (assign_text k v m) ≡ find_text i m
  unfolding find_text assign_text
  find_text-other i k v [] apart = rw (same_text-different k i apart) refl
  find_text-other i k v ((j, u) ∷ m) apart = elim (Bool-cases (same_text j k)) [
    | inl hit ↦
        let e = same_text_sound j k hit in rw hit (rw e (rw (same_text-different k i apart) refl))
    | inr miss ↦ rw miss (elim (Bool-cases (same_text j i)) [
      | inl here ↦ rw here refl
      | inr there ↦ rw there (find_text-other i k v m apart)
    ])
  ]
