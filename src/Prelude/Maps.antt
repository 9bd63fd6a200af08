-- ===== src/Prelude/Maps.antt =====
-- Maps with numbers for keys: `std::map` in the order of its keys, and `boost::unordered_map`,
-- whose order no operation of the program depends on. `assign` is `m[k] = v`.
use recomm_engine.Prelude.Tests.{ltb, ◌==◌, if◌then◌else◌}
use Prim.Native.Nat.{ℕ, ◌<◌}
use mathlib.Core.Path.{◌≡◌, refl}
use mathlib.Core.Option.{Option, none, some}
use mathlib.Core.List.{List, [], ◌∷◌}
use native.Mathlib.Omega.{arith}

abbrev pub Map {ℓ} : Type ℓ → Type ℓ
Map V = List (ℕ × V)

module _ {ℓ} {V : Type ℓ} where
  unfoldable pub find : ℕ → Map V → Option V
  find k [] = none
  find k ((j, v) ∷ m) = if j == k then some v else find k m

  unfoldable pub assign : ℕ → V → Map V → Map V
  assign k v [] = (k, v) ∷ []
  assign k v ((j, w) ∷ m) =
      if ltb k j then (k, v) ∷ (j, w) ∷ m else if j == k then (k, v) ∷ m else (j, w) ∷ assign k v m

  unfoldable pub erase : ℕ → Map V → Map V
  erase k [] = []
  erase k ((j, v) ∷ m) = if j == k then erase k m else (j, v) ∷ erase k m

  pub find-assign :
      (i k : ℕ) (v : V) (m : Map V) → find i (assign k v m) ≡ (if k == i then some v else find i m)
  unfolding find assign
  find-assign i k v [] = refl
  find-assign i k v ((j, w) ∷ m) = ground (arith, find-assign i k v m)

  pub find-erase : (i k : ℕ) (m : Map V) → find i (erase k m) ≡ (if k == i then none else find i m)
  unfolding find erase
  find-erase i k [] = ground arith
  find-erase i k ((j, w) ∷ m) = ground (arith, find-erase i k m)

  -- The keys rise along the map.
  abbrev pub Above : ℕ → Map V → Type 0
  Above n [] = Unit
  Above n ((k, v) ∷ m) = (n < k) × Above k m

  abbrev pub IsOrdered : Map V → Type 0
  IsOrdered [] = Unit
  IsOrdered ((k, v) ∷ m) = Above k m

  pub Above-IsOrdered : (n : ℕ) (m : Map V) → Above n m → IsOrdered m
  Above-IsOrdered n [] a = tt
  Above-IsOrdered n ((k, v) ∷ m) a = a.1

  assign-Above : (n k : ℕ) (v : V) (m : Map V) → n < k → Above n m → Above n (assign k v m)
  unfolding assign
  assign-Above n k v [] h a = (h, tt)
  assign-Above n k v ((j, w) ∷ m) h a = ground (arith, assign-Above j k v m)

  pub assign-IsOrdered : (k : ℕ) (v : V) (m : Map V) → IsOrdered m → IsOrdered (assign k v m)
  unfolding assign
  assign-IsOrdered k v [] o = tt
  assign-IsOrdered k v ((j, w) ∷ m) o = ground (arith, assign-Above j k v m)
