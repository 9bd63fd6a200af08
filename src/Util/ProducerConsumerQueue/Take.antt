-- ===== src/Util/ProducerConsumerQueue/Take.antt =====
-- What TryGetInternal of src/util/containers/producer_consumer_queue.h hands out.
use recomm_engine.Prelude.{ℕ, ◌+◌, ◌≡◌, ◌⊎◌, true, false, Option, none, some, List, [], ◌∷◌, ◌++◌}
use recomm_engine.Util.ProducerConsumerQueue.{InnerItem, is_live}

module _ {ℓ} {A : Type ℓ} where
  -- Each of the items had timed out at its own reading of the clock.
  abbrev pub AllExpired : (ℕ → ℕ) → ℕ → List (InnerItem A) → Type 0
  AllExpired clock i [] = Unit
  AllExpired clock i (x ∷ xs) = (is_live (clock i) x ≡ false) × AllExpired clock (i + 1) xs

  abbrev LiveAfter : (ℕ → ℕ) → ℕ → List (InnerItem A) → InnerItem A → Type 0
  LiveAfter clock i [] x = is_live (clock i) x ≡ true
  LiveAfter clock i (d ∷ ds) x = LiveAfter clock (i + 1) ds x

  -- A queue is either used up, all of it expired, or split at its first live item.
  abbrev pub Took : (ℕ → ℕ) → ℕ → List (InnerItem A) → List (InnerItem A) → Option A → Type ℓ
  Took clock i xs rest r =
      (AllExpired clock i xs × (rest ≡ []) × (r ≡ none))
      ⊎ ((dropped : List (InnerItem A)) × (x : InnerItem A) × (xs ≡ dropped ++ x ∷ rest)
          × AllExpired clock i dropped
          × LiveAfter clock i dropped x
          × (r ≡ some x.item))
