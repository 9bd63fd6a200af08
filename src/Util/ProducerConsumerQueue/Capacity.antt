-- ===== src/Util/ProducerConsumerQueue/Capacity.antt =====
-- The size of the queue of src/util/containers/producer_consumer_queue.h.
use recomm_engine.Prelude.{
  ℕ, ◌+◌, ◌≤◌, ◌<◌, ◌≡◌, refl, List, [], ◌∷◌, arith, length, length-append, ◌⊎◌, inl, inr,
}
use recomm_engine.Prelude.Int.{ℤ}
use recomm_engine.Util.ProducerConsumerQueue.{
  InnerItem, Queue, Event, force_puts, puts, try_puts, gets, try_gets, rough_size, precise_size,
  pop_front, take_live, try_get_internal, push_back, try_put_internal, force_put_internal, step,
  run,
}

module _ {ℓ} {A : Type ℓ} where
  pub record IsBounded (q : Queue A) : Type 0 where
    pub positive : 0 < q.capacity
    pub within : length q.que ≤ q.capacity

  length-take_live :
      (clock : ℕ → ℕ) (i : ℕ) (xs : List (InnerItem A))
      → length (take_live clock i xs).0 ≤ length xs
  unfolding take_live
  length-take_live clock i [] = omega arith
  length-take_live clock i (x ∷ xs) = ground (arith, length-take_live clock (i + 1) xs)

  length-pop_front : (xs : List (InnerItem A)) → length (pop_front xs) + 1 ≤ length xs ⊎ (xs ≡ [])
  length-pop_front [] = inr refl
  length-pop_front (x ∷ xs) = inl (omega arith)

  capacity-push_back :
      (now : ℕ) (x : A) (t : ℤ) (q : Queue A) → (push_back now x t q).capacity ≡ q.capacity
  unfolding push_back
  capacity-push_back now x t q = refl

  length-push_back :
      (now : ℕ) (x : A) (t : ℤ) (q : Queue A) → length (push_back now x t q).que ≡ length q.que + 1
  unfolding push_back
  length-push_back now x t q =
      omega (arith, length-append q.que (record { item = x; timestamp = now; timeout = _ } ∷ []))

  step-IsBounded : (q : Queue A) (e : Event A) → IsBounded q → IsBounded (step q e).0
  unfolding step try_put_internal force_put_internal try_get_internal
  step-IsBounded q (clock, force_puts x t) b = ground (
    arith,
    length-push_back (clock 0) x t q,
    length-push_back (clock 0) x t (record q { que = pop_front q.que }),
    length-pop_front q.que,
    capacity-push_back (clock 0) x t q,
    capacity-push_back (clock 0) x t (record q { que = pop_front q.que }),
  )
  step-IsBounded q (clock, puts x t) b =
      ground (arith, length-push_back (clock 0) x t q, capacity-push_back (clock 0) x t q)
  step-IsBounded q (clock, try_puts x t) b =
      ground (arith, length-push_back (clock 0) x t q, capacity-push_back (clock 0) x t q)
  step-IsBounded q (clock, gets) b = ground (arith, length-take_live clock 0 q.que)
  step-IsBounded q (clock, try_gets) b = ground (arith, length-take_live clock 0 q.que)
  step-IsBounded q (clock, rough_size) b = b
  step-IsBounded q (clock, precise_size) b = b

  -- No history of calls takes the queue over its capacity, `ForcePut` included.
  pub run-IsBounded : (q : Queue A) (es : List (Event A)) → IsBounded q → IsBounded (run q es)
  unfolding run
  run-IsBounded q [] b = b
  run-IsBounded q (e ∷ es) b = run-IsBounded (step q e).0 es (step-IsBounded q e b)
