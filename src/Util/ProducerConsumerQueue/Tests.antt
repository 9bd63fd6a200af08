-- ===== src/Util/ProducerConsumerQueue/Tests.antt =====
-- Runs of src/util/containers/producer_consumer_queue.h, and its theorems at them.
use recomm_engine.Prelude.{inl, inr, ℕ, ◌+◌, ◌≡◌, refl, ◌∷◌, ◌++◌, [], List, some, arith}
use recomm_engine.Prelude.Int.{pos}
use recomm_engine.Util.ProducerConsumerQueue.{
  Queue, Event, force_puts, puts, try_puts, gets, try_gets, timeout_use_default, timeout_none, step,
  run, is_live, take_live, try_put_internal, try_get_internal,
}
use recomm_engine.Util.ProducerConsumerQueue.Capacity.{IsBounded, run-IsBounded}
use recomm_engine.Util.ProducerConsumerQueue.Fifo.{items, all_entered, all_left, run-fifo}

abbrev clock : ℕ → ℕ
clock i = 5000 + i

abbrev pool : Queue ℕ
pool = record { capacity = 2; que = []; default_timeout = pos 0 }

abbrev calls : List (Event ℕ)
calls =
    (clock, try_puts 7 timeout_use_default)
    ∷ (clock, puts 8 timeout_none)
    ∷ (clock, try_puts 9 timeout_use_default)
    ∷ (clock, gets)
    ∷ (clock, try_gets)
    ∷ (clock, try_gets)
    ∷ []

-- 9 finds the pool full.
calls_leave : all_left pool calls ≡ 7 ∷ 8 ∷ []
unfolding all_left step is_live try_put_internal try_get_internal take_live
calls_leave = refl

run-fifo_example :
    items pool.que ++ all_entered pool calls ≡ all_left pool calls ++ items (run pool calls).que
run-fifo_example =
    run-fifo pool calls (record { default = refl; now = tt })
      (inl refl, (inr refl, (inl refl, (tt, (tt, (tt, tt))))))

forced : List (Event ℕ)
forced =
    (clock, force_puts 1 (pos 3))
    ∷ (clock, force_puts 2 (pos 3))
    ∷ (clock, force_puts 3 (pos 3))
    ∷ []

run-IsBounded_example : IsBounded (run pool forced)
run-IsBounded_example =
    run-IsBounded pool forced (record { positive = omega arith; within = omega arith })

abbrev aged : Queue ℕ
aged = record {
  capacity = 4;
  que =
      record { item = 1; timestamp = 100; timeout = pos 10 }
      ∷ record { item = 2; timestamp = 4999; timeout = pos 10 }
      ∷ record { item = 3; timestamp = 5000; timeout = pos 0 }
      ∷ [];
  default_timeout = pos 3000;
}

aged_hands_out : (try_get_internal clock aged).1 ≡ some 2
unfolding try_get_internal is_live take_live
aged_hands_out = refl
