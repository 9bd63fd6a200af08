-- ===== src/Util/ProducerConsumerQueue.antt =====
-- src/util/containers/producer_consumer_queue.h. Every method runs under the queue's mutex, so it is
-- one step. A method that would wait on a condition variable answers `blocked`, and is made again
-- when it is woken. The clock is read once for each item that is looked at: `clock i` is the i-th
-- reading of one call, in microseconds. Sums of times stay below 2^63.
pub mod Take
pub mod Capacity
pub mod Fifo
mod Tests
use recomm_engine.Prelude.{
  ℕ, ◌+◌, Bool, true, false, ◌||◌, Option, none, some, List, [], ◌∷◌, ◌++◌, leb, if◌then◌else◌,
  length,
}
use recomm_engine.Prelude.Int.{ℤ, pos, negsuc, ◌+ℤ◌, leb_ℤ, eqb_ℤ}

pub record InnerItem {ℓ} (A : Type ℓ) : Type ℓ where
  pub item : A
  pub timestamp : ℕ
  pub timeout : ℤ

-- The `CHECK` of the constructor demands 0 < capacity.
pub record Queue {ℓ} (A : Type ℓ) : Type ℓ where
  pub capacity : ℕ
  pub que : List (InnerItem A)
  pub default_timeout : ℤ

abbrev pub timeout_none : ℤ
timeout_none = pos 0

abbrev pub timeout_use_default : ℤ
timeout_use_default = negsuc 0

module _ {ℓ} {A : Type ℓ} where
  -- The constructor: an empty queue.
  unfoldable pub new : ℕ → ℤ → Queue A
  new capacity default_timeout = record {
    capacity = capacity;
    que = [];
    default_timeout = default_timeout;
  }

  abbrev pub is_full : Queue A → Bool
  is_full q = leb q.capacity (length q.que)

  -- The item with its time and its timeout, at the back.
  unfoldable pub push_back : ℕ → A → ℤ → Queue A → Queue A
  push_back now x t q = record q {
    que =
        q.que
        ++ record {
          item = x;
          timestamp = now;
          timeout = if eqb_ℤ t timeout_use_default then q.default_timeout else t;
        }
          ∷ [];
  }

  abbrev pub pop_front : List (InnerItem A) → List (InnerItem A)
  pop_front [] = []
  pop_front (x ∷ xs) = xs

  unfoldable pub try_put_internal : ℕ → A → ℤ → Queue A → Queue A × Bool
  unfolding push_back
  try_put_internal now x t q = if is_full q then (q, false) else (push_back now x t q, true)

  unfoldable pub force_put_internal : ℕ → A → ℤ → Queue A → Queue A × Bool
  unfolding push_back
  force_put_internal now x t q =
      (push_back now x t (if is_full q then record q { que = pop_front q.que } else q), true)

  unfoldable pub is_live : ℕ → InnerItem A → Bool
  unfolding ◌+ℤ◌
  is_live now i = eqb_ℤ i.timeout timeout_none || leb_ℤ (pos now) (pos i.timestamp +ℤ i.timeout)

  -- The loop of TryGetInternal: items that have timed out are dropped.
  unfoldable pub take_live : (ℕ → ℕ) → ℕ → List (InnerItem A) → List (InnerItem A) × Option A
  take_live clock i [] = ([], none)
  take_live clock i (x ∷ xs) =
      let rest = take_live clock (i + 1) xs in
      if is_live (clock i) x then (xs, some x.item) else rest

  unfoldable pub try_get_internal : (ℕ → ℕ) → Queue A → Queue A × Option A
  try_get_internal clock q =
      let (rest, got) = take_live clock 0 q.que in (record q { que = rest }, got)

pub data Op {ℓ} (A : Type ℓ) : Type ℓ where
  force_puts puts try_puts : A → ℤ → Op A
  gets try_gets rough_size precise_size : Op A

pub data Reply {ℓ} (A : Type ℓ) : Type ℓ where
  accepted : Bool → Reply A
  got : Option A → Reply A
  size : ℕ → Reply A
  blocked : Reply A

abbrev pub Event {ℓ} : Type ℓ → Type ℓ
Event A = (ℕ → ℕ) × Op A

module _ {ℓ} {A : Type ℓ} where
  abbrev replies : Queue A × Bool → Queue A × Reply A
  replies r = (r.0, accepted r.1)

  -- `Get` goes on waiting when nothing is left.
  abbrev or_blocked : Option A → Reply A
  or_blocked none = blocked
  or_blocked (some x) = got (some x)

  -- One call of a public method.
  unfoldable pub step : Queue A → Event A → Queue A × Reply A
  step q (clock, force_puts x t) = replies (force_put_internal (clock 0) x t q)
  step q (clock, puts x t) =
      if is_full q then (q, blocked) else replies (try_put_internal (clock 0) x t q)
  step q (clock, try_puts x t) = replies (try_put_internal (clock 0) x t q)
  step q (clock, gets) = let (q', r) = try_get_internal clock q in (q', or_blocked r)
  step q (clock, try_gets) = let (q', r) = try_get_internal clock q in (q', got r)
  step q (clock, rough_size) = (q, size (length q.que))
  step q (clock, precise_size) = (q, size (length q.que))

  unfoldable pub run : Queue A → List (Event A) → Queue A
  run q [] = q
  run q (e ∷ es) = run (step q e).0 es
