-- ===== src/Util/ProducerConsumerQueue/Fifo.antt =====
-- The order of src/util/containers/producer_consumer_queue.h where nothing times out, as in the doc
-- pool of the index builder and in the pool of the replay log, whose default timeout is 0.
use mathlib.Core.List.{map-append}
use recomm_engine.Prelude.{
  ℕ, ◌≡◌, refl, sym, ap, ◌∙◌, ◌⊎◌, true, false, Option, none, some, List, [], ◌∷◌, ◌++◌, map,
  append-nil, append_assoc, arith, All, All-append, Bool-cases, inl, inr,
}
use recomm_engine.Prelude.Int.{ℤ}
use recomm_engine.Util.ProducerConsumerQueue.{
  InnerItem, Queue, Op, Reply, Event, force_puts, puts, try_puts, gets, try_gets, rough_size,
  precise_size, accepted, got, timeout_none, timeout_use_default, is_live, take_live, is_full,
  try_get_internal, push_back, try_put_internal, step, run, or_blocked,
}

-- Nothing that is put with this timeout times out, where the default is none.
abbrev pub Endless : ℤ → Type 0
Endless t = (t ≡ timeout_use_default) ⊎ (t ≡ timeout_none)

module _ {ℓ} {A : Type ℓ} where
  abbrev pub items : List (InnerItem A) → List A
  items = map λ i. i.item

  abbrev Timeless : List (InnerItem A) → Type 0
  Timeless xs = All (λ i. i.timeout ≡ timeout_none) xs

  -- Nothing in the queue times out, and nothing put with the default timeout will.
  pub record IsTimeless (q : Queue A) : Type 0 where
    pub default : q.default_timeout ≡ timeout_none
    pub now : All (λ i. i.timeout ≡ timeout_none) q.que

  -- A put with no timeout or the default one; `ForcePut`, which may drop an item, is left out.
  abbrev pub Keeps : Op A → Type 0
  Keeps (force_puts x t) = ⊥
  Keeps (puts x t) = Endless t
  Keeps (try_puts x t) = Endless t
  Keeps op = Unit

  -- What a call took in, and what it handed out.
  abbrev pub entered : Op A → Reply A → List A
  entered (force_puts x t) r = x ∷ []
  entered (puts x t) (accepted true) = x ∷ []
  entered (try_puts x t) (accepted true) = x ∷ []
  entered op r = []

  abbrev pub left : Reply A → List A
  left (got (some x)) = x ∷ []
  left r = []

  unfoldable pub all_entered : Queue A → List (Event A) → List A
  all_entered q [] = []
  all_entered q (e ∷ es) = entered e.1 (step q e).1 ++ all_entered (step q e).0 es

  unfoldable pub all_left : Queue A → List (Event A) → List A
  all_left q [] = []
  all_left q (e ∷ es) = left (step q e).1 ++ all_left (step q e).0 es

  record Balanced (q : Queue A) (op : Op A) (q' : Queue A) (r : Reply A) : Type ℓ where
    timeless : IsTimeless q'
    balance : items q.que ++ entered op r ≡ left r ++ items q'.que

  push_back-Balanced :
      (now : ℕ) (x : A) (t : ℤ) (q : Queue A)
      → IsTimeless q
      → Endless t
      → IsTimeless (push_back now x t q) × (items (push_back now x t q).que ≡ items q.que ++ x ∷ [])
  unfolding push_back
  push_back-Balanced now x t q h (inl k) = rw k (
    record {
      default = h.default;
      now = All-append (λ i. i.timeout ≡ timeout_none) q.que _ h.now (h.default, tt);
    },
    map-append _ _ _,
  )
  push_back-Balanced now x t q h (inr k) = rw k (
    record {
      default = h.default;
      now = All-append (λ i. i.timeout ≡ timeout_none) q.que _ h.now (refl, tt);
    },
    map-append _ _ _,
  )

  try_put-Balanced :
      (now : ℕ) (x : A) (t : ℤ) (q : Queue A) (op : Op A)
      → IsTimeless q
      → Endless t
      → entered op (accepted true) ≡ x ∷ []
      → entered op (accepted false) ≡ []
      → let (q', done) = try_put_internal now x t q in Balanced q op q' (accepted done)
  unfolding try_put_internal
  try_put-Balanced now x t q op h k hit miss = elim (Bool-cases (is_full q)) [
    | inl full ↦ rw full (record { timeless = h; balance = rw miss (append-nil _) })
    | inr room ↦ rw room (record {
      timeless = (push_back-Balanced now x t q h k).0;
      balance = rw hit (sym (push_back-Balanced now x t q h k).1);
    })
  ]

  is_live-Timeless : (now : ℕ) (x : InnerItem A) → x.timeout ≡ timeout_none → is_live now x ≡ true
  unfolding is_live
  is_live-Timeless now x e = ground arith

  -- `op` takes nothing in, and answers with what was got.
  record IsGet (op : Op A) (reply : Option A → Reply A) : Type ℓ where
    enters : (o : Option A) → entered op (reply o) ≡ []
    leaves_none : left (reply none) ≡ []
    leaves_some : (x : A) → left (reply (some x)) ≡ x ∷ []

  get-Balanced :
      (capacity : ℕ) (xs : List (InnerItem A)) (default : ℤ) (clock : ℕ → ℕ) {op : Op A}
      {reply : Option A → Reply A}
      → IsGet op reply
      → let q : Queue A = record { capacity = capacity; que = xs; default_timeout = default } in
        IsTimeless q → let (q', r) = try_get_internal clock q in Balanced q op q' (reply r)
  unfolding try_get_internal take_live
  get-Balanced capacity [] default clock g h = record {
    timeless = h;
    balance = rw (g.enters none, g.leaves_none);
  }
  get-Balanced capacity (x ∷ xs) default clock {reply} g h =
      rw (is_live-Timeless (clock 0) x h.now.0) (record {
        timeless = record { default = h.default; now = h.now.1 };
        balance = rw (g.enters (some x.item), g.leaves_some x.item, append-nil (items (x ∷ xs)));
      })

  step-Balanced :
      (q : Queue A) (e : Event A)
      → IsTimeless q
      → Keeps e.1
      → Balanced q e.1 (step q e).0 (step q e).1
  unfolding step
  step-Balanced q (clock, force_puts x t) h k = absurd k
  step-Balanced q (clock, puts x t) h k = elim (Bool-cases (is_full q)) [
    | inl full ↦ rw full (record { timeless = h; balance = append-nil _ })
    | inr room ↦ rw room (try_put-Balanced (clock 0) x t q (puts x t) h k refl refl)
  ]
  step-Balanced q (clock, try_puts x t) h k =
      try_put-Balanced (clock 0) x t q (try_puts x t) h k refl refl
  step-Balanced q (clock, gets) h k =
      get-Balanced q.capacity q.que q.default_timeout clock {reply = or_blocked}
        (record { enters = λ o. refl; leaves_none = refl; leaves_some = λ x. refl }) h
  step-Balanced q (clock, try_gets) h k =
      get-Balanced q.capacity q.que q.default_timeout clock {reply = got}
        (record { enters = λ o. refl; leaves_none = refl; leaves_some = λ x. refl }) h
  step-Balanced q (clock, rough_size) h k = record { timeless = h; balance = append-nil _ }
  step-Balanced q (clock, precise_size) h k = record { timeless = h; balance = append-nil _ }

  -- Where the default timeout is none, and every put has no timeout or the default one, and none is
  -- forced, what was in the queue and what was taken in come out in that order, each once: the rest is
  -- still in the queue.
  pub run-fifo :
      (q : Queue A) (es : List (Event A))
      → IsTimeless q
      → All (λ (e : Event A). Keeps e.1) es
      → items q.que ++ all_entered q es ≡ all_left q es ++ items (run q es).que
  unfolding run all_entered all_left
  run-fifo q [] h k = append-nil _
  run-fifo q (e ∷ es) h k =
      let b = step-Balanced q e h k.0 in
      sym (append_assoc (items q.que) _ _)
      ∙ ap (λ (l : List A). l ++ all_entered (step q e).0 es) b.balance
      ∙ append_assoc (left (step q e).1) _ _
      ∙ ap (◌++◌ (left (step q e).1)) (run-fifo (step q e).0 es b.timeless k.1)
      ∙ sym (append_assoc (left (step q e).1) _ _)
