-- ===== src/Retrieval/Asynchronous/WaitList/History.antt =====
-- Histories of calls of src/retrieval/asynchronous/wait_list.h.
use mathlib.Core.List.{reverse, reverse-reverse}
use recomm_engine.Prelude.{
  ◌+◌, ◌^◌, ◌<◌, ◌≤◌, ◌≡◌, refl, sym, ap, subst, ◌∙◌, Bool, true, false, none, some, List, [], ◌∷◌,
  ◌++◌, length, length-append, append-nil, append_assoc, arith, All,
}
use recomm_engine.Retrieval.Asynchronous.LinkedList.{Ptr}
use recomm_engine.Retrieval.Asynchronous.WaitList.{
  WaitList, Op, Reply, put, get, get_from_head, flush, len, done, got, size, waits, run,
}
use recomm_engine.Retrieval.Asynchronous.WaitList.Order.{
  Waiting, spec_step, Represents, IsFree, step-refines, take_oldest, length-reverse,
}

abbrev pub spec_after : Waiting → List Op → Waiting
spec_after q [] = q
spec_after q (op ∷ ops) = spec_after (spec_step q op).0 ops

abbrev pub spec_replies : Waiting → List Op → List Reply
spec_replies q [] = []
spec_replies q (op ∷ ops) = (spec_step q op).1 ∷ spec_replies (spec_step q op).0 ops

-- Every put is of an object that does not wait at that time.
abbrev pub AllFree : Ptr → Waiting → List Op → Type 0
AllFree head q [] = Unit
AllFree head q (op ∷ ops) = IsFree head q op × AllFree head (spec_step q op).0 ops

length-take_oldest : (l : List Ptr) (alive : Bool) → length (take_oldest l alive).0 ≤ length l
length-take_oldest l false = omega arith
length-take_oldest [] true = omega arith
length-take_oldest (x ∷ xs) true = omega arith

length-spec_step : (q : Waiting) (op : Op) → length (spec_step q op).0.queue ≤ length q.queue + 1
unfolding spec_step
length-spec_step q (put x) = ground (arith, length-append q.queue (x ∷ []))
length-spec_step q get = omega (arith, length-take_oldest q.queue q.alive)
length-spec_step q get_from_head = omega (
  arith,
  length-take_oldest (reverse q.queue) q.alive,
  length-reverse q.queue,
  length-reverse (take_oldest (reverse q.queue) q.alive).0,
)
length-spec_step q flush = omega arith
length-spec_step q len = omega arith

run-refines :
    (head : Ptr) (w : WaitList) (q : Waiting) (ops : List Op)
    → Represents head w q
    → AllFree head q ops
    → length q.queue + length ops < 2 ^ 31
    → (w' : WaitList) × (run head w ops ≡ some (w', spec_replies q ops))
      × Represents head w' (spec_after q ops)
unfolding run
run-refines head w q [] r free small = (w, refl, r)
run-refines head w q (op ∷ ops) r free small =
    let (w1, call, r1) = step-refines head w q op r free.0 (omega arith) in
    let (w', calls, r') =
      run-refines head w1 (spec_step q op).0 ops r1 free.1 (omega (arith, length-spec_step q op)) in
    (w', rw call (rw calls refl), r')

-- The calls of a history of workers: `get_from_head` and `flush` are left out.
abbrev pub Plain : Op → Type 0
Plain (put x) = Unit
Plain get = Unit
Plain get_from_head = ⊥
Plain flush = ⊥
Plain len = Unit

abbrev pub puts : List Op → List Ptr
puts [] = []
puts (put x ∷ ops) = x ∷ puts ops
puts (op ∷ ops) = puts ops

abbrev pub gets : List Reply → List Ptr
gets [] = []
gets (got (some x) ∷ rs) = x ∷ gets rs
gets (r ∷ rs) = gets rs

fifo_spec :
    (queue : List Ptr) (ops : List Op)
    → All Plain ops
    → let q : Waiting = record { queue = queue; alive = true } in
      queue ++ puts ops ≡ gets (spec_replies q ops) ++ (spec_after q ops).queue
unfolding spec_step
fifo_spec queue [] h = append-nil queue
fifo_spec queue (put x ∷ ops) h =
    sym (append_assoc queue (x ∷ []) (puts ops)) ∙ fifo_spec (queue ++ x ∷ []) ops h.1
fifo_spec [] (get ∷ ops) h = fifo_spec [] ops h.1
fifo_spec (x ∷ xs) (get ∷ ops) h = ap (◌∷◌ x) (fifo_spec xs ops h.1)
fifo_spec queue (get_from_head ∷ ops) h = absurd h.0
fifo_spec queue (flush ∷ ops) h = absurd h.0
fifo_spec queue (len ∷ ops) h = fifo_spec queue ops h.1

Plain-alive :
    (queue : List Ptr) (ops : List Op)
    → All Plain ops
    → let q : Waiting = record { queue = queue; alive = true } in
      spec_after q ops ≡ record { queue = (spec_after q ops).queue; alive = true }
unfolding spec_step
Plain-alive queue [] h = refl
Plain-alive queue (put x ∷ ops) h = Plain-alive (queue ++ x ∷ []) ops h.1
Plain-alive [] (get ∷ ops) h = Plain-alive [] ops h.1
Plain-alive (x ∷ xs) (get ∷ ops) h = Plain-alive xs ops h.1
Plain-alive queue (get_from_head ∷ ops) h = absurd h.0
Plain-alive queue (flush ∷ ops) h = absurd h.0
Plain-alive queue (len ∷ ops) h = Plain-alive queue ops h.1

-- The objects that were put come out of `get` in the order of the puts, each once and none lost: those
-- that have not come out wait in the list. No call crashes.
pub run-in_order :
    (head : Ptr) (w : WaitList) (queue : List Ptr) (ops : List Op)
    → let q : Waiting = record { queue = queue; alive = true } in
      Represents head w q
      → AllFree head q ops
      → All Plain ops
      → length queue + length ops < 2 ^ 31
      → (w' : WaitList) × (rs : List Reply) × (queue' : List Ptr) × (run head w ops ≡ some (w', rs))
        × Represents head w' (record { queue = queue'; alive = true })
        × (queue ++ puts ops ≡ gets rs ++ queue')
run-in_order head w queue ops r free plain small =
    let q : Waiting = record { queue = queue; alive = true } in
    let (w', calls, r') = run-refines head w q ops r free small in
    (
      w',
      spec_replies q ops,
      (spec_after q ops).queue,
      calls,
      subst (Represents head w') (Plain-alive queue ops plain) r',
      fifo_spec queue ops plain,
    )

abbrev pub Silent : Reply → Type 0
Silent done = Unit
Silent (got none) = Unit
Silent (got (some x)) = ⊥
Silent (size n) = Unit
Silent waits = ⊥

flushed_spec :
    (queue : List Ptr) (ops : List Op)
    → let q : Waiting = record { queue = queue; alive = false } in
      All Silent (spec_replies q ops) × (spec_after q ops ≡ q)
unfolding spec_step
flushed_spec queue [] = (tt, refl)
flushed_spec queue (put x ∷ ops) = let (s, e) = flushed_spec queue ops in ((tt, s), e)
flushed_spec queue (get ∷ ops) = let (s, e) = flushed_spec queue ops in ((tt, s), e)
flushed_spec queue (get_from_head ∷ ops) =
    rw (reverse-reverse queue) (let (s, e) = flushed_spec queue ops in ((tt, s), e))
flushed_spec queue (flush ∷ ops) = let (s, e) = flushed_spec queue ops in ((tt, s), e)
flushed_spec queue (len ∷ ops) = let (s, e) = flushed_spec queue ops in ((tt, s), e)

-- Once flushed, the list takes nothing in and hands nothing out: in any further history no call waits,
-- every `get` and `get_from_head` gives null, and what waited when it was flushed stays in it.
pub run-flushed :
    (head : Ptr) (w : WaitList) (q : Waiting) (ops : List Op)
    → Represents head w q
    → AllFree head (record q { alive = false }) ops
    → length q.queue + length ops + 1 < 2 ^ 31
    → (w' : WaitList) × (rs : List Reply) × (run head w (flush ∷ ops) ≡ some (w', done ∷ rs))
      × All Silent rs
      × Represents head w' (record q { alive = false })
unfolding spec_step
run-flushed head w q ops r free small =
    let q' : Waiting = record q { alive = false } in
    let (w', calls, r') = run-refines head w q (flush ∷ ops) r (tt, free) (omega arith) in
    let (silent, same) = flushed_spec q.queue ops in
    (w', spec_replies q' ops, calls, silent, subst (Represents head w') same r')
