-- ===== src/Retrieval/Asynchronous/Tests.antt =====
-- The lists and the threads of src/retrieval/asynchronous at small inputs.
use mathlib.Core.Option
use recomm_engine.Prelude.{
  ◌≡◌, ◌≢◌, refl, true, false, some, List, [], ◌∷◌, ◌++◌, length, arith, All, ◌==◌,
}
use recomm_engine.Prelude.Int.{pos, ◌+ℤ◌, to_int32}
use recomm_engine.Retrieval.Asynchronous.LinkedList.{Ptr, Links}
use recomm_engine.Retrieval.Asynchronous.LinkedList
use recomm_engine.Retrieval.Asynchronous.WaitList.{
  WaitList, Op, Reply, get, get_from_head, flush, len, done, got, size, waits, step, run,
}
use recomm_engine.Retrieval.Asynchronous.WaitList
use recomm_engine.Retrieval.Asynchronous.WaitList.Order.{
  Waiting, Represents, spec_step, new-Represents, step-refines,
}
use recomm_engine.Retrieval.Asynchronous.WaitList.History.{
  Silent, puts, gets, run-in_order, run-flushed,
}
use recomm_engine.Retrieval.Asynchronous.Task.{
  created, at_barrier, past, Task, Answers, open_task, Reach, here, next, arrive, pass, activate,
}
use recomm_engine.Retrieval.Asynchronous.Task.Barrier.{has_arrived, has_passed, total}
use recomm_engine.Retrieval.Asynchronous.Task.Opened.{IsNew, passes_together, failed_open_hangs}

abbrev head : Ptr
head = 100

abbrev memory : Links
memory = record { next = λ a. 0; prev = λ a. 0 }

abbrev nobody : Waiting
nobody = record { queue = []; alive = true }

abbrev calls : List Op
calls = WaitList.put 5 ∷ WaitList.put 7 ∷ get ∷ len ∷ WaitList.put 9 ∷ get ∷ []

-- What the calls answer.
calls_replies :
    Option.map (λ (r : WaitList × List Reply). r.1) (run head (WaitList.new head memory) calls)
    ≡ some (done ∷ done ∷ got (some 5) ∷ size (pos 1) ∷ done ∷ got (some 7) ∷ [])
unfolding run step WaitList.new WaitList.put_node WaitList.take_node LinkedList.is_empty
    LinkedList.entry LinkedList.add LinkedList.del ◌+ℤ◌ to_int32
calls_replies = refl

step-refines_example :
    (w : WaitList) × (step head (WaitList.new head memory) get ≡ some (w, (spec_step nobody get).1))
    × Represents head w (spec_step nobody get).0
step-refines_example =
    step-refines head (WaitList.new head memory) nobody get (new-Represents head memory) tt
      (omega arith)

run-in_order_example :
    (w : WaitList) × (rs : List Reply) × (queue : List Ptr) × (run head
        (WaitList.new head memory)
        calls
      ≡ some (w, rs))
    × Represents head w (record { queue = queue; alive = true })
    × (puts calls ≡ gets rs ++ queue)
unfolding spec_step
run-in_order_example =
    run-in_order head (WaitList.new head memory) [] calls (new-Represents head memory) (omega arith)
      (omega arith) (omega arith)

run-flushed_example :
    (w : WaitList) × (rs : List Reply) × (run head (WaitList.new head memory) (flush ∷ calls)
      ≡ some (w, done ∷ rs))
    × All Silent rs
    × Represents head w (record nobody { alive = false })
unfolding spec_step
run-flushed_example =
    run-flushed head (WaitList.new head memory) nobody calls (new-Represents head memory)
      (omega arith) (omega arith)

abbrev new_task : Task
new_task = record {
  m_thread = false;
  m_thread_num = 0;
  barrier = 0;
  arrived = 0;
  threads = [];
  main = created;
  joined = 0;
  task_list = WaitList.new head memory;
}

new_task-IsNew : IsNew new_task
new_task-IsNew = record { no_threads = refl; main = refl; joined = refl }

-- Every thread can be created; the second cannot.
abbrev all_well : Answers
all_well = record { refuses_stack = false; lacks_memory = false; refuses_thread = λ i. false }

abbrev second_fails : Answers
second_fails = record { refuses_stack = false; lacks_memory = false; refuses_thread = λ i. i == 1 }

abbrev behind : Task
behind = record (open_task all_well 1 new_task).0 {
  threads = past ∷ [];
  arrived = 2;
  main = at_barrier;
}

behind_reached : Reach head (open_task all_well 1 new_task).0 behind
unfolding open_task
behind_reached =
    next (next (next here (arrive [] [] refl refl)) (activate refl refl))
      (pass [] [] refl refl refl)

passes_together_example :
    (length behind.threads ≡ 1) × (total has_arrived behind.threads ≡ 1) × (behind.main ≢ created)
unfolding open_task
passes_together_example =
    passes_together head all_well 1 new_task new_task-IsNew refl behind_reached (omega arith)

abbrev stuck : Task
stuck = record (open_task second_fails 2 new_task).0 {
  threads = at_barrier ∷ [];
  arrived = 2;
  main = at_barrier;
}

stuck_reached : Reach head (open_task second_fails 2 new_task).0 stuck
unfolding open_task
stuck_reached = next (next here (arrive [] [] refl refl)) (activate refl refl)

failed_open_hangs_example :
    (total has_passed stuck.threads ≡ 0) × (stuck.main ≢ past) × (stuck.joined ≡ 0)
unfolding open_task
failed_open_hangs_example =
    failed_open_hangs head second_fails 2 new_task new_task-IsNew refl stuck_reached (λ e. cc)
