-- ===== src/Retrieval/Asynchronous/Task.antt =====
-- src/retrieval/asynchronous/retrieval_task_base.cpp and retrieval_search.cpp: threads that meet at a
-- barrier and then serve what stands in the wait list. The results of the calls of pthread and of malloc
-- are arguments. A barrier lets all pass once as many have arrived as it was made for.
pub mod Barrier
pub mod Opened
use recomm_engine.Prelude.{
  ℕ, zero, suc, ◌+◌, ◌≡◌, Bool, true, false, Option, none, some, List, [], ◌∷◌, ◌++◌, ◌==◌, length,
  if◌then◌else◌,
}
use recomm_engine.Prelude.Int.{ℤ, pos, negsuc, sub_ℕ}
use recomm_engine.Retrieval.Asynchronous.LinkedList.{Ptr}
use recomm_engine.Retrieval.Asynchronous.WaitList.{WaitList, get, got, flush_all, put_node}
use recomm_engine.Retrieval.Asynchronous.WaitList

-- Where a thread is: in front of the barrier, waiting at it, behind it, or at its end.
pub data Phase : Type 0 where
  created at_barrier past ended : Phase

pub record Task : Type 0 where
  pub m_thread : Bool
  pub m_thread_num : ℕ
  pub barrier : ℕ
  pub arrived : ℕ
  pub threads : List Phase
  -- The thread that calls `activate`.
  pub main : Phase
  pub joined : ℕ
  pub task_list : WaitList

-- What the calls of `open` answer: whether the stack size is refused, whether there is no memory, and
-- whether the i-th thread cannot be created.
pub record Answers : Type 0 where
  pub refuses_stack : Bool
  pub lacks_memory : Bool
  pub refuses_thread : ℕ → Bool

-- The loop: the index at which it ends.
unfoldable pub start_threads : (ℕ → Bool) → ℕ → ℕ → ℕ
start_threads refuses i zero = i
start_threads refuses i (suc k) = elim (refuses i) [
  | true ↦ i
  | false ↦ start_threads refuses (i + 1) k
]

abbrev pub fresh_threads : ℕ → List Phase
fresh_threads zero = []
fresh_threads (suc n) = created ∷ fresh_threads n

unfoldable pub started : Answers → ℕ → Task → Task × ℤ
unfolding start_threads
started a thread_num t =
    let i = start_threads a.refuses_thread 0 thread_num in
    (
      record t {
        m_thread = true;
        barrier = thread_num + 1;
        arrived = 0;
        m_thread_num = i;
        threads = fresh_threads i;
      },
      if i == thread_num then pos 0 else negsuc 0,
    )

unfoldable pub open_task : Answers → ℕ → Task → Task × ℤ
unfolding started
open_task a thread_num t =
    if a.refuses_stack
    then (t, negsuc 0)
    else if thread_num == 0
    then (t, negsuc 0)
    else if a.lacks_memory
    then (record t { m_thread = false }, negsuc 0)
    else started a thread_num t

-- What can happen next. `head` is the address of the wait list's own node.
pub data Step (head : Ptr) (t u : Task) : Type 0 where
  -- run_svc, up to the barrier and behind it.
  arrive :
      (xs ys : List Phase)
      → t.threads ≡ xs ++ created ∷ ys
      → u ≡ record t { threads = xs ++ at_barrier ∷ ys; arrived = t.arrived + 1 }
      → Step head t u
  pass :
      (xs ys : List Phase)
      → t.threads ≡ xs ++ at_barrier ∷ ys
      → t.arrived ≡ t.barrier
      → u ≡ record t { threads = xs ++ past ∷ ys }
      → Step head t u
  -- The loop of svc: a worker is served, or there is none and the thread ends.
  serve :
      (xs ys : List Phase) (x : Ptr) (w : WaitList)
      → t.threads ≡ xs ++ past ∷ ys
      → WaitList.step head t.task_list get ≡ some (w, got (some x))
      → u ≡ record t { task_list = w }
      → Step head t u
  leave :
      (xs ys : List Phase) (w : WaitList)
      → t.threads ≡ xs ++ past ∷ ys
      → WaitList.step head t.task_list get ≡ some (w, got none)
      → u ≡ record t { task_list = w; threads = xs ++ ended ∷ ys }
      → Step head t u
  put : (x : Ptr) → u ≡ record t { task_list = put_node head x t.task_list } → Step head t u
  activate :
      t.main ≡ created → u ≡ record t { main = at_barrier; arrived = t.arrived + 1 } → Step head t u
  activated :
      t.main ≡ at_barrier → t.arrived ≡ t.barrier → u ≡ record t { main = past } → Step head t u
  -- The two parts of deactivate. Threads are joined in order, each once it has ended.
  flush : u ≡ record t { task_list = flush_all t.task_list } → Step head t u
  join :
      (xs ys : List Phase)
      → t.threads ≡ xs ++ ended ∷ ys
      → length xs ≡ t.joined
      → u ≡ record t { joined = t.joined + 1 }
      → Step head t u

pub data Reach (head : Ptr) (t : Task) : Task → Type 0 where
  here : Reach head t t
  next : {u v : Task} → Reach head t u → Step head u v → Reach head t v
