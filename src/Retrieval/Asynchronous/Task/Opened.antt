-- ===== src/Retrieval/Asynchronous/Task/Opened.antt =====
-- What follows after `open` of src/retrieval/asynchronous/retrieval_task_base.cpp.
use recomm_engine.Prelude.{
  ℕ, zero, suc, ◌+◌, ◌≤◌, ◌<◌, ◌≡◌, ◌≢◌, inl, inr, refl, sym, ap, subst, ◌∙◌, Bool, true, false,
  ◌==◌, length, arith, Bool-cases,
}
use recomm_engine.Prelude.Int.{ℤ, pos}
use recomm_engine.Retrieval.Asynchronous.LinkedList.{Ptr}
use recomm_engine.Retrieval.Asynchronous.Task.{
  created, past, Task, Answers, start_threads, fresh_threads, started, open_task, Reach,
}
use recomm_engine.Retrieval.Asynchronous.Task.Barrier.{
  has_arrived, has_passed, total, total-arrived-le, main-le, IsCounted, Reach-IsCounted,
}

-- After the constructor.
pub record IsNew (t : Task) : Type 0 where
  pub no_threads : t.m_thread ≡ false
  pub main : t.main ≡ created
  pub joined : t.joined ≡ 0

start_threads-le : (r : ℕ → Bool) (i k : ℕ) → start_threads r i k ≤ i + k
unfolding start_threads
start_threads-le r i zero = omega arith
start_threads-le r i (suc k) = ground (arith, start_threads-le r (i + 1) k)

length-fresh_threads : (n : ℕ) → length (fresh_threads n) ≡ n
length-fresh_threads zero = refl
length-fresh_threads (suc n) = ap suc (length-fresh_threads n)

fresh_arrived : (n : ℕ) → total has_arrived (fresh_threads n) ≡ 0
fresh_arrived zero = refl
fresh_arrived (suc n) = omega (arith, fresh_arrived n)

fresh_passed : (n : ℕ) → total has_passed (fresh_threads n) ≡ 0
fresh_passed zero = refl
fresh_passed (suc n) = omega (arith, fresh_passed n)

starts :
    (a : Answers) (n : ℕ) (t : Task)
    → IsNew t
    → (open_task a n t).0.m_thread ≡ true
    → open_task a n t ≡ started a n t
unfolding open_task
starts a n t new has = elim (Bool-cases a.refuses_stack) [
  | inl refused ↦ absurd (ground (arith, refused, has, new.no_threads))
  | inr takes ↦ elim (Bool-cases (n == 0)) [
    | inl empty ↦ absurd (ground (arith, takes, empty, has, new.no_threads))
    | inr some_n ↦ elim (Bool-cases a.lacks_memory) [
      | inl lacks ↦ absurd (ground (arith, takes, some_n, lacks, has))
      | inr room ↦ rw takes (rw some_n (rw room refl))
    ]
  ]
]

abbrev running : Answers → ℕ → ℕ
running a n = start_threads a.refuses_thread 0 n

started-IsCounted :
    (a : Answers) (n : ℕ) (t : Task) → IsNew t → IsCounted (running a n) (n + 1) (started a n t).0
unfolding started
started-IsCounted a n t new =
    let i = running a n in
    record {
      arrivals = omega (arith, fresh_arrived i, ap has_arrived (new.main));
      number = length-fresh_threads i;
      made_for = refl;
      shut = inl (omega (arith, fresh_passed i, ap has_passed (new.main), new.joined));
    }

module _ (head : Ptr) (a : Answers) (n : ℕ) (t : Task) (new : IsNew t)
    (has : (open_task a n t).0.m_thread ≡ true) {u : Task}
    (r : Reach head (open_task a n t).0 u) where
  few : running a n + 1 ≤ n + 1
  few = omega (arith, start_threads-le a.refuses_thread 0 n)

  reached : IsCounted (running a n) (n + 1) u
  reached = Reach-IsCounted head (running a n) (n + 1) few r (
      subst (λ (p : Task × ℤ). IsCounted (running a n) (n + 1) p.0) (sym (starts a n t new has))
        (started-IsCounted a n t new))

  counts : (u.arrived ≤ running a n + has_arrived u.main) × (running a n ≤ n)
  counts = omega (arith, reached.arrivals, reached.number, total-arrived-le u.threads, few)

  -- After `open` a thread is behind the barrier only when every thread asked for was created and has
  -- come to the barrier, and `activate` was called.
  pub passes_together :
      1 ≤ total has_passed u.threads
      → (length u.threads ≡ n) × (total has_arrived u.threads ≡ n) × (u.main ≢ created)
  passes_together one = elim (reached.shut) [
    | inl nobody ↦ absurd (omega (arith, nobody))
    | inr full ↦ (
      omega (arith, full, counts, main-le u.main, reached.number),
      omega (
        arith,
        full,
        counts,
        main-le u.main,
        reached.arrivals,
        reached.number,
        total-arrived-le u.threads,
      ),
      λ e. omega (arith, full, counts, ap has_arrived e),
    )
  ]

  short : (open_task a n t).1 ≢ pos 0 → running a n < n
  short failed =
      let code = ap (λ (p : Task × ℤ). p.1) (starts a n t new has) in
      elim (Bool-cases (running a n == n)) [
        | inl all ↦ absurd (failed (code ∙ started_code all))
        | inr some_n ↦ ground (arith, some_n, counts)
      ]
    where
      started_code : (running a n == n) ≡ true → (started a n t).1 ≡ pos 0
      started_code all = unfold started in rw all refl

  -- If `open` fails with some of its threads created, none of them ever comes behind the barrier,
  -- `activate` never returns, and a `join` of the first of them never does.
  pub failed_open_hangs :
      (open_task a n t).1 ≢ pos 0
      → (total has_passed u.threads ≡ 0) × (u.main ≢ past) × (u.joined ≡ 0)
  failed_open_hangs failed = elim (reached.shut) [
    | inl nobody ↦
        (omega (arith, nobody), λ e. omega (arith, nobody, ap has_passed e), omega (arith, nobody))
    | inr full ↦ absurd (omega (arith, full, counts, main-le u.main, short failed))
  ]
