-- ===== src/Retrieval/Asynchronous/Task/Barrier.antt =====
-- The barrier of src/retrieval/asynchronous/retrieval_task_base.cpp.
use recomm_engine.Prelude.{
  ℕ, ◌+◌, ◌≤◌, ◌<◌, ◌≡◌, ◌⊎◌, inl, inr, refl, sym, ap, subst, ◌∙◌, List, [], ◌∷◌, ◌++◌, length,
  length-append, arith,
}
use recomm_engine.Retrieval.Asynchronous.LinkedList.{Ptr}
use recomm_engine.Retrieval.Asynchronous.WaitList.{WaitList}
use recomm_engine.Retrieval.Asynchronous.Task.{
  Phase, created, at_barrier, past, ended, Task, Step, arrive, pass, serve, leave, put, activate,
  activated, flush, join, Reach, here, next,
}

abbrev pub has_arrived : Phase → ℕ
has_arrived created = 0
has_arrived at_barrier = 1
has_arrived past = 1
has_arrived ended = 1

abbrev pub has_passed : Phase → ℕ
has_passed created = 0
has_passed at_barrier = 0
has_passed past = 1
has_passed ended = 1

abbrev pub total : (Phase → ℕ) → List Phase → ℕ
total f [] = 0
total f (p ∷ ps) = f p + total f ps

total-append : (f : Phase → ℕ) (xs ys : List Phase) → total f (xs ++ ys) ≡ total f xs + total f ys
total-append f [] ys = omega arith
total-append f (x ∷ xs) ys = omega (arith, total-append f xs ys)

pub main-le : (p : Phase) → has_arrived p ≤ 1
main-le created = omega arith
main-le at_barrier = omega arith
main-le past = omega arith
main-le ended = omega arith

pub total-arrived-le : (xs : List Phase) → total has_arrived xs ≤ length xs
total-arrived-le [] = omega arith
total-arrived-le (created ∷ xs) = omega (arith, total-arrived-le xs)
total-arrived-le (at_barrier ∷ xs) = omega (arith, total-arrived-le xs)
total-arrived-le (past ∷ xs) = omega (arith, total-arrived-le xs)
total-arrived-le (ended ∷ xs) = omega (arith, total-arrived-le xs)

-- How many are behind the barrier or were joined.
abbrev pub passed : Task → ℕ
passed t = total has_passed t.threads + has_passed t.main + t.joined

pub record IsCounted (n b : ℕ) (t : Task) : Type 0 where
  pub arrivals : t.arrived ≡ total has_arrived t.threads + has_arrived t.main
  pub number : length t.threads ≡ n
  pub made_for : t.barrier ≡ b
  pub shut : (passed t ≡ 0) ⊎ (t.arrived ≡ b)

module _ (head : Ptr) (n b : ℕ) (few : n + 1 ≤ b) where
  -- One thread changes its phase.
  moved :
      (f : Phase → ℕ) (t : Task) (xs ys : List Phase) (p q : Phase)
      → t.threads ≡ xs ++ p ∷ ys
      → total f (xs ++ q ∷ ys) + f p ≡ total f t.threads + f q
  moved f t xs ys p q e =
      rw e (omega (arith, total-append f xs (p ∷ ys), total-append f xs (q ∷ ys)))

  renumbered :
      (t : Task) (xs ys : List Phase) (p q : Phase)
      → t.threads ≡ xs ++ p ∷ ys
      → length (xs ++ q ∷ ys) ≡ length t.threads
  renumbered t xs ys p q e =
      rw e (omega (arith, length-append xs (p ∷ ys), length-append xs (q ∷ ys)))

  -- A thread in front of the barrier is missed at it.
  missing :
      (t : Task) (xs ys : List Phase)
      → t.threads ≡ xs ++ created ∷ ys
      → IsCounted n b t
      → t.arrived < b
  missing t xs ys e h =
      let size = ap length e ∙ length-append xs (created ∷ ys) in
      let there = ap (total has_arrived) e ∙ total-append has_arrived xs (created ∷ ys) in
      omega (
        arith,
        h.arrivals,
        h.number,
        size,
        there,
        total-arrived-le xs,
        total-arrived-le ys,
        main-le t.main,
      )

  arrive-IsCounted :
      (t : Task) (xs ys : List Phase)
      → t.threads ≡ xs ++ created ∷ ys
      → IsCounted n b t
      → IsCounted n b (record t { threads = xs ++ at_barrier ∷ ys; arrived = t.arrived + 1 })
  arrive-IsCounted t xs ys e h =
      let arr = moved has_arrived t xs ys created at_barrier e in
      let pas = moved has_passed t xs ys created at_barrier e in
      let early = missing t xs ys e h in
      record {
        arrivals = omega (arith, h.arrivals, arr);
        number = renumbered t xs ys created at_barrier e ∙ h.number;
        made_for = h.made_for;
        shut = elim (h.shut) [
          | inl none_yet ↦ inl (omega (arith, none_yet, pas))
          | inr full ↦ absurd (omega (arith, full, early))
        ];
      }

  -- Behind the barrier every move is free.
  open-IsCounted :
      (t : Task) (xs ys : List Phase) (p q : Phase) (w : WaitList)
      → t.threads ≡ xs ++ p ∷ ys
      → has_arrived p ≡ 1
      → has_arrived q ≡ 1
      → t.arrived ≡ b
      → IsCounted n b t
      → IsCounted n b (record t { task_list = w; threads = xs ++ q ∷ ys })
  open-IsCounted t xs ys p q w e hp hq full h = record {
    arrivals = omega (arith, h.arrivals, moved has_arrived t xs ys p q e);
    number = renumbered t xs ys p q e ∙ h.number;
    made_for = h.made_for;
    shut = inr full;
  }

  -- One thread is behind the barrier, so it is open.
  barrier_opened :
      (t : Task) (xs ys : List Phase) (p : Phase)
      → t.threads ≡ xs ++ p ∷ ys
      → has_passed p ≡ 1
      → IsCounted n b t
      → t.arrived ≡ b
  barrier_opened t xs ys p e hp h = elim (h.shut) [
    | inl none_yet ↦
        absurd (
          omega
            (arith, none_yet, hp, ap (total has_passed) e ∙ total-append has_passed xs (p ∷ ys)))
    | inr full ↦ full
  ]

  main-IsCounted :
      (t : Task)
      → t.main ≡ created
      → IsCounted n b t
      → IsCounted n b (record t { main = at_barrier; arrived = t.arrived + 1 })
  main-IsCounted t e h =
      let was = ap has_arrived e in
      let passes = ap has_passed e in
      record {
        arrivals = omega (arith, h.arrivals, was);
        number = h.number;
        made_for = h.made_for;
        shut = elim (h.shut) [
          | inl none_yet ↦ inl (omega (arith, none_yet, passes))
          | inr full ↦
              absurd (omega (arith, full, h.arrivals, was, h.number, total-arrived-le t.threads))
        ];
      }

  Step-IsCounted : {t u : Task} → Step head t u → IsCounted n b t → IsCounted n b u
  Step-IsCounted {t} (arrive xs ys e f) h =
      subst (IsCounted n b) (sym f) (arrive-IsCounted t xs ys e h)
  Step-IsCounted {t} (pass xs ys e full f) h =
      subst (IsCounted n b) (sym f)
        (open-IsCounted t xs ys at_barrier past t.task_list e refl refl (full ∙ h.made_for) h)
  Step-IsCounted {t} (serve xs ys x w e c f) h =
      subst (IsCounted n b) (sym f)
        (record { arrivals = h.arrivals; number = h.number; made_for = h.made_for; shut = h.shut })
  Step-IsCounted {t} (leave xs ys w e c f) h =
      subst (IsCounted n b) (sym f)
        (open-IsCounted t xs ys past ended w e refl refl (barrier_opened t xs ys past e refl h) h)
  Step-IsCounted {t} (put x f) h =
      subst (IsCounted n b) (sym f)
        (record { arrivals = h.arrivals; number = h.number; made_for = h.made_for; shut = h.shut })
  Step-IsCounted {t} (activate e f) h = subst (IsCounted n b) (sym f) (main-IsCounted t e h)
  Step-IsCounted {t} (activated e full f) h = subst (IsCounted n b) (sym f) (record {
    arrivals = omega (arith, h.arrivals, ap has_arrived e);
    number = h.number;
    made_for = h.made_for;
    shut = inr (full ∙ h.made_for);
  })
  Step-IsCounted {t} (flush f) h =
      subst (IsCounted n b) (sym f)
        (record { arrivals = h.arrivals; number = h.number; made_for = h.made_for; shut = h.shut })
  Step-IsCounted {t} (join xs ys e at f) h = subst (IsCounted n b) (sym f) (record {
    arrivals = h.arrivals;
    number = h.number;
    made_for = h.made_for;
    shut = inr (barrier_opened t xs ys ended e refl h);
  })

  pub Reach-IsCounted : {t u : Task} → Reach head t u → IsCounted n b t → IsCounted n b u
  Reach-IsCounted here h = h
  Reach-IsCounted (next r st) h = Step-IsCounted st (Reach-IsCounted r h)
