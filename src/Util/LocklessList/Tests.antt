-- ===== src/Util/LocklessList/Tests.antt =====
-- A run of src/util/containers/lockless_list.h, and its theorems at a list of two nodes.
use recomm_engine.Prelude.{ℕ, ◌≡◌, refl, Option, none, some, [], ◌∷◌, arith, ◌>>=◌}
use recomm_engine.Util.LocklessList.{
  null, LocklessList, node, write, load, set_next, set_value, allocate, recycle, new, push_front,
  erase_after, destroy,
}
use recomm_engine.Util.LocklessList.Chain.{Cells, IsList}
use recomm_engine.Util.LocklessList.Push.{IsLoose, push_front_lem}
use recomm_engine.Util.LocklessList.Erase.{erase_after_lem}
use recomm_engine.Util.LocklessList.Lifetime.{destroy_lem}

-- Allocate, fill in, add.
abbrev add : ℕ → LocklessList ℕ → Option (LocklessList ℕ)
add v l = do (l, p) ← allocate 0 l; s ← set_value l.store p v; push_front p (record l { store = s })

-- The list with two nodes loses the older; its address is used again.
abbrev history : Option (LocklessList ℕ)
history = do l ← new 0; l ← add 7 l; l ← add 8 l; l ← erase_after 3 l; add 9 l

history_recycles : (history >>= λ l. load l.store 1) ≡ some (node 0 2)
unfolding new allocate set_next set_value load push_front erase_after recycle
history_recycles = refl

-- Two nodes, 3 in front of 2, with 4 in the pool and 5 in the caller's hands.
abbrev two : LocklessList ℕ
two = record {
  store =
      write
        (write (write (write (write (λ _. none) 1 (node 0 3)) 2 (node 7 null)) 3 (node 8 2)) 4
          (node 6 null))
        5 (node 9 null);
  next_new = 6;
  front = 1;
  node_num = 2;
  obj_pool = 4 ∷ [];
  buffer_num = 0;
}

abbrev cells : Cells ℕ
cells = (3, 8) ∷ (2, 7) ∷ []

two-IsList : IsList two cells
two-IsList = record {
  fake = 0;
  chain = (
    3,
    refl,
    (λ e. omega (arith, e)),
    refl,
    (
      2,
      refl,
      (λ e. omega (arith, e)),
      refl,
      (null, refl, (λ e. omega (arith, e)), refl, (refl, tt)),
    ),
  );
  counted = refl;
  small = omega arith;
  once = λ a. ground arith;
  made = λ a h. ground arith;
  started = omega arith;
  pooled = λ a h. (node 6 null, ground arith);
}

abbrev two-IsLoose : IsLoose two cells 5
two-IsLoose = record {
  ne_null = λ e. omega (arith, e);
  made = omega arith;
  apart = refl;
  held = (node 9 null, refl);
}

push_front_lem_example :
    (l' : LocklessList ℕ) × (push_front 5 two ≡ some l')
    × IsList l' ((5, 9) ∷ cells)
    × (l'.front ≡ 1)
    × (l'.obj_pool ≡ 4 ∷ [])
push_front_lem_example = push_front_lem two cells 5 two-IsList two-IsLoose (omega arith)

erase_after_lem_example :
    (l' : LocklessList ℕ) × (erase_after 3 two ≡ some l')
    × IsList l' ((3, 8) ∷ [])
    × (l'.front ≡ 1)
    × (l'.obj_pool ≡ 4 ∷ 2 ∷ [])
erase_after_lem_example = erase_after_lem two ((3, 8) ∷ []) ((2, 7) ∷ []) two-IsList

destroy_lem_example : destroy two ≡ some (4 ∷ 1 ∷ 3 ∷ 2 ∷ [])
destroy_lem_example = destroy_lem two cells two-IsList
