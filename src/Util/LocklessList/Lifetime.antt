-- ===== src/Util/LocklessList/Lifetime.antt =====
-- The constructor, IsEmpty, Reset and the destructor of src/util/containers/lockless_list.h.
use recomm_engine.Prelude.{
  ◌+◌, ◌≡◌, refl, none, some, true, false, Bool, [], ◌∷◌, ◌++◌, arith, length, ◌==◌, ◌%◌,
}
use recomm_engine.Util.LocklessList.{
  Ptr, null, LocklessList, u32_mod, node, write, load, set_next, allocate, new, destroy, is_empty,
  reset,
}
use recomm_engine.Util.LocklessList.Chain.{Cells, addresses, IsList, load-ok}
use recomm_engine.Util.LocklessList.Erase.{recycle_lem, erase_after_lem}

module _ {ℓ} {A : Type ℓ} where
  -- A new list is empty, and its pool too.
  pub new_lem : (v : A) → (l : LocklessList A) × (new v ≡ some l) × IsList l []
  unfolding new allocate set_next load
  new_lem v = (
    record {
      store = write (write (λ _. none) 1 (node v null)) 1 (node v null);
      next_new = 2;
      front = 1;
      node_num = 0;
      obj_pool = [];
      buffer_num = 0;
    },
    refl,
    record {
      fake = v;
      chain = (null, refl, (λ e. omega (arith, e)), refl, (refl, tt));
      counted = refl;
      small = omega arith;
      once = λ a. ground arith;
      made = λ a h. ground arith;
      started = omega arith;
      pooled = λ a h. absurd (omega arith);
    },
  )

  -- The `CHECK` of the destructor holds: it hands back every node, the fake front first.
  pub destroy_lem :
      (l : LocklessList A) (xs : Cells A)
      → IsList l xs
      → destroy l ≡ some (l.obj_pool ++ l.front ∷ addresses xs)
  unfolding destroy
  destroy_lem l xs is =
      let same : ((0 + length {A = Ptr × A} ((l.front, is.fake) ∷ xs))
            == (l.node_num + 1) % u32_mod)
          ≡ true =
        ground (arith, is.counted, is.small) in
      rw
        (recycle_lem (l.node_num + 2) l.store l.front ((l.front, is.fake) ∷ xs) l.obj_pool 0
          is.chain (omega (arith, is.counted)) (omega (arith, is.small)))
        (rw same)

  is_empty_nil : (l : LocklessList A) → IsList l [] → is_empty l ≡ some true
  unfolding is_empty
  is_empty_nil l is =
      let (q, e, ne, holds, end) = is.chain in
      let last : (q == null) ≡ true = ground (arith, end.0) in
      let none_left : (l.node_num == 0) ≡ true = ground (arith, is.counted) in
      rw (load-ok l.store l.front ne holds) (rw (last, none_left))

  is_empty_cons :
      (l : LocklessList A) (c : Ptr × A) (xs : Cells A)
      → IsList l (c ∷ xs)
      → is_empty l ≡ some false
  unfolding is_empty
  is_empty_cons l (a, v) xs is =
      let (q, e, ne, holds, rest) = is.chain in
      let more : (q == null) ≡ false = ground (arith, rest.1, rest.2) in
      rw (load-ok l.store l.front ne holds) (rw more)

  abbrev pub is_nil : Cells A → Bool
  is_nil [] = true
  is_nil (x ∷ xs) = false

  -- IsEmpty tells whether there is a node, and its `CHECK_EQ` on `node_num_` holds.
  pub is_empty_lem :
      (l : LocklessList A) (xs : Cells A) → IsList l xs → is_empty l ≡ some (is_nil xs)
  is_empty_lem l [] is = is_empty_nil l is
  is_empty_lem l (c ∷ xs) is = is_empty_cons l c xs is

  -- Reset recycles every node, and its `CHECK` holds.
  pub reset_lem :
      (l : LocklessList A) (xs : Cells A)
      → IsList l xs
      → (l' : LocklessList A) × (reset l ≡ some l')
        × IsList l' []
        × (l'.obj_pool ≡ l.obj_pool ++ addresses xs)
  unfolding reset
  reset_lem l xs is =
      let (l', run, is', same, pool) = erase_after_lem l [] xs is in
      (l', rw run (rw (is_empty_nil l' is')), is', pool)
