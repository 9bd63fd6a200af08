-- ===== src/Util/LocklessList/Push.antt =====
-- Allocate and PushFront of src/util/containers/lockless_list.h.
use recomm_engine.Prelude.{
  ◌+◌, ◌<◌, ◌≡◌, ◌≢◌, inl, inr, refl, sym, ◌∙◌, Option, some, ap, List, [], ◌∷◌, ◌%◌, arith, length,
  count, leb, Bool-cases,
}
use recomm_engine.Util.LocklessList.{
  Ptr, null, ListNode, node, LocklessList, write, u32_mod, new_node, take_pooled, allocate,
  push_front,
}
use recomm_engine.Util.LocklessList.Chain.{
  Cells, addresses, Chain-write, write-eq, write-ne, load-ok, set_next-ok, held-write, IsList,
}

module _ {ℓ} {A : Type ℓ} where
  -- A node that the caller has, and neither the list nor the pool.
  pub record IsLoose (l : LocklessList A) (xs : Cells A) (p : Ptr) : Type ℓ where
    pub ne_null : p ≢ null
    pub made : p < l.next_new
    pub apart : count p (l.front ∷ addresses xs) + count p l.obj_pool ≡ 0
    pub held : (n : ListNode A) × (l.store p ≡ some n)

  pub record Allocated (l : LocklessList A) (xs : Cells A) (r : Option (LocklessList A × Ptr))
      : Type ℓ where
    pub list : LocklessList A
    pub node : Ptr
    pub returns : r ≡ some (list, node)
    pub is_list : IsList list xs
    pub is_loose : IsLoose list xs node
    pub same_front : list.front ≡ l.front

  module _ {l : LocklessList A} {xs : Cells A} (is : IsList l xs) where
    new_node-IsList : (v : A) → IsList (new_node v l).0 xs
    new_node-IsList v = record {
      fake = is.fake;
      chain =
          Chain-write l.store l.front l.next_new _ ((l.front, is.fake) ∷ xs)
            (ground (arith, is.made l.next_new)) is.chain;
      counted = is.counted;
      small = is.small;
      once = is.once;
      made = λ a h. ground (arith, is.made a);
      started = omega arith;
      pooled = λ a h. held-write l.store l.next_new (node v null) a (is.pooled a h);
    }

    new_node-IsLoose : (v : A) → IsLoose (new_node v l).0 xs l.next_new
    new_node-IsLoose v = record {
      ne_null = λ e. omega (arith, is.started, e);
      made = omega arith;
      apart = ground (arith, is.made l.next_new);
      held = (node v null, ground arith);
    }

  -- What the pool's first node is, with the pool in two parts.
  module _ {l : LocklessList A} {xs : Cells A} {p : Ptr} {ps : List Ptr} (is : IsList l xs)
      (e : l.obj_pool ≡ p ∷ ps) where
    abbrev in_pool : (a : Ptr) → count a l.obj_pool ≡ count a (p ∷ ps)
    in_pool a = ap (count a) e

    pooled_node : (n : ListNode A) × (l.store p ≡ some n) × (p ≢ null) × (p < l.next_new)
    pooled_node =
        let h = is.pooled p (ground (arith, in_pool p)) in
        (
          h.0,
          h.1,
          (λ z. ground (arith, in_pool p, is.made p)),
          ground (arith, in_pool p, is.made p),
        )

    pooled-IsList :
        (n : ListNode A) → IsList (record l { store = write l.store p n; obj_pool = ps }) xs
    pooled-IsList n = record {
      fake = is.fake;
      chain =
          Chain-write l.store l.front p n ((l.front, is.fake) ∷ xs)
            (ground (arith, is.once p, in_pool p)) is.chain;
      counted = is.counted;
      small = is.small;
      once = λ a. ground (arith, is.once a, in_pool a);
      made = λ a h. ground (arith, is.made a, in_pool a);
      started = is.started;
      pooled = λ a h. held-write l.store p n a (is.pooled a (ground (arith, in_pool a)));
    }

    pooled-IsLoose :
        (n : ListNode A) → IsLoose (record l { store = write l.store p n; obj_pool = ps }) xs p
    pooled-IsLoose n = record {
      ne_null = pooled_node.2;
      made = pooled_node.3;
      apart = ground (arith, is.once p, in_pool p);
      held = (n, ground arith);
    }

  take_pooled-Allocated :
      (l : LocklessList A) (xs : Cells A) (ps : List Ptr)
      → IsList l xs
      → l.obj_pool ≡ ps
      → ps ≢ []
      → Allocated l xs (take_pooled ps l)
  take_pooled-Allocated l xs [] is e ne = absurd (ne refl)
  take_pooled-Allocated l xs (p ∷ ps) is e ne =
      let (n, holds, ne_null, below) = pooled_node is e in
      record {
        list = record l { store = write l.store p (node n.value null); obj_pool = ps };
        node = p;
        returns = rw (set_next-ok l.store p null ne_null holds);
        is_list = pooled-IsList is e (node n.value null);
        is_loose = pooled-IsLoose is e (node n.value null);
        same_front = refl;
      }

  -- From the pool or by `new`, Allocate hands out a node that is in neither the list nor the pool, and
  -- keeps the list sound.
  pub allocate-Allocated :
      (v : A) (l : LocklessList A) (xs : Cells A) → IsList l xs → Allocated l xs (allocate v l)
  unfolding allocate
  allocate-Allocated v l xs is = elim (Bool-cases (leb (length l.obj_pool) l.buffer_num)) [
    | inl few ↦ rw few (record {
      list = (new_node v l).0;
      node = l.next_new;
      returns = refl;
      is_list = new_node-IsList is v;
      is_loose = new_node-IsLoose is v;
      same_front = refl;
    })
    | inr many ↦ rw many (take_pooled-Allocated l xs l.obj_pool is refl (λ e. ground arith))
  ]

  -- PushFront puts the caller's node, with its value, in front of the others.
  pub push_front_lem :
      (l : LocklessList A) (xs : Cells A) (p : Ptr)
      → IsList l xs
      → (h : IsLoose l xs p) → length xs + 2 < u32_mod
      → (l' : LocklessList A) × (push_front p l ≡ some l')
        × IsList l' ((p, h.held.0.value) ∷ xs)
        × (l'.front ≡ l.front)
        × (l'.obj_pool ≡ l.obj_pool)
  unfolding push_front
  push_front_lem l xs p is h room =
      let (q, e, ne, holds, rest) = is.chain in
      let (n, held) = h.held in
      let s1 = write l.store p (node n.value q) in
      let s2 = write s1 l.front (node is.fake p) in
      let other : p ≢ l.front = λ z. ground (arith, h.apart) in
      let front_holds : s1 l.front ≡ some (node is.fake q) =
        write-ne l.store p l.front _ other ∙ holds in
      (
        record l { store = s2; node_num = (l.node_num + 1) % u32_mod },
        rw (load-ok l.store l.front ne holds, set_next-ok l.store p q h.ne_null held)
            (rw (set_next-ok s1 l.front p ne front_holds)),
        record {
          fake = is.fake;
          chain = (
            p,
            refl,
            ne,
            write-eq s1 l.front _,
            (
              q,
              refl,
              h.ne_null,
              write-ne s1 l.front p _ (λ z. other (sym z)) ∙ write-eq l.store p _,
              Chain-write s1 q l.front _ xs (ground (arith, is.once l.front))
                  (Chain-write l.store q p _ xs (ground (arith, h.apart)) rest),
            ),
          );
          counted = ground (arith, is.counted, is.small);
          small = omega arith;
          once = λ a. ground (arith, is.once a, h.apart);
          made = λ a i. ground (arith, is.made a, h.apart, h.made, h.ne_null);
          started = is.started;
          pooled = λ a i. held-write s1 l.front _ a (held-write l.store p _ a (is.pooled a i));
        },
        refl,
        refl,
      )
