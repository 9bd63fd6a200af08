-- ===== src/Util/LocklessList/Erase.antt =====
-- EraseAfter and Recycle of src/util/containers/lockless_list.h.
use recomm_engine.Prelude.{
  ℕ, zero, suc, ◌+◌, ◌-◌, ◌%◌, ◌≤◌, ◌<◌, ◌≡◌, ◌≢◌, refl, sym, ap, ◌∙◌, some, false, List, [], ◌∷◌,
  ◌++◌, arith, length, length-append, count, count-append, append-nil, append_assoc, ◌==◌, ltb,
  Bool-cases, ==_iff, inl, inr,
}
use recomm_engine.Util.LocklessList.{
  Ptr, null, ListNode, node, Store, LocklessList, write, u32_mod, recycle, erase_after,
}
use recomm_engine.Util.LocklessList.Chain.{
  Cells, addresses, Chain, Chain-write, write-eq, write-ne, load-ok, set_next-ok, held-write,
  IsList,
}

-- The node behind which `EraseAfter` cuts: the last of those that stay, or the fake front.
abbrev pub last_address {ℓ} : {A : Type ℓ} → Ptr → Cells A → Ptr
last_address p [] = p
last_address p ((a, v) ∷ xs) = last_address a xs

module _ {ℓ} {A : Type ℓ} where
  pub addresses-append : (xs ys : Cells A) → addresses (xs ++ ys) ≡ addresses xs ++ addresses ys
  addresses-append [] ys = refl
  addresses-append ((a, v) ∷ xs) ys = ap (◌∷◌ a) (addresses-append xs ys)

  pub length-addresses : (xs : Cells A) → length (addresses xs) ≡ length xs
  length-addresses [] = refl
  length-addresses ((a, v) ∷ xs) = ap suc (length-addresses xs)

  pub count-addresses-append :
      (a : Ptr) (xs ys : Cells A)
      → count a (addresses (xs ++ ys)) ≡ count a (addresses xs) + count a (addresses ys)
  count-addresses-append a xs ys =
      ap (count a) (addresses-append xs ys) ∙ count-append a (addresses xs) (addresses ys)

  pub last_address-mem : (a : Ptr) (xs : Cells A) → 0 < count (last_address a xs) (a ∷ addresses xs)
  last_address-mem a [] = ground arith
  last_address-mem a ((b, v) ∷ xs) = ground (arith, last_address-mem b xs)

  -- With fuel for every node the loop ends, at the end of the chain.
  pub recycle_lem :
      (fuel : ℕ) (s : Store A) (p : Ptr) (xs : Cells A) (pool : List Ptr) (c : ℕ)
      → Chain s p xs
      → length xs < fuel
      → c + length xs < u32_mod
      → recycle fuel s p pool c ≡ some (pool ++ addresses xs, c + length xs)
  unfolding recycle
  recycle_lem zero s p xs pool c ch f room = absurd (omega arith)
  recycle_lem (suc fuel) s p [] pool c ch f room = ground (arith, append-nil pool)
  recycle_lem (suc fuel) s p ((a, v) ∷ xs) pool c (q, e, ne, holds, rest) f room =
      let live : (p == null) ≡ false = ground arith in
      let small : (c + 1) % u32_mod ≡ c + 1 = omega arith in
      let there : s p ≡ some (node v q) = rw e holds in
      let order : (pool ++ p ∷ []) ++ addresses xs ≡ pool ++ a ∷ addresses xs =
        rw (append_assoc pool (p ∷ []) (addresses xs), e) in
      let total : c + 1 + length xs ≡ c + suc (length xs) = omega arith in
      rw (live, load-ok s p (λ z. ne (sym e ∙ z)) there, small)
        (recycle_lem fuel s q xs (pool ++ p ∷ []) (c + 1) rest (omega arith) (omega arith)
          ∙ (λ i. some (order i, total i)))

  Chain-held :
      (s : Store A) (q : Ptr) (xs : Cells A) (a : Ptr)
      → Chain s q xs
      → 0 < count a (addresses xs)
      → (n : ListNode A) × (s a ≡ some n)
  Chain-held s q [] a ch i = absurd (omega arith)
  Chain-held s q ((b, v) ∷ xs) a (r, e, ne, holds, rest) i = elim (Bool-cases (b == a)) [
    | inl hit ↦ (node v r, ap s (sym ((==_iff b a).0 hit)) ∙ holds)
    | inr miss ↦ Chain-held s r xs a rest (ground arith)
  ]

  pub record Cut (s : Store A) (p : Ptr) (a : Ptr) (v : A) (kept gone : Cells A) : Type ℓ where
    pub next : Ptr
    pub value : A
    pub holds : s (last_address a kept) ≡ some (node value next)
    pub ne_null : last_address a kept ≢ null
    pub rest : Chain s next gone
    pub cut : Chain (write s (last_address a kept) (node value null)) p ((a, v) ∷ kept)

  Chain-Cut :
      (s : Store A) (p a : Ptr) (v : A) (kept gone : Cells A)
      → ((x : Ptr) → count x (a ∷ addresses kept) ≤ 1)
      → Chain s p ((a, v) ∷ kept ++ gone)
      → Cut s p a v kept gone
  Chain-Cut s p a v [] gone u (q, e, ne, holds, rest) = record {
    next = q;
    value = v;
    holds = holds;
    ne_null = ne;
    rest = rest;
    cut = (null, e, ne, write-eq s a _, (refl, tt));
  }
  Chain-Cut s p a v ((b, w) ∷ kept) gone u (q, e, ne, holds, rest) =
      let c = Chain-Cut s q b w kept gone (λ x. ground (arith, u x)) rest in
      let other : last_address b kept ≢ a = λ z. ground (arith, u a, last_address-mem b kept) in
      record {
        next = c.next;
        value = c.value;
        holds = c.holds;
        ne_null = c.ne_null;
        rest = c.rest;
        cut = (q, e, ne, write-ne s (last_address b kept) a _ other ∙ holds, c.cut);
      }

  pub last_address-live :
      (l : LocklessList A) (kept gone : Cells A)
      → IsList l (kept ++ gone)
      → (last_address l.front kept == null) ≡ false
  last_address-live l kept gone is =
      ground
        (arith, is.made null, last_address-mem l.front kept, count-addresses-append null kept gone)

  -- The cut of a whole list, its fake front included.
  pub list-Cut :
      (l : LocklessList A) (kept gone : Cells A)
      → (is : IsList l (kept ++ gone)) → Cut l.store l.front l.front is.fake kept gone
  list-Cut l kept gone is =
      Chain-Cut l.store l.front l.front is.fake kept gone
        (λ x. ground (arith, is.once x, count-addresses-append x kept gone)) is.chain

  -- EraseAfter keeps the nodes up to the one that it is given. It hands the others to the pool, in
  -- order, and lowers `node_num_` by their number.
  pub erase_after_lem :
      (l : LocklessList A) (kept gone : Cells A)
      → IsList l (kept ++ gone)
      → (l' : LocklessList A) × (erase_after (last_address l.front kept) l ≡ some l')
        × IsList l' kept
        × (l'.front ≡ l.front)
        × (l'.obj_pool ≡ l.obj_pool ++ addresses gone)
  unfolding erase_after
  erase_after_lem l kept gone is =
      let last = last_address l.front kept in
      let split = count-addresses-append in
      let c = list-Cut l kept gone is in
      let live : (last == null) ≡ false = last_address-live l kept gone is in
      let s = write l.store last (node c.value null) in
      let m = length-append kept gone in
      let behind : count last (addresses gone) ≡ 0 =
        ground (arith, is.once last, split last kept gone, last_address-mem l.front kept) in
      let pool = l.obj_pool ++ addresses gone in
      let in_pool = λ (a : Ptr). count-append a l.obj_pool (addresses gone) in
      (
        record l {
          store = s;
          obj_pool = pool;
          node_num = (l.node_num + u32_mod - (0 + length gone)) % u32_mod;
        },
        rw
            (
              live,
              load-ok l.store last c.ne_null c.holds,
              set_next-ok l.store last null c.ne_null c.holds,
            )
            (rw (
              recycle_lem (l.node_num + 2) s c.next gone l.obj_pool 0
                (Chain-write l.store c.next last _ gone behind c.rest) (omega (arith, is.counted))
                (omega (arith, is.small)))),
        record {
          fake = is.fake;
          chain = c.cut;
          counted = omega (arith, is.counted, is.small);
          small = omega (arith, is.small);
          once = λ a. ground (arith, is.once a, split a kept gone, in_pool a);
          made = λ a h. ground (arith, is.made a, split a kept gone, in_pool a);
          started = is.started;
          pooled = λ a h.
              held-write l.store last _ a (elim (Bool-cases (ltb 0 (count a l.obj_pool))) [
                | inl old ↦ is.pooled a (ground arith)
                | inr new ↦ Chain-held l.store c.next gone a c.rest (ground (arith, in_pool a))
              ]);
        },
        refl,
        refl,
      )
