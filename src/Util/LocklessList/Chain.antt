-- ===== src/Util/LocklessList/Chain.antt =====
-- What a list of src/util/containers/lockless_list.h stands for: its nodes in order, each with its
-- address, and the facts that hold of it between two calls.
use recomm_engine.Prelude.{
  ◌+◌, ◌≤◌, ◌<◌, ◌≡◌, ◌≢◌, ◌⊎◌, refl, ap, suc, some, List, [], ◌∷◌, ◌++◌, arith, length, count,
  ◌==◌, ==_refl, false, Bool-cases, inl, inr,
}
use recomm_engine.Util.LocklessList.{
  Ptr, null, ListNode, node, Store, LocklessList, write, load, set_next, set_value, u32_mod,
}

abbrev pub Cells {ℓ} : Type ℓ → Type ℓ
Cells A = List (Ptr × A)

module _ {ℓ} {A : Type ℓ} where
  abbrev pub addresses : Cells A → List Ptr
  addresses [] = []
  addresses ((a, v) ∷ xs) = a ∷ addresses xs

  abbrev pub values : Cells A → List A
  values [] = []
  values ((a, v) ∷ xs) = v ∷ values xs

  pub values-append : (xs ys : Cells A) → values (xs ++ ys) ≡ values xs ++ values ys
  values-append [] ys = refl
  values-append ((a, v) ∷ xs) ys = ap (◌∷◌ v) (values-append xs ys)

  pub length-values : (xs : Cells A) → length (values xs) ≡ length xs
  length-values [] = refl
  length-values ((a, v) ∷ xs) = ap suc (length-values xs)

  -- From `p` the `next` pointers lead through the nodes `xs` to null.
  abbrev pub Chain : Store A → Ptr → Cells A → Type ℓ
  Chain s p [] = Path Ptr p null × Unit {ℓ}
  Chain s p ((a, v) ∷ xs) =
      (q : Ptr) × (p ≡ a) × (a ≢ null) × (s a ≡ some (node v q)) × Chain s q xs

  -- A write to another node.
  pub Chain-write :
      (s : Store A) (p w : Ptr) (n : ListNode A) (xs : Cells A)
      → count w (addresses xs) ≡ 0
      → Chain s p xs
      → Chain (write s w n) p xs
  Chain-write s p w n [] out c = c
  Chain-write s p w n ((a, v) ∷ xs) out (q, e, ne, holds, rest) =
      (q, e, ne, ground arith, Chain-write s q w n xs (ground arith) rest)

  -- Following a pointer to a node, and writing through it.
  pub load-ok :
      (s : Store A) (p : Ptr) {n : ListNode A} → p ≢ null → s p ≡ some n → load s p ≡ some n
  unfolding load
  load-ok s p ne e = let live : (p == null) ≡ false = ground arith in rw live e

  pub set_next-ok :
      (s : Store A) (p q : Ptr) {n : ListNode A}
      → p ≢ null
      → s p ≡ some n
      → set_next s p q ≡ some (write s p (node n.value q))
  unfolding set_next
  set_next-ok s p q ne e = rw (load-ok s p ne e)

  pub set_value-ok :
      (s : Store A) (p : Ptr) (v : A) {n : ListNode A}
      → p ≢ null
      → s p ≡ some n
      → set_value s p v ≡ some (write s p (node v n.next))
  unfolding set_value
  set_value-ok s p v ne e = rw (load-ok s p ne e)

  pub write-eq : (s : Store A) (p : Ptr) (n : ListNode A) → write s p n p ≡ some n
  write-eq s p n = rw (==_refl p)

  pub write-ne : (s : Store A) (p q : Ptr) (n : ListNode A) → p ≢ q → write s p n q ≡ s q
  write-ne s p q n ne = let other : (q == p) ≡ false = ground arith in rw other

  -- A write leaves no node without a value.
  pub held-write :
      (s : Store A) (w : Ptr) (n : ListNode A) (a : Ptr)
      → (m : ListNode A) × (s a ≡ some m)
      → (m : ListNode A) × (write s w n a ≡ some m)
  held-write s w n a (m, e) = elim (Bool-cases (a == w)) [
    | inl hit ↦ (n, rw hit)
    | inr miss ↦ (m, rw miss e)
  ]

  -- The list holds `xs`, newest first. The fake front is no part of them.
  pub record IsList (l : LocklessList A) (xs : Cells A) : Type ℓ where
    pub fake : A
    pub chain : Chain l.store l.front ((l.front, fake) ∷ xs)
    pub counted : l.node_num ≡ length xs
    pub small : length xs + 1 < u32_mod
    -- No node stands twice in the list and the pool.
    pub once : (a : Ptr) → count a (l.front ∷ addresses xs) + count a l.obj_pool ≤ 1
    -- They are nodes that have been made.
    pub made :
        (a : Ptr)
        → (a ≡ null) ⊎ (l.next_new ≤ a)
        → count a (l.front ∷ addresses xs) + count a l.obj_pool ≡ 0
    pub started : null < l.next_new
    pub pooled : (a : Ptr) → 0 < count a l.obj_pool → (n : ListNode A) × (l.store a ≡ some n)
