-- ===== src/Retrieval/Asynchronous/LinkedList/Operations.antt =====
-- The operations of src/retrieval/asynchronous/linked_list.h on the sequence of nodes.
use recomm_engine.Prelude.{
  ◌≡◌, ◌≢◌, refl, sym, ap, subst, ◌∙◌, Bool-cases, inl, inr, List, [], ◌∷◌, ◌++◌, ◌==◌, ==_iff,
  ==_refl, count, count-append, append_assoc, arith,
}
use recomm_engine.Retrieval.Asynchronous.LinkedList.{
  Ptr, Links, update, empty, add, add_prev, add_next, del,
}
use recomm_engine.Retrieval.Asynchronous.LinkedList.Ring.{
  first_or, last_from, Inserted, Deleted, IsRing, Linked-IsRing, Unlinked-IsRing, next_at, prev_at,
  last_from-append,
}

module _ (a b : Ptr) (f : Ptr → Ptr) where
  update-same : update a b f a ≡ b
  update-same = rw (==_refl a) refl

  update-other : (c : Ptr) → c ≢ a → update a b f c ≡ f c
  update-other c apart = elim (Bool-cases (c == a)) [
    | inl hit ↦ absurd (apart ((==_iff c a).0 hit))
    | inr miss ↦ rw miss refl
  ]

-- The two orders in which the two pointers are written.
module _ (f : Ptr → Ptr) (p n v : Ptr) (apart : p ≢ n) (was : f p ≡ v) where
  Inserted-first : Inserted f (update n v (update p n f)) p n
  Inserted-first = record {
    before = update-other n v (update p n f) p apart ∙ update-same p n f;
    after = update-same n v (update p n f) ∙ sym was;
    rest = λ a other_p other_n.
        update-other n v (update p n f) a other_n ∙ update-other p n f a other_p;
  }

  Inserted-last : Inserted f (update p n (update n v f)) p n
  Inserted-last = record {
    before = update-same p n (update n v f);
    after = update-other p n (update n v f) n (λ e. apart (sym e)) ∙ update-same n v f ∙ sym was;
    rest = λ a other_p other_n.
        update-other p n (update n v f) a other_p ∙ update-other n v f a other_n;
  }

last_from-apart :
    (head n : Ptr) (xs ys : List Ptr) → count n (head ∷ (xs ++ ys)) ≡ 0 → last_from head xs ≢ n
last_from-apart head n [] ys new e = absurd (ground (arith, new, e))
last_from-apart head n (x ∷ xs) ys new e = last_from-apart x n xs ys (ground (arith, new)) e

first_or-apart :
    (head n : Ptr) (xs ys : List Ptr) → count n (head ∷ (xs ++ ys)) ≡ 0 → first_or ys head ≢ n
first_or-apart head n xs [] new e = absurd (ground (arith, new, e))
first_or-apart head n xs (y ∷ ys) new e =
    absurd (ground (arith, new, e, count-append n xs (y ∷ ys)))

module _ (head : Ptr) where
  -- `empty` makes a ring of no nodes.
  pub empty-IsRing : (s : Links) → IsRing head (empty head s) []
  unfolding empty
  empty-IsRing s = record {
    forth = update-same head head s.next;
    back = update-same head head s.prev;
    once = λ a. ground arith;
  }

  pub add_next-IsRing :
      (n : Ptr) (xs ys : List Ptr) (s : Links)
      → IsRing head s (xs ++ ys)
      → count n (head ∷ (xs ++ ys)) ≡ 0
      → IsRing head (add_next n (last_from head xs) s) (xs ++ n ∷ ys)
  unfolding add_next
  add_next-IsRing n xs ys s ring new =
      let p = last_from head xs in
      let q = s.next p in
      let there : q ≡ first_or ys head = next_at head xs ys s ring in
      Linked-IsRing head n xs ys s (add_next n p s) ring new (record {
        behind = Inserted-last s.next p n q (last_from-apart head n xs ys new) refl;
        in_front =
            subst (λ r. Inserted s.prev (add_next n p s).prev r n) there
              (Inserted-first s.prev q n p (λ e. first_or-apart head n xs ys new (sym there ∙ e))
                (ap s.prev there ∙ prev_at head xs ys s ring));
      })

  pub add_prev-IsRing :
      (n : Ptr) (xs ys : List Ptr) (s : Links)
      → IsRing head s (xs ++ ys)
      → count n (head ∷ (xs ++ ys)) ≡ 0
      → IsRing head (add_prev n (first_or ys head) s) (xs ++ n ∷ ys)
  unfolding add_prev
  add_prev-IsRing n xs ys s ring new =
      let q = first_or ys head in
      let p = s.prev q in
      let there : p ≡ last_from head xs = prev_at head xs ys s ring in
      Linked-IsRing head n xs ys s (add_prev n q s) ring new (record {
        behind =
            subst (λ r. Inserted s.next (add_prev n q s).next r n) there
              (Inserted-first s.next p n q (λ e. last_from-apart head n xs ys new (sym there ∙ e))
                (ap s.next there ∙ next_at head xs ys s ring));
        in_front = Inserted-last s.prev q n p (first_or-apart head n xs ys new) refl;
      })

  pub add-IsRing :
      (n : Ptr) (xs : List Ptr) (s : Links)
      → IsRing head s xs
      → count n (head ∷ xs) ≡ 0
      → IsRing head (add head n s) (n ∷ xs)
  unfolding add add_next
  add-IsRing n xs s ring new = add_next-IsRing n [] xs s ring new

  -- The neighbours of a node in the ring.
  next_in :
      (x : Ptr) (xs ys : List Ptr) (s : Links)
      → IsRing head s (xs ++ x ∷ ys)
      → s.next x ≡ first_or ys head
  next_in x xs ys s ring =
      ap s.next (sym (last_from-append head xs x))
      ∙ next_at head (xs ++ x ∷ []) ys s
          (subst (IsRing head s) (sym (append_assoc xs (x ∷ []) ys)) ring)

  prev_in :
      (x : Ptr) (xs ys : List Ptr) (s : Links)
      → IsRing head s (xs ++ x ∷ ys)
      → s.prev x ≡ last_from head xs
  prev_in x xs ys s ring = prev_at head xs (x ∷ ys) s ring

  -- The predecessor that `del` reads a second time is the one it had.
  del_next :
      (x : Ptr) (s : Links) (a : Ptr) → (del x s).next a ≡ update (s.prev x) (s.next x) s.next a
  unfolding del
  del_next x s a = ground arith

  pub del-IsRing :
      (x : Ptr) (xs ys : List Ptr) (s : Links)
      → IsRing head s (xs ++ x ∷ ys)
      → IsRing head (del x s) (xs ++ ys)
  unfolding del
  del-IsRing x xs ys s ring =
      let p = s.prev x in
      let q = s.next x in
      Unlinked-IsRing head x xs ys s (del x s) ring (record {
        behind =
            subst (λ r. Deleted s.next (del x s).next r x) (prev_in x xs ys s ring)
              (record {
                past = del_next x s p ∙ update-same p q s.next;
                rest = λ a other. del_next x s a ∙ update-other p q s.next a other;
              });
        in_front =
            subst (λ r. Deleted s.prev (del x s).prev r x) (next_in x xs ys s ring)
              (record {
                past = update-same q p s.prev;
                rest = λ a other. update-other q p s.prev a other;
              });
      })
