-- ===== src/Retrieval/Asynchronous/LinkedList/Ring.antt =====
-- The ring of src/retrieval/asynchronous/linked_list.h as a sequence of nodes.
use mathlib.Core.List.{reverse, reverse-cons, reverse-append, reverse-reverse}
use recomm_engine.Prelude.{
  ◌+◌, ◌≤◌, ◌≡◌, ◌≢◌, refl, sym, ap, subst, ◌∙◌, Bool-cases, inl, inr, List, [], ◌∷◌, ◌++◌,
  append_assoc, ◌==◌, ==_iff, count, count-append, arith,
}
use recomm_engine.Retrieval.Asynchronous.LinkedList.{Ptr, Links}

-- From `p` the pointers `f` lead through these nodes to `t`.
abbrev pub Leads : (Ptr → Ptr) → Ptr → List Ptr → Ptr → Type 0
Leads f p [] t = f p ≡ t
Leads f p (x ∷ xs) t = (f p ≡ x) × Leads f x xs t

abbrev pub last_from : Ptr → List Ptr → Ptr
last_from p [] = p
last_from p (x ∷ xs) = last_from x xs

abbrev pub first_or : List Ptr → Ptr → Ptr
first_or [] t = t
first_or (x ∷ xs) t = x

Leads-frame :
    (f g : Ptr → Ptr) (p : Ptr) (xs : List Ptr) (t : Ptr)
    → ((a : Ptr) → 1 ≤ count a (p ∷ xs) → g a ≡ f a)
    → Leads f p xs t
    → Leads g p xs t
Leads-frame f g p [] t same h = same p (ground arith) ∙ h
Leads-frame f g p (x ∷ xs) t same h =
    (same p (ground arith) ∙ h.0, Leads-frame f g x xs t (λ a i. same a (ground (arith, i))) h.1)

-- `g` is `f` with `n` behind the node `p`.
pub record Inserted (f g : Ptr → Ptr) (p n : Ptr) : Type 0 where
  pub before : g p ≡ n
  pub after : g n ≡ f p
  pub rest : (a : Ptr) → a ≢ p → a ≢ n → g a ≡ f a

last_from-mem : (p : Ptr) (xs : List Ptr) → 1 ≤ count (last_from p xs) (p ∷ xs)
last_from-mem p [] = ground arith
last_from-mem p (x ∷ xs) = ground (arith, last_from-mem x xs)

pub last_from-append : (p : Ptr) (xs : List Ptr) (y : Ptr) → last_from p (xs ++ y ∷ []) ≡ y
last_from-append p [] y = refl
last_from-append p (x ∷ xs) y = last_from-append x xs y

-- The nodes stand once each in `p ∷ xs ++ ys`, and `n` is none of them.
abbrev Apart : Ptr → Ptr → List Ptr → List Ptr → Type 0
Apart n p xs ys = (a : Ptr) → count a (n ∷ p ∷ xs) + count a ys ≤ 1

insert-Leads :
    (f g : Ptr → Ptr) (n p : Ptr) (xs ys : List Ptr) (t : Ptr)
    → Inserted f g (last_from p xs) n
    → Apart n p xs ys
    → Leads f p (xs ++ ys) t
    → Leads g p (xs ++ n ∷ ys) t
insert-Leads f g n p [] [] t ins once h = (ins.before, ins.after ∙ h)
insert-Leads f g n p [] (y ∷ ys) t ins once h = (
  ins.before,
  (
    ins.after ∙ h.0,
    Leads-frame f g y ys t
        (λ a i.
          ins.rest a (λ e. absurd (ground (arith, once p, i, e)))
            (λ e. absurd (ground (arith, once n, i, e))))
        h.1,
  ),
)
insert-Leads f g n p (x ∷ xs) ys t ins once h = (
  ins.rest p (λ e. absurd (ground (arith, once p, last_from-mem x xs, e)))
        (λ e. absurd (ground (arith, once p, e)))
      ∙ h.0,
  insert-Leads f g n x xs ys t ins (λ a. ground (arith, once a)) h.1,
)

-- `g` is `f` without the node behind `p`, which is `x`.
pub record Deleted (f g : Ptr → Ptr) (p x : Ptr) : Type 0 where
  pub past : g p ≡ f x
  pub rest : (a : Ptr) → a ≢ p → g a ≡ f a

delete-Leads :
    (f g : Ptr → Ptr) (x p : Ptr) (xs ys : List Ptr) (t : Ptr)
    → Deleted f g (last_from p xs) x
    → Apart x p xs ys
    → Leads f p (xs ++ x ∷ ys) t
    → Leads g p (xs ++ ys) t
delete-Leads f g x p [] [] t gone once h = gone.past ∙ h.1
delete-Leads f g x p [] (y ∷ ys) t gone once h = (
  gone.past ∙ h.1.0,
  Leads-frame f g y ys t (λ a i. gone.rest a (λ e. absurd (ground (arith, once p, i, e)))) h.1.1,
)
delete-Leads f g x p (z ∷ xs) ys t gone once h = (
  gone.rest p (λ e. absurd (ground (arith, once p, last_from-mem z xs, e))) ∙ h.0,
  delete-Leads f g x z xs ys t gone (λ a. ground (arith, once a)) h.1,
)

-- What a pointer of such a path is.
Leads-at :
    (f : Ptr → Ptr) (p : Ptr) (xs ys : List Ptr) (t : Ptr)
    → Leads f p (xs ++ ys) t
    → f (last_from p xs) ≡ first_or ys t
Leads-at f p [] [] t h = h
Leads-at f p [] (y ∷ ys) t h = h.0
Leads-at f p (x ∷ xs) ys t h = Leads-at f x xs ys t h.1

pub count-reverse : (a : Ptr) (xs : List Ptr) → count a (reverse xs) ≡ count a xs
count-reverse a [] = refl
count-reverse a (x ∷ xs) =
    ap (count a) (reverse-cons x xs)
    ∙ omega (arith, count-append a (reverse xs) (x ∷ []), count-reverse a xs)

last_from-reverse : (p : Ptr) (ys : List Ptr) → last_from p (reverse ys) ≡ first_or ys p
last_from-reverse p [] = refl
last_from-reverse p (y ∷ ys) =
    ap (last_from p) (reverse-cons y ys) ∙ last_from-append p (reverse ys) y

-- From the head, `next` leads through these nodes and back, and `prev` the other way round; no node
-- stands twice.
pub record IsRing (head : Ptr) (s : Links) (xs : List Ptr) : Type 0 where
  pub forth : Leads s.next head xs head
  pub back : Leads s.prev head (reverse xs) head
  pub once : (a : Ptr) → count a (head ∷ xs) ≤ 1

-- `s'` is `s` with `n` between the nodes `p` and `q`.
pub record Linked (s s' : Links) (p n q : Ptr) : Type 0 where
  pub behind : Inserted s.next s'.next p n
  pub in_front : Inserted s.prev s'.prev q n

reverse-middle :
    (xs : List Ptr) (n : Ptr) (ys : List Ptr)
    → reverse (xs ++ n ∷ ys) ≡ reverse ys ++ n ∷ reverse xs
reverse-middle xs n ys =
    reverse-append xs (n ∷ ys)
    ∙ ap (λ l. l ++ reverse xs) (reverse-cons n ys)
    ∙ append_assoc (reverse ys) (n ∷ []) (reverse xs)

new-Apart :
    (head n : Ptr) (xs ys : List Ptr)
    → ((a : Ptr) → count a (head ∷ (xs ++ ys)) ≤ 1)
    → count n (head ∷ (xs ++ ys)) ≡ 0
    → Apart n head xs ys
new-Apart head n xs ys once new a = elim (Bool-cases (n == a)) [
  | inl hit ↦
      let none_there : count a (head ∷ (xs ++ ys)) ≡ 0 =
        subst (λ k. count k (head ∷ (xs ++ ys)) ≡ 0) ((==_iff n a).0 hit) new in
      ground (arith, hit, none_there, count-append a xs ys)
  | inr miss ↦ ground (arith, miss, once a, count-append a xs ys)
]

-- Read from the head backwards, the two parts change places.
Apart-reverse :
    (head n : Ptr) (xs ys : List Ptr) → Apart n head xs ys → Apart n head (reverse ys) (reverse xs)
Apart-reverse head n xs ys apart a = ground (arith, apart a, count-reverse a xs, count-reverse a ys)

pub Linked-IsRing :
    (head n : Ptr) (xs ys : List Ptr) (s s' : Links)
    → IsRing head s (xs ++ ys)
    → count n (head ∷ (xs ++ ys)) ≡ 0
    → Linked s s' (last_from head xs) n (first_or ys head)
    → IsRing head s' (xs ++ n ∷ ys)
Linked-IsRing head n xs ys s s' ring new link =
    let apart = new-Apart head n xs ys ring.once new in
    record {
      forth = insert-Leads s.next s'.next n head xs ys head link.behind apart ring.forth;
      back =
          subst (λ l. Leads s'.prev head l head) (sym (reverse-middle xs n ys))
            (insert-Leads s.prev s'.prev n head (reverse ys) (reverse xs) head
              (subst (λ p. Inserted s.prev s'.prev p n) (sym (last_from-reverse head ys))
                link.in_front)
              (Apart-reverse head n xs ys apart)
              (subst (λ l. Leads s.prev head l head) (reverse-append xs ys) ring.back));
      once = λ a. ground (arith, apart a, count-append a xs (n ∷ ys));
    }

-- `s'` is `s` without `x`, which stands between the nodes `p` and `q`.
pub record Unlinked (s s' : Links) (p x q : Ptr) : Type 0 where
  pub behind : Deleted s.next s'.next p x
  pub in_front : Deleted s.prev s'.prev q x

pub Unlinked-IsRing :
    (head x : Ptr) (xs ys : List Ptr) (s s' : Links)
    → IsRing head s (xs ++ x ∷ ys)
    → Unlinked s s' (last_from head xs) x (first_or ys head)
    → IsRing head s' (xs ++ ys)
Unlinked-IsRing head x xs ys s s' ring link =
    let apart : Apart x head xs ys = λ a. ground (arith, ring.once a, count-append a xs (x ∷ ys)) in
    record {
      forth = delete-Leads s.next s'.next x head xs ys head link.behind apart ring.forth;
      back =
          subst (λ l. Leads s'.prev head l head) (sym (reverse-append xs ys))
            (delete-Leads s.prev s'.prev x head (reverse ys) (reverse xs) head
              (subst (λ p. Deleted s.prev s'.prev p x) (sym (last_from-reverse head ys))
                link.in_front)
              (Apart-reverse head x xs ys apart)
              (subst (λ l. Leads s.prev head l head) (reverse-middle xs x ys) ring.back));
      once = λ a. ground (arith, apart a, count-append a xs ys);
    }

-- The neighbours of a place.
pub next_at :
    (head : Ptr) (xs ys : List Ptr) (s : Links)
    → IsRing head s (xs ++ ys)
    → s.next (last_from head xs) ≡ first_or ys head
next_at head xs ys s ring = Leads-at s.next head xs ys head ring.forth

pub prev_at :
    (head : Ptr) (xs ys : List Ptr) (s : Links)
    → IsRing head s (xs ++ ys)
    → s.prev (first_or ys head) ≡ last_from head xs
prev_at head xs ys s ring =
    ap s.prev (sym (last_from-reverse head ys))
    ∙ Leads-at s.prev head (reverse ys) (reverse xs) head
        (subst (λ l. Leads s.prev head l head) (reverse-append xs ys) ring.back)
    ∙ first_or-reverse head xs
  where
    first_or-reverse : (p : Ptr) (xs : List Ptr) → first_or (reverse xs) p ≡ last_from p xs
    first_or-reverse p xs =
        sym (last_from-reverse p (reverse xs)) ∙ ap (last_from p) (reverse-reverse xs)
