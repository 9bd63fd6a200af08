-- ===== src/Retrieval/Asynchronous/WaitList/Order.antt =====
-- The list of src/retrieval/asynchronous/wait_list.h is a queue: `get` hands out the oldest object.
use mathlib.Core.List.{reverse, reverse-cons, reverse-reverse, reverse-append}
use recomm_engine.Prelude.{
  ℕ, suc, ◌+◌, ◌^◌, ◌<◌, ◌≤◌, ◌≡◌, ◌≢◌, refl, sym, ap, subst, ◌∙◌, Bool, true, false, none, some,
  List, [], ◌∷◌, ◌++◌, length, length-append, append-nil, arith, count, count-append, ◌==◌,
  if◌then◌else◌,
}
use recomm_engine.Prelude.Int.{pos, negsuc, ◌+ℤ◌, to_int32}
use recomm_engine.Retrieval.Asynchronous.LinkedList.{Ptr, Links, is_empty, entry, add, del}
use recomm_engine.Retrieval.Asynchronous.LinkedList.Ring.{
  IsRing, first_or, next_at, prev_at, last_from-append, count-reverse,
}
use recomm_engine.Retrieval.Asynchronous.LinkedList.Operations.{
  empty-IsRing, add-IsRing, del-IsRing,
}
use recomm_engine.Retrieval.Asynchronous.WaitList.{
  WaitList, Op, Reply, put, get, get_from_head, flush, flush_all, len, done, got, size, waits,
  put_node, take_node, step, new,
}

-- The objects that wait, oldest first.
pub record Waiting : Type 0 where
  pub queue : List Ptr
  pub alive : Bool

abbrev pub take_oldest : List Ptr → Bool → List Ptr × Reply
take_oldest q false = (q, got none)
take_oldest [] true = ([], waits)
take_oldest (x ∷ xs) true = (xs, got (some x))

-- The specification.
unfoldable pub spec_step : Waiting → Op → Waiting × Reply
spec_step q (put x) = (if q.alive then record q { queue = q.queue ++ x ∷ [] } else q, done)
spec_step q get = let (rest, r) = take_oldest q.queue q.alive in (record q { queue = rest }, r)
spec_step q get_from_head =
    let (rest, r) = take_oldest (reverse q.queue) q.alive in (record q { queue = reverse rest }, r)
spec_step q flush = (record q { alive = false }, done)
spec_step q len = (q, size (pos (length q.queue)))

-- The ring holds the queue backwards.
pub record Represents (head : Ptr) (w : WaitList) (q : Waiting) : Type 0 where
  pub ring : IsRing head w.links (reverse q.queue)
  pub alike : w.alive ≡ q.alive
  pub counted : w.num ≡ pos (length q.queue)

-- A put is of an object that does not wait yet.
abbrev pub IsFree : Ptr → Waiting → Op → Type 0
IsFree head q (put x) = count x (head ∷ q.queue) ≡ 0
IsFree head q op = Unit

pub length-reverse : (xs : List Ptr) → length (reverse xs) ≡ length xs
length-reverse [] = refl
length-reverse (x ∷ xs) =
    ap length (reverse-cons x xs)
    ∙ omega (arith, length-append (reverse xs) (x ∷ []), length-reverse xs)

int32_up : (n : ℕ) → n + 1 < 2 ^ 31 → to_int32 (pos n +ℤ pos 1) ≡ pos (n + 1)
unfolding to_int32 ◌+ℤ◌
int32_up n h = ground arith

int32_down : (n : ℕ) → n < 2 ^ 31 → to_int32 (pos (suc n) +ℤ negsuc 0) ≡ pos n
unfolding to_int32 ◌+ℤ◌
int32_down n h = ground arith

module _ (head : Ptr) where
  first_or-apart :
      (front : List Ptr) (x : Ptr) (back : List Ptr)
      → count head (head ∷ (front ++ x ∷ back)) ≤ 1
      → first_or (front ++ x ∷ back) head ≢ head
  first_or-apart [] x back once e = absurd (ground (arith, once, e))
  first_or-apart (y ∷ front) x back once e = absurd (ground (arith, once, e))

  not_empty :
      (s : Links) (front : List Ptr) (x : Ptr) (back : List Ptr)
      → IsRing head s (front ++ x ∷ back)
      → is_empty head s ≡ false
  unfolding is_empty
  not_empty s front x back ring =
      let there = next_at head [] (front ++ x ∷ back) s ring in
      let other = first_or-apart front x back (ring.once head) in ground (arith, there, other)

  taken_lem :
      (w : WaitList) (front back : List Ptr) (x node : Ptr) (n : ℕ)
      → IsRing head w.links (front ++ x ∷ back)
      → node ≡ x
      → w.alive ≡ true
      → w.num ≡ pos (suc n)
      → n < 2 ^ 31
      → take_node head node w ≡ some (record w { links = del x w.links; num = pos n }, got (some x))
  unfolding take_node entry
  taken_lem w front back x node n ring there lives counted small =
      let off : (x == head) ≡ false =
        ground (arith, ring.once head, count-append head front (x ∷ back)) in
      rw lives (
        rw (not_empty w.links front x back ring)
          (rw there (rw off (rw counted (rw (int32_down n small) refl)))))

  record Refined (w : WaitList) (q : Waiting) (op : Op) : Type 0 where
    after : WaitList
    run : step head w op ≡ some (after, (spec_step q op).1)
    kept : Represents head after (spec_step q op).0

  flushed_lem :
      (w : WaitList) (node : Ptr) → w.alive ≡ false → take_node head node w ≡ some (w, got none)
  unfolding take_node
  flushed_lem w node e = rw e refl

  waits_lem :
      (w : WaitList) (node : Ptr)
      → w.alive ≡ true
      → IsRing head w.links []
      → take_node head node w ≡ some (w, waits)
  unfolding take_node is_empty
  waits_lem w node e ring = ground (arith, ring.forth)

  get-Refined :
      (w : WaitList) (queue : List Ptr) (alive : Bool)
      → let q : Waiting = record { queue = queue; alive = alive } in
        Represents head w q → length queue < 2 ^ 31 → Refined w q get
  unfolding step spec_step
  get-Refined w queue false r small = record {
    after = w;
    run = flushed_lem w (w.links.prev head) r.alike;
    kept = r;
  }
  get-Refined w [] true r small = record {
    after = w;
    run = waits_lem w (w.links.prev head) r.alike r.ring;
    kept = r;
  }
  get-Refined w (x ∷ xs) true r small =
      let news = reverse xs in
      let ring : IsRing head w.links (news ++ x ∷ []) =
        subst (IsRing head w.links) (reverse-cons x xs) r.ring in
      let last : w.links.prev head ≡ x =
        prev_at head (news ++ x ∷ []) [] w.links
          (subst (IsRing head w.links) (sym (append-nil (news ++ x ∷ []))) ring)
        ∙ last_from-append head news x in
      record {
        after = record w { links = del x w.links; num = pos (length xs) };
        run =
            taken_lem w news [] x (w.links.prev head) (length xs) ring last r.alike r.counted
              (omega arith);
        kept = record {
          ring =
              subst (IsRing head (del x w.links)) (append-nil news)
                (del-IsRing head x news [] w.links ring);
          alike = r.alike;
          counted = refl;
        };
      }

  newest-Refined :
      (w : WaitList) (queue news : List Ptr) (alive : Bool)
      → reverse queue ≡ news
      → let q : Waiting = record { queue = queue; alive = alive } in
        Represents head w q → length queue < 2 ^ 31 → Refined w q get_from_head
  unfolding step spec_step
  newest-Refined w queue news false e r small = record {
    after = w;
    run = flushed_lem w (w.links.next head) r.alike;
    kept = rw (reverse-reverse queue) r;
  }
  newest-Refined w queue [] true e r small = record {
    after = w;
    run = rw e (waits_lem w (w.links.next head) r.alike (subst (IsRing head w.links) e r.ring));
    kept = rw e (
        subst (λ l. Represents head w (record { queue = l; alive = true }))
          (sym (reverse-reverse queue) ∙ ap reverse e) r);
  }
  newest-Refined w queue (x ∷ news) true e r small =
      let ring : IsRing head w.links (x ∷ news) = subst (IsRing head w.links) e r.ring in
      let size : length queue ≡ suc (length news) = sym (length-reverse queue) ∙ ap length e in
      record {
        after = record w { links = del x w.links; num = pos (length news) };
        run = rw e (
            taken_lem w [] news x (w.links.next head) (length news) ring ring.forth.0 r.alike
              (r.counted ∙ ap pos size) (omega arith));
        kept = rw e (record {
          ring = rw (reverse-reverse news) (del-IsRing head x [] news w.links ring);
          alike = r.alike;
          counted = ap pos (sym (length-reverse news));
        });
      }

  put-Refined :
      (w : WaitList) (x : Ptr) (queue : List Ptr) (alive : Bool)
      → let q : Waiting = record { queue = queue; alive = alive } in
        Represents head w q
        → IsFree head q (put x)
        → length queue + 1 < 2 ^ 31
        → Refined w q (put x)
  unfolding step spec_step put_node
  put-Refined w x queue false r free small = record { after = w; run = rw (r.alike) refl; kept = r }
  put-Refined w x queue true r free small = record {
    after = record w { links = add head x w.links; num = pos (length queue + 1) };
    run = rw (r.alike) (rw (r.counted) (rw (int32_up (length queue) small) refl));
    kept = record {
      ring = subst (IsRing head (add head x w.links)) (sym (reverse-append queue (x ∷ []))) (
          add-IsRing head x (reverse queue) w.links r.ring
            (omega (arith, free, count-reverse x queue)));
      alike = r.alike;
      counted = ap pos (sym (length-append queue (x ∷ [])));
    };
  }

  rest-Refined :
      (w : WaitList) (q : Waiting) → Represents head w q → Refined w q flush × Refined w q len
  unfolding step spec_step flush_all
  rest-Refined w q r = (
    record {
      after = record w { alive = false };
      run = refl;
      kept = record { ring = r.ring; alike = refl; counted = r.counted };
    },
    record { after = w; run = rw (r.counted) refl; kept = r },
  )

  -- Each call does what it does to a queue: `get` takes the oldest object, `get_from_head` the newest,
  -- both wait where there is none, and after `flush` nothing goes in or out, nor waits.
  pub step-refines :
      (w : WaitList) (q : Waiting) (op : Op)
      → Represents head w q
      → IsFree head q op
      → length q.queue + 1 < 2 ^ 31
      → (w' : WaitList) × (step head w op ≡ some (w', (spec_step q op).1))
        × Represents head w' (spec_step q op).0
  step-refines w q op r free small = let f = go op free in (f.after, f.run, f.kept)
    where
      go : (op : Op) → IsFree head q op → Refined w q op
      go (put x) free = put-Refined w x q.queue q.alive r free small
      go get free = get-Refined w q.queue q.alive r (omega arith)
      go get_from_head free =
          newest-Refined w q.queue (reverse q.queue) q.alive refl r (omega arith)
      go flush free = (rest-Refined w q r).0
      go len free = (rest-Refined w q r).1

  pub new-Represents :
      (s : Links) → Represents head (new head s) (record { queue = []; alive = true })
  unfolding new
  new-Represents s = record { ring = empty-IsRing head s; alike = refl; counted = refl }
