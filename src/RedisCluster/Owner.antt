-- ===== src/RedisCluster/Owner.antt =====
-- Which node of the ring of src/redis_cluster.cc a key belongs to.
use recomm_engine.Prelude.{
  ℕ, ◌≤◌, ◌<◌, ◌≡◌, ◌≢◌, refl, ◌∙◌, ◌⊎◌, inl, inr, true, false, Option, none, some, [], ◌∷◌, arith,
  ◌==◌, leb, Bool-cases,
}
use recomm_engine.Prelude.Maps.{Map, find, IsOrdered, Above, Above-IsOrdered}
use recomm_engine.Prelude.Texts.{Text}
use recomm_engine.RedisCluster.{Node, lower_bound, name_at, get_node}

-- A place on the ring that has a node.
abbrev pub Occupied : Map Node → ℕ → Type 0
Occupied ring j = find j ring ≢ none

-- The node at `k` is the first at or after `h`, or, where there is none, the first of all.
pub record Owns (ring : Map Node) (h k : ℕ) (node : Node) : Type 0 where
  pub there : find k ring ≡ some node
  pub first :
      ((h ≤ k) × ((j : ℕ) → Occupied ring j → h ≤ j → k ≤ j))
      ⊎ (((j : ℕ) → Occupied ring j → j < h) × ((j : ℕ) → Occupied ring j → k ≤ j))

find-Above : (j k : ℕ) (ring : Map Node) → Above k ring → j ≤ k → find j ring ≡ none
unfolding find
find-Above j k [] a h = refl
find-Above j k ((i, n) ∷ ring) a h = ground (arith, find-Above j i ring)

Occupied-cons :
    (j k : ℕ) (n : Node) (ring : Map Node) → Occupied ((k, n) ∷ ring) j → (k ≡ j) ⊎ Occupied ring j
unfolding find
Occupied-cons j k n ring o = elim (Bool-cases (k == j)) [
  | inl hit ↦ inl (ground arith)
  | inr miss ↦ inr (λ e. o (rw miss e))
]

below : (j k : ℕ) (n : Node) (ring : Map Node) → Above k ring → Occupied ((k, n) ∷ ring) j → k ≤ j
below j k n ring a o = elim (Occupied-cons j k n ring o) [
  | inl e ↦ omega arith
  | inr p ↦ elim (Bool-cases (leb j k)) [
    | inl low ↦ absurd (p (find-Above j k ring a (ground arith)))
    | inr high ↦ ground arith
  ]
]

-- What lower_bound finds.
abbrev Bound : Map Node → ℕ → Option (ℕ × Node) → Type 0
Bound ring h none = (j : ℕ) → Occupied ring j → j < h
Bound ring h (some (k, n)) =
    (find k ring ≡ some n) × (h ≤ k) × ((j : ℕ) → Occupied ring j → h ≤ j → k ≤ j)

find-behind :
    (k : ℕ) (n : Node) (i : ℕ) (ring : Map Node) → k < i → find i ((k, n) ∷ ring) ≡ find i ring
unfolding find
find-behind k n i ring h = let miss : (k == i) ≡ false = ground arith in rw miss refl

behind :
    (h k : ℕ) (n : Node) (ring : Map Node)
    → k < h
    → (r : Option (ℕ × Node)) → Bound ring h r
    → Bound ((k, n) ∷ ring) h r
behind h k n ring low none b =
    λ j p. elim (Occupied-cons j k n ring p) [ inl e ↦ omega arith | inr q ↦ b j q ]
behind h k n ring low (some (i, m)) b = (
  find-behind k n i ring (omega (arith, b.1)) ∙ b.0,
  b.1,
  λ j p le. elim (Occupied-cons j k n ring p) [ inl e ↦ absurd (omega arith) | inr q ↦ b.2 j q le ],
)

lower_bound_lem : (h : ℕ) (ring : Map Node) → IsOrdered ring → Bound ring h (lower_bound h ring)
unfolding lower_bound find
lower_bound_lem h [] o = λ j p. absurd (p refl)
lower_bound_lem h ((k, n) ∷ ring) o = elim (Bool-cases (leb h k)) [
  | inl low ↦
      let here : (k == k) ≡ true = ground arith in
      rw low (rw here refl, ground arith, λ j p le. below j k n ring o p)
  | inr high ↦ rw high (
      behind h k n ring (ground arith) (lower_bound h ring)
        (lower_bound_lem h ring (Above-IsOrdered k ring o)))
]

find-first : (k : ℕ) (n : Node) (ring : Map Node) → find k ((k, n) ∷ ring) ≡ some n
unfolding find
find-first k n ring = let here : (k == k) ≡ true = ground arith in rw here refl

-- On a ring that has a node, and whose nodes stand in order, a key is given to the first node at or
-- after its hash, and behind the last one to the first of all.
pub get_node_lem :
    (hash : Text → ℕ) (key : Text) (ring : Map Node)
    → IsOrdered ring
    → ring ≢ []
    → (k : ℕ) × (node : Node) × (get_node hash key ring ≡ some node.node_name)
      × Owns ring (hash key) k node
unfolding get_node
get_node_lem hash key [] o ne = absurd (ne refl)
get_node_lem hash key ((k, n) ∷ ring) o ne =
    go (lower_bound (hash key) ((k, n) ∷ ring)) (lower_bound_lem (hash key) ((k, n) ∷ ring) o)
  where
    go :
        (r : Option (ℕ × Node))
        → Bound ((k, n) ∷ ring) (hash key) r
        → (k' : ℕ) × (node : Node) × (name_at r ((k, n) ∷ ring) ≡ some node.node_name)
          × Owns ((k, n) ∷ ring) (hash key) k' node
    go none b = (
      k,
      n,
      refl,
      record { there = find-first k n ring; first = inr (b, λ j p. below j k n ring o p) },
    )
    go (some (i, m)) b = (i, m, refl, record { there = b.0; first = inl (b.1, b.2) })
