-- ===== src/Retrieval/Asynchronous/LinkedList.antt =====
-- src/retrieval/asynchronous/linked_list.h: a ring of nodes that are members of the objects in it. An
-- object has the address of its node, since the offset between them is a constant.
pub mod Ring
pub mod Operations
use recomm_engine.Prelude.{ℕ, Bool, Option, none, some, ◌==◌, if◌then◌else◌}

abbrev pub Ptr : Type 0
Ptr = ℕ

-- The members `next` and `prev` of every node.
pub record Links : Type 0 where
  pub next : Ptr → Ptr
  pub prev : Ptr → Ptr

abbrev pub update : Ptr → Ptr → (Ptr → Ptr) → Ptr → Ptr
update a b f = λ c. if c == a then b else f c

abbrev pub set_next : Ptr → Ptr → Links → Links
set_next a b s = record s { next = update a b s.next }

abbrev pub set_prev : Ptr → Ptr → Links → Links
set_prev a b s = record s { prev = update a b s.prev }

unfoldable pub add_prev : Ptr → Ptr → Links → Links
add_prev node cur s =
    let s = set_next (s.prev cur) node s in
    let s = set_prev node (s.prev cur) s in let s = set_next node cur s in set_prev cur node s

unfoldable pub add_next : Ptr → Ptr → Links → Links
add_next node cur s =
    let s = set_prev (s.next cur) node s in
    let s = set_next node (s.next cur) s in let s = set_prev node cur s in set_next cur node s

unfoldable pub del : Ptr → Links → Links
del node s =
    let s = set_prev (s.next node) (s.prev node) s in set_next (s.prev node) (s.next node) s

-- `head` is the address of the list's own node.
module _ (head : Ptr) where
  -- The constructor, the assignment and `empty`.
  unfoldable pub empty : Links → Links
  empty s = set_next head head (set_prev head head s)

  unfoldable pub is_empty : Links → Bool
  is_empty s = s.next head == head

  unfoldable pub entry : Ptr → Option Ptr
  entry node = if node == head then none else some node

  unfoldable pub add : Ptr → Links → Links
  add node s =
      let s = set_prev (s.next head) node s in
      let s = set_next node (s.next head) s in let s = set_prev node head s in set_next head node s

  unfoldable pub next_of : Ptr → Links → Option Ptr
  next_of node s = if s.next node == head then none else some (s.next node)

  unfoldable pub prev_of : Ptr → Links → Option Ptr
  prev_of node s = if s.prev node == head then none else some (s.prev node)
