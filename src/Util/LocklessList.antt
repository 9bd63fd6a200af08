-- ===== src/Util/LocklessList.antt =====
-- src/util/containers/lockless_list.h: the list with a fake front node, and its node allocator.
-- Nodes stand at addresses in a store. Each list has an allocator of its own, and a node passes
-- from one to the other and is deleted only with them, so the store, the allocator's pool and the
-- list are one record. `new` hands out addresses in turn. `none` is a crash: a null or wild pointer
-- is followed, a `CHECK` fails, or a loop does not end within its fuel.
pub mod Chain
pub mod Erase
pub mod Push
pub mod Lifetime
mod Tests
use recomm_engine.Prelude.{
  ℕ, zero, suc, ◌+◌, ◌-◌, ◌%◌, ◌^◌, Bool, true, false, Option, none, some, List, [], ◌∷◌, ◌++◌,
  ◌==◌, leb, if◌then◌else◌, length, ◌>>=◌, ◌>>◌, check,
}

abbrev pub Ptr : Type 0
Ptr = ℕ

abbrev pub null : Ptr
null = 0

abbrev pub u32_mod : ℕ
u32_mod = 2 ^ 32

pub record ListNode {ℓ} (A : Type ℓ) : Type ℓ where
  pub value : A
  pub next : Ptr

abbrev pub node {ℓ} : {A : Type ℓ} → A → Ptr → ListNode A
node v q = record { value = v; next = q }

abbrev pub Store {ℓ} : Type ℓ → Type ℓ
Store A = Ptr → Option (ListNode A)

pub record LocklessList {ℓ} (A : Type ℓ) : Type ℓ where
  pub store : Store A
  -- The address that `new` returns next.
  pub next_new : Ptr
  pub front : Ptr
  pub node_num : ℕ
  -- The allocator: its pool of recycled nodes, and how many of them it holds back.
  pub obj_pool : List Ptr
  pub buffer_num : ℕ

module _ {ℓ} {A : Type ℓ} where
  abbrev pub write : Store A → Ptr → ListNode A → Store A
  write s p n q = if q == p then some n else s q

  unfoldable pub load : Store A → Ptr → Option (ListNode A)
  load s p = if p == null then none else s p

  unfoldable pub set_next : Store A → Ptr → Ptr → Option (Store A)
  set_next s p q = do n ← load s p; some (write s p (node n.value q))

  -- `p->data` is assigned to through the pointer that Allocate returned.
  unfoldable pub set_value : Store A → Ptr → A → Option (Store A)
  set_value s p v = do n ← load s p; some (write s p (node v n.next))

  -- `new ListNode<Type>()` holds `new Type()`, here `v`.
  abbrev pub new_node : A → LocklessList A → LocklessList A × Ptr
  new_node v l = (
    record l { store = write l.store l.next_new (node v null); next_new = suc l.next_new },
    l.next_new,
  )

  -- A recycled node keeps the value that it had.
  abbrev pub take_pooled : List Ptr → LocklessList A → Option (LocklessList A × Ptr)
  take_pooled [] l = none
  take_pooled (p ∷ ps) l = do
    s ← set_next l.store p null
    some (record l { store = s; obj_pool = ps }, p)

  unfoldable pub allocate : A → LocklessList A → Option (LocklessList A × Ptr)
  allocate v l =
      if leb (length l.obj_pool) l.buffer_num then some (new_node v l) else take_pooled l.obj_pool l

  -- Recycle: the nodes from `p` on go to the back of the pool, and are counted.
  unfoldable pub recycle : ℕ → Store A → Ptr → List Ptr → ℕ → Option (List Ptr × ℕ)
  recycle zero s p pool count = none
  recycle (suc fuel) s p pool count =
      if p == null
      then some (pool, count)
      else do n ← load s p; recycle fuel s n.next (pool ++ p ∷ []) ((count + 1) % u32_mod)

  -- The constructor, with an allocator of its own: a list of the fake front alone.
  unfoldable pub new : A → Option (LocklessList A)
  new v = do
    (l, p) ← allocate v (record {
      store = λ _. none;
      next_new = 1;
      front = null;
      node_num = 0;
      obj_pool = [];
      buffer_num = 0;
    })
    s ← set_next l.store p null
    some (record l { store = s; front = p })

  -- The destructor's `CHECK` on the number of nodes.
  unfoldable pub destroy : LocklessList A → Option (List Ptr)
  destroy l = do
    (pool, count) ← recycle (l.node_num + 2) l.store l.front l.obj_pool 0
    check (count == (l.node_num + 1) % u32_mod)
    some pool

  unfoldable pub push_front : Ptr → LocklessList A → Option (LocklessList A)
  push_front p l = do
    f ← load l.store l.front
    s ← set_next l.store p f.next
    s' ← set_next s l.front p
    some (record l { store = s'; node_num = (l.node_num + 1) % u32_mod })

  unfoldable pub erase_after : Ptr → LocklessList A → Option (LocklessList A)
  erase_after p l = if p == null then some l else do
    n ← load l.store p
    s ← set_next l.store p null
    (pool, count) ← recycle (l.node_num + 2) s n.next l.obj_pool 0
    some (record l {
      store = s;
      obj_pool = pool;
      node_num = (l.node_num + u32_mod - count) % u32_mod;
    })

  unfoldable pub is_empty : LocklessList A → Option Bool
  is_empty l = do
    f ← load l.store l.front
    if f.next == null then check (l.node_num == 0) >> some true else some false

  unfoldable pub reset : LocklessList A → Option (LocklessList A)
  reset l = do l' ← erase_after l.front l; e ← is_empty l'; check e; some l'
