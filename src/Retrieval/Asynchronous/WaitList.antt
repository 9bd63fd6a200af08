-- ===== src/Retrieval/Asynchronous/WaitList.antt =====
-- src/retrieval/asynchronous/wait_list.h: the linked list under a mutex. Every method runs under the
-- mutex, so it is one step. A method that would wait on the condition variable answers `waits`, and is
-- made again when it is woken; so the signals leave no trace in the state.
pub mod Order
pub mod History
use recomm_engine.Prelude.{
  Bool, true, false, ◌&&◌, Option, none, some, List, [], ◌∷◌, if◌then◌else◌, ◌>>=◌,
}
use recomm_engine.Prelude.Int.{ℤ, pos, negsuc, ◌+ℤ◌, to_int32}
use recomm_engine.Retrieval.Asynchronous.LinkedList.{Ptr, Links, is_empty, entry, add, del}
use recomm_engine.Retrieval.Asynchronous.LinkedList

pub record WaitList : Type 0 where
  pub links : Links
  pub alive : Bool
  pub num : ℤ

pub data Op : Type 0 where
  put : Ptr → Op
  get get_from_head flush len : Op

pub data Reply : Type 0 where
  done : Reply
  got : Option Ptr → Reply
  size : ℤ → Reply
  waits : Reply

unfoldable pub flush_all : WaitList → WaitList
flush_all w = record w { alive = false }

-- `head` is the address of the list's own node.
module _ (head : Ptr) where
  -- The constructor, on the members that memory holds.
  unfoldable pub new : Links → WaitList
  unfolding LinkedList.empty
  new links = record { links = LinkedList.empty head links; alive = true; num = pos 0 }

  unfoldable pub put_node : Ptr → WaitList → WaitList
  put_node node w =
      if w.alive
      then record w { links = add head node w.links; num = to_int32 (w.num +ℤ pos 1) }
      else w

  -- `none` is the removal of an object that is not there.
  abbrev remove : Option Ptr → WaitList → Option (WaitList × Reply)
  remove none w = none
  remove (some x) w =
      some (record w { links = del x w.links; num = to_int32 (w.num +ℤ negsuc 0) }, got (some x))

  -- What `get` and `get_from_head` share; they differ in the end of the ring that they look at.
  unfoldable pub take_node : Ptr → WaitList → Option (WaitList × Reply)
  take_node node w =
      if w.alive && is_empty head w.links
      then some (w, waits)
      else if w.alive
      then remove (entry head node) w
      else some (w, got none)

  unfoldable pub step : WaitList → Op → Option (WaitList × Reply)
  step w (put node) = some (put_node node w, done)
  step w get = take_node (w.links.prev head) w
  step w get_from_head = take_node (w.links.next head) w
  step w flush = some (flush_all w, done)
  step w len = some (w, size w.num)

  unfoldable pub run : WaitList → List Op → Option (WaitList × List Reply)
  run w [] = some (w, [])
  run w (op ∷ ops) = do (w, r) ← step w op; (w, rs) ← run w ops; some (w, r ∷ rs)
