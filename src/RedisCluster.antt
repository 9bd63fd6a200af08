-- ===== src/RedisCluster.antt =====
-- The hash ring of src/redis_cluster.cc, and its servers in Servers. `hash` is CityHash32 of the C string that a text holds.
pub mod Owner
pub mod Servers
mod Tests
use recomm_engine.Prelude.{
  ℕ, zero, suc, ◌+◌, ◌/◌, ◌%◌, Option, none, some, List, [], ◌∷◌, ◌++◌, take, ltb, leb,
  if◌then◌else◌,
}
use recomm_engine.Util.Strings.{digits}
use recomm_engine.Prelude.Maps.{Map, find, assign, erase}
use recomm_engine.Prelude.Texts.{Text}

pub record Node : Type 0 where
  pub node_name : Text
  pub replicas : ℕ

-- `snprintf` into ten bytes keeps nine digits.
unfoldable pub to_string : ℕ → Text
to_string r = take 9 (digits 10 r)

module _ (hash : Text → ℕ) where
  -- The loop of AddNode, `n` replicas from the r-th on.
  unfoldable pub add_replicas : ℕ → ℕ → Text → ℕ → Map Node → Map Node
  add_replicas zero r node_name replicas ring = ring
  add_replicas (suc n) r node_name replicas ring = add_replicas n (r + 1) node_name replicas (
      assign (hash (node_name ++ to_string r))
        (record { node_name = node_name; replicas = replicas }) ring)

  unfoldable pub add_node : Text → ℕ → Map Node → Map Node
  add_node node_name replicas ring = add_replicas replicas 0 node_name replicas ring

  unfoldable pub erase_replicas : ℕ → ℕ → Text → Map Node → Map Node
  erase_replicas zero r node_name ring = ring
  erase_replicas (suc n) r node_name ring =
      erase_replicas n (r + 1) node_name (erase (hash (node_name ++ to_string r)) ring)

  -- `ring_[hash]` makes an empty node where there is none.
  abbrev touched : Option Node → ℕ → Map Node → ℕ × Map Node
  touched none h ring = (0, assign h (record { node_name = []; replicas = 0 }) ring)
  touched (some n) h ring = (n.replicas, ring)

  unfoldable pub remove_node : Text → Map Node → Map Node
  remove_node node_name ring =
      let h = hash (node_name ++ to_string 0) in
      let (replicas, ring) = touched (find h ring) h ring in
      erase_replicas replicas 0 node_name ring

unfoldable pub lower_bound : ℕ → Map Node → Option (ℕ × Node)
lower_bound h [] = none
lower_bound h ((k, n) ∷ ring) = if leb h k then some (k, n) else lower_bound h ring

-- Past the last node the first one is taken. An empty ring has none, and using it is a crash.
abbrev pub name_at : Option (ℕ × Node) → Map Node → Option Text
name_at (some (k, n)) ring = some n.node_name
name_at none [] = none
name_at none ((k, n) ∷ ring) = some n.node_name

unfoldable pub get_node : (Text → ℕ) → Text → Map Node → Option Text
get_node hash key ring = name_at (lower_bound (hash key) ring) ring
