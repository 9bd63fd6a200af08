-- ===== src/AlgoPluginManager.antt =====
-- src/algo_plugin_manager.cc: the plugins by traffic bucket in two buffers, of which one is served
-- and the other is loaded. `P` is a plugin, null being `none`; `H` is a handle of the dynamic linker.
-- Boost's parser, tokenizer and `lexical_cast` are arguments. `none` is a crash or an exception.
pub mod Reload
mod Tests
use recomm_engine.Prelude.{
  ℕ, ◌+◌, ◌-◌, ◌%◌, ◌^◌, Bool, true, false, not, Option, none, some, List, [], ◌∷◌, ◌++◌, ◌==◌,
  if◌then◌else◌, ◌>>=◌,
}
use recomm_engine.Prelude.Maps.{Map, find, assign}
use recomm_engine.Prelude.Int.{ℤ, pos, negsuc, pos_part, ◌+ℤ◌, to_int32, eqb_ℤ}
use recomm_engine.Prelude.Texts.{Text}

pub record Dynamic (P H : Type 0) : Type 0 where
  pub dlopen : Text → Option H
  -- The symbol, called, and what it makes.
  pub dlsym : H → Text → Option (Option P)
  pub initialize : P → Text → P × ℤ
  pub lexical_cast : Text → Option ℤ

-- A configuration. The fields of a bucket are those between its colons.
pub record Config : Type 0 where
  pub num_buckets : Option ℤ
  pub default_bucket : ℤ
  pub plugin_path : Text
  pub buckets : List (List Text)

pub data ConfigFile : Type 0 where
  not_good : ConfigFile
  not_parsed : ConfigFile
  parsed : Config → ConfigFile

pub record Buffer (P : Type 0) : Type 0 where
  pub plugins : Map (Option P)
  pub default_plugin : Option P
  pub num_plugins : ℤ

pub record AlgoPluginManager (P : Type 0) : Type 0 where
  pub current_index : Bool
  pub buffers : Bool → Buffer P

-- An `int` as a key, in its order.
abbrev pub int_key : ℤ → ℕ
int_key k = pos_part (k +ℤ pos (2 ^ 31))

abbrev pub or_same : Option ℤ → ℤ → ℤ
or_same none n = n
or_same (some m) n = m

module _ {P : Type 0} where
  abbrev pub or_null : Option (Option P) → Option P
  or_null none = none
  or_null (some p) = p

  abbrev pub set_buffer : Bool → Buffer P → AlgoPluginManager P → AlgoPluginManager P
  set_buffer true b m = record m { buffers = λ i. if i then b else m.buffers false }
  set_buffer false b m = record m { buffers = λ i. if i then m.buffers true else b }

  -- From the loaded plugins on. `plugins_[index][default_bucket]` makes a null entry where there is
  -- none.
  abbrev pub finish :
      Config → Buffer P → AlgoPluginManager P → Map (Option P) × Bool → AlgoPluginManager P × Bool
  finish cfg b m (plugins, false) =
      (set_buffer (not m.current_index) (record b { plugins = plugins }) m, false)
  finish cfg b m (plugins, true) =
      let default_plugin = or_null (find (int_key cfg.default_bucket) plugins) in
      let plugins = assign (int_key cfg.default_bucket) default_plugin plugins in
      (
        record (set_buffer (not m.current_index)
            (record b { plugins = plugins; default_plugin = default_plugin }) m) {
              current_index = not m.current_index;
            },
        true,
      )

module _ {P H : Type 0} (dl : Dynamic P H) where
  abbrev configured : P × ℤ → Option P
  configured (plugin, status) = if eqb_ℤ status (pos 0) then some plugin else none

  unfoldable pub get_plugin_from_dylib : Text → Text → Text → Option P
  get_plugin_from_dylib dylib_file symbol_name config = do
    so_handle ← dl.dlopen dylib_file
    create ← dl.dlsym so_handle symbol_name
    result ← create
    configured (dl.initialize result config)

  -- "/lib", ".so", ".conf" and "__create_".
  abbrev plugin_of : Text → Text → Option P
  plugin_of plugin_path plugin_name =
      let lib = plugin_path ++ 47 ∷ 108 ∷ 105 ∷ 98 ∷ plugin_name in
      get_plugin_from_dylib (lib ++ 46 ∷ 115 ∷ 111 ∷ [])
        (95 ∷ 95 ∷ 99 ∷ 114 ∷ 101 ∷ 97 ∷ 116 ∷ 101 ∷ 95 ∷ plugin_name)
        (lib ++ 46 ∷ 99 ∷ 111 ∷ 110 ∷ 102 ∷ [])

  -- What one bucket gives: its id and its plugin, nothing if it cannot be loaded, or a crash where
  -- fields are missing.
  unfoldable pub read_bucket : Text → List Text → Option (Option (ℕ × P))
  read_bucket plugin_path [] = none
  read_bucket plugin_path (id ∷ fields) = with_id (dl.lexical_cast id) fields
    where
      with_plugin : ℤ → Option P → Option (Option (ℕ × P))
      with_plugin bucket_id none = some none
      with_plugin bucket_id (some plugin) = some (some (int_key bucket_id, plugin))

      with_id : Option ℤ → List Text → Option (Option (ℕ × P))
      with_id none fields = some none
      with_id (some bucket_id) [] = none
      with_id (some bucket_id) (name ∷ []) = none
      with_id (some bucket_id) (name ∷ plugin_name ∷ rest) =
          with_plugin bucket_id (plugin_of plugin_path plugin_name)

  abbrev pub loaded :
      (Map (Option P) → Option (Map (Option P) × Bool))
      → Map (Option P)
      → Option (ℕ × P)
      → Option (Map (Option P) × Bool)
  loaded k plugins none = some (plugins, false)
  loaded k plugins (some (id, plugin)) = k (assign id (some plugin) plugins)

  -- The loop over the buckets, which stops at the first that cannot be loaded.
  unfoldable pub load_buckets :
      Text → List (List Text) → Map (Option P) → Option (Map (Option P) × Bool)
  load_buckets plugin_path [] plugins = some (plugins, true)
  load_buckets plugin_path (b ∷ buckets) plugins = do
    bucket ← read_bucket plugin_path b
    loaded (load_buckets plugin_path buckets) plugins bucket

  unfoldable pub load_plugins :
      ConfigFile → AlgoPluginManager P → Option (AlgoPluginManager P × Bool)
  load_plugins file m =
      let index = not m.current_index in
      let cleared : Buffer P = record (m.buffers index) { plugins = [] } in go index cleared file
    where
      go : Bool → Buffer P → ConfigFile → Option (AlgoPluginManager P × Bool)
      go index cleared not_good = some (set_buffer index cleared m, false)
      go index cleared not_parsed = none
      go index cleared (parsed cfg) =
          let b : Buffer P = record cleared {
            num_plugins = or_same cfg.num_buckets cleared.num_plugins;
          } in
          load_buckets cfg.plugin_path cfg.buckets [] >>= λ r. some (finish cfg b m r)

-- An `int` as a `uint64_t`.
abbrev pub u64_of : ℤ → ℕ
u64_of (pos n) = n
u64_of (negsuc n) = 2 ^ 64 - 1 - n

abbrev or_default : {P : Type 0} → Option (Option P) → Option P → Option P
or_default none d = d
or_default (some p) d = p

-- Select, of a hash. The result may be null; `none` is a division by zero.
unfoldable pub select : {P : Type 0} → ℕ → AlgoPluginManager P → Option (Option P)
select id m =
    let b = m.buffers m.current_index in
    if u64_of b.num_plugins == 0
    then none
    else some (
        or_default (find (int_key (to_int32 (pos (id % u64_of b.num_plugins)))) b.plugins)
          b.default_plugin)
