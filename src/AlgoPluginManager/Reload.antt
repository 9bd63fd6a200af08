-- ===== src/AlgoPluginManager/Reload.antt =====
-- What a reload of src/algo_plugin_manager.cc changes.
use recomm_engine.Prelude.{
  ℕ, ◌≡◌, refl, sym, ap, subst, ◌∙◌, Bool, true, false, not, Option, none, some, List, [], ◌∷◌,
  ◌>>=◌, ◌==◌, if◌then◌else◌,
}
use recomm_engine.Prelude.Maps.{Map, find, assign, find-assign}
use recomm_engine.Prelude.Texts.{Text}
use recomm_engine.AlgoPluginManager.{
  Dynamic, Config, ConfigFile, not_good, not_parsed, parsed, Buffer, AlgoPluginManager, set_buffer,
  or_same, finish, read_bucket, loaded, load_buckets, load_plugins, select,
}

module _ {P : Type 0} where
  -- The buffer that is served is as before, and it is still the one.
  record Unchanged (m m' : AlgoPluginManager P) : Type 0 where
    index : m'.current_index ≡ m.current_index
    buffer : m'.buffers m.current_index ≡ m.buffers m.current_index

  set_buffer-Unchanged :
      (c : Bool) (b : Buffer P) (m : AlgoPluginManager P)
      → m.current_index ≡ c
      → Unchanged m (set_buffer (not c) b m)
  set_buffer-Unchanged true b m e = record { index = refl; buffer = rw e refl }
  set_buffer-Unchanged false b m e = record { index = refl; buffer = rw e refl }

  abbrev manager_of :
      AlgoPluginManager P → Option (AlgoPluginManager P × Bool) → AlgoPluginManager P
  manager_of n none = n
  manager_of n (some r) = r.0

  abbrev map_of : Map (Option P) → Option (Map (Option P) × Bool) → Map (Option P)
  map_of n none = n
  map_of n (some r) = r.0

  Unchanged-result :
      (m n m' : AlgoPluginManager P)
      (e : Path (Option (AlgoPluginManager P × Bool)) (some (n, false)) (some (m', false)))
      → Unchanged m n
      → Unchanged m m'
  Unchanged-result m n m' e u = subst (Unchanged m) (ap (manager_of n) e) u

  finish-Unchanged :
      (cfg : Config) (b : Buffer P) (m m' : AlgoPluginManager P)
      (r : Option (Map (Option P) × Bool))
      → (r >>= λ r. some (finish cfg b m r)) ≡ some (m', false)
      → Unchanged m m'
  finish-Unchanged cfg b m m' none e = cc
  finish-Unchanged cfg b m m' (some (plugins, true)) e = cc
  finish-Unchanged cfg b m m' (some (plugins, false)) e =
      Unchanged-result m _ m' e (set_buffer-Unchanged m.current_index _ m refl)

  select-Unchanged :
      (m m' : AlgoPluginManager P) (id : ℕ) → Unchanged m m' → select id m' ≡ select id m
  unfolding select
  select-Unchanged m m' id u = rw (u.index) (rw (u.buffer) refl)

module _ {P H : Type 0} (dl : Dynamic P H) where
  load_plugins-Unchanged :
      (file : ConfigFile) (m m' : AlgoPluginManager P)
      → load_plugins dl file m ≡ some (m', false)
      → Unchanged m m'
  unfolding load_plugins
  load_plugins-Unchanged not_good m m' e =
      Unchanged-result m _ m' e (set_buffer-Unchanged m.current_index _ m refl)
  load_plugins-Unchanged not_parsed m m' e = cc
  load_plugins-Unchanged (parsed cfg) m m' e =
      let b = m.buffers (not m.current_index) in
      finish-Unchanged cfg
        (record b { plugins = []; num_plugins = or_same cfg.num_buckets b.num_plugins }) m m'
        (load_buckets dl cfg.plugin_path cfg.buckets []) e

  -- A reload that fails, for a file that cannot be opened or a bucket that cannot be loaded, leaves
  -- the choice of a plugin as it was, for every user.
  pub load_plugins_failed :
      (file : ConfigFile) (m m' : AlgoPluginManager P) (id : ℕ)
      → load_plugins dl file m ≡ some (m', false)
      → select id m' ≡ select id m
  load_plugins_failed file m m' id e = select-Unchanged m m' id (load_plugins-Unchanged file m m' e)

  abbrev item : Option (Option (ℕ × P)) → ℕ → Option (Option P) → Option (Option P)
  item none i before = before
  item (some none) i before = before
  item (some (some (id, plugin))) i before = if id == i then some (some plugin) else before

  -- The plugin that the last item with an id gives, or what was there before.
  unfoldable pub last_bucket : Text → List (List Text) → ℕ → Option (Option P) → Option (Option P)
  last_bucket path [] i before = before
  last_bucket path (b ∷ buckets) i before =
      last_bucket path buckets i (item (read_bucket dl path b) i before)

  find-loaded :
      (path : Text) (buckets : List (List Text)) (plugins plugins' : Map (Option P)) (i : ℕ)
      (o : Option (Option (ℕ × P)))
      → ((m : Map (Option P))
          → load_buckets dl path buckets m ≡ some (plugins', true)
          → find i plugins' ≡ last_bucket path buckets i (find i m))
      → (o >>= loaded dl (load_buckets dl path buckets) plugins) ≡ some (plugins', true)
      → find i plugins' ≡ last_bucket path buckets i (item o i (find i plugins))
  find-loaded path buckets plugins plugins' i none ih e = cc
  find-loaded path buckets plugins plugins' i (some none) ih e = cc
  find-loaded path buckets plugins plugins' i (some (some (id, plugin))) ih e =
      ih (assign id (some plugin) plugins) e
      ∙ ap (last_bucket path buckets i) (find-assign i id (some plugin) plugins)

  -- When every bucket of a configuration could be loaded, each id has the plugin of its last item,
  -- and an id without an item has what it had.
  pub find-load_buckets :
      (path : Text) (buckets : List (List Text)) (plugins plugins' : Map (Option P)) (i : ℕ)
      → load_buckets dl path buckets plugins ≡ some (plugins', true)
      → find i plugins' ≡ last_bucket path buckets i (find i plugins)
  unfolding load_buckets last_bucket
  find-load_buckets path [] plugins plugins' i e = ap (λ o. find i (map_of plugins o)) (sym e)
  find-load_buckets path (b ∷ buckets) plugins plugins' i e =
      find-loaded path buckets plugins plugins' i (read_bucket dl path b)
        (λ m. find-load_buckets path buckets m plugins' i) e
