-- ===== src/AlgoPluginManager/Tests.antt =====
-- A reload of src/algo_plugin_manager.cc that fails at its second bucket, and one that succeeds.
use recomm_engine.Prelude.{
  ℕ, ◌≡◌, refl, false, none, some, List, [], ◌∷◌, ◌==◌, length, if◌then◌else◌,
}
use recomm_engine.Prelude.Maps.{assign}
use recomm_engine.Prelude.Int.{pos, ◌+ℤ◌}
use recomm_engine.Prelude.Texts.{Text}
use recomm_engine.AlgoPluginManager.{
  Dynamic, Config, parsed, AlgoPluginManager, get_plugin_from_dylib, read_bucket, load_buckets,
  load_plugins, select, int_key,
}
use recomm_engine.AlgoPluginManager.Reload.{load_plugins_failed}

-- A plugin is the length of its library's name; the linker finds any but the longest.
abbrev dl : Dynamic ℕ ℕ
dl = record {
  dlopen = λ name. if length name == 9 then none else some (length name);
  dlsym = λ handle symbol. some (some handle);
  initialize = λ plugin config. (plugin, pos 0);
  lexical_cast = λ t. some (pos (length t));
}

abbrev item : Text → Text → List Text
item id name = id ∷ [] ∷ name ∷ []

abbrev good : List (List Text)
good = item [] (97 ∷ []) ∷ item (1 ∷ []) [] ∷ []

abbrev bad : List (List Text)
bad = item [] (97 ∷ []) ∷ item (1 ∷ []) (97 ∷ 98 ∷ []) ∷ []

abbrev config : List (List Text) → Config
config buckets = record {
  num_buckets = some (pos 2);
  default_bucket = pos 0;
  plugin_path = [];
  buckets = buckets;
}

abbrev manager : AlgoPluginManager ℕ
manager = record {
  current_index = false;
  buffers = λ i. record {
    plugins = (int_key (pos 0), some 1) ∷ [];
    default_plugin = some 1;
    num_plugins = pos 1;
  };
}

-- What the failed reload leaves.
abbrev reloaded : AlgoPluginManager ℕ
reloaded = record {
  current_index = false;
  buffers = λ i.
      if i
      then record {
        plugins = (int_key (pos 0), some 8) ∷ [];
        default_plugin = some 1;
        num_plugins = pos 2;
      }
      else manager.buffers false;
}

load_plugins_failed_example : select 5 reloaded ≡ select 5 manager
unfolding load_plugins load_buckets read_bucket get_plugin_from_dylib assign ◌+ℤ◌
load_plugins_failed_example = load_plugins_failed dl (parsed (config bad)) manager reloaded 5 refl
