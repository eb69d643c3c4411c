-- ===== src/Registry.antt =====
-- PluginRegistry of percona_playback/plugin.h, and the loading of the plugins in
-- percona_playback/plugin.cc. A plugin object is its address; the `active` fields of the objects
-- are a part of the state. dlopen and dlsym are parameters, with the calls of `add` that the `init`
-- function of a definition makes.
pub mod Lookup
pub mod Loaded
use query_playback.Prelude.{
  ℕ, Bool, true, false, List, [], ◌∷◌, ◌++◌, map, Option, none, some, ◌==◌, if◌then◌else◌,
}
use query_playback.Text.{Bytes, codes}
use query_playback.OrderedMap.{KeyOrder, bytes_order, insert}
use query_playback.Tokenize.{tokenize}

abbrev pub PluginMap : Type 0
PluginMap = List (Bytes × ℕ)

-- The names in a map, in the order in which a loop over it meets them.
abbrev pub keys : PluginMap → List Bytes
keys m = map (λ p. p.0) m

pub record PluginRegistry : Type 0 where
  pub loaded_plugin_names : List Bytes
  pub all_plugins : PluginMap
  pub dbclient_plugins : PluginMap
  pub report_plugins : PluginMap
  pub input_plugins : PluginMap
  pub dispatcher_plugins : PluginMap
  pub active : ℕ → Bool

-- The singleton before the first call, with objects that their constructors left inactive.
abbrev pub plugin_registry : PluginRegistry
plugin_registry = record {
  loaded_plugin_names = [];
  all_plugins = [];
  dbclient_plugins = [];
  report_plugins = [];
  input_plugins = [];
  dispatcher_plugins = [];
  active = λ p. false;
}

-- An argument of `add`, by the overload that takes it.
pub data PluginObject : Type 0 where
  plain : ℕ → PluginObject
  dbclient : ℕ → PluginObject
  report : ℕ → PluginObject
  input : ℕ → PluginObject
  dispatcher : ℕ → PluginObject

unfoldable pub add : Bytes → PluginObject → PluginRegistry → PluginRegistry
unfolding insert
add name (plain p) r = record r { all_plugins = insert name p r.all_plugins }
add name (dbclient p) r = record r {
  dbclient_plugins = insert name p r.dbclient_plugins;
  all_plugins = insert name p r.all_plugins;
}
add name (report p) r = record r {
  active = λ q. if q == p then true else r.active q;
  report_plugins = insert name p r.report_plugins;
  all_plugins = insert name p r.all_plugins;
}
add name (input p) r = record r {
  input_plugins = insert name p r.input_plugins;
  all_plugins = insert name p r.all_plugins;
}
add name (dispatcher p) r = record r {
  dispatcher_plugins = insert name p r.dispatcher_plugins;
  all_plugins = insert name p r.all_plugins;
}

-- What an `init` function does.
unfoldable pub add_all : List (Bytes × PluginObject) → PluginRegistry → PluginRegistry
unfolding add
add_all [] r = r
add_all ((name, o) ∷ adds) r = add_all adds (add name o r)

-- The dynamic linker, with no file name for the program itself.
pub record Linker : Type 0 where
  pub dlopen : Option Bytes → Option ℕ
  pub dlsym : ℕ → Bytes → Option ℕ
  pub init : ℕ → List (Bytes × PluginObject)

abbrev pub plugin_decl_sym : Bytes → Bytes
plugin_decl_sym name = codes "_percona_playback_" ++ (name ++ codes "_plugin_")

abbrev pub plugin_lib_name : Bytes → Bytes
plugin_lib_name name = codes "lib" ++ (name ++ (codes "_plugin" ++ codes ".so"))

abbrev pub load_next :
    (PluginRegistry → Option PluginRegistry) → Option PluginRegistry → Option PluginRegistry
load_next next none = none
load_next next (some r) = next r

module _ (linker : Linker) where
  abbrev pub find_symbol : Option ℕ → Bytes → Option ℕ
  find_symbol none name = none
  find_symbol (some dl_handle) name = linker.dlsym dl_handle (plugin_decl_sym name)

  abbrev pub register : Option ℕ → Bytes → PluginRegistry → Option PluginRegistry
  register none name r = none
  register (some def) name r =
      let r' = add_all (linker.init def) r in
      some (record r' { loaded_plugin_names = r'.loaded_plugin_names ++ name ∷ [] })

  -- `none` is where the program aborts.
  unfoldable pub load_plugin : Option Bytes → Bytes → PluginRegistry → Option PluginRegistry
  unfolding add_all
  load_plugin so_file name r = register (find_symbol (linker.dlopen so_file) name) name r

  unfoldable pub load_each :
      (Bytes → Option Bytes) → List Bytes → PluginRegistry → Option PluginRegistry
  unfolding load_plugin
  load_each file_of [] r = some r
  load_each file_of (name ∷ names) r =
      load_next (λ r'. load_each file_of names r') (load_plugin (file_of name) name r)

  abbrev pub load_lists :
      Option (List Bytes) → Option (List Bytes) → PluginRegistry → Option PluginRegistry
  load_lists none load_list r = none
  load_lists (some builtin_load_list) none r = none
  load_lists (some builtin_load_list) (some load_list) r =
      load_next (λ r'. load_each (λ name. some (plugin_lib_name name)) load_list r')
        (load_each (λ name. none) builtin_load_list r)

  -- The two lists are strings that the build makes.
  unfoldable pub load_plugins : Bytes → Bytes → PluginRegistry → Option PluginRegistry
  unfolding load_each tokenize
  load_plugins builtins plugins r =
      load_lists (tokenize builtins [] (codes ",") true) (tokenize plugins [] (codes ",") true) r
