-- ===== src/Tests/Registry.antt =====
-- The registry, the loading of plugins and the splitting of their names.
use query_playback.Prelude.{◌≡◌, refl, true, [], ◌∷◌, ◌++◌, List, some}
use query_playback.Text.{Bytes, codes, is_one_of}
use query_playback.Tokenize.{tokenize}
use query_playback.Tokenize.Join.{join, tokenize-join}
use query_playback.Registry.{
  plugin_registry, PluginObject, report, input, add_all, Linker, load_plugins,
}
use query_playback.Registry.Lookup.{Holds, add_all-Holds}
use query_playback.Registry.Loaded.{adds_for, loaded, names_in, wanted, load_plugins_lem}

-- The second report has the name of the input plugin before it.
abbrev calls : List (Bytes × PluginObject)
calls =
    (codes "query-log", input 5)
    ∷ (codes "full_report", report 6)
    ∷ (codes "query-log", report 7)
    ∷ []

add_all-Holds_example : Holds calls (add_all calls plugin_registry)
add_all-Holds_example = add_all-Holds calls

abbrev linker : Linker
linker = record { dlopen = λ file. some 1; dlsym = λ handle name. some 2; init = λ def. calls }

load_plugins_lem_example :
    load_plugins linker (codes "null,") (codes "query_log") plugin_registry
    ≡ loaded
        (adds_for linker (wanted (codes "null,") (codes "query_log")))
        (names_in (codes "null,") ++ names_in (codes "query_log"))
        plugin_registry
load_plugins_lem_example =
    load_plugins_lem linker (codes "null,") (codes "query_log") plugin_registry

tokenize-join_example :
    tokenize (join b',' (codes "a" ∷ [] ∷ codes "b" ∷ [])) [] (codes ",") true
    ≡ some (codes "a" ∷ codes "b" ∷ [])
unfolding is_one_of
tokenize-join_example =
    tokenize-join (codes ",") b',' (codes "a") ([] ∷ codes "b" ∷ []) true refl
      ((refl, tt), (tt, ((refl, tt), tt)))
