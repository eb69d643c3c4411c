-- ===== src/Registry/Loaded.antt =====
-- What `load_plugins` loads.
use query_playback.Prelude.{
  ℕ, ◌≡◌, refl, ap, ap₂, sym, ◌∙◌, true, List, [], ◌∷◌, ◌++◌, append-nil, append_assoc, Option,
  none, some,
}
use query_playback.Text.{Bytes, codes}
use query_playback.Tokenize.Pieces.{pieces, kept, tokenize_lem}
use query_playback.Registry.{
  PluginRegistry, PluginObject, plain, dbclient, report, input, dispatcher, add, add_all, Linker,
  plugin_lib_name, find_symbol, register, load_plugin, load_next, load_each, load_plugins,
}

abbrev pub with_names : List Bytes → PluginRegistry → PluginRegistry
with_names names r = record r { loaded_plugin_names = names }

add-with_names :
    (names : List Bytes) (name : Bytes) (o : PluginObject) (r : PluginRegistry)
    → add name o (with_names names r) ≡ with_names names (add name o r)
unfolding add
add-with_names names name (plain p) r = refl
add-with_names names name (dbclient p) r = refl
add-with_names names name (report p) r = refl
add-with_names names name (input p) r = refl
add-with_names names name (dispatcher p) r = refl

add_all-with_names :
    (names : List Bytes) (adds : List (Bytes × PluginObject)) (r : PluginRegistry)
    → add_all adds (with_names names r) ≡ with_names names (add_all adds r)
unfolding add_all
add_all-with_names names [] r = refl
add_all-with_names names ((name, o) ∷ adds) r =
    ap (λ (s : PluginRegistry). add_all adds s) (add-with_names names name o r)
    ∙ add_all-with_names names adds (add name o r)

add_all-names :
    (adds : List (Bytes × PluginObject)) (r : PluginRegistry)
    → (add_all adds r).loaded_plugin_names ≡ r.loaded_plugin_names
add_all-names adds r =
    ap (λ (s : PluginRegistry). s.loaded_plugin_names)
      (add_all-with_names r.loaded_plugin_names adds r)

add_all-append :
    (xs ys : List (Bytes × PluginObject)) (r : PluginRegistry)
    → add_all (xs ++ ys) r ≡ add_all ys (add_all xs r)
unfolding add_all
add_all-append [] ys r = refl
add_all-append ((name, o) ∷ xs) ys r = add_all-append xs ys (add name o r)

abbrev append_some : {A : Type 0} → Option (List A) → Option (List A) → Option (List A)
append_some none ys = none
append_some (some xs) none = none
append_some (some xs) (some ys) = some (xs ++ ys)

-- The registry after these calls, if all was found, with the names of the plugins at the end.
abbrev pub loaded :
    Option (List (Bytes × PluginObject)) → List Bytes → PluginRegistry → Option PluginRegistry
loaded none names r = none
loaded (some adds) names r = some (with_names (r.loaded_plugin_names ++ names) (add_all adds r))

loaded-append :
    (xs ys : Option (List (Bytes × PluginObject))) (names more : List Bytes) (r : PluginRegistry)
    → load_next (λ s. loaded ys more s) (loaded xs names r)
      ≡ loaded (append_some xs ys) (names ++ more) r
loaded-append none ys names more r = refl
loaded-append (some xs) none names more r = refl
loaded-append (some xs) (some ys) names more r =
    ap₂ (λ (ns : List Bytes) (s : PluginRegistry). some (with_names ns s))
      (append_assoc r.loaded_plugin_names names more)
      (add_all-with_names (r.loaded_plugin_names ++ names) ys (add_all xs r))
    ∙ ap (λ (s : PluginRegistry). some (with_names (r.loaded_plugin_names ++ (names ++ more)) s))
        (sym (add_all-append xs ys r))

load_next-ext :
    (f g : PluginRegistry → Option PluginRegistry) (r : Option PluginRegistry)
    → ((s : PluginRegistry) → f s ≡ g s)
    → load_next f r ≡ load_next g r
load_next-ext f g none same = refl
load_next-ext f g (some r) same = same r

append_some_assoc :
    {A : Type 0} (xs ys zs : Option (List A))
    → append_some (append_some xs ys) zs ≡ append_some xs (append_some ys zs)
append_some_assoc none ys zs = refl
append_some_assoc (some xs) none zs = refl
append_some_assoc (some xs) (some ys) none = refl
append_some_assoc (some xs) (some ys) (some zs) = ap some (append_assoc xs ys zs)

append_some-nil : {A : Type 0} (xs : Option (List A)) → append_some (some []) xs ≡ xs
append_some-nil none = refl
append_some-nil (some xs) = refl

-- The files of `load_each`.
abbrev pub with_files : (Bytes → Option Bytes) → List Bytes → List (Option Bytes × Bytes)
with_files file_of [] = []
with_files file_of (name ∷ names) = (file_of name, name) ∷ with_files file_of names

-- The names in a list of plugins, and the two lists together with their files.
abbrev pub names_in : Bytes → List Bytes
names_in list = kept true (pieces (codes ",") list)

abbrev pub wanted : Bytes → Bytes → List (Option Bytes × Bytes)
wanted builtins plugins =
    with_files (λ name. none) (names_in builtins)
    ++ with_files (λ name. some (plugin_lib_name name)) (names_in plugins)

module _ (linker : Linker) where
  -- The calls of `add` of a plugin, where its file and its definition are found.
  abbrev pub adds_of : Option ℕ → Option (List (Bytes × PluginObject))
  adds_of none = none
  adds_of (some def) = some (linker.init def)

  -- The calls of `add` that a list of files and plugin names asks for, where all of them are found.
  abbrev pub adds_for : List (Option Bytes × Bytes) → Option (List (Bytes × PluginObject))
  adds_for [] = some []
  adds_for ((file, name) ∷ more) =
      append_some (adds_of (find_symbol linker (linker.dlopen file) name)) (adds_for more)

  adds_for-append :
      (xs ys : List (Option Bytes × Bytes))
      → adds_for (xs ++ ys) ≡ append_some (adds_for xs) (adds_for ys)
  adds_for-append [] ys = sym (append_some-nil (adds_for ys))
  adds_for-append ((file, name) ∷ xs) ys =
      let found = adds_of (find_symbol linker (linker.dlopen file) name) in
      ap (λ (more : Option (List (Bytes × PluginObject))). append_some found more)
        (adds_for-append xs ys)
      ∙ sym (append_some_assoc found (adds_for xs) (adds_for ys))

  load_plugin_lem :
      (file : Option Bytes) (name : Bytes) (r : PluginRegistry)
      → load_plugin linker file name r
        ≡ loaded (adds_of (find_symbol linker (linker.dlopen file) name)) (name ∷ []) r
  unfolding load_plugin
  load_plugin_lem file name r = registers (find_symbol linker (linker.dlopen file) name)
    where
      registers :
          (found : Option ℕ) → register linker found name r ≡ loaded (adds_of found) (name ∷ []) r
      registers none = refl
      registers (some def) =
          ap
            (λ (ns : List Bytes). some (with_names (ns ++ name ∷ []) (add_all (linker.init def) r)))
            (add_all-names (linker.init def) r)

  names-nil : (r : PluginRegistry) → some r ≡ loaded (some []) [] r
  unfolding add_all
  names-nil r =
      ap (λ (ns : List Bytes). some (with_names ns r)) (sym (append-nil r.loaded_plugin_names))

  load_each_lem :
      (file_of : Bytes → Option Bytes) (names : List Bytes) (r : PluginRegistry)
      → load_each linker file_of names r ≡ loaded (adds_for (with_files file_of names)) names r
  unfolding load_each
  load_each_lem file_of [] r = names-nil r
  load_each_lem file_of (name ∷ names) r =
      load_next-ext _ _ (load_plugin linker (file_of name) name r) (load_each_lem file_of names)
      ∙ ap
          (λ (s : Option PluginRegistry).
            load_next (λ t. loaded (adds_for (with_files file_of names)) names t) s)
          (load_plugin_lem (file_of name) name r)
      ∙ loaded-append (adds_of (find_symbol linker (linker.dlopen (file_of name)) name))
          (adds_for (with_files file_of names)) (name ∷ []) names r

  -- `load_plugins` finds every plugin of the two lists and makes their calls of `add`, first those of
  -- the builtin list, each list in its order, and notes all the names; or one of them is not found
  -- and the program aborts.
  pub load_plugins_lem :
      (builtins plugins : Bytes) (r : PluginRegistry)
      → load_plugins linker builtins plugins r
        ≡ loaded (adds_for (wanted builtins plugins)) (names_in builtins ++ names_in plugins) r
  unfolding load_plugins
  load_plugins_lem builtins plugins r =
      rw (tokenize_lem builtins [] (codes ",") true, tokenize_lem plugins [] (codes ",") true)
        (load_next-ext _ _ (load_each linker (λ name. none) (names_in builtins) r)
            (load_each_lem (λ name. some (plugin_lib_name name)) (names_in plugins))
          ∙ ap
              (λ (s : Option PluginRegistry).
                load_next
                  (λ t.
                    loaded
                      (adds_for
                        (with_files (λ name. some (plugin_lib_name name)) (names_in plugins)))
                      (names_in plugins) t)
                  s)
              (load_each_lem (λ name. none) (names_in builtins) r)
          ∙ loaded-append (adds_for (with_files (λ name. none) (names_in builtins)))
              (adds_for (with_files (λ name. some (plugin_lib_name name)) (names_in plugins)))
              (names_in builtins) (names_in plugins) r
          ∙ ap
              (λ (adds : Option (List (Bytes × PluginObject))).
                loaded adds (names_in builtins ++ names_in plugins) r)
              (sym (adds_for-append (with_files (λ name. none) (names_in builtins)) _)))
