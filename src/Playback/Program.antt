-- ===== src/Playback/Program.antt =====
-- percona_playback_argv of percona_playback/percona_playback.cc with the loading of the plugins that
-- it starts with. How the command line is parsed with the options of the plugins is a parameter.
use query_playback.Prelude.{
  ap₂, [], ◌∷◌, some_eq, none-ne-some, ℕ, ◌≡◌, refl, ap, subst, sym, ◌∙◌, Bool, true, not, ◌&&◌,
  ◌||◌, List, ◌++◌, Option, none, some, Option-cases, inl, inr,
}
use query_playback.Prelude.Int.{is_zero, ℤ}
use query_playback.Text.{Bytes}
use query_playback.OrderedMap.{bytes_order, lookup}
use query_playback.Registry.{
  PluginMap, PluginRegistry, plugin_registry, PluginObject, add_all, Linker, load_plugins,
}
use query_playback.Registry.Lookup.{
  reports, dbclients, inputs, dispatchers, given_for, is_report, add_all-Holds,
}
use query_playback.Registry.Loaded.{
  with_names, adds_for, loaded, names_in, wanted, load_plugins_lem,
}
use query_playback.Playback.{Arguments, disabled_reports, Setup, percona_playback_argv}
use query_playback.Playback.Active.{
  is_object, is_named, is_among, is_chosen, percona_playback_argv-active,
}

-- The globals before the first call, with the flags that the objects have.
abbrev pub first_setup : PluginRegistry → Setup
first_setup r = record {
  dbclient = none;
  input = none;
  dispatcher = none;
  active = r.active;
  loop = 0;
  queue_depth = 0;
}

abbrev pub argv_of :
    (PluginRegistry → Arguments)
    → (Bytes → Bool → Bool)
    → Option PluginRegistry
    → Option (ℤ × Setup)
argv_of parse fails none = none
argv_of parse fails (some r) = some (percona_playback_argv r (parse r) fails (first_setup r))

-- `none` is where the program aborts.
unfoldable pub load_argv :
    Linker
    → Bytes
    → Bytes
    → (PluginRegistry → Arguments)
    → (Bytes → Bool → Bool)
    → Option (ℤ × Setup)
unfolding load_plugins percona_playback_argv
load_argv linker builtins plugins parse fails =
    argv_of parse fails (load_plugins linker builtins plugins plugin_registry)

-- Which plugin objects are active in a setup, for the calls of `add` that were made.
abbrev pub IsActivated : List (Bytes × PluginObject) → Arguments → Setup → Type 0
IsActivated adds args s =
    (p : ℕ)
    → s.active p ≡ (
        not (is_among (given_for reports adds) (disabled_reports args.vm) p)
        && (is_chosen (given_for dbclients adds) (given_for inputs adds)
              (given_for dispatchers adds) s p
            || is_report adds p))

-- Two maps in which every name stands for the same object.
abbrev IsAlike : PluginMap → PluginMap → Type 0
IsAlike m n = (name : Bytes) → lookup name m ≡ lookup name n

is_named-IsAlike :
    (m n : PluginMap) (o : Option Bytes) (p : ℕ) → IsAlike m n → is_named m o p ≡ is_named n o p
is_named-IsAlike m n none p h = refl
is_named-IsAlike m n (some name) p h = ap (λ (o : Option ℕ). is_object o p) (h name)

is_among-IsAlike :
    (m n : PluginMap) (names : List Bytes) (p : ℕ)
    → IsAlike m n
    → is_among m names p ≡ is_among n names p
is_among-IsAlike m n [] p h = refl
is_among-IsAlike m n (name ∷ names) p h =
    ap₂ ◌||◌ (ap (λ (o : Option ℕ). is_object o p) (h name)) (is_among-IsAlike m n names p h)

module _ (builtins list : Bytes) where
  -- The registry that `load_plugins` leaves after these calls of `add`.
  abbrev pub registry_for : List (Bytes × PluginObject) → PluginRegistry
  registry_for adds = with_names (names_in builtins ++ names_in list) (add_all adds plugin_registry)

module _ (linker : Linker) (builtins list : Bytes) (parse : PluginRegistry → Arguments)
    (fails : Bytes → Bool → Bool) where
  argv-IsActivated :
      (adds : List (Bytes × PluginObject))
      → let r = registry_for builtins list adds in
        let out = percona_playback_argv r (parse r) fails (first_setup r) in
        is_zero out.0 ≡ true → IsActivated adds (parse r) out.1
  argv-IsActivated adds h p =
      let r = registry_for builtins list adds in
      let s = (percona_playback_argv r (parse r) fails (first_setup r)).1 in
      let v = add_all-Holds adds in
      (percona_playback_argv-active r (parse r) fails (first_setup r) p h).0
      ∙ rw
          (
            is_among-IsAlike r.report_plugins (given_for reports adds)
                (disabled_reports (parse r).vm) p (v.finds reports),
            is_named-IsAlike r.dispatcher_plugins (given_for dispatchers adds) s.dispatcher p
                (v.finds dispatchers),
            is_named-IsAlike r.input_plugins (given_for inputs adds) s.input p (v.finds inputs),
            is_named-IsAlike r.dbclient_plugins (given_for dbclients adds) s.dbclient p
                (v.finds dbclients),
            v.active_is p,
          )
          refl

  load_argv_lem :
      load_argv linker builtins list parse fails
      ≡ argv_of parse fails (
          loaded
            (adds_for linker (wanted builtins list))
            (names_in builtins ++ names_in list)
            plugin_registry)
  unfolding load_argv
  load_argv_lem =
      ap (λ (r : Option PluginRegistry). argv_of parse fails r)
        (load_plugins_lem linker builtins list plugin_registry)

  -- Where percona_playback_argv loads its plugins and returns 0, all of them have been found, and a
  -- plugin object is active exactly where it is the first that was added under the name that is
  -- chosen for the client, the input plugin or the dispatcher, or it was added as a report, and it is
  -- not the first report that was added under a name that is to be disabled.
  pub load_argv-IsActivated :
      {code : ℤ} {s : Setup}
      → load_argv linker builtins list parse fails ≡ some (code, s)
      → is_zero code ≡ true
      → (adds : List (Bytes × PluginObject)) × (adds_for linker (wanted builtins list) ≡ some adds)
        × IsActivated adds (parse (registry_for builtins list adds)) s
  load_argv-IsActivated {code} {s} h zero =
      elim (Option-cases (adds_for linker (wanted builtins list))) [
        | inl e ↦ absurd (none-ne-some (sym (rw e at load_argv_lem) ∙ h))
        | inr (adds, e) ↦
            let r = registry_for builtins list adds in
            let same : percona_playback_argv r (parse r) fails (first_setup r) ≡ (code, s) =
              some_eq (sym (rw e at load_argv_lem) ∙ h) in
            (
              adds,
              e,
              subst (λ (x : ℤ × Setup). IsActivated adds (parse r) x.1) same
                  (argv-IsActivated adds (ap (λ (x : ℤ × Setup). is_zero x.0) same ∙ zero)),
            )
      ]
