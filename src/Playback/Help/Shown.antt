-- ===== src/Playback/Help/Shown.antt =====
-- What percona_playback_argv shows where it returns 1.
use query_playback.Prelude.{
  ℕ, Bool-cases, inl, inr, arith, ◌≡◌, refl, ap, ◌∙◌, sym, subst, Bool, true, not, ◌&&◌, ◌||◌, List,
  [], ◌∷◌, Option, none, some, select, ◌==◌,
}
use query_playback.Prelude.Int.{ℤ, pos}
use query_playback.CommandLine.{is_given, OptionDescription}
use query_playback.OrderedMap.{bytes_order, lookup}
use query_playback.OrderedMap.Laws.{lookup-here, lookup-cons}
use query_playback.Text.Same.{eq_of_same_bytes}
use query_playback.Registry.{PluginMap, PluginRegistry, keys}
use query_playback.Text.{Bytes, codes, same_bytes}
use query_playback.Playback.{Arguments, disabled_reports, Setup, has_plugin, percona_playback_argv}
use query_playback.Playback.Stages.{has_reports}
use query_playback.Playback.Active.{is_among, is_chosen_here, has_reports-active}
use query_playback.Playback.Selection.{HasNames, names_of, has_reports-HasNames}
use query_playback.Playback.Help.{Build, HelpText, pointer, help_with, help}
use query_playback.Playback.Help.Stops.{percona_playback_argv-Selects}

select_cong :
    (p q : ℕ → Bool) (m : PluginMap)
    → ((x : ℕ) → p x ≡ q x)
    → keys (select (λ pp. p pp.1) m) ≡ keys (select (λ pp. q pp.1) m)
select_cong p q [] h = refl
select_cong p q ((name, x) ∷ m) h = elim (Bool-cases (q x)) [
  | inl e ↦ rw (h x, e) (ap (◌∷◌ name) (select_cong p q m h))
  | inr e ↦ rw (h x, e) (select_cong p q m h)
]

-- A name among the keys of a map has an object.
has_plugin-lookup :
    (m : PluginMap) (name : Bytes)
    → has_plugin (keys m) name ≡ true
    → (p : ℕ) × (lookup name m ≡ some p)
unfolding has_plugin
has_plugin-lookup [] name h = absurd (ground arith)
has_plugin-lookup ((l, q) ∷ m) name h = elim (Bool-cases (same_bytes l name)) [
  | inl e ↦ let same = eq_of_same_bytes l name e in (q, rw (← same) (lookup-here l q m))
  | inr e ↦ elim (lookup-cons name l) [
    | inl apart ↦ let (p, found) = has_plugin-lookup m name (rw e at h) in (p, apart q m ∙ found)
    | inr same ↦ (q, rw same (lookup-here l q m))
  ]
]

-- What the help says of one kind of plugin: the object is the one that stands in the map of its kind
-- under the name that was chosen, and this name is among those that are listed.
pub record IsSelected (m : PluginMap) (name_of : ℕ → Bytes) (chosen : Option Bytes)
    (listed : List Bytes) (shown : Bytes) : Type 0 where
  pub key : Bytes
  pub object : ℕ
  pub chosen_is : chosen ≡ some key
  pub found : lookup key m ≡ some object
  pub key_listed : has_plugin listed key ≡ true
  pub name_shown : shown ≡ name_of object

module _ (registry : PluginRegistry) (args : Arguments) (name_of : ℕ → Bytes) where
  pub record IsShown (names : Option Bytes × Option Bytes × Option Bytes) (is_active : ℕ → Bool)
      (t : HelpText) : Type 0 where
    pub db_is : IsSelected registry.dbclient_plugins name_of names.0 t.db_plugins t.db_plugin
    pub input_is : IsSelected registry.input_plugins name_of names.1 t.input_plugins t.input_plugin
    pub dispatcher_is :
        IsSelected registry.dispatcher_plugins name_of names.2 t.dispatcher_plugins
          t.dispatcher_plugin
    pub reports_selected :
        t.selected_reports ≡ keys (select (λ pp. is_active pp.1) registry.report_plugins)

  selects :
      (m : PluginMap) (key : Bytes) (object : ℕ)
      → lookup key m ≡ some object
      → has_plugin (keys m) key ≡ true
      → IsSelected m name_of (some key) (keys m) (name_of object)
  selects m key object found listed = record {
    key = key;
    object = object;
    chosen_is = refl;
    found = found;
    key_listed = listed;
    name_shown = refl;
  }

  help_with-IsShown :
      (build : Build) (options : List OptionDescription) (active : ℕ → Bool)
      (db input dispatcher : Option Bytes)
      → HasNames registry (db, input, dispatcher)
      → (t : HelpText) × (help_with build options registry name_of active
            (pointer registry.dbclient_plugins db)
            (pointer registry.input_plugins input)
            (pointer registry.dispatcher_plugins dispatcher)
          ≡ some t)
        × IsShown (db, input, dispatcher) active t
  help_with-IsShown build options active none input dispatcher h = elim h.0 [ ]
  help_with-IsShown build options active (some db) none dispatcher h = elim h.1 [ ]
  help_with-IsShown build options active (some db) (some input) none h = elim h.2 [ ]
  help_with-IsShown build options active (some db) (some input) (some dispatcher) h =
      let (p, p_found) = has_plugin-lookup registry.dbclient_plugins db h.0 in
      let (q, q_found) = has_plugin-lookup registry.input_plugins input h.1 in
      let (r, r_found) = has_plugin-lookup registry.dispatcher_plugins dispatcher h.2 in
      let none_null : help_with build options registry name_of active
            (lookup db registry.dbclient_plugins) (lookup input registry.input_plugins)
            (lookup dispatcher registry.dispatcher_plugins)
          ≡ help_with build options registry name_of active (some p) (some q) (some r) =
        rw (p_found, q_found, r_found) refl in
      (
        _,
        none_null,
        record {
          db_is = selects registry.dbclient_plugins db p p_found h.0;
          input_is = selects registry.input_plugins input q q_found h.1;
          dispatcher_is = selects registry.dispatcher_plugins dispatcher r r_found h.2;
          reports_selected = refl;
        },
      )

  IsShown-cong :
      (names : Option Bytes × Option Bytes × Option Bytes) (p q : ℕ → Bool) (t : HelpText)
      → ((x : ℕ) → p x ≡ q x)
      → IsShown names p t
      → IsShown names q t
  IsShown-cong names p q t h v = record {
    db_is = v.db_is;
    input_is = v.input_is;
    dispatcher_is = v.dispatcher_is;
    reports_selected = v.reports_selected ∙ select_cong p q registry.report_plugins h;
  }

  -- What is active in a setup that comes of `s`.
  abbrev pub active_of : Setup → Setup → ℕ → Bool
  active_of s s' p =
      not (is_among registry.report_plugins (disabled_reports args.vm) p)
      && (is_chosen_here registry args s' p || s.active p)

  abbrev Shows : Build → List OptionDescription → Setup → Setup → Type 0
  Shows build options s s' =
      (t : HelpText) × (help build options registry name_of s' ≡ some t)
      × IsShown (names_of s') (active_of s s') t

  -- Where percona_playback_argv returns 1, the help was asked for or no argument was given, and
  -- `help` is not stopped by its asserts. Of the client, the input plugin and the dispatcher it shows
  -- the name in the object that stands in the map of its kind under the name that was chosen, which is
  -- among the names that it lists. The reports that it says are selected are those whose objects were
  -- active before or are chosen too, without those that are to be disabled.
  pub percona_playback_argv-IsShown :
      (build : Build) (options : List OptionDescription) (fails : Bytes → Bool → Bool) (s : Setup)
      → (percona_playback_argv registry args fails s).0 ≡ pos 1
      → let s' = (percona_playback_argv registry args fails s).1 in
        ((is_given args.vm (codes "help") || args.argc == 1) ≡ true)
        × (t : HelpText) × (help build options registry name_of s' ≡ some t)
        × IsShown (names_of s') (active_of s s') t
  unfolding help
  percona_playback_argv-IsShown build options fails s h =
      let (v, asked, e) = percona_playback_argv-Selects registry args fails s h in
      let s4 = has_reports registry args fails s in
      let (t, shown, w) =
        help_with-IsShown build options s4.active s4.dbclient s4.input s4.dispatcher
          (has_reports-HasNames registry args fails s v) in
      let here : Shows build options s s4 = (
        t,
        shown,
        IsShown-cong (names_of s4) s4.active (active_of s s4) t
            (λ p. (has_reports-active registry args fails s p v).0) w,
      ) in
      let (t', shown', w') =
        subst (λ (u : Setup). Shows build options s u) (sym (ap (λ (x : ℤ × Setup). x.1) e)) here in
      (asked, t', shown', w')
