-- ===== src/Playback/Selection.antt =====
-- What percona_playback_argv leaves where it returns 0.
use query_playback.Prelude.{
  ◌==◌, ◌≡◌, refl, ap, ◌∙◌, sym, subst, Bool, true, false, List, [], ◌∷◌, Option, none, some,
  Bool-cases, Option-cases, inl, inr, arith,
}
use query_playback.Prelude.Int.{is_zero, ℤ}
use query_playback.CommandLine.{is_given}
use query_playback.OrderedMap.{bytes_order, lookup}
use query_playback.Registry.{PluginMap, PluginRegistry, keys}
use query_playback.Playback.Stages.{
  has_dbclient, has_input, has_dispatcher, has_reports, after_help, Selects,
  percona_playback_argv-Succeeds,
}
use query_playback.Text.{Bytes, codes}
use query_playback.Playback.{
  Arguments, named, disabled_reports, Setup, has_plugin, set_active, first_of, choose,
  select_dbclient, select_input, select_dispatcher, disable_reports, show_help_or_version,
  process_options, set_numbers, percona_playback_argv,
}

-- The plugin that a part chose, and that it is registered.
abbrev pub IsChosen : List Bytes → Option Bytes → Type 0
IsChosen plugins none = ⊥
IsChosen plugins (some name) = has_plugin plugins name ≡ true

first_of-IsChosen :
    (plugins names : List Bytes) (name : Bytes)
    → first_of plugins names ≡ some name
    → has_plugin plugins name ≡ true
first_of-IsChosen plugins [] name h = absurd (ground arith)
first_of-IsChosen plugins (n ∷ ns) name h = elim (Bool-cases (has_plugin plugins n)) [
  | inl e ↦ let same : n ≡ name = ground arith in rw⁻¹ same e
  | inr e ↦ first_of-IsChosen plugins ns name (rw e at h)
]

choose-IsChosen :
    (plugins : List Bytes) (named : Option Bytes) (defaults : List Bytes) (name : Bytes)
    → choose plugins named defaults ≡ some name
    → has_plugin plugins name ≡ true
unfolding choose
choose-IsChosen plugins none defaults name h = first_of-IsChosen plugins defaults name h
choose-IsChosen plugins (some n) defaults name h = first_of-IsChosen plugins (n ∷ []) name h

abbrev pub names_of : Setup → Option Bytes × Option Bytes × Option Bytes
names_of s = (s.dbclient, s.input, s.dispatcher)

abbrev pub HasNames : PluginRegistry → Option Bytes × Option Bytes × Option Bytes → Type 0
HasNames registry (dbclient, input, dispatcher) =
    IsChosen (keys registry.dbclient_plugins) dbclient
    × IsChosen (keys registry.input_plugins) input
    × IsChosen (keys registry.dispatcher_plugins) dispatcher

module _ (registry : PluginRegistry) (args : Arguments) where
  select_dbclient-IsChosen :
      (s : Setup)
      → is_zero (select_dbclient registry args s).0 ≡ true
      → IsChosen (keys registry.dbclient_plugins) (select_dbclient registry args s).1.dbclient
  unfolding select_dbclient
  select_dbclient-IsChosen s h =
      elim (Option-cases (
        choose (keys registry.dbclient_plugins) (named args.vm (codes "db-plugin"))
          (codes "libmysqlclient" ∷ codes "null" ∷ []))) [
            | inl e ↦ absurd (ground arith)
            | inr (name, e) ↦ rw e (choose-IsChosen _ _ _ name e)
          ]

  select_input-IsChosen :
      (s : Setup)
      → is_zero (select_input registry args s).0 ≡ true
      → IsChosen (keys registry.input_plugins) (select_input registry args s).1.input
        × ((select_input registry args s).1.dbclient ≡ s.dbclient)
  unfolding select_input
  select_input-IsChosen s h =
      elim (Option-cases (
        choose (keys registry.input_plugins) (named args.vm (codes "input-plugin"))
          (codes "query-log" ∷ []))) [
            | inl e ↦ absurd (ground arith)
            | inr (name, e) ↦ rw e (choose-IsChosen _ _ _ name e, refl)
          ]

  select_dispatcher-IsChosen :
      (s : Setup)
      → is_zero (select_dispatcher registry args s).0 ≡ true
      → IsChosen (keys registry.dispatcher_plugins) (select_dispatcher registry args s).1.dispatcher
        × ((select_dispatcher registry args s).1.dbclient ≡ s.dbclient)
        × ((select_dispatcher registry args s).1.input ≡ s.input)
  unfolding select_dispatcher
  select_dispatcher-IsChosen s h =
      elim (Option-cases (
        choose (keys registry.dispatcher_plugins) (named args.vm (codes "dispatcher-plugin"))
          (codes "thread-per-connection" ∷ []))) [
            | inl e ↦ absurd (ground arith)
            | inr (name, e) ↦ rw e (choose-IsChosen _ _ _ name e, refl, refl)
          ]

  disable_reports-names_of :
      (names : List Bytes) (s : Setup)
      → names_of (disable_reports registry args names s).1 ≡ names_of s
  unfolding disable_reports
  disable_reports-names_of [] s = refl
  disable_reports-names_of (n ∷ ns) s =
      elim (Bool-cases (has_plugin (keys registry.report_plugins) n)) [
        | inl e ↦ rw e (
            disable_reports-names_of ns
              (record s { active = set_active (lookup n registry.report_plugins) false s.active }))
        | inr e ↦ rw e refl
      ]

  process_options-names_of :
      (fails : Bytes → Bool → Bool) (ps : PluginMap) (s : Setup)
      → names_of (process_options registry args fails ps s).1 ≡ names_of s
  unfolding process_options
  process_options-names_of fails [] s = refl
  process_options-names_of fails ((name, p) ∷ ps) s = elim (Bool-cases (fails name (s.active p))) [
    | inl e ↦ rw e refl
    | inr e ↦ rw e (process_options-names_of fails ps s)
  ]

  show_help_or_version-false :
      (s : Setup)
      → is_zero (show_help_or_version registry args s).0 ≡ true
      → ((is_given args.vm (codes "help")) ≡ false)
        × ((is_given args.vm (codes "version")) ≡ false)
        × (names_of (show_help_or_version registry args s).1 ≡ names_of s)
  unfolding show_help_or_version
  show_help_or_version-false s h = elim (Bool-cases (is_given args.vm (codes "help"))) [
    | inl e ↦ absurd (ground arith)
    | inr e ↦ elim (Bool-cases (is_given args.vm (codes "version"))) [
      | inl f ↦ absurd (ground arith)
      | inr f ↦ (
        e,
        f,
        elim (Bool-cases (args.argc == 1)) [ inl g ↦ rw (e, g) refl | inr g ↦ rw (e, g, f) refl ],
      )
    ]
  ]

  -- Behind the disabling of the reports.
  pub has_reports-HasNames :
      (fails : Bytes → Bool → Bool) (s : Setup)
      → Selects registry args fails s
      → HasNames registry (names_of (has_reports registry args fails s))
  has_reports-HasNames fails s v =
      let s1 = has_dbclient registry args fails s in
      let s2 = has_input registry args fails s in
      let s3 = has_dispatcher registry args fails s in
      let (c2, k2) = select_input-IsChosen s1 v.input_ok in
      let (c3, k3, l3) = select_dispatcher-IsChosen s2 v.dispatcher_ok in
      let chosen : HasNames registry (names_of s3) = (
        subst (λ (o : Option Bytes). IsChosen (keys registry.dbclient_plugins) o) (sym (k3 ∙ k2))
            (select_dbclient-IsChosen s v.dbclient_ok),
        subst (λ (o : Option Bytes). IsChosen (keys registry.input_plugins) o) (sym l3) c2,
        c3,
      ) in
      subst (λ (names : Option Bytes × Option Bytes × Option Bytes). HasNames registry names)
        (sym (disable_reports-names_of (disabled_reports args.vm) s3)) chosen

  -- Where percona_playback_argv returns 0, neither the help nor the version was asked for, and a
  -- client, an input plugin and a dispatcher are chosen, each of them registered as such.
  pub percona_playback_argv-HasNames :
      (fails : Bytes → Bool → Bool) (s : Setup)
      → is_zero (percona_playback_argv registry args fails s).0 ≡ true
      → ((is_given args.vm (codes "help")) ≡ false)
        × ((is_given args.vm (codes "version")) ≡ false)
        × HasNames registry (names_of (percona_playback_argv registry args fails s).1)
  unfolding set_numbers
  percona_playback_argv-HasNames fails s h =
      let v = percona_playback_argv-Succeeds registry args fails s h in
      let s4 = has_reports registry args fails s in
      let s5 = after_help registry args fails s in
      let (no_help, no_version, n5) = show_help_or_version-false s4 v.help_ok in
      let same : names_of (percona_playback_argv registry args fails s).1 ≡ names_of s4 =
        ap (λ (x : ℤ × Setup). names_of x.1) v.whole
        ∙ process_options-names_of fails registry.all_plugins s5
        ∙ n5 in
      (
        no_help,
        no_version,
        subst (λ (names : Option Bytes × Option Bytes × Option Bytes). HasNames registry names)
            (sym same) (has_reports-HasNames fails s v.selects),
      )
