-- ===== src/Playback/Active.antt =====
-- Which plugins are active where percona_playback_argv returns 0.
use query_playback.Prelude.{
  ℕ, and_false, ◌≡◌, refl, ap, ◌∙◌, sym, Bool, true, false, not, ◌&&◌, ◌||◌, List, [], ◌∷◌, Option,
  none, some, All, Bool-cases, Option-cases, inl, inr, arith, ◌==◌,
}
use query_playback.Prelude.Int.{is_zero, ℤ}
use query_playback.CommandLine.{is_given}
use query_playback.OrderedMap.{bytes_order, lookup}
use query_playback.Registry.{PluginMap, PluginRegistry, keys}
use query_playback.Text.{Bytes, codes}
use query_playback.Playback.{
  same_object, Arguments, named, disabled_reports, Setup, has_plugin, set_active, choose,
  select_dbclient, select_input, select_dispatcher, disable_reports, show_help_or_version,
  process_options, set_numbers, percona_playback_argv,
}
use query_playback.Playback.Stages.{
  has_dbclient, has_input, has_dispatcher, has_reports, after_help, has_options, Selects,
  percona_playback_argv-Succeeds,
}

-- What a map has under a name is this object.
abbrev pub is_object : Option ℕ → ℕ → Bool
is_object none p = false
is_object (some q) p = q == p

-- The object that stands in a map under a name.
abbrev pub is_named : PluginMap → Option Bytes → ℕ → Bool
is_named m none p = false
is_named m (some name) p = is_object (lookup name m) p

-- One of the objects that stand in a map under some names.
abbrev pub is_among : PluginMap → List Bytes → ℕ → Bool
is_among m [] p = false
is_among m (name ∷ names) p = is_object (lookup name m) p || is_among m names p

-- The object is the client, the input plugin or the dispatcher, for the maps of each kind.
abbrev pub is_chosen : PluginMap → PluginMap → PluginMap → Setup → ℕ → Bool
is_chosen dbclients inputs dispatchers s p =
    is_named dispatchers s.dispatcher p
    || is_named inputs s.input p
    || is_named dbclients s.dbclient p

same_object-is_object : (o : Option ℕ) (p : ℕ) → same_object o p ≡ is_object o p
same_object-is_object none p = refl
same_object-is_object (some q) p = refl

set_active-true :
    (o : Option ℕ) (active : ℕ → Bool) (p : ℕ)
    → set_active o true active p ≡ (is_object o p || active p)
set_active-true o active p = elim (Bool-cases (is_object o p)) [
  | inl e ↦ rw (same_object-is_object o p, e)
  | inr e ↦ rw (same_object-is_object o p, e)
]

set_active-false :
    (o : Option ℕ) (active : ℕ → Bool) (p : ℕ) (among : Bool)
    → (not among && set_active o false active p) ≡ (not (is_object o p || among) && active p)
set_active-false o active p among = elim (Bool-cases (is_object o p)) [
  | inl e ↦ rw (same_object-is_object o p, e) (and_false (not among))
  | inr e ↦ rw (same_object-is_object o p, e)
]

or_chain : (d i c a : Bool) → (d || (i || (c || a))) ≡ ((d || i || c) || a)
or_chain d i c a = ground arith

module _ (registry : PluginRegistry) (args : Arguments) where
  abbrev pub is_chosen_here : Setup → ℕ → Bool
  is_chosen_here s p =
      is_chosen registry.dbclient_plugins registry.input_plugins registry.dispatcher_plugins s p

  select_dbclient-active :
      (s : Setup) (p : ℕ)
      → is_zero (select_dbclient registry args s).0 ≡ true
      → (select_dbclient registry args s).1.active p ≡ (
          is_named registry.dbclient_plugins (select_dbclient registry args s).1.dbclient p
          || s.active p)
  unfolding select_dbclient
  select_dbclient-active s p h =
      elim (Option-cases (
        choose (keys registry.dbclient_plugins) (named args.vm (codes "db-plugin"))
          (codes "libmysqlclient" ∷ codes "null" ∷ []))) [
            | inl e ↦ absurd (ground arith)
            | inr (name, e) ↦
                rw e (set_active-true (lookup name registry.dbclient_plugins) s.active p)
          ]

  select_input-active :
      (s : Setup) (p : ℕ)
      → is_zero (select_input registry args s).0 ≡ true
      → ((select_input registry args s).1.active p ≡ (
          is_named registry.input_plugins (select_input registry args s).1.input p || s.active p))
        × ((select_input registry args s).1.dbclient ≡ s.dbclient)
  unfolding select_input
  select_input-active s p h =
      elim (Option-cases (
        choose (keys registry.input_plugins) (named args.vm (codes "input-plugin"))
          (codes "query-log" ∷ []))) [
            | inl e ↦ absurd (ground arith)
            | inr (name, e) ↦
                rw e (set_active-true (lookup name registry.input_plugins) s.active p, refl)
          ]

  select_dispatcher-active :
      (s : Setup) (p : ℕ)
      → is_zero (select_dispatcher registry args s).0 ≡ true
      → ((select_dispatcher registry args s).1.active p ≡ (
          is_named registry.dispatcher_plugins (select_dispatcher registry args s).1.dispatcher p
          || s.active p))
        × ((select_dispatcher registry args s).1.dbclient ≡ s.dbclient)
        × ((select_dispatcher registry args s).1.input ≡ s.input)
  unfolding select_dispatcher
  select_dispatcher-active s p h =
      elim (Option-cases (
        choose (keys registry.dispatcher_plugins) (named args.vm (codes "dispatcher-plugin"))
          (codes "thread-per-connection" ∷ []))) [
            | inl e ↦ absurd (ground arith)
            | inr (name, e) ↦
                rw e
                  (set_active-true (lookup name registry.dispatcher_plugins) s.active p, refl, refl)
          ]

  abbrev pub IsRegisteredReport : Bytes → Type 0
  IsRegisteredReport name = has_plugin (keys registry.report_plugins) name ≡ true

  disable_reports-active :
      (names : List Bytes) (s : Setup) (p : ℕ)
      → is_zero (disable_reports registry args names s).0 ≡ true
      → ((disable_reports registry args names s).1.active p
          ≡ (not (is_among registry.report_plugins names p) && s.active p))
        × (is_chosen_here (disable_reports registry args names s).1 p ≡ is_chosen_here s p)
        × All IsRegisteredReport names
  unfolding disable_reports
  disable_reports-active [] s p h = (refl, refl, tt)
  disable_reports-active (n ∷ ns) s p h =
      elim (Bool-cases (has_plugin (keys registry.report_plugins) n)) [
        | inl e ↦
            let (is_off, same, known) =
              disable_reports-active ns
                (record s { active = set_active (lookup n registry.report_plugins) false s.active })
                p (rw e at h) in
            rw e (
              is_off
                  ∙ set_active-false (lookup n registry.report_plugins) s.active p
                      (is_among registry.report_plugins ns p),
              same,
              (refl, known),
            )
        | inr e ↦ absurd (ground (arith, rw e at h))
      ]

  show_help_or_version-setup : (s : Setup) → (show_help_or_version registry args s).1 ≡ s
  unfolding show_help_or_version
  show_help_or_version-setup s =
      elim (Bool-cases (is_given args.vm (codes "help") || args.argc == 1)) [
        | inl e ↦ rw e refl
        | inr e ↦ elim (Bool-cases (is_given args.vm (codes "version"))) [
          | inl f ↦ rw (e, f) refl
          | inr f ↦ rw (e, f) refl
        ]
      ]

  pub process_options-setup :
      (fails : Bytes → Bool → Bool) (ps : PluginMap) (s : Setup)
      → (process_options registry args fails ps s).1 ≡ s
  unfolding process_options
  process_options-setup fails [] s = refl
  process_options-setup fails ((name, p) ∷ ps) s = elim (Bool-cases (fails name (s.active p))) [
    | inl e ↦ rw e refl
    | inr e ↦ rw e (process_options-setup fails ps s)
  ]

  -- Behind the disabling of the reports.
  pub has_reports-active :
      (fails : Bytes → Bool → Bool) (s : Setup) (p : ℕ)
      → Selects registry args fails s
      → ((has_reports registry args fails s).active p ≡ (
          not (is_among registry.report_plugins (disabled_reports args.vm) p)
          && (is_chosen_here (has_reports registry args fails s) p || s.active p)))
        × All IsRegisteredReport (disabled_reports args.vm)
  has_reports-active fails s p v =
      let s1 = has_dbclient registry args fails s in
      let s2 = has_input registry args fails s in
      let s3 = has_dispatcher registry args fails s in
      let a1 = select_dbclient-active s p v.dbclient_ok in
      let (a2, k2) = select_input-active s1 p v.input_ok in
      let (a3, k3, l3) = select_dispatcher-active s2 p v.dispatcher_ok in
      let (a4, c4, known) = disable_reports-active (disabled_reports args.vm) s3 p v.reports_ok in
      let selected : s3.active p ≡ (is_chosen_here s3 p || s.active p) =
        rw (a3, a2, a1, l3, k3, k2)
          (or_chain (is_named registry.dispatcher_plugins s3.dispatcher p)
            (is_named registry.input_plugins s2.input p)
            (is_named registry.dbclient_plugins s1.dbclient p) (s.active p)) in
      (
        a4
            ∙ ap
                (λ (a : Bool).
                  not (is_among registry.report_plugins (disabled_reports args.vm) p) && a)
                selected
            ∙ ap
                (λ (c : Bool).
                  not (is_among registry.report_plugins (disabled_reports args.vm) p)
                  && (c || s.active p))
                (sym c4),
        known,
      )

  -- Where percona_playback_argv returns 0, every report plugin that is to be disabled is registered,
  -- and exactly those plugin objects are active that were active before or are chosen as the client,
  -- the input plugin or the dispatcher, without the report plugins that are to be disabled.
  pub percona_playback_argv-active :
      (fails : Bytes → Bool → Bool) (s : Setup) (p : ℕ)
      → is_zero (percona_playback_argv registry args fails s).0 ≡ true
      → ((percona_playback_argv registry args fails s).1.active p ≡ (
          not (is_among registry.report_plugins (disabled_reports args.vm) p)
          && (is_chosen_here (percona_playback_argv registry args fails s).1 p || s.active p)))
        × All IsRegisteredReport (disabled_reports args.vm)
  unfolding set_numbers
  percona_playback_argv-active fails s p h =
      let v = percona_playback_argv-Succeeds registry args fails s h in
      let s4 = has_reports registry args fails s in
      let s5 = after_help registry args fails s in
      let same : has_options registry args fails s ≡ s4 =
        process_options-setup fails registry.all_plugins s5 ∙ show_help_or_version-setup s4 in
      let active_as : (percona_playback_argv registry args fails s).1.active p ≡ s4.active p =
        ap (λ (x : ℤ × Setup). x.1.active p) v.whole ∙ ap (λ (u : Setup). u.active p) same in
      let chosen_as : is_chosen_here (percona_playback_argv registry args fails s).1 p
          ≡ is_chosen_here s4 p =
        ap (λ (x : ℤ × Setup). is_chosen_here x.1 p) v.whole
        ∙ ap (λ (u : Setup). is_chosen_here u p) same in
      let (active, known) = has_reports-active fails s p v.selects in
      (
        active_as
            ∙ active
            ∙ ap
                (λ (c : Bool).
                  not (is_among registry.report_plugins (disabled_reports args.vm) p)
                  && (c || s.active p))
                (sym chosen_as),
        known,
      )
