-- ===== src/Playback/Help/Stops.antt =====
-- The parts of percona_playback_argv, one after another, where it returns 1.
use query_playback.Prelude.{
  ◌≡◌, refl, ◌∙◌, ◌⊎◌, inl, inr, Bool, true, false, ◌||◌, List, [], ◌∷◌, Option, none, some, ◌==◌,
  Bool-cases, arith,
}
use query_playback.Prelude.Int.{is_zero, ℤ, pos, negsuc}
use query_playback.CommandLine.{is_given}
use query_playback.OrderedMap.{bytes_order, lookup}
use query_playback.Registry.{PluginMap, PluginRegistry, keys}
use query_playback.Text.{Bytes, codes}
use query_playback.Playback.{
  set_active, Arguments, disabled_reports, Setup, Part, has_plugin, or_fail, and_then,
  select_dbclient, select_input, select_dispatcher, disable_reports, show_help_or_version,
  process_options, set_numbers, percona_playback_argv,
}
use query_playback.Playback.Stages.{has_dbclient, has_input, has_dispatcher, has_reports, Selects}

-- The codes of a part that is done or that fails.
abbrev IsDoneOrFails : ℤ → Type 0
IsDoneOrFails code = (code ≡ pos 0) ⊎ (code ≡ negsuc 0)

and_then-stops :
    (first second : Part) (s : Setup) (code : ℤ)
    → IsDoneOrFails (first s).0
    → code ≡ pos 1
    → (and_then first second s).0 ≡ code
    → (is_zero (first s).0 ≡ true)
      × (and_then first second s ≡ second (first s).1)
      × ((second (first s).1).0 ≡ code)
unfolding and_then
and_then-stops first second s code (inl e) one h = (rw e refl, rw e refl, rw e at h)
and_then-stops first second s code (inr e) one h = absurd (ground (arith, rw e at h))

or_fail-IsDoneOrFails :
    (o : Option Bytes) (f : Bytes → Setup) (s : Setup) → IsDoneOrFails (or_fail o f s).0
or_fail-IsDoneOrFails none f s = inr refl
or_fail-IsDoneOrFails (some name) f s = inl refl

module _ (registry : PluginRegistry) (args : Arguments) where
  select_dbclient-IsDoneOrFails : (s : Setup) → IsDoneOrFails (select_dbclient registry args s).0
  unfolding select_dbclient
  select_dbclient-IsDoneOrFails s = or_fail-IsDoneOrFails _ _ s

  select_input-IsDoneOrFails : (s : Setup) → IsDoneOrFails (select_input registry args s).0
  unfolding select_input
  select_input-IsDoneOrFails s = or_fail-IsDoneOrFails _ _ s

  select_dispatcher-IsDoneOrFails :
      (s : Setup) → IsDoneOrFails (select_dispatcher registry args s).0
  unfolding select_dispatcher
  select_dispatcher-IsDoneOrFails s = or_fail-IsDoneOrFails _ _ s

  disable_reports-IsDoneOrFails :
      (names : List Bytes) (s : Setup) → IsDoneOrFails (disable_reports registry args names s).0
  unfolding disable_reports
  disable_reports-IsDoneOrFails [] s = inl refl
  disable_reports-IsDoneOrFails (n ∷ ns) s =
      elim (Bool-cases (has_plugin (keys registry.report_plugins) n)) [
        | inl e ↦ rw e (
            disable_reports-IsDoneOrFails ns
              (record s { active = set_active (lookup n registry.report_plugins) false s.active }))
        | inr e ↦ rw e (inr refl)
      ]

  process_options-IsDoneOrFails :
      (fails : Bytes → Bool → Bool) (ps : PluginMap) (s : Setup)
      → IsDoneOrFails (process_options registry args fails ps s).0
  unfolding process_options
  process_options-IsDoneOrFails fails [] s = inl refl
  process_options-IsDoneOrFails fails ((name, p) ∷ ps) s =
      elim (Bool-cases (fails name (s.active p))) [
        | inl e ↦ rw e (inr refl)
        | inr e ↦ rw e (process_options-IsDoneOrFails fails ps s)
      ]

  -- The parts behind the help never return 1.
  no_help_behind :
      (fails : Bytes → Bool → Bool) (s : Setup)
      → (and_then
          (process_options registry args fails registry.all_plugins)
          (set_numbers registry args)
          s).0
        ≡ pos 1
      → ⊥
  unfolding set_numbers
  no_help_behind fails s h =
      let (done, same, one) =
        and_then-stops (process_options registry args fails registry.all_plugins)
          (set_numbers registry args) s (pos 1)
          (process_options-IsDoneOrFails fails registry.all_plugins s) refl h in
      ground (arith, one)

  -- `show_help_or_version` where the whole returns 1.
  help-asked :
      (fails : Bytes → Bool → Bool) (s : Setup)
      → (and_then
          (show_help_or_version registry args)
          (and_then
            (process_options registry args fails registry.all_plugins)
            (set_numbers registry args))
          s).0
        ≡ pos 1
      → ((is_given args.vm (codes "help") || args.argc == 1) ≡ true)
        × (and_then
              (show_help_or_version registry args)
              (and_then
                (process_options registry args fails registry.all_plugins)
                (set_numbers registry args))
              s
            ≡ (pos 1, s))
  unfolding and_then show_help_or_version
  help-asked fails s h = elim (Bool-cases (is_given args.vm (codes "help") || args.argc == 1)) [
    | inl e ↦ (e, rw e refl)
    | inr e ↦ elim (Bool-cases (is_given args.vm (codes "version"))) [
      | inl f ↦ absurd (ground (arith, rw (e, f) at h))
      | inr f ↦ elim (no_help_behind fails s (rw (e, f) at h)) [ ]
    ]
  ]

  pub percona_playback_argv-Selects :
      (fails : Bytes → Bool → Bool) (s : Setup)
      → (percona_playback_argv registry args fails s).0 ≡ pos 1
      → Selects registry args fails s
        × ((is_given args.vm (codes "help") || args.argc == 1) ≡ true)
        × (percona_playback_argv registry args fails s ≡ (pos 1, has_reports registry args fails s))
  unfolding percona_playback_argv
  percona_playback_argv-Selects fails s h =
      let p6 : Part =
        and_then (process_options registry args fails registry.all_plugins)
          (set_numbers registry args) in
      let p5 : Part = and_then (show_help_or_version registry args) p6 in
      let p4 : Part = disable_reports registry args (disabled_reports args.vm) in
      let p3 : Part = select_dispatcher registry args in
      let p2 : Part = select_input registry args in
      let s1 = has_dbclient registry args fails s in
      let s2 = has_input registry args fails s in
      let s3 = has_dispatcher registry args fails s in
      let s4 = has_reports registry args fails s in
      let (h1, e1, r1) =
        and_then-stops (select_dbclient registry args) (and_then p2 (and_then p3 (and_then p4 p5)))
          s (pos 1) (select_dbclient-IsDoneOrFails s) refl h in
      let (h2, e2, r2) =
        and_then-stops p2 (and_then p3 (and_then p4 p5)) s1 (pos 1) (select_input-IsDoneOrFails s1)
          refl r1 in
      let (h3, e3, r3) =
        and_then-stops p3 (and_then p4 p5) s2 (pos 1) (select_dispatcher-IsDoneOrFails s2) refl
          r2 in
      let (h4, e4, r4) =
        and_then-stops p4 p5 s3 (pos 1)
          (disable_reports-IsDoneOrFails (disabled_reports args.vm) s3) refl r3 in
      let (asked, e5) = help-asked fails s4 r4 in
      (
        record { dbclient_ok = h1; input_ok = h2; dispatcher_ok = h3; reports_ok = h4 },
        asked,
        e1 ∙ e2 ∙ e3 ∙ e4 ∙ e5,
      )
