-- ===== src/Playback/Once.antt =====
-- What the declared options mean for a run of the program.
use query_playback.Prelude.{
  List, ◌==◌, ◌||◌, ℕ, ◌≡◌, refl, ap, sym, ◌∙◌, Bool, true, false, not, some, if◌then◌else◌,
  Bool-cases, inl, inr, arith, or_true, [], ◌∷◌,
}
use query_playback.Prelude.Int.{is_zero, ℤ, pos, negsuc}
use query_playback.CommandLine.{is_given, IsStored}
use query_playback.Registry.{PluginMap, PluginRegistry}
use query_playback.OrderedMap.{bytes_order, lookup}
use query_playback.Text.{Bytes, codes, same_bytes}
use query_playback.Text.Same.{eq_of_same_bytes}
use query_playback.Playback.{
  Arguments, disabled_reports, Setup, Plugins, set_numbers, percona_playback_argv,
  percona_playback_run, run_all_from, percona_playback_run_all, main,
}
use query_playback.Playback.Stages.{percona_playback_argv-Succeeds}
use query_playback.Playback.Active.{is_object, is_among}
use query_playback.Playback.Options.{disabled_simple_report}
use query_playback.Playback.Declared.{
  PluginClass, simple_report, options_description, no_loop, is_defaulted-plugin_options,
}
use query_playback.Report.Simple.Options as SimpleReportPlugin

-- The name is one of a list.
abbrev pub is_listed : List Bytes → Bytes → Bool
is_listed [] name = false
is_listed (n ∷ ns) name = same_bytes n name || is_listed ns name

is_among-is_listed :
    (m : PluginMap) (names : List Bytes) (name : Bytes) (p : ℕ)
    → lookup name m ≡ some p
    → is_listed names name ≡ true
    → is_among m names p ≡ true
is_among-is_listed m [] name p found h = absurd (ground (arith, h))
is_among-is_listed m (n ∷ ns) name p found h = elim (Bool-cases (same_bytes n name)) [
  | inl e ↦
      let same = eq_of_same_bytes n name e in
      let self : (p == p) ≡ true = ground arith in rw (same, found, self)
  | inr e ↦
      let rest = is_among-is_listed m ns name p found (rw e at h) in
      rw rest (or_true (is_object (lookup n m) p))
]

module _ (class_of : ℕ → PluginClass) (registry : PluginRegistry) (args : Arguments)
    (stored : IsStored (options_description class_of registry) args.vm) where
  loop_not_given : is_given args.vm (codes "loop") ≡ false
  loop_not_given = elim (Bool-cases (is_given args.vm (codes "loop"))) [
    | inl given ↦
        let declared = stored.only_declared (codes "loop") given in
        absurd (ground (arith, sym declared ∙ no_loop class_of registry))
    | inr not_given ↦ not_given
  ]

  loop_is_one :
      (fails : Bytes → Bool → Bool) (s : Setup)
      → (percona_playback_argv registry args fails s).0 ≡ pos 0
      → (percona_playback_argv registry args fails s).1.loop ≡ 1
  unfolding set_numbers
  loop_is_one fails s h =
      let v = percona_playback_argv-Succeeds registry args fails s (rw h refl) in
      ap (λ (x : ℤ × Setup). x.1.loop) v.whole ∙ rw loop_not_given

  -- An option `--loop` is not declared, so where percona_playback_argv returns 0 on a parsed command
  -- line, the program makes one run, and exits with 0 where that leaves no error and with -1 where it
  -- leaves one.
  pub main-once :
      {W : Type 0} (plugins : Plugins W) (fails : Bytes → Bool → Bool) (s : Setup) (w : W)
      → (percona_playback_argv registry args fails s).0 ≡ pos 0
      → let s' = (percona_playback_argv registry args fails s).1 in
        let ran = percona_playback_run plugins registry s' w in
        main plugins registry args fails s w ≡ (if is_zero ran.0 then pos 0 else negsuc 0, ran.1)
  unfolding main percona_playback_run_all run_all_from
  main-once plugins fails s w h =
      let s' = (percona_playback_argv registry args fails s).1 in
      rw (h, loop_is_one fails s h)
        (elim (Bool-cases (is_zero (percona_playback_run plugins registry s' w).0)) [
          | inl e ↦ rw e refl
          | inr e ↦ rw e refl
        ])

  -- Where the simple report is registered, among all plugins and the reports, and is to be disabled,
  -- percona_playback_argv returns 0 on no parsed command line: the options of the simple report have
  -- default values, so they are always stored, and its `processOptions` takes them for given.
  pub simple_report_stays :
      (fails : Bytes → Bool → Bool) (s : Setup) (p : ℕ)
      → ((active : Bool)
          → fails (codes "simple_report") active
            ≡ not (is_zero (SimpleReportPlugin.process_options active args.vm)))
      → lookup (codes "simple_report") registry.all_plugins ≡ some p
      → lookup (codes "simple_report") registry.report_plugins ≡ some p
      → class_of p ≡ simple_report
      → is_listed (disabled_reports args.vm) (codes "simple_report") ≡ true
      → is_zero (percona_playback_argv registry args fails s).0 ≡ false
  simple_report_stays fails s p is_its found reported its_class off =
      let option = codes "show-per-connection-query-count" in
      let its =
        is_defaulted-plugin_options class_of registry.all_plugins (codes "simple_report") p
          SimpleReportPlugin.get_program_options option found (rw its_class refl) refl in
      disabled_simple_report registry args fails s p is_its (stored.defaults option its) found (
        is_among-is_listed registry.report_plugins (disabled_reports args.vm)
          (codes "simple_report") p reported off)
