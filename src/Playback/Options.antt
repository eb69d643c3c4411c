-- ===== src/Playback/Options.antt =====
-- What the plugins' `processOptions` make of a command line that percona_playback_argv accepts.
use query_playback.Prelude.{
  ℕ, some, some_eq, none-ne-some, ◌≡◌, refl, ap, ◌∙◌, sym, Bool, true, false, not, [], ◌∷◌,
  Bool-cases, inl, inr, arith,
}
use query_playback.Prelude.Int.{is_zero, ℤ}
use query_playback.CommandLine.{is_given}
use query_playback.OrderedMap.{bytes_order, lookup}
use query_playback.OrderedMap.Laws.{lookup-nil, lookup-cons, lookup-here}
use query_playback.Registry.{PluginMap, PluginRegistry}
use query_playback.Text.{Bytes, codes}
use query_playback.Playback.{
  Arguments, disabled_reports, Setup, process_options, set_numbers, percona_playback_argv,
}
use query_playback.Playback.Stages.{after_help, percona_playback_argv-Succeeds}
use query_playback.Playback.Active.{is_among, percona_playback_argv-active, process_options-setup}
use query_playback.QueryLog.Plugin.{QueryLogPlugin}
use query_playback.QueryLog.Plugin as QueryLogPlugin
use query_playback.Report.Simple.Options as SimpleReportPlugin

module _ (registry : PluginRegistry) (args : Arguments) (fails : Bytes → Bool → Bool) where
  process_options-accepts :
      (ps : PluginMap) (s : Setup) (name : Bytes) (p : ℕ)
      → is_zero (process_options registry args fails ps s).0 ≡ true
      → lookup name ps ≡ some p
      → fails name (s.active p) ≡ false
  unfolding process_options
  process_options-accepts [] s name p h found =
      absurd (none-ne-some (sym (lookup-nil name) ∙ found))
  process_options-accepts ((l, q) ∷ ps) s name p h found =
      elim (Bool-cases (fails l (s.active q))) [
        | inl e ↦ absurd (ground (arith, rw e at h))
        | inr e ↦ elim (lookup-cons name l) [
          | inl apart ↦ process_options-accepts ps s name p (rw e at h) (sym (apart q ps) ∙ found)
          | inr same ↦
              let p_is : q ≡ p = some_eq (
                sym (lookup-here l q ps)
                ∙ ap (λ (k : Bytes). lookup k ((l, q) ∷ ps)) (sym same)
                ∙ found) in
              rw (same, ← p_is) e
        ]
      ]

  -- Where percona_playback_argv returns 0, the `processOptions` of every registered plugin has
  -- accepted the command line on the `active` flag that the plugin is left with.
  pub percona_playback_argv-accepts :
      (s : Setup) (name : Bytes) (p : ℕ)
      → is_zero (percona_playback_argv registry args fails s).0 ≡ true
      → lookup name registry.all_plugins ≡ some p
      → fails name ((percona_playback_argv registry args fails s).1.active p) ≡ false
  unfolding set_numbers
  percona_playback_argv-accepts s name p h found =
      let v = percona_playback_argv-Succeeds registry args fails s h in
      let s5 = after_help registry args fails s in
      let active_as : (percona_playback_argv registry args fails s).1.active p ≡ s5.active p =
        ap (λ (x : ℤ × Setup). x.1.active p) v.whole
        ∙ ap (λ (u : Setup). u.active p)
            (process_options-setup registry args fails registry.all_plugins s5) in
      ap (λ (a : Bool). fails name a) active_as
      ∙ process_options-accepts registry.all_plugins s5 name p v.options_ok found

  -- The option `--show-per-connection-query-count` has a default value, and so it is stored and
  -- counted in every parsed command line. Then percona_playback_argv never returns 0 where the simple
  -- report is registered, as a plugin and as a report, and is to be disabled.
  pub disabled_simple_report :
      (s : Setup) (p : ℕ)
      → ((active : Bool)
          → fails (codes "simple_report") active
            ≡ not (is_zero (SimpleReportPlugin.process_options active args.vm)))
      → is_given args.vm (codes "show-per-connection-query-count") ≡ true
      → lookup (codes "simple_report") registry.all_plugins ≡ some p
      → is_among registry.report_plugins (disabled_reports args.vm) p ≡ true
      → is_zero (percona_playback_argv registry args fails s).0 ≡ false
  disabled_simple_report s p is_its stored found off =
      elim (Bool-cases (is_zero (percona_playback_argv registry args fails s).0)) [
        | inl h ↦
            let accepted = percona_playback_argv-accepts s (codes "simple_report") p h found in
            let (flag, reports) = percona_playback_argv-active registry args fails s p h in
            let inactive : (percona_playback_argv registry args fails s).1.active p ≡ false =
              flag ∙ rw off in
            let refused : fails (codes "simple_report") false ≡ true =
              is_its false ∙ (unfold SimpleReportPlugin.process_options in rw stored refl) in
            absurd (ground (arith, sym refused ∙ rw inactive at accepted))
        | inr h ↦ h
      ]
