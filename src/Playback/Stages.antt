-- ===== src/Playback/Stages.antt =====
-- The parts of percona_playback_argv, one after another, where it returns 0.
use query_playback.Prelude.{◌≡◌, refl, ◌∙◌, Bool, true, Bool-cases, inl, inr, arith}
use query_playback.Prelude.Int.{is_zero}
use query_playback.Registry.{PluginRegistry}
use query_playback.Text.{Bytes}
use query_playback.Playback.{
  Arguments, disabled_reports, Setup, Part, and_then, select_dbclient, select_input,
  select_dispatcher, disable_reports, show_help_or_version, process_options, set_numbers,
  percona_playback_argv,
}

and_then-zero :
    (first second : Part) (s : Setup)
    → is_zero (and_then first second s).0 ≡ true
    → (is_zero (first s).0 ≡ true)
      × (and_then first second s ≡ second (first s).1)
      × (is_zero (second (first s).1).0 ≡ true)
unfolding and_then
and_then-zero first second s h = elim (Bool-cases (is_zero (first s).0)) [
  | inl e ↦ (e, rw e refl, rw e at h)
  | inr e ↦ absurd (ground arith)
]

module _ (registry : PluginRegistry) (args : Arguments) (fails : Bytes → Bool → Bool)
    (s : Setup) where
  -- The setup after the first parts.
  abbrev pub has_dbclient : Setup
  has_dbclient = (select_dbclient registry args s).1

  abbrev pub has_input : Setup
  has_input = (select_input registry args has_dbclient).1

  abbrev pub has_dispatcher : Setup
  has_dispatcher = (select_dispatcher registry args has_input).1

  abbrev pub has_reports : Setup
  has_reports = (disable_reports registry args (disabled_reports args.vm) has_dispatcher).1

  abbrev pub after_help : Setup
  after_help = (show_help_or_version registry args has_reports).1

  abbrev pub has_options : Setup
  has_options = (process_options registry args fails registry.all_plugins after_help).1

  -- The parts before the help succeed.
  pub record Selects : Type 0 where
    pub dbclient_ok : is_zero (select_dbclient registry args s).0 ≡ true
    pub input_ok : is_zero (select_input registry args has_dbclient).0 ≡ true
    pub dispatcher_ok : is_zero (select_dispatcher registry args has_input).0 ≡ true
    pub reports_ok :
        is_zero (disable_reports registry args (disabled_reports args.vm) has_dispatcher).0 ≡ true

  pub record Succeeds : Type 0 where
    pub selects : Selects
    pub help_ok : is_zero (show_help_or_version registry args has_reports).0 ≡ true
    pub options_ok :
        is_zero (process_options registry args fails registry.all_plugins after_help).0 ≡ true
    pub whole : percona_playback_argv registry args fails s ≡ set_numbers registry args has_options

  pub percona_playback_argv-Succeeds :
      is_zero (percona_playback_argv registry args fails s).0 ≡ true → Succeeds
  unfolding percona_playback_argv
  percona_playback_argv-Succeeds h =
      let p7 : Part = set_numbers registry args in
      let p6 : Part = process_options registry args fails registry.all_plugins in
      let p5 : Part = show_help_or_version registry args in
      let p4 : Part = disable_reports registry args (disabled_reports args.vm) in
      let p3 : Part = select_dispatcher registry args in
      let p2 : Part = select_input registry args in
      let p1 : Part = select_dbclient registry args in
      let (h1, e1, r1) =
        and_then-zero p1 (and_then p2 (and_then p3 (and_then p4 (and_then p5 (and_then p6 p7))))) s
          h in
      let (h2, e2, r2) =
        and_then-zero p2 (and_then p3 (and_then p4 (and_then p5 (and_then p6 p7)))) has_dbclient
          r1 in
      let (h3, e3, r3) =
        and_then-zero p3 (and_then p4 (and_then p5 (and_then p6 p7))) has_input r2 in
      let (h4, e4, r4) = and_then-zero p4 (and_then p5 (and_then p6 p7)) has_dispatcher r3 in
      let (h5, e5, r5) = and_then-zero p5 (and_then p6 p7) has_reports r4 in
      let (h6, e6, r6) = and_then-zero p6 p7 after_help r5 in
      record {
        selects = record { dbclient_ok = h1; input_ok = h2; dispatcher_ok = h3; reports_ok = h4 };
        help_ok = h5;
        options_ok = h6;
        whole = e1 ∙ e2 ∙ e3 ∙ e4 ∙ e5 ∙ e6;
      }
