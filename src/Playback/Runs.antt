-- ===== src/Playback/Runs.antt =====
-- The runs and the exit code.
use query_playback.Prelude.{ℕ, zero, suc, ◌≡◌, refl, Bool, true}
use query_playback.Prelude.Int.{is_zero, pos}
use query_playback.Registry.{PluginRegistry}
use query_playback.Text.{Bytes}
use query_playback.Playback.{
  Arguments, Setup, Plugins, print_reports, percona_playback_argv, percona_playback_run,
  run_all_from, percona_playback_run_all, main,
}

module _ {W : Type 0} (plugins : Plugins W) (registry : PluginRegistry) where
  -- A number of runs one after another: the dispatcher is started, the input played, and every
  -- active report printed.
  abbrev pub runs : ℕ → Setup → W → W
  runs zero s w = w
  runs (suc n) s w = runs n s (
      print_reports plugins s.active registry.report_plugins
        (plugins.input_run (plugins.dispatcher_run w)).1)

  run_all_from-runs :
      (n : ℕ) (s : Setup) (w : W)
      → ((u : W) → is_zero (plugins.input_run u).0 ≡ true)
      → run_all_from plugins n registry s w ≡ (pos 0, runs n s w)
  unfolding run_all_from percona_playback_run
  run_all_from-runs zero s w h = refl
  run_all_from-runs (suc n) s w h = rw (h (plugins.dispatcher_run w)) (run_all_from-runs n s _ h)

  -- Where percona_playback_argv returns 0 and no run leaves an error, the program makes as many runs
  -- as its setup says and exits with 0.
  pub main-runs :
      (args : Arguments) (fails : Bytes → Bool → Bool) (s : Setup) (w : W)
      → (percona_playback_argv registry args fails s).0 ≡ pos 0
      → ((u : W) → is_zero (plugins.input_run u).0 ≡ true)
      → main plugins registry args fails s w ≡ (
        pos 0,
        runs
            (percona_playback_argv registry args fails s).1.loop
            (percona_playback_argv registry args fails s).1
            w,
      )
  unfolding main percona_playback_run_all
  main-runs args fails s w h e =
      let s' = (percona_playback_argv registry args fails s).1 in
      rw h (run_all_from-runs s'.loop s' w e)
