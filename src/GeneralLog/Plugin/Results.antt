-- ===== src/GeneralLog/Plugin/Results.antt =====
-- What a run of the plugin reads and leaves, on the command line that `processOptions` accepts.
use query_playback.Prelude.{
  ◌≡◌, refl, true, List, Option, none, some, length, if◌then◌else◌, Bool-cases, inl, inr, arith,
}
use query_playback.Prelude.Int.{is_zero}
use query_playback.Text.{Bytes, codes}
use query_playback.CommandLine.{VariablesMap, is_given}
use query_playback.Result.{RunResult, with_world}
use query_playback.GeneralLog.{GeneralLogEntry, Matcher}
use query_playback.GeneralLog.LineEntries.{line_entries, get_entries-line_entries}
use query_playback.GeneralLog.Plugin.{
  general_log_plugin, process_options, general_log_reader_thread, run_lines, run,
}
use query_playback.QueryLog.Plugin.Source.{exactly_one}

module _ {W : Type 0} (match : Matcher) (dispatch : List GeneralLogEntry → W → Option W) where
  -- What is left where these lines are read, or no file can be opened.
  abbrev pub left_by : Option (List Bytes) → RunResult → W → Option (RunResult × W)
  left_by none r w = some (r, w)
  left_by (some lines) r w =
      with_world
        (record r {
          n_log_entries = length (line_entries match lines);
          n_queries = length (line_entries match lines);
        })
        (dispatch (line_entries match lines) w)

  run_lines_lem :
      (lines : Option (List Bytes)) (r : RunResult) (w : W)
      → run_lines match dispatch lines r w ≡ left_by lines r w
  unfolding general_log_reader_thread
  run_lines_lem none r w = refl
  run_lines_lem (some lines) r w = rw (get_entries-line_entries match lines) refl

  -- Where the active plugin accepts the command line, exactly one of the file and stdin is chosen,
  -- and a run dispatches what the reading loop makes of that one, one entry for each line that is not
  -- ignored and matches, in the order of the lines, and counts these entries as its entries and as its
  -- queries. It ends exactly where the dispatcher does. Where the file cannot be opened, it leaves its
  -- result as it was.
  pub run-chosen :
      (fopen : Bytes → Option (List Bytes)) (stdin : List Bytes) (vm : VariablesMap) (r : RunResult)
      (w : W)
      → is_zero (process_options true vm general_log_plugin).0 ≡ true
      → (exactly_one (is_given vm (codes "general-log-file")) (vm.flag (codes "general-log-stdin"))
          ≡ true)
        × (run match dispatch fopen stdin (process_options true vm general_log_plugin).1 r w
            ≡ left_by
                (if vm.flag (codes "general-log-stdin")
                  then some stdin
                  else fopen (vm.text (codes "general-log-file")))
                r
                w)
  unfolding process_options run
  run-chosen fopen stdin vm r w h = elim (Bool-cases (is_given vm (codes "general-log-file"))) [
    | inl e ↦ elim (Bool-cases (vm.flag (codes "general-log-stdin"))) [
      | inl f ↦ absurd (ground (arith, rw (e, f) at h))
      | inr f ↦ (
        rw (e, f) refl,
        rw (e, f) (run_lines_lem (fopen (vm.text (codes "general-log-file"))) r w),
      )
    ]
    | inr e ↦ elim (Bool-cases (vm.flag (codes "general-log-stdin"))) [
      | inl f ↦ (rw (e, f) refl, rw (e, f) (run_lines_lem (some stdin) r w))
      | inr f ↦ absurd (ground (arith, rw (e, f) at h))
    ]
  ]
