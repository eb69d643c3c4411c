-- ===== src/GeneralLog/Plugin.antt =====
-- GeneralLogPlugin of percona_playback/general_log/general_log.cc: `processOptions`, `run` and
-- GeneralLogReaderThread. What fopen gives is a parameter: the lines of the file, if it opens it.
pub mod Results
use query_playback.Prelude.{
  ◌∷◌, ℕ, Bool, true, false, not, ◌&&◌, ◌||◌, [], List, Option, none, some, length, if◌then◌else◌,
}
use query_playback.Prelude.Int.{ℤ, pos, negsuc}
use query_playback.Text.{Bytes, codes}
use query_playback.CommandLine.{VariablesMap, OptionType, OptionDescription, is_given}
use query_playback.Result.{RunResult, with_world}
use query_playback.GeneralLog.{GeneralLogEntry, Matcher, get_entries}

pub record GeneralLogPlugin : Type 0 where
  pub file_name : Bytes
  pub read_count : ℕ
  pub std_in : Bool

-- The constructor.
abbrev pub general_log_plugin : GeneralLogPlugin
general_log_plugin = record { file_name = []; read_count = 1; std_in = false }

abbrev pub get_program_options : List OptionDescription
get_program_options =
    record { name = codes "general-log-file"; type = OptionType.text; has_default = false }
    ∷ record { name = codes "general-log-stdin"; type = OptionType.flag; has_default = true }
    ∷ []

abbrev pub has_own_option : VariablesMap → Bool
has_own_option vm =
    is_given vm (codes "general-log-file") || not (vm.defaulted (codes "general-log-stdin"))

-- The part for the active plugin: the file or stdin, and not both.
unfoldable pub process_source : VariablesMap → GeneralLogPlugin → ℤ × GeneralLogPlugin
process_source vm p =
    if is_given vm (codes "general-log-file") && vm.flag (codes "general-log-stdin")
    then (negsuc 0, p)
    else if is_given vm (codes "general-log-file")
    then (pos 0, record p { file_name = vm.text (codes "general-log-file") })
    else if vm.flag (codes "general-log-stdin")
    then (pos 0, record p { std_in = true })
    else (negsuc 0, p)

unfoldable pub process_options : Bool → VariablesMap → GeneralLogPlugin → ℤ × GeneralLogPlugin
unfolding process_source
process_options active vm p =
    if not active && has_own_option vm
    then (negsuc 0, p)
    else if not active
    then (pos 0, p)
    else process_source vm p

module _ {W : Type 0} (match : Matcher) (dispatch : List GeneralLogEntry → W → Option W) where
  -- `dispatch` is `dispatch` and `finish_all_and_wait` of the dispatcher, and `none` where they do
  -- not return. `popEntry` takes no entry
  -- away from the counts.
  unfoldable pub general_log_reader_thread : List Bytes → RunResult → W → Option (RunResult × W)
  unfolding get_entries
  general_log_reader_thread lines r w =
      let entry_vec = get_entries match lines in
      with_world (record r { n_log_entries = length entry_vec; n_queries = length entry_vec })
        (dispatch entry_vec w)

  abbrev pub run_lines : Option (List Bytes) → RunResult → W → Option (RunResult × W)
  run_lines none r w = some (r, w)
  run_lines (some lines) r w = general_log_reader_thread lines r w

  unfoldable pub run :
      (Bytes → Option (List Bytes))
      → List Bytes
      → GeneralLogPlugin
      → RunResult
      → W
      → Option (RunResult × W)
  unfolding general_log_reader_thread
  run fopen stdin p r w = run_lines (if p.std_in then some stdin else fopen p.file_name) r w
