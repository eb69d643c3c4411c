-- ===== src/QueryLog/Plugin.antt =====
-- QueryLogPlugin of percona_playback/query_log/query_log.cc: `processOptions`, `run` and
-- LogReaderThread. Opening and mapping a file, and the bytes of stdin, are parameters. `run` returns
-- `none` where the dispatcher does not return, or a loop runs out of fuel.
pub mod Source
pub mod Results
pub mod Pipeline
pub mod Pooled
pub mod Delays
use query_playback.Prelude.{
  ◌∷◌, ℕ, zero, suc, ◌+◌, ◌*◌, Bool, true, false, not, ◌&&◌, ◌||◌, [], ◌++◌, List, Option, none,
  some, length, take, drop, ltb, if◌then◌else◌,
}
use query_playback.Prelude.Int.{ℤ, pos, negsuc}
use query_playback.Result.{RunResult, with_world}
use query_playback.Text.{Bytes, codes}
use query_playback.CommandLine.{VariablesMap, OptionType, OptionDescription, is_given}
use query_playback.QueryLog.Readline.{StringRef}
use query_playback.QueryLog.Data.{Libc, QueryLogData}
use query_playback.QueryLog.Scan.{Scan}
use query_playback.QueryLog.Order.{get_entries}

pub record QueryLogPlugin : Type 0 where
  pub file_name : Bytes
  pub std_in : Bool

-- The constructor.
abbrev pub query_log_plugin : QueryLogPlugin
query_log_plugin = record { file_name = []; std_in = false }

abbrev pub get_program_options : List OptionDescription
get_program_options =
    record { name = codes "query-log-file"; type = OptionType.text; has_default = false }
    ∷ record { name = codes "query-log-stdin"; type = OptionType.flag; has_default = true }
    ∷ record { name = codes "query-log-set-timestamp"; type = OptionType.flag; has_default = true }
    ∷ record {
      name = codes "query-log-preserve-query-time";
      type = OptionType.flag;
      has_default = true;
    }
    ∷ record { name = codes "query-log-accurate-mode"; type = OptionType.flag; has_default = true }
    ∷ record {
      name = codes "query-log-disable-sorting";
      type = OptionType.flag;
      has_default = true;
    }
    ∷ []

abbrev pub has_own_option : VariablesMap → Bool
has_own_option vm =
    is_given vm (codes "query-log-file")
    || not (vm.defaulted (codes "query-log-stdin"))
    || not (vm.defaulted (codes "query-log-preserve-query-time"))
    || not (vm.defaulted (codes "query-log-set-timestamp"))

-- The part for the active plugin: the file or stdin, and not both.
unfoldable pub process_source : VariablesMap → QueryLogPlugin → ℤ × QueryLogPlugin
process_source vm p =
    if is_given vm (codes "query-log-file") && vm.flag (codes "query-log-stdin")
    then (negsuc 0, p)
    else if is_given vm (codes "query-log-file")
    then (pos 0, record p { file_name = vm.text (codes "query-log-file") })
    else if vm.flag (codes "query-log-stdin")
    then (pos 0, record p { std_in = true })
    else (negsuc 0, p)

unfoldable pub process_options : Bool → VariablesMap → QueryLogPlugin → ℤ × QueryLogPlugin
unfolding process_source
process_options active vm p =
    if not active && has_own_option vm
    then (negsuc 0, p)
    else if not active
    then (pos 0, p)
    else process_source vm p

-- The loop that reads stdin by blocks, with what is still to come and the data so far. A read gives
-- the next bytes, and fewer than were asked for only at the end.
unfoldable pub read_stdin : ℕ → ℕ → Bytes → Bytes → Option Bytes
read_stdin block_size zero rest text = none
read_stdin block_size (suc fuel) rest text =
    let block = take block_size rest in
    let more = read_stdin block_size fuel (drop block_size rest) (text ++ block) in
    if ltb (length block) block_size then some (text ++ block) else more

-- What open, fstat and mmap make of a file name.
pub data FileMapping : Type 0 where
  cannot_open : FileMapping
  cannot_map : FileMapping
  mapped : StringRef → FileMapping

abbrev pub block_size : ℕ
block_size = 1024 * 32

module _ {W : Type 0} (libc : Libc) (accurate_mode disable_sorting : Bool) where
  -- `dispatch` is `dispatch` and `finish_all_and_wait` of the dispatcher, and `none` where they do
  -- not return.
  abbrev pub read_result :
      (List QueryLogData → W → Option W) → RunResult → W → Option Scan → Option (RunResult × W)
  read_result dispatch r w none = none
  read_result dispatch r w (some st) =
      with_world (record r { n_log_entries = st.num_entries; n_queries = st.num_queries })
        (dispatch st.entries w)

  unfoldable pub log_reader_thread :
      (List QueryLogData → W → Option W) → StringRef → RunResult → W → Option (RunResult × W)
  unfolding get_entries
  log_reader_thread dispatch log r w =
      read_result dispatch r w (get_entries libc accurate_mode disable_sorting log)

  abbrev pub run_mapped :
      (List QueryLogData → W → Option W) → FileMapping → RunResult → W → Option (RunResult × W)
  run_mapped dispatch cannot_open r w = some (r, w)
  run_mapped dispatch cannot_map r w = some (r, w)
  run_mapped dispatch (mapped log) r w = log_reader_thread dispatch log r w

  -- The string that the bytes of stdin are read to stands at `buffer`.
  abbrev pub run_text :
      (List QueryLogData → W → Option W) → ℕ → Option Bytes → RunResult → W → Option (RunResult × W)
  run_text dispatch buffer none r w = none
  run_text dispatch buffer (some text) r w =
      log_reader_thread dispatch (record { at = buffer; text = text }) r w

  unfoldable pub run :
      (List QueryLogData → W → Option W)
      → (Bytes → FileMapping)
      → ℕ
      → Bytes
      → QueryLogPlugin
      → RunResult
      → W
      → Option (RunResult × W)
  unfolding log_reader_thread read_stdin
  run dispatch map_file buffer stdin p r w =
      if p.std_in
      then run_text dispatch buffer (read_stdin block_size (length stdin + 1) stdin []) r w
      else run_mapped dispatch (map_file p.file_name) r w
