-- ===== src/Tests/GeneralLog.antt =====
-- A general log with two statements of one connection.
use query_playback.Prelude.{
  ℕ, ◌+◌, length, Option, none, ◌≡◌, refl, true, false, List, [], ◌∷◌, some, ◌==◌, Bool-cases, inl,
  inr, arith,
}
use query_playback.Prelude.Int.{is_zero, pos}
use query_playback.CommandLine.{VariablesMap, is_given}
use query_playback.Result.{RunResult}
use query_playback.QueryLog.Plugin.Source.{exactly_one}
use query_playback.GeneralLog.Plugin.{general_log_plugin, process_options, run}
use query_playback.GeneralLog.Plugin.Results.{left_by, run-chosen}
use query_playback.Tests.Mysql.{nothing_given}
use query_playback.Text.{Bytes, codes}
use query_playback.Table.{find, set}
use query_playback.Dispatch.PerConnection.{System, create, push, work}
use query_playback.Dispatch.PerConnection.Steps.{Reach, here, next, creates, pushes, works}
use query_playback.Dispatch.PerConnection.Invariant.{started}
use query_playback.Dispatch.PerConnection.Outcome.{IsDone}
use query_playback.GeneralLog.{
  GeneralLogEntry, general_log_entry, Matcher, get_entries, set_shutdown_on_last_query_of_conn,
}
use query_playback.GeneralLog.LineEntries.{line_entries}
use query_playback.Text.Number.{strtoull}
use query_playback.GeneralLog.Shutdown.{queries_of, id_of, shuts, general_log-executed}

-- Every line is a statement of connection 7.
abbrev all_match : Matcher
all_match line = some (codes "7", line)

abbrev two_lines : List Bytes
two_lines = codes "SELECT 1\n" ∷ codes "# a comment\n" ∷ codes "SELECT 2\r\n" ∷ []

abbrev statement_of : Bytes → GeneralLogEntry
statement_of query = record general_log_entry { thread_id = 7; query = query }

abbrev one_entry : List GeneralLogEntry
one_entry = statement_of (codes "SELECT 1 ") ∷ []

abbrev last_entry : GeneralLogEntry
last_entry = record (statement_of (codes "SELECT 1 ")) { shutdown = true }

abbrev played : System GeneralLogEntry
played = record {
  pending = [];
  executors = (7, record { queries = []; running = false }) ∷ [];
  num_running = 1;
  executed = last_entry ∷ [];
}

abbrev one_line : List Bytes
one_line = codes "SELECT 1\n" ∷ []

played-Reach :
    Reach id_of shuts 5
      (started (set_shutdown_on_last_query_of_conn (get_entries all_match one_line)))
      played
unfolding find set create push work set_shutdown_on_last_query_of_conn get_entries strtoull
played-Reach =
    next
      (next (next here (creates last_entry [] refl refl refl))
        (pushes last_entry [] (record { queries = []; running = true }) refl refl (omega arith)))
      (works 7 last_entry [] (record { queries = last_entry ∷ []; running = true }) refl refl refl)

played-IsDone : IsDone played
unfolding find
played-IsDone =
    (refl, λ id t f. elim (Bool-cases (7 == id)) [ inl e ↦ ground arith | inr e ↦ ground arith ])

general_log-executed_example :
    queries_of 7 played.executed ≡ queries_of 7 (line_entries all_match one_line)
general_log-executed_example =
    general_log-executed all_match one_line 5 played-Reach played-IsDone 7

-- `general-log-stdin` is given alone.
abbrev stdin_given : VariablesMap
stdin_given = record nothing_given { flag = λ name. true }

abbrev count_entries : List GeneralLogEntry → ℕ → Option ℕ
count_entries es w = some (w + length es)

abbrev no_file : Bytes → Option (List Bytes)
no_file name = none

abbrev fresh_result : RunResult
fresh_result = record { err = pos 0; n_log_entries = 0; n_queries = 0 }

stdin_given-accepted : is_zero (process_options true stdin_given general_log_plugin).0 ≡ true
unfolding process_options
stdin_given-accepted = refl

run-chosen_example :
    (exactly_one (is_given stdin_given (codes "general-log-file")) true ≡ true)
    × (run all_match count_entries no_file two_lines
          (process_options true stdin_given general_log_plugin).1
          fresh_result
          0
        ≡ left_by all_match count_entries (some two_lines) fresh_result 0)
run-chosen_example =
    run-chosen all_match count_entries no_file two_lines stdin_given fresh_result 0
      stdin_given-accepted
