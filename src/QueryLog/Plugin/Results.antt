-- ===== src/QueryLog/Plugin/Results.antt =====
-- What a run of the plugin leaves in its result.
use query_playback.Prelude.{
  ℕ, ◌+◌, ◌≤◌, ◌≡◌, refl, Bool, [], List, some, length, Bool-cases, inl, inr, arith, ap, ◌∙◌, sym,
  suc, ◌∷◌, Option, none, true, false, not, ◌||◌, if◌then◌else◌,
}
use query_playback.Result.{RunResult, with_world}
use query_playback.Prelude.Int.{ltb_ℤ}
use query_playback.Text.{Bytes}
use query_playback.QueryLog.Readline.{StringRef}
use query_playback.QueryLog.Data.{Libc, QueryLogData, parse_thread_id, starts_before}
use query_playback.QueryLog.Scan.Invariant.{scan_log-IsScanned}
use query_playback.QueryLog.Order.{
  TimeMap, no_times, set_time, adjust, insert, stable_sort, put_in_order, get_entries,
}
use query_playback.QueryLog.Plugin.{
  QueryLogPlugin, FileMapping, cannot_open, cannot_map, mapped, block_size, log_reader_thread,
  run_mapped, run,
}
use query_playback.QueryLog.Plugin.Source.{read_stdin-all}

length-adjust : (last : TimeMap) (qs : List QueryLogData) → length (adjust last qs) ≡ length qs
unfolding adjust
length-adjust last [] = refl
length-adjust last (q ∷ qs) =
    let (id, q') = parse_thread_id q in
    let is_sooner = ltb_ℤ q'.start_time (last id) in
    ap suc (length-adjust (if is_sooner then last else set_time last id q'.start_time) qs)

length-insert : (q : QueryLogData) (qs : List QueryLogData) → length (insert q qs) ≡ suc (length qs)
length-insert q [] = refl
length-insert q (x ∷ xs) = elim (Bool-cases (starts_before x q)) [
  | inl e ↦ rw e (ap suc (length-insert q xs))
  | inr e ↦ rw e refl
]

length-stable_sort : (qs : List QueryLogData) → length (stable_sort qs) ≡ length qs
length-stable_sort [] = refl
length-stable_sort (q ∷ qs) = length-insert q (stable_sort qs) ∙ ap suc (length-stable_sort qs)

length-put_in_order :
    (disable_sorting accurate_mode : Bool) (qs : List QueryLogData)
    → length (put_in_order disable_sorting accurate_mode qs) ≡ length qs
unfolding put_in_order
length-put_in_order disable_sorting accurate_mode qs =
    elim (Bool-cases (not disable_sorting || accurate_mode)) [
      | inl e ↦ rw e (length-stable_sort (adjust no_times qs) ∙ length-adjust no_times qs)
      | inr e ↦ rw e refl
    ]

abbrev pub has_entries : Option (List QueryLogData) → Bool
has_entries none = false
has_entries (some qs) = true

abbrev pub is_mapped : FileMapping → Bool
is_mapped cannot_open = false
is_mapped cannot_map = false
is_mapped (mapped log) = true

-- What is dispatched, if a log is read, against the result before and after.
abbrev pub IsGiven : Option (List QueryLogData) → RunResult → RunResult → Type 0
IsGiven none before after = (after ≡ before)
IsGiven (some qs) before after =
    (after.err ≡ before.err)
    × (length qs ≡ after.n_queries)
    × (after.n_queries ≤ after.n_log_entries)

module _ {W : Type 0} (libc : Libc) (accurate_mode disable_sorting : Bool)
    (dispatch : List QueryLogData → W → Option W) where
  -- What is left behind one call of the dispatcher with these entries, or none.
  abbrev pub ends_with : Option (List QueryLogData) → RunResult → W → Option (RunResult × W)
  ends_with none after w = some (after, w)
  ends_with (some qs) after w = with_world after (dispatch qs w)

  log_reader_thread_lem :
      (log : StringRef) (r : RunResult) (w : W)
      → (given : Option (List QueryLogData)) × (after : RunResult) × (log_reader_thread libc
            accurate_mode disable_sorting dispatch log r w
          ≡ ends_with given after w)
        × (has_entries given ≡ true)
        × IsGiven given r after
  unfolding log_reader_thread get_entries
  log_reader_thread_lem log r w =
      let (st, scanned, v) = scan_log-IsScanned libc accurate_mode log in
      (
        some (put_in_order disable_sorting st.accurate_mode st.entries),
        record r { n_log_entries = st.num_entries; n_queries = st.num_queries },
        rw scanned refl,
        refl,
        (
          refl,
          length-put_in_order disable_sorting st.accurate_mode st.entries ∙ sym v.counted,
          v.among,
        ),
      )

  run_mapped_lem :
      (m : FileMapping) (r : RunResult) (w : W)
      → (given : Option (List QueryLogData)) × (after : RunResult) × (run_mapped libc accurate_mode
            disable_sorting dispatch m r w
          ≡ ends_with given after w)
        × (has_entries given ≡ is_mapped m)
        × IsGiven given r after
  run_mapped_lem cannot_open r w = (none, r, refl, refl, refl)
  run_mapped_lem cannot_map r w = (none, r, refl, refl, refl)
  run_mapped_lem (mapped log) r w = log_reader_thread_lem log r w

  -- Whatever the file or stdin holds, the reading ends, and a run then ends exactly where its one
  -- call of the dispatcher does. The dispatcher is given as many entries as the result counts
  -- queries, and the result counts no more of these than entries. Where the file cannot be opened or
  -- mapped, nothing is dispatched and the result stays as it was. `err` is never set.
  pub run-IsGiven :
      (map_file : Bytes → FileMapping) (buffer : ℕ) (stdin : Bytes) (p : QueryLogPlugin)
      (r : RunResult) (w : W)
      → (given : Option (List QueryLogData)) × (after : RunResult) × (run libc accurate_mode
            disable_sorting dispatch map_file buffer stdin p r w
          ≡ ends_with given after w)
        × (has_entries given ≡ (p.std_in || is_mapped (map_file p.file_name)))
        × IsGiven given r after
  unfolding run
  run-IsGiven map_file buffer stdin p r w = elim (Bool-cases p.std_in) [
    | inl e ↦
        let read =
          read_stdin-all block_size (length stdin + 1) stdin [] (omega arith) (omega arith) in
        let (given, after, runs, has, v) =
          log_reader_thread_lem (record { at = buffer; text = stdin }) r w in
        (given, after, rw (e, read) runs, rw e has, v)
    | inr e ↦
        let (given, after, runs, has, v) = run_mapped_lem (map_file p.file_name) r w in
        (given, after, rw e runs, rw e has, v)
  ]
