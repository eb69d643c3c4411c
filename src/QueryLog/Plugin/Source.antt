-- ===== src/QueryLog/Plugin/Source.antt =====
-- Where the plugin reads from.
use query_playback.Prelude.{
  ℕ, zero, suc, ◌+◌, ◌<◌, ◌≤◌, ◌≡◌, refl, ap, ◌∙◌, Bool, true, false, not, ◌&&◌, ◌||◌, [], ◌∷◌,
  ◌++◌, some, length, take, drop, take-append-drop, append_assoc, ltb, if◌then◌else◌, Bool-cases,
  inl, inr, arith,
}
use query_playback.Prelude.Int.{pos, negsuc}
use query_playback.Text.{Bytes, codes}
use query_playback.CommandLine.{VariablesMap, is_given}
use query_playback.QueryLog.Plugin.{
  QueryLogPlugin, query_log_plugin, has_own_option, process_options, read_stdin,
}

-- The one of the file and stdin that is chosen, if exactly one is.
abbrev pub exactly_one : Bool → Bool → Bool
exactly_one file std_in = (file && not std_in) || (not file && std_in)

abbrev pub chosen_source : VariablesMap → QueryLogPlugin
chosen_source vm =
    if vm.flag (codes "query-log-stdin")
    then record query_log_plugin { std_in = true }
    else record query_log_plugin { file_name = vm.text (codes "query-log-file") }

-- The active plugin accepts a command line exactly where one of the file and stdin is chosen, and
-- then it reads from that; the plugin that is not active accepts it exactly where none of its options
-- is given. Where it refuses, it stays as it was.
pub process_options_lem :
    (vm : VariablesMap)
    → (process_options true vm query_log_plugin ≡ (
        if exactly_one (is_given vm (codes "query-log-file")) (vm.flag (codes "query-log-stdin"))
        then (pos 0, chosen_source vm)
        else (negsuc 0, query_log_plugin)))
      × (process_options false vm query_log_plugin
          ≡ (if has_own_option vm then negsuc 0 else pos 0, query_log_plugin))
unfolding process_options
process_options_lem vm =
    (active, elim (Bool-cases (has_own_option vm)) [ inl e ↦ rw e | inr e ↦ rw e ])
  where
    active : process_options true vm query_log_plugin ≡ (
        if exactly_one (is_given vm (codes "query-log-file")) (vm.flag (codes "query-log-stdin"))
        then (pos 0, chosen_source vm)
        else (negsuc 0, query_log_plugin))
    active = elim (Bool-cases (is_given vm (codes "query-log-file"))) [
      | inl e ↦ elim (Bool-cases (vm.flag (codes "query-log-stdin"))) [
        | inl f ↦ rw (e, f)
        | inr f ↦ rw (e, f)
      ]
      | inr e ↦ elim (Bool-cases (vm.flag (codes "query-log-stdin"))) [
        | inl f ↦ rw (e, f)
        | inr f ↦ rw (e, f)
      ]
    ]

take-short : (n : ℕ) (xs : Bytes) → length (take n xs) < n → take n xs ≡ xs
take-short zero xs h = absurd (omega arith)
take-short (suc n) [] h = refl
take-short (suc n) (x ∷ xs) h = ap (λ (ys : Bytes). x ∷ ys) (take-short n xs (omega arith))

length-drop_full :
    (n : ℕ) (xs : Bytes) → n ≤ length (take n xs) → length (drop n xs) + n ≡ length xs
length-drop_full zero xs h = omega arith
length-drop_full (suc n) [] h = absurd (omega arith)
length-drop_full (suc n) (x ∷ xs) h = omega (arith, length-drop_full n xs (omega arith))

-- The loop over the blocks of stdin ends, with all the bytes of stdin.
pub read_stdin-all :
    (block_size fuel : ℕ) (rest text : Bytes)
    → 0 < block_size
    → length rest < fuel
    → read_stdin block_size fuel rest text ≡ some (text ++ rest)
unfolding read_stdin
read_stdin-all n zero rest text pos_size h = absurd (omega arith)
read_stdin-all n (suc fuel) rest text pos_size h =
    elim (Bool-cases (ltb (length (take n rest)) n)) [
      | inl short ↦
          let whole : take n rest ≡ rest = take-short n rest (ground arith) in
          rw (short, whole) refl
      | inr full ↦
          let fewer = length-drop_full n rest (ground arith) in
          rw
            (full, read_stdin-all n fuel (drop n rest) (text ++ take n rest) pos_size (omega arith))
            (ap some (
              append_assoc text (take n rest) (drop n rest)
              ∙ ap (λ (ys : Bytes). text ++ ys) (take-append-drop n rest)))
    ]
