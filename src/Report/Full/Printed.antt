-- ===== src/Report/Full/Printed.antt =====
-- `print_report` of FullReportPlugin in percona_playback/full_report/full_report.cc: the lines that
-- it prints, each with the word at its start and its three numbers.
use query_playback.Prelude.{◌<◌, ◌≡◌, refl, ap₂, List, [], ◌∷◌, length, map}
use query_playback.Text.{Bytes, codes}
use query_playback.Report.{word_mod, Execution}
use query_playback.Report.Full.{Tally, FullReport}
use query_playback.Report.Full.Categories.{
  Kind, select_kind, update_kind, insert_kind, delete_kind, replace_kind, drop_kind, tally_of,
  tallied, is_kind, is_quicker, is_slower, report_of, tally_of-report_of,
}

unfoldable pub print_report : FullReport → List (Bytes × Tally)
print_report r =
    (codes "SELECTs", r.selects)
    ∷ (codes "INSERTs", r.inserts)
    ∷ (codes "UPDATEs", r.updates)
    ∷ (codes "DELETEs", r.deletes)
    ∷ (codes "REPLACEs", r.replaces)
    ∷ (codes "DROPs", r.drops)
    ∷ []

abbrev pub label : Kind → Bytes
label select_kind = codes "SELECTs"
label update_kind = codes "UPDATEs"
label insert_kind = codes "INSERTs"
label delete_kind = codes "DELETEs"
label replace_kind = codes "REPLACEs"
label drop_kind = codes "DROPs"

abbrev pub kinds : List Kind
kinds = select_kind ∷ insert_kind ∷ update_kind ∷ delete_kind ∷ replace_kind ∷ drop_kind ∷ []

abbrev pub tally_in : List Execution → Kind → Tally
tally_in xs k = tallied (λ x. is_kind k x) (λ x. is_quicker x) (λ x. is_slower x) xs

-- The line of a kind, with numbers for every kind.
abbrev pub line_of : (Kind → Tally) → Kind → Bytes × Tally
line_of numbers k = (label k, numbers k)

lines_of :
    (xs : List Execution) (ks : List Kind)
    → length xs < word_mod
    → map (line_of (λ k. tally_of k (report_of xs))) ks ≡ map (line_of (tally_in xs)) ks
lines_of xs [] h = refl
lines_of xs (k ∷ ks) h =
    ap₂ (λ (t : Tally) (rest : List (Bytes × Tally)). (label k, t) ∷ rest)
      (tally_of-report_of k xs h) (lines_of xs ks h)

-- While fewer than 2^64 queries have been executed, the full report prints one line for each kind of
-- statement, with the number of the queries that hold its word, in any case of the letters, and no
-- word of an earlier kind, and the numbers of those that ran quicker and not quicker than the log
-- says.
pub print_report-kinds :
    (xs : List Execution)
    → length xs < word_mod
    → print_report (report_of xs) ≡ map (line_of (tally_in xs)) kinds
unfolding print_report
print_report-kinds xs h = lines_of xs kinds h
