-- ===== src/Tests/FullReports.antt =====
-- The full report on a few executed queries.
use query_playback.Prelude.{◌≡◌, map, arith}
use query_playback.Report.Full.Categories.{report_of}
use query_playback.Report.Full.Printed.{print_report, line_of, kinds, tally_in, print_report-kinds}
use query_playback.Tests.Reports.{executions}

print_report-kinds_example :
    print_report (report_of executions) ≡ map (line_of (tally_in executions)) kinds
print_report-kinds_example = print_report-kinds executions (omega arith)
