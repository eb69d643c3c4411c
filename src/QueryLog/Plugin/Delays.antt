-- ===== src/QueryLog/Plugin/Delays.antt =====
-- QueryLogReportPlugin of percona_playback/query_log/query_log.cc: what its `print_report` prints of
-- a run.
use query_playback.Prelude.{
  ℕ, ◌+◌, ◌/◌, ◌≡◌, ◌⊎◌, inl, inr, refl, ap, subst, Bool, true, List, Option, none, some, All,
  if◌then◌else◌, arith,
}
use query_playback.Prelude.Int.{pos_part, ℤ, pos, negsuc, ◌-ℤ◌, ◌≤ℤ◌}
use query_playback.Text.{Bytes}
use query_playback.Thread.{DbClient}
use query_playback.QueryLog.Data.{Libc}
use query_playback.QueryLog.Entries.{QueryLogEntry}
use query_playback.QueryLog.Execute.{Options, Clock, Pace, ReportPlugin}
use query_playback.QueryLog.Replay.{World, play}
use query_playback.QueryLog.Replay.Planned.{Planned, accurate, IsAttained, IsGreatest}
use query_playback.QueryLog.Replay.Paced.{plans, play-IsPaced}

-- `duration_cast` from nanoseconds, which rounds towards 0.
abbrev pub to_milliseconds : ℤ → ℤ
to_milliseconds (pos n) = pos (n / 1000000)
to_milliseconds (negsuc n) = pos 0 -ℤ pos ((n + 1) / 1000000)

-- The number in the line of the delay, which is printed in the accurate mode only.
unfoldable pub print_report : Bool → Pace → Option ℤ
unfolding ◌-ℤ◌
print_report g_accurate_mode p =
    if g_accurate_mode then some (to_milliseconds p.max_behind_ns) else none

printed_of :
    (m : ℤ) (ps : List Planned)
    → IsGreatest (pos 0) m ps
    → (k : ℕ) × (some (to_milliseconds m) ≡ some (pos (k / 1000000)))
      × All (λ p. p.behind ≤ℤ pos k) ps
      × ((k ≡ 0) ⊎ IsAttained (pos k) ps)
printed_of (pos k) ps v = (
  k,
  refl,
  v.bounds,
  elim v.attained [ inl same ↦ inl (ap pos_part same) | inr some_of_them ↦ inr some_of_them ],
)
printed_of (negsuc k) ps v = absurd (omega (arith, v.never_falls))

-- In the accurate mode, whatever entries of a slow query log the threads run, in whatever order, and
-- whatever the clocks say: the report prints a time in milliseconds, rounded down. No query of the run
-- has been behind its planned time by more than this time, and one has been behind by it, unless it
-- is 0.
pub print_report-plans :
    {S R : Type 0} (libc : Libc) (options : Options) (plugins : List (ReportPlugin R))
    (clocks : ℕ → Clock) (db : DbClient S) (init : Bytes) (es : List QueryLogEntry) (w : World S R)
    → w.paced.max_behind_ns ≡ pos 0
    → (k : ℕ) × (print_report true (play libc (accurate options) plugins clocks db init es w).paced
        ≡ some (pos (k / 1000000)))
      × All (λ p. p.behind ≤ℤ pos k) (plans libc options plugins clocks db init es w)
      × ((k ≡ 0) ⊎ IsAttained (pos k) (plans libc options plugins clocks db init es w))
unfolding print_report
print_report-plans libc options plugins clocks db init es w fresh =
    let v = (play-IsPaced libc options plugins clocks db init es w).1 in
    printed_of (play libc (accurate options) plugins clocks db init es w).paced.max_behind_ns
      (plans libc options plugins clocks db init es w)
      (subst
        (λ (m : ℤ).
          IsGreatest m
            (play libc (accurate options) plugins clocks db init es w).paced.max_behind_ns
            (plans libc options plugins clocks db init es w))
        fresh v)
