-- ===== src/QueryLog/Execute/Pacing.antt =====
-- When queries are run.
use query_playback.Prelude.{
  ◌≡◌, true, Option, none, some, if◌then◌else◌, Bool-cases, inl, inr, arith,
}
use query_playback.Prelude.Int.{
  ℤ, pos, ◌+ℤ◌, ◌-ℤ◌, ◌≤ℤ◌, ltb_ℤ, +ℤ_parts, -ℤ_parts, eq_of_parts, ltb_ℤ→le, ltb_ℤ-false→le,
}
use query_playback.QueryLog.Data.{QueryLogData}
use query_playback.QueryLog.Execute.{Clock, Pace, offset_or, pace, sleep_after}

-- When the query is to run in the accurate mode: the time when the pause is computed, and the pause.
abbrev pub run_time : Clock → QueryLogData → Pace → ℤ
run_time clock q p = clock.now +ℤ (pace clock q p).0

plus_minus : (a b : ℤ) → b +ℤ (a -ℤ b) ≡ a
plus_minus a b =
    let m = -ℤ_parts a b in
    let n = +ℤ_parts b (a -ℤ b) in eq_of_parts (b +ℤ (a -ℤ b)) a (omega arith)

same_gap : (a b o : ℤ) → (a +ℤ o) -ℤ (b +ℤ o) ≡ a -ℤ b
same_gap a b o =
    let x = +ℤ_parts a o in
    let y = +ℤ_parts b o in
    let z = -ℤ_parts (a +ℤ o) (b +ℤ o) in
    let w = -ℤ_parts a b in eq_of_parts ((a +ℤ o) -ℤ (b +ℤ o)) (a -ℤ b) (omega arith)

pub run_time_is :
    (clock : Clock) (q : QueryLogData) (p : Pace)
    → run_time clock q p
      ≡ q.start_time +ℤ offset_or (clock.first_now -ℤ q.start_time) p.first_query_exec_offset
unfolding pace
run_time_is clock q p = plus_minus _ clock.now

-- In the accurate mode, a query and any later one, with no other between them, are planned at the
-- distance of their start times, whatever the clocks say: the planned time is the time when the pause
-- is computed plus the pause that is asked for, which is negative where the query is late.
pub run_time_gap :
    (clock clock' : Clock) (q q' : QueryLogData) (p : Pace)
    → run_time clock' q' (pace clock q p).1 -ℤ run_time clock q p ≡ q'.start_time -ℤ q.start_time
run_time_gap clock clock' q q' p =
    let o = offset_or (clock.first_now -ℤ q.start_time) p.first_query_exec_offset in
    let first = run_time_is clock q p in
    let second : run_time clock' q' (pace clock q p).1 ≡ q'.start_time +ℤ o =
      unfold pace in run_time_is clock' q' (pace clock q p).1 in
    rw (second, first) (same_gap q'.start_time q.start_time o)

-- `g_max_behind_ns` never falls, and it is at least how far the query is behind.
pub max_behind_ns_bounds :
    (clock : Clock) (q : QueryLogData) (p : Pace)
    → (p.max_behind_ns ≤ℤ (pace clock q p).1.max_behind_ns)
      × (pos 0 -ℤ (pace clock q p).0 ≤ℤ (pace clock q p).1.max_behind_ns)
unfolding pace
max_behind_ns_bounds clock q p =
    let behind = pos 0 -ℤ (pace clock q p).0 in
    elim (Bool-cases (ltb_ℤ p.max_behind_ns behind)) [
      | inl e ↦ rw e (ltb_ℤ→le p.max_behind_ns behind e, omega arith)
      | inr e ↦ rw e (omega arith, ltb_ℤ-false→le p.max_behind_ns behind e)
    ]

abbrev pub or_none : Option ℤ → ℤ
or_none none = pos 0
or_none (some us) = us

-- With the option to preserve the query times, a query and the pause behind it take at least the time
-- that the log gives for the query; and exactly that where the query takes less.
pub sleep_after_bounds :
    (expected took : ℤ)
    → took +ℤ or_none (sleep_after true expected took)
      ≡ (if ltb_ℤ took expected then expected else took)
unfolding sleep_after
sleep_after_bounds expected took = elim (Bool-cases (ltb_ℤ took expected)) [
  | inl e ↦ rw e (plus_minus expected took)
  | inr e ↦ rw e (plus_zero took)
]
  where
    plus_zero : (a : ℤ) → a +ℤ pos 0 ≡ a
    plus_zero a = let x = +ℤ_parts a (pos 0) in eq_of_parts (a +ℤ pos 0) a (omega arith)
