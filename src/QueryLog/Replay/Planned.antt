-- ===== src/QueryLog/Replay/Planned.antt =====
-- When a query is planned in the accurate mode, and the greatest of the delays.
use query_playback.Prelude.{
  ◌≡◌, ◌⊎◌, inl, inr, refl, ◌∙◌, sym, true, List, [], ◌∷◌, All, Bool-cases, arith,
}
use query_playback.Prelude.Int.{ℤ, pos, ◌+ℤ◌, ◌-ℤ◌, ◌≤ℤ◌, ltb_ℤ}
use query_playback.QueryLog.Data.{QueryLogData}
use query_playback.QueryLog.Execute.{Options, Clock, Pace, pace}
use query_playback.QueryLog.Execute.Pacing.{run_time}

-- A query as it is run: its start time in the log, when it is planned, and how far it is behind.
pub record Planned : Type 0 where
  pub start_time : ℤ
  pub planned : ℤ
  pub behind : ℤ

abbrev pub planned_of : Clock → QueryLogData → Pace → Planned
planned_of clock q p = record {
  start_time = q.start_time;
  planned = run_time clock q p;
  behind = pos 0 -ℤ (pace clock q p).0;
}

-- One of the delays.
abbrev pub IsAttained : ℤ → List Planned → Type 0
IsAttained m [] = ⊥
IsAttained m (p ∷ ps) = (p.behind ≡ m) ⊎ IsAttained m ps

-- `g_max_behind_ns` against the delays of the queries that have been run.
pub record IsGreatest (before after : ℤ) (ps : List Planned) : Type 0 where
  pub bounds : All (λ p. p.behind ≤ℤ after) ps
  pub never_falls : before ≤ℤ after
  pub attained : (after ≡ before) ⊎ IsAttained after ps

pub pace-max :
    (clock : Clock) (q : QueryLogData) (p : Pace)
    → ((pace clock q p).1.max_behind_ns ≡ p.max_behind_ns)
      ⊎ ((pace clock q p).1.max_behind_ns ≡ pos 0 -ℤ (pace clock q p).0)
unfolding pace
pace-max clock q p = elim (Bool-cases (ltb_ℤ p.max_behind_ns (pos 0 -ℤ (pace clock q p).0))) [
  | inl e ↦ rw e (inr refl)
  | inr e ↦ rw e (inl refl)
]

pub IsGreatest-cons :
    {before mid after : ℤ} (p : Planned) (ps : List Planned)
    → (mid ≡ before) ⊎ (mid ≡ p.behind)
    → before ≤ℤ mid
    → p.behind ≤ℤ mid
    → IsGreatest mid after ps
    → IsGreatest before after (p ∷ ps)
IsGreatest-cons {before} {mid} {after} p ps from grows bounded v = record {
  bounds = (omega (arith, bounded, v.never_falls), v.bounds);
  never_falls = omega (arith, grows, v.never_falls);
  attained = elim v.attained [
    | inr later ↦ inr (inr later)
    | inl same ↦ elim from [ inl kept ↦ inl (same ∙ kept) | inr now ↦ inr (inl (sym (same ∙ now))) ]
  ];
}

abbrev pub IsAt : ℤ → Planned → Type 0
IsAt o p = p.planned ≡ p.start_time +ℤ o

abbrev pub accurate : Options → Options
accurate options = record options { accurate_mode = true }
