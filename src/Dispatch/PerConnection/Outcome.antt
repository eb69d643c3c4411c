-- ===== src/Dispatch/PerConnection/Outcome.antt =====
-- What every interleaving of the dispatcher and its threads achieves.
use query_playback.Prelude.{
  ℕ, ◌≡◌, ap, ◌∙◌, sym, Bool, false, List, [], ◌++◌, some, inl, inr, Option-cases, append-nil,
}
use query_playback.Table.{find}
use query_playback.Dispatch.PerConnection.{DbThread, System}
use query_playback.Dispatch.PerConnection.Steps.{Reach, of_conn, to_run, ShutsLast}
use query_playback.Dispatch.PerConnection.Invariant.{Reach-Inv, started-Inv, started}
use query_playback.Dispatch.PerConnection.Kept.{ConnInv, runs_at}
use query_playback.Dispatch.PerConnection.Effects.{joined-nil}

-- Nothing is left to hand out, and every thread that is still in the table has ended.
abbrev pub IsDone : {E : Type 0} → System E → Type 0
IsDone {E} s =
    (s.pending ≡ [])
    × ((id : ℕ) (t : DbThread E) → find id s.executors ≡ some t → t.running ≡ false)

module _ {E : Type 0} (thread_id : E → ℕ) (is_shutdown : E → Bool) (depth : ℕ) (all : List E) where
  done-nil :
      (id : ℕ) (s : System E)
      → IsDone s
      → ConnInv thread_id is_shutdown depth all id s
      → to_run thread_id id s ≡ []
  done-nil id s d v = elim (Option-cases (find id s.executors)) [
    | inl n ↦ rw (n, d.0)
    | inr (t, f) ↦ joined-nil t _ (d.1 id t f) (runs_at thread_id is_shutdown depth all id s t f v)
  ]

  -- Take entries of which, for each connection, the last one and no other shuts it down. However the
  -- dispatcher and its threads are interleaved, at any time the queries of a connection that have
  -- been executed are the first of its queries, in their order.
  pub executed-begins :
      ((id : ℕ) → ShutsLast is_shutdown (of_conn thread_id id all))
      → {s : System E} → Reach thread_id is_shutdown depth (started all) s
      → (id : ℕ)
      → (left : List E) × (of_conn thread_id id s.executed ++ left ≡ of_conn thread_id id all)
  executed-begins h {s} r id =
      let v =
        (Reach-Inv thread_id is_shutdown depth all (started-Inv thread_id is_shutdown depth all h)
            r).conn
          id in
      (to_run thread_id id s, v.conserved)

  -- Take entries of which, for each connection, the last one and no other shuts it down. However the
  -- dispatcher and its threads are interleaved, when all is handed out and every thread has ended,
  -- exactly the queries of a connection have been executed for it, in their order.
  pub executed-of_conn :
      ((id : ℕ) → ShutsLast is_shutdown (of_conn thread_id id all))
      → {s : System E} → Reach thread_id is_shutdown depth (started all) s
      → IsDone s
      → (id : ℕ) → of_conn thread_id id s.executed ≡ of_conn thread_id id all
  executed-of_conn h {s} r d id =
      let v =
        (Reach-Inv thread_id is_shutdown depth all (started-Inv thread_id is_shutdown depth all h)
            r).conn
          id in
      sym (append-nil (of_conn thread_id id s.executed))
      ∙ ap (◌++◌ (of_conn thread_id id s.executed)) (sym (done-nil id s d v))
      ∙ v.conserved
