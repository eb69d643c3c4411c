-- ===== src/Dispatch/PerConnection/Threads.antt =====
-- The thread of a connection, given the entries of its connection.
use query_playback.Prelude.{ℕ, ◌≡◌, ◌≢◌, refl, List, [], ◌∷◌}
use query_playback.Text.{Bytes}
use query_playback.Thread.{DbClient, QueryEntry, run_entry, ends, run}
use query_playback.Thread.Run.{run_entries}
use query_playback.Dispatch.PerConnection.Steps.{ShutsLast, of_conn}
use query_playback.Dispatch.PerConnection.Marking.{MarksLast, MarksLast-ShutsLast}

module _ {E S : Type 0} (db : DbClient S) (init : Bytes) (q : QueryEntry E S) where
  run-ShutsLast :
      (es : List E) (s : S)
      → es ≢ []
      → ShutsLast q.is_shutdown es
      → run db init q es s ≡ ends (db.disconnect (run_entries db init q es s)) []
  unfolding run
  run-ShutsLast [] s n h = absurd (n refl)
  run-ShutsLast (e ∷ []) s n h = rw h
  run-ShutsLast (e ∷ f ∷ es) s n h =
      rw h.0 (run-ShutsLast (f ∷ es) (run_entry db init q e s) (cc) h.1)

  -- Take entries of which exactly the last one of each connection shuts it down. The thread of a
  -- connection that has any runs them all, one after another, disconnects and ends, and leaves none.
  pub run-MarksLast :
      (es : List E) (id : ℕ) (s : S)
      → MarksLast q.thread_id q.is_shutdown es
      → of_conn q.thread_id id es ≢ []
      → run db init q (of_conn q.thread_id id es) s
        ≡ ends (db.disconnect (run_entries db init q (of_conn q.thread_id id es) s)) []
  run-MarksLast es id s h n =
      run-ShutsLast (of_conn q.thread_id id es) s n
        (MarksLast-ShutsLast q.thread_id q.is_shutdown es h id)
