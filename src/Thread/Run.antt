-- ===== src/Thread/Run.antt =====
-- What the loop of `run` does with its queue.
use query_playback.Prelude.{◌≡◌, true, false, List, [], ◌∷◌, ◌++◌, All}
use query_playback.Text.{Bytes}
use query_playback.Thread.{DbClient, QueryEntry, run_entry, ends, run}

module _ {E S : Type 0} (db : DbClient S) (init : Bytes) (q : QueryEntry E S) where
  -- The entries one after another.
  abbrev pub run_entries : List E → S → S
  run_entries [] s = s
  run_entries (e ∷ es) s = run_entries es (run_entry db init q e s)

  -- Where `last` is the first entry of the queue that shuts the thread down, the thread runs the
  -- entries up to it and that one too, disconnects and ends, and takes none of those behind it. No entry
  -- before, a quit entry neither, ends it.
  pub run-ends :
      (before after : List E) (last : E) (s : S)
      → All (λ e. q.is_shutdown e ≡ false) before
      → q.is_shutdown last ≡ true
      → run db init q (before ++ (last ∷ after)) s
        ≡ ends (db.disconnect (run_entries (before ++ (last ∷ [])) s)) after
  unfolding run
  run-ends [] after last s h e = rw e
  run-ends (e ∷ es) after last s h x =
      rw h.0 (run-ends es after last (run_entry db init q e s) h.1 x)
