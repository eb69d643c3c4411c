-- ===== src/Dispatch/Pool/Queues.antt =====
-- What each worker of the pool is given, and that it ends.
use query_playback.Prelude.{
  ℕ, zero, suc, ◌<◌, ◌≡◌, refl, ap, ◌∙◌, sym, false, List, [], ◌∷◌, ◌++◌, some, map, length, select,
  All, ◌==◌, if◌then◌else◌, Bool-cases, inl, inr, arith, append_assoc, append-nil,
}
use query_playback.Text.{Bytes}
use query_playback.Thread.{OrFinish, entry, finish, DbClient, QueryEntry, with_finish, run, ends}
use query_playback.Thread.Run.{run_entries, run-ends}
use query_playback.Dispatch.Pool.{Workers, run_pool, push_to, finish_all, worker_index, dispatch}

-- The queue of worker `i`.
abbrev pub queue_at : {E : Type 0} → ℕ → Workers E → List (OrFinish E)
queue_at i [] = []
queue_at zero (w ∷ ws) = w
queue_at (suc i) (w ∷ ws) = queue_at i ws

length-run_pool : (E : Type 0) (n : ℕ) → length (run_pool {E = E} n) ≡ n
unfolding run_pool
length-run_pool E zero = refl
length-run_pool E (suc n) = ap suc (length-run_pool E n)

module _ {E : Type 0} where
  length-push_to : (i : ℕ) (e : OrFinish E) (ws : Workers E) → length (push_to i e ws) ≡ length ws
  length-push_to i e [] = refl
  length-push_to zero e (w ∷ ws) = refl
  length-push_to (suc i) e (w ∷ ws) = ap suc (length-push_to i e ws)

  queue_at-push_to :
      (i j : ℕ) (e : OrFinish E) (ws : Workers E)
      → i < length ws
      → queue_at j (push_to i e ws) ≡ (if i == j then queue_at j ws ++ e ∷ [] else queue_at j ws)
  queue_at-push_to i j e [] h = elim h [ ]
  queue_at-push_to zero zero e (w ∷ ws) h = refl
  queue_at-push_to zero (suc j) e (w ∷ ws) h = ground arith
  queue_at-push_to (suc i) zero e (w ∷ ws) h = ground arith
  queue_at-push_to (suc i) (suc j) e (w ∷ ws) h = ground (arith, queue_at-push_to i j e ws)

  queue_at-run_pool : (n j : ℕ) → queue_at j (run_pool {E = E} n) ≡ []
  unfolding run_pool
  queue_at-run_pool zero j = refl
  queue_at-run_pool (suc n) zero = refl
  queue_at-run_pool (suc n) (suc j) = queue_at-run_pool n j

  queue_at-finish_all :
      (ws : Workers E) (j : ℕ)
      → j < length ws
      → queue_at j (finish_all ws) ≡ queue_at j ws ++ finish ∷ []
  unfolding finish_all
  queue_at-finish_all [] j h = elim h [ ]
  queue_at-finish_all (w ∷ ws) zero h = refl
  queue_at-finish_all (w ∷ ws) (suc j) h = queue_at-finish_all ws j (omega arith)

module _ {E : Type 0} (crc : ℕ → ℕ) (thread_id : E → ℕ) where
  -- The entries whose thread id falls to worker `j` of `count`.
  abbrev pub share : ℕ → ℕ → List E → List E
  share count j es = select (λ e. worker_index crc thread_id count e == j) es

  dispatch-queues :
      (es : List E) (ws : Workers E)
      → 0 < length ws
      → (ws' : Workers E) × (dispatch crc thread_id es ws ≡ some ws')
        × (length ws' ≡ length ws)
        × ((j : ℕ) → queue_at j ws' ≡ queue_at j ws ++ map entry (share (length ws) j es))
  unfolding dispatch
  dispatch-queues [] ws h = (ws, refl, refl, λ j. sym (append-nil (queue_at j ws)))
  dispatch-queues (e ∷ es) ws h =
      let i = worker_index crc thread_id (length ws) e in
      let next = push_to i (entry e) ws in
      let size = length-push_to i (entry e) ws in
      let some_worker : (length ws == 0) ≡ false = ground arith in
      let (ws', runs, count, queues) = dispatch-queues es next (omega arith) in
      let below : i < length ws = grind arith in
      (
        ws',
        rw (some_worker, runs),
        count ∙ size,
        λ j.
            queues j
            ∙ rw (size, queue_at-push_to i j (entry e) ws below)
                (elim (Bool-cases (i == j)) [ inl m ↦ rw (m, append_assoc) | inr m ↦ rw m ]),
      )

  module _ {S : Type 0} (db : DbClient S) (init : Bytes) (q : QueryEntry E S) where
    no_shutdown :
        (es : List E)
        → All (λ e. q.is_shutdown e ≡ false) es
        → All (λ e. (with_finish q).is_shutdown e ≡ false) (map entry es)
    no_shutdown [] h = tt
    no_shutdown (e ∷ es) h = (h.0, no_shutdown es h.1)

    All-share :
        (count j : ℕ) (es : List E)
        → All (λ e. q.is_shutdown e ≡ false) es
        → All (λ e. q.is_shutdown e ≡ false) (share count j es)
    All-share count j [] h = tt
    All-share count j (e ∷ es) h = elim (Bool-cases (worker_index crc thread_id count e == j)) [
      | inl m ↦ rw m (h.0, All-share count j es h.1)
      | inr m ↦ rw m (All-share count j es h.1)
    ]

    -- With entries that do not shut down and any number of workers but 0, the entries are all
    -- dispatched, and each of the workers runs exactly those whose thread ids fall to it, in their
    -- order, disconnects and ends, with nothing left in its queue.
    pub pool_runs :
        (count : ℕ) (es : List E)
        → All (λ e. q.is_shutdown e ≡ false) es
        → 0 < count
        → (ws : Workers E) × (dispatch crc thread_id es (run_pool count) ≡ some ws)
          × ((j : ℕ) (s : S)
              → j < count
              → run db init (with_finish q) (queue_at j (finish_all ws)) s
                ≡ ends
                    (db.disconnect (
                      run_entries db init
                        (with_finish q)
                        (map entry (share count j es) ++ finish ∷ [])
                        s))
                    [])
    pool_runs count es n some_worker =
        let size = length-run_pool E count in
        let (ws, runs, len, queues) = dispatch-queues es (run_pool count) (rw size some_worker) in
        (
          ws,
          runs,
          λ j s below.
              let mine : queue_at j ws ≡ map entry (share count j es) =
                queues j ∙ rw (queue_at-run_pool {E = E} count j, size) in
              rw (queue_at-finish_all ws j (omega arith), mine)
                (run-ends db init (with_finish q) (map entry (share count j es)) [] finish s
                  (no_shutdown _ (All-share count j es n)) refl),
        )
