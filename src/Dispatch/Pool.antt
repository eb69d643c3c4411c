-- ===== src/Dispatch/Pool.antt =====
-- ThreadPoolDispatcher of percona_playback/thread_pool: a fixed number of threads, each with a queue
-- of its own. boost::crc_32_type over the eight bytes of a thread id is the parameter `crc`. The
-- model is of the entries that each queue is given, in their order; how full the queues are at a time is not part of it.
pub mod Queues
pub mod Options
use query_playback.Prelude.{
  ℕ, zero, suc, ◌+◌, ◌%◌, Bool, List, [], ◌∷◌, ◌++◌, Option, none, some, map, length, ◌==◌,
  if◌then◌else◌,
}
use query_playback.Thread.{OrFinish, entry, finish}

-- A worker is what has been pushed to its queue.
abbrev pub Workers : Type 0 → Type 0
Workers E = List (List (OrFinish E))

module _ {E : Type 0} where
  -- `run`: the workers are created with empty queues.
  unfoldable pub run_pool : ℕ → Workers E
  run_pool zero = []
  run_pool (suc n) = [] ∷ run_pool n

  abbrev pub push_to : ℕ → OrFinish E → Workers E → Workers E
  push_to i e [] = []
  push_to zero e (w ∷ ws) = (w ++ e ∷ []) ∷ ws
  push_to (suc i) e (w ∷ ws) = w ∷ push_to i e ws

  -- `finish_all_and_wait`: one shutdown command for each worker.
  unfoldable pub finish_all : Workers E → Workers E
  finish_all ws = map (λ w. w ++ finish ∷ []) ws

module _ {E : Type 0} (crc : ℕ → ℕ) (thread_id : E → ℕ) where
  abbrev pub worker_index : ℕ → E → ℕ
  worker_index count e = crc (thread_id e) % count

  -- `dispatch` on the entries that `popEntry` hands out. With no workers the remainder by zero is
  -- undefined: `none`.
  unfoldable pub dispatch : List E → Workers E → Option (Workers E)
  dispatch [] ws = some ws
  dispatch (e ∷ es) ws =
      let rest = dispatch es (push_to (worker_index (length ws) e) (entry e) ws) in
      if length ws == 0 then none else rest
