-- ===== src/Tests/Threads.antt =====
-- The threads and the dispatchers on a few entries.
use query_playback.Prelude.{
  ◌*◌, ◌+◌, ℕ, ◌≤◌, ◌≡◌, ◌≢◌, refl, Bool, true, false, List, [], ◌∷◌, length, ◌==◌, Bool-cases, inl,
  inr, arith,
}
use query_playback.Result.{query_result}
use query_playback.Thread.{DbClient, QueryEntry, ends, run}
use query_playback.Thread.Run.{run_entries}
use query_playback.Table.{find, set}
use query_playback.Dispatch.PerConnection.{System, create, push, work}
use query_playback.Dispatch.PerConnection.Steps.{
  creates, pushes, works, Reach, here, next, of_conn, ShutsLast,
}
use query_playback.Dispatch.PerConnection.Invariant.{started}
use query_playback.Dispatch.PerConnection.Outcome.{IsDone}
use query_playback.Dispatch.PerConnection.Count.{num_running_bounds}
use query_playback.Dispatch.PerConnection.Refinement.{
  Connections, Served, Refines, connections, Reach-Refines,
}
use query_playback.Dispatch.PerConnection.Threads.{run-MarksLast}
use query_playback.Dispatch.PerConnection.Sizes.{steps, Completes}
use query_playback.Dispatch.PerConnection.Ends.{Reach-Completes}
use query_playback.Dispatch.PerConnection.Progress.{Progress, Reach-Progress}

-- A connection that keeps the numbers of the entries it has run.
abbrev keeping : DbClient (List ℕ)
keeping = record {
  connect = λ s. (true, s);
  disconnect = λ s. s;
  execute_query = λ q r s. (query_result, s);
}

-- An entry is its thread id and whether it shuts down.
abbrev Item : Type 0
Item = ℕ × Bool

abbrev item_id : Item → ℕ
item_id e = e.0

abbrev item_shuts : Item → Bool
item_shuts e = e.1

abbrev items : QueryEntry Item (List ℕ)
items = record {
  is_quit = λ e. false;
  is_shutdown = item_shuts;
  thread_id = item_id;
  execute = λ db e s. e.0 ∷ s;
}

abbrev pool_items : List Item
pool_items = (1, false) ∷ (2, false) ∷ (3, false) ∷ []

abbrev two_items : List Item
two_items = (7, false) ∷ (7, true) ∷ []

two_items-ShutsLast : (id : ℕ) → ShutsLast item_shuts (of_conn item_id id two_items)
two_items-ShutsLast id = elim (Bool-cases (7 == id)) [ inl e ↦ rw e (refl, refl) | inr e ↦ rw e tt ]

-- One thread is started, is given both entries, and runs them.
abbrev with_thread : System Item
with_thread = record {
  pending = two_items;
  executors = (7, record { queries = []; running = true }) ∷ [];
  num_running = 1;
  executed = [];
}

abbrev given_one : System Item
given_one = record {
  pending = (7, true) ∷ [];
  executors = (7, record { queries = (7, false) ∷ []; running = true }) ∷ [];
  num_running = 1;
  executed = [];
}

abbrev ran_one : System Item
ran_one = record {
  pending = (7, true) ∷ [];
  executors = (7, record { queries = []; running = true }) ∷ [];
  num_running = 1;
  executed = (7, false) ∷ [];
}

abbrev given_two : System Item
given_two = record {
  pending = [];
  executors = (7, record { queries = (7, true) ∷ []; running = true }) ∷ [];
  num_running = 1;
  executed = (7, false) ∷ [];
}

abbrev ran_two : System Item
ran_two = record {
  pending = [];
  executors = (7, record { queries = []; running = false }) ∷ [];
  num_running = 1;
  executed = (7, false) ∷ (7, true) ∷ [];
}

ran_one-Reach : Reach item_id item_shuts 1 (started two_items) ran_one
unfolding find set create push work
ran_one-Reach =
    next
      (next (next here (creates (7, false) ((7, true) ∷ []) refl refl refl)) (
        pushes (7, false) ((7, true) ∷ []) (record { queries = []; running = true }) refl refl
          (omega arith)))
      (works 7 (7, false) [] (record { queries = (7, false) ∷ []; running = true }) refl refl refl)

ran_two-Reach : Reach item_id item_shuts 1 (started two_items) ran_two
unfolding find set create push work
ran_two-Reach =
    next
      (next ran_one-Reach
        (pushes (7, true) [] (record { queries = []; running = true }) refl refl (omega arith)))
      (works 7 (7, true) [] (record { queries = (7, true) ∷ []; running = true }) refl refl refl)

ran_two-IsDone : IsDone ran_two
unfolding find
ran_two-IsDone =
    (refl, λ id t f. elim (Bool-cases (7 == id)) [ inl e ↦ ground arith | inr e ↦ ground arith ])

num_running_bounds_example :
    (ran_two.num_running ≡ length ran_two.executors) × (ran_two.num_running ≤ 10001)
num_running_bounds_example = num_running_bounds item_id item_shuts 1 two_items ran_two-Reach

Reach-Progress_example : Progress item_id item_shuts 1 ran_one
Reach-Progress_example =
    Reach-Progress item_id item_shuts 1 two_items (omega arith) two_items-ShutsLast ran_one-Reach

abbrev two_ids : List ℕ
two_ids = 7 ∷ []

Reach-Completes_example :
    (steps item_id item_shuts 1 ran_one-Reach ≤ 2 * length two_items + length two_ids)
    × Completes item_id item_shuts 1 ran_one
Reach-Completes_example =
    Reach-Completes item_id item_shuts 1 two_items two_ids (omega arith) (omega arith)
      (omega arith, (omega arith, tt)) two_items-ShutsLast ran_one-Reach

two_items-ne-nil : of_conn item_id 7 two_items ≢ []
two_items-ne-nil = cc

Reach-Refines_example :
    (c : Connections Item) × Served (connections item_id item_shuts 1 two_items) c
    × Refines item_id item_shuts 1 two_items ran_one c
Reach-Refines_example =
    Reach-Refines item_id item_shuts 1 two_items two_items-ShutsLast ran_one-Reach

run-MarksLast_example :
    run keeping [] items (of_conn item_id 7 two_items) []
    ≡ ends (run_entries keeping [] items (of_conn item_id 7 two_items) []) []
run-MarksLast_example =
    run-MarksLast keeping [] items two_items 7 [] (refl, (refl, tt)) two_items-ne-nil
