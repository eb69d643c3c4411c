-- ===== src/Dispatch/PerConnection/Count.antt =====
-- The count of the threads.
use query_playback.Prelude.{
  ℕ, ◌+◌, ◌≤◌, ◌≡◌, refl, Bool, not, List, [], ◌∷◌, ◌++◌, none, some, inl, inr, length, Bool-cases,
  arith,
}
use query_playback.Table.{find, set, retain}
use query_playback.Dispatch.PerConnection.{
  DbThread, System, create, push, is_joined, is_left, count_joined, finish_some_and_go, work,
}
use query_playback.Dispatch.PerConnection.Steps.{
  Step, creates, cleans, pushes, works, Reach, here, next,
}
use query_playback.Dispatch.PerConnection.Invariant.{started}

module _ {E : Type 0} where
  count_retain :
      (joins : ℕ → Bool) (ex : List (ℕ × DbThread E))
      → length (retain (is_left joins) ex) + count_joined joins ex ≡ length ex
  count_retain joins [] = omega arith
  count_retain joins (it ∷ ex) = elim (Bool-cases (is_joined joins it)) [
    | inl e ↦ rw e (omega (arith, count_retain joins ex))
    | inr e ↦ rw e (omega (arith, count_retain joins ex))
  ]

  pub length-set_new :
      (k : ℕ) (v : DbThread E) (ex : List (ℕ × DbThread E))
      → find k ex ≡ none
      → length (set k v ex) ≡ length ex + 1
  unfolding find set
  length-set_new k v [] n = omega arith
  length-set_new k v ((j, w) ∷ ex) n = ground (arith, length-set_new k v ex)

  pub length-set_old :
      (k : ℕ) (v t : DbThread E) (ex : List (ℕ × DbThread E))
      → find k ex ≡ some t
      → length (set k v ex) ≡ length ex
  unfolding find set
  length-set_old k v t [] n = cc
  length-set_old k v t ((j, w) ∷ ex) n = ground (arith, length-set_old k v t ex)

module _ {E : Type 0} (thread_id : E → ℕ) (is_shutdown : E → Bool) (depth : ℕ) where
  abbrev Counted : System E → Type 0
  Counted s = (s.num_running ≡ length s.executors) × (s.num_running ≤ 10001)

  Step-Counted : {s t : System E} → Step thread_id is_shutdown depth s t → Counted s → Counted t
  Step-Counted {s} (creates e rest p n few) c =
      unfold create in (omega (arith, length-set_new (thread_id e) _ s.executors n), ground arith)
  Step-Counted {s} (cleans e rest joins p n many) c =
      unfold finish_some_and_go in omega (arith, count_retain joins s.executors)
  Step-Counted {s} (pushes e rest t p f room) c =
      unfold push in
      omega (
        arith,
        length-set_old (thread_id e) (record t { queries = t.queries ++ e ∷ [] }) t s.executors f,
      )
  Step-Counted {s} (works k e rest t f r q) c =
      unfold work in
      omega (
        arith,
        length-set_old k (record { queries = rest; running = not (is_shutdown e) }) t s.executors f,
      )

  -- In every state that the program can reach, `num_running` is the number of threads in the table,
  -- and that is at most 10001.
  pub num_running_bounds :
      (all : List E) {s : System E}
      → Reach thread_id is_shutdown depth (started all) s
      → (s.num_running ≡ length s.executors) × (s.num_running ≤ 10001)
  num_running_bounds all here = (refl, omega arith)
  num_running_bounds all (next r st) = Step-Counted st (num_running_bounds all r)
