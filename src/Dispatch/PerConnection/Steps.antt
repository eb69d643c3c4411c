-- ===== src/Dispatch/PerConnection/Steps.antt =====
-- All the interleavings of the dispatcher and its threads.
use query_playback.Prelude.{
  ℕ, ◌<◌, ◌≡◌, Bool, true, false, List, [], ◌∷◌, ◌++◌, Option, none, some, length, select, ◌==◌,
}
use query_playback.Table.{find}
use query_playback.Dispatch.PerConnection.{
  DbThread, System, too_many, create, push, finish_some_and_go, work,
}

module _ {E : Type 0} where
  abbrev pub queue_of : Option (DbThread E) → List E
  queue_of none = []
  queue_of (some t) = t.queries

  -- A thread runs exactly while there is something left to run for its connection.
  abbrev pub RunsWhile : Option (DbThread E) → List E → Type 0
  RunsWhile none left = Unit
  RunsWhile (some t) [] = t.running ≡ false
  RunsWhile (some t) (e ∷ left) = t.running ≡ true

module _ {E : Type 0} (thread_id : E → ℕ) where
  -- The entries of connection `id`.
  abbrev pub of_conn : ℕ → List E → List E
  of_conn id es = select (λ e. thread_id e == id) es

  -- What is still to run for connection `id`.
  abbrev pub to_run : ℕ → System E → List E
  to_run id s = queue_of (find id s.executors) ++ of_conn id s.pending

-- The last entry, and no other, shuts the connection down.
abbrev pub ShutsLast : {E : Type 0} → (E → Bool) → List E → Type 0
ShutsLast is_shutdown [] = Unit
ShutsLast is_shutdown (e ∷ []) = is_shutdown e ≡ true
ShutsLast is_shutdown (e ∷ f ∷ es) = (is_shutdown e ≡ false) × ShutsLast is_shutdown (f ∷ es)

module _ {E : Type 0} (thread_id : E → ℕ) (is_shutdown : E → Bool) (depth : ℕ) where
  -- One step of one thread of the program. `dispatch` is at the entry `e`, which it has popped.
  pub data Step (s : System E) : System E → Type 0 where
    creates :
        (e : E) (rest : List E)
        → s.pending ≡ e ∷ rest
        → find (thread_id e) s.executors ≡ none
        → too_many s.num_running ≡ false
        → Step s (create (thread_id e) s)
    cleans :
        (e : E) (rest : List E) (joins : ℕ → Bool)
        → s.pending ≡ e ∷ rest
        → find (thread_id e) s.executors ≡ none
        → too_many s.num_running ≡ true
        → Step s (finish_some_and_go joins s)
    pushes :
        (e : E) (rest : List E) (t : DbThread E)
        → s.pending ≡ e ∷ rest
        → find (thread_id e) s.executors ≡ some t
        → length t.queries < depth
        → Step s (push (thread_id e) t e rest s)
    works :
        (id : ℕ) (e : E) (rest : List E) (t : DbThread E)
        → find id s.executors ≡ some t
        → t.running ≡ true
        → t.queries ≡ e ∷ rest
        → Step s (work is_shutdown id e rest s)

  pub data Reach (s : System E) : System E → Type 0 where
    here : Reach s s
    next : {t u : System E} → Reach s t → Step t u → Reach s u
