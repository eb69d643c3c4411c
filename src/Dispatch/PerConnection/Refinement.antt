-- ===== src/Dispatch/PerConnection/Refinement.antt =====
-- The dispatcher and its threads against what they promise: connections that are served one entry
-- at a time, each of them in its order, and all else in any order.
use query_playback.Prelude.{
  ℕ, ◌≡◌, ◌⊎◌, inl, inr, refl, ap, ◌∙◌, sym, Bool, List, [], ◌∷◌, ◌++◌, ◌==◌, if◌then◌else◌,
  Bool-cases, arith,
}
use query_playback.Table.{find}
use query_playback.Dispatch.PerConnection.{System, create, push, finish_some_and_go, work}
use query_playback.Dispatch.PerConnection.Steps.{
  Step, creates, cleans, pushes, works, Reach, here, next, of_conn, to_run, ShutsLast,
}
use query_playback.Dispatch.PerConnection.Effects.{
  to_run-create, to_run-push, to_run-work_self, to_run-work_other, to_run-finish_some_and_go,
}
use query_playback.Dispatch.PerConnection.Invariant.{Inv, Reach-Inv, started, started-Inv}

-- For each connection what is still to be executed; and what has been executed.
pub record Connections (E : Type 0) : Type 0 where
  pub left : ℕ → List E
  pub done : List E

abbrev pub serve : {E : Type 0} → ℕ → E → List E → Connections E → Connections E
serve id e rest c = record {
  left = λ j. if id == j then rest else c.left j;
  done = c.done ++ e ∷ [];
}

-- One connection is served.
pub data Serves {E : Type 0} (c : Connections E) : Connections E → Type 0 where
  serves : (id : ℕ) (e : E) (rest : List E) → c.left id ≡ e ∷ rest → Serves c (serve id e rest c)

pub data Served {E : Type 0} (c : Connections E) : Connections E → Type 0 where
  unserved : Served c c
  then_serves : {d f : Connections E} → Served c d → Serves d f → Served c f

module _ {E : Type 0} (thread_id : E → ℕ) (is_shutdown : E → Bool) (depth : ℕ) (all : List E) where
  pub record Refines (s : System E) (c : Connections E) : Type 0 where
    pub same_left : (id : ℕ) → to_run thread_id id s ≡ c.left id
    pub same_done : s.executed ≡ c.done

  abbrev pub connections : Connections E
  connections = record { left = λ id. of_conn thread_id id all; done = [] }

  work-Refines :
      (k : ℕ) (e : E) (rest : List E) (s : System E) (c : Connections E)
      → to_run thread_id k s ≡ e ∷ to_run thread_id k (work is_shutdown k e rest s)
      → Refines s c
      → Refines
          (work is_shutdown k e rest s)
          (serve k e (to_run thread_id k (work is_shutdown k e rest s)) c)
  work-Refines k e rest s c own r = record {
    same_left = λ id. elim (Bool-cases (k == id)) [
      | inl m ↦
          let same : k ≡ id = ground arith in
          rw m (ap (λ (j : ℕ). to_run thread_id j (work is_shutdown k e rest s)) (sym same))
      | inr m ↦ rw m (to_run-work_other thread_id is_shutdown k id s e rest m ∙ r.same_left id)
    ];
    same_done = unfold work in ap (λ (es : List E). es ++ e ∷ []) r.same_done;
  }

  -- A step is one service of a connection, or it changes nothing that the connections can tell.
  Step-Refines :
      {s t : System E}
      → Step thread_id is_shutdown depth s t
      → Inv thread_id is_shutdown depth all s
      → (c : Connections E) → Refines s c
      → Refines t c ⊎ ((d : Connections E) × Serves c d × Refines t d)
  Step-Refines {s} (creates e rest p n few) v c r = inl (record {
    same_left = λ id. to_run-create thread_id id s e n ∙ r.same_left id;
    same_done = unfold create in r.same_done;
  })
  Step-Refines {s} (cleans e rest joins p n many) v c r = inl (record {
    same_left = λ id.
        to_run-finish_some_and_go thread_id id s joins v.unique (v.conn id).runs_while
        ∙ r.same_left id;
    same_done = unfold finish_some_and_go in r.same_done;
  })
  Step-Refines {s} (pushes e rest t p f room) v c r = inl (record {
    same_left = λ id. to_run-push thread_id id s e rest t p f ∙ r.same_left id;
    same_done = unfold push in r.same_done;
  })
  Step-Refines {s} (works k e rest t f running q) v c r =
      let own = to_run-work_self thread_id is_shutdown k s e rest t f q in
      let left = to_run thread_id k (work is_shutdown k e rest s) in
      inr (
        serve k e left c,
        serves k e left (sym (r.same_left k) ∙ own),
        work-Refines k e rest s c own r,
      )

  -- Take entries of which, for each connection, the last one and no other shuts it down. Every run of
  -- the dispatcher and its threads, in any interleaving, is a run of the connections that are served one
  -- entry at a time, from the entries of each connection: what it has executed is what has been
  -- served, and for each connection the same entries are left, in the same order.
  pub Reach-Refines :
      ((id : ℕ) → ShutsLast is_shutdown (of_conn thread_id id all))
      → {s : System E} → Reach thread_id is_shutdown depth (started all) s
      → (c : Connections E) × Served connections c × Refines s c
  Reach-Refines h here =
      (connections, unserved, record { same_left = λ id. unfold find in refl; same_done = refl })
  Reach-Refines h (next r st) =
      let (c, run, same) = Reach-Refines h r in
      let v =
        Reach-Inv thread_id is_shutdown depth all (started-Inv thread_id is_shutdown depth all h)
          r in
      elim (Step-Refines st v c same) [
        | inl stays ↦ (c, run, stays)
        | inr (d, one, moved) ↦ (d, then_serves run one, moved)
      ]
