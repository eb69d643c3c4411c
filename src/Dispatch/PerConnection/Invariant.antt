-- ===== src/Dispatch/PerConnection/Invariant.antt =====
-- What every interleaving keeps, connection by connection.
use query_playback.Prelude.{ℕ, refl, Bool, List, []}
use query_playback.Table.{find, IsUnique, set-IsUnique, retain-IsUnique}
use query_playback.Dispatch.PerConnection.{
  System, start_thread, create, push, is_left, finish_some_and_go, work,
}
use query_playback.Dispatch.PerConnection.Kept.{
  ConnInv, create-ConnInv, push-ConnInv, work-ConnInv, finish_some_and_go-ConnInv,
}
use query_playback.Dispatch.PerConnection.Steps.{
  Step, creates, cleans, pushes, works, Reach, here, next, of_conn, ShutsLast,
}

module _ {E : Type 0} (thread_id : E → ℕ) (is_shutdown : E → Bool) (depth : ℕ) (all : List E) where
  pub record Inv (s : System E) : Type 0 where
    pub unique : IsUnique s.executors
    pub conn : (id : ℕ) → ConnInv thread_id is_shutdown depth all id s

  Step-Inv : {s t : System E} → Step thread_id is_shutdown depth s t → Inv s → Inv t
  Step-Inv {s} (creates e rest p n few) v = record {
    unique = unfold create in set-IsUnique (thread_id e) start_thread s.executors v.unique;
    conn = λ id. create-ConnInv thread_id is_shutdown depth all id s e rest p n (v.conn id);
  }
  Step-Inv {s} (cleans e rest joins p n many) v = record {
    unique = unfold finish_some_and_go in retain-IsUnique (is_left joins) s.executors v.unique;
    conn = λ id.
        finish_some_and_go-ConnInv thread_id is_shutdown depth all id s joins v.unique (v.conn id);
  }
  Step-Inv {s} (pushes e rest t p f room) v = record {
    unique = unfold push in set-IsUnique (thread_id e) _ s.executors v.unique;
    conn = λ id. push-ConnInv thread_id is_shutdown depth all id s e rest t p f (v.conn id);
  }
  Step-Inv {s} (works k e rest t f r q) v = record {
    unique = unfold work in set-IsUnique k _ s.executors v.unique;
    conn = λ id.
        work-ConnInv thread_id is_shutdown depth all k id s e rest t f q
          (rw (f, q) at (v.conn k).own).0 (v.conn id);
  }

  pub Reach-Inv : {s t : System E} → Inv s → Reach thread_id is_shutdown depth s t → Inv t
  Reach-Inv v here = v
  Reach-Inv v (next r st) = Step-Inv st (Reach-Inv v r)

-- The dispatcher before its first step.
abbrev pub started : {E : Type 0} → List E → System E
started all = record { pending = all; executors = []; num_running = 0; executed = [] }

module _ {E : Type 0} (thread_id : E → ℕ) (is_shutdown : E → Bool) (depth : ℕ) (all : List E) where
  pub started-Inv :
      ((id : ℕ) → ShutsLast is_shutdown (of_conn thread_id id all))
      → Inv thread_id is_shutdown depth all (started all)
  started-Inv h = record {
    unique = tt;
    conn = λ id. record {
      conserved = unfold find in refl;
      shuts_last = unfold find in h id;
      runs_while = unfold find in tt;
      own = unfold find in tt;
    };
  }
