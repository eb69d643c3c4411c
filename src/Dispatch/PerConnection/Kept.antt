-- ===== src/Dispatch/PerConnection/Kept.antt =====
-- What each step keeps of one connection.
use query_playback.Prelude.{
  ℕ, ◌≡◌, refl, ◌∙◌, subst, Bool, true, false, not, List, [], ◌∷◌, ◌++◌, Option, none, some, inl,
  inr, select-append, All, All-append, ◌==◌, Bool-cases, Option-cases, arith, append_assoc,
  append-nil,
}
use query_playback.Table.{find, set, retain, IsUnique, find-set, find-retain}
use query_playback.Dispatch.PerConnection.{
  DbThread, System, start_thread, create, push, is_left, finish_some_and_go, work,
}
use query_playback.Dispatch.PerConnection.Effects.{
  to_run-create, to_run-push, to_run-finish_some_and_go,
}
use query_playback.Dispatch.PerConnection.Steps.{of_conn, queue_of, to_run, ShutsLast, RunsWhile}

module _ {E : Type 0} (thread_id : E → ℕ) (is_shutdown : E → Bool) (depth : ℕ) (all : List E) where
  abbrev pub Own : ℕ → List E → Type 0
  Own id = All (λ e. (thread_id e == id) ≡ true)

  pub record ConnInv (id : ℕ) (s : System E) : Type 0 where
    pub conserved :
        of_conn thread_id id s.executed ++ to_run thread_id id s ≡ of_conn thread_id id all
    pub shuts_last : ShutsLast is_shutdown (to_run thread_id id s)
    pub runs_while : RunsWhile (find id s.executors) (to_run thread_id id s)
    pub own : Own id (queue_of (find id s.executors))

  pub create-ConnInv :
      (id : ℕ) (s : System E) (e : E) (rest : List E)
      → s.pending ≡ e ∷ rest
      → find (thread_id e) s.executors ≡ none
      → ConnInv id s
      → ConnInv id (create (thread_id e) s)
  unfolding create
  create-ConnInv id s e rest p n v = elim (Bool-cases (thread_id e == id)) [
    | inl m ↦
        let same : thread_id e ≡ id = ground arith in
        let none_there : find id s.executors ≡ none = rw (← same) n in
        let now : find id (set (thread_id e) start_thread s.executors) ≡ some start_thread =
          find-set (thread_id e) id start_thread s.executors ∙ rw m in
        let left = to_run-create thread_id id s e n in
        record {
          conserved = rw left v.conserved;
          shuts_last = rw left v.shuts_last;
          runs_while = rw (now, p, m) refl;
          own = rw now tt;
        }
    | inr m ↦
        let now : find id (set (thread_id e) start_thread s.executors) ≡ find id s.executors =
          find-set (thread_id e) id start_thread s.executors ∙ rw m in
        record {
          conserved = rw now v.conserved;
          shuts_last = rw now v.shuts_last;
          runs_while = rw now v.runs_while;
          own = rw now v.own;
        }
  ]

  pub runs_at :
      (id : ℕ) (s : System E) (t : DbThread E)
      → find id s.executors ≡ some t
      → ConnInv id s
      → RunsWhile (some t) (to_run thread_id id s)
  runs_at id s t f v =
      subst (λ (o : Option (DbThread E)). RunsWhile o (to_run thread_id id s)) f v.runs_while

  RunsWhile-queries :
      (t : DbThread E) (es left : List E)
      → RunsWhile (some t) left
      → RunsWhile (some (record t { queries = es })) left
  RunsWhile-queries t es [] h = h
  RunsWhile-queries t es (e ∷ left) h = h

  pub push-ConnInv :
      (id : ℕ) (s : System E) (e : E) (rest : List E) (t : DbThread E)
      → s.pending ≡ e ∷ rest
      → find (thread_id e) s.executors ≡ some t
      → ConnInv id s
      → ConnInv id (push (thread_id e) t e rest s)
  unfolding push
  push-ConnInv id s e rest t p f v =
      let t' : DbThread E = record t { queries = t.queries ++ e ∷ [] } in
      elim (Bool-cases (thread_id e == id)) [
        | inl m ↦
            let same : thread_id e ≡ id = ground arith in
            let there : find id s.executors ≡ some t = rw (← same) f in
            let now : find id (set (thread_id e) t' s.executors) ≡ some t' =
              find-set (thread_id e) id t' s.executors ∙ rw m in
            let left = to_run-push thread_id id s e rest t p f in
            record {
              conserved = rw left v.conserved;
              shuts_last = rw left v.shuts_last;
              runs_while =
                  rw (left, now)
                    (RunsWhile-queries t (t.queries ++ e ∷ []) _ (runs_at id s t there v));
              own = rw now (All-append _ t.queries (e ∷ []) (rw there at v.own) (m, tt));
            }
        | inr m ↦
            let now : find id (set (thread_id e) t' s.executors) ≡ find id s.executors =
              find-set (thread_id e) id t' s.executors ∙ rw m in
            let left = to_run-push thread_id id s e rest t p f in
            record {
              conserved = rw left v.conserved;
              shuts_last = rw left v.shuts_last;
              runs_while = rw (left, now) v.runs_while;
              own = rw now v.own;
            }
      ]

  ShutsLast-tail :
      (e : E) (left : List E) → ShutsLast is_shutdown (e ∷ left) → ShutsLast is_shutdown left
  ShutsLast-tail e [] h = tt
  ShutsLast-tail e (f ∷ left) h = h.1

  ShutsLast-RunsWhile :
      (e : E) (es left : List E)
      → ShutsLast is_shutdown (e ∷ left)
      → RunsWhile (some (record { queries = es; running = not (is_shutdown e) })) left
  ShutsLast-RunsWhile e es [] h = rw h
  ShutsLast-RunsWhile e es (f ∷ left) h = rw h.0

  -- A thread runs the entry `e` of its own connection `k`.
  pub work-ConnInv :
      (k id : ℕ) (s : System E) (e : E) (rest : List E) (t : DbThread E)
      → find k s.executors ≡ some t
      → t.queries ≡ e ∷ rest
      → (thread_id e == k) ≡ true
      → ConnInv id s
      → ConnInv id (work is_shutdown k e rest s)
  unfolding work
  work-ConnInv k id s e rest t f q o v =
      let t' : DbThread E = record { queries = rest; running = not (is_shutdown e) } in
      elim (Bool-cases (k == id)) [
        | inl m ↦
            let same : k ≡ id = ground arith in
            let there : find id s.executors ≡ some t = rw (← same) f in
            let its : (thread_id e == id) ≡ true = ground arith in
            let now : find id (set k t' s.executors) ≡ some t' =
              find-set k id t' s.executors ∙ rw m in
            let before : to_run thread_id id s ≡ e ∷ (rest ++ of_conn thread_id id s.pending) =
              rw (there, q) in
            let left : to_run thread_id id (work is_shutdown k e rest s)
                ≡ rest ++ of_conn thread_id id s.pending =
              rw now in
            let last = rw before at v.shuts_last in
            record {
              conserved =
                  rw
                    (
                      left,
                      select-append (λ x. thread_id x == id) s.executed (e ∷ []),
                      its,
                      append_assoc,
                    )
                    (rw before at v.conserved);
              shuts_last = rw left (ShutsLast-tail e _ last);
              runs_while = rw (left, now) (ShutsLast-RunsWhile e rest _ last);
              own = rw now (rw (there, q) at v.own).1;
            }
        | inr m ↦
            let other : (thread_id e == id) ≡ false = ground arith in
            let now : find id (set k t' s.executors) ≡ find id s.executors =
              find-set k id t' s.executors ∙ rw m in
            record {
              conserved =
                  rw
                    (
                      now,
                      select-append (λ x. thread_id x == id) s.executed (e ∷ []),
                      other,
                      append-nil,
                    )
                    v.conserved;
              shuts_last = rw now v.shuts_last;
              runs_while = rw now v.runs_while;
              own = rw now v.own;
            }
      ]

  pub finish_some_and_go-ConnInv :
      (id : ℕ) (s : System E) (joins : ℕ → Bool)
      → IsUnique s.executors
      → ConnInv id s
      → ConnInv id (finish_some_and_go joins s)
  unfolding finish_some_and_go
  finish_some_and_go-ConnInv id s joins u v =
      let now = find-retain (is_left joins) id s.executors u in
      elim (Option-cases (find id s.executors)) [
        | inl n ↦
            let gone : find id (retain (is_left joins) s.executors) ≡ find id s.executors =
              now ∙ rw n in
            record {
              conserved = rw gone v.conserved;
              shuts_last = rw gone v.shuts_last;
              runs_while = rw gone v.runs_while;
              own = rw gone v.own;
            }
        | inr (t, f) ↦ elim (Bool-cases (is_left joins (id, t))) [
          | inl stays ↦
              let still : find id (retain (is_left joins) s.executors) ≡ find id s.executors =
                now ∙ rw (f, stays) in
              record {
                conserved = rw still v.conserved;
                shuts_last = rw still v.shuts_last;
                runs_while = rw still v.runs_while;
                own = rw still v.own;
              }
          | inr joined ↦
              let gone : find id (retain (is_left joins) s.executors) ≡ none =
                now ∙ rw (f, joined) in
              let left = to_run-finish_some_and_go thread_id id s joins u v.runs_while in
              record {
                conserved = rw left v.conserved;
                shuts_last = rw left v.shuts_last;
                runs_while = rw gone tt;
                own = rw gone tt;
              }
        ]
      ]
