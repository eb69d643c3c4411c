-- ===== src/Dispatch/PerConnection/Effects.antt =====
-- What a step changes in the table of one connection, and in what is still to run for it.
use query_playback.Prelude.{
  ℕ, ◌≡◌, refl, ◌∙◌, sym, subst, Bool, true, false, not, List, [], ◌∷◌, ◌++◌, Option, none, some,
  inl, inr, ◌==◌, if◌then◌else◌, Bool-cases, Option-cases, arith, append_assoc,
}
use query_playback.Table.{find, IsUnique, find-set, find-retain}
use query_playback.Dispatch.PerConnection.{
  DbThread, System, start_thread, create, push, is_left, finish_some_and_go, work,
}
use query_playback.Dispatch.PerConnection.Steps.{of_conn, to_run, RunsWhile}

module _ {E : Type 0} where
  pub find-create :
      (k id : ℕ) (s : System E)
      → find id (create k s).executors
        ≡ (if k == id then some start_thread else find id s.executors)
  unfolding create
  find-create k id s = find-set k id start_thread s.executors

  pub find-push :
      (k id : ℕ) (t : DbThread E) (e : E) (rest : List E) (s : System E)
      → find id (push k t e rest s).executors ≡ (
          if k == id
          then some (record t { queries = t.queries ++ e ∷ [] })
          else find id s.executors)
  unfolding push
  find-push k id t e rest s = find-set k id (record t { queries = t.queries ++ e ∷ [] }) s.executors

  pub find-work :
      (is_shutdown : E → Bool) (k id : ℕ) (e : E) (rest : List E) (s : System E)
      → find id (work is_shutdown k e rest s).executors ≡ (
          if k == id
          then some (record { queries = rest; running = not (is_shutdown e) })
          else find id s.executors)
  unfolding work
  find-work is_shutdown k id e rest s =
      find-set k id (record { queries = rest; running = not (is_shutdown e) }) s.executors

  -- A thread that is joined had nothing left to run.
  pub joined-nil :
      (t : DbThread E) (left : List E) → t.running ≡ false → RunsWhile (some t) left → left ≡ []
  joined-nil t [] r h = refl
  joined-nil t (e ∷ left) r h = cc

  append-nil_right : (xs ys : List E) → xs ++ ys ≡ [] → ys ≡ []
  append-nil_right [] ys h = h
  append-nil_right (x ∷ xs) ys h = cc

module _ {E : Type 0} (thread_id : E → ℕ) where
  same_id : (k id : ℕ) → (k == id) ≡ true → k ≡ id
  same_id k id m = ground arith

  pub to_run-create :
      (id : ℕ) (s : System E) (e : E)
      → find (thread_id e) s.executors ≡ none
      → to_run thread_id id (create (thread_id e) s) ≡ to_run thread_id id s
  unfolding create
  to_run-create id s e n = elim (Bool-cases (thread_id e == id)) [
    | inl m ↦
        let there : find id s.executors ≡ none = rw (← (same_id (thread_id e) id m)) n in
        rw (find-create (thread_id e) id s, m, there)
    | inr m ↦ rw (find-create (thread_id e) id s, m)
  ]

  pub to_run-push :
      (id : ℕ) (s : System E) (e : E) (rest : List E) (t : DbThread E)
      → s.pending ≡ e ∷ rest
      → find (thread_id e) s.executors ≡ some t
      → to_run thread_id id (push (thread_id e) t e rest s) ≡ to_run thread_id id s
  unfolding push
  to_run-push id s e rest t p f = elim (Bool-cases (thread_id e == id)) [
    | inl m ↦
        let there : find id s.executors ≡ some t = rw (← (same_id (thread_id e) id m)) f in
        rw (find-push (thread_id e) id t e rest s, m, there, p, m, append_assoc)
    | inr m ↦ rw (find-push (thread_id e) id t e rest s, m, p, m)
  ]

  pub to_run-work_self :
      (is_shutdown : E → Bool) (id : ℕ) (s : System E) (e : E) (rest : List E) (t : DbThread E)
      → find id s.executors ≡ some t
      → t.queries ≡ e ∷ rest
      → to_run thread_id id s ≡ e ∷ to_run thread_id id (work is_shutdown id e rest s)
  unfolding work
  to_run-work_self is_shutdown id s e rest t f q =
      let self : (id == id) ≡ true = ground arith in
      rw (find-work is_shutdown id id e rest s, self, f, q)

  pub to_run-work_other :
      (is_shutdown : E → Bool) (k id : ℕ) (s : System E) (e : E) (rest : List E)
      → (k == id) ≡ false
      → to_run thread_id id (work is_shutdown k e rest s) ≡ to_run thread_id id s
  unfolding work
  to_run-work_other is_shutdown k id s e rest m = rw (find-work is_shutdown k id e rest s, m)

  pub to_run-finish_some_and_go :
      (id : ℕ) (s : System E) (joins : ℕ → Bool)
      → IsUnique s.executors
      → RunsWhile (find id s.executors) (to_run thread_id id s)
      → to_run thread_id id (finish_some_and_go joins s) ≡ to_run thread_id id s
  unfolding finish_some_and_go
  to_run-finish_some_and_go id s joins u v =
      let now = find-retain (is_left joins) id s.executors u in
      elim (Option-cases (find id s.executors)) [
        | inl n ↦ rw (now, n)
        | inr (t, f) ↦ elim (Bool-cases (is_left joins (id, t))) [
          | inl stays ↦ rw (now, f, stays)
          | inr joined ↦
              let stopped : t.running ≡ false = ground arith in
              let runs =
                subst (λ (o : Option (DbThread E)). RunsWhile o (to_run thread_id id s)) f v in
              let empty : to_run thread_id id s ≡ [] =
                joined-nil t (to_run thread_id id s) stopped runs in
              let none_left : t.queries ++ of_conn thread_id id s.pending ≡ [] = rw f at empty in
              rw (now, f, joined)
                (append-nil_right t.queries (of_conn thread_id id s.pending) none_left
                  ∙ sym none_left)
        ]
      ]
