-- ===== src/Dispatch/PerConnection/Progress.antt =====
-- When the dispatcher and its threads can go on.
use query_playback.Prelude.{
  ℕ, ◌<◌, ◌≡◌, ◌≢◌, refl, subst, Bool, true, false, List, [], ◌∷◌, ◌++◌, none, some, ◌⊎◌, inl, inr,
  ◌==◌, Bool-cases, Option-cases, arith,
}
use query_playback.Table.{find, IsUnique}
use query_playback.Dispatch.PerConnection.{
  DbThread, System, too_many, create, push, finish_some_and_go, work,
}
use query_playback.Dispatch.PerConnection.Steps.{
  Step, creates, cleans, pushes, works, Reach, of_conn, to_run, ShutsLast, RunsWhile,
}
use query_playback.Dispatch.PerConnection.Invariant.{Inv, Reach-Inv, started-Inv, started}
use query_playback.Dispatch.PerConnection.Kept.{runs_at}
use query_playback.Dispatch.PerConnection.Outcome.{IsDone}

module _ {E : Type 0} where
  abbrev IsReady : List (ℕ × DbThread E) → Type 0
  IsReady ex =
      (id : ℕ) × (t : DbThread E) × (e : E) × (rest : List E) × (find id ex ≡ some t)
      × (t.running ≡ true)
      × (t.queries ≡ e ∷ rest)

  abbrev HasEnded : List (ℕ × DbThread E) → Type 0
  HasEnded ex = (id : ℕ) × (t : DbThread E) × (find id ex ≡ some t) × (t.running ≡ false)

  -- Every thread in the table runs, and waits for an entry.
  abbrev pub AllWait : List (ℕ × DbThread E) → Type 0
  AllWait ex =
      (id : ℕ) (t : DbThread E) → find id ex ≡ some t → (t.running ≡ true) × (t.queries ≡ [])

  -- Every thread in the table has ended.
  abbrev pub AllEnded : List (ℕ × DbThread E) → Type 0
  AllEnded ex = (id : ℕ) (t : DbThread E) → find id ex ≡ some t → t.running ≡ false

  pub List-cases : (xs : List E) → (xs ≡ []) ⊎ ((e : E) × (rest : List E) × (xs ≡ e ∷ rest))
  List-cases [] = inl refl
  List-cases (x ∷ xs) = inr (x, xs, refl)

  find_here : (j : ℕ) (v : DbThread E) (ex : List (ℕ × DbThread E)) → find j ((j, v) ∷ ex) ≡ some v
  unfolding find
  find_here j v ex = ground arith

  find_behind :
      (j id : ℕ) (v t : DbThread E) (ex : List (ℕ × DbThread E))
      → find j ex ≡ none
      → find id ex ≡ some t
      → find id ((j, v) ∷ ex) ≡ some t
  unfolding find
  find_behind j id v t ex n f = elim (Bool-cases (j == id)) [
    | inl e ↦
        let same : j ≡ id = ground arith in
        absurd (ground (arith, subst (λ (k : ℕ). find k ex ≡ none) same n))
    | inr e ↦ rw e f
  ]

  find_cases :
      (j id : ℕ) (v t : DbThread E) (ex : List (ℕ × DbThread E))
      → find id ((j, v) ∷ ex) ≡ some t
      → (v ≡ t) ⊎ (find id ex ≡ some t)
  unfolding find
  find_cases j id v t ex f = elim (Bool-cases (j == id)) [
    | inl e ↦ inl (ground arith)
    | inr e ↦ inr (rw e at f)
  ]

  -- A thread that can run an entry, or none, and then one that has ended, or all of them wait.
  look_for-IsReady :
      (ex : List (ℕ × DbThread E))
      → IsUnique ex
      → IsReady ex
        ⊎ ((id : ℕ) (t : DbThread E) → find id ex ≡ some t → (t.running ≡ false) ⊎ (t.queries ≡ []))
  look_for-IsReady [] u = inr (λ id t f. absurd (unfold find in cc))
  look_for-IsReady ((j, v) ∷ ex) u = elim (Bool-cases v.running) [
    | inl runs ↦ elim (List-cases v.queries) [
      | inl none_left ↦ elim (look_for-IsReady ex u.1) [
        | inl (id, t, e, rest, f, r, q) ↦ inl (id, t, e, rest, find_behind j id v t ex u.0 f, r, q)
        | inr others ↦ inr (λ id t f. elim (find_cases j id v t ex f) [
          | inl same ↦ inr (rw (← same) none_left)
          | inr behind ↦ others id t behind
        ])
      ]
      | inr (e, rest, q) ↦ inl (j, v, e, rest, find_here j v ex, runs, q)
    ]
    | inr ended ↦ elim (look_for-IsReady ex u.1) [
      | inl (id, t, e, rest, f, r, q) ↦ inl (id, t, e, rest, find_behind j id v t ex u.0 f, r, q)
      | inr others ↦ inr (λ id t f. elim (find_cases j id v t ex f) [
        | inl same ↦ inl (rw (← same) ended)
        | inr behind ↦ others id t behind
      ])
    ]
  ]

  look_for_ended :
      (ex : List (ℕ × DbThread E))
      → IsUnique ex
      → HasEnded ex ⊎ ((id : ℕ) (t : DbThread E) → find id ex ≡ some t → t.running ≡ true)
  look_for_ended [] u = inr (λ id t f. absurd (unfold find in cc))
  look_for_ended ((j, v) ∷ ex) u = elim (Bool-cases v.running) [
    | inr ended ↦ inl (j, v, find_here j v ex, ended)
    | inl runs ↦ elim (look_for_ended ex u.1) [
      | inl (id, t, f, r) ↦ inl (id, t, find_behind j id v t ex u.0 f, r)
      | inr others ↦ inr (λ id t f. elim (find_cases j id v t ex f) [
        | inl same ↦ rw (← same) runs
        | inr behind ↦ others id t behind
      ])
    ]
  ]

module _ {E : Type 0} (thread_id : E → ℕ) (is_shutdown : E → Bool) (depth : ℕ) where
  -- How the program can go on from a state: it is done; or one of its threads can take a step, where
  -- a step of `finish_some_and_go` is one that finds a thread that has ended; or the dispatcher waits for the
  -- number of threads to fall, and all the threads in the table wait for the dispatcher.
  pub data Progress (s : System E) : Type 0 where
    is_done : IsDone s → Progress s
    executes :
        (id : ℕ) (e : E) (rest : List E)
        → Step thread_id is_shutdown depth s (work is_shutdown id e rest s)
        → Progress s
    hands_out :
        (e : E) (rest : List E) (t : DbThread E)
        → Step thread_id is_shutdown depth s (push (thread_id e) t e rest s)
        → Progress s
    opens : (e : E) → Step thread_id is_shutdown depth s (create (thread_id e) s) → Progress s
    frees :
        HasEnded s.executors
        → Step thread_id is_shutdown depth s (finish_some_and_go (λ id. true) s)
        → Progress s
    is_stuck : too_many s.num_running ≡ true → (s.pending ≢ []) → AllWait s.executors → Progress s

  module _ (all : List E) (room : 0 < depth) where
    append_cons-ne-nil : (xs ys : List E) (y : E) → xs ++ y ∷ ys ≢ []
    append_cons-ne-nil [] ys y e = cc
    append_cons-ne-nil (x ∷ xs) ys y e = cc

    runs_of_left :
        (t : DbThread E) (left : List E) → left ≢ [] → RunsWhile (some t) left → t.running ≡ true
    runs_of_left t [] n h = absurd (n refl)
    runs_of_left t (e ∷ left) n h = h

    at_end :
        (s : System E)
        → Inv thread_id is_shutdown depth all s
        → s.pending ≡ []
        → ((id : ℕ) (t : DbThread E)
            → find id s.executors ≡ some t
            → (t.running ≡ false) ⊎ (t.queries ≡ []))
        → IsDone s
    at_end s v p others = (
      p,
      λ id t f. elim (others id t f) [
        | inl ended ↦ ended
        | inr empty ↦
            let nothing : to_run thread_id id s ≡ [] = rw (f, p, empty) in
            subst (λ (left : List E). RunsWhile (some t) left) nothing
              (runs_at thread_id is_shutdown depth all id s t f (v.conn id))
      ],
    )

    before_end :
        (s : System E) (e : E) (rest : List E)
        → Inv thread_id is_shutdown depth all s
        → s.pending ≡ e ∷ rest
        → ((id : ℕ) (t : DbThread E)
            → find id s.executors ≡ some t
            → (t.running ≡ false) ⊎ (t.queries ≡ []))
        → Progress s
    before_end s e rest v p others = elim (Option-cases (find (thread_id e) s.executors)) [
      | inr (t, f) ↦ elim (others (thread_id e) t f) [
        | inr empty ↦ hands_out e rest t (pushes e rest t p f (rw empty room))
        | inl ended ↦
            let self : (thread_id e == thread_id e) ≡ true = ground arith in
            let more : to_run thread_id (thread_id e) s ≢ [] =
              rw (p, self) (append_cons-ne-nil _ (of_conn thread_id (thread_id e) rest) e) in
            let runs = runs_of_left t _ more (
              runs_at thread_id is_shutdown depth all (thread_id e) s t f (v.conn (thread_id e))) in
            absurd (ground arith)
      ]
      | inl n ↦ elim (Bool-cases (too_many s.num_running)) [
        | inr few ↦ opens e (creates e rest p n few)
        | inl many ↦ elim (look_for_ended s.executors v.unique) [
          | inl ended ↦ frees ended (cleans e rest (λ id. true) p n many)
          | inr running ↦
              is_stuck many (λ x. ground arith)
                λ id t f. elim (others id t f) [
                  | inl ended ↦ absurd (ground (arith, running id t f))
                  | inr empty ↦ (running id t f, empty)
                ]
        ]
      ]
    ]

    -- With room in the queues, and the last entry of each connection, and no other, shutting it down,
    -- every state that the program can reach is done, or can go on, or is stuck behind more than
    -- 10000 threads that all wait for entries.
    pub Reach-Progress :
        ((id : ℕ) → ShutsLast is_shutdown (of_conn thread_id id all))
        → {s : System E} → Reach thread_id is_shutdown depth (started all) s
        → Progress s
    Reach-Progress h {s} r =
        let v =
          Reach-Inv thread_id is_shutdown depth all (started-Inv thread_id is_shutdown depth all h)
            r in
        elim (look_for-IsReady s.executors v.unique) [
          | inl (id, t, e, rest, f, runs, q) ↦ executes id e rest (works id e rest t f runs q)
          | inr others ↦ elim (List-cases s.pending) [
            | inl p ↦ is_done (at_end s v p others)
            | inr (e, rest, p) ↦ before_end s e rest v p others
          ]
        ]
