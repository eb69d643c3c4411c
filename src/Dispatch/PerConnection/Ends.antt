-- ===== src/Dispatch/PerConnection/Ends.antt =====
-- That every run of the dispatcher and its threads comes to an end.
use query_playback.Prelude.{
  ℕ, zero, suc, ◌+◌, ◌-◌, ◌*◌, ◌≤◌, ◌<◌, ◌≡◌, refl, ap, subst, ◌⊎◌, Bool, true, not, List, [], ◌∷◌,
  ◌++◌, none, All, length, length-append, Option-cases, inl, inr, arith,
}
use query_playback.Table.{find, IsUnique}
use query_playback.Dispatch.PerConnection.{
  DbThread, System, start_thread, create, push, finish_some_and_go, work,
}
use query_playback.Dispatch.PerConnection.Steps.{
  Step, creates, cleans, pushes, works, Reach, here, next, of_conn, ShutsLast,
}
use query_playback.Dispatch.PerConnection.Invariant.{Inv, Reach-Inv, started-Inv, started}
use query_playback.Dispatch.PerConnection.Count.{num_running_bounds, length-set_new, length-set_old}
use query_playback.Dispatch.PerConnection.Outcome.{IsDone}
use query_playback.Dispatch.PerConnection.Progress.{
  is_done, executes, hands_out, opens, frees, is_stuck, List-cases, Reach-Progress,
}
use query_playback.Dispatch.PerConnection.Sizes.{
  Completes, steps, IsIn, KeysIn, KeysIn-length, KeysIn-set, KeysIn-find, queued, queued-set_new,
  queued-set_old,
}

module _ {E : Type 0} (thread_id : E → ℕ) (is_shutdown : E → Bool) (depth : ℕ) (all : List E)
    (ids : List ℕ) where
  abbrev pub IdsIn : List E → Type 0
  IdsIn es = All (λ e. IsIn ids (thread_id e)) es

  -- What is still to do: an entry is pushed and run, and a thread is created once.
  abbrev pub left : System E → ℕ
  left s = 2 * length s.pending + queued s.executors + (length ids - length s.executors)

  record Within (s : System E) : Type 0 where
    pending_in : IdsIn s.pending
    keys_in : KeysIn ids s.executors
    unique : IsUnique s.executors
    counted : s.num_running ≡ length s.executors

  -- A connection without a thread is not counted yet.
  not_full :
      (s : System E) (e : E)
      → Within s
      → IsIn ids (thread_id e)
      → find (thread_id e) s.executors ≡ none
      → length s.executors < length ids
  not_full s e v i n =
      let all_of_them =
        KeysIn-length ids ((thread_id e, start_thread) ∷ s.executors) (n, v.unique)
          (i, v.keys_in) in
      omega (arith, all_of_them)

  first_in :
      (s : System E) (e : E) (rest : List E)
      → s.pending ≡ e ∷ rest
      → IdsIn s.pending
      → IdsIn (e ∷ rest)
  first_in s e rest p h = subst (λ (es : List E). IdsIn es) p h

  module _ (few : length ids ≤ 10001) where
    Step-left :
        {s t : System E} → Step thread_id is_shutdown depth s t → Within s → left t + 1 ≡ left s
    unfolding create push work
    Step-left {s} (creates e rest p n some_room) v =
        let below = not_full s e v (first_in s e rest p v.pending_in).0 n in
        omega (
          arith,
          below,
          queued-set_new (thread_id e) s.executors n,
          length-set_new (thread_id e) start_thread s.executors n,
        )
    Step-left {s} (cleans e rest joins p n many) v =
        let below = not_full s e v (first_in s e rest p v.pending_in).0 n in
        absurd (ground (arith, many, below, few, v.counted))
    Step-left {s} (pushes e rest t p f room) v =
        let t' : DbThread E = record t { queries = t.queries ++ e ∷ [] } in
        let one_less : length s.pending ≡ suc (length rest) = ap length p in
        let one_more : length t'.queries ≡ length t.queries + 1 =
          length-append t.queries (e ∷ []) in
        let queues = queued-set_old (thread_id e) t t' s.executors f in
        let threads = length-set_old (thread_id e) t' t s.executors f in
        omega (arith, one_less, one_more, queues, threads)
    Step-left {s} (works k e rest t f r q) v =
        let t' : DbThread E = record { queries = rest; running = not (is_shutdown e) } in
        let one_less : length t.queries ≡ suc (length rest) = ap length q in
        let queues = queued-set_old k t t' s.executors f in
        let threads = length-set_old k t' t s.executors f in
        omega (arith, one_less, queues, threads)

    Step-Within :
        {s t : System E}
        → Step thread_id is_shutdown depth s t
        → IsUnique t.executors
        → t.num_running ≡ length t.executors
        → Within s
        → Within t
    unfolding create push work
    Step-Within {s} (creates e rest p n some_room) u c v = record {
      pending_in = v.pending_in;
      keys_in =
          KeysIn-set ids (thread_id e) _ s.executors (first_in s e rest p v.pending_in).0 v.keys_in;
      unique = u;
      counted = c;
    }
    Step-Within {s} (cleans e rest joins p n many) u c v =
        let below = not_full s e v (first_in s e rest p v.pending_in).0 n in
        absurd (ground (arith, many, below, few, v.counted))
    Step-Within {s} (pushes e rest t p f room) u c v = record {
      pending_in = (first_in s e rest p v.pending_in).1;
      keys_in =
          KeysIn-set ids (thread_id e) _ s.executors (first_in s e rest p v.pending_in).0 v.keys_in;
      unique = u;
      counted = c;
    }
    Step-Within {s} (works k e rest t f r q) u c v = record {
      pending_in = v.pending_in;
      keys_in =
          KeysIn-set ids k _ s.executors (KeysIn-find ids k t s.executors f v.keys_in) v.keys_in;
      unique = u;
      counted = c;
    }

    module _ (room : 0 < depth) (among : IdsIn all)
        (marked : (id : ℕ) → ShutsLast is_shutdown (of_conn thread_id id all)) where
      reached-Inv :
          {s : System E}
          → Reach thread_id is_shutdown depth (started all) s
          → Inv thread_id is_shutdown depth all s
      reached-Inv r =
          Reach-Inv thread_id is_shutdown depth all
            (started-Inv thread_id is_shutdown depth all marked) r

      Reach-Within : {s : System E} → Reach thread_id is_shutdown depth (started all) s → Within s
      Reach-Within here = record { pending_in = among; keys_in = tt; unique = tt; counted = refl }
      Reach-Within (next r st) =
          Step-Within st (reached-Inv (next r st)).unique
            (num_running_bounds thread_id is_shutdown depth all (next r st)).0 (Reach-Within r)

      steps-left :
          {s : System E} (r : Reach thread_id is_shutdown depth (started all) s)
          → steps thread_id is_shutdown depth r + left s ≡ 2 * length all + length ids
      steps-left here = omega arith
      steps-left (next r st) = omega (arith, steps-left r, Step-left st (Reach-Within r))

      can_go_on :
          (t : System E)
          → Reach thread_id is_shutdown depth (started all) t
          → IsDone t ⊎ ((u : System E) × Step thread_id is_shutdown depth t u)
      can_go_on t r =
          let v = Reach-Within r in
          elim (Reach-Progress thread_id is_shutdown depth all room marked r) [
            | is_done d ↦ inl d
            | executes id e rest st ↦ inr (work is_shutdown id e rest t, st)
            | hands_out e rest x st ↦ inr (push (thread_id e) x e rest t, st)
            | opens e st ↦ inr (create (thread_id e) t, st)
            | frees ended st ↦ inr (finish_some_and_go (λ id. true) t, st)
            | is_stuck many more wait ↦ elim (List-cases t.pending) [
              | inl p ↦ absurd (more p)
              | inr (e, rest, p) ↦ elim (Option-cases (find (thread_id e) t.executors)) [
                | inl n ↦
                    let below = not_full t e v (first_in t e rest p v.pending_in).0 n in
                    absurd (ground (arith, many, below, few, v.counted))
                | inr (x, f) ↦ inr (
                  push (thread_id e) x e rest t,
                  pushes e rest x p f (rw ((wait (thread_id e) x f).1) room),
                )
              ]
            ]
          ]

      complete_from :
          (n : ℕ) (s t : System E)
          → Reach thread_id is_shutdown depth (started all) t
          → Reach thread_id is_shutdown depth s t
          → left t ≤ n
          → Completes thread_id is_shutdown depth s
      complete_from zero s t r q h = elim (can_go_on t r) [
        | inl d ↦ (t, q, d)
        | inr (u, st) ↦ absurd (omega (arith, h, Step-left st (Reach-Within r)))
      ]
      complete_from (suc n) s t r q h = elim (can_go_on t r) [
        | inl d ↦ (t, q, d)
        | inr (u, st) ↦
            complete_from n s u (next r st) (next q st)
              (omega (arith, h, Step-left st (Reach-Within r)))
      ]

      -- Take entries of at most 10001 connections, of which, for each connection, the last one and no
      -- other shuts it down, and queues that have room for one. However the dispatcher and its threads
      -- are interleaved, a run never takes more steps than two for each entry and one for each
      -- connection, and from every state that it reaches it can be continued until all is handed out
      -- and every thread has ended.
      pub Reach-Completes :
          {s : System E} (r : Reach thread_id is_shutdown depth (started all) s)
          → (steps thread_id is_shutdown depth r ≤ 2 * length all + length ids)
            × Completes thread_id is_shutdown depth s
      Reach-Completes {s} r =
          (omega (arith, steps-left r), complete_from (left s) s s r here (omega arith))
