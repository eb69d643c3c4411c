-- ===== src/Dispatch/PerConnection/Sizes.antt =====
-- What a run of the dispatcher is measured by: its steps, and the sizes of the table and the queues.
use query_playback.Prelude.{
  some_eq, ℕ, ◌+◌, ◌≤◌, ◌≡◌, ap, subst, Bool, List, [], ◌∷◌, none, some, All, length, ◌==◌,
  Bool-cases, inl, inr, arith,
}
use query_playback.Prelude.Occurrences.{count, remove, length-remove, count-remove}
use query_playback.Table.{find, set, IsUnique}
use query_playback.Dispatch.PerConnection.{DbThread, DbExecutorsTable, System, start_thread}
use query_playback.Dispatch.PerConnection.Steps.{Reach, here, next}
use query_playback.Dispatch.PerConnection.Outcome.{IsDone}

-- A state from which the program can go on until all is handed out and every thread has ended.
abbrev pub Completes : {E : Type 0} → (E → ℕ) → (E → Bool) → ℕ → System E → Type 0
Completes {E} thread_id is_shutdown depth s =
    (u : System E) × Reach thread_id is_shutdown depth s u × IsDone u

module _ {E : Type 0} (thread_id : E → ℕ) (is_shutdown : E → Bool) (depth : ℕ) where
  -- How many steps a run has.
  abbrev pub steps : {s t : System E} → Reach thread_id is_shutdown depth s t → ℕ
  steps here = 0
  steps (next r st) = steps r + 1

abbrev pub IsIn : List ℕ → ℕ → Type 0
IsIn ids id = 1 ≤ count (λ k. k == id) ids

module _ {E : Type 0} where
  -- The keys are among some numbers.
  abbrev pub KeysIn : List ℕ → DbExecutorsTable E → Type 0
  KeysIn ids ex = All (λ it. IsIn ids it.0) ex

  KeysIn-remove :
      (j : ℕ) (ids : List ℕ) (ex : DbExecutorsTable E)
      → IsIn ids j
      → find j ex ≡ none
      → KeysIn ids ex
      → KeysIn (remove j ids) ex
  unfolding find
  KeysIn-remove j ids [] i n h = tt
  KeysIn-remove j ids ((k, t) ∷ ex) i n h = elim (Bool-cases (k == j)) [
    | inl e ↦ absurd (ground (arith, rw e at n))
    | inr e ↦
        (ground (arith, count-remove j k ids i, h.0), KeysIn-remove j ids ex i (rw e at n) h.1)
  ]

  -- A table has no more keys than there are numbers to choose from.
  pub KeysIn-length :
      (ids : List ℕ) (ex : DbExecutorsTable E)
      → IsUnique ex
      → KeysIn ids ex
      → length ex ≤ length ids
  KeysIn-length ids [] u h = omega arith
  KeysIn-length ids ((j, t) ∷ ex) u h =
      let rest = KeysIn-length (remove j ids) ex u.1 (KeysIn-remove j ids ex h.0 u.0 h.1) in
      omega (arith, length-remove j ids h.0, rest)

  pub KeysIn-set :
      (ids : List ℕ) (k : ℕ) (t : DbThread E) (ex : DbExecutorsTable E)
      → IsIn ids k
      → KeysIn ids ex
      → KeysIn ids (set k t ex)
  unfolding set
  KeysIn-set ids k t [] i h = (i, tt)
  KeysIn-set ids k t ((j, w) ∷ ex) i h = elim (Bool-cases (j == k)) [
    | inl e ↦ rw e (h.0, h.1)
    | inr e ↦ rw e (h.0, KeysIn-set ids k t ex i h.1)
  ]

  pub KeysIn-find :
      (ids : List ℕ) (k : ℕ) (t : DbThread E) (ex : DbExecutorsTable E)
      → find k ex ≡ some t
      → KeysIn ids ex
      → IsIn ids k
  unfolding find
  KeysIn-find ids k t [] f h = absurd (ground (arith, f))
  KeysIn-find ids k t ((j, w) ∷ ex) f h = elim (Bool-cases (j == k)) [
    | inl e ↦ let same : j ≡ k = ground arith in subst (λ (i : ℕ). IsIn ids i) same h.0
    | inr e ↦ KeysIn-find ids k t ex (rw e at f) h.1
  ]

  -- How many entries wait in the queues.
  abbrev pub queued : DbExecutorsTable E → ℕ
  queued [] = 0
  queued ((id, t) ∷ ex) = length t.queries + queued ex

  pub queued-set_new :
      (k : ℕ) (ex : DbExecutorsTable E)
      → find k ex ≡ none
      → queued (set k start_thread ex) ≡ queued ex
  unfolding find set
  queued-set_new k [] n = omega arith
  queued-set_new k ((j, w) ∷ ex) n = ground (arith, queued-set_new k ex)

  pub queued-set_old :
      (k : ℕ) (t v : DbThread E) (ex : DbExecutorsTable E)
      → find k ex ≡ some t
      → queued (set k v ex) + length t.queries ≡ queued ex + length v.queries
  unfolding find set
  queued-set_old k t v [] f = absurd (ground (arith, f))
  queued-set_old k t v ((j, w) ∷ ex) f = elim (Bool-cases (j == k)) [
    | inl e ↦
        let same : w ≡ t = some_eq (rw e at f) in
        rw e (omega (arith, ap (λ (u : DbThread E). length u.queries) same))
    | inr e ↦ rw e (omega (arith, queued-set_old k t v ex (rw e at f)))
  ]
