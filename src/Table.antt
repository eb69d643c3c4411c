-- ===== src/Table.antt =====
-- A map from a thread id to a value, as the dispatcher of
-- percona_playback/thread_per_connection and the simple report use one (boost::unordered_map,
-- tbb::concurrent_unordered_map): a list of pairs with one pair for a key.
use query_playback.Prelude.{
  ℕ, ◌≡◌, refl, Bool, List, [], ◌∷◌, Option, none, some, inl, inr, select, ◌==◌, if◌then◌else◌,
  Bool-cases, arith,
}

module _ {ℓ} {V : Type ℓ} where
  unfoldable pub find : ℕ → List (ℕ × V) → Option V
  find k [] = none
  find k ((j, v) ∷ t) = if j == k then some v else find k t

  unfoldable pub set : ℕ → V → List (ℕ × V) → List (ℕ × V)
  set k v [] = (k, v) ∷ []
  set k v ((j, w) ∷ t) = if j == k then (j, v) ∷ t else (j, w) ∷ set k v t

  abbrev pub IsUnique : List (ℕ × V) → Type ℓ
  IsUnique [] = Unit
  IsUnique ((j, v) ∷ t) = (find j t ≡ none) × IsUnique t

  pub find-set :
      (k j : ℕ) (v : V) (t : List (ℕ × V))
      → find j (set k v t) ≡ (if k == j then some v else find j t)
  unfolding find set
  find-set k j v [] = refl
  find-set k j v ((i, w) ∷ t) = ground (arith, find-set k j v t)

  pub set-IsUnique : (k : ℕ) (v : V) (t : List (ℕ × V)) → IsUnique t → IsUnique (set k v t)
  unfolding find set
  set-IsUnique k v [] u = (refl, tt)
  set-IsUnique k v ((i, w) ∷ t) u = elim (Bool-cases (i == k)) [
    | inl e ↦ rw e u
    | inr e ↦ rw e (ground (arith, find-set k i v t), set-IsUnique k v t u.1)
  ]

  -- What `keep` refuses is erased.
  abbrev pub retain : (ℕ × V → Bool) → List (ℕ × V) → List (ℕ × V)
  retain keep t = select keep t

  find-retain-none :
      (keep : ℕ × V → Bool) (k : ℕ) (t : List (ℕ × V))
      → find k t ≡ none
      → find k (retain keep t) ≡ none
  unfolding find
  find-retain-none keep k [] h = refl
  find-retain-none keep k ((j, v) ∷ t) h = ground (arith, find-retain-none keep k t)

  abbrev pub kept : (ℕ × V → Bool) → ℕ → Option V → Option V
  kept keep k none = none
  kept keep k (some v) = if keep (k, v) then some v else none

  pub find-retain :
      (keep : ℕ × V → Bool) (k : ℕ) (t : List (ℕ × V))
      → IsUnique t
      → find k (retain keep t) ≡ kept keep k (find k t)
  unfolding find
  find-retain keep k [] u = refl
  find-retain keep k ((j, v) ∷ t) u = elim (Bool-cases (j == k)) [
    | inl e ↦
        let same : j ≡ k = ground arith in
        let gone : find k t ≡ none = rw (← same) u.0 in
        ground (arith, find-retain-none keep k t gone)
    | inr e ↦ ground (arith, find-retain keep k t u.1)
  ]

  pub retain-IsUnique :
      (keep : ℕ × V → Bool) (t : List (ℕ × V)) → IsUnique t → IsUnique (retain keep t)
  retain-IsUnique keep [] u = tt
  retain-IsUnique keep ((j, v) ∷ t) u = elim (Bool-cases (keep (j, v))) [
    | inl e ↦ rw e (find-retain-none keep j t u.0, retain-IsUnique keep t u.1)
    | inr e ↦ rw e (retain-IsUnique keep t u.1)
  ]
