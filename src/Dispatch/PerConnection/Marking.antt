-- ===== src/Dispatch/PerConnection/Marking.antt =====
-- What an input plugin's setShutdownOnLastQueryOfConn has to achieve for the dispatcher: the
-- condition on the list of its entries, and that it is the one on each connection.
use query_playback.Prelude.{
  contains, ℕ, ◌≡◌, ◌⊎◌, inl, inr, refl, ap, ◌∙◌, sym, subst, Bool, true, false, not, List, [], ◌∷◌,
  map, ◌==◌, Bool-cases, arith,
}
use query_playback.Dispatch.PerConnection.Steps.{of_conn, ShutsLast}

module _ {E : Type 0} (thread_id : E → ℕ) (is_shutdown : E → Bool) where
  -- An entry shuts down exactly where no later one has its thread id.
  abbrev pub MarksLast : List E → Type 0
  MarksLast [] = Unit
  MarksLast (e ∷ es) =
      (is_shutdown e ≡ not (contains (map thread_id es) (thread_id e))) × MarksLast es

  abbrev Ends : ℕ → List E → Type 0
  Ends id es =
      ((f : E) × (fs : List E) × (contains (map thread_id es) id ≡ true)
        × (of_conn thread_id id es ≡ f ∷ fs)
        × ShutsLast is_shutdown (f ∷ fs))
      ⊎ ((contains (map thread_id es) id ≡ false) × (of_conn thread_id id es ≡ []))

  MarksLast-Ends : (id : ℕ) (es : List E) → MarksLast es → Ends id es
  MarksLast-Ends id [] h = inr (refl, refl)
  MarksLast-Ends id (e ∷ es) h =
      let later = MarksLast-Ends id es h.1 in
      elim (Bool-cases (thread_id e == id)) [
        | inl own ↦
            let same : thread_id e ≡ id = ground arith in
            elim later [
              | inl (f, fs, c, o, s) ↦
                  let goes_on : is_shutdown e ≡ false = h.0 ∙ (rw (same, c)) in
                  inl
                    (e, f ∷ fs, rw own refl, rw own (ap (λ (xs : List E). e ∷ xs) o), (goes_on, s))
              | inr (c, o) ↦
                  let stops : is_shutdown e ≡ true = h.0 ∙ (rw (same, c)) in
                  inl (e, [], rw own refl, rw own (ap (λ (xs : List E). e ∷ xs) o), stops)
            ]
        | inr other ↦ elim later [
          | inl (f, fs, c, o, s) ↦ inl (f, fs, rw other c, rw other o, s)
          | inr (c, o) ↦ inr (rw other c, rw other o)
        ]
      ]

  pub MarksLast-ShutsLast :
      (es : List E) → MarksLast es → (id : ℕ) → ShutsLast is_shutdown (of_conn thread_id id es)
  MarksLast-ShutsLast es h id = elim (MarksLast-Ends id es h) [
    | inl (f, fs, c, o, s) ↦ subst (λ (xs : List E). ShutsLast is_shutdown xs) (sym o) s
    | inr (c, o) ↦ subst (λ (xs : List E). ShutsLast is_shutdown xs) (sym o) tt
  ]
