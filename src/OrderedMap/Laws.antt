-- ===== src/OrderedMap/Laws.antt =====
-- `insert` keeps the order of the keys, and the first value that a key was given.
use query_playback.Prelude.{
  ◌≡◌, ◌⊎◌, refl, true, false, List, [], ◌∷◌, Option, none, some, All, Bool-cases, inl, inr,
}
use query_playback.OrderedMap.{KeyOrder, insert, lookup, insert_all, Ascends, nil, cons}

abbrev pub or_some : {A : Type 0} → Option A → Option A → Option A
or_some none b = b
or_some (some a) b = some a

or_some-none : {A : Type 0} (x : Option A) → or_some x none ≡ x
or_some-none none = refl
or_some-none (some a) = refl

or_some_assoc : {A : Type 0} (x y z : Option A) → or_some (or_some x y) z ≡ or_some x (or_some y z)
or_some_assoc none y z = refl
or_some_assoc (some a) y z = refl

module _ {K A : Type 0} ⦃o : KeyOrder K⦄ where
  abbrev IsAfter : K → K × A → Type 0
  IsAfter k p = o.before k p.0 ≡ true

  IsAfter-trans :
      (k l : K) (m : List (K × A)) → o.before k l ≡ true → All (IsAfter l) m → All (IsAfter k) m
  IsAfter-trans k l [] h all = tt
  IsAfter-trans k l ((n, b) ∷ m) h (first, rest) =
      (o.trans k l n h first, IsAfter-trans k l m h rest)

  insert-IsAfter :
      (l k : K) (a : A) (m : List (K × A))
      → o.before l k ≡ true
      → All (IsAfter l) m
      → All (IsAfter l) (insert k a m)
  unfolding insert
  insert-IsAfter l k a [] h all = (h, tt)
  insert-IsAfter l k a ((n, b) ∷ m) h (first, rest) =
      let more = insert-IsAfter l k a m h rest in
      elim (Bool-cases (o.before k n)) [
        | inl e ↦ rw e (h, (first, rest))
        | inr e ↦ elim (Bool-cases (o.before n k)) [
          | inl f ↦ rw (e, f) (first, more)
          | inr f ↦ rw (e, f) (first, rest)
        ]
      ]

  pub insert-Ascends : (k : K) (a : A) (m : List (K × A)) → Ascends m → Ascends (insert k a m)
  unfolding insert
  insert-Ascends k a [] nil = cons tt nil
  insert-Ascends k a ((l, b) ∷ m) (cons all asc) = elim (Bool-cases (o.before k l)) [
    | inl e ↦ rw e (cons (e, IsAfter-trans k l m e all) (cons all asc))
    | inr e ↦ elim (Bool-cases (o.before l k)) [
      | inl f ↦ rw (e, f) (cons (insert-IsAfter l k a m f all) (insert-Ascends k a m asc))
      | inr f ↦ rw (e, f) (cons all asc)
    ]
  ]

  pub insert_all-Ascends : (kas m : List (K × A)) → Ascends m → Ascends (insert_all kas m)
  unfolding insert_all
  insert_all-Ascends [] m asc = asc
  insert_all-Ascends ((k, a) ∷ kas) m asc =
      insert_all-Ascends kas (insert k a m) (insert-Ascends k a m asc)

  lookup-IsAfter : (k : K) (m : List (K × A)) → All (IsAfter k) m → lookup k m ≡ none
  unfolding lookup
  lookup-IsAfter k [] all = refl
  lookup-IsAfter k ((l, b) ∷ m) (first, rest) = rw (first, lookup-IsAfter k m rest)

  pub lookup-here : (k : K) (a : A) (m : List (K × A)) → lookup k ((k, a) ∷ m) ≡ some a
  unfolding lookup
  lookup-here k a m = rw (o.irrefl k)

  -- A key is passed over, or it is the one that is looked for.
  pub lookup-cons :
      (l k : K) → ((a : A) (m : List (K × A)) → lookup l ((k, a) ∷ m) ≡ lookup l m) ⊎ (l ≡ k)
  unfolding lookup
  lookup-cons l k = elim (Bool-cases (o.before l k)) [
    | inl e ↦ inl (λ a m. rw e)
    | inr e ↦ elim (Bool-cases (o.before k l)) [
      | inl f ↦ inl (λ a m. rw (e, f))
      | inr f ↦ inr (o.total l k e f)
    ]
  ]

  module _ (k n : K) (a b : A) (m : List (K × A)) where
    insert-before : o.before k n ≡ true → insert k a ((n, b) ∷ m) ≡ (k, a) ∷ (n, b) ∷ m
    unfolding insert
    insert-before e = rw e

    insert-further :
        o.before k n ≡ false → o.before n k ≡ true → insert k a ((n, b) ∷ m) ≡ (n, b) ∷ insert k a m
    unfolding insert
    insert-further e f = rw (e, f)

    insert-again :
        o.before k n ≡ false → o.before n k ≡ false → insert k a ((n, b) ∷ m) ≡ (n, b) ∷ m
    unfolding insert
    insert-again e f = rw (e, f)

  pub lookup-nil : (l : K) → lookup {A = A} l [] ≡ none
  unfolding lookup
  lookup-nil l = refl

  lookup-insert :
      (l k : K) (a : A) (m : List (K × A))
      → Ascends m
      → lookup l (insert k a m) ≡ or_some (lookup l m) (lookup l ((k, a) ∷ []))
  lookup-insert l k a [] nil = unfold lookup insert in refl
  lookup-insert l k a ((n, b) ∷ m) (cons all asc) = elim (Bool-cases (o.before k n)) [
    | inl e ↦ elim (lookup-cons l k) [
      | inl apart ↦ rw (
        insert-before k n a b m e,
        apart a ((n, b) ∷ m),
        apart a [],
        lookup-nil l,
        or_some-none (lookup l ((n, b) ∷ m)),
      )
      | inr same ↦ rw (
        same,
        insert-before k n a b m e,
        lookup-here k a ((n, b) ∷ m),
        lookup-here k a [],
        lookup-IsAfter k ((n, b) ∷ m) (e, IsAfter-trans k n m e all),
      )
    ]
    | inr e ↦ elim (Bool-cases (o.before n k)) [
      | inl f ↦ elim (lookup-cons l n) [
        | inl apart ↦
            rw (insert-further k n a b m e f, apart b (insert k a m), apart b m)
              (lookup-insert l k a m asc)
        | inr same ↦
            rw (
              same,
              insert-further k n a b m e f,
              lookup-here n b (insert k a m),
              lookup-here n b m,
            )
      ]
      | inr f ↦ elim (lookup-cons l n) [
        | inl apart ↦ rw (
          insert-again k n a b m e f,
          o.total k n e f,
          apart a [],
          lookup-nil l,
          or_some-none (lookup l ((n, b) ∷ m)),
        )
        | inr same ↦ rw (same, insert-again k n a b m e f, lookup-here n b m)
      ]
    ]
  ]

  lookup-head :
      (l k : K) (a : A) (kas : List (K × A))
      → lookup l ((k, a) ∷ kas) ≡ or_some (lookup l ((k, a) ∷ [])) (lookup l kas)
  lookup-head l k a kas = elim (lookup-cons l k) [
    | inl apart ↦ rw (apart a kas, apart a [], lookup-nil l)
    | inr same ↦ rw (same, lookup-here k a kas, lookup-here k a [])
  ]

  -- What stands under a key after a sequence of inserts: what stood there, or else the first value
  -- of the sequence.
  pub lookup-insert_all :
      (l : K) (kas m : List (K × A))
      → Ascends m
      → lookup l (insert_all kas m) ≡ or_some (lookup l m) (lookup l kas)
  unfolding insert_all
  lookup-insert_all l [] m asc = rw (lookup-nil l, or_some-none (lookup l m))
  lookup-insert_all l ((k, a) ∷ kas) m asc = rw (
    lookup-insert_all l kas (insert k a m) (insert-Ascends k a m asc),
    lookup-insert l k a m asc,
    lookup-head l k a kas,
    or_some_assoc (lookup l m) (lookup l ((k, a) ∷ [])) (lookup l kas),
  )
