-- ===== src/OrderedMap.antt =====
-- std::map, as percona_playback/plugin.h and percona_playback/simple_report/simple_report.cc use it:
-- the pairs in the order of their keys; `insert` leaves a key that is there as it is.
pub mod Laws
use query_playback.Prelude.{
  ℕ, ◌≡◌, Bool, true, false, List, [], ◌∷◌, Option, none, some, map, All, ltb, if◌then◌else◌, arith,
}
use query_playback.Text.{Bytes, is_before}
use query_playback.Text.Before.{is_before_irrefl, is_before_trans, is_before_total}

-- The order of the keys: `operator<` of their type, and the laws of a strict total order.
pub record KeyOrder (K : Type 0) : Type 0 where
  pub before : K → K → Bool
  pub irrefl : (a : K) → before a a ≡ false
  pub trans : (a b c : K) → before a b ≡ true → before b c ≡ true → before a c ≡ true
  pub total : (a b : K) → before a b ≡ false → before b a ≡ false → a ≡ b

pub ltb_irrefl : (a : ℕ) → ltb a a ≡ false
ltb_irrefl a = ground arith

pub ltb_trans : (a b c : ℕ) → ltb a b ≡ true → ltb b c ≡ true → ltb a c ≡ true
ltb_trans a b c h k = ground arith

pub ltb_total : (a b : ℕ) → ltb a b ≡ false → ltb b a ≡ false → a ≡ b
ltb_total a b h k = ground arith

instance abbrev pub nat_order : KeyOrder ℕ
nat_order = record { before = ltb; irrefl = ltb_irrefl; trans = ltb_trans; total = ltb_total }

instance abbrev pub bytes_order : KeyOrder Bytes
bytes_order = record {
  before = is_before;
  irrefl = is_before_irrefl;
  trans = is_before_trans;
  total = is_before_total;
}

module _ {K A : Type 0} ⦃o : KeyOrder K⦄ where
  unfoldable pub insert : K → A → List (K × A) → List (K × A)
  insert k a [] = (k, a) ∷ []
  insert k a ((l, b) ∷ m) =
      let rest = insert k a m in
      if o.before k l
      then (k, a) ∷ (l, b) ∷ m
      else if o.before l k
      then (l, b) ∷ rest
      else (l, b) ∷ m

  unfoldable pub lookup : K → List (K × A) → Option A
  lookup k [] = none
  lookup k ((l, b) ∷ m) =
      let rest = lookup k m in if o.before k l then rest else if o.before l k then rest else some b

  -- The inserts of a sequence, one after another.
  unfoldable pub insert_all : List (K × A) → List (K × A) → List (K × A)
  unfolding insert
  insert_all [] m = m
  insert_all ((k, a) ∷ kas) m = insert_all kas (insert k a m)

  -- Each key is before all those that follow it.
  pub data Ascends : List (K × A) → Type 0 where
    nil : Ascends []
    cons :
        {k : K} {a : A} {m : List (K × A)}
        → All (λ p. o.before k p.0 ≡ true) m
        → Ascends m
        → Ascends ((k, a) ∷ m)
