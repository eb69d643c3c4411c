-- ===== src/Report/Full/Categories.antt =====
-- What the full report counts under each kind of statement.
use query_playback.Prelude.{
  ℕ, ◌+◌, ◌<◌, ◌≡◌, refl, ◌∙◌, Bool, true, false, not, ◌&&◌, List, [], ◌∷◌, length, if◌then◌else◌,
  Bool-cases, inl, inr, arith,
}
use query_playback.Prelude.Int.{is_zero, ltb_ℤ}
use query_playback.Text.{Bytes, codes}
use query_playback.Prelude.Occurrences.{count, count-le}
use query_playback.Report.Full.Letters.{holds_word, contains-to_upper}
use query_playback.Report.{word_mod, add_word, Execution}
use query_playback.Report.Full.{
  Tally, FullReport, full_report, to_upper, word_of, tally, contains, add_times, count_statement,
  query_execution,
}

pub data Kind : Type 0 where
  select_kind : Kind
  update_kind : Kind
  insert_kind : Kind
  delete_kind : Kind
  replace_kind : Kind
  drop_kind : Kind

abbrev pub word : Kind → Bytes
word select_kind = codes "SELECT "
word update_kind = codes "UPDATE "
word insert_kind = codes "INSERT "
word delete_kind = codes "DELETE "
word replace_kind = codes "REPLACE "
word drop_kind = codes "DROP "

abbrev pub tally_of : Kind → FullReport → Tally
tally_of select_kind r = r.selects
tally_of update_kind r = r.updates
tally_of insert_kind r = r.inserts
tally_of delete_kind r = r.deletes
tally_of replace_kind r = r.replaces
tally_of drop_kind r = r.drops

-- The kinds whose words are looked for first.
abbrev pub before : Kind → List Kind
before select_kind = []
before update_kind = select_kind ∷ []
before insert_kind = select_kind ∷ update_kind ∷ []
before delete_kind = select_kind ∷ update_kind ∷ insert_kind ∷ []
before replace_kind = select_kind ∷ update_kind ∷ insert_kind ∷ delete_kind ∷ []
before drop_kind = select_kind ∷ update_kind ∷ insert_kind ∷ delete_kind ∷ replace_kind ∷ []

abbrev any_of : Bytes → List Kind → Bool
any_of q [] = false
any_of q (k ∷ ks) = if contains (word k) q then true else any_of q ks

abbrev pub any_held : Bytes → List Kind → Bool
any_held q [] = false
any_held q (k ∷ ks) = if holds_word q (word k) then true else any_held q ks

-- The query holds the word of this kind and none of the kinds before it.
abbrev pub is_kind : Kind → Execution → Bool
is_kind k x = holds_word x.query (word k) && not (any_held x.query (before k))

contains-word : (k : Kind) (q : Bytes) → contains (word k) (to_upper q) ≡ holds_word q (word k)
contains-word select_kind q = contains-to_upper q (word select_kind) refl
contains-word update_kind q = contains-to_upper q (word update_kind) refl
contains-word insert_kind q = contains-to_upper q (word insert_kind) refl
contains-word delete_kind q = contains-to_upper q (word delete_kind) refl
contains-word replace_kind q = contains-to_upper q (word replace_kind) refl
contains-word drop_kind q = contains-to_upper q (word drop_kind) refl

any_of-any_held : (q : Bytes) (ks : List Kind) → any_of (to_upper q) ks ≡ any_held q ks
any_of-any_held q [] = refl
any_of-any_held q (k ∷ ks) = rw (contains-word k q, any_of-any_held q ks) refl

tally_of-count_statement :
    (k : Kind) (q : Bytes) (f s : ℕ) (r : FullReport)
    → tally_of k (count_statement q f s r) ≡ (
        if contains (word k) q && not (any_of q (before k))
        then tally f s (tally_of k r)
        else tally_of k r)
unfolding count_statement
tally_of-count_statement select_kind q f s r = ground arith
tally_of-count_statement update_kind q f s r = ground arith
tally_of-count_statement insert_kind q f s r = ground arith
tally_of-count_statement delete_kind q f s r = ground arith
tally_of-count_statement replace_kind q f s r = ground arith
tally_of-count_statement drop_kind q f s r = ground arith

-- The report after the queries of a list, the last one first in the list.
abbrev pub report_of : List Execution → FullReport
report_of [] = full_report
report_of (x ∷ xs) = query_execution x (report_of xs)

tally_of-add_times :
    (k : Kind) (x : Execution) (r : FullReport) → tally_of k (add_times x r) ≡ tally_of k r
unfolding add_times
tally_of-add_times select_kind x r = refl
tally_of-add_times update_kind x r = refl
tally_of-add_times insert_kind x r = refl
tally_of-add_times delete_kind x r = refl
tally_of-add_times replace_kind x r = refl
tally_of-add_times drop_kind x r = refl

abbrev pub is_quicker : Execution → Bool
is_quicker x = not (is_zero x.expected.duration) && ltb_ℤ x.actual.duration x.expected.duration

abbrev pub is_slower : Execution → Bool
is_slower x = not (is_zero x.expected.duration) && not (ltb_ℤ x.actual.duration x.expected.duration)

tally_of-query_execution :
    (k : Kind) (x : Execution) (r : FullReport)
    → tally_of k (query_execution x r) ≡ (
        if is_kind k x
        then tally (word_of (is_quicker x)) (word_of (is_slower x)) (tally_of k r)
        else tally_of k r)
unfolding query_execution
tally_of-query_execution k x r =
    tally_of-count_statement k (to_upper x.query) (word_of (is_quicker x)) (word_of (is_slower x))
      (add_times x r)
    ∙ rw (tally_of-add_times k x r, contains-word k x.query, any_of-any_held x.query (before k))
        refl

count-both :
    (p q : Execution → Bool) (x : Execution) (xs : List Execution)
    → length xs + 1 < word_mod
    → p x ≡ true
    → add_word (count (λ y. p y && q y) xs) (word_of (q x)) ≡ count (λ y. p y && q y) (x ∷ xs)
count-both p q x xs h e =
    let few = count-le (λ y. p y && q y) xs in
    elim (Bool-cases (q x)) [ inl f ↦ rw (e, f) (omega arith) | inr f ↦ rw (e, f) (omega arith) ]

abbrev pub tallied : (p quick slow : Execution → Bool) → List Execution → Tally
tallied p quick slow xs = record {
  nr = count p xs;
  nr_faster = count (λ x. p x && quick x) xs;
  nr_slower = count (λ x. p x && slow x) xs;
}

abbrev tally_with : ℕ → ℕ → ℕ → Tally
tally_with a b c = record { nr = a; nr_faster = b; nr_slower = c }

Tally-eq : {a b c a2 b2 c2 : ℕ} → a ≡ a2 → b ≡ b2 → c ≡ c2 → tally_with a b c ≡ tally_with a2 b2 c2
Tally-eq p q r = rw (p, q, r) refl

if-yes : (b : Bool) (s t : Tally) → b ≡ true → (if b then s else t) ≡ s
if-yes b s t e = rw e refl

tallied-step :
    (p quick slow : Execution → Bool) (x : Execution) (xs : List Execution)
    → length xs + 1 < word_mod
    → (if p x
        then tally (word_of (quick x)) (word_of (slow x)) (tallied p quick slow xs)
        else tallied p quick slow xs)
      ≡ tallied p quick slow (x ∷ xs)
unfolding tally
tallied-step p quick slow x xs h = elim (Bool-cases (p x)) [
  | inl e ↦
      let few = count-le p xs in
      let first : add_word (count p xs) 1 ≡ count p (x ∷ xs) = rw e (omega arith) in
      if-yes (p x) (tally (word_of (quick x)) (word_of (slow x)) (tallied p quick slow xs))
        (tallied p quick slow xs) e
      ∙ Tally-eq first (count-both p quick x xs h e) (count-both p slow x xs h e)
  | inr e ↦ rw e refl
]

-- While fewer than 2^64 queries have been executed, the three counters of a kind of statement are the
-- number of the queries that hold its word, in any case of the letters, and no word of an earlier
-- kind, and the numbers of those that ran quicker and not quicker than the log says.
pub tally_of-report_of :
    (k : Kind) (xs : List Execution)
    → length xs < word_mod
    → tally_of k (report_of xs)
      ≡ tallied (λ x. is_kind k x) (λ x. is_quicker x) (λ x. is_slower x) xs
tally_of-report_of select_kind [] h = refl
tally_of-report_of update_kind [] h = refl
tally_of-report_of insert_kind [] h = refl
tally_of-report_of delete_kind [] h = refl
tally_of-report_of replace_kind [] h = refl
tally_of-report_of drop_kind [] h = refl
tally_of-report_of k (x ∷ xs) h =
    tally_of-query_execution k x (report_of xs)
    ∙ rw (tally_of-report_of k xs (omega arith))
        (tallied-step (λ y. is_kind k y) (λ y. is_quicker y) (λ y. is_slower y) x xs (omega arith))
