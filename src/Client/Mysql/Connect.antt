-- ===== src/Client/Mysql/Connect.antt =====
-- How often `connect` tries.
use query_playback.Prelude.Int.{is_zero}
use query_playback.Prelude.{
  ℕ, zero, suc, ◌+◌, ◌-◌, ◌*◌, ◌≤◌, ◌≡◌, ◌⊎◌, refl, true, Option, none, some, if◌then◌else◌, ltb,
  Bool-cases, inl, inr, arith,
}
use query_playback.Text.{Bytes, is_empty}
use query_playback.Client.Mysql.{
  MysqlOptions, Libmysql, MysqlThread, Refused, error_of, too_many_connections, sleep, print_error,
  note_refusal, attempt, connect_from, connect,
}

Left-cases : (n : ℕ) → (n ≡ 0) ⊎ ((k : ℕ) × (n ≡ suc k))
Left-cases zero = inl refl
Left-cases (suc k) = inr (k, refl)

module _ {W : Type 0} (lib : Libmysql W) (o : MysqlOptions) where
  print_error_count :
      (error : Bytes) (s : MysqlThread W)
      → (print_error lib o error s).num_connect_errors ≡ s.num_connect_errors
  unfolding print_error
  print_error_count error s = ground arith

  note_refusal_count :
      (r : Option Refused) (s : MysqlThread W)
      → (note_refusal lib o r s).num_connect_errors ≤ s.num_connect_errors + 1
  note_refusal_count none s = omega arith
  note_refusal_count (some e) s =
      let same =
        print_error_count e.error (record s { num_connect_errors = s.num_connect_errors + 1 }) in
      omega arith

  attempt_count :
      (s : MysqlThread W) → (attempt lib o s).1.num_connect_errors ≤ s.num_connect_errors + 1
  unfolding attempt
  attempt_count s =
      note_refusal_count (lib.real_connect o s.world).0
        (record s { world = (lib.real_connect o s.world).1 })

  sleep_count :
      (us : ℕ) (s : MysqlThread W) → (sleep lib o us s).1.num_connect_errors ≡ s.num_connect_errors
  unfolding sleep
  sleep_count us s = refl

  connect_from_count :
      (left n : ℕ) (s : MysqlThread W)
      → (connect_from lib o left n s).1.num_connect_errors ≤ s.num_connect_errors + 1 + left
  unfolding connect_from
  connect_from_count zero n s = let h = attempt_count s in omega arith
  connect_from_count (suc left) n s =
      let h = attempt_count s in
      let a = attempt lib o s in
      let k = sleep_count (1_000_000 * n) a.1 in
      let t = (sleep lib o (1_000_000 * n) a.1).1 in
      let ih = connect_from_count left (n + 1) t in
      elim (Bool-cases (too_many_connections a.0)) [
        | inr e ↦ rw e (omega arith)
        | inl e ↦ elim (Bool-cases (is_zero (sleep lib o (1_000_000 * n) a.1).0)) [
          | inl z ↦ rw (e, z) (omega arith)
          | inr z ↦ rw (e, z) (omega arith)
        ]
      ]

  -- `connect` counts at most `max_retries` errors, and at most one where that is 0.
  pub connect_bounds :
      (s : MysqlThread W)
      → (connect lib o s).1.num_connect_errors
        ≤ s.num_connect_errors + (if ltb 0 o.max_retries then o.max_retries else 1)
  unfolding connect
  connect_bounds s = let h = connect_from_count (o.max_retries - 1) 1 s in ground (arith, h)

  connect_from_once :
      ((us : ℕ) (w : W) → is_zero (lib.usleep us w).0 ≡ true)
      → (left n : ℕ) (s : MysqlThread W)
      → ((connect_from lib o left n s).0 ≡ is_empty (error_of (attempt lib o s).0))
        × ((connect_from lib o left n s).1.num_connect_errors
            ≡ (attempt lib o s).1.num_connect_errors)
  unfolding connect_from sleep
  connect_from_once h zero n s = (refl, refl)
  connect_from_once h (suc left) n s =
      elim (Bool-cases (too_many_connections (attempt lib o s).0)) [
        | inr e ↦ rw e (refl, refl)
        | inl e ↦ rw (e, h (1_000_000 * n) (attempt lib o s).1.world) (refl, refl)
      ]

  -- Where usleep returns 0, as it does unless it is interrupted, `connect` tries only once, however
  -- many retries the options allow: its result and the count of errors are those of the first try.
  pub connect-once :
      ((us : ℕ) (w : W) → is_zero (lib.usleep us w).0 ≡ true)
      → (s : MysqlThread W)
      → ((connect lib o s).0 ≡ is_empty (error_of (attempt lib o s).0))
        × ((connect lib o s).1.num_connect_errors ≡ (attempt lib o s).1.num_connect_errors)
  unfolding connect
  connect-once h s = connect_from_once h (o.max_retries - 1) 1 s

  attempt-accepted :
      (s : MysqlThread W) → (lib.real_connect o s.world).0 ≡ none → (attempt lib o s).0 ≡ none
  unfolding attempt
  attempt-accepted s h = h

  -- A connection that the server takes at once.
  pub connect-succeeds :
      ((w : W) → (lib.real_connect o w).0 ≡ none) → (s : MysqlThread W) → (connect lib o s).0 ≡ true
  unfolding connect connect_from
  connect-succeeds h s = elim (Left-cases (o.max_retries - 1)) [
    | inl e ↦ rw (e, attempt-accepted s (h s.world))
    | inr (k, e) ↦ rw (e, attempt-accepted s (h s.world))
  ]
