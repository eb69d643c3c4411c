-- ===== src/Client/Mysql/Query.antt =====
-- What `execute_query` gives, with no init query.
use query_playback.Prelude.{
  ℕ, zero, suc, ◌+◌, ◌*◌, ◌%◌, ◌^◌, ◌==◌, not, List, ◌<◌, ◌≡◌, ◌⊎◌, refl, ap, ◌∙◌, Bool, true,
  false, [], ◌∷◌, Option, none, some, if◌then◌else◌, Bool-cases, inl, inr, arith,
}
use query_playback.Prelude.Int.{is_zero, ℤ, pos}
use query_playback.Text.{Bytes}
use query_playback.Result.{QueryResult, query_result}
use query_playback.Client.Mysql.{
  MysqlOptions, Libmysql, MysqlThread, Answer, Refused, passes_filter, print_error,
  should_print_error, sleep, disconnect, connect, after_failure, rows_after, continue_with,
  init_after, connected, try_query, tries, execute_query,
}

abbrev pub has_rows : List (Option ℕ) → Bool
has_rows [] = false
has_rows (none ∷ sets) = has_rows sets
has_rows (some n ∷ sets) = true

abbrev pub rows_in : Option ℕ → ℕ
rows_in none = 0
rows_in (some n) = n

-- The number of rows of the last of the result sets that there are, or 0.
abbrev pub last_rows : List (Option ℕ) → ℕ
last_rows [] = 0
last_rows (set ∷ sets) = if has_rows sets then last_rows sets else rows_in set

rows_after-last_rows :
    (rows : ℕ) (sets : List (Option ℕ))
    → rows_after rows sets ≡ (if has_rows sets then last_rows sets else rows)
rows_after-last_rows rows [] = refl
rows_after-last_rows rows (none ∷ sets) = elim (Bool-cases (has_rows sets)) [
  | inl e ↦ rows_after-last_rows rows sets ∙ rw e refl
  | inr e ↦ rows_after-last_rows rows sets ∙ rw e refl
]
rows_after-last_rows rows (some n ∷ sets) = rows_after-last_rows n sets

last_rows-none : (sets : List (Option ℕ)) → has_rows sets ≡ false → last_rows sets ≡ 0
last_rows-none [] h = refl
last_rows-none (none ∷ sets) h = rw h refl
last_rows-none (some n ∷ sets) h = absurd cc

rows_after-zero : (sets : List (Option ℕ)) → rows_after 0 sets ≡ last_rows sets
rows_after-zero sets = elim (Bool-cases (has_rows sets)) [
  | inl e ↦ rows_after-last_rows 0 sets ∙ rw e refl
  | inr e ↦ rows_after-last_rows 0 sets ∙ rw (e, last_rows-none sets e) refl
]

module _ {W : Type 0} (lib : Libmysql W) (o : MysqlOptions) where
  -- The filter for errors lets this one through.
  abbrev pub lets_through : Bytes → Option Bytes → Bool
  lets_through error none = true
  lets_through error (some regex) = not (lib.regex_search error regex)

  -- The world after the sleep of round `i`, which only a server with too many connections gets.
  abbrev pub world_slept : ℕ → Refused → W → W
  world_slept i e w = if e.errno == 1203 then (lib.usleep (1_000_000 * i) w).1 else w

  -- The thread behind a query that failed in round `i`: the error is among those printed unless it is
  -- filtered out, and there is no connection, which has been closed where there was one.
  abbrev pub disconnected : ℕ → Refused → MysqlThread W → MysqlThread W
  disconnected i e s =
      let w = world_slept i e s.world in
      record s {
        world = if s.have_connected then lib.close w else w;
        have_connected = false;
        printed =
            if lets_through e.error o.filter_error_regex then e.error ∷ s.printed else s.printed;
      }

  passes_filter-lets_through :
      (regex : Option Bytes) (error : Bytes)
      → passes_filter lib o regex error ≡ lets_through error regex
  passes_filter-lets_through none error = refl
  passes_filter-lets_through (some regex) error = refl

  print_error_lem :
      (error : Bytes) (s : MysqlThread W)
      → print_error lib o error s ≡ (record s {
        printed = if lets_through error o.filter_error_regex then error ∷ s.printed else s.printed;
      })
  unfolding print_error should_print_error
  print_error_lem error s = elim (Bool-cases (lets_through error o.filter_error_regex)) [
    | inl p ↦ rw (passes_filter-lets_through o.filter_error_regex error, p) refl
    | inr p ↦ rw (passes_filter-lets_through o.filter_error_regex error, p) refl
  ]

  after_failure-disconnected :
      (i : ℕ) (e : Refused) (s : MysqlThread W) → after_failure lib o i e s ≡ disconnected i e s
  unfolding after_failure sleep disconnect
  after_failure-disconnected i e s = elim (Bool-cases (e.errno == 1203)) [
    | inl f ↦ rw (f, print_error_lem e.error s) refl
    | inr f ↦ rw (f, print_error_lem e.error s) refl
  ]

  -- The first round that succeeds, of the rounds that are left, with the thread behind it, or
  -- behind the last round where none succeeds.
  abbrev pub first_success : Bytes → ℕ → ℕ → MysqlThread W → Option Answer × MysqlThread W
  first_success query zero i s = (none, s)
  first_success query (suc left) i s =
      let (a, w) = lib.real_query query s.world in
      let s1 : MysqlThread W = record s { world = w } in
      let later =
        first_success query left (i + 1) (connect lib o (disconnected i a.refused s1)).1 in
      if is_zero a.returned then (some a, s1) else later

  abbrev pub Finishes : Option Answer × MysqlThread W → QueryResult × MysqlThread W → Type 0
  Finishes (none, t) (r, u) =
      (is_zero r.error ≡ false) × (r ≡ (record query_result { error = r.error })) × (u ≡ t)
  Finishes (some a, t) (r, u) =
      (r ≡ (record query_result {
        error = a.returned;
        warning_count = a.warnings;
        rows_sent = last_rows (a.first ∷ a.others);
      }))
      × (u ≡ t)

  try_query-Finishes :
      (query : Bytes) (reconnect : MysqlThread W → Option (MysqlThread W))
      → ((t : MysqlThread W) → reconnect t ≡ some (connect lib o t).1)
      → (left i : ℕ) (e : ℤ) (s : MysqlThread W) → (is_zero e ≡ false) ⊎ (0 < left)
      → (out : QueryResult × MysqlThread W) × (try_query lib o reconnect left i query
            (record query_result { error = e })
            s
          ≡ some out)
        × Finishes (first_success query left i s) out
  unfolding try_query
  try_query-Finishes query reconnect back zero i e s h = (
    (record query_result { error = e }, s),
    refl,
    elim h [ inl failed ↦ (failed, refl, refl) | inr some_left ↦ absurd (omega arith) ],
  )
  try_query-Finishes query reconnect back (suc left) i e s h =
      let (a, w) = lib.real_query query s.world in
      let s1 : MysqlThread W = record s { world = w } in
      let t = disconnected i a.refused s1 in
      elim (Bool-cases (is_zero a.returned)) [
        | inl z ↦ (
          (
            record query_result {
              error = a.returned;
              warning_count = a.warnings;
              rows_sent = rows_after 0 (a.first ∷ a.others);
            },
            s1,
          ),
          rw z refl,
          rw (z, rows_after-zero (a.first ∷ a.others)) (refl, refl),
        )
        | inr z ↦
            let (out, runs, fin) =
              try_query-Finishes query reconnect back left (i + 1) a.returned (connect lib o t).1
                (inl z) in
            (out, rw (z, after_failure-disconnected i a.refused s1, back t) runs, rw z fin)
      ]

  init_after-empty :
      (execute : Bytes → MysqlThread W → Option (QueryResult × MysqlThread W))
      (c : Bool × MysqlThread W)
      → init_after lib o [] execute c ≡ some c.1
  init_after-empty execute (true, t) = refl
  init_after-empty execute (false, t) = refl

  if-some :
      {A : Type 0} (b : Bool) (x y : A) → (if b then some x else some y) ≡ some (if b then x else y)
  if-some true x y = refl
  if-some false x y = refl

  -- The connection on which the first round runs.
  abbrev pub start_of : MysqlThread W → MysqlThread W
  start_of s = if s.have_connected then s else (connect lib o s).1

  -- `max_retries + 1`, an unsigned int.
  abbrev pub rounds : ℕ
  rounds = (o.max_retries + 1) % 2 ^ 32

  -- With no init query, and unless `max_retries + 1` wraps around to 0, `execute_query` returns,
  -- at any depth but 0. It makes at most `max_retries + 1` rounds. Behind each that fails it prints
  -- the error unless that is filtered out, sleeps where the server has too many connections, closes
  -- the connection where there is one, and tries to connect again. The first round that succeeds
  -- gives the result: its warnings, and the rows of the last of its result sets, or 0. Where none of
  -- the rounds succeeds, the result carries an error, no warnings and no rows.
  pub execute_query-Finishes :
      0 < rounds
      → (depth : ℕ) (query : Bytes) (s : MysqlThread W)
      → (out : QueryResult × MysqlThread W) × (execute_query lib o [] (suc depth) query s
          ≡ some out)
        × Finishes (first_success query rounds 0 (start_of s)) out
  unfolding execute_query
  execute_query-Finishes some_try depth query s =
      let execute : Bytes → MysqlThread W → Option (QueryResult × MysqlThread W) =
        λ q u. execute_query lib o [] depth q u in
      let reconnect : MysqlThread W → Option (MysqlThread W) =
        λ t. init_after lib o [] execute (connect lib o t) in
      let back : (t : MysqlThread W) → reconnect t ≡ some (connect lib o t).1 =
        λ t. init_after-empty execute (connect lib o t) in
      let (out, runs, fin) =
        try_query-Finishes query reconnect back (tries lib o) 0 (pos 0) (start_of s)
          (inr some_try) in
      let begun : connected lib o [] reconnect s ≡ some (start_of s) =
        ap (λ (x : Option (MysqlThread W)). if s.have_connected then some s else x) (back s)
        ∙ if-some s.have_connected s (connect lib o s).1 in
      (
        out,
        ap
              (λ (x : Option (MysqlThread W)).
                continue_with lib o x
                  (λ t. try_query lib o reconnect (tries lib o) 0 query query_result t))
              begun
            ∙ runs,
        fin,
      )
