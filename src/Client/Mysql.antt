-- ===== src/Client/Mysql.antt =====
-- MySQLDBThread of percona_playback/mysql_client/mysql_client.cc. libmysqlclient, usleep and
-- boost::regex_search are parameters that act on a state `W` of the world, the connection handle
-- included. `1000000 * num_tries` is taken without the overflow that it has from 2148 tries on.
pub mod Connect
pub mod Query
pub mod Init
pub mod Threads
pub mod Options
pub mod Settings
use query_playback.Prelude.{
  ℕ, zero, suc, ◌+◌, ◌-◌, ◌*◌, ◌%◌, ◌^◌, Bool, true, false, not, ◌&&◌, ◌||◌, List, [], ◌∷◌, Option,
  none, some, ◌==◌, if◌then◌else◌,
}
use query_playback.Prelude.Int.{is_zero, ℤ, pos, negsuc}
use query_playback.Text.{Bytes, is_empty}
use query_playback.Result.{QueryResult, query_result}

pub record MysqlOptions : Type 0 where
  pub host : Bytes
  pub user : Bytes
  pub password : Bytes
  pub schema : Bytes
  pub socket : Bytes
  pub port : ℕ
  pub max_retries : ℕ
  pub filter_error_regex : Option Bytes

-- What mysql_errno and mysql_error say after a call that fails.
pub record Refused : Type 0 where
  pub errno : ℕ
  pub error : Bytes

-- What mysql_real_query returns; what mysql_errno and mysql_error say after it; and for a query
-- that succeeds its warnings and, for each round of mysql_store_result, the rows of a result set.
pub record Answer : Type 0 where
  pub returned : ℤ
  pub refused : Refused
  pub warnings : ℤ
  pub first : Option ℕ
  pub others : List (Option ℕ)

pub record Libmysql (W : Type 0) : Type 0 where
  -- mysql_init and mysql_real_connect; `none` when it connects
  pub real_connect : MysqlOptions → W → Option Refused × W
  pub real_query : Bytes → W → Answer × W
  pub close : W → W
  pub usleep : ℕ → W → ℤ × W
  pub regex_search : Bytes → Bytes → Bool

pub record MysqlThread (W : Type 0) : Type 0 where
  pub world : W
  pub num_connect_errors : ℕ
  pub have_connected : Bool
  -- the error messages on stderr, the last one first
  pub printed : List Bytes

abbrev pub error_of : Option Refused → Bytes
error_of none = []
error_of (some e) = e.error

abbrev pub too_many_connections : Option Refused → Bool
too_many_connections none = false
too_many_connections (some e) = e.errno == 1203

-- The rows that the loop over the result sets leaves in the result.
abbrev pub rows_after : ℕ → List (Option ℕ) → ℕ
rows_after rows [] = rows
rows_after rows (none ∷ more) = rows_after rows more
rows_after rows (some n ∷ more) = rows_after n more

module _ {W : Type 0} (lib : Libmysql W) (o : MysqlOptions) where
  abbrev pub passes_filter : Option Bytes → Bytes → Bool
  passes_filter none error = true
  passes_filter (some regex) error = not (lib.regex_search error regex)

  unfoldable pub should_print_error : Bytes → Bool
  should_print_error error = passes_filter o.filter_error_regex error

  unfoldable pub print_error : Bytes → MysqlThread W → MysqlThread W
  unfolding should_print_error
  print_error error s =
      if should_print_error error then record s { printed = error ∷ s.printed } else s

  unfoldable pub sleep : ℕ → MysqlThread W → ℤ × MysqlThread W
  sleep us s = let (slept, w) = lib.usleep us s.world in (slept, record s { world = w })

  abbrev pub note_refusal : Option Refused → MysqlThread W → MysqlThread W
  note_refusal none s = s
  note_refusal (some e) s =
      print_error e.error (record s { num_connect_errors = s.num_connect_errors + 1 })

  -- One round of the loop of `connect`.
  unfoldable pub attempt : MysqlThread W → Option Refused × MysqlThread W
  unfolding print_error
  attempt s =
      let (r, w) = lib.real_connect o s.world in (r, note_refusal r (record s { world = w }))

  -- What follows the loop.
  abbrev pub settle : Option Refused × MysqlThread W → Bool × MysqlThread W
  settle (r, s) = (is_empty (error_of r), record s { have_connected = is_empty (error_of r) })

  -- After a round that was try `num_tries`: the sleep is the last of the conditions, and the next
  -- round comes only where it returns something else than 0.
  abbrev pub after_attempt :
      (MysqlThread W → Bool × MysqlThread W)
      → ℕ
      → Option Refused × MysqlThread W
      → Bool × MysqlThread W
  after_attempt again num_tries (r, s) =
      let (slept, s') = sleep (1_000_000 * num_tries) s in
      let next = again s' in
      if too_many_connections r
      then if not (is_zero slept) then next else settle (r, s')
      else settle (r, s)

  -- The loop; `left` is how far `num_tries` is below `max_retries`.
  unfoldable pub connect_from : ℕ → ℕ → MysqlThread W → Bool × MysqlThread W
  unfolding attempt sleep
  connect_from zero num_tries s = settle (attempt s)
  connect_from (suc left) num_tries s =
      after_attempt (λ t. connect_from left (num_tries + 1) t) num_tries (attempt s)

  unfoldable pub connect : MysqlThread W → Bool × MysqlThread W
  unfolding connect_from
  connect s = connect_from (o.max_retries - 1) 1 s

  unfoldable pub disconnect : MysqlThread W → MysqlThread W
  disconnect s = record s {
    world = if s.have_connected then lib.close s.world else s.world;
    have_connected = false;
  }

  abbrev pub continue_with : {A B : Type 0} → Option A → (A → Option B) → Option B
  continue_with none f = none
  continue_with (some a) f = f a

  -- What a query that fails in round `i` leaves, up to the reconnection.
  unfoldable pub after_failure : ℕ → Refused → MysqlThread W → MysqlThread W
  unfolding print_error sleep disconnect
  after_failure i e s =
      let s1 = print_error e.error s in
      disconnect (if e.errno == 1203 then (sleep (1_000_000 * i) s1).1 else s1)

  -- The loop of `execute_query`, from round `i` on, with the rounds left.
  unfoldable pub try_query :
      (MysqlThread W → Option (MysqlThread W))
      → ℕ
      → ℕ
      → Bytes
      → QueryResult
      → MysqlThread W
      → Option (QueryResult × MysqlThread W)
  unfolding after_failure
  try_query reconnect zero i query r s = some (r, s)
  try_query reconnect (suc left) i query r s =
      let (a, w) = lib.real_query query s.world in
      let s1 : MysqlThread W = record s { world = w } in
      let r1 : QueryResult = record r { error = a.returned } in
      let retried =
        continue_with (reconnect (after_failure i a.refused s1))
          (λ t. try_query reconnect left (i + 1) query r1 t) in
      if is_zero a.returned
      then some (
        record r1 { warning_count = a.warnings; rows_sent = rows_after 0 (a.first ∷ a.others) },
        s1,
      )
      else retried

  -- `max_retries + 1`, an unsigned int.
  abbrev pub tries : ℕ
  tries = (o.max_retries + 1) % 2 ^ 32

  module _ (g_session_init_query : Bytes) where
    abbrev pub init_after :
        (Bytes → MysqlThread W → Option (QueryResult × MysqlThread W))
        → Bool × MysqlThread W
        → Option (MysqlThread W)
    init_after execute (ok, s) =
        if ok && not (is_empty g_session_init_query)
        then continue_with (execute g_session_init_query s) (λ (r, t). some t)
        else some s

    abbrev pub connected :
        (MysqlThread W → Option (MysqlThread W)) → MysqlThread W → Option (MysqlThread W)
    connected reconnect s = if s.have_connected then some s else reconnect s

    -- `execute_query` connects where it has to, which runs the init query, which is again a call of
    -- `execute_query`: `depth` bounds how deep these calls are nested, and the result is `none` where
    -- that is not enough.
    unfoldable pub execute_query : ℕ → Bytes → MysqlThread W → Option (QueryResult × MysqlThread W)
    unfolding try_query connect
    execute_query zero query s = none
    execute_query (suc depth) query s =
        let reconnect : MysqlThread W → Option (MysqlThread W) =
          λ t. init_after (λ q u. execute_query depth q u) (connect t) in
        continue_with (connected reconnect s)
          (λ t. try_query reconnect tries 0 query query_result t)
