-- ===== src/Tests/Mysql.antt =====
-- The client over a few concrete servers. Their state is how many queries they have been sent.
use query_playback.Prelude.{
  true, not, ◌||◌, ℕ, ◌+◌, ◌≡◌, ◌≢◌, refl, false, [], Option, none, some, ltb, if◌then◌else◌, arith,
}
use query_playback.Prelude.Int.{pos}
use query_playback.Text.{codes, is_empty, same_bytes}
use query_playback.Result.{QueryResult}
use query_playback.Client.Mysql.{
  MysqlOptions, Refused, Libmysql, MysqlThread, error_of, attempt, connect, execute_query,
}
use query_playback.CommandLine.{VariablesMap}
use query_playback.Client.Mysql.Threads.{Library}
use query_playback.Client.Mysql.Options.{throws, process_options}
use query_playback.Client.Mysql.Settings.{Takes, process_options-ends}
use query_playback.Client.Mysql.Connect.{connect-once}
use query_playback.Client.Mysql.Query.{
  start_of, rounds, first_success, Finishes, execute_query-Finishes,
}
use query_playback.Client.Mysql.Init.{execute_query-none}

abbrev options : MysqlOptions
options = record {
  host = codes "127.0.0.1";
  user = codes "root";
  password = [];
  schema = codes "test";
  socket = codes "/var/lib/mysql/mysql.sock";
  port = 3306;
  max_retries = 9;
  filter_error_regex = none;
}

abbrev crowded : Refused
crowded = record { errno = 1203; error = codes "too many connections" }

-- The query fails until the server has been sent `failures` of them.
abbrev server : Option Refused → ℕ → Libmysql ℕ
server refusal failures = record {
  real_connect = λ o w. (refusal, w);
  real_query = λ q w. (
    record {
      returned = if ltb w failures then pos 1 else pos 0;
      refused = crowded;
      warnings = pos 0;
      first = some 4;
      others = [];
    },
    w + 1,
  );
  close = λ w. w;
  usleep = λ us w. (pos 0, w);
  regex_search = λ error regex. false;
}

-- A server that refuses every query.
abbrev refusing : Libmysql ℕ
refusing = record (server none 0) {
  real_query = λ q w. (
    record { returned = pos 1; refused = crowded; warnings = pos 0; first = none; others = [] },
    w + 1,
  );
}

abbrev thread : MysqlThread ℕ
thread = record { world = 0; num_connect_errors = 0; have_connected = false; printed = [] }

connect-once_example :
    ((connect (server (some crowded) 0) options thread).0
      ≡ is_empty (error_of (attempt (server (some crowded) 0) options thread).0))
    × ((connect (server (some crowded) 0) options thread).1.num_connect_errors
        ≡ (attempt (server (some crowded) 0) options thread).1.num_connect_errors)
connect-once_example = connect-once (server (some crowded) 0) options (λ us w. refl) thread

execute_query-Finishes_example :
    (out : QueryResult × MysqlThread ℕ) × (execute_query
        (server none 2)
        options
        []
        1
        (codes "SELECT 1")
        thread
      ≡ some out)
    × Finishes
        (server none 2)
        options
        (first_success
          (server none 2)
          options
          (codes "SELECT 1")
          (rounds (server none 2) options)
          0
          (start_of (server none 2) options thread))
        out
execute_query-Finishes_example =
    execute_query-Finishes (server none 2) options (omega arith) 0 (codes "SELECT 1") thread

x-ne-nil : codes "x" ≢ []
x-ne-nil = cc

execute_query-none_example : execute_query refusing options (codes "x") 5 (codes "x") thread ≡ none
execute_query-none_example =
    execute_query-none refusing options (codes "x") x-ne-nil (omega arith) (λ w. refl) (λ w. refl) 5
      thread

-- Nothing is given, and the server refuses every connection.
abbrev pub nothing_given : VariablesMap
nothing_given = record {
  count = λ name. 0;
  defaulted = λ name. true;
  text = λ name. [];
  texts = λ name. [];
  flag = λ name. false;
  number = λ name. 0;
}

abbrev library : Library ℕ
library = record {
  client = server (some crowded) 0;
  thread_safe = true;
  library_init = λ w. (pos 0, w);
  thread_init = λ w. w + 1;
  thread_end = λ w. w + 1;
  regex_is_valid = λ text. not (same_bytes text (codes "("));
}

-- A password is given, and an error filter that is no regular expression.
abbrev given_badly : VariablesMap
given_badly = record nothing_given {
  count = λ name.
      if same_bytes name (codes "mysql-password") || same_bytes name (codes "mysql-filter-error")
      then 1
      else 0;
  text = λ name. if same_bytes name (codes "mysql-password") then codes "secret" else codes "(";
}

process_options-ends_example :
    (o' : MysqlOptions) × (v : ℕ) × (process_options library [] 1 true given_badly options 0
      ≡ some (throws, o', v))
    × Takes library [] 1 true given_badly options o'
process_options-ends_example = process_options-ends library [] 1 true given_badly options 0
