-- ===== src/Client/Mysql/Init.antt =====
-- An init query that the server refuses.
use query_playback.Prelude.Int.{is_zero}
use query_playback.Prelude.{
  ℕ, zero, suc, ◌<◌, ◌≡◌, ◌≢◌, refl, Bool, true, false, [], Option, none, some, arith,
}
use query_playback.Text.{Bytes}
use query_playback.Text.Find.{is_empty-ne_nil}
use query_playback.Result.{QueryResult, query_result}
use query_playback.Client.Mysql.{
  MysqlOptions, Libmysql, MysqlThread, connect, after_failure, continue_with, init_after, connected,
  try_query, tries, execute_query,
}
use query_playback.Client.Mysql.Connect.{connect-succeeds}

module _ {W : Type 0} (lib : Libmysql W) (o : MysqlOptions) (init : Bytes) where
  try_query-refused :
      (reconnect : MysqlThread W → Option (MysqlThread W))
      → ((t : MysqlThread W) → reconnect t ≡ none)
      → ((w : W) → is_zero (lib.real_query init w).0.returned ≡ false)
      → (left i : ℕ) (r : QueryResult) (s : MysqlThread W) → 0 < left
      → try_query lib o reconnect left i init r s ≡ none
  unfolding try_query
  try_query-refused reconnect none_back refuses zero i r s h = absurd (omega arith)
  try_query-refused reconnect none_back refuses (suc left) i r s h =
      let (a, w) = lib.real_query init s.world in
      rw (refuses s.world, none_back (after_failure lib o i a.refused (record s { world = w })))

  continue_with-none :
      {A B : Type 0} (x : Option A) (f : A → Option B)
      → ((a : A) → f a ≡ none)
      → continue_with lib o x f ≡ none
  continue_with-none none f h = refl
  continue_with-none (some a) f h = h a

  init_after-none :
      (execute : Bytes → MysqlThread W → Option (QueryResult × MysqlThread W))
      (c : Bool × MysqlThread W)
      → init ≢ []
      → c.0 ≡ true
      → execute init c.1 ≡ none
      → init_after lib o init execute c ≡ none
  init_after-none execute (ok, t) ne h e = rw (h, is_empty-ne_nil init ne, e)

  -- For an init query that is not empty, and unless `max_retries + 1` wraps around to 0: where the
  -- server takes every connection and refuses the init query every time, `execute_query` of that
  -- query returns at no depth of its nested calls, so the code calls itself without end.
  pub execute_query-none :
      init ≢ []
      → 0 < tries lib o
      → ((w : W) → (lib.real_connect o w).0 ≡ none)
      → ((w : W) → is_zero (lib.real_query init w).0.returned ≡ false)
      → (depth : ℕ) (s : MysqlThread W) → execute_query lib o init depth init s ≡ none
  unfolding execute_query
  execute_query-none ne some_try accepts refuses zero s = refl
  execute_query-none ne some_try accepts refuses (suc depth) s =
      let reconnect : MysqlThread W → Option (MysqlThread W) =
        λ t. init_after lib o init (λ q u. execute_query lib o init depth q u) (connect lib o t) in
      let none_back : (t : MysqlThread W) → reconnect t ≡ none = λ t.
        init_after-none (λ q u. execute_query lib o init depth q u) (connect lib o t) ne
          (connect-succeeds lib o accepts t)
          (execute_query-none ne some_try accepts refuses depth (connect lib o t).1) in
      continue_with-none (connected lib o init reconnect s)
        (λ t. try_query lib o reconnect (tries lib o) 0 init query_result t)
        (λ t. try_query-refused reconnect none_back refuses (tries lib o) 0 query_result t some_try)
