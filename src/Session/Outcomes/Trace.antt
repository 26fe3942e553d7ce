-- ===== src/Session/Outcomes/Trace.antt =====
-- The calls of a session in any order.
use duckdb_engine.Prelude.{ℕ, Bool, List, [], ◌∷◌}
use duckdb_engine.Delta.{Row}
use duckdb_engine.Session.State.{Environment, DuckdbThdContext, ignoring}
use duckdb_engine.Session.Handlers.{
  Handler, duckdb_prepare, duckdb_commit, duckdb_rollback, duckdb_register_trx, write_row,
  update_row_call, delete_row_call, delete_all_rows, rnd_init, direct_rows, rename_table,
}
use duckdb_engine.Session.Invariant.{Inv}
use duckdb_engine.Session.Outcomes.Calls.{
  prepare-Keeps, commit-Keeps, rollback-Keeps, register_trx-Keeps,
}
use duckdb_engine.Session.Outcomes.Rows.{
  write_row-Keeps, update_row-Keeps, delete_row-Keeps, delete_all_rows-Keeps, rnd_init-Keeps,
  direct_rows-Keeps, rename_table-Keeps,
}

-- The calls that the server makes, each with its arguments.
pub data Call (V : Type 0) : Type 0 where
  prepare commit rollback : Bool → Bool → Call V
  register_trx : Call V
  write : Bool → ℕ → Row V → Call V
  update : Bool → Bool → ℕ → Row V → Row V → Call V
  delete : ℕ → Row V → Call V
  truncate scan rename : ℕ → Call V
  direct : Bool → ℕ → Call V

module _ {V : Type 0} {E : Environment V} where
  abbrev pub run_call : Call V → Handler E
  run_call (prepare all in_transaction) = duckdb_prepare all in_transaction
  run_call (commit all in_transaction) = duckdb_commit all in_transaction
  run_call (rollback all in_transaction) = duckdb_rollback all in_transaction
  run_call register_trx = duckdb_register_trx
  run_call (write filled t row) = write_row filled t row
  run_call (update injected full_image t old_row row) =
      update_row_call injected full_image t old_row row
  run_call (delete t row) = delete_row_call t row
  run_call (truncate t) = delete_all_rows t
  run_call (scan t) = rnd_init t
  run_call (rename stmt) = rename_table stmt
  run_call (direct unsafe stmt) = direct_rows unsafe stmt

  call-Keeps : (call : Call V) → (s : DuckdbThdContext E) → Inv s → Inv (run_call call s).0
  call-Keeps (prepare all in_transaction) = prepare-Keeps all in_transaction
  call-Keeps (commit all in_transaction) = commit-Keeps all in_transaction
  call-Keeps (rollback all in_transaction) = rollback-Keeps all in_transaction
  call-Keeps register_trx = register_trx-Keeps
  call-Keeps (write filled t row) = write_row-Keeps filled t row
  call-Keeps (update injected full_image t old_row row) =
      update_row-Keeps injected full_image t old_row row
  call-Keeps (delete t row) = delete_row-Keeps t row
  call-Keeps (truncate t) = delete_all_rows-Keeps t
  call-Keeps (scan t) = rnd_init-Keeps t
  call-Keeps (rename stmt) = rename_table-Keeps stmt
  call-Keeps (direct unsafe stmt) = direct_rows-Keeps unsafe stmt

  -- The server makes the calls one after the other, and goes on behind an error.
  abbrev pub run_calls : List (Call V) → DuckdbThdContext E → DuckdbThdContext E
  run_calls [] s = s
  run_calls (call ∷ calls) s = run_calls calls (ignoring (run_call call s))

  -- Every sequence of calls of the handlerton and the handler, errors included, keeps the session
  -- well formed: no appender is open before a batch, a batch of inserts alone has plain appenders, a
  -- mixed batch has buffered ones, and every appender's rows are numbered in their order with flags
  -- that tell which kinds of rows it has.
  pub run_calls-Inv :
      (calls : List (Call V)) → (s : DuckdbThdContext E) → Inv s → Inv (run_calls calls s)
  run_calls-Inv [] s inv = inv
  run_calls-Inv (call ∷ calls) s inv =
      run_calls-Inv calls (ignoring (run_call call s)) (call-Keeps call s inv)
