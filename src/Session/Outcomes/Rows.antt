-- ===== src/Session/Outcomes/Rows.antt =====
-- The row, scan and table calls of the handler keep the session's invariant.
use duckdb_engine.Prelude.{ℕ, ◌+◌, Bool, true, false, not, ◌&&◌, ◌≢◌, sym, subst, if-keeps}
use duckdb_engine.Delta.{Row}
use duckdb_engine.Session.State.{
  Environment, DuckdbThdContext, Status, Statement, BatchState, insert_row, update_row, delete_row,
  delete_all, select_all, forwarded, undefined, not_in_batch, in_insert_only_batch, in_mix_batch,
  send, ◌>>=◌, open_appenders,
}
use duckdb_engine.Session.Appenders.{delete_appender}
use duckdb_engine.Session.Context.{
  set_batch_state, flush_appenders, context_insert, context_delete, context_update,
}
use duckdb_engine.Session.Handlers.{
  Handler, counting, duckdb_register_trx, get_batch_state, or_statement, dispatch_row, write_row,
  update_row_call, delete_row_call, delete_all_rows, rnd_init, direct_rows, rename_table,
  count_insert, count_update, count_delete,
}
use duckdb_engine.Session.Invariant.{Fits, Inv}
use duckdb_engine.Session.Invariant.Steps.{Ends, Ends-then, keep-then}
use duckdb_engine.Session.Outcomes.Batch.{
  Entered-defined, Ready, get_batch_state-Ready, not_in_batch-Fits,
}
use duckdb_engine.Session.Invariant.Rows.{
  Stays, context_insert-Stays, context_delete-Stays, context_update-Stays, delete_appender-Stays,
}
use duckdb_engine.Session.Outcomes.Calls.{
  Keeps, send-Keeps, flush_appenders-Keeps, register_trx-Keeps,
}

module _ {V : Type 0} {E : Environment V} where
  Inv-Ends : (r : DuckdbThdContext E × Bool) → Inv r.0 → Ends Inv Inv r
  Inv-Ends (s, true) inv = inv
  Inv-Ends (s, false) inv = inv

  Ends-Inv : (r : DuckdbThdContext E × Bool) → Ends Inv Inv r → Inv r.0
  Ends-Inv (s, true) inv = inv
  Ends-Inv (s, false) inv = inv

  counting-Keeps :
      (f : Status → Status) → (r : DuckdbThdContext E × Bool) → Inv r.0 → Inv (counting f r).0
  counting-Keeps f (s, true) inv = inv
  counting-Keeps f (s, false) inv = inv

  or_statement-Keeps :
      (in_batch as_statement : Status → Status)
      → (stmt : Statement V) → (r : DuckdbThdContext E × Bool) → Inv r.0
      → Inv (or_statement in_batch as_statement stmt r).0
  unfolding or_statement
  or_statement-Keeps in_batch as_statement stmt (s, true) inv =
      let outside = set_batch_state not_in_batch s in
      counting-Keeps as_statement (send stmt outside)
        (send-Keeps stmt outside (not_in_batch-Fits s.batch_state (open_appenders s) inv))
  or_statement-Keeps in_batch as_statement stmt (s, false) inv = inv

  Stays-Inv : (s u : DuckdbThdContext E) → Stays s.batch_state u → Inv u
  Stays-Inv s u (fits, e) = subst (λ b. Fits b (open_appenders u)) (sym e) fits

  pub dispatch_in :
      (in_batch as_statement : Status → Status)
      → (stmt : Statement V) → (appending : Handler E) → (s : DuckdbThdContext E) → (b : BatchState)
      → Inv s
      → Inv (appending s).0
      → Inv
          (elim b as (λ _. DuckdbThdContext E × Bool) [
            | not_in_batch ↦ counting as_statement (send stmt s)
            | _ ↦ or_statement in_batch as_statement stmt (appending s)
          ]).0
  dispatch_in in_batch as_statement stmt appending s not_in_batch inv inv' =
      counting-Keeps as_statement (send stmt s) (send-Keeps stmt s inv)
  dispatch_in in_batch as_statement stmt appending s undefined inv inv' =
      or_statement-Keeps in_batch as_statement stmt (appending s) inv'
  dispatch_in in_batch as_statement stmt appending s in_insert_only_batch inv inv' =
      or_statement-Keeps in_batch as_statement stmt (appending s) inv'
  dispatch_in in_batch as_statement stmt appending s in_mix_batch inv inv' =
      or_statement-Keeps in_batch as_statement stmt (appending s) inv'

  -- A row call behind get_batch_state, whatever it appends.
  row-Keeps :
      (insert_only : Bool)
      → (in_batch as_statement : Status → Status) → (stmt : Statement V) → (appending : Handler E)
      → ((s : DuckdbThdContext E)
          → s.batch_state ≢ undefined
          → Inv s
          → Stays s.batch_state (appending s).0)
      → Keeps (λ (s : DuckdbThdContext E).
        get_batch_state insert_only s >>= dispatch_row in_batch as_statement stmt appending)
  unfolding dispatch_row
  row-Keeps insert_only in_batch as_statement stmt appending stays s inv =
      Ends-Inv (get_batch_state insert_only s >>= dispatch_row in_batch as_statement stmt appending)
        (Ends-then Inv (Ready insert_only) Inv (get_batch_state insert_only s)
          (dispatch_row in_batch as_statement stmt appending)
          (get_batch_state-Ready insert_only s inv)
          (λ u ready. Inv-Ends (dispatch_row in_batch as_statement stmt appending u) (
            dispatch_in in_batch as_statement stmt appending u u.batch_state ready.0 (
              Stays-Inv u (appending u).0
                (stays u (Entered-defined insert_only u.batch_state ready.1) ready.0)))))

  -- The same behind the calls that come first, of which the last may have failed.
  behind-Keeps :
      (insert_only : Bool)
      → (in_batch as_statement : Status → Status) → (stmt : Statement V) → (appending : Handler E)
      → ((s : DuckdbThdContext E)
          → s.batch_state ≢ undefined
          → Inv s
          → Stays s.batch_state (appending s).0)
      → (r : DuckdbThdContext E × Bool) → Inv r.0
      → Inv
          (r
            >>= get_batch_state insert_only
            >>= dispatch_row in_batch as_statement stmt appending).0
  behind-Keeps insert_only in_batch as_statement stmt appending stays (s, true) inv = inv
  behind-Keeps insert_only in_batch as_statement stmt appending stays (s, false) inv =
      row-Keeps insert_only in_batch as_statement stmt appending stays s inv

  pub write_row-Keeps :
      (filled : Bool) → (t : ℕ) → (row : Row V) → Keeps (write_row {E = E} filled t row)
  unfolding write_row
  write_row-Keeps filled t row s inv =
      behind-Keeps true (λ c. record c { rows_insert_in_batch = c.rows_insert_in_batch + 1 })
        count_insert (insert_row t row) (context_insert t row) (context_insert-Stays t row)
        (duckdb_register_trx s >>= (λ s'. (s', not filled)))
        (keep-then Inv (duckdb_register_trx s) (λ s'. (s', not filled)) (register_trx-Keeps s inv)
          (λ u inv'. inv'))

  pub update_row-Keeps :
      (injected full_image : Bool)
      → (t : ℕ) → (old_row row : Row V)
      → Keeps (update_row_call {E = E} injected full_image t old_row row)
  unfolding update_row_call
  update_row-Keeps injected full_image t old_row row s inv =
      if-keeps (λ (r : DuckdbThdContext E × Bool). Inv r.0) (injected && not full_image) (λ _. inv)
        (λ _.
          behind-Keeps false (λ c. record c { rows_update_in_batch = c.rows_update_in_batch + 1 })
            count_update (update_row t old_row row) (context_update t old_row row)
            (context_update-Stays t old_row row) (duckdb_register_trx s) (register_trx-Keeps s inv))

  pub delete_row-Keeps : (t : ℕ) → (row : Row V) → Keeps (delete_row_call {E = E} t row)
  unfolding delete_row_call
  delete_row-Keeps t row s inv =
      behind-Keeps false (λ c. record c { rows_delete_in_batch = c.rows_delete_in_batch + 1 })
        count_delete (delete_row t row) (context_delete t row) (context_delete-Stays t row)
        (duckdb_register_trx s) (register_trx-Keeps s inv)

  pub delete_all_rows-Keeps : (t : ℕ) → Keeps (delete_all_rows {E = E} t)
  unfolding delete_all_rows
  delete_all_rows-Keeps t s inv =
      keep-then Inv (duckdb_register_trx s) (λ u. send (delete_all t) (delete_appender t u))
        (register_trx-Keeps s inv)
        (λ u inv'.
          send-Keeps (delete_all t) (delete_appender t u)
            (Stays-Inv u (delete_appender t u) (delete_appender-Stays t u inv')))

  pub rnd_init-Keeps : (t : ℕ) → Keeps (rnd_init {E = E} t)
  unfolding rnd_init
  rnd_init-Keeps t s inv =
      keep-then Inv (flush_appenders s) (send (select_all t)) (flush_appenders-Keeps s inv)
        (send-Keeps (select_all t))

  pub rename_table-Keeps : (stmt : ℕ) → Keeps (rename_table {E = E} stmt)
  unfolding rename_table
  rename_table-Keeps stmt s inv =
      keep-then Inv (duckdb_register_trx s >>= flush_appenders) (send (forwarded stmt))
        (keep-then Inv (duckdb_register_trx s) flush_appenders (register_trx-Keeps s inv)
          flush_appenders-Keeps)
        (send-Keeps (forwarded stmt))

  pub direct_rows-Keeps : (unsafe : Bool) → (stmt : ℕ) → Keeps (direct_rows {E = E} unsafe stmt)
  unfolding direct_rows rename_table
  direct_rows-Keeps unsafe stmt s inv =
      if-keeps (λ (r : DuckdbThdContext E × Bool). Inv r.0) unsafe (λ _. inv)
        (λ _. rename_table-Keeps stmt s inv)
