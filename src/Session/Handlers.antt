-- ===== src/Session/Handlers.antt =====
-- ha_duckdb.cc: the handlerton's transaction calls and the handler's row, scan and table calls, as
-- far as they change the session. A `true` beside the new state is an error code to the server.
use duckdb_engine.Prelude.{ℕ, ◌+◌, Bool, true, false, not, ◌&&◌, ◌||◌, if◌then◌else◌}
use duckdb_engine.Delta.{Row}
use duckdb_engine.Session.State.{
  Environment, DuckdbThdContext, Status, Statement, BatchState, insert_row, update_row, delete_row,
  delete_all, select_all, forwarded, undefined, not_in_batch, in_insert_only_batch, in_mix_batch,
  send, ◌>>=◌, ignoring,
}
use duckdb_engine.Session.Appenders.{delete_appender}
use duckdb_engine.Session.Context.{
  set_batch_state, duckdb_trans_begin, duckdb_trans_commit, duckdb_trans_rollback, flush_appenders,
  context_insert, context_delete, context_update,
}

abbrev pub Handler : {V : Type 0} → Environment V → Type 0
Handler E = DuckdbThdContext E → DuckdbThdContext E × Bool

-- The call is at the end of a transaction: of the whole one, or of a statement in autocommit.
-- `in_transaction` is thd_test_options(thd, OPTION_NOT_AUTOCOMMIT | OPTION_BEGIN).
abbrev pub ends_transaction : Bool → Bool → Bool
ends_transaction all in_transaction = all || not in_transaction

-- The state that a new batch enters.
unfoldable pub next_batch_state : Bool → Bool → BatchState
next_batch_state dml_in_batch insert_only =
    if not dml_in_batch
    then not_in_batch
    else if insert_only
    then in_insert_only_batch
    else in_mix_batch

abbrev pub count_insert : Status → Status
count_insert c = record c { rows_insert = c.rows_insert + 1 }

abbrev pub count_update : Status → Status
count_update c = record c { rows_update = c.rows_update + 1 }

abbrev pub count_delete : Status → Status
count_delete c = record c { rows_delete = c.rows_delete + 1 }

module _ {V : Type 0} {E : Environment V} where
  -- One more event in a counter of srv_duckdb_status, if the call did not fail.
  abbrev pub counting : (Status → Status) → DuckdbThdContext E × Bool → DuckdbThdContext E × Bool
  counting f r = r >>= λ s. (record s { status = f s.status }, false)

  unfoldable pub duckdb_prepare : Bool → Bool → Handler E
  unfolding flush_appenders
  duckdb_prepare all in_transaction s =
      if ends_transaction all in_transaction then flush_appenders s else (s, false)

  -- An error of a step of the commit, after the rollback that answers it.
  unfoldable pub or_rollback : DuckdbThdContext E × Bool → DuckdbThdContext E × Bool
  unfolding duckdb_trans_rollback
  or_rollback (s, failed) =
      if failed then (ignoring (duckdb_trans_rollback s), true) else (s, false)

  unfoldable pub duckdb_commit : Bool → Bool → Handler E
  unfolding or_rollback flush_appenders duckdb_trans_commit
  duckdb_commit commit_trx in_transaction s =
      if ends_transaction commit_trx in_transaction
      then (or_rollback (
            flush_appenders
              (record s { status = record s.status { commits = s.status.commits + 1 } }))
          >>= λ s'. or_rollback (duckdb_trans_commit s'))
      else (s, false)

  unfoldable pub duckdb_rollback : Bool → Bool → Handler E
  unfolding duckdb_trans_rollback
  duckdb_rollback rollback_trx in_transaction s =
      if ends_transaction rollback_trx in_transaction
      then duckdb_trans_rollback
          (record s { status = record s.status { rollbacks = s.status.rollbacks + 1 } })
      else (s, false)

  -- The registration with the server's transaction coordinator is the server's state.
  unfoldable pub duckdb_register_trx : Handler E
  unfolding duckdb_trans_begin
  duckdb_register_trx s = duckdb_trans_begin s

  unfoldable pub enter_batch : Bool → Handler E
  unfolding next_batch_state
  enter_batch insert_only s = elim s.batch_state [
    | undefined ↦ (set_batch_state (next_batch_state E.dml_in_batch insert_only) s, false)
    | _ ↦ (s, false)
  ]

  -- A batch of inserts alone is flushed when another kind of change comes.
  unfoldable pub leave_insert_batch : Bool → Handler E
  unfolding flush_appenders
  leave_insert_batch insert_only s = elim s.batch_state [
    | in_insert_only_batch ↦ if insert_only then (s, false) else flush_appenders s
    | _ ↦ (s, false)
  ]

  -- get_batch_state; the state that it returns by its pointer is the context's own.
  unfoldable pub get_batch_state : Bool → Handler E
  unfolding leave_insert_batch enter_batch
  get_batch_state insert_only s = leave_insert_batch insert_only s >>= enter_batch insert_only

  -- A row that the appender refused goes to DuckDB as a statement, outside any batch.
  unfoldable pub or_statement :
      (Status → Status)
      → (Status → Status)
      → Statement V
      → DuckdbThdContext E × Bool
      → DuckdbThdContext E × Bool
  unfolding send
  or_statement in_batch as_statement stmt (s, failed) =
      if failed
      then counting as_statement (send stmt (set_batch_state not_in_batch s))
      else (record s { status = in_batch s.status }, false)

  -- The part that the three row calls share, behind get_batch_state.
  unfoldable pub dispatch_row :
      (Status → Status) → (Status → Status) → Statement V → Handler E → Handler E
  unfolding or_statement send
  dispatch_row in_batch as_statement stmt appending s = elim s.batch_state [
    | not_in_batch ↦ counting as_statement (send stmt s)
    | _ ↦ or_statement in_batch as_statement stmt (appending s)
  ]

  -- `filled` tells whether update_auto_increment() of the server went well, where it is called.
  unfoldable pub write_row : Bool → ℕ → Row V → Handler E
  unfolding duckdb_register_trx get_batch_state dispatch_row context_insert
  write_row filled t row s =
      duckdb_register_trx s
      >>= (λ s'. (s', not filled))
      >>= get_batch_state true
      >>= dispatch_row (λ c. record c { rows_insert_in_batch = c.rows_insert_in_batch + 1 })
          count_insert (insert_row t row) (context_insert t row)

  -- `injected` and `full_image`: a row event of replication, and whether it has all columns.
  unfoldable pub update_row_call : Bool → Bool → ℕ → Row V → Row V → Handler E
  unfolding duckdb_register_trx get_batch_state dispatch_row context_update
  update_row_call injected full_image t old_row row s =
      if injected && not full_image
      then (s, true)
      else (duckdb_register_trx s
          >>= get_batch_state false
          >>= dispatch_row (λ c. record c { rows_update_in_batch = c.rows_update_in_batch + 1 })
              count_update (update_row t old_row row) (context_update t old_row row))

  unfoldable pub delete_row_call : ℕ → Row V → Handler E
  unfolding duckdb_register_trx get_batch_state dispatch_row context_delete
  delete_row_call t row s =
      duckdb_register_trx s
      >>= get_batch_state false
      >>= dispatch_row (λ c. record c { rows_delete_in_batch = c.rows_delete_in_batch + 1 })
          count_delete (delete_row t row) (context_delete t row)

  unfoldable pub delete_all_rows : ℕ → Handler E
  unfolding duckdb_register_trx delete_appender send
  delete_all_rows t s = duckdb_register_trx s >>= λ s'. send (delete_all t) (delete_appender t s')

  -- The scan of a table by the server: what was buffered is flushed first.
  unfoldable pub rnd_init : ℕ → Handler E
  unfolding flush_appenders send
  rnd_init t s = flush_appenders s >>= send (select_all t)

  -- direct_delete_rows and direct_update_rows with the statement that they forward, of which
  -- `unsafe` tells whether the check of its quotes refused it. The affected rows are the server's.
  unfoldable pub direct_rows : Bool → ℕ → Handler E
  unfolding duckdb_register_trx flush_appenders send
  direct_rows unsafe stmt s =
      if unsafe
      then (s, true)
      else duckdb_register_trx s >>= flush_appenders >>= send (forwarded stmt)

  unfoldable pub rename_table : ℕ → Handler E
  unfolding duckdb_register_trx flush_appenders send
  rename_table stmt s = duckdb_register_trx s >>= flush_appenders >>= send (forwarded stmt)
