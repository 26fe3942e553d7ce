-- ===== src/Session/Outcomes/Stale.antt =====
-- The row calls outside a batch, where a row that an appender refused has left other rows pending.
use duckdb_engine.Prelude.{arith, ℕ, Bool, true, false, List, Option, some, ◌≡◌}
use duckdb_engine.Delta.{Row, DeltaAppender}
use duckdb_engine.Session.State.{
  Statement, Environment, DuckdbThdContext, Status, not_in_batch, insert_row, update_row,
  delete_row, send,
}
use duckdb_engine.Session.Context.{duckdb_trans_begin, has_transaction}
use duckdb_engine.Session.Handlers.{
  duckdb_register_trx, enter_batch, leave_insert_batch, get_batch_state, dispatch_row, write_row,
  update_row_call, delete_row_call,
}

module _ {V : Type 0} (E : Environment V) where
  -- A state outside a batch, by its fields.
  abbrev pub outside_of :
      E.Connection → Option (List (ℕ × DeltaAppender V)) → Bool → Status → DuckdbThdContext E
  outside_of c pending in_copy_ddl status = record {
    con = some c;
    batch_state = not_in_batch;
    appenders = pending;
    in_copy_ddl = in_copy_ddl;
    status = status;
  }

  -- The call sent the statement at once, failed just where DuckDB refused it, and left what was
  -- pending where it was.
  abbrev pub SentAlone :
      E.Connection
      → Option (List (ℕ × DeltaAppender V))
      → Statement V
      → DuckdbThdContext E × Bool
      → Type 0
  SentAlone c pending stmt r =
      (r.0.con ≡ some (E.query c stmt).0) × (r.1 ≡ (E.query c stmt).1) × (r.0.appenders ≡ pending)

  -- A row call outside a batch that runs in a transaction sends its statement at once, fails just
  -- where DuckDB refuses it, and leaves the rows that other appenders hold where they are: they reach
  -- their tables behind it, at the next flush.
  pub outside-bypasses :
      (c : E.Connection) (pending : Option (List (ℕ × DeltaAppender V))) (in_copy_ddl : Bool)
      (status : Status) (t : ℕ) (old_row row : Row V)
      → E.has_active_transaction c ≡ true
      → SentAlone c pending
          (insert_row t row)
          (write_row true t row (outside_of c pending in_copy_ddl status))
        × SentAlone c pending
            (update_row t old_row row)
            (update_row_call false true t old_row row (outside_of c pending in_copy_ddl status))
        × SentAlone c pending
            (delete_row t row)
            (delete_row_call t row (outside_of c pending in_copy_ddl status))
  unfolding write_row update_row_call delete_row_call duckdb_register_trx duckdb_trans_begin
      has_transaction get_batch_state leave_insert_batch enter_batch dispatch_row send
  outside-bypasses c pending in_copy_ddl status t old_row row active = ground arith
