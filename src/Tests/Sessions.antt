-- ===== src/Tests/Sessions.antt =====
-- Sessions over an engine that keeps what it is sent: every call of it succeeds, but for appenders
-- that it is told to refuse.
use duckdb_engine.Prelude.{
  ℕ, Bool, true, false, not, List, [], ◌∷◌, Option, none, some, ◌≡◌, ◌⊎◌, refl,
}
use duckdb_engine.Delta.{Row, DeltaAppender, append_row_delete, new_appender}
use duckdb_engine.Session.State.{
  Environment, DuckdbThdContext, Status, BatchState, Statement, begin, commit, rollback, insert_row,
  update_row, delete_row, undefined, not_in_batch, in_mix_batch, open_appenders,
}
use duckdb_engine.Session.Context.{context_appender}
use duckdb_engine.Session.Handlers.{
  duckdb_commit, duckdb_rollback, ends_transaction, get_batch_state, write_row, update_row_call,
  delete_row_call,
}
use duckdb_engine.Session.Invariant.{Inv}
use duckdb_engine.Session.Outcomes.Pending.{commit-leaves_nothing, delete-guard}
use duckdb_engine.Session.Outcomes.Trace.{Call, run_calls, run_calls-Inv}
use duckdb_engine.Session.Outcomes.Stale.{outside_of, SentAlone, outside-bypasses}

-- A connection: whether it has a transaction, and what it was sent, newest first.
abbrev active : Statement ℕ → Bool → Bool
active begin was = true
active commit was = false
active rollback was = false
active _ was = was

abbrev engine : Environment ℕ
engine = record {
  Connection = Bool × List (Statement ℕ);
  has_active_transaction = λ c. c.0;
  query = λ c stmt. ((active stmt c.0, stmt ∷ c.1), false);
  make_appender = λ c t use_tmp. false;
  append = λ c t d row. (c, false);
  flush_rows = λ c t d. (c, false);
  has_primary_key = λ t. true;
  dml_in_batch = true;
}

abbrev row_of : ℕ → ℕ → Row ℕ
row_of k v = record { key = k; columns = v }

abbrev no_events : Status
no_events = record {
  commits = 0;
  rollbacks = 0;
  rows_insert = 0;
  rows_update = 0;
  rows_delete = 0;
  rows_insert_in_batch = 0;
  rows_update_in_batch = 0;
  rows_delete_in_batch = 0;
}

abbrev fresh : DuckdbThdContext engine
fresh = record {
  con = some (false, []);
  batch_state = undefined;
  appenders = none;
  in_copy_ddl = false;
  status = no_events;
}

-- Rows inserted, then one deleted, which ends the batch of inserts; a scan; and the commit.
abbrev calls : List (Call ℕ)
calls =
    Call.write true 1 (row_of 3 30)
    ∷ Call.write true 2 (row_of 4 40)
    ∷ Call.delete 1 (row_of 3 30)
    ∷ Call.scan 1
    ∷ Call.update false true 2 (row_of 4 40) (row_of 4 41)
    ∷ Call.commit true true
    ∷ []

run_calls-Inv_example : Inv (run_calls calls fresh)
run_calls-Inv_example = run_calls-Inv calls fresh tt

-- A session in the middle of a batch.
abbrev busy : DuckdbThdContext engine
busy = record fresh {
  batch_state = in_mix_batch;
  appenders = some ((1, new_appender true) ∷ (2, new_appender true) ∷ []);
}

commit-leaves_nothing_example :
    (open_appenders (duckdb_commit true true busy).0 ≡ [])
    × (((duckdb_commit true true busy).1 ≡ true)
        ⊎ ((duckdb_commit true true busy).0.batch_state ≡ undefined))
    × (open_appenders (duckdb_rollback true true busy).0 ≡ [])
commit-leaves_nothing_example = commit-leaves_nothing true true busy refl

-- The first change of a transaction is the delete.
delete-guard_example : (append_row_delete true (row_of 3 30) (new_appender true)).1 ≡ not true
unfolding get_batch_state duckdb_engine.Session.Handlers.leave_insert_batch
    duckdb_engine.Session.Handlers.enter_batch duckdb_engine.Session.Handlers.next_batch_state
    context_appender duckdb_engine.Session.Appenders.get_appender
    duckdb_engine.Session.Appenders.find duckdb_engine.Session.Appenders.initialize
    duckdb_engine.Session.Appenders.make_appender duckdb_engine.Session.State.send
    duckdb_engine.Session.Context.is_insert_only
delete-guard_example =
    delete-guard fresh 1 true (row_of 3 30) (new_appender true) tt refl (λ e. cc) refl

-- Table 2 has a row pending when a row of table 1 is handled outside a batch.
abbrev pending : Option (List (ℕ × DeltaAppender ℕ))
pending = some ((2, new_appender true) ∷ [])

abbrev stranded : DuckdbThdContext engine
stranded = outside_of engine (true, []) pending false no_events

outside-bypasses_example :
    SentAlone engine
      (true, [])
      pending
      (insert_row 1 (row_of 3 31))
      (write_row true 1 (row_of 3 31) stranded)
    × SentAlone engine
        (true, [])
        pending
        (update_row 1 (row_of 3 30) (row_of 3 31))
        (update_row_call false true 1 (row_of 3 30) (row_of 3 31) stranded)
    × SentAlone engine
        (true, [])
        pending
        (delete_row 1 (row_of 3 31))
        (delete_row_call 1 (row_of 3 31) stranded)
outside-bypasses_example =
    outside-bypasses engine (true, []) pending false no_events 1 (row_of 3 30) (row_of 3 31) refl
