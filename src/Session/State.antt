-- ===== src/Session/State.antt =====
-- The state of a session and what it asks of DuckDB. DuckDB is a parameter: how a connection
-- answers statements and appender calls. Tables are numbered in the order of the map of appenders,
-- whose keys are pairs of a database and a table name.
use duckdb_engine.Prelude.{ℕ, Bool, true, false, List, [], Option, none, some}
use duckdb_engine.Delta.{Row, DeltaAppender}

pub data BatchState : Type 0 where
  undefined not_in_batch in_insert_only_batch in_mix_batch : BatchState

-- The statements that the modelled code sends.
pub data Statement (V : Type 0) : Type 0 where
  begin commit rollback : Statement V
  create_buffer drop_buffer drop_buffer_if_exists delete_buffered insert_latest : ℕ → Statement V
  insert_row delete_row : ℕ → Row V → Statement V
  update_row : ℕ → Row V → Row V → Statement V
  delete_all select_all : ℕ → Statement V
  forwarded : ℕ → Statement V

-- DuckDB, the server's view of the tables, and the global settings. A `true` in a result is an
-- error or an exception.
pub record Environment (V : Type 0) : Type 1 where
  pub Connection : Type 0
  pub has_active_transaction : Connection → Bool
  pub query : Connection → Statement V → Connection × Bool
  pub make_appender : Connection → ℕ → Bool → Bool
  pub append : Connection → ℕ → DeltaAppender V → Row V → Connection × Bool
  pub flush_rows : Connection → ℕ → DeltaAppender V → Connection × Bool
  pub has_primary_key : ℕ → Bool
  pub dml_in_batch : Bool

-- srv_duckdb_status
pub record Status : Type 0 where
  pub commits : ℕ
  pub rollbacks : ℕ
  pub rows_insert : ℕ
  pub rows_update : ℕ
  pub rows_delete : ℕ
  pub rows_insert_in_batch : ℕ
  pub rows_update_in_batch : ℕ
  pub rows_delete_in_batch : ℕ

pub record DuckdbThdContext {V : Type 0} (E : Environment V) : Type 0 where
  pub con : Option E.Connection
  pub batch_state : BatchState
  pub appenders : Option (List (ℕ × DeltaAppender V))
  pub in_copy_ddl : Bool
  pub status : Status

-- The entries of a map that may not have been made yet.
abbrev pub entries : {V : Type 0} → Option (List (ℕ × DeltaAppender V)) → List (ℕ × DeltaAppender V)
entries none = []
entries (some infos) = infos

module _ {V : Type 0} {E : Environment V} where
  -- duckdb_query on the session's connection.
  unfoldable pub send : Statement V → DuckdbThdContext E → DuckdbThdContext E × Bool
  send stmt s = elim s.con [
    | none ↦ (s, true)
    | some c ↦ let (c', failed) = E.query c stmt in (record s { con = some c' }, failed)
  ]

  -- The rest of a call, if the part before it did not fail.
  infixl 5 ◌>>=◌
  abbrev pub ◌>>=◌ :
      DuckdbThdContext E × Bool
      → (DuckdbThdContext E → DuckdbThdContext E × Bool)
      → DuckdbThdContext E × Bool
  (s, true) >>= f = (s, true)
  (s, false) >>= f = f s

  -- Two calls of which the second is made whether or not the first failed.
  abbrev pub ignoring : DuckdbThdContext E × Bool → DuckdbThdContext E
  ignoring r = r.0

  abbrev pub open_appenders : DuckdbThdContext E → List (ℕ × DeltaAppender V)
  open_appenders s = entries s.appenders
