-- ===== src/Tests/Buffers.antt =====
-- A buffer of a mixed batch: row 3 is updated, row 4 is deleted and row 5 is inserted.
use duckdb_engine.Prelude.{ℕ, true, false, List, [], ◌∷◌, ◌≡◌, refl}
use duckdb_engine.Delta.{
  Row, DeltaAppender, new_appender, append_row_insert, append_row_delete, append_row_update,
  flush_table,
}
use duckdb_engine.Delta.Latest.{rows_with}
use duckdb_engine.Delta.Merge.{replay, KeysFree}
use duckdb_engine.Delta.Buffer.{
  WellFormed, new_appender-WellFormed, append-WellFormed, flush-replay,
}

abbrev row_of : ℕ → ℕ → Row ℕ
row_of k v = record { key = k; columns = v }

abbrev table_rows : List (Row ℕ)
table_rows = row_of 3 30 ∷ row_of 4 40 ∷ []

updated : DeltaAppender ℕ
updated = (append_row_update true true (row_of 3 30) (row_of 3 31) (new_appender true)).0

deleted : DeltaAppender ℕ
unfolding updated
deleted = (append_row_delete true (row_of 4 40) updated).0

unfoldable filled : DeltaAppender ℕ
unfolding deleted
filled = (append_row_insert true (row_of 5 50) deleted).0

filled-WellFormed : WellFormed filled
unfolding filled deleted updated
filled-WellFormed =
    let first =
      (append-WellFormed true true (row_of 3 30) (row_of 3 31) (new_appender true)
        (new_appender-WellFormed true)).2 in
    let second = (append-WellFormed true true (row_of 4 40) (row_of 4 40) updated first).1 in
    (append-WellFormed true true (row_of 5 50) (row_of 5 50) deleted second).0

filled-KeysFree : KeysFree filled.rows table_rows
unfolding filled deleted updated append_row_insert append_row_delete append_row_update new_appender
    replay rows_with
filled-KeysFree = (λ _. refl, (λ e. cc, (λ _. refl, (λ e. cc, tt))))

flush-replay_example :
    rows_with 3 (flush_table false filled table_rows) ≡ rows_with 3 (replay filled.rows table_rows)
flush-replay_example = flush-replay false filled table_rows 3 filled-WellFormed filled-KeysFree
