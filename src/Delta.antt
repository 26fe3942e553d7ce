-- ===== src/Delta.antt =====
-- runtime/delta_appender.cc, class DeltaAppender: the rows of a batch and what its flush makes of
-- the table. A row is its primary key, as one number, and its other columns, as any value.
pub mod Latest
pub mod Merge
pub mod Buffer
use duckdb_engine.Prelude.{
  ℕ, suc, ◌+◌, Bool, true, false, not, ◌&&◌, ◌||◌, List, [], ◌∷◌, ◌++◌, ◌==◌, ltb, if◌then◌else◌,
}

pub record Row {ℓ} (V : Type ℓ) : Type ℓ where
  pub key : ℕ
  pub columns : V

-- A row of the buffer table, with "#mdb_delete_flag" and "#mdb_row_no". Of a deleted row only the
-- key is appended.
pub record BufferRow {ℓ} (V : Type ℓ) : Type ℓ where
  pub row : Row V
  pub delete_flag : Bool
  pub row_no : ℕ

-- The fields of a DeltaAppender that its rows change. `rows` are the rows completed by EndRow(),
-- newest first; `torn` tells that a row was begun and not completed.
pub record DeltaAppender {ℓ} (V : Type ℓ) : Type ℓ where
  pub use_tmp_table : Bool
  pub row_count : ℕ
  pub has_insert : Bool
  pub has_update : Bool
  pub has_delete : Bool
  pub rows : List (BufferRow V)
  pub torn : Bool

module _ {ℓ} {V : Type ℓ} where
  unfoldable pub new_appender : Bool → DeltaAppender V
  new_appender use_tmp_table = record {
    use_tmp_table = use_tmp_table;
    row_count = 0;
    has_insert = false;
    has_update = false;
    has_delete = false;
    rows = [];
    torn = false;
  }

  -- The body between BeginRow() and EndRow(). `done` tells whether every field was converted and
  -- appended, and the row ended, without an error.
  append_row : Bool → BufferRow V → DeltaAppender V → DeltaAppender V × Bool
  append_row done r d =
      if done then (record d { rows = r ∷ d.rows }, false) else (record d { torn = true }, true)

  -- The results are the appender and whether the call failed.
  unfoldable pub append_row_insert : Bool → Row V → DeltaAppender V → DeltaAppender V × Bool
  unfolding append_row
  append_row_insert done row d =
      append_row done (record { row = row; delete_flag = false; row_no = d.row_count + 1 })
        (record d { row_count = d.row_count + 1; has_insert = true })

  unfoldable pub append_row_delete : Bool → Row V → DeltaAppender V → DeltaAppender V × Bool
  unfolding append_row
  append_row_delete done old_row d =
      if not d.use_tmp_table
      then (d, true)
      else append_row done (record { row = old_row; delete_flag = true; row_no = d.row_count + 1 })
          (record d { row_count = d.row_count + 1; has_delete = true })

  unfoldable pub append_row_update :
      Bool → Bool → Row V → Row V → DeltaAppender V → DeltaAppender V × Bool
  unfolding append_row_delete append_row_insert
  append_row_update deleted inserted old_row row d =
      let (d', failed) = append_row_delete deleted old_row (record d { has_update = true }) in
      if failed then (d', true) else append_row_insert inserted row d'

  -- The buffer has a row of the key: `(pk) IN (SELECT pk … GROUP BY pk)`.
  pub has_key : ℕ → List (BufferRow V) → Bool
  has_key k [] = false
  has_key k (r ∷ rs) = r.row.key == k || has_key k rs

  -- DELETE FROM t WHERE (pk) IN (SELECT pk FROM buffer GROUP BY pk)
  unfoldable pub delete_buffered : List (BufferRow V) → List (Row V) → List (Row V)
  unfolding has_key
  delete_buffered buffer [] = []
  delete_buffered buffer (row ∷ t) =
      if has_key row.key buffer then delete_buffered buffer t else row ∷ delete_buffered buffer t

  -- ROW_NUMBER() OVER (PARTITION BY pk ORDER BY "#mdb_row_no" DESC) = 1
  unfoldable pub is_latest : List (BufferRow V) → BufferRow V → Bool
  is_latest [] r = true
  is_latest (b ∷ buffer) r =
      not (b.row.key == r.row.key && ltb r.row_no b.row_no) && is_latest buffer r

  -- The rows of `rs` that pass the QUALIFY clause over the buffer.
  unfoldable pub qualify : List (BufferRow V) → List (BufferRow V) → List (Row V)
  unfolding is_latest
  qualify buffer [] = []
  qualify buffer (r ∷ rs) =
      if is_latest buffer r && not r.delete_flag
      then r.row ∷ qualify buffer rs
      else qualify buffer rs

  -- INSERT INTO t SELECT … FROM buffer QUALIFY …
  unfoldable pub insert_latest : List (BufferRow V) → List (Row V) → List (Row V)
  unfolding qualify
  insert_latest buffer t = t ++ qualify buffer buffer

  -- What the statements of flush() do to the table, in their order, for an appender with a buffer
  -- (m_use_tmp_table). Without one, DuckDB's own flush appends the rows and no statement follows.
  unfoldable pub flush_table : Bool → DeltaAppender V → List (Row V) → List (Row V)
  unfolding delete_buffered insert_latest
  flush_table idempotent_flag d t =
      let kept = if d.has_delete || idempotent_flag then delete_buffered d.rows t else t in
      if d.has_insert then insert_latest d.rows kept else kept
