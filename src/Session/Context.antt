-- ===== src/Session/Context.antt =====
-- runtime/duckdb_context.h and .cc: the transaction, flush and append methods of DuckdbThdContext.
use duckdb_engine.Prelude.{ℕ, Bool, true, false, not, [], Option, none, some, if◌then◌else◌}
use duckdb_engine.Delta.{
  Row, DeltaAppender, append_row_insert, append_row_delete, append_row_update,
}
use duckdb_engine.Session.State.{
  Environment, DuckdbThdContext, BatchState, begin, commit, rollback, undefined,
  in_insert_only_batch, send, ◌>>=◌, open_appenders,
}
use duckdb_engine.Session.Appenders.{insert, get_appender, flush_all, discard_all}

unfoldable pub is_insert_only : BatchState → Bool
is_insert_only in_insert_only_batch = true
is_insert_only _ = false

module _ {V : Type 0} {E : Environment V} where
  unfoldable pub has_transaction : DuckdbThdContext E → Bool
  has_transaction s = elim s.con [ none ↦ false | some c ↦ E.has_active_transaction c ]

  abbrev pub set_batch_state : BatchState → DuckdbThdContext E → DuckdbThdContext E
  set_batch_state b s = record s { batch_state = b }

  unfoldable pub duckdb_trans_begin : DuckdbThdContext E → DuckdbThdContext E × Bool
  unfolding has_transaction send
  duckdb_trans_begin s = elim s.con [
    | none ↦ (s, true)
    | some _ ↦ if has_transaction s then (s, false) else send begin s
  ]

  unfoldable pub duckdb_trans_commit : DuckdbThdContext E → DuckdbThdContext E × Bool
  unfolding has_transaction send
  duckdb_trans_commit s = elim s.con [
    | none ↦ (s, true)
    | some _ ↦ (if has_transaction s then send commit s else (s, false)) >>= λ s'.
        (set_batch_state undefined s', false)
  ]

  unfoldable pub duckdb_trans_rollback : DuckdbThdContext E → DuckdbThdContext E × Bool
  unfolding has_transaction send discard_all
  duckdb_trans_rollback s =
      let s' = discard_all s in
      elim s'.con [
        | none ↦ (s', true)
        | some _ ↦ (if has_transaction s' then send rollback s' else (s', false)) >>= λ u.
            (set_batch_state undefined u, false)
      ]

  -- DuckdbThdContext::flush_appenders
  unfoldable pub flush_appenders : DuckdbThdContext E → DuckdbThdContext E × Bool
  unfolding flush_all
  flush_appenders s =
      (elim (open_appenders s) [ [] ↦ (s, false) | _ ↦ flush_all false s ]) >>= λ s'.
      (set_batch_state undefined s', false)

  -- DuckdbThdContext::get_appender, which makes the map on first use.
  unfoldable pub context_appender :
      ℕ → DuckdbThdContext E → DuckdbThdContext E × Option (DeltaAppender V)
  unfolding is_insert_only get_appender
  context_appender t s =
      get_appender t (is_insert_only s.batch_state)
        (record s { appenders = some (open_appenders s) })

  -- One row appended to the duckdb::Appender of the table; an error where it is refused.
  unfoldable pub append_to :
      ℕ → DeltaAppender V → Row V → DuckdbThdContext E → DuckdbThdContext E × Bool
  append_to t d row s = elim s.con [
    | none ↦ (s, true)
    | some c ↦ let (c', failed) = E.append c t d row in (record s { con = some c' }, failed)
  ]

  -- The appender goes back to its place in the map.
  unfoldable pub put_back :
      ℕ → DuckdbThdContext E → DeltaAppender V × Bool → DuckdbThdContext E × Bool
  unfolding insert
  put_back t s (d, failed) = (record s { appenders = some (insert t d (open_appenders s)) }, failed)

  -- DuckdbThdContext::append_row_insert
  unfoldable pub context_insert : ℕ → Row V → DuckdbThdContext E → DuckdbThdContext E × Bool
  unfolding context_appender append_to put_back append_row_insert
  context_insert t row s =
      let (s', delta) = context_appender t s in
      elim delta [
        | none ↦ (s', true)
        | some d ↦
            let (u, failed) = append_to t d row s' in
            put_back t u (append_row_insert (not failed) row d)
      ]

  -- The append of a deleted row's key, which the guard for plain appenders comes before.
  unfoldable pub append_delete :
      ℕ → DeltaAppender V → Row V → DuckdbThdContext E → DuckdbThdContext E × Bool
  unfolding append_to
  append_delete t d old_row s = if d.use_tmp_table then append_to t d old_row s else (s, false)

  -- DuckdbThdContext::append_row_delete
  unfoldable pub context_delete : ℕ → Row V → DuckdbThdContext E → DuckdbThdContext E × Bool
  unfolding context_appender append_delete put_back append_row_delete
  context_delete t old_row s =
      let (s', delta) = context_appender t s in
      elim delta [
        | none ↦ (s', true)
        | some d ↦
            let (u, failed) = append_delete t d old_row s' in
            put_back t u (append_row_delete (not failed) old_row d)
      ]

  -- DuckdbThdContext::append_row_update: the delete, and if that went well the insert.
  unfoldable pub context_update : ℕ → Row V → Row V → DuckdbThdContext E → DuckdbThdContext E × Bool
  unfolding context_appender append_delete append_to put_back append_row_update append_row_delete
  context_update t old_row row s =
      let (s', delta) = context_appender t s in
      elim delta [
        | none ↦ (s', true)
        | some d ↦
            let marked = record d { has_update = true } in
            let (u, refused) = append_delete t marked old_row s' in
            let (d', failed) = append_row_delete (not refused) old_row marked in
            let (w, refused') = if failed then (u, false) else append_to t d' row u in
            put_back t w (append_row_update (not refused) (not refused') old_row row d)
      ]
