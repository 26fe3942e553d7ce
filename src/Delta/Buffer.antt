-- ===== src/Delta/Buffer.antt =====
-- What the appends keep of a DeltaAppender, and the flush of what they built.
use duckdb_engine.Prelude.{
  ℕ, ◌+◌, Bool, true, false, not, ◌||◌, List, [], ◌∷◌, All, ◌≡◌, refl, sym, ◌∙◌, arith, if-keeps,
  if◌then◌else◌,
}
use mathlib.Core.Bool.{true≢false}
use duckdb_engine.Delta.{
  Row, BufferRow, DeltaAppender, new_appender, append_row, append_row_insert, append_row_delete,
  append_row_update, insert_latest, flush_table,
}
use duckdb_engine.Delta.Latest.{rows_with, Falls}
use duckdb_engine.Delta.Merge.{replay, KeysFree, merge-key, insert-key, delete-key}

module _ {V : Type 0} where
  -- The rows are numbered in their order, and the flags tell which kinds of rows there can be.
  pub record WellFormed (d : DeltaAppender V) : Type 0 where
    pub numbered : Falls (d.row_count + 1) d.rows
    pub only_deletes : d.has_insert ≡ false → All (λ r. r.delete_flag ≡ true) d.rows
    pub only_inserts : d.has_delete ≡ false → All (λ r. r.delete_flag ≡ false) d.rows
    pub deletes_mixed : d.has_delete ≡ true → d.use_tmp_table ≡ true

  pub new_appender-WellFormed : (use_tmp : Bool) → WellFormed (new_appender {V = V} use_tmp)
  unfolding new_appender
  new_appender-WellFormed use_tmp = record {
    numbered = tt;
    only_deletes = λ _. tt;
    only_inserts = λ _. tt;
    deletes_mixed = λ e. cc;
  }

  Falls-raise : (n : ℕ) (rs : List (BufferRow V)) → Falls n rs → Falls (n + 1) rs
  Falls-raise n [] f = tt
  Falls-raise n (r ∷ rs) f = (omega arith, f.1)

  append_row_insert-WellFormed :
      (done : Bool) (row : Row V) (d : DeltaAppender V)
      → WellFormed d
      → WellFormed (append_row_insert done row d).0
  unfolding append_row_insert
  append_row_insert-WellFormed true row d w = record {
    numbered = (omega arith, w.numbered);
    only_deletes = λ e. cc;
    only_inserts = λ e. (refl, w.only_inserts e);
    deletes_mixed = w.deletes_mixed;
  }
  append_row_insert-WellFormed false row d w = record {
    numbered = Falls-raise (d.row_count + 1) d.rows w.numbered;
    only_deletes = λ e. cc;
    only_inserts = w.only_inserts;
    deletes_mixed = w.deletes_mixed;
  }

  -- The row of a delete, where the guard lets it pass.
  delete_row-WellFormed :
      (done : Bool) (row : Row V) (d : DeltaAppender V)
      → d.use_tmp_table ≡ true
      → WellFormed d
      → WellFormed
          (append_row done
            (record { row = row; delete_flag = true; row_no = d.row_count + 1 })
            (record d { row_count = d.row_count + 1; has_delete = true })).0
  unfolding append_row
  delete_row-WellFormed true row d tmp w = record {
    numbered = (omega arith, w.numbered);
    only_deletes = λ e. (refl, w.only_deletes e);
    only_inserts = λ e. cc;
    deletes_mixed = λ _. tmp;
  }
  delete_row-WellFormed false row d tmp w = record {
    numbered = Falls-raise (d.row_count + 1) d.rows w.numbered;
    only_deletes = w.only_deletes;
    only_inserts = λ e. cc;
    deletes_mixed = λ _. tmp;
  }

  append_row_delete-WellFormed :
      (done : Bool) (row : Row V) (d : DeltaAppender V)
      → WellFormed d
      → WellFormed (append_row_delete done row d).0
  unfolding append_row_delete
  append_row_delete-WellFormed done row d w =
      if-keeps (λ (r : DeltaAppender V × Bool). WellFormed r.0) (not d.use_tmp_table) (λ _. w)
        (λ e. delete_row-WellFormed done row d (ground arith) w)

  append_row_update-WellFormed :
      (deleted inserted : Bool) (old_row row : Row V) (d : DeltaAppender V)
      → WellFormed d
      → WellFormed (append_row_update deleted inserted old_row row d).0
  unfolding append_row_update
  append_row_update-WellFormed deleted inserted old_row row d w =
      let after =
        append_row_delete-WellFormed deleted old_row (record d { has_update = true })
          (record {
            numbered = w.numbered;
            only_deletes = w.only_deletes;
            only_inserts = w.only_inserts;
            deletes_mixed = w.deletes_mixed;
          }) in
      if-keeps (λ (r : DeltaAppender V × Bool). WellFormed r.0) _ (λ _. after)
        (λ _. append_row_insert-WellFormed inserted row _ after)

  -- Every append keeps the buffer well formed, whether it succeeds or fails midway.
  pub append-WellFormed :
      (done also_done : Bool) (old_row row : Row V) (d : DeltaAppender V)
      → WellFormed d
      → WellFormed (append_row_insert done row d).0
        × WellFormed (append_row_delete done old_row d).0
        × WellFormed (append_row_update done also_done old_row row d).0
  append-WellFormed done also_done old_row row d w = (
    append_row_insert-WellFormed done row d w,
    append_row_delete-WellFormed done old_row d w,
    append_row_update-WellFormed done also_done old_row row d w,
  )

  no_rows :
      (rs : List (BufferRow V))
      → All (λ r. r.delete_flag ≡ true) rs
      → All (λ r. r.delete_flag ≡ false) rs
      → rs ≡ []
  no_rows [] a b = refl
  no_rows (r ∷ rs) a b = absurd (true≢false (sym a.0 ∙ b.0))

  -- The DELETE and the INSERT that flush() runs over the buffer leave, for every key, the rows that
  -- the row changes leave when they are applied one by one in their order. It holds with and
  -- without the idempotent flag, for a buffer that the appends have built, where every inserted
  -- row's key is free at that moment.
  pub flush-replay :
      (idempotent_flag : Bool) (d : DeltaAppender V) (t : List (Row V)) (k : ℕ)
      → WellFormed d
      → KeysFree d.rows t
      → rows_with k (flush_table idempotent_flag d t) ≡ rows_with k (replay d.rows t)
  unfolding flush_table replay
  flush-replay idem d t k w v =
      if-keeps
        (λ kept.
          rows_with k (if d.has_insert then insert_latest d.rows kept else kept)
          ≡ rows_with k (replay d.rows t))
        (d.has_delete || idem)
        (λ e.
          if-keeps (λ u. rows_with k u ≡ rows_with k (replay d.rows t)) d.has_insert
            (λ _. merge-key k _ d.rows t w.numbered v)
            (λ no_insert. delete-key k _ d.rows t w.numbered v (w.only_deletes no_insert)))
        (λ e.
          if-keeps (λ u. rows_with k u ≡ rows_with k (replay d.rows t)) d.has_insert
            (λ _. insert-key k _ d.rows t w.numbered v (w.only_inserts (ground arith)))
            (λ no_insert.
              rw (no_rows d.rows (w.only_deletes no_insert) (w.only_inserts (ground arith)), replay)
                refl))
