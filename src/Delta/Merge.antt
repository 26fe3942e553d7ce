-- ===== src/Delta/Merge.antt =====
-- A flush against the row changes one by one: the DELETE and the INSERT over the buffer leave, for
-- every key, the rows that the changes leave when they are applied in the order of their events.
use duckdb_engine.Prelude.{
  ℕ, true, false, List, [], ◌∷◌, ◌++◌, All, ◌==◌, ==_iff, ◌≡◌, refl, sym, ap, ◌∙◌, arith,
  Bool-cases, inl, inr, if◌then◌else◌, append-nil,
}
use duckdb_engine.Delta.{
  Row, BufferRow, has_key, delete_buffered, is_latest, qualify, insert_latest,
}
use duckdb_engine.Delta.Latest.{
  rows_with, Falls, rows_with-append, qualify-other, qualify-hidden, is_latest-older,
  delete_buffered-key,
}

module _ {V : Type 0} where
  -- DELETE FROM t WHERE pk = k
  unfoldable pub delete_key : ℕ → List (Row V) → List (Row V)
  delete_key k [] = []
  delete_key k (row ∷ t) = if row.key == k then delete_key k t else row ∷ delete_key k t

  -- The changes of a buffer applied one by one, the oldest first.
  unfoldable pub replay : List (BufferRow V) → List (Row V) → List (Row V)
  unfolding delete_key
  replay [] t = t
  replay (r ∷ rs) t =
      if r.delete_flag then delete_key r.row.key (replay rs t) else replay rs t ++ r.row ∷ []

  -- Every inserted row has a key that is not in the table at that moment.
  abbrev pub KeysFree : List (BufferRow V) → List (Row V) → Type 0
  KeysFree [] t = Unit
  KeysFree (r ∷ rs) t =
      (r.delete_flag ≡ false → rows_with r.row.key (replay rs t) ≡ []) × KeysFree rs t

  delete_key-key :
      (k j : ℕ) (t : List (Row V))
      → rows_with k (delete_key j t) ≡ (if j == k then [] else rows_with k t)
  unfolding delete_key rows_with
  delete_key-key k j [] = ground arith
  delete_key-key k j (row ∷ t) = ground (arith, delete_key-key k j t)

  rows_with-snoc :
      (k : ℕ) (t : List (Row V)) (row : Row V)
      → rows_with k (t ++ row ∷ [])
        ≡ (if row.key == k then rows_with k t ++ row ∷ [] else rows_with k t)
  unfolding rows_with
  rows_with-snoc k [] row = ground arith
  rows_with-snoc k (x ∷ t) row = ground (arith, rows_with-snoc k t row)

  -- The effect of one more change on the rows of a key.
  replay_step :
      (k : ℕ) (r : BufferRow V) (rs : List (BufferRow V)) (t : List (Row V))
      → rows_with k (replay (r ∷ rs) t) ≡ (
          if r.row.key == k
          then (if r.delete_flag then [] else rows_with k (replay rs t) ++ r.row ∷ [])
          else rows_with k (replay rs t))
  unfolding replay
  replay_step k r rs t =
      ground (arith, delete_key-key k r.row.key (replay rs t), rows_with-snoc k (replay rs t) r.row)

  -- The effect of one more row on what the QUALIFY clause keeps of a key.
  qualify_step :
      (k : ℕ) (r : BufferRow V) (rs : List (BufferRow V))
      → Falls r.row_no rs
      → rows_with k (qualify (r ∷ rs) (r ∷ rs)) ≡ (
          if r.row.key == k
          then (if r.delete_flag then [] else r.row ∷ [])
          else rows_with k (qualify rs rs))
  unfolding qualify is_latest rows_with
  qualify_step k r rs f = elim (Bool-cases (r.row.key == k)) [
    | inl e ↦ ground (arith, is_latest-older r rs f, qualify-hidden r rs rs f)
    | inr e ↦ ground (arith, is_latest-older r rs f, qualify-other k r rs rs)
  ]

  -- A key with no row in the buffer keeps its rows.
  replay-unbuffered :
      (k : ℕ) (rs : List (BufferRow V)) (t : List (Row V))
      → has_key k rs ≡ false
      → rows_with k (replay rs t) ≡ rows_with k t
  unfolding has_key
  replay-unbuffered k [] t h = unfold replay in refl
  replay-unbuffered k (r ∷ rs) t h = ground (arith, replay_step k r rs t, replay-unbuffered k rs t)

  qualify-unbuffered :
      (k : ℕ) (rs : List (BufferRow V)) (n : ℕ)
      → Falls n rs
      → has_key k rs ≡ false
      → rows_with k (qualify rs rs) ≡ []
  unfolding has_key
  qualify-unbuffered k [] n f h = unfold qualify rows_with in refl
  qualify-unbuffered k (r ∷ rs) n f h =
      ground (arith, qualify_step k r rs f.1, qualify-unbuffered k rs r.row_no f.1)

  replay-buffered :
      (k : ℕ) (rs : List (BufferRow V)) (t : List (Row V)) (n : ℕ)
      → Falls n rs
      → KeysFree rs t
      → has_key k rs ≡ true
      → rows_with k (replay rs t) ≡ rows_with k (qualify rs rs)
  unfolding has_key
  replay-buffered k [] t n f v h = cc
  replay-buffered k (r ∷ rs) t n f v h = elim (Bool-cases (r.row.key == k)) [
    | inl e ↦
        let at_k : r.row.key ≡ k = (==_iff r.row.key k).0 e in
        let none_yet = v.0 in
        ground (
          arith,
          replay_step k r rs t,
          qualify_step k r rs f.1,
          none_yet,
          ap (λ j. rows_with j (replay rs t)) at_k,
        )
    | inr e ↦ ground (
      arith,
      replay_step k r rs t,
      qualify_step k r rs f.1,
      replay-buffered k rs t r.row_no f.1 v.1,
    )
  ]

  qualify_deletes :
      (buffer rs : List (BufferRow V)) → All (λ r. r.delete_flag ≡ true) rs → qualify buffer rs ≡ []
  unfolding qualify
  qualify_deletes buffer [] a = refl
  qualify_deletes buffer (r ∷ rs) a = ground (arith, qualify_deletes buffer rs a.1)

  -- A key that only inserts touch was free in the table to begin with.
  inserts_free :
      (k : ℕ) (rs : List (BufferRow V)) (t : List (Row V))
      → All (λ r. r.delete_flag ≡ false) rs
      → KeysFree rs t
      → has_key k rs ≡ true
      → rows_with k t ≡ []
  unfolding has_key
  inserts_free k [] t a v h = cc
  inserts_free k (r ∷ rs) t a v h = elim (Bool-cases (has_key k rs)) [
    | inl e ↦ inserts_free k rs t a.1 v.1 e
    | inr e ↦
        let at_k : r.row.key ≡ k = (==_iff r.row.key k).0 (ground arith) in
        sym (replay-unbuffered k rs t e) ∙ ap (λ j. rows_with j (replay rs t)) (sym at_k) ∙ v.0 a.0
  ]

  pub merge-key :
      (k n : ℕ) (rs : List (BufferRow V)) (t : List (Row V))
      → Falls n rs
      → KeysFree rs t
      → rows_with k (insert_latest rs (delete_buffered rs t)) ≡ rows_with k (replay rs t)
  unfolding insert_latest
  merge-key k n rs t f v =
      rows_with-append k (delete_buffered rs t) (qualify rs rs)
      ∙ ap (λ u. u ++ rows_with k (qualify rs rs)) (delete_buffered-key k rs t)
      ∙ elim (Bool-cases (has_key k rs)) [
        | inl e ↦ rw e (sym (replay-buffered k rs t n f v e))
        | inr e ↦
            rw (e, qualify-unbuffered k rs n f e)
              (append-nil (rows_with k t) ∙ sym (replay-unbuffered k rs t e))
      ]

  -- With inserts alone the INSERT is enough.
  pub insert-key :
      (k n : ℕ) (rs : List (BufferRow V)) (t : List (Row V))
      → Falls n rs
      → KeysFree rs t
      → All (λ r. r.delete_flag ≡ false) rs
      → rows_with k (insert_latest rs t) ≡ rows_with k (replay rs t)
  unfolding insert_latest
  insert-key k n rs t f v a =
      rows_with-append k t (qualify rs rs) ∙ elim (Bool-cases (has_key k rs)) [
        | inl e ↦ rw (inserts_free k rs t a v e) (sym (replay-buffered k rs t n f v e))
        | inr e ↦
            rw (qualify-unbuffered k rs n f e)
              (append-nil (rows_with k t) ∙ sym (replay-unbuffered k rs t e))
      ]

  -- With deletes alone the DELETE is enough.
  pub delete-key :
      (k n : ℕ) (rs : List (BufferRow V)) (t : List (Row V))
      → Falls n rs
      → KeysFree rs t
      → All (λ r. r.delete_flag ≡ true) rs
      → rows_with k (delete_buffered rs t) ≡ rows_with k (replay rs t)
  unfolding insert_latest
  delete-key k n rs t f v a =
      ap (rows_with k) (sym (append-nil (delete_buffered rs t)))
      ∙ ap (λ u. rows_with k (delete_buffered rs t ++ u)) (sym (qualify_deletes rs rs a))
      ∙ merge-key k n rs t f v
