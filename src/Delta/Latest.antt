-- ===== src/Delta/Latest.antt =====
-- The rows that the QUALIFY clause keeps, key by key.
use duckdb_engine.Prelude.{
  ℕ, ◌<◌, ◌≤◌, true, List, [], ◌∷◌, ◌++◌, ◌==◌, ◌≡◌, ◌≢◌, refl, arith, if◌then◌else◌,
}
use duckdb_engine.Delta.{Row, BufferRow, has_key, delete_buffered, is_latest, qualify}

module _ {ℓ} {V : Type ℓ} where
  -- The rows of a key.
  unfoldable pub rows_with : ℕ → List (Row V) → List (Row V)
  rows_with k [] = []
  rows_with k (row ∷ t) = if row.key == k then row ∷ rows_with k t else rows_with k t

  -- The row numbers fall along the list and stay under the bound.
  abbrev pub Falls : ℕ → List (BufferRow V) → Type 0
  Falls n [] = Unit
  Falls n (r ∷ rs) = (r.row_no < n) × Falls r.row_no rs

  Falls-mono : (m n : ℕ) (rs : List (BufferRow V)) → m ≤ n → Falls m rs → Falls n rs
  Falls-mono m n [] h f = tt
  Falls-mono m n (r ∷ rs) h f = (omega arith, f.1)

  pub rows_with-append :
      (k : ℕ) (t u : List (Row V)) → rows_with k (t ++ u) ≡ rows_with k t ++ rows_with k u
  unfolding rows_with
  rows_with-append k [] u = refl
  rows_with-append k (row ∷ t) u = ground (arith, rows_with-append k t u)

  -- A newer row of another key changes nothing for this key.
  pub qualify-other :
      (k : ℕ) (r : BufferRow V) (buffer rs : List (BufferRow V))
      → r.row.key ≢ k
      → rows_with k (qualify (r ∷ buffer) rs) ≡ rows_with k (qualify buffer rs)
  unfolding rows_with qualify
  qualify-other k r buffer [] h = refl
  qualify-other k r buffer (x ∷ rs) h = ground (arith, qualify-other k r buffer rs h)

  -- A newer row of the key hides every older one.
  pub qualify-hidden :
      (r : BufferRow V) (buffer rs : List (BufferRow V))
      → Falls r.row_no rs
      → rows_with r.row.key (qualify (r ∷ buffer) rs) ≡ []
  unfolding rows_with qualify
  qualify-hidden r buffer [] f = refl
  qualify-hidden r buffer (x ∷ rs) f =
      ground (arith, qualify-hidden r buffer rs (Falls-mono x.row_no r.row_no rs (omega arith) f.1))

  -- The newest row passes the clause.
  pub is_latest-older :
      (r : BufferRow V) (rs : List (BufferRow V)) → Falls r.row_no rs → is_latest rs r ≡ true
  unfolding is_latest
  is_latest-older r [] f = refl
  is_latest-older r (x ∷ rs) f =
      ground (arith, is_latest-older r rs (Falls-mono x.row_no r.row_no rs (omega arith) f.1))

  pub delete_buffered-key :
      (k : ℕ) (buffer : List (BufferRow V)) (t : List (Row V))
      → rows_with k (delete_buffered buffer t) ≡ (if has_key k buffer then [] else rows_with k t)
  unfolding rows_with delete_buffered
  delete_buffered-key k buffer [] = ground arith
  delete_buffered-key k buffer (row ∷ t) = ground (arith, delete_buffered-key k buffer t)
