-- ===== src/Session/Invariant/Keep.antt =====
-- The map of appenders and the append calls keep what the batch state allows.
use duckdb_engine.Prelude.{
  ℕ, Bool, not, List, [], ◌∷◌, Option, none, some, ◌≡◌, ◌≢◌, refl, ◌∙◌, arith, if-keeps, ◌==◌, ltb,
}
use duckdb_engine.Delta.{
  Row, DeltaAppender, new_appender, append_row_insert, append_row_delete, append_row_update,
}
use duckdb_engine.Delta.Buffer.{WellFormed, append-WellFormed}
use duckdb_engine.Session.State.{
  BatchState, undefined, not_in_batch, in_insert_only_batch, in_mix_batch,
}
use duckdb_engine.Session.Appenders.{find, insert, erase}
use duckdb_engine.Session.Context.{is_insert_only}
use duckdb_engine.Session.Invariant.{Allowed, Fits}

-- The kind of appender that a batch makes is the kind that it allows.
pub fresh-Allowed :
    (V : Type 0) (b : BatchState)
    → b ≢ undefined
    → Allowed b (new_appender {V = V} (not (is_insert_only b)))
unfolding new_appender is_insert_only
fresh-Allowed V undefined h = absurd (h refl)
fresh-Allowed V not_in_batch h = tt
fresh-Allowed V in_insert_only_batch h = refl
fresh-Allowed V in_mix_batch h = refl

module _ {V : Type 0} where
  pub insert-Fits :
      (b : BatchState) (t : ℕ) (d : DeltaAppender V) (infos : List (ℕ × DeltaAppender V))
      → Allowed b d
      → WellFormed d
      → Fits b infos
      → Fits b (insert t d infos)
  unfolding insert
  insert-Fits b t d [] a w fits = ((a, w), tt)
  insert-Fits b t d ((u, e) ∷ infos) a w (f, fits) =
      if-keeps (Fits b) (u == t) (λ _. ((a, w), fits))
        (λ _.
          if-keeps (Fits b) (ltb t u) (λ _. ((a, w), (f, fits)))
            (λ _. (f, insert-Fits b t d infos a w fits)))

  pub erase-Fits :
      (b : BatchState) (t : ℕ) (infos : List (ℕ × DeltaAppender V))
      → Fits b infos
      → Fits b (erase t infos)
  unfolding erase
  erase-Fits b t [] fits = tt
  erase-Fits b t ((u, e) ∷ infos) (f, fits) =
      if-keeps (Fits b) (u == t) (λ _. fits) (λ _. (f, erase-Fits b t infos fits))

  -- An appender that the map holds is one of those that the batch state allows.
  abbrev pub Found : BatchState → Option (DeltaAppender V) → Type 0
  Found b none = Unit
  Found b (some d) = Allowed b d × WellFormed d

  pub find-Found :
      (b : BatchState) (t : ℕ) (infos : List (ℕ × DeltaAppender V))
      → Fits b infos
      → Found b (find t infos)
  unfolding find
  find-Found b t [] fits = tt
  find-Found b t ((u, e) ∷ infos) (f, fits) =
      if-keeps (Found b) (u == t) (λ _. f) (λ _. find-Found b t infos fits)

  -- What is allowed is read off the kind of the appender alone.
  Allowed-kind :
      (b : BatchState) (d e : DeltaAppender V)
      → e.use_tmp_table ≡ d.use_tmp_table
      → Allowed b d
      → Allowed b e
  Allowed-kind undefined d e p a = a
  Allowed-kind not_in_batch d e p a = tt
  Allowed-kind in_insert_only_batch d e p a = p ∙ a
  Allowed-kind in_mix_batch d e p a = p ∙ a

  insert-kind :
      (done : Bool) (row : Row V) (d : DeltaAppender V)
      → (append_row_insert done row d).0.use_tmp_table ≡ d.use_tmp_table
  unfolding append_row_insert
  insert-kind done row d = ground arith

  delete-kind :
      (done : Bool) (row : Row V) (d : DeltaAppender V)
      → (append_row_delete done row d).0.use_tmp_table ≡ d.use_tmp_table
  unfolding append_row_delete
  delete-kind done row d = ground arith

  update-kind :
      (deleted inserted : Bool) (old_row row : Row V) (d : DeltaAppender V)
      → (append_row_update deleted inserted old_row row d).0.use_tmp_table ≡ d.use_tmp_table
  unfolding append_row_update append_row_delete append_row_insert
  update-kind deleted inserted old_row row d = ground arith

  pub appended-Found :
      (b : BatchState) (done also_done : Bool) (old_row row : Row V) (d : DeltaAppender V)
      → Found b (some d)
      → Found b (some (append_row_insert done row d).0)
        × Found b (some (append_row_delete done old_row d).0)
        × Found b (some (append_row_update done also_done old_row row d).0)
  appended-Found b done also_done old_row row d (a, w) =
      let (i, e, u) = append-WellFormed done also_done old_row row d w in
      (
        (Allowed-kind b d _ (insert-kind done row d) a, i),
        (Allowed-kind b d _ (delete-kind done old_row d) a, e),
        (Allowed-kind b d _ (update-kind done also_done old_row row d) a, u),
      )
