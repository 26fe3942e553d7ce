-- ===== src/Session/Invariant.antt =====
-- What holds of a session between calls: the kind of every open appender fits the batch state, and
-- every buffer is well formed. `Frame` is about the calls that leave both alone.
pub mod Frame
pub mod Keep
pub mod Steps
pub mod Rows
use duckdb_engine.Prelude.{ℕ, Bool, true, false, List, [], ◌∷◌, All, ◌≡◌}
use duckdb_engine.Delta.{DeltaAppender}
use duckdb_engine.Delta.Buffer.{WellFormed}
use duckdb_engine.Session.State.{
  Environment, DuckdbThdContext, BatchState, undefined, not_in_batch, in_insert_only_batch,
  in_mix_batch, open_appenders,
}

module _ {V : Type 0} where
  -- The appenders that a batch state allows: none before a batch, plain ones in a batch of inserts
  -- alone, buffered ones in a mixed batch, and whatever was left behind outside a batch.
  abbrev pub Allowed : BatchState → DeltaAppender V → Type 0
  Allowed undefined d = ⊥
  Allowed not_in_batch d = Unit
  Allowed in_insert_only_batch d = d.use_tmp_table ≡ false
  Allowed in_mix_batch d = d.use_tmp_table ≡ true

  abbrev pub Fits : BatchState → List (ℕ × DeltaAppender V) → Type 0
  Fits b = All (λ (entry : ℕ × DeltaAppender V). Allowed b entry.1 × WellFormed entry.1)

abbrev pub Inv : {V : Type 0} → {E : Environment V} → DuckdbThdContext E → Type 0
Inv s = Fits s.batch_state (open_appenders s)
