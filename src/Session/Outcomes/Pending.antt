-- ===== src/Session/Outcomes/Pending.antt =====
-- What is pending behind the end of a transaction, a scan
-- and a forwarded statement.
use duckdb_engine.Prelude.{
  arith, ℕ, ◌⊎◌, Bool, true, false, not, [], some, ◌≡◌, ◌≢◌, refl, sym, subst, if-keeps,
  if◌then◌else◌, inl, inr, ◌+◌, option-keeps,
}
use duckdb_engine.Delta.{Row, DeltaAppender, append_row_delete}
use duckdb_engine.Session.State.{
  Environment, DuckdbThdContext, BatchState, undefined, not_in_batch, in_mix_batch, send,
  open_appenders,
}
use duckdb_engine.Session.Context.{
  flush_appenders, context_appender, duckdb_trans_commit, has_transaction, set_batch_state,
}
use duckdb_engine.Session.Handlers.{duckdb_commit, duckdb_rollback, get_batch_state, or_rollback}
use duckdb_engine.Session.Invariant.{Inv}
use duckdb_engine.Session.Invariant.Keep.{Found}
use duckdb_engine.Session.Invariant.Steps.{Ends, Ends-then, Nothing, trans_rollback-Nothing}
use duckdb_engine.Session.Outcomes.Calls.{commit-Nothing}
use mathlib.Core.Bool.{true≢false}
use duckdb_engine.Session.State.{commit, in_insert_only_batch}
use duckdb_engine.Session.Handlers.{ends_transaction}
use duckdb_engine.Session.Invariant.Rows.{Opened, context_appender-Opened}
use duckdb_engine.Session.Outcomes.Batch.{Entered, Entered-defined, Ready, get_batch_state-Ready}

in_mix : (b : BatchState) → Entered false b → b ≢ not_in_batch → b ≡ in_mix_batch
in_mix undefined e h = absurd e
in_mix not_in_batch e h = absurd (h refl)
in_mix in_insert_only_batch e h = absurd (true≢false (sym e))
in_mix in_mix_batch e h = refl

module _ {V : Type 0} {E : Environment V} where
  abbrev Quiet : DuckdbThdContext E → Type 0
  Quiet u = (open_appenders u ≡ []) × (u.batch_state ≡ undefined)

  abbrev Anything : DuckdbThdContext E → Type 0
  Anything u = Unit

  Ends-at :
      (good : DuckdbThdContext E → Type 0)
      → (r : DuckdbThdContext E × Bool) → Ends good Anything r
      → (r.1 ≡ true) ⊎ good r.0
  Ends-at good (u, true) ends = inl refl
  Ends-at good (u, false) ends = inr ends

  anything : (r : DuckdbThdContext E × Bool) → Ends Anything Anything r
  anything (u, true) = tt
  anything (u, false) = tt

  abbrev Closed : DuckdbThdContext E → Type 0
  Closed u = u.batch_state ≡ undefined

  trans_commit-Closed : (s : DuckdbThdContext E) → Ends Closed Anything (duckdb_trans_commit s)
  unfolding duckdb_trans_commit
  trans_commit-Closed s =
      option-keeps (Ends Closed Anything) s.con (λ _. tt)
        (λ _ _.
          Ends-then Closed Anything Anything
            (if has_transaction s then send commit s else (s, false))
            (λ u. (set_batch_state undefined u, false))
            (anything (if has_transaction s then send commit s else (s, false))) (λ u _. refl))

  or_rollback-Ends :
      (good : DuckdbThdContext E → Type 0)
      → (r : DuckdbThdContext E × Bool) → Ends good Anything r
      → Ends good Anything (or_rollback r)
  unfolding or_rollback
  or_rollback-Ends good (u, true) ends = tt
  or_rollback-Ends good (u, false) ends = ends

  commit-Closed :
      (commit_trx in_transaction : Bool)
      → (s : DuckdbThdContext E) → ends_transaction commit_trx in_transaction ≡ true
      → Ends Closed Anything (duckdb_commit commit_trx in_transaction s)
  unfolding duckdb_commit
  commit-Closed commit_trx in_transaction s ends =
      let counted = record s { status = record s.status { commits = s.status.commits + 1 } } in
      if-keeps (Ends Closed Anything) (ends_transaction commit_trx in_transaction)
        (λ _.
          Ends-then Closed Anything Anything (or_rollback (flush_appenders counted))
            (λ u. or_rollback (duckdb_trans_commit u))
            (anything (or_rollback (flush_appenders counted)))
            (λ u _. or_rollback-Ends Closed (duckdb_trans_commit u) (trans_commit-Closed u)))
        (λ no. cc)

  -- A duckdb_commit that ends a transaction leaves nothing pending, whether it commits or an error of
  -- the flush or of the COMMIT makes it roll back; it fails or no batch is
  -- open either. A duckdb_rollback that ends a transaction leaves nothing pending, even where it fails.
  pub commit-leaves_nothing :
      (commit_trx in_transaction : Bool) (s : DuckdbThdContext E)
      → ends_transaction commit_trx in_transaction ≡ true
      → (open_appenders (duckdb_commit commit_trx in_transaction s).0 ≡ [])
        × (((duckdb_commit commit_trx in_transaction s).1 ≡ true)
            ⊎ ((duckdb_commit commit_trx in_transaction s).0.batch_state ≡ undefined))
        × (open_appenders (duckdb_rollback commit_trx in_transaction s).0 ≡ [])
  unfolding duckdb_rollback
  commit-leaves_nothing commit_trx in_transaction s ends =
      let counted = record s { status = record s.status { rollbacks = s.status.rollbacks + 1 } } in
      (
        commit-Nothing commit_trx in_transaction s ends,
        Ends-at Closed (duckdb_commit commit_trx in_transaction s)
            (commit-Closed commit_trx in_transaction s ends),
        if-keeps (λ (r : DuckdbThdContext E × Bool). Nothing r.0)
            (ends_transaction commit_trx in_transaction) (λ _. trans_rollback-Nothing counted)
            (λ no. cc),
      )

  Ends-Ready :
      (r : DuckdbThdContext E × Bool) → Ends (Ready false) Inv r → r.1 ≡ false → Ready false r.0
  Ends-Ready (u, true) ends e = absurd (true≢false e)
  Ends-Ready (u, false) ends e = ends

  -- The guard of append_row_delete, "Delete requires a mixed batch", never fires on the way of the
  -- handler: behind a get_batch_state for an update or a delete, the rows that are not sent as
  -- statements go to an appender with a buffer table, and the append fails only where DuckDB refuses
  -- the row.
  pub delete-guard :
      (s : DuckdbThdContext E) (t : ℕ) (done : Bool) (old_row : Row V) (d : DeltaAppender V)
      → Inv s
      → (get_batch_state false s).1 ≡ false
      → (get_batch_state false s).0.batch_state ≢ not_in_batch
      → (context_appender t (get_batch_state false s).0).1 ≡ some d
      → (append_row_delete done old_row d).1 ≡ not done
  unfolding append_row_delete Opened
  delete-guard s t done old_row d inv entered batch opened =
      let (inv', e) =
        Ends-Ready (get_batch_state false s) (get_batch_state-Ready false s inv) entered in
      let u = (get_batch_state false s).0 in
      let mixed = in_mix u.batch_state e batch in
      let found = context_appender-Opened t u (Entered-defined false u.batch_state e) inv' in
      let tmp = subst (λ b. Found b (some d)) mixed (subst (Found u.batch_state) opened found.1) in
      let buffered = tmp.0 in ground arith
