-- ===== src/Session/Outcomes/Calls.antt =====
-- Every call of the handlerton and the handler keeps the session's invariant.
use duckdb_engine.Prelude.{
  ◌+◌, Bool, inl, inr, ◌||◌, true, false, not, ◌≡◌, Bool-cases, if-keeps, option-keeps,
}
use duckdb_engine.Session.State.{Environment, DuckdbThdContext, Statement, begin, undefined, send}
use duckdb_engine.Session.Context.{
  has_transaction, duckdb_trans_begin, duckdb_trans_commit, duckdb_trans_rollback, flush_appenders,
}
use duckdb_engine.Session.Handlers.{
  Handler, duckdb_prepare, or_rollback, duckdb_commit, duckdb_rollback, duckdb_register_trx,
}
use duckdb_engine.Session.Invariant.{Inv}
use duckdb_engine.Session.Invariant.Frame.{SameBatch, same-Inv, send-same}
use duckdb_engine.Session.Invariant.Steps.{
  Ends, keep-then, Nothing, Nothing-Inv, flush_appenders-Ends, trans_rollback-Nothing,
  trans_commit-Nothing,
}

module _ {V : Type 0} {E : Environment V} where
  -- A call keeps the invariant, whether it succeeds or fails.
  abbrev pub Keeps : Handler E → Type 0
  Keeps f = (s : DuckdbThdContext E) → Inv s → Inv (f s).0

  pub send-Keeps : (stmt : Statement V) → Keeps (send stmt)
  send-Keeps stmt s inv = same-Inv s (send stmt s).0 (send-same stmt s) inv

  Ends-Inv :
      (s : DuckdbThdContext E)
      → (r : DuckdbThdContext E × Bool) → Inv s
      → Ends (λ u. Nothing u × (u.batch_state ≡ undefined)) (SameBatch s) r
      → Inv r.0
  Ends-Inv s (u, true) inv same = same-Inv s u same inv
  Ends-Inv s (u, false) inv done = Nothing-Inv u done.0

  pub flush_appenders-Keeps : Keeps (flush_appenders {E = E})
  flush_appenders-Keeps s inv = Ends-Inv s (flush_appenders s) inv (flush_appenders-Ends s)

  pub register_trx-Keeps : Keeps (duckdb_register_trx {E = E})
  unfolding duckdb_register_trx duckdb_trans_begin
  register_trx-Keeps s inv =
      option-keeps (λ (r : DuckdbThdContext E × Bool). Inv r.0) s.con (λ _. inv)
        (λ _ _.
          if-keeps (λ (r : DuckdbThdContext E × Bool). Inv r.0) (has_transaction s) (λ _. inv)
            (λ _. send-Keeps begin s inv))

  pub prepare-Keeps :
      (all in_transaction : Bool) → Keeps (duckdb_prepare {E = E} all in_transaction)
  unfolding duckdb_prepare
  prepare-Keeps all in_transaction s inv =
      if-keeps (λ (r : DuckdbThdContext E × Bool). Inv r.0) (all || not in_transaction)
        (λ _. flush_appenders-Keeps s inv) (λ _. inv)

  pub rollback-Keeps :
      (all in_transaction : Bool) → Keeps (duckdb_rollback {E = E} all in_transaction)
  unfolding duckdb_rollback
  rollback-Keeps all in_transaction s inv =
      let counted = record s { status = record s.status { rollbacks = s.status.rollbacks + 1 } } in
      if-keeps (λ (r : DuckdbThdContext E × Bool). Inv r.0) (all || not in_transaction)
        (λ _. Nothing-Inv (duckdb_trans_rollback counted).0 (trans_rollback-Nothing counted))
        (λ _. inv)

  or_rollback-Keeps :
      (s : DuckdbThdContext E)
      → (r : DuckdbThdContext E × Bool) → Inv s
      → Ends Inv (SameBatch s) r
      → Inv (or_rollback r).0
  unfolding or_rollback
  or_rollback-Keeps s (u, true) inv ends =
      Nothing-Inv (duckdb_trans_rollback u).0 (trans_rollback-Nothing u)
  or_rollback-Keeps s (u, false) inv ends = ends

  -- Both steps of a commit answer an error by a rollback.
  commit_steps-Nothing :
      (r : DuckdbThdContext E × Bool)
      → Ends (λ u. Nothing u × (u.batch_state ≡ undefined)) (λ u. Unit) r
      → Nothing (or_rollback r).0
  unfolding or_rollback
  commit_steps-Nothing (u, true) ends = trans_rollback-Nothing u
  commit_steps-Nothing (u, false) ends = ends.0

  or_rollback-Nothing : (r : DuckdbThdContext E × Bool) → Nothing r.0 → Nothing (or_rollback r).0
  unfolding or_rollback
  or_rollback-Nothing (u, true) e = trans_rollback-Nothing u
  or_rollback-Nothing (u, false) e = e

  weaken :
      (s : DuckdbThdContext E)
      → (r : DuckdbThdContext E × Bool)
      → Ends (λ u. Nothing u × (u.batch_state ≡ undefined)) (SameBatch s) r
      → Ends (λ u. Nothing u × (u.batch_state ≡ undefined)) (λ u. Unit) r
  weaken s (u, true) ends = tt
  weaken s (u, false) ends = ends

  -- The end of a transaction by duckdb_commit, from its flush on.
  pub commit-Nothing :
      (commit_trx in_transaction : Bool)
      → (s : DuckdbThdContext E) → (commit_trx || not in_transaction) ≡ true
      → Nothing (duckdb_commit commit_trx in_transaction s).0
  unfolding duckdb_commit
  commit-Nothing commit_trx in_transaction s ends =
      let counted = record s { status = record s.status { commits = s.status.commits + 1 } } in
      if-keeps (λ (r : DuckdbThdContext E × Bool). Nothing r.0) (commit_trx || not in_transaction)
        (λ _.
          keep-then Nothing (or_rollback (flush_appenders counted))
            (λ u. or_rollback (duckdb_trans_commit u))
            (commit_steps-Nothing (flush_appenders counted)
              (weaken counted (flush_appenders counted) (flush_appenders-Ends counted)))
            (λ u e. or_rollback-Nothing (duckdb_trans_commit u) (trans_commit-Nothing u e)))
        (λ no. cc)

  pub commit-Keeps :
      (commit_trx in_transaction : Bool) → Keeps (duckdb_commit {E = E} commit_trx in_transaction)
  unfolding duckdb_commit
  commit-Keeps commit_trx in_transaction s inv =
      elim (Bool-cases (commit_trx || not in_transaction)) [
        | inl ends ↦
            Nothing-Inv (duckdb_commit commit_trx in_transaction s).0
              (commit-Nothing commit_trx in_transaction s ends)
        | inr stays ↦
            if-keeps (λ (r : DuckdbThdContext E × Bool). Inv r.0) (commit_trx || not in_transaction)
              (λ e. cc) (λ _. inv)
      ]
