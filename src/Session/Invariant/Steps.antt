-- ===== src/Session/Invariant/Steps.antt =====
-- The methods of DuckdbThdContext keep the invariant, and where a flush succeeds nothing is pending.
use duckdb_engine.Prelude.{
  ℕ, Bool, true, false, List, [], ◌∷◌, none, some, ◌≡◌, refl, sym, ap, ◌∙◌, subst, if◌then◌else◌,
  if-keeps, option-keeps,
}
use duckdb_engine.Delta.{DeltaAppender}
use duckdb_engine.Session.State.{
  Environment, DuckdbThdContext, Statement, undefined, commit, rollback, send, ◌>>=◌,
  open_appenders, entries,
}
use duckdb_engine.Session.Appenders.{cleanup_all, flush_each, flush_all, discard_all}
use duckdb_engine.Session.Context.{
  has_transaction, set_batch_state, duckdb_trans_commit, duckdb_trans_rollback, flush_appenders,
}
use duckdb_engine.Session.Invariant.{Fits, Inv}
use duckdb_engine.Session.Invariant.Frame.{SameBatch, send-same, cleanup_all-same, flush_each-same}

-- What is true of a session behind a call: the one condition where the call succeeds, the other
-- where it fails.
abbrev pub Ends :
    {V : Type 0}
    → {E : Environment V} → (good bad : DuckdbThdContext E → Type 0) → DuckdbThdContext E × Bool
    → Type 0
Ends good bad (s, true) = bad s
Ends good bad (s, false) = good s

module _ {V : Type 0} {E : Environment V} where
  pub Ends-then :
      (good mid bad : DuckdbThdContext E → Type 0)
      → (r : DuckdbThdContext E × Bool) → (f : DuckdbThdContext E → DuckdbThdContext E × Bool)
      → Ends mid bad r
      → ((s : DuckdbThdContext E) → mid s → Ends good bad (f s))
      → Ends good bad (r >>= f)
  Ends-then good mid bad (s, true) f ends next = ends
  Ends-then good mid bad (s, false) f ends next = next s ends

  -- A condition that every part of a call keeps.
  pub keep-then :
      (P : DuckdbThdContext E → Type 0)
      → (r : DuckdbThdContext E × Bool) → (f : DuckdbThdContext E → DuckdbThdContext E × Bool)
      → P r.0
      → ((s : DuckdbThdContext E) → P s → P (f s).0)
      → P (r >>= f).0
  keep-then P (s, true) f p next = p
  keep-then P (s, false) f p next = next s p

  abbrev pub Nothing : DuckdbThdContext E → Type 0
  Nothing s = open_appenders s ≡ []

  pub Nothing-Inv : (s : DuckdbThdContext E) → Nothing s → Inv s
  Nothing-Inv s e = subst (Fits s.batch_state) (sym e) tt

  same-Nothing : (s u : DuckdbThdContext E) → SameBatch s u → Nothing s → Nothing u
  same-Nothing s u (p, q) e = ap entries q ∙ e

  clear-Ends :
      (s : DuckdbThdContext E)
      → (r : DuckdbThdContext E × Bool) → SameBatch s r.0
      → Ends Nothing
          (SameBatch s)
          (r >>= λ s'. (cleanup_all (open_appenders s') (record s' { appenders = some [] }), false))
  clear-Ends s (u, true) same = same
  clear-Ends s (u, false) same =
      ap entries (cleanup_all-same (open_appenders u) (record u { appenders = some [] })).1

  flush_all-Ends : (s : DuckdbThdContext E) → Ends Nothing (SameBatch s) (flush_all false s)
  unfolding flush_all
  flush_all-Ends s =
      clear-Ends s (flush_each false (open_appenders s) s)
        (flush_each-same false (open_appenders s) s)

  flush_some-Ends :
      (s : DuckdbThdContext E)
      → (infos : List (ℕ × DeltaAppender V)) → open_appenders s ≡ infos
      → Ends Nothing (SameBatch s) (elim infos as (λ _. DuckdbThdContext E × Bool) [
        | [] ↦ (s, false)
        | _ ↦ flush_all false s
      ])
  flush_some-Ends s [] e = e
  flush_some-Ends s (info ∷ infos) e = flush_all-Ends s

  -- flush_appenders: where it succeeds nothing is pending and no batch is open; where it fails the
  -- session is as it was, but for its connection.
  pub flush_appenders-Ends :
      (s : DuckdbThdContext E)
      → Ends (λ u. Nothing u × (u.batch_state ≡ undefined)) (SameBatch s) (flush_appenders s)
  unfolding flush_appenders
  flush_appenders-Ends s =
      Ends-then (λ u. Nothing u × (u.batch_state ≡ undefined)) Nothing (SameBatch s)
        (elim (open_appenders s) as (λ _. DuckdbThdContext E × Bool) [
          | [] ↦ (s, false)
          | _ ↦ flush_all false s
        ])
        (λ u. (set_batch_state undefined u, false)) (flush_some-Ends s (open_appenders s) refl)
        (λ u e. (e, refl))

  -- The end of a transaction behind its statement, COMMIT or ROLLBACK.
  abbrev trans_end : Statement V → DuckdbThdContext E → DuckdbThdContext E × Bool
  trans_end stmt s = elim s.con [
    | none ↦ (s, true)
    | some _ ↦ (if has_transaction s then send stmt s else (s, false)) >>= λ u.
        (set_batch_state undefined u, false)
  ]

  trans_end-Nothing :
      (stmt : Statement V) → (s : DuckdbThdContext E) → Nothing s → Nothing (trans_end stmt s).0
  trans_end-Nothing stmt s e =
      option-keeps (λ (r : DuckdbThdContext E × Bool). Nothing r.0) s.con (λ _. e)
        (λ _ _.
          keep-then Nothing (if has_transaction s then send stmt s else (s, false))
            (λ u. (set_batch_state undefined u, false))
            (if-keeps (λ (r : DuckdbThdContext E × Bool). Nothing r.0) (has_transaction s)
              (λ _. same-Nothing s (send stmt s).0 (send-same stmt s) e) (λ _. e))
            (λ u p. p))

  pub trans_rollback-Nothing : (s : DuckdbThdContext E) → Nothing (duckdb_trans_rollback s).0
  unfolding duckdb_trans_rollback discard_all
  trans_rollback-Nothing s =
      trans_end-Nothing rollback (discard_all s)
        (ap entries (cleanup_all-same (open_appenders s) (record s { appenders = none })).1)

  pub trans_commit-Nothing :
      (s : DuckdbThdContext E) → Nothing s → Nothing (duckdb_trans_commit s).0
  unfolding duckdb_trans_commit
  trans_commit-Nothing s e = trans_end-Nothing commit s e
