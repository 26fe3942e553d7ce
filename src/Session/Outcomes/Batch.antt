-- ===== src/Session/Outcomes/Batch.antt =====
-- get_batch_state and the part of the row calls behind it.
use duckdb_engine.Prelude.{
  ℕ, Bool, true, false, List, [], ◌∷◌, ◌≡◌, ◌≢◌, refl, sym, subst, if◌then◌else◌,
}
use duckdb_engine.Delta.{DeltaAppender}
use duckdb_engine.Session.State.{
  Environment, DuckdbThdContext, BatchState, undefined, not_in_batch, in_insert_only_batch,
  in_mix_batch, open_appenders,
}
use duckdb_engine.Session.Context.{set_batch_state, flush_appenders}
use duckdb_engine.Session.Handlers.{
  next_batch_state, enter_batch, leave_insert_batch, get_batch_state,
}
use duckdb_engine.Session.Invariant.{Fits, Inv}
use duckdb_engine.Session.Invariant.Frame.{SameBatch, same-Inv}
use duckdb_engine.Session.Invariant.Steps.{
  Ends, Ends-then, Nothing, Nothing-Inv, flush_appenders-Ends,
}

-- The states in which a row is handled: a batch of inserts alone takes inserts alone.
abbrev pub Entered : Bool → BatchState → Type 0
Entered insert_only undefined = ⊥
Entered insert_only not_in_batch = Unit
Entered insert_only in_insert_only_batch = insert_only ≡ true
Entered insert_only in_mix_batch = Unit

pub Entered-defined : (insert_only : Bool) (b : BatchState) → Entered insert_only b → b ≢ undefined
Entered-defined insert_only b h e = subst (Entered insert_only) e h

next_batch_state-Entered :
    (dml_in_batch insert_only : Bool)
    → Entered insert_only (next_batch_state dml_in_batch insert_only)
unfolding next_batch_state
next_batch_state-Entered false insert_only = tt
next_batch_state-Entered true true = refl
next_batch_state-Entered true false = tt

module _ {V : Type 0} where
  -- Before a batch no appender is open, and so the appenders fit every state.
  undefined-Fits :
      (b : BatchState) (infos : List (ℕ × DeltaAppender V)) → Fits undefined infos → Fits b infos
  undefined-Fits b [] fits = tt
  undefined-Fits b (info ∷ infos) fits = absurd fits.0.0

  -- Outside a batch every well-formed appender fits.
  pub not_in_batch-Fits :
      (b : BatchState) (infos : List (ℕ × DeltaAppender V)) → Fits b infos → Fits not_in_batch infos
  not_in_batch-Fits b [] fits = tt
  not_in_batch-Fits b (info ∷ infos) ((a, w), fits) = ((tt, w), not_in_batch-Fits b infos fits)

module _ {V : Type 0} {E : Environment V} where
  abbrev pub Ready : Bool → DuckdbThdContext E → Type 0
  Ready insert_only s = Inv s × Entered insert_only s.batch_state

  -- What enter_batch and leave_insert_batch need to know of a session, by its batch state.
  enter_in :
      (insert_only : Bool)
      → (s : DuckdbThdContext E) → (b : BatchState) → s.batch_state ≡ b
      → Fits b (open_appenders s)
      → (b ≡ in_insert_only_batch → insert_only ≡ true)
      → Ends (Ready insert_only) Inv (elim b as (λ _. DuckdbThdContext E × Bool) [
        | undefined ↦ (set_batch_state (next_batch_state E.dml_in_batch insert_only) s, false)
        | _ ↦ (s, false)
      ])
  enter_in insert_only s undefined e fits only = (
    undefined-Fits (next_batch_state E.dml_in_batch insert_only) (open_appenders s) fits,
    next_batch_state-Entered E.dml_in_batch insert_only,
  )
  enter_in insert_only s not_in_batch e fits only =
      (subst (λ b. Fits b (open_appenders s)) (sym e) fits, subst (Entered insert_only) (sym e) tt)
  enter_in insert_only s in_insert_only_batch e fits only = (
    subst (λ b. Fits b (open_appenders s)) (sym e) fits,
    subst (Entered insert_only) (sym e) (only refl),
  )
  enter_in insert_only s in_mix_batch e fits only =
      (subst (λ b. Fits b (open_appenders s)) (sym e) fits, subst (Entered insert_only) (sym e) tt)

  enter_batch-Ready :
      (insert_only : Bool)
      → (s : DuckdbThdContext E) → Inv s
      → (s.batch_state ≡ in_insert_only_batch → insert_only ≡ true)
      → Ends (Ready insert_only) Inv (enter_batch insert_only s)
  unfolding enter_batch
  enter_batch-Ready insert_only s inv only = enter_in insert_only s s.batch_state refl inv only

  Left : Bool → DuckdbThdContext E → Type 0
  Left insert_only s = Inv s × (s.batch_state ≡ in_insert_only_batch → insert_only ≡ true)

  Ends-Left :
      (insert_only : Bool)
      → (s : DuckdbThdContext E) → (r : DuckdbThdContext E × Bool) → Inv s
      → Ends (λ u. Nothing u × (u.batch_state ≡ undefined)) (SameBatch s) r
      → Ends (Left insert_only) Inv r
  unfolding Left
  Ends-Left insert_only s (u, true) inv same = same-Inv s u same inv
  Ends-Left insert_only s (u, false) inv (empty, e) = (Nothing-Inv u empty, λ p. cc)

  leave_in :
      (insert_only : Bool)
      → (s : DuckdbThdContext E) → (b : BatchState) → s.batch_state ≡ b
      → Inv s
      → Ends (Left insert_only) Inv (elim b as (λ _. DuckdbThdContext E × Bool) [
        | in_insert_only_batch ↦ if insert_only then (s, false) else flush_appenders s
        | _ ↦ (s, false)
      ])
  unfolding Left
  leave_in insert_only s undefined e inv = (inv, λ p. cc)
  leave_in insert_only s not_in_batch e inv = (inv, λ p. cc)
  leave_in true s in_insert_only_batch e inv = (inv, λ p. refl)
  leave_in false s in_insert_only_batch e inv =
      Ends-Left false s (flush_appenders s) inv (flush_appenders-Ends s)
  leave_in insert_only s in_mix_batch e inv = (inv, λ p. cc)

  -- Behind get_batch_state a batch is open or the row goes to DuckDB as a statement, and a batch of
  -- inserts alone is left by every other change. Where its flush fails, the session is as before.
  pub get_batch_state-Ready :
      (insert_only : Bool)
      → (s : DuckdbThdContext E) → Inv s
      → Ends (Ready insert_only) Inv (get_batch_state insert_only s)
  unfolding get_batch_state leave_insert_batch Left
  get_batch_state-Ready insert_only s inv =
      Ends-then (Ready insert_only) (Left insert_only) Inv (leave_insert_batch insert_only s)
        (enter_batch insert_only) (leave_in insert_only s s.batch_state refl inv)
        (λ u left. enter_batch-Ready insert_only u left.0 left.1)
