-- ===== src/Session/Invariant/Rows.antt =====
-- The appends of DuckdbThdContext keep the invariant, inside a batch and whatever fails.
use duckdb_engine.Prelude.{
  ℕ, Bool, true, false, not, List, Option, some, ◌≡◌, ◌≢◌, refl, sym, ◌∙◌, subst, if◌then◌else◌,
  if-keeps, option-keeps,
}
use duckdb_engine.Delta.{
  Row, DeltaAppender, new_appender, append_row_insert, append_row_delete, append_row_update,
}
use duckdb_engine.Delta.Buffer.{new_appender-WellFormed}
use duckdb_engine.Session.State.{
  Environment, DuckdbThdContext, BatchState, undefined, open_appenders, entries,
}
use duckdb_engine.Session.Appenders.{
  find, erase, cleanup, initialize, get_appender, delete_appender,
}
use duckdb_engine.Session.Context.{
  is_insert_only, context_appender, append_to, append_delete, put_back, context_insert,
  context_delete, context_update,
}
use duckdb_engine.Session.Invariant.{Fits, Inv}
use duckdb_engine.Session.Invariant.Frame.{
  SameBatch, cleanup-same, initialize-same, append_to-same, append_delete-same,
}
use duckdb_engine.Session.Invariant.Keep.{
  insert-Fits, erase-Fits, Found, find-Found, fresh-Allowed, appended-Found,
}

module _ {V : Type 0} {E : Environment V} where
  -- The state behind a call that stays in the batch `b`.
  abbrev pub Stays : BatchState → DuckdbThdContext E → Type 0
  Stays b u = Fits b (open_appenders u) × (u.batch_state ≡ b)

  unfoldable pub Opened : BatchState → DuckdbThdContext E × Option (DeltaAppender V) → Type 0
  Opened b r = Stays b r.0 × Found b r.1

  same-Stays : (b : BatchState) → (s u : DuckdbThdContext E) → SameBatch s u → Stays b s → Stays b u
  same-Stays b s u (p, q) (fits, e) =
      (subst (λ (a : Option (List (ℕ × DeltaAppender V))). Fits b (entries a)) (sym q) fits, p ∙ e)

  get_appender-Opened :
      (t : ℕ)
      → (b : BatchState) → b ≢ undefined
      → (s : DuckdbThdContext E) → Stays b s
      → Opened b (get_appender t (is_insert_only b) s)
  unfolding get_appender Opened
  get_appender-Opened t b h s stays =
      let fresh = new_appender (not (is_insert_only b)) in
      let opened = initialize t (not (is_insert_only b)) s in
      let kept = same-Stays b s opened.0 (initialize-same t (not (is_insert_only b)) s) stays in
      option-keeps (Opened b) (find t (open_appenders s))
        (λ _.
          if-keeps (Opened b) opened.1
            (λ _. (
              same-Stays b opened.0 (cleanup t fresh opened.0) (cleanup-same t fresh opened.0) kept,
              tt,
            ))
            (λ _. (
              (
                insert-Fits b t fresh (open_appenders opened.0) (fresh-Allowed V b h)
                    (new_appender-WellFormed (not (is_insert_only b))) kept.0,
                kept.1,
              ),
              (fresh-Allowed V b h, new_appender-WellFormed (not (is_insert_only b))),
            )))
        (λ d e. (stays, subst (Found b) e (find-Found b t (open_appenders s) stays.0)))

  pub context_appender-Opened :
      (t : ℕ)
      → (s : DuckdbThdContext E) → s.batch_state ≢ undefined
      → Inv s
      → Opened s.batch_state (context_appender t s)
  unfolding context_appender
  context_appender-Opened t s h inv =
      get_appender-Opened t s.batch_state h (record s { appenders = some (open_appenders s) })
        (inv, refl)

  put_back-Stays :
      (b : BatchState)
      → (t : ℕ) → (s : DuckdbThdContext E) → (r : DeltaAppender V × Bool) → Stays b s
      → Found b (some r.0)
      → Stays b (put_back t s r).0
  unfolding put_back
  put_back-Stays b t s (d, failed) (fits, e) (a, w) =
      (insert-Fits b t d (open_appenders s) a w fits, e)

  pub context_insert-Stays :
      (t : ℕ)
      → (row : Row V) → (s : DuckdbThdContext E) → s.batch_state ≢ undefined
      → Inv s
      → Stays s.batch_state (context_insert t row s).0
  unfolding context_insert Opened
  context_insert-Stays t row s h inv =
      let b = s.batch_state in
      let opened = context_appender t s in
      let (stays, found) = context_appender-Opened t s h inv in
      option-keeps (λ (r : DuckdbThdContext E × Bool). Stays b r.0) opened.1 (λ _. stays)
        (λ d e.
          let sent = append_to t d row opened.0 in
          put_back-Stays b t sent.0 (append_row_insert (not sent.1) row d)
            (same-Stays b opened.0 sent.0 (append_to-same t d row opened.0) stays)
            (appended-Found b (not sent.1) true row row d (subst (Found b) e found)).0)

  pub context_delete-Stays :
      (t : ℕ)
      → (old_row : Row V) → (s : DuckdbThdContext E) → s.batch_state ≢ undefined
      → Inv s
      → Stays s.batch_state (context_delete t old_row s).0
  unfolding context_delete Opened
  context_delete-Stays t old_row s h inv =
      let b = s.batch_state in
      let opened = context_appender t s in
      let (stays, found) = context_appender-Opened t s h inv in
      option-keeps (λ (r : DuckdbThdContext E × Bool). Stays b r.0) opened.1 (λ _. stays)
        (λ d e.
          let sent = append_delete t d old_row opened.0 in
          put_back-Stays b t sent.0 (append_row_delete (not sent.1) old_row d)
            (same-Stays b opened.0 sent.0 (append_delete-same t d old_row opened.0) stays)
            (appended-Found b (not sent.1) true old_row old_row d (subst (Found b) e found)).1)

  pub context_update-Stays :
      (t : ℕ)
      → (old_row row : Row V) → (s : DuckdbThdContext E) → s.batch_state ≢ undefined
      → Inv s
      → Stays s.batch_state (context_update t old_row row s).0
  unfolding context_update Opened
  context_update-Stays t old_row row s h inv =
      let b = s.batch_state in
      let opened = context_appender t s in
      let (stays, found) = context_appender-Opened t s h inv in
      option-keeps (λ (r : DuckdbThdContext E × Bool). Stays b r.0) opened.1 (λ _. stays)
        (λ d e.
          let marked = record d { has_update = true } in
          let first = append_delete t marked old_row opened.0 in
          let after = append_row_delete (not first.1) old_row marked in
          let second = if after.1 then (first.0, false) else append_to t after.0 row first.0 in
          let left =
            same-Stays b opened.0 first.0 (append_delete-same t marked old_row opened.0) stays in
          put_back-Stays b t second.0 (append_row_update (not first.1) (not second.1) old_row row d)
            (if-keeps (λ (r : DuckdbThdContext E × Bool). Stays b r.0) after.1 (λ _. left)
              (λ _.
                same-Stays b first.0 (append_to t after.0 row first.0).0
                  (append_to-same t after.0 row first.0) left))
            (appended-Found b (not first.1) (not second.1) old_row row d
              (subst (Found b) e found)).2)

  pub delete_appender-Stays :
      (t : ℕ) → (s : DuckdbThdContext E) → Inv s → Stays s.batch_state (delete_appender t s)
  unfolding delete_appender
  delete_appender-Stays t s inv =
      let b = s.batch_state in
      option-keeps (Stays b) (find t (open_appenders s)) (λ _. (inv, refl))
        (λ d e.
          let erased = record s { appenders = some (erase t (open_appenders s)) } in
          same-Stays b erased (cleanup t d erased) (cleanup-same t d erased)
            (erase-Fits b t (open_appenders s) inv, refl))
