-- ===== src/Session/Invariant/Frame.antt =====
-- The calls that change the connection and nothing else that the invariant speaks of.
use duckdb_engine.Prelude.{
  ℕ, Bool, true, false, not, ◌&&◌, ◌||◌, List, [], ◌∷◌, Option, ◌≡◌, refl, sym, ◌∙◌, subst, arith,
}
use duckdb_engine.Delta.{Row, DeltaAppender}
use duckdb_engine.Session.State.{
  Environment, DuckdbThdContext, Statement, create_buffer, send, ◌>>=◌, open_appenders, entries,
  delete_buffered, insert_latest, drop_buffer,
}
use duckdb_engine.Session.Appenders.{
  cleanup, cleanup_all, make_appender, initialize, flush_rows, send_if, flush, flush_each,
}
use duckdb_engine.Session.Context.{append_to, append_delete}
use duckdb_engine.Session.Invariant.{Inv, Fits}

-- The batch state and the appenders of `u` are those of `s`.
abbrev pub SameBatch :
    {V : Type 0} → {E : Environment V} → DuckdbThdContext E → DuckdbThdContext E → Type 0
SameBatch s u = (u.batch_state ≡ s.batch_state) × (u.appenders ≡ s.appenders)

module _ {V : Type 0} {E : Environment V} where
  pub same_trans : (s u w : DuckdbThdContext E) → SameBatch s u → SameBatch u w → SameBatch s w
  same_trans s u w (p, q) (p', q') = (p' ∙ p, q' ∙ q)

  -- A call behind another one, both of which leave the batch alone.
  pub same-then :
      (s : DuckdbThdContext E)
      → (r : DuckdbThdContext E × Bool) → (f : DuckdbThdContext E → DuckdbThdContext E × Bool)
      → SameBatch s r.0
      → ((u : DuckdbThdContext E) → SameBatch u (f u).0)
      → SameBatch s (r >>= f).0
  same-then s (u, true) f same next = same
  same-then s (u, false) f same next = same_trans s u (f u).0 same (next u)

  pub send-same : (stmt : Statement V) → (s : DuckdbThdContext E) → SameBatch s (send stmt s).0
  unfolding send
  send-same stmt s = ground arith

  pub send_if-same :
      (test : Bool)
      → (stmt : Statement V) → (s : DuckdbThdContext E) → SameBatch s (send_if test stmt s).0
  unfolding send_if
  send_if-same true stmt s = send-same stmt s
  send_if-same false stmt s = (refl, refl)

  pub cleanup-same :
      (t : ℕ) → (d : DeltaAppender V) → (s : DuckdbThdContext E) → SameBatch s (cleanup t d s)
  unfolding cleanup send
  cleanup-same t d s = ground arith

  pub cleanup_all-same :
      (infos : List (ℕ × DeltaAppender V))
      → (s : DuckdbThdContext E) → SameBatch s (cleanup_all infos s)
  unfolding cleanup_all
  cleanup_all-same [] s = (refl, refl)
  cleanup_all-same ((t, d) ∷ infos) s =
      same_trans s (cleanup t d s) (cleanup_all infos (cleanup t d s)) (cleanup-same t d s)
        (cleanup_all-same infos (cleanup t d s))

  pub make_appender-same :
      (t : ℕ)
      → (use_tmp : Bool) → (s : DuckdbThdContext E) → SameBatch s (make_appender t use_tmp s).0
  unfolding make_appender
  make_appender-same t use_tmp s = ground arith

  pub initialize-same :
      (t : ℕ) → (use_tmp : Bool) → (s : DuckdbThdContext E) → SameBatch s (initialize t use_tmp s).0
  unfolding initialize
  initialize-same t true s =
      same-then s (send (create_buffer t) s >>= make_appender t true)
        (λ (s' : DuckdbThdContext E). (s', not (E.has_primary_key t)))
        (same-then s (send (create_buffer t) s) (make_appender t true)
          (send-same (create_buffer t) s) (make_appender-same t true))
        (λ u. (refl, refl))
  initialize-same t false s = make_appender-same t false s

  pub flush_rows-same :
      (t : ℕ) → (d : DeltaAppender V) → (s : DuckdbThdContext E) → SameBatch s (flush_rows t d s).0
  unfolding flush_rows
  flush_rows-same t d s = ground arith

  pub flush-same :
      (idempotent_flag : Bool)
      → (t : ℕ) → (d : DeltaAppender V) → (s : DuckdbThdContext E)
      → SameBatch s (flush idempotent_flag t d s).0
  unfolding flush
  flush-same idempotent_flag t d s =
      let delete_old =
        send_if (d.use_tmp_table && (d.has_delete || idempotent_flag)) (delete_buffered t) in
      let insert_new = send_if (d.use_tmp_table && d.has_insert) (insert_latest t) in
      let flushed = flush_rows t d s in
      same-then s (flushed >>= delete_old >>= insert_new) (send_if d.use_tmp_table (drop_buffer t))
        (same-then s (flushed >>= delete_old) insert_new
          (same-then s flushed delete_old (flush_rows-same t d s) (
            send_if-same (d.use_tmp_table && (d.has_delete || idempotent_flag))
              (delete_buffered t)))
          (send_if-same (d.use_tmp_table && d.has_insert) (insert_latest t)))
        (send_if-same d.use_tmp_table (drop_buffer t))

  pub flush_each-same :
      (idempotent_flag : Bool)
      → (infos : List (ℕ × DeltaAppender V)) → (s : DuckdbThdContext E)
      → SameBatch s (flush_each idempotent_flag infos s).0
  unfolding flush_each
  flush_each-same idempotent_flag [] s = (refl, refl)
  flush_each-same idempotent_flag ((t, d) ∷ infos) s =
      same-then s (flush idempotent_flag t d s) (flush_each idempotent_flag infos)
        (flush-same idempotent_flag t d s) (flush_each-same idempotent_flag infos)

  pub append_to-same :
      (t : ℕ)
      → (d : DeltaAppender V) → (row : Row V) → (s : DuckdbThdContext E)
      → SameBatch s (append_to t d row s).0
  unfolding append_to
  append_to-same t d row s = ground arith

  pub append_delete-same :
      (t : ℕ)
      → (d : DeltaAppender V) → (old_row : Row V) → (s : DuckdbThdContext E)
      → SameBatch s (append_delete t d old_row s).0
  unfolding append_delete append_to
  append_delete-same t d old_row s = ground arith

  -- The invariant reads the batch alone.
  pub same-Inv : (s u : DuckdbThdContext E) → SameBatch s u → Inv s → Inv u
  same-Inv s u (p, q) inv =
      subst (λ b. Fits b (open_appenders u)) (sym p)
        (subst (λ (a : Option (List (ℕ × DeltaAppender V))). Fits s.batch_state (entries a)) (sym q)
          inv)
