-- ===== src/Session/Appenders.antt =====
-- runtime/delta_appender.cc: Initialize, flush, discard and cleanup of a DeltaAppender on its
-- connection, and class DeltaAppenders, the map from tables to their appenders.
use duckdb_engine.Prelude.{
  ℕ, Bool, true, false, not, ◌&&◌, ◌||◌, List, [], ◌∷◌, Option, none, some, ◌==◌, ltb,
  if◌then◌else◌,
}
use duckdb_engine.Delta.{DeltaAppender, new_appender}
use duckdb_engine.Session.State.{
  Environment, DuckdbThdContext, Statement, create_buffer, drop_buffer, drop_buffer_if_exists,
  delete_buffered, insert_latest, send, ◌>>=◌, ignoring, open_appenders,
}

-- The map m_append_infos.
module _ {V : Type 0} where
  unfoldable pub find : ℕ → List (ℕ × DeltaAppender V) → Option (DeltaAppender V)
  find t [] = none
  find t ((u, d) ∷ infos) = if u == t then some d else find t infos

  -- m_append_infos[key]= …, in the order of the keys.
  unfoldable pub insert :
      ℕ → DeltaAppender V → List (ℕ × DeltaAppender V) → List (ℕ × DeltaAppender V)
  insert t d [] = (t, d) ∷ []
  insert t d ((u, e) ∷ infos) =
      if u == t
      then (t, d) ∷ infos
      else if ltb t u
      then (t, d) ∷ (u, e) ∷ infos
      else (u, e) ∷ insert t d infos

  unfoldable pub erase : ℕ → List (ℕ × DeltaAppender V) → List (ℕ × DeltaAppender V)
  erase t [] = []
  erase t ((u, d) ∷ infos) = if u == t then infos else (u, d) ∷ erase t infos

module _ {V : Type 0} {E : Environment V} where
  -- DeltaAppender::cleanup, which the destructor runs.
  unfoldable pub cleanup : ℕ → DeltaAppender V → DuckdbThdContext E → DuckdbThdContext E
  unfolding send
  cleanup t d s = if d.use_tmp_table then ignoring (send (drop_buffer_if_exists t) s) else s

  -- The destructors of a map that is cleared.
  unfoldable pub cleanup_all : List (ℕ × DeltaAppender V) → DuckdbThdContext E → DuckdbThdContext E
  unfolding cleanup
  cleanup_all [] s = s
  cleanup_all ((t, d) ∷ infos) s = cleanup_all infos (cleanup t d s)

  -- std::make_unique<duckdb::Appender>, which may throw.
  unfoldable pub make_appender : ℕ → Bool → DuckdbThdContext E → DuckdbThdContext E × Bool
  make_appender t use_tmp s = elim s.con [
    | none ↦ (s, true)
    | some c ↦ (s, E.make_appender c t use_tmp)
  ]

  unfoldable pub initialize : ℕ → Bool → DuckdbThdContext E → DuckdbThdContext E × Bool
  unfolding send make_appender
  initialize t use_tmp s =
      if use_tmp
      then (send (create_buffer t) s >>= make_appender t true >>= λ s'.
          (s', not (E.has_primary_key t)))
      else make_appender t false s

  -- DeltaAppenders::get_appender; no appender where its initialisation failed.
  unfoldable pub get_appender :
      ℕ → Bool → DuckdbThdContext E → DuckdbThdContext E × Option (DeltaAppender V)
  unfolding find initialize insert cleanup new_appender
  get_appender t insert_only s = elim (find t (open_appenders s)) [
    | some d ↦ (s, some d)
    | none ↦
        let fresh = new_appender (not insert_only) in
        let (s', failed) = initialize t (not insert_only) s in
        if failed
        then (cleanup t fresh s', none)
        else (record s' { appenders = some (insert t fresh (open_appenders s')) }, some fresh)
  ]

  -- duckdb::Appender::Flush(), which may throw.
  unfoldable pub flush_rows : ℕ → DeltaAppender V → DuckdbThdContext E → DuckdbThdContext E × Bool
  flush_rows t d s = elim s.con [
    | none ↦ (s, true)
    | some c ↦ let (c', failed) = E.flush_rows c t d in (record s { con = some c' }, failed)
  ]

  unfoldable pub send_if : Bool → Statement V → DuckdbThdContext E → DuckdbThdContext E × Bool
  unfolding send
  send_if test stmt s = if test then send stmt s else (s, false)

  -- DeltaAppender::flush
  unfoldable pub flush : Bool → ℕ → DeltaAppender V → DuckdbThdContext E → DuckdbThdContext E × Bool
  unfolding flush_rows send_if
  flush idempotent_flag t d s =
      flush_rows t d s
      >>= send_if (d.use_tmp_table && (d.has_delete || idempotent_flag)) (delete_buffered t)
      >>= send_if (d.use_tmp_table && d.has_insert) (insert_latest t)
      >>= send_if d.use_tmp_table (drop_buffer t)

  unfoldable pub flush_each :
      Bool → List (ℕ × DeltaAppender V) → DuckdbThdContext E → DuckdbThdContext E × Bool
  unfolding flush
  flush_each idempotent_flag [] s = (s, false)
  flush_each idempotent_flag ((t, d) ∷ infos) s =
      flush idempotent_flag t d s >>= flush_each idempotent_flag infos

  -- DeltaAppenders::flush_all; the map is cleared only if every flush succeeded.
  unfoldable pub flush_all : Bool → DuckdbThdContext E → DuckdbThdContext E × Bool
  unfolding flush_each cleanup_all
  flush_all idempotent_flag s = flush_each idempotent_flag (open_appenders s) s >>= λ s'.
      (cleanup_all (open_appenders s') (record s' { appenders = some [] }), false)

  -- DeltaAppenders::discard_all, and the reset of the map's owner.
  unfoldable pub discard_all : DuckdbThdContext E → DuckdbThdContext E
  unfolding cleanup_all
  discard_all s = cleanup_all (open_appenders s) (record s { appenders = none })

  -- DeltaAppenders::delete_appender
  unfoldable pub delete_appender : ℕ → DuckdbThdContext E → DuckdbThdContext E
  unfolding find cleanup erase
  delete_appender t s = elim (find t (open_appenders s)) [
    | none ↦ s
    | some d ↦ cleanup t d (record s { appenders = some (erase t (open_appenders s)) })
  ]
