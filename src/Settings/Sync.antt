-- ===== src/Settings/Sync.antt =====
-- The connection has the settings that the session wants, and where it has not.
use duckdb_engine.Prelude.{
  Bool, ◌||◌, Bytes, List, [], ==_refl, ◌≡◌, ◌⊎◌, refl, ap, arith, if-keeps, if◌then◌else◌,
}
use duckdb_engine.Convert.Types.{same_bytes}
use duckdb_engine.Convert.Types.Compare.{same_bytes_refl}
use duckdb_engine.Settings.{
  Setting, use_schema, Wanted, Cached, wanted_collation, session_settings, session_cached,
  disabled_optimizers_to_string, env_settings, env_cached, Connection, apply, execute,
}

-- A second call with the same wishes sends nothing, whatever DuckDB said to the first.
pub session_settings-again :
    (names : List Bytes) (w : Wanted) (c : Cached)
    → session_settings names w (session_cached w c) ≡ []
unfolding session_settings session_cached
session_settings-again names w c =
    rw
      (
        same_bytes_refl w.time_zone,
        same_bytes_refl (wanted_collation w),
        ==_refl w.merge_join_threshold,
        ==_refl w.disabled_optimizers,
        same_bytes_refl w.explain_output,
      )
      refl

-- The members are what the connection has, or they have never been set.
abbrev pub Kept : Bytes → Bytes → Type 0
Kept cached v = (cached ≡ []) ⊎ (v ≡ cached)

abbrev pub Synced : List Bytes → Cached → Connection → Type 0
Synced names c d =
    Kept c.current_timezone d.time_zone
    × Kept c.collation d.default_collation
    × (d.merge_join_threshold ≡ c.merge_join_threshold)
    × (d.disabled_optimizers ≡ disabled_optimizers_to_string names c.disabled_optimizers)
    × Kept c.explain_output_str d.explain_output

-- The connection has what the session wants.
abbrev pub Serves : List Bytes → Wanted → Connection → Type 0
Serves names w d =
    (d.time_zone ≡ w.time_zone)
    × (d.default_collation ≡ wanted_collation w)
    × (d.merge_join_threshold ≡ w.merge_join_threshold)
    × (d.disabled_optimizers ≡ disabled_optimizers_to_string names w.disabled_optimizers)
    × (d.explain_output ≡ w.explain_output)

abbrev put : Bool → Setting → Connection → Connection
put same s d = if same then d else apply s d

env_settings-again : (schema : Bytes) (c : Cached) → env_settings schema (env_cached schema c) ≡ []
unfolding env_settings env_cached
env_settings-again schema c =
    if-keeps (λ (k : Cached). env_settings schema k ≡ [])
      (same_bytes schema [] || same_bytes schema c.current_schema) (λ e. rw e refl)
      (λ e. ground (arith, same_bytes_refl schema))

-- A schema that the session has chosen is not chosen again: if a statement of another part has sent
-- USE in between, the connection stays in that other schema.
pub env_settings-stale :
    (accepts : Setting → Bool) (schema other : Bytes) (c : Cached) (d : Connection)
    → (execute accepts
        (env_settings schema (env_cached schema c))
        (apply (use_schema other) d)).schema
      ≡ other
unfolding execute
env_settings-stale accepts schema other c d =
    ap (λ settings. (execute accepts settings (apply (use_schema other) d)).schema)
      (env_settings-again schema c)
