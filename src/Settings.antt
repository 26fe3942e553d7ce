-- ===== src/Settings.antt =====
-- runtime/duckdb_context.cc: config_duckdb_session and config_duckdb_env, which send a setting of the
-- session to DuckDB only where it differs from the last one sent.
pub mod Sync
use duckdb_engine.Prelude.{
  ℕ, zero, suc, ◌+◌, ◌*◌, ◌/◌, ◌%◌, ◌^◌, Bool, true, false, not, ◌&&◌, ◌||◌, Bytes, codes, ◌++◌,
  List, [], ◌∷◌, ◌==◌, if◌then◌else◌,
}
use duckdb_engine.Convert.Types.{
  same_bytes, Collation, collation_binary, collation_name, get_duckdb_collation,
}
use duckdb_engine.Convert.Fields.{Charset}

-- The statements that are sent: SET of a variable, CREATE SCHEMA IF NOT EXISTS and USE.
pub data Setting : Type 0 where
  set_time_zone set_default_collation set_disabled_optimizers set_explain_output : Bytes → Setting
  set_merge_join_threshold : ℕ → Setting
  create_schema use_schema : Bytes → Setting

-- What the session wants, as THD and the session variables have it: the DuckDB name of its time
-- zone, the character set of the connection, and the variables of the engine.
pub record Wanted : Type 0 where
  pub time_zone : Bytes
  pub force_no_collation : Bool
  pub collation_connection : Charset
  pub merge_join_threshold : ℕ
  pub disabled_optimizers : ℕ
  pub explain_output : Bytes

-- The members m_current_timezone, m_collation and so on of DuckdbThdContext.
pub record Cached : Type 0 where
  pub current_timezone : Bytes
  pub collation : Bytes
  pub merge_join_threshold : ℕ
  pub disabled_optimizers : ℕ
  pub explain_output_str : Bytes
  pub current_schema : Bytes

-- The members as they are initialised.
abbrev pub new_cached : Cached
new_cached = record {
  current_timezone = [];
  collation = [];
  merge_join_threshold = 4611686018427387904;
  disabled_optimizers = 0;
  explain_output_str = [];
  current_schema = [];
}

-- disabled_optimizers_to_string: the names of the bits that are set, with commas between them. `val`
-- is shifted to the bit of the first name.
unfoldable pub optimizers_from : ℕ → List Bytes → Bytes → Bytes
optimizers_from val [] result = result
optimizers_from val (name ∷ names) result = optimizers_from (val / 2) names (
    if val % 2 == 1
    then (if same_bytes result [] then result else result ++ codes ",") ++ name
    else result)

unfoldable pub disabled_optimizers_to_string : List Bytes → ℕ → Bytes
unfolding optimizers_from
disabled_optimizers_to_string names val = optimizers_from val names []

abbrev pub wanted_collation : Wanted → Bytes
wanted_collation w =
    collation_name (
      if w.force_no_collation
      then collation_binary
      else get_duckdb_collation w.collation_connection)

-- One setting that may have changed.
abbrev pub changed : Bool → Setting → List Setting → List Setting
changed same setting more = if same then more else setting ∷ more

-- The statements of config_duckdb_session, in their order. `names` are disabled_optimizers_names.
unfoldable pub session_settings : List Bytes → Wanted → Cached → List Setting
unfolding same_bytes disabled_optimizers_to_string
session_settings names w c =
    changed (same_bytes w.time_zone c.current_timezone) (set_time_zone w.time_zone) (
      changed (same_bytes (wanted_collation w) c.collation)
        (set_default_collation (wanted_collation w))
        (changed (w.merge_join_threshold == c.merge_join_threshold)
          (set_merge_join_threshold w.merge_join_threshold)
          (changed (w.disabled_optimizers == c.disabled_optimizers)
            (set_disabled_optimizers (disabled_optimizers_to_string names w.disabled_optimizers))
            (changed (same_bytes w.explain_output c.explain_output_str)
              (set_explain_output w.explain_output) []))))

-- The members behind config_duckdb_session.
unfoldable pub session_cached : Wanted → Cached → Cached
session_cached w c = record c {
  current_timezone = w.time_zone;
  collation = wanted_collation w;
  merge_join_threshold = w.merge_join_threshold;
  disabled_optimizers = w.disabled_optimizers;
  explain_output_str = w.explain_output;
}

-- config_duckdb_env
unfoldable pub env_settings : Bytes → Cached → List Setting
unfolding same_bytes
env_settings schema c =
    if same_bytes schema [] || same_bytes schema c.current_schema
    then []
    else create_schema schema ∷ use_schema schema ∷ []

unfoldable pub env_cached : Bytes → Cached → Cached
unfolding same_bytes
env_cached schema c =
    if same_bytes schema [] || same_bytes schema c.current_schema
    then c
    else record c { current_schema = schema }

-- The settings of a DuckDB connection.
pub record Connection : Type 0 where
  pub time_zone : Bytes
  pub default_collation : Bytes
  pub merge_join_threshold : ℕ
  pub disabled_optimizers : Bytes
  pub explain_output : Bytes
  pub schema : Bytes

-- What DuckDB documents of the statements, where it accepts them.
abbrev pub apply : Setting → Connection → Connection
apply (set_time_zone v) d = record d { time_zone = v }
apply (set_default_collation v) d = record d { default_collation = v }
apply (set_merge_join_threshold v) d = record d { merge_join_threshold = v }
apply (set_disabled_optimizers v) d = record d { disabled_optimizers = v }
apply (set_explain_output v) d = record d { explain_output = v }
apply (create_schema v) d = d
apply (use_schema v) d = record d { schema = v }

-- The loop over the statements: one that DuckDB refuses is logged, and the next one is sent.
unfoldable pub execute : (Setting → Bool) → List Setting → Connection → Connection
execute accepts [] d = d
execute accepts (s ∷ more) d = execute accepts more (if accepts s then apply s d else d)
