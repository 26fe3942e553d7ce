-- ===== src/Tests/Variables.antt =====
-- A session that has just connected, and a connection with DuckDB's defaults.
use duckdb_engine.Prelude.{true, false, Bytes, codes, List, [], ◌∷◌, ◌≡◌}
use duckdb_engine.Settings.{
  use_schema, Wanted, new_cached, session_settings, session_cached, env_settings, env_cached,
  Connection, apply, execute,
}
use duckdb_engine.Settings.Sync.{session_settings-again, env_settings-stale}

abbrev optimizer_names : List Bytes
optimizer_names = codes "filter_pushdown" ∷ codes "join_order" ∷ []

abbrev wishes : Wanted
wishes = record {
  time_zone = codes "Etc/GMT-3";
  force_no_collation = false;
  collation_connection = record {
    cs_name = codes "utf8mb4";
    is_binsort = false;
    is_lower_sort = false;
    secondary_level = false;
    tertiary_level = false;
  };
  merge_join_threshold = 1000;
  disabled_optimizers = 2;
  explain_output = codes "all";
}

abbrev defaults : Connection
defaults = record {
  time_zone = codes "Etc/GMT";
  default_collation = codes "binary";
  merge_join_threshold = 4611686018427387904;
  disabled_optimizers = [];
  explain_output = codes "physical_only";
  schema = codes "main";
}

session_settings-again_example :
    session_settings optimizer_names wishes (session_cached wishes new_cached) ≡ []
session_settings-again_example = session_settings-again optimizer_names wishes new_cached

env_settings-stale_example :
    (execute
      (λ s. true)
      (env_settings (codes "shop") (env_cached (codes "shop") new_cached))
      (apply (use_schema (codes "stock")) defaults)).schema
    ≡ codes "stock"
env_settings-stale_example =
    env_settings-stale (λ s. true) (codes "shop") (codes "stock") new_cached defaults
