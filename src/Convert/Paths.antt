-- ===== src/Convert/Paths.antt =====
-- common/duckdb_types.cc: DatabaseTableNames and Databasename, which take a table path apart from its
-- end. A scan towards the front is a recursion on the reversed path. `decode` is the server's
-- filename_to_tablename.
pub mod Parts
use duckdb_engine.Prelude.{
  ℕ, Bool, true, false, ◌||◌, ◌&&◌, Bytes, codes, List, [], ◌∷◌, ◌++◌, ◌==◌, if◌then◌else◌,
}
use mathlib.Core.List.{reverse}

abbrev pub is_separator : ℕ → Bool
is_separator c = c == b'\\' || c == b'/'

-- The bytes before the next separator, and what is left from there on.
unfoldable pub seek_separator : Bytes → Bytes × Bytes
seek_separator [] = ([], [])
seek_separator (c ∷ s) =
    let (name, rest) = seek_separator s in if is_separator c then ([], c ∷ s) else (c ∷ name, rest)

unfoldable pub skip_separators : Bytes → Bytes
skip_separators [] = []
skip_separators (c ∷ s) = if is_separator c then skip_separators s else c ∷ s

-- strncmp(s, "#sql", 4) == 0
unfoldable pub is_temporary : Bytes → Bool
is_temporary (a ∷ b ∷ c ∷ d ∷ s) = a == b'#' && b == b's' && c == b'q' && d == b'l'
is_temporary _ = false

pub record DatabaseTableNames : Type 0 where
  pub db_name : Bytes
  pub table_name : Bytes

-- The constructor of DatabaseTableNames.
unfoldable pub database_table_names : (Bytes → Bytes) → Bytes → DatabaseTableNames
unfolding seek_separator skip_separators is_temporary
database_table_names decode name =
    let (table, before) = seek_separator (reverse name) in
    let (db, _) = seek_separator (skip_separators before) in
    record {
      db_name = decode (reverse db);
      table_name = if is_temporary (reverse table) then reverse table else decode (reverse table);
    }

-- The constructor of Databasename, for a path that ends in a separator: `drop_one` is the `ptr--`.
abbrev pub drop_one : Bytes → Bytes
drop_one [] = []
drop_one (c ∷ s) = s

unfoldable pub database_name : (Bytes → Bytes) → Bytes → Bytes
unfolding seek_separator
database_name decode path =
    let (_, before) = seek_separator (reverse path) in
    let (db, _) = seek_separator (drop_one before) in decode (reverse db)
