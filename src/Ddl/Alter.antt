-- ===== src/Ddl/Alter.antt =====
-- The convertors of ALTER TABLE: AddColumnConvertor, DropColumnConvertor,
-- ChangeColumnDefaultConvertor, ChangeColumnConvertor, ChangeColumnForPrimaryKeyConvertor and
-- RenameTableConvertor of convertor/ddl_convertor.cc. Each gives the statements of its translate(),
-- in their order; the lists that prepare_columns() fills are functions of the tables.
pub mod Wanted
use duckdb_engine.Prelude.{
  ℕ, Bool, true, false, not, ◌&&◌, ◌||◌, Bytes, [], ◌∷◌, ◌++◌, codes, List, Option, none, some, map,
  leb, if◌then◌else◌,
}
use duckdb_engine.Convert.Types.{same_bytes, convert_type}
use duckdb_engine.Ddl.Columns.{
  Column, name_of, same_name, DdlStatement, column_add, column_drop, column_change_type,
  column_rename, column_set_default, column_drop_default, column_set_not_null, column_drop_not_null,
  table_rename,
}
use duckdb_engine.Ddl.Defaults.{
  get_expr_default_text, is_sequence_default, has_mariadb_sequence_func,
  get_field_default_for_duckdb,
}

-- A Create_field: the column as ALTER TABLE names it. `old` is its `field`, `change` the old name
-- that CHANGE COLUMN gives.
pub record CreateField : Type 0 where
  pub field_name : Bytes
  pub change : Option Bytes
  pub old : Option Column
  pub not_null : Bool
  pub no_default_value : Bool
  pub on_update : Bool

unfoldable pub find_field : List Column → Bytes → Option Column
find_field [] name = none
find_field (c ∷ cs) name =
    let rest = find_field cs name in if same_name (name_of c) name then some c else rest

unfoldable pub concat {ℓ} : {A : Type ℓ} → List (List A) → List A
concat [] = []
concat (xs ∷ xss) = xs ++ concat xss

-- One pass of a loop that adds a statement for some columns.
abbrev pub for_each {ℓ} : {A : Type ℓ} → (A → List DdlStatement) → List A → List DdlStatement
for_each f xs = concat (map f xs)

abbrev pub only_if : Bool → List DdlStatement → List DdlStatement
only_if true sts = sts
only_if false sts = []

-- The literal of the default, or the text of the expression.
unfoldable pub default_of : Column → Bytes
default_of c =
    if same_bytes (get_expr_default_text c) []
    then get_field_default_for_duckdb c true
    else codes "(" ++ (get_expr_default_text c ++ codes ")")

-- ADD COLUMN. The pairs are those of m_columns_to_add: the fields with no old column, each with its
-- column of the new table.
unfoldable pub columns_to_add : List Column → List CreateField → List (CreateField × Column)
columns_to_add new_table [] = []
columns_to_add new_table (f ∷ fs) =
    let rest = columns_to_add new_table fs in
    elim f.old [
      | some old ↦ rest
      | none ↦ elim (find_field new_table f.field_name) [ none ↦ rest | some c ↦ (f, c) ∷ rest ]
    ]

unfoldable pub add_default : CreateField → Column → Option Bytes
add_default f c =
    if f.on_update
    then some (codes "CURRENT_TIMESTAMP")
    else if not c.no_default_value
    then (if is_sequence_default c then none else some (get_field_default_for_duckdb c false))
    else if c.not_null
    then some (get_field_default_for_duckdb c false)
    else none

unfoldable pub add_columns : Bool → List (CreateField × Column) → List DdlStatement
add_columns use_double columns =
    for_each
      (λ (p : CreateField × Column).
        column_add p.0.field_name (convert_type use_double p.1.field) (add_default p.0 p.1) ∷ [])
      columns
    ++ (for_each
          (λ (p : CreateField × Column).
            only_if p.0.not_null (column_set_not_null p.0.field_name ∷ []))
          columns
        ++ for_each
            (λ (p : CreateField × Column).
              only_if (p.0.not_null && p.1.no_default_value)
                (column_drop_default p.0.field_name ∷ []))
            columns)

-- DROP COLUMN, from the names of the drop list, or else from what the new table lacks, less the
-- columns that are renamed.
unfoldable pub renamed_old_names : List CreateField → List Bytes
renamed_old_names [] = []
renamed_old_names (f ∷ fs) = elim f.change [
  | none ↦ renamed_old_names fs
  | some name ↦ name ∷ renamed_old_names fs
]

unfoldable pub has_name : List Bytes → Bytes → Bool
has_name [] name = false
has_name (n ∷ ns) name = same_bytes n name || has_name ns name

abbrev pub is_found : Option Column → Bool
is_found none = false
is_found (some c) = true

-- An entry of the drop list: a column, or a key, a constraint and the like.
pub data AlterDrop : Type 0 where
  dropped_column : Bytes → AlterDrop
  dropped_other : AlterDrop

unfoldable pub dropped_columns : List Column → AlterDrop → List Column
dropped_columns old_table dropped_other = []
dropped_columns old_table (dropped_column name) = elim (find_field old_table name) [
  | none ↦ []
  | some c ↦ c ∷ []
]

unfoldable pub columns_to_drop :
    List AlterDrop → List Column → List Column → List CreateField → List Column
columns_to_drop drop_list old_table new_table create_list = elim drop_list [
  | [] ↦ concat (
      map
        (λ (c : Column).
          if has_name (renamed_old_names create_list) (name_of c)
            || is_found (find_field new_table (name_of c))
          then []
          else c ∷ [])
        old_table)
  | drop ∷ drops ↦ concat (map (dropped_columns old_table) (drop ∷ drops))
]

unfoldable pub drop_check : Bool → List Column → Bool
drop_check require_primary_key [] = false
drop_check require_primary_key (c ∷ cs) =
    (require_primary_key && c.pri_key) || drop_check require_primary_key cs

unfoldable pub drop_columns : List Column → List DdlStatement
drop_columns columns = map (λ (c : Column). column_drop (name_of c)) columns

-- ALTER COLUMN … SET DEFAULT and DROP DEFAULT, from the two tables.
pub data DefaultChange : Type 0 where
  keep_default drop_default set_default : DefaultChange

-- `same_value` is sortcmp() == 0 in the collation of the system's character set.
module _ (same_value : Bytes → Bytes → Bool) where
  unfoldable pub same_default : Option Bytes → Option Bytes → Bool
  same_default none none = true
  same_default (some v) none = false
  same_default none (some w) = false
  same_default (some v) (some w) = same_value v w

  -- Two literals of the default records.
  unfoldable pub literal_change : Column → Column → DefaultChange
  unfolding same_default
  literal_change old new =
      if (if old.default_null
        then new.default_null
        else not new.default_null && same_default old.default_str new.default_str)
      then keep_default
      else if new.default_null
      then drop_default
      else set_default

  unfoldable pub default_change : Column → Column → DefaultChange
  default_change old new =
      let old_expr = get_expr_default_text old in
      let new_expr = get_expr_default_text new in
      if not old.no_default_value && new.no_default_value
      then drop_default
      else if not new.no_default_value && old.no_default_value
      then (if is_sequence_default new then drop_default else set_default)
      else if new.no_default_value
      then keep_default
      else if not (same_bytes old_expr []) || not (same_bytes new_expr [])
      then (if same_bytes old_expr new_expr
          then keep_default
          else if has_mariadb_sequence_func new_expr
          then drop_default
          else set_default)
      else literal_change old new

  -- Two passes: the defaults to drop, then those to set.
  unfoldable pub drops_default : DefaultChange → Column → List DdlStatement
  drops_default drop_default c = column_drop_default (name_of c) ∷ []
  drops_default _ c = []

  unfoldable pub sets_default : DefaultChange → Column → List DdlStatement
  sets_default set_default c = column_set_default (name_of c) (default_of c) ∷ []
  sets_default _ c = []

  unfoldable pub change_in : List Column → Column → DefaultChange
  change_in old_table new = elim (find_field old_table (name_of new)) [
    | none ↦ keep_default
    | some old ↦ default_change old new
  ]

  unfoldable pub change_defaults : List Column → List Column → List DdlStatement
  change_defaults old_table new_table =
      for_each (λ (c : Column). drops_default (change_in old_table c) c) new_table
      ++ for_each (λ (c : Column). sets_default (change_in old_table c) c) new_table
