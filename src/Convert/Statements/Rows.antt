-- ===== src/Convert/Statements/Rows.antt =====
-- Which rows the WHERE clause of an UPDATE or a DELETE selects, by SQL's logic of three values.
use duckdb_engine.Prelude.{
  Bool, true, false, Bytes, codes, ◌++◌, List, [], ◌∷◌, Option, none, some, All, ◌≡◌, ◌≢◌, ◌⊎◌, inl,
  inr, refl, sym, ap, ◌∙◌, subst, arith, if◌then◌else◌, map,
}
use duckdb_engine.Sql.Quote.{quote_duckdb_identifier}
use duckdb_engine.Convert.Fields.{Field}
use duckdb_engine.Convert.Types.{same_bytes}
use duckdb_engine.Convert.Types.Compare.{same_bytes_refl}
use duckdb_engine.Convert.Values.{value_text, field_value}
use duckdb_engine.Convert.Statements.{
  Column, Table, fill_index_fields_for_where, where_value, compared, delete_statement,
  generate_where_clause,
}
use duckdb_engine.Convert.Statements.Texts.{delete_statement-shape}
use duckdb_engine.Convert.Statements.Shape.{
  where_columns-eq, join, condition, where_clause, qualified_name,
}

pub data Truth : Type 0 where
  yes no unknown : Truth

abbrev pub and_then : Truth → Truth → Truth
and_then yes t = t
and_then no t = no
and_then unknown no = no
and_then unknown yes = unknown
and_then unknown unknown = unknown

-- A value as the literal that stands for it, or NULL.
abbrev pub Value : Type 0
Value = Option Bytes

-- `=` on values: equal literals are equal values, and nothing is equal to NULL.
abbrev pub sql_equal : Value → Value → Truth
sql_equal none v = unknown
sql_equal (some a) none = unknown
sql_equal (some a) (some b) = if same_bytes a b then yes else no

-- The value of a column in a row that the convertor has read.
abbrev pub read : Bool → Field → Value
read use_double f = if f.is_null then none else some (value_text use_double f f.real_type)

abbrev pub literal : Value → Bytes
literal none = codes "NULL"
literal (some t) = t

-- The conditions of a WHERE clause: a column's name and the value that it is compared with.
abbrev pub Condition : Type 0
Condition = Bytes × Value

abbrev pub condition_text : Condition → Bytes
condition_text (name, v) = quote_duckdb_identifier name ++ (codes " = " ++ literal v)

-- The column in the row that the statement is about.
abbrev pub actual : Bool → Column → Field
actual has_old_row c = if has_old_row then c.old_field else c.field

abbrev pub conditions : Bool → Bool → List Column → List Condition
conditions use_double has_old_row [] = []
conditions use_double has_old_row (c ∷ cs) =
    (c.field.field_name, read use_double (compared has_old_row c))
    ∷ conditions use_double has_old_row cs

-- A stored row gives each column's value by its name.
abbrev pub selects : List Condition → (Bytes → Value) → Truth
selects [] row = yes
selects ((name, v) ∷ more) row = and_then (sql_equal (row name) v) (selects more row)

-- The row is in the table: it has, in each of the columns, the value that the server gives.
abbrev pub IsStored : Bool → Bool → List Column → (Bytes → Value) → Type 0
IsStored use_double has_old_row cs row =
    All (λ (c : Column). row c.field.field_name ≡ read use_double (actual has_old_row c)) cs

-- The column is NULL neither in the row that the statement is about nor in the current row.
abbrev pub IsKnown : Bool → Column → Type 0
IsKnown has_old_row c = ((actual has_old_row c).is_null ≡ false) × (c.field.is_null ≡ false)

-- In some column, the row or the current row is NULL.
abbrev pub HasNull : Bool → List Column → Type 0
HasNull has_old_row [] = ⊥
HasNull has_old_row (c ∷ cs) =
    (((actual has_old_row c).is_null ≡ true) ⊎ (c.field.is_null ≡ true)) ⊎ HasNull has_old_row cs

read-literal :
    (use_double : Bool) (f : Field) → literal (read use_double f) ≡ field_value use_double f
unfolding field_value
read-literal use_double f = ground arith

conditions-text :
    (use_double has_old_row : Bool) (cs : List Column)
    → map (condition (where_value use_double has_old_row)) cs
      ≡ map condition_text (conditions use_double has_old_row cs)
conditions-text use_double has_old_row [] = refl
conditions-text use_double has_old_row (c ∷ cs) =
    ap
      (λ v.
        (quote_duckdb_identifier c.field.field_name ++ (codes " = " ++ v))
        ∷ map (condition (where_value use_double has_old_row)) cs)
      (sym (read-literal use_double (compared has_old_row c)))
    ∙ ap
        (λ rest.
          condition_text (c.field.field_name, read use_double (compared has_old_row c)) ∷ rest)
        (conditions-text use_double has_old_row cs)

abbrev pub clause_text : List Condition → Bytes
clause_text [] = []
clause_text (p ∷ ps) = codes " WHERE " ++ join (codes " AND ") (map condition_text (p ∷ ps))

clause-text :
    (use_double has_old_row : Bool) (cs : List Column)
    → where_clause (where_value use_double has_old_row) cs
      ≡ clause_text (conditions use_double has_old_row cs)
clause-text use_double has_old_row [] = refl
clause-text use_double has_old_row (c ∷ cs) =
    ap (λ ts. codes " WHERE " ++ join (codes " AND ") ts)
      (conditions-text use_double has_old_row (c ∷ cs))

abbrev pub column_name : Column → Bytes
column_name c = c.field.field_name

conditions-names :
    (use_double has_old_row : Bool) (cs : List Column)
    → map (λ (p : Condition). p.0) (conditions use_double has_old_row cs) ≡ map column_name cs
conditions-names use_double has_old_row [] = refl
conditions-names use_double has_old_row (c ∷ cs) =
    ap (◌∷◌ c.field.field_name) (conditions-names use_double has_old_row cs)

-- The columns that tell rows apart: those of the primary key, or all.
abbrev pub telling : Table → List Column
telling table = elim table.primary_key [ none ↦ table.columns | some parts ↦ parts ]

-- The WHERE clause that a convertor appends is the text of the conditions, NULL like every other
-- value by `=`.
clause-conditions :
    (use_double has_old_row : Bool) (table : Table) (query : Bytes)
    → generate_where_clause (where_value use_double has_old_row) table query
      ≡ query ++ clause_text (conditions use_double has_old_row (telling table))
unfolding generate_where_clause fill_index_fields_for_where
clause-conditions use_double has_old_row table query =
    where_columns-eq (where_value use_double has_old_row) (telling table) query
    ∙ ap (λ t. query ++ t) (clause-text use_double has_old_row (telling table))

-- A DELETE is the text of the conditions that each compared column has the value of the row, NULL
-- like every other value by `=`.
pub delete_statement-conditions :
    (use_double has_old_row : Bool) (table : Table)
    → delete_statement use_double has_old_row table
      ≡ codes "DELETE FROM "
        ++ (qualified_name table
            ++ clause_text (conditions use_double has_old_row (fill_index_fields_for_where table)))
delete_statement-conditions use_double has_old_row table =
    delete_statement-shape use_double has_old_row table
    ∙ ap (λ t. codes "DELETE FROM " ++ (qualified_name table ++ t))
        (clause-text use_double has_old_row (fill_index_fields_for_where table))

and_then-yes : (t u : Truth) → t ≡ yes → u ≡ yes → and_then t u ≡ yes
and_then-yes t u p q = rw (p, q) refl

sql_equal-own :
    (use_double has_old_row : Bool) (c : Column)
    → IsKnown has_old_row c
    → sql_equal (read use_double (actual has_old_row c)) (read use_double (compared has_old_row c))
      ≡ yes
sql_equal-own use_double true c (e, n) =
    ap (λ (f : Field). sql_equal (read use_double c.old_field) (read use_double f))
      (λ i. record c.old_field { is_null = (n ∙ sym e) i })
    ∙ rw e (rw same_bytes_refl refl)
sql_equal-own use_double false c (e, n) = rw e (rw same_bytes_refl refl)

own_row :
    (use_double has_old_row : Bool) (cs : List Column) (row : Bytes → Value)
    → IsStored use_double has_old_row cs row
    → All (IsKnown has_old_row) cs
    → selects (conditions use_double has_old_row cs) row ≡ yes
own_row use_double has_old_row [] row stored full = refl
own_row use_double has_old_row (c ∷ cs) row (s, stored) (n, full) =
    let v = read use_double (compared has_old_row c) in
    and_then-yes (sql_equal (row c.field.field_name) v)
      (selects (conditions use_double has_old_row cs) row)
      (ap (λ w. sql_equal w v) s ∙ sql_equal-own use_double has_old_row c n)
      (own_row use_double has_old_row cs row stored full)

-- The WHERE clause that an UPDATE or a DELETE appends is the text of conditions, one for each column
-- of the primary key or for each column of the table, which the stored row fulfils, if it has no
-- NULL in these columns before and after its change.
pub conditions-own_row :
    (use_double has_old_row : Bool) (table : Table) (row : Bytes → Value) (query : Bytes)
    → IsStored use_double has_old_row (telling table) row
    → All (IsKnown has_old_row) (telling table)
    → let found = conditions use_double has_old_row (telling table) in
      (generate_where_clause (where_value use_double has_old_row) table query
        ≡ query ++ clause_text found)
      × (map (λ (p : Condition). p.0) found ≡ map column_name (telling table))
      × (selects found row ≡ yes)
conditions-own_row use_double has_old_row table row query stored full = (
  clause-conditions use_double has_old_row table query,
  conditions-names use_double has_old_row (telling table),
  own_row use_double has_old_row (telling table) row stored full,
)

null_first : (v : Value) (t : Truth) → and_then (sql_equal v none) t ≢ yes
null_first none yes = λ e. cc
null_first none no = λ e. cc
null_first none unknown = λ e. cc
null_first (some a) yes = λ e. cc
null_first (some a) no = λ e. cc
null_first (some a) unknown = λ e. cc

null_stored : (v : Value) (t : Truth) → and_then (sql_equal none v) t ≢ yes
null_stored v yes = λ e. cc
null_stored v no = λ e. cc
null_stored v unknown = λ e. cc

null_later : (t u : Truth) → u ≢ yes → and_then t u ≢ yes
null_later yes u h = h
null_later no u h = λ e. cc
null_later unknown yes h = absurd (h refl)
null_later unknown no h = λ e. cc
null_later unknown unknown h = λ e. cc

-- The NULL flag that the WHERE clause goes by is that of the current row.
compared-null :
    (has_old_row : Bool) (c : Column) → (compared has_old_row c).is_null ≡ c.field.is_null
compared-null true c = refl
compared-null false c = refl

read-null : (use_double : Bool) (f : Field) → f.is_null ≡ true → read use_double f ≡ none
read-null use_double f e = rw e refl

null_row :
    (use_double has_old_row : Bool) (cs : List Column) (row : Bytes → Value)
    → IsStored use_double has_old_row cs row
    → HasNull has_old_row cs
    → selects (conditions use_double has_old_row cs) row ≢ yes
null_row use_double has_old_row [] row stored null = absurd null
null_row use_double has_old_row (c ∷ cs) row (s, stored) (inl (inl e)) =
    let v = read use_double (compared has_old_row c) in
    let rest = selects (conditions use_double has_old_row cs) row in
    subst (λ w. and_then (sql_equal w v) rest ≢ yes)
      (sym (s ∙ read-null use_double (actual has_old_row c) e)) (null_stored v rest)
null_row use_double has_old_row (c ∷ cs) row (s, stored) (inl (inr e)) =
    let rest = selects (conditions use_double has_old_row cs) row in
    subst (λ w. and_then (sql_equal (row c.field.field_name) w) rest ≢ yes)
      (sym (read-null use_double (compared has_old_row c) (compared-null has_old_row c ∙ e)))
      (null_first (row c.field.field_name) rest)
null_row use_double has_old_row (c ∷ cs) row (s, stored) (inr null) =
    null_later (sql_equal (row c.field.field_name) (read use_double (compared has_old_row c)))
      (selects (conditions use_double has_old_row cs) row)
      (null_row use_double has_old_row cs row stored null)

-- Where the row has NULL in one of these columns, or an UPDATE gives it NULL there, the conditions
-- that are appended do not select it: in a table with no primary key the statement does not change
-- that row.
pub conditions-null_row :
    (use_double has_old_row : Bool) (table : Table) (row : Bytes → Value) (query : Bytes)
    → IsStored use_double has_old_row (telling table) row
    → HasNull has_old_row (telling table)
    → let found = conditions use_double has_old_row (telling table) in
      (generate_where_clause (where_value use_double has_old_row) table query
        ≡ query ++ clause_text found)
      × (selects found row ≢ yes)
conditions-null_row use_double has_old_row table row query stored null = (
  clause-conditions use_double has_old_row table query,
  null_row use_double has_old_row (telling table) row stored null,
)
