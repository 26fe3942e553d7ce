-- ===== src/Convert/Statements/Shape.antt =====
-- The statements as texts: lists with their separators, and no separator too many or too few.
use duckdb_engine.Prelude.{
  ◌-◌, Bool, Bytes, codes, ◌++◌, List, [], ◌∷◌, map, length, length-append, ◌≡◌, refl, sym, ap, ◌∙◌,
  append_assoc, append-nil, arith,
}
use duckdb_engine.Sql.Quote.{append_quoted_identifier, quote_duckdb_identifier}
use duckdb_engine.Sql.Quote.RoundTrip.{append_quoted_identifier-eq}
use duckdb_engine.Convert.Values.{field_value}
use duckdb_engine.Convert.Statements.{
  Column, Table, take, chop, append_table_name, append_conditions, append_names, append_values,
  append_assignments,
}

-- The texts with the separator between them.
abbrev pub join : Bytes → List Bytes → Bytes
join sep [] = []
join sep (x ∷ []) = x
join sep (x ∷ y ∷ xs) = x ++ (sep ++ join sep (y ∷ xs))

-- The texts with the separator behind each.
abbrev ended : Bytes → List Bytes → Bytes
ended sep [] = []
ended sep (x ∷ xs) = x ++ (sep ++ ended sep xs)

ended-join : (sep x : Bytes) (xs : List Bytes) → ended sep (x ∷ xs) ≡ join sep (x ∷ xs) ++ sep
ended-join sep x [] = ap (λ t. x ++ t) (append-nil sep)
ended-join sep x (y ∷ xs) =
    ap (λ t. x ++ (sep ++ t)) (ended-join sep y xs)
    ∙ ap (λ t. x ++ t) (sym (append_assoc sep (join sep (y ∷ xs)) sep))
    ∙ sym (append_assoc x (sep ++ join sep (y ∷ xs)) sep)

take-zero : (t : Bytes) → take 0 t ≡ []
take-zero [] = refl
take-zero (c ∷ t) = refl

take-length : (s t : Bytes) → take (length s) (s ++ t) ≡ s
take-length [] t = take-zero t
take-length (c ∷ s) t = ap (◌∷◌ c) (take-length s t)

-- To cut off a separator is to undo its appending.
pub chop-append : (s sep : Bytes) → chop (length sep) (s ++ sep) ≡ s
unfolding chop
chop-append s sep =
    let count : length (s ++ sep) - length sep ≡ length s = omega (arith, length-append s sep) in
    ap (λ n. take n (s ++ sep)) count ∙ take-length s sep

pub chop-ended :
    (sep q x : Bytes) (xs : List Bytes)
    → chop (length sep) (q ++ ended sep (x ∷ xs)) ≡ q ++ join sep (x ∷ xs)
chop-ended sep q x xs =
    ap (λ t. chop (length sep) (q ++ t)) (ended-join sep x xs)
    ∙ ap (chop (length sep)) (sym (append_assoc q (join sep (x ∷ xs)) sep))
    ∙ chop-append (q ++ join sep (x ∷ xs)) sep

abbrev pub name_of : Column → Bytes
name_of c = quote_duckdb_identifier c.field.field_name

abbrev pub assignment : Bool → Column → Bytes
assignment use_double c = name_of c ++ (codes " = " ++ field_value use_double c.field)

abbrev pub condition : (Column → Bytes) → Column → Bytes
condition value c = name_of c ++ (codes " = " ++ value c)

-- A name and what follows it, appended to a text.
behind_name :
    (q name t rest : Bytes)
    → (append_quoted_identifier q name ++ t) ++ rest
      ≡ q ++ (quote_duckdb_identifier name ++ (t ++ rest))
behind_name q name t rest =
    append_assoc (append_quoted_identifier q name) t rest
    ∙ ap (λ u. u ++ (t ++ rest)) (append_quoted_identifier-eq q name)
    ∙ append_assoc q (quote_duckdb_identifier name) (t ++ rest)

pub append_names-eq :
    (cs : List Column) (q : Bytes) → append_names cs q ≡ q ++ ended (codes ", ") (map name_of cs)
unfolding append_names
append_names-eq [] q = sym (append-nil q)
append_names-eq (c ∷ cs) q =
    append_names-eq cs (append_quoted_identifier q c.field.field_name ++ codes ", ")
    ∙ behind_name q c.field.field_name (codes ", ") (ended (codes ", ") (map name_of cs))

abbrev pub value_of : Bool → Column → Bytes
value_of use_double c = field_value use_double c.field

pub append_values-eq :
    (use_double : Bool) (cs : List Column) (q : Bytes)
    → append_values use_double cs q ≡ q ++ ended (codes ", ") (map (value_of use_double) cs)
unfolding append_values
append_values-eq use_double [] q = sym (append-nil q)
append_values-eq use_double (c ∷ cs) q =
    let rest = ended (codes ", ") (map (value_of use_double) cs) in
    append_values-eq use_double cs (q ++ (value_of use_double c ++ codes ", "))
    ∙ append_assoc q (value_of use_double c ++ codes ", ") rest
    ∙ ap (λ t. q ++ t) (append_assoc (value_of use_double c) (codes ", ") rest)

-- Assignments and conditions differ in their separators only.
pair_behind :
    (q name eq value sep rest : Bytes)
    → (append_quoted_identifier q name ++ (eq ++ (value ++ sep))) ++ rest
      ≡ q ++ ((quote_duckdb_identifier name ++ (eq ++ value)) ++ (sep ++ rest))
pair_behind q name eq value sep rest =
    behind_name q name (eq ++ (value ++ sep)) rest
    ∙ ap (λ t. q ++ (quote_duckdb_identifier name ++ t))
        (append_assoc eq (value ++ sep) rest
          ∙ ap (λ t. eq ++ t) (append_assoc value sep rest)
          ∙ sym (append_assoc eq value (sep ++ rest)))
    ∙ ap (λ t. q ++ t)
        (sym (append_assoc (quote_duckdb_identifier name) (eq ++ value) (sep ++ rest)))

pub append_assignments-eq :
    (use_double : Bool) (cs : List Column) (q : Bytes)
    → append_assignments use_double cs q ≡ q ++ ended (codes ", ") (map (assignment use_double) cs)
unfolding append_assignments
append_assignments-eq use_double [] q = sym (append-nil q)
append_assignments-eq use_double (c ∷ cs) q =
    let value = field_value use_double c.field in
    append_assignments-eq use_double cs
      (append_quoted_identifier q c.field.field_name ++ (codes " = " ++ (value ++ codes ", ")))
    ∙ pair_behind q c.field.field_name (codes " = ") value (codes ", ")
        (ended (codes ", ") (map (assignment use_double) cs))

pub append_conditions-eq :
    (value : Column → Bytes) (cs : List Column) (q : Bytes)
    → append_conditions value cs q ≡ q ++ ended (codes " AND ") (map (condition value) cs)
unfolding append_conditions
append_conditions-eq value [] q = sym (append-nil q)
append_conditions-eq value (c ∷ cs) q =
    append_conditions-eq value cs
      (append_quoted_identifier q c.field.field_name ++ (codes " = " ++ (value c ++ codes " AND ")))
    ∙ pair_behind q c.field.field_name (codes " = ") (value c) (codes " AND ")
        (ended (codes " AND ") (map (condition value) cs))

abbrev pub qualified_name : Table → Bytes
qualified_name table =
    quote_duckdb_identifier table.db_name ++ (codes "." ++ quote_duckdb_identifier table.table_name)

pub append_table_name-eq :
    (table : Table) (q : Bytes) → append_table_name table q ≡ q ++ qualified_name table
unfolding append_table_name
append_table_name-eq table q =
    append_quoted_identifier-eq (append_quoted_identifier q table.db_name ++ codes ".")
      table.table_name
    ∙ behind_name q table.db_name (codes ".") (quote_duckdb_identifier table.table_name)

-- The WHERE clause over the columns that it compares.
abbrev pub where_clause : (Column → Bytes) → List Column → Bytes
where_clause value [] = []
where_clause value (c ∷ cs) =
    codes " WHERE " ++ join (codes " AND ") (map (condition value) (c ∷ cs))

pub where_columns-eq :
    (value : Column → Bytes) (cs : List Column) (q : Bytes)
    → (elim cs as (λ _. Bytes) [
      | [] ↦ q
      | c ∷ rest ↦ chop 5 (append_conditions value (c ∷ rest) (q ++ codes " WHERE "))
    ])
      ≡ q ++ where_clause value cs
where_columns-eq value [] q = sym (append-nil q)
where_columns-eq value (c ∷ cs) q =
    ap (chop 5) (append_conditions-eq value (c ∷ cs) (q ++ codes " WHERE "))
    ∙ chop-ended (codes " AND ") (q ++ codes " WHERE ") (condition value c)
        (map (condition value) cs)
    ∙ append_assoc q (codes " WHERE ") (join (codes " AND ") (map (condition value) (c ∷ cs)))
