-- ===== src/Ddl/Forwarding.antt =====
-- What the convertors never forward: the default of a server's sequence, and the type of a changed
-- column.
use duckdb_engine.Prelude.{
  Bool, true, false, not, ◌&&◌, ◌||◌, Bytes, [], ◌∷◌, ◌++◌, List, Option, none, some, All, ◌≡◌,
  refl, arith, if◌then◌else◌, if-keeps, option-keeps, Bool-cases, inl, inr, ap,
}
use duckdb_engine.Convert.Types.{same_bytes}
use duckdb_engine.Convert.Types.Compare.{same_bytes-eq}
use duckdb_engine.Ddl.Columns.{
  Column, DdlStatement, column_add, column_change_type, column_set_default,
}
use duckdb_engine.Ddl.Defaults.{
  get_expr_default_text, is_sequence_default, has_mariadb_sequence_func,
}
use duckdb_engine.Ddl.Alter.{
  CreateField, for_each, concat, only_if, add_default, DefaultChange, drop_default, set_default,
  default_change, sets_default,
}
use duckdb_engine.Ddl.Change.{
  rename_statement, type_statement, default_statement, nullable_statement, change_columns,
  is_name_changed, old_expr_text, is_nullable_change,
}
use duckdb_engine.Ddl.Create.{default_clause}

-- A statement that sets no default.
abbrev pub SetsNone : DdlStatement → Type 0
SetsNone (column_set_default name value) = ⊥
SetsNone (column_add name type (some value)) = ⊥
SetsNone _ = Unit {0}

-- A statement that leaves the types of columns alone.
abbrev pub KeepsType : DdlStatement → Type 0
KeepsType (column_change_type name type) = ⊥
KeepsType _ = Unit {0}

module _ (P : DdlStatement → Type 0) where
  All-append : (xs ys : List DdlStatement) → All P xs → All P ys → All P (xs ++ ys)
  All-append [] ys h k = k
  All-append (x ∷ xs) ys (p, h) k = (p, All-append xs ys h k)

  All-for_each :
      {A : Type 0} (f : A → List DdlStatement) (xs : List A)
      → ((a : A) → All P (f a))
      → All P (for_each f xs)
  unfolding concat
  All-for_each f [] h = tt
  All-for_each f (x ∷ xs) h = All-append (f x) (for_each f xs) (h x) (All-for_each f xs h)

  All-only_if : (b : Bool) (sts : List DdlStatement) → All P sts → All P (only_if b sts)
  All-only_if true sts h = h
  All-only_if false sts h = tt

renames-KeepsType : (p : CreateField × Option Column) → All KeepsType (rename_statement p)
unfolding rename_statement
renames-KeepsType (f, c) =
    option-keeps (All KeepsType) f.old (λ _. tt)
      (λ old _. All-only_if KeepsType (is_name_changed f) _ (tt, tt))

types-KeepsType :
    (use_double : Bool) (p : CreateField × Option Column)
    → All KeepsType (type_statement use_double p)
unfolding type_statement
types-KeepsType use_double (f, none) = tt
types-KeepsType use_double (f, some c) = tt

defaults-KeepsType : (p : CreateField × Option Column) → All KeepsType (default_statement p)
unfolding default_statement
defaults-KeepsType (f, none) = All-only_if KeepsType f.no_default_value _ (tt, tt)
defaults-KeepsType (f, some c) =
    if-keeps (All KeepsType) f.no_default_value (λ _. (tt, tt))
      (λ _.
        if-keeps (All KeepsType) c.no_default_value (λ _. tt)
          (λ _.
            if-keeps (All KeepsType) (has_mariadb_sequence_func (get_expr_default_text c))
              (λ _.
                All-only_if KeepsType
                  (not (same_bytes (get_expr_default_text c) (old_expr_text f.old))) _ (tt, tt))
              (λ _. (tt, tt))))

nullable-KeepsType :
    (b : Bool) (p : CreateField × Option Column) → All KeepsType (nullable_statement b p)
unfolding nullable_statement
nullable-KeepsType true (f, c) =
    All-only_if KeepsType (is_nullable_change f f.old && f.not_null) _ (tt, tt)
nullable-KeepsType false (f, c) =
    All-only_if KeepsType (is_nullable_change f f.old && not f.not_null) _ (tt, tt)

-- CHANGE COLUMN and MODIFY COLUMN never change a column's type in DuckDB, whatever the old and the
-- new type are: no statement of theirs is a SET DATA TYPE.
pub change_columns-KeepsType :
    (use_double : Bool) (columns : List (CreateField × Option Column))
    → All KeepsType (change_columns use_double columns)
unfolding change_columns
change_columns-KeepsType use_double columns = pass rename_statement _ renames-KeepsType (
    pass (type_statement use_double) _ (types-KeepsType use_double) (
      pass default_statement _ defaults-KeepsType (
        pass (nullable_statement false) _ (nullable-KeepsType false)
          (All-for_each KeepsType (nullable_statement true) columns (nullable-KeepsType true)))))
  where
    pass :
        (f : CreateField × Option Column → List DdlStatement) (rest : List DdlStatement)
        → ((p : CreateField × Option Column) → All KeepsType (f p))
        → All KeepsType rest
        → All KeepsType (for_each f columns ++ rest)
    pass f rest h k =
        All-append KeepsType (for_each f columns) rest (All-for_each KeepsType f columns h) k

-- The text of a sequence default is not empty.
sequence_text :
    (c : Column) → is_sequence_default c ≡ true → same_bytes (get_expr_default_text c) [] ≡ false
unfolding is_sequence_default
sequence_text c h = elim (Bool-cases (same_bytes (get_expr_default_text c) [])) [
  | inl e ↦ cc (h, no_sequence, ap has_mariadb_sequence_func (same_bytes-eq _ [] e))
  | inr e ↦ e
]
  where
    no_sequence : has_mariadb_sequence_func [] ≡ false
    no_sequence = unfold has_mariadb_sequence_func in refl

module _ (c : Column) (sequence : is_sequence_default c ≡ true)
    (has : c.no_default_value ≡ false) where
  change-SetsNone :
      (same_value : Bytes → Bytes → Bool) (old : Column)
      → All SetsNone (sets_default same_value (default_change same_value old c) c)
  unfolding default_change sets_default is_sequence_default
  change-SetsNone same_value old =
      if-keeps Allowed (not old.no_default_value && c.no_default_value) (λ _. tt)
        (λ _.
          if-keeps Allowed (not c.no_default_value && old.no_default_value) (λ _. unless_sequence)
            (λ _.
              if-keeps Allowed c.no_default_value (λ _. tt)
                (λ _.
                  if-keeps Allowed
                    (not (same_bytes (get_expr_default_text old) [])
                      || not (same_bytes (get_expr_default_text c) []))
                    (λ _.
                      if-keeps Allowed
                        (same_bytes (get_expr_default_text old) (get_expr_default_text c)) (λ _. tt)
                        (λ _. unless_sequence))
                    (λ e. absurd (no_text _ _ (sequence_text c sequence) e)))))
    where
      Allowed : DefaultChange → Type 0
      Allowed change = All SetsNone (sets_default same_value change c)

      unless_sequence : Allowed (
          if has_mariadb_sequence_func (get_expr_default_text c) then drop_default else set_default)
      unless_sequence = rw sequence tt

      no_text : (a b : Bool) → b ≡ false → (a || not b) ≡ false → ⊥
      no_text a b e h = ground arith

  default-SetsNone : (f : CreateField) → All SetsNone (default_statement (f, some c))
  unfolding default_statement is_sequence_default
  default-SetsNone f =
      if-keeps (All SetsNone) f.no_default_value (λ _. (tt, tt))
        (λ _.
          if-keeps (All SetsNone) c.no_default_value (λ _. tt)
            (λ _.
              if-keeps (All SetsNone) (has_mariadb_sequence_func (get_expr_default_text c))
                (λ _.
                  All-only_if SetsNone
                    (not (same_bytes (get_expr_default_text c) (old_expr_text f.old))) _ (tt, tt))
                (λ e. cc (e, sequence))))

  no_clause : default_clause c ≡ []
  unfolding default_clause is_sequence_default
  no_clause =
      if-keeps (λ (t : Bytes). t ≡ []) (c.no_default_value || c.auto_increment) (λ _. refl)
        (λ _.
          if-keeps (λ (t : Bytes). t ≡ []) c.default_value (λ _. rw sequence)
            (λ e. absurd (no_value e (sequence_text c sequence))))
    where
      no_value : c.default_value ≡ false → same_bytes (get_expr_default_text c) [] ≡ false → ⊥
      no_value e h = unfold get_expr_default_text same_bytes in ground arith

  -- A default that draws from a sequence of the server is never forwarded: CREATE TABLE writes no
  -- DEFAULT for it, ADD COLUMN none either, unless the column has ON UPDATE, and neither ALTER
  -- COLUMN nor CHANGE COLUMN sets it.
  pub sequence_default-SetsNone :
      (same_value : Bytes → Bytes → Bool) (f : CreateField) (old : Column)
      → f.on_update ≡ false
      → (default_clause c ≡ [])
        × (add_default f c ≡ none)
        × All SetsNone (sets_default same_value (default_change same_value old c) c)
        × All SetsNone (default_statement (f, some c))
  sequence_default-SetsNone same_value f old h = (
    no_clause,
    unfold add_default in rw (sequence, has, h),
    change-SetsNone same_value old,
    default-SetsNone f,
  )
