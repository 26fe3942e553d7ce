-- ===== src/Sql/Quote/RoundTrip.antt =====
-- Quoted names stand for the names that were quoted, and the three ways to quote agree.
use duckdb_engine.Prelude.{
  ℕ, true, false, [], ◌∷◌, ◌++◌, Bytes, codes, ◌==◌, ◌≡◌, refl, sym, ap, ◌∙◌, arith, Bool-cases,
  inl, inr, append_assoc, append-nil,
}
use duckdb_engine.Sql.Region.{quoted, backtick, scan_sql_region}
use duckdb_engine.Sql.Region.Enclosed.{scan-enclose}
use duckdb_engine.Sql.Quote.{
  double, enclose, quote_duckdb_identifier, append_doubled, append_quoted_identifier,
  escape_backticks, undouble,
}
use duckdb_engine.Sql.Quote.Sequence.{
  autoinc_sequence_name, qualified_sequence, autoinc_nextval_expr,
}

undouble-cons :
    (q c : ℕ) (s : Bytes)
    → (c == q) ≡ false
    → undouble q (c ∷ double q s) ≡ c ∷ undouble q (double q s)
unfolding undouble double
undouble-cons q c [] h = refl
undouble-cons q c (d ∷ s) h = ground arith

undouble-both :
    (q c : ℕ) (s : Bytes)
    → (c == q) ≡ true
    → undouble q (q ∷ c ∷ double q s) ≡ c ∷ undouble q (double q s)
unfolding undouble
undouble-both q c s h = ground arith

-- Reading a doubled text back gives the text.
pub undouble-double : (q : ℕ) (s : Bytes) → undouble q (double q s) ≡ s
unfolding double
undouble-double q [] = unfold undouble in refl
undouble-double q (c ∷ s) = elim (Bool-cases (c == q)) [
  | inl e ↦ rw e (undouble-both q c s e ∙ ap (◌∷◌ c) (undouble-double q s))
  | inr e ↦ rw e (undouble-cons q c s e ∙ ap (◌∷◌ c) (undouble-double q s))
]

append_doubled-eq : (target s : Bytes) → append_doubled target s ≡ target ++ double b'"' s
unfolding append_doubled double
append_doubled-eq target [] = sym (append-nil target)
append_doubled-eq target (c ∷ s) = elim (Bool-cases (c == b'"')) [
  | inl e ↦ rw e (
      append_doubled-eq _ s
      ∙ append_assoc (target ++ b'"' ∷ []) (c ∷ []) (double b'"' s)
      ∙ append_assoc target (b'"' ∷ []) (c ∷ double b'"' s))
  | inr e ↦ rw e (append_doubled-eq _ s ∙ append_assoc target (c ∷ []) (double b'"' s))
]

-- The statement builder of the DML convertors quotes a name as the other code does.
pub append_quoted_identifier-eq :
    (target name : Bytes)
    → append_quoted_identifier target name ≡ target ++ quote_duckdb_identifier name
unfolding append_quoted_identifier quote_duckdb_identifier
append_quoted_identifier-eq target name =
    ap (λ t. t ++ b'"' ∷ []) (append_doubled-eq (target ++ b'"' ∷ []) name)
    ∙ ap (λ t. t ++ b'"' ∷ []) (append_assoc target (b'"' ∷ []) (double b'"' name))
    ∙ append_assoc target (b'"' ∷ double b'"' name) (b'"' ∷ [])

pub escape_backticks-eq : (s : Bytes) → escape_backticks s ≡ double backtick s
unfolding escape_backticks double
escape_backticks-eq [] = refl
escape_backticks-eq (c ∷ s) = ground (arith, escape_backticks-eq s)

-- The default expression of an AUTO_INCREMENT column is a call with one string literal. The literal
-- ends where it was meant to, stands for the qualified name, and the schema in that name ends where
-- it was meant to, whatever bytes the schema and the table have.
pub nextval_literal :
    (schema table : Bytes)
    → (autoinc_nextval_expr schema table
        ≡ codes "nextval(" ++ (enclose b'\'' (qualified_sequence schema table) ++ codes ")"))
      × (scan_sql_region false (enclose b'\'' (qualified_sequence schema table) ++ codes ")")
          ≡ record {
            region = quoted;
            text = enclose b'\'' (qualified_sequence schema table);
            rest = codes ")";
          })
      × (undouble b'\'' (double b'\'' (qualified_sequence schema table))
          ≡ qualified_sequence schema table)
      × (scan_sql_region false (qualified_sequence schema table) ≡ record {
        region = quoted;
        text = quote_duckdb_identifier schema;
        rest = b'.' ∷ quote_duckdb_identifier (autoinc_sequence_name table);
      })
unfolding autoinc_nextval_expr qualified_sequence quote_duckdb_identifier
nextval_literal schema table = (
  ap (λ t. codes "nextval('" ++ t)
      (sym
        (append_assoc (double b'\'' (qualified_sequence schema table)) (b'\'' ∷ []) (codes ")"))),
  scan-enclose b'\'' (qualified_sequence schema table) (codes ")") refl (omega arith),
  undouble-double b'\'' (qualified_sequence schema table),
  scan-enclose b'"' schema (b'.' ∷ quote_duckdb_identifier (autoinc_sequence_name table)) refl
      (omega arith),
)
