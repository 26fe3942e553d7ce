-- ===== src/Sql/Rewrite/Identifiers.antt =====
-- What the rewriting does to identifiers: a backticked one becomes the quoted form of the same name,
-- and a quoted one passes as it is.
use duckdb_engine.Prelude.{
  ℕ, true, false, [], ◌∷◌, ◌++◌, Bytes, ◌≡◌, refl, ap, ◌∙◌, arith, ◌==◌, Bool-cases, inl, inr,
}
use duckdb_engine.Sql.Region.{quoted, backtick, is_quote}
use duckdb_engine.Sql.Region.Enclosed.{NotBefore, scan-enclose}
use duckdb_engine.Sql.Quote.{double, enclose, quote_duckdb_identifier}
use duckdb_engine.Sql.Rewrite.{requote, requote_region, render, emit, backticks_to_double_quotes}
use duckdb_engine.Sql.Rewrite.Total.{round, rewrite_round}

requote-one :
    (d : ℕ) (name : Bytes)
    → (d == backtick) ≡ false
    → requote (d ∷ (double backtick name ++ backtick ∷ []))
      ≡ double b'"' (d ∷ []) ++ requote (double backtick name ++ backtick ∷ [])
unfolding requote double
requote-one d [] h = ground arith
requote-one d (c ∷ []) h = ground arith
requote-one d (c ∷ c' ∷ name) h = ground arith

requote-both :
    (c : ℕ) (name : Bytes)
    → (c == backtick) ≡ true
    → requote (backtick ∷ c ∷ (double backtick name ++ backtick ∷ []))
      ≡ backtick ∷ requote (double backtick name ++ backtick ∷ [])
unfolding requote double
requote-both c [] h = ground arith
requote-both c (d ∷ name) h = ground arith

requote-double : (name : Bytes) → requote (double backtick name ++ backtick ∷ []) ≡ double b'"' name
unfolding double
requote-double [] = unfold requote in refl
requote-double (c ∷ name) = elim (Bool-cases (c == backtick)) [
  | inl e ↦ rw e (
      requote-both c name e
      ∙ ap (◌∷◌ backtick) (requote-double name)
      ∙ unfold double in ground arith)
  | inr e ↦ rw e (requote-one c name e ∙ rw (requote-double name) (unfold double in ground arith))
]

rewrite-enclose :
    (q : ℕ) (name rest : Bytes)
    → is_quote q ≡ true
    → NotBefore q rest
    → backticks_to_double_quotes (enclose q name ++ rest)
      ≡ emit (backticks_to_double_quotes rest) (render q quoted (enclose q name))
rewrite-enclose q name rest h n =
    rewrite_round q ((double q name ++ q ∷ []) ++ rest)
    ∙ ap (λ r. round q ((double q name ++ q ∷ []) ++ rest) r backticks_to_double_quotes)
        (scan-enclose q name rest h n)

-- A MariaDB identifier in backticks comes out as DuckDB's quoted identifier of the same name,
-- whatever the bytes of the name, and the rest of the text is rewritten by itself.
pub rewrite-backticked :
    (name rest : Bytes)
    → NotBefore backtick rest
    → backticks_to_double_quotes (enclose backtick name ++ rest)
      ≡ emit (backticks_to_double_quotes rest) (quote_duckdb_identifier name)
unfolding render requote_region quote_duckdb_identifier
rewrite-backticked name rest n =
    rewrite-enclose backtick name rest refl n
    ∙ ap (λ t. emit (backticks_to_double_quotes rest) (b'"' ∷ (t ++ b'"' ∷ [])))
        (requote-double name)

-- An identifier that is quoted for DuckDB already passes the rewriting unchanged.
pub rewrite-quote_duckdb_identifier :
    (name rest : Bytes)
    → NotBefore b'"' rest
    → backticks_to_double_quotes (quote_duckdb_identifier name ++ rest)
      ≡ emit (backticks_to_double_quotes rest) (quote_duckdb_identifier name)
unfolding render quote_duckdb_identifier
rewrite-quote_duckdb_identifier name rest n = rewrite-enclose b'"' name rest refl n

-- So does a string literal with its quotes doubled.
pub rewrite-literal :
    (body rest : Bytes)
    → NotBefore b'\'' rest
    → backticks_to_double_quotes (enclose b'\'' body ++ rest)
      ≡ emit (backticks_to_double_quotes rest) (enclose b'\'' body)
unfolding render
rewrite-literal body rest n = rewrite-enclose b'\'' body rest refl n
