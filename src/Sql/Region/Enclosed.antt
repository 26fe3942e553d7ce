-- ===== src/Sql/Region/Enclosed.antt =====
-- A text enclosed in quotes, with the quotes in it doubled, is one region to the scanner.
use duckdb_engine.Prelude.{
  ℕ, true, false, [], ◌∷◌, ◌++◌, Bytes, ◌≡◌, ◌≢◌, ap, ◌∙◌, arith, ◌==◌, ==_refl, Bool-cases, inl,
  inr, append_assoc,
}
use duckdb_engine.Sql.Region.{
  quoted, consume, quote_step, quoted_body, opening, quote, is_quote, scan_sql_region,
}
use duckdb_engine.Sql.Quote.{double, enclose}

-- The text does not begin with the byte `q`.
abbrev pub NotBefore : ℕ → Bytes → Type 0
NotBefore q [] = Unit
NotBefore q (c ∷ s) = c ≢ q

quoted_body-close :
    (q : ℕ) (rest : Bytes)
    → NotBefore q rest
    → quoted_body false q (q ∷ rest) ≡ record { region = quoted; text = q ∷ []; rest = rest }
unfolding quoted_body quote_step
quoted_body-close q [] h = rw ==_refl
quoted_body-close q (d ∷ s) h = ground arith

quoted_body-one :
    (q c : ℕ) (d : ℕ) (s : Bytes)
    → (c == q) ≡ false
    → quoted_body false q (c ∷ d ∷ s) ≡ consume c (quoted_body false q (d ∷ s))
unfolding quoted_body quote_step
quoted_body-one q c d s h = ground arith

quoted_body-both :
    (q c : ℕ) (s : Bytes)
    → (c == q) ≡ true
    → quoted_body false q (q ∷ c ∷ s) ≡ consume q (consume c (quoted_body false q s))
unfolding quoted_body quote_step
quoted_body-both q c s h = ground arith

-- A byte that is no quote is followed by something, so the scan goes on with it.
double-cons :
    (q c : ℕ) (name rest : Bytes)
    → (c == q) ≡ false
    → quoted_body false q (c ∷ (double q name ++ q ∷ rest))
      ≡ consume c (quoted_body false q (double q name ++ q ∷ rest))
unfolding double
double-cons q c [] rest h = quoted_body-one q c q rest h
double-cons q c (d ∷ name) rest h = elim (Bool-cases (d == q)) [
  | inl e ↦ rw e (quoted_body-one q c q _ h)
  | inr e ↦ rw e (quoted_body-one q c d _ h)
]

quoted_body-double :
    (q : ℕ) (name rest : Bytes)
    → NotBefore q rest
    → quoted_body false q (double q name ++ q ∷ rest)
      ≡ record { region = quoted; text = double q name ++ q ∷ []; rest = rest }
unfolding double
quoted_body-double q [] rest h = quoted_body-close q rest h
quoted_body-double q (c ∷ name) rest h = elim (Bool-cases (c == q)) [
  | inl e ↦ rw e (
      quoted_body-both q c _ e
      ∙ ap (λ r. consume q (consume c r)) (quoted_body-double q name rest h))
  | inr e ↦ rw e (double-cons q c name rest e ∙ ap (consume c) (quoted_body-double q name rest h))
]

opening-quote : (q : ℕ) (s : Bytes) → is_quote q ≡ true → opening q s ≡ quote
unfolding opening
opening-quote q [] h = ground arith
opening-quote q (d ∷ []) h = ground arith
opening-quote q (d ∷ e ∷ s) h = ground arith

-- Whatever bytes the name has, DuckDB's reading of the enclosed name ends where it was meant to.
pub scan-enclose :
    (q : ℕ) (name rest : Bytes)
    → is_quote q ≡ true
    → NotBefore q rest
    → scan_sql_region false (enclose q name ++ rest)
      ≡ record { region = quoted; text = enclose q name; rest = rest }
unfolding scan_sql_region
scan-enclose q name rest h n =
    rw (opening-quote q _ h, scan_sql_region)
      (ap (λ t. consume q (quoted_body false q t)) (append_assoc (double q name) (q ∷ []) rest)
        ∙ ap (consume q) (quoted_body-double q name rest n))
