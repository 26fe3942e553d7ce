-- ===== src/Sql/Rewrite/Pieces.antt =====
-- backticks_to_double_quotes, as what it makes of each region of the statement.
use duckdb_engine.Prelude.{
  ℕ, zero, suc, false, [], ◌∷◌, ◌++◌, Option, none, some, Bytes, ◌==◌, if◌then◌else◌, ◌≡◌, refl,
  sym, ap, ◌∙◌, arith, length,
}
use mathlib.Core.List.{head-eq_of_cons-eq}
use duckdb_engine.Sql.Region.{
  RegionType, outside, comment, quoted, unterminated, Scan, backtick, scan_sql_region,
}
use duckdb_engine.Sql.Region.Progress.{scan-joined}
use duckdb_engine.Sql.Rewrite.{
  requote_region, render, emit, rewrite_from, backticks_to_double_quotes,
}
use duckdb_engine.Sql.Rewrite.Total.{round}
use duckdb_engine.Sql.Forward.Agreement.{Reading, prepend, regions_from, read_round, plain_reading}

-- A region that backticks enclose is quoted anew, and any other one stays.
abbrev pub requoted : RegionType × Bytes → Bytes
requoted (quoted, c ∷ text) = if c == backtick then requote_region (c ∷ text) else c ∷ text
requoted (_, text) = text

abbrev pub joined : Reading → Bytes
joined [] = []
joined (t ∷ ts) = requoted t ++ joined ts

abbrev pub all_requoted : Option Reading → Option Bytes
all_requoted none = none
all_requoted (some ts) = some (joined ts)

requoted-prepend :
    (t : RegionType × Bytes) (o : Option Reading)
    → all_requoted (prepend t o) ≡ emit (all_requoted o) (requoted t)
requoted-prepend t none = refl
requoted-prepend t (some ts) = refl

render-requoted :
    (c : ℕ) (s rest : Bytes) (t : RegionType) (text : Bytes)
    → text ++ rest ≡ c ∷ s
    → render c t text ≡ requoted (t, text)
unfolding render requote_region
render-requoted c s rest t [] h = ground arith
render-requoted c s rest t (d ∷ text) h = ground (arith, head-eq_of_cons-eq h)

round-requoted :
    (c : ℕ) (s : Bytes) (r : Scan) (f : Bytes → Option Bytes) (g : Bytes → Option Reading)
    → r.text ++ r.rest ≡ c ∷ s
    → ((t : Bytes) → f t ≡ all_requoted (g t))
    → round c s r f ≡ all_requoted (read_round c s r g)
round-requoted c s r f g h more = of_region r.region
  where
    after :
        (t : RegionType)
        → emit (f r.rest) (render c t r.text) ≡ all_requoted (prepend (t, r.text) (g r.rest))
    after t =
        (λ i. emit (more r.rest i) (render-requoted c s r.rest t r.text h i))
        ∙ sym (requoted-prepend (t, r.text) (g r.rest))

    of_region :
        (t : RegionType)
        → elim t [ outside ↦ emit (f s) (c ∷ []) | other ↦ emit (f r.rest) (render c other r.text) ]
          ≡ all_requoted (elim t [
            | outside ↦ prepend (outside, c ∷ []) (g s)
            | other ↦ prepend (other, r.text) (g r.rest)
          ])
    of_region outside =
        ap (λ o. emit o (c ∷ [])) (more s) ∙ sym (requoted-prepend (outside, c ∷ []) (g s))
    of_region comment = after comment
    of_region quoted = after quoted
    of_region unterminated = after unterminated

rewrite-regions :
    (fuel : ℕ) (s : Bytes) → rewrite_from fuel s ≡ all_requoted (regions_from (λ b. false) fuel s)
unfolding rewrite_from regions_from
rewrite-regions zero [] = refl
rewrite-regions (suc fuel) [] = refl
rewrite-regions zero (c ∷ s) = refl
rewrite-regions (suc fuel) (c ∷ s) =
    round-requoted c s (scan_sql_region false (c ∷ s)) (rewrite_from fuel)
      (regions_from (λ b. false) fuel) (scan-joined false (c ∷ s)) (rewrite-regions fuel)

pub rewrite-plain_reading :
    (sql : Bytes) → backticks_to_double_quotes sql ≡ all_requoted (plain_reading sql)
unfolding backticks_to_double_quotes plain_reading
rewrite-plain_reading sql = rewrite-regions (length sql) sql
