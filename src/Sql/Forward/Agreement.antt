-- ===== src/Sql/Forward/Agreement.antt =====
-- A statement that the check lets through has the same regions with and without backslash escapes.
use duckdb_engine.Prelude.{
  subst, if◌then◌else◌, ℕ, zero, suc, Bool, true, false, List, [], ◌∷◌, ◌++◌, Option, none, some,
  Bytes, length, ◌≡◌, ◌≢◌, refl, sym, ap, ◌∙◌, arith,
}
use mathlib.Core.List.{head-eq_of_cons-eq, tail-eq_of_cons-eq}
use duckdb_engine.Sql.Region.{
  RegionType, outside, comment, quoted, unterminated, Scan, scan_sql_region,
}
use duckdb_engine.Sql.Region.Progress.{scan_comment, scan_quote, scan-joined}
use duckdb_engine.Sql.Forward.{
  is_literal, same_region, Verdict, unsafe, next_byte, go_on, compare_scans, check_byte,
  unsafe_from, mariadb_query_has_unsafe_quote_escape,
}

-- A reading of a text: the regions in their order, one byte at a time outside them. The scanner may
-- depend on the byte that it starts at.
abbrev pub Reading : Type 0
Reading = List (RegionType × Bytes)

abbrev pub prepend : RegionType × Bytes → Option Reading → Option Reading
prepend t none = none
prepend t (some ts) = some (t ∷ ts)

unfoldable pub regions_from : (ℕ → Bool) → ℕ → Bytes → Option Reading
regions_from escapes fuel [] = some []
regions_from escapes zero (c ∷ s) = none
regions_from escapes (suc fuel) (c ∷ s) =
    let r = scan_sql_region (escapes c) (c ∷ s) in
    elim r.region [
      | outside ↦ prepend (outside, c ∷ []) (regions_from escapes fuel s)
      | other ↦ prepend (other, r.text) (regions_from escapes fuel r.rest)
    ]

-- The reading with MariaDB's rules, which give a backslash in a string literal a meaning, and the one
-- without any backslash escapes, which is what the code takes a statement apart by when it rewrites
-- it. What DuckDB itself makes of the text is outside of the source.
unfoldable pub mariadb_reading : Bool → Bytes → Option Reading
mariadb_reading ansi_quotes sql = regions_from (is_literal ansi_quotes) (length sql) sql

unfoldable pub plain_reading : Bytes → Option Reading
plain_reading sql = regions_from (λ c. false) (length sql) sql

same_region-eq : (a b : RegionType) → same_region a b ≡ true → a ≡ b
unfolding same_region
same_region-eq outside outside h = refl
same_region-eq comment comment h = refl
same_region-eq quoted quoted h = refl
same_region-eq unterminated unterminated h = refl
same_region-eq outside comment h = cc
same_region-eq outside quoted h = cc
same_region-eq outside unterminated h = cc
same_region-eq comment outside h = cc
same_region-eq comment quoted h = cc
same_region-eq comment unterminated h = cc
same_region-eq quoted outside h = cc
same_region-eq quoted comment h = cc
same_region-eq quoted unterminated h = cc
same_region-eq unterminated outside h = cc
same_region-eq unterminated comment h = cc
same_region-eq unterminated quoted h = cc

-- Two splits of one text at the same place have the same parts.
split-eq : (a b x y : Bytes) → a ++ x ≡ b ++ y → length a ≡ length b → (a ≡ b) × (x ≡ y)
split-eq [] [] x y e h = (refl, e)
split-eq [] (c ∷ b) x y e h = absurd (omega arith)
split-eq (c ∷ a) [] x y e h = absurd (omega arith)
split-eq (c ∷ a) (d ∷ b) x y e h =
    let (p, q) = split-eq a b x y (tail-eq_of_cons-eq e) (omega arith) in
    (cc (head-eq_of_cons-eq e), q)

scan-eq :
    (s : Bytes)
    → (scan_sql_region true s).region ≡ (scan_sql_region false s).region
    → length (scan_sql_region true s).text ≡ length (scan_sql_region false s).text
    → scan_sql_region true s ≡ scan_sql_region false s
scan-eq s e h =
    let (p, q) = split-eq _ _ _ _ (scan-joined true s ∙ sym (scan-joined false s)) h in
    λ i. record { region = e i; text = p i; rest = q i }

-- What a verdict says of the scan `r` by MariaDB's rules and the scan `d` without escapes.
abbrev pub Agrees : Scan → Scan → Verdict → Type 0
Agrees r d unsafe = Unit
Agrees r d next_byte = (r ≡ d) × (d.region ≡ outside)
Agrees r d (go_on rest) = (r ≡ d) × (d.region ≢ outside) × (rest ≡ d.rest)

compare-Agrees :
    (literal : Bool) (d m : Scan)
    → (d.region ≡ comment → m ≡ d)
    → (literal ≡ true → d.region ≢ outside)
    → (m.region ≡ d.region → length m.text ≡ length d.text → m ≡ d)
    → Agrees (if literal then m else d) d (compare_scans literal d m)
unfolding compare_scans
compare-Agrees literal d m on_comment on_literal on_same =
    ground (arith, same_region-eq m.region d.region)

scan-if :
    (e : Bool) (s : Bytes)
    → (if e then scan_sql_region true s else scan_sql_region false s) ≡ scan_sql_region e s
scan-if true s = refl
scan-if false s = refl

pub check-Agrees :
    (ansi : Bool) (c : ℕ) (s : Bytes)
    → Agrees
        (scan_sql_region (is_literal ansi c) (c ∷ s))
        (scan_sql_region false (c ∷ s))
        (check_byte ansi c s)
unfolding check_byte
check-Agrees ansi c s =
    subst
      (λ r. Agrees r (scan_sql_region false (c ∷ s)) (
        compare_scans (is_literal ansi c) (scan_sql_region false (c ∷ s))
          (scan_sql_region true (c ∷ s))))
      (scan-if (is_literal ansi c) (c ∷ s))
      (compare-Agrees (is_literal ansi c) _ _ (scan_comment true c s)
        (λ lit. scan_quote false c s (ground arith)) (scan-eq (c ∷ s)))

-- One round of a reading, in terms of the scan `r` that it makes.
abbrev pub read_round : ℕ → Bytes → Scan → (Bytes → Option Reading) → Option Reading
read_round c s r more = elim r.region [
  | outside ↦ prepend (outside, c ∷ []) (more s)
  | other ↦ prepend (other, r.text) (more r.rest)
]

read_round-cong :
    (c : ℕ) (s : Bytes) (r : Scan) (f g : Bytes → Option Reading)
    → (r.region ≡ outside → f s ≡ g s)
    → (r.region ≢ outside → f r.rest ≡ g r.rest)
    → read_round c s r f ≡ read_round c s r g
read_round-cong c s r f g h k = ground (arith, h, k)

from_check :
    (fuel : ℕ) (ansi : Bool) (c : ℕ) (s : Bytes) (v : Verdict)
    → Agrees (scan_sql_region (is_literal ansi c) (c ∷ s)) (scan_sql_region false (c ∷ s)) v
    → ((t : Bytes)
        → unsafe_from fuel ansi t ≡ some false
        → regions_from (is_literal ansi) fuel t ≡ regions_from (λ b. false) fuel t)
    → (elim v [
      | unsafe ↦ some true
      | next_byte ↦ unsafe_from fuel ansi s
      | go_on rest ↦ unsafe_from fuel ansi rest
    ])
      ≡ some false
    → regions_from (is_literal ansi) (suc fuel) (c ∷ s)
      ≡ regions_from (λ b. false) (suc fuel) (c ∷ s)
unfolding regions_from
from_check fuel ansi c s unsafe a ih h = cc
from_check fuel ansi c s next_byte (same, out) ih h =
    ap (λ r. read_round c s r (regions_from (is_literal ansi) fuel)) same
    ∙ read_round-cong c s (scan_sql_region false (c ∷ s)) (regions_from (is_literal ansi) fuel)
        (regions_from (λ b. false) fuel) (λ _. ih s h) (λ inside. absurd (inside out))
from_check fuel ansi c s (go_on rest) (same, inside, at) ih h =
    ap (λ r. read_round c s r (regions_from (is_literal ansi) fuel)) same
    ∙ read_round-cong c s (scan_sql_region false (c ∷ s)) (regions_from (is_literal ansi) fuel)
        (regions_from (λ b. false) fuel) (λ out. absurd (inside out))
        (λ _. ih _ (subst (λ t. unsafe_from fuel ansi t ≡ some false) at h))

-- At any fuel, a statement that passes the check is read alike.
regions-eq :
    (fuel : ℕ) (ansi : Bool) (s : Bytes)
    → unsafe_from fuel ansi s ≡ some false
    → regions_from (is_literal ansi) fuel s ≡ regions_from (λ b. false) fuel s
unfolding unsafe_from
regions-eq zero ansi [] h = unfold regions_from in refl
regions-eq (suc fuel) ansi [] h = unfold regions_from in refl
regions-eq zero ansi (c ∷ s) h = cc
regions-eq (suc fuel) ansi (c ∷ s) h =
    from_check fuel ansi c s (check_byte ansi c s) (check-Agrees ansi c s) (regions-eq fuel ansi) h

-- A statement that the check lets through, in a session where backslashes escape, has the same
-- regions, literal for literal and comment for comment, in both readings.
pub safe-reading :
    (ansi : Bool) (sql : Bytes)
    → mariadb_query_has_unsafe_quote_escape true ansi sql ≡ some false
    → mariadb_reading ansi sql ≡ plain_reading sql
unfolding mariadb_query_has_unsafe_quote_escape mariadb_reading plain_reading
safe-reading ansi sql h = regions-eq (length sql) ansi sql h
