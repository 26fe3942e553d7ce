-- ===== src/Sql/Forward/Refusal.antt =====
-- Why the check of a forwarded statement refuses it.
use duckdb_engine.Prelude.{
  ℕ, zero, suc, ◌≤◌, Bool, true, false, ◌&&◌, [], ◌∷◌, some, Bytes, length, ◌==◌, ◌≡◌, ◌≢◌, ◌⊎◌,
  inl, inr, refl, sym, subst, arith, Bool-cases,
}
use duckdb_engine.Sql.Region.{
  RegionType, outside, comment, quoted, unterminated, Scan, is_quote, scan_sql_region,
}
use duckdb_engine.Sql.Region.Progress.{scan_quote, scan-progress}
use duckdb_engine.Sql.Forward.{
  is_literal, same_region, Verdict, unsafe, next_byte, go_on, compare_scans, check_byte,
  unsafe_from,
}
use duckdb_engine.Sql.Forward.Agreement.{regions_from, read_round, Agrees, check-Agrees}
use duckdb_engine.Sql.Forward.Differing.{
  Differ, regions-some, Differ-round, first-eq, parted, round-unended,
}

-- A round's verdict is unsafe for one of two reasons.
Mismatch : Bool → Scan → Scan → Type 0
Mismatch literal d m =
    ((literal ≡ true) × ((m.region ≢ d.region) ⊎ (length m.text ≢ length d.text)))
    ⊎ ((literal ≡ false) × (d.region ≡ unterminated))

same_region_refl : (t : RegionType) → same_region t t ≡ true
unfolding same_region
same_region_refl outside = refl
same_region_refl comment = refl
same_region_refl quoted = refl
same_region_refl unterminated = refl

mismatched :
    (d m : Scan)
    → (same_region m.region d.region && length m.text == length d.text) ≡ false
    → (m.region ≢ d.region) ⊎ (length m.text ≢ length d.text)
mismatched d m h = elim (Bool-cases (same_region m.region d.region)) [
  | inl same ↦ inr (λ e. ground (arith, same, e))
  | inr other ↦ inl (λ e.
      cc (other, subst (λ t. same_region t d.region ≡ true) (sym e) (same_region_refl d.region)))
]

unsafe-Mismatch :
    (literal : Bool) (d m : Scan) → compare_scans literal d m ≡ unsafe → Mismatch literal d m
unfolding compare_scans Mismatch
unsafe-Mismatch true d m h = inl (refl, mismatched d m (ground arith))
unsafe-Mismatch false d m h = inr (refl, ground arith)

-- An unsafe verdict: the two readings part there, or the region there does not end.
refused_here :
    (fuel : ℕ) (ansi : Bool) (c : ℕ) (s : Bytes)
    → length s ≤ fuel
    → Mismatch (is_literal ansi c) (scan_sql_region false (c ∷ s)) (scan_sql_region true (c ∷ s))
    → Differ
        (regions_from (is_literal ansi) (suc fuel) (c ∷ s))
        (regions_from (λ b. false) (suc fuel) (c ∷ s))
unfolding Mismatch regions_from
refused_here fuel ansi c s short (inl (lit, other)) = inl (λ same.
    let quote : is_quote c ≡ true = ground (arith, lit) in
    let inside = scan_quote true c s quote in
    let shorter = scan-progress true (c ∷ s) inside in
    parted (scan_sql_region true (c ∷ s)) (scan_sql_region false (c ∷ s)) other (
      first-eq c s (scan_sql_region true (c ∷ s)) (scan_sql_region false (c ∷ s))
        (regions_from (is_literal ansi) fuel) (regions_from (λ b. false) fuel) inside
        (scan_quote false c s quote) (regions-some (is_literal ansi) fuel _ (omega arith))
        (subst
          (λ b.
            read_round c s (scan_sql_region b (c ∷ s)) (regions_from (is_literal ansi) fuel)
            ≡ regions_from (λ b. false) (suc fuel) (c ∷ s))
          lit same)))
refused_here fuel ansi c s short (inr (other, open_end)) = inr (
    let inside : (scan_sql_region false (c ∷ s)).region ≢ outside = λ o. cc (open_end, o) in
    let shorter = scan-progress false (c ∷ s) inside in
    round-unended c s (scan_sql_region false (c ∷ s)) (regions_from (λ b. false) fuel) open_end
      (regions-some (λ b. false) fuel _ (omega arith)))

from_verdict :
    (fuel : ℕ) (ansi : Bool) (c : ℕ) (s : Bytes) (v : Verdict)
    → check_byte ansi c s ≡ v
    → Agrees (scan_sql_region (is_literal ansi c) (c ∷ s)) (scan_sql_region false (c ∷ s)) v
    → length s ≤ fuel
    → ((t : Bytes)
        → length t ≤ fuel
        → unsafe_from fuel ansi t ≡ some true
        → Differ (regions_from (is_literal ansi) fuel t) (regions_from (λ b. false) fuel t))
    → (elim v [
      | unsafe ↦ some true
      | next_byte ↦ unsafe_from fuel ansi s
      | go_on rest ↦ unsafe_from fuel ansi rest
    ])
      ≡ some true
    → Differ
        (regions_from (is_literal ansi) (suc fuel) (c ∷ s))
        (regions_from (λ b. false) (suc fuel) (c ∷ s))
unfolding regions_from check_byte
from_verdict fuel ansi c s unsafe v a short ih h =
    refused_here fuel ansi c s short (unsafe-Mismatch (is_literal ansi c) _ _ v)
from_verdict fuel ansi c s next_byte v (same, out) short ih h =
    subst
      (λ r.
        Differ (read_round c s r (regions_from (is_literal ansi) fuel))
          (read_round c s (scan_sql_region false (c ∷ s)) (regions_from (λ b. false) fuel)))
      (sym same)
      (Differ-round c s (scan_sql_region false (c ∷ s)) (regions_from (is_literal ansi) fuel)
        (regions_from (λ b. false) fuel) (λ _. ih s short h) (λ inside. absurd (inside out)))
from_verdict fuel ansi c s (go_on rest) v (same, inside, at) short ih h =
    let shorter = scan-progress false (c ∷ s) inside in
    subst
      (λ r.
        Differ (read_round c s r (regions_from (is_literal ansi) fuel))
          (read_round c s (scan_sql_region false (c ∷ s)) (regions_from (λ b. false) fuel)))
      (sym same)
      (Differ-round c s (scan_sql_region false (c ∷ s)) (regions_from (is_literal ansi) fuel)
        (regions_from (λ b. false) fuel) (λ out. absurd (inside out))
        (λ _. ih _ (omega arith) (subst (λ t. unsafe_from fuel ansi t ≡ some true) at h)))

pub refused-Differ :
    (fuel : ℕ) (ansi : Bool) (s : Bytes)
    → length s ≤ fuel
    → unsafe_from fuel ansi s ≡ some true
    → Differ (regions_from (is_literal ansi) fuel s) (regions_from (λ b. false) fuel s)
unfolding unsafe_from
refused-Differ zero ansi [] short h = cc
refused-Differ (suc fuel) ansi [] short h = cc
refused-Differ zero ansi (c ∷ s) short h = absurd (omega arith)
refused-Differ (suc fuel) ansi (c ∷ s) short h =
    from_verdict fuel ansi c s (check_byte ansi c s) refl (check-Agrees ansi c s) (omega arith)
      (refused-Differ fuel ansi) h
