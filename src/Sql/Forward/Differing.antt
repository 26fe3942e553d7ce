-- ===== src/Sql/Forward/Differing.antt =====
-- Readings of a statement that differ, or whose regions do not all end, and how a round of the
-- reading hands that on.
use duckdb_engine.Prelude.{
  ℕ, zero, suc, ◌≤◌, Bool, true, false, ◌||◌, [], ◌∷◌, Option, none, some, Bytes, length, ◌≡◌, ◌≢◌,
  ◌⊎◌, inl, inr, refl, sym, ap, ◌∙◌, subst, arith,
}
use mathlib.Core.List.{head-eq_of_cons-eq, tail-eq_of_cons-eq}
use duckdb_engine.Sql.Region.{
  RegionType, outside, comment, quoted, unterminated, Scan, scan_sql_region,
}
use duckdb_engine.Sql.Region.Progress.{scan-progress}
use duckdb_engine.Sql.Forward.Agreement.{Reading, prepend, regions_from, read_round}

-- A region that does not end.
abbrev pub is_unended : RegionType → Bool
is_unended unterminated = true
is_unended _ = false

abbrev pub any_unended : Reading → Bool
any_unended [] = false
any_unended (t ∷ ts) = is_unended t.0 || any_unended ts

abbrev pub has_unended : Option Reading → Bool
has_unended none = false
has_unended (some ts) = any_unended ts

-- Two readings that differ, or the second has a region that does not end.
abbrev pub Differ : Option Reading → Option Reading → Type 0
Differ a b = (a ≢ b) ⊎ (has_unended b ≡ true)

some-eq : {a b : Reading} → some a ≡ some b → a ≡ b
some-eq e = cc e

prepend-eq : (t : RegionType × Bytes) (a b : Option Reading) → prepend t a ≡ prepend t b → a ≡ b
prepend-eq t none none e = refl
prepend-eq t none (some y) e = cc
prepend-eq t (some x) none e = cc
prepend-eq t (some x) (some y) e = ap some (tail-eq_of_cons-eq (some-eq e))

unended-prepend :
    (t : RegionType × Bytes) (o : Option Reading)
    → has_unended o ≡ true
    → has_unended (prepend t o) ≡ true
unended-prepend t none h = cc
unended-prepend t (some ts) h = ground (arith, h)

Differ-prepend :
    (t : RegionType × Bytes) (a b : Option Reading)
    → Differ a b
    → Differ (prepend t a) (prepend t b)
Differ-prepend t a b (inl h) = inl (λ e. h (prepend-eq t a b e))
Differ-prepend t a b (inr h) = inr (unended-prepend t b h)

read_round-inside :
    (c : ℕ) (s : Bytes) (r : Scan) (f : Bytes → Option Reading)
    → r.region ≢ outside
    → read_round c s r f ≡ prepend (r.region, r.text) (f r.rest)
read_round-inside c s r f h = ground (arith, h)

prepend-heads :
    (t u : RegionType × Bytes) (a b : Option Reading) → a ≢ none → prepend t a ≡ prepend u b → t ≡ u
prepend-heads t u none b h e = absurd (h refl)
prepend-heads t u (some x) none h e = cc
prepend-heads t u (some x) (some y) h e = head-eq_of_cons-eq (some-eq e)

prepend-unended :
    (text : Bytes) (o : Option Reading)
    → o ≢ none
    → has_unended (prepend (unterminated, text) o) ≡ true
prepend-unended text none h = absurd (h refl)
prepend-unended text (some ts) h = refl

prepend-some : (t : RegionType × Bytes) (o : Option Reading) → o ≢ none → prepend t o ≢ none
prepend-some t none h = h
prepend-some t (some ts) h = λ e. cc

-- The length of the text is enough fuel for a reading.
round-some :
    (c : ℕ) (s : Bytes) (r : Scan) (f : Bytes → Option Reading)
    → f s ≢ none
    → (r.region ≢ outside → f r.rest ≢ none)
    → read_round c s r f ≢ none
round-some c s r f h k =
    ground
      (arith, k, prepend-some (outside, c ∷ []) (f s), prepend-some (r.region, r.text) (f r.rest))

pub regions-some :
    (escapes : ℕ → Bool) (fuel : ℕ) (s : Bytes)
    → length s ≤ fuel
    → regions_from escapes fuel s ≢ none
unfolding regions_from
regions-some escapes zero [] h = λ e. cc
regions-some escapes (suc fuel) [] h = λ e. cc
regions-some escapes zero (c ∷ s) h = absurd (omega arith)
regions-some escapes (suc fuel) (c ∷ s) h =
    round-some c s (scan_sql_region (escapes c) (c ∷ s)) (regions_from escapes fuel)
      (regions-some escapes fuel s (omega arith))
      (λ inside.
        let shorter = scan-progress (escapes c) (c ∷ s) inside in
        regions-some escapes fuel _ (omega arith))

pub Differ-round :
    (c : ℕ) (s : Bytes) (r : Scan) (f g : Bytes → Option Reading)
    → (r.region ≡ outside → Differ (f s) (g s))
    → (r.region ≢ outside → Differ (f r.rest) (g r.rest))
    → Differ (read_round c s r f) (read_round c s r g)
Differ-round c s r f g h k = of_region r.region refl
  where
    of_region :
        (t : RegionType)
        → r.region ≡ t
        → Differ
            (elim t [
              | outside ↦ prepend (outside, c ∷ []) (f s)
              | other ↦ prepend (other, r.text) (f r.rest)
            ])
            (elim t [
              | outside ↦ prepend (outside, c ∷ []) (g s)
              | other ↦ prepend (other, r.text) (g r.rest)
            ])
    of_region outside e = Differ-prepend _ (f s) (g s) (h e)
    of_region comment e = Differ-prepend _ (f r.rest) (g r.rest) (k (λ o. cc (e, o)))
    of_region quoted e = Differ-prepend _ (f r.rest) (g r.rest) (k (λ o. cc (e, o)))
    of_region unterminated e = Differ-prepend _ (f r.rest) (g r.rest) (k (λ o. cc (e, o)))

-- Two readings that are alike begin with the same region.
pub first-eq :
    (c : ℕ) (s : Bytes) (m d : Scan) (f g : Bytes → Option Reading)
    → m.region ≢ outside
    → d.region ≢ outside
    → f m.rest ≢ none
    → read_round c s m f ≡ read_round c s d g
    → (m.region ≡ d.region) × (m.text ≡ d.text)
first-eq c s m d f g h k found same =
    let e =
      prepend-heads (m.region, m.text) (d.region, d.text) (f m.rest) (g d.rest) found
        (sym (read_round-inside c s m f h) ∙ same ∙ read_round-inside c s d g k) in
    ((λ i. (e i).0), (λ i. (e i).1))

pub parted :
    (m d : Scan)
    → (m.region ≢ d.region) ⊎ (length m.text ≢ length d.text)
    → (m.region ≡ d.region) × (m.text ≡ d.text)
    → ⊥
parted m d (inl h) e = h e.0
parted m d (inr h) e = h (ap length e.1)

pub round-unended :
    (c : ℕ) (s : Bytes) (r : Scan) (f : Bytes → Option Reading)
    → r.region ≡ unterminated
    → f r.rest ≢ none
    → has_unended (read_round c s r f) ≡ true
round-unended c s r f h found =
    subst
      (λ t.
        has_unended (elim t [
          | outside ↦ prepend (outside, c ∷ []) (f s)
          | other ↦ prepend (other, r.text) (f r.rest)
        ])
        ≡ true)
      (sym h) (prepend-unended r.text (f r.rest) found)
