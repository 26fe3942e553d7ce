-- ===== src/Sql/Rewrite/Total.antt =====
-- The fuel of the rewriting loop: the text's length is enough, and more changes nothing.
use duckdb_engine.Prelude.{
  false, ℕ, zero, suc, [], ◌∷◌, Option, none, some, Bytes, length, ◌≡◌, ◌≤◌, ◌≢◌, refl, arith,
  Option-cases, inl, inr,
}
use duckdb_engine.Sql.Region.{outside, Scan, scan_sql_region}
use duckdb_engine.Sql.Region.Progress.{scan-progress}
use duckdb_engine.Sql.Rewrite.{render, emit, rewrite_from, backticks_to_double_quotes}

-- What one round does with the scan of the text, in terms of what is still to come.
abbrev pub round : ℕ → Bytes → Scan → (Bytes → Option Bytes) → Option Bytes
round c s r more = elim r.region [
  | outside ↦ emit (more s) (c ∷ [])
  | other ↦ emit (more r.rest) (render c other r.text)
]

pub round-cong :
    (c : ℕ) (s : Bytes) (r : Scan) (f g : Bytes → Option Bytes)
    → f s ≡ g s
    → (r.region ≢ outside → f r.rest ≡ g r.rest)
    → round c s r f ≡ round c s r g
round-cong c s r f g h k = ground (arith, k)

pub rewrite-fuel :
    (f g : ℕ) (s : Bytes) → length s ≤ f → length s ≤ g → rewrite_from f s ≡ rewrite_from g s
unfolding rewrite_from
rewrite-fuel zero zero [] h k = refl
rewrite-fuel zero (suc g) [] h k = refl
rewrite-fuel (suc f) zero [] h k = refl
rewrite-fuel (suc f) (suc g) [] h k = refl
rewrite-fuel zero g (c ∷ s) h k = absurd (omega arith)
rewrite-fuel (suc f) zero (c ∷ s) h k = absurd (omega arith)
rewrite-fuel (suc f) (suc g) (c ∷ s) h k =
    round-cong c s (scan_sql_region _ (c ∷ s)) (rewrite_from f) (rewrite_from g)
      (rewrite-fuel f g s (omega arith) (omega arith))
      (λ inside.
        let shorter = scan-progress _ (c ∷ s) inside in
        rewrite-fuel f g _ (omega arith) (omega arith))

-- The result of the whole rewriting is the result of the loop at any fuel that is enough.
pub rewrite_enough :
    (fuel : ℕ) (s : Bytes) → length s ≤ fuel → rewrite_from fuel s ≡ backticks_to_double_quotes s
unfolding backticks_to_double_quotes
rewrite_enough fuel s h = rewrite-fuel fuel (length s) s h (omega arith)

emit-some : (o : Option Bytes) (t : Bytes) → o ≢ none → emit o t ≢ none
emit-some none t h = h
emit-some (some out) t h = λ e. cc

round-some :
    (c : ℕ) (s : Bytes) (r : Scan) (f : Bytes → Option Bytes)
    → f s ≢ none
    → (r.region ≢ outside → f r.rest ≢ none)
    → round c s r f ≢ none
round-some c s r f h k = ground (arith, k, emit-some (f s) (c ∷ []), emit-some (f r.rest))

rewrite-ne-none : (fuel : ℕ) (s : Bytes) → length s ≤ fuel → rewrite_from fuel s ≢ none
unfolding rewrite_from
rewrite-ne-none zero [] h = λ e. cc
rewrite-ne-none (suc fuel) [] h = λ e. cc
rewrite-ne-none zero (c ∷ s) h = absurd (omega arith)
rewrite-ne-none (suc fuel) (c ∷ s) h =
    round-some c s (scan_sql_region _ (c ∷ s)) (rewrite_from fuel)
      (rewrite-ne-none fuel s (omega arith))
      (λ inside.
        let shorter = scan-progress _ (c ∷ s) inside in rewrite-ne-none fuel _ (omega arith))

-- Rewriting gives a text for every text: the loop never runs out of the fuel that it is given.
pub rewrite_total : (sql : Bytes) → (out : Bytes) × (backticks_to_double_quotes sql ≡ some out)
unfolding backticks_to_double_quotes
rewrite_total sql = elim (Option-cases (rewrite_from (length sql) sql)) [
  | inl e ↦ absurd (rewrite-ne-none (length sql) sql (omega arith) e)
  | inr (out, e) ↦ (out, e)
]

-- The rewriting as a recursion on the scans, with no fuel in sight.
pub rewrite_round :
    (c : ℕ) (s : Bytes)
    → backticks_to_double_quotes (c ∷ s)
      ≡ round c s (scan_sql_region false (c ∷ s)) backticks_to_double_quotes
unfolding rewrite_from backticks_to_double_quotes
rewrite_round c s =
    round-cong c s (scan_sql_region false (c ∷ s)) (rewrite_from (length s))
      backticks_to_double_quotes (rewrite_enough (length s) s (omega arith))
      (λ inside.
        let shorter = scan-progress false (c ∷ s) inside in
        rewrite_enough (length s) _ (omega arith))
