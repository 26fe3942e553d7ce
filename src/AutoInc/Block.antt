-- ===== src/AutoInc/Block.antt =====
-- The width test of reserve_autoinc_block: a block that passes it is one run of ids, all ours.
use duckdb_engine.Prelude.{
  ℕ, zero, suc, ◌+◌, ◌-◌, ◌%◌, ◌≤◌, ◌<◌, true, false, List, [], ◌∷◌, map, Option, none, some, All,
  length, ◌≡◌, ◌≢◌, ◌⊎◌, inl, inr, refl, subst, sym, ap, ◌∙◌, arith, ◌==◌, Bool-cases,
}
use duckdb_engine.AutoInc.{word, last_id, reserve_attempts, reserve_autoinc_block}

-- `x` and the ids behind it grow.
abbrev pub Grows : ℕ → List ℕ → Type 0
Grows x [] = Unit
Grows x (y ∷ ys) = (x < y) × Grows y ys

abbrev pub last_of : ℕ → List ℕ → ℕ
last_of x [] = x
last_of x (y ∷ ys) = last_of y ys

-- The ids first, first + 1, …
abbrev pub run_of : ℕ → ℕ → List ℕ
run_of first zero = []
run_of first (suc n) = first ∷ run_of (first + 1) n

-- What DuckDB documents of `want` calls of nextval() in one query: as many ids, growing, each a
-- positive BIGINT. Other writers may have taken ids in between.
abbrev pub IsTaken : ℕ → List ℕ → Type 0
IsTaken want [] = ⊥
IsTaken want (x ∷ xs) = (suc (length xs) ≡ want) × (0 < x) × Grows x xs × (last_of x xs ≤ last_id)

-- min(x), max(x) of the ids.
abbrev pub span_of : List ℕ → Option (ℕ × ℕ)
span_of [] = none
span_of (x ∷ xs) = some (x, last_of x xs)

abbrev pub Any : (List ℕ → Type 0) → List (List ℕ) → Type 0
Any P [] = ⊥
Any P (b ∷ bs) = P b ⊎ Any P bs

last_of-ge : (x : ℕ) (xs : List ℕ) → Grows x xs → x + length xs ≤ last_of x xs
last_of-ge x [] g = omega arith
last_of-ge x (y ∷ ys) g = omega (arith, last_of-ge y ys g.1)

-- A growing list as wide as it is long has no gaps.
Grows-run :
    (x : ℕ) (xs : List ℕ)
    → Grows x xs
    → last_of x xs ≡ x + length xs
    → x ∷ xs ≡ run_of x (suc (length xs))
Grows-run x [] g e = refl
Grows-run x (y ∷ ys) g e =
    let y_next : y ≡ x + 1 = omega (arith, last_of-ge y ys g.1) in
    ap (◌∷◌ x) (Grows-run y ys g.1 (omega arith) ∙ ap (λ z. run_of z (suc (length ys))) y_next)

width_test :
    (lo hi want : ℕ)
    → lo ≤ hi
    → hi ≤ last_id
    → (((hi + word - lo) % word + 1) % word == want) ≡ true
    → hi + 1 ≡ lo + want
width_test lo hi want h k e = ground arith

attempt-accepted :
    (n want lo hi : ℕ) (answers : List (Option (ℕ × ℕ)))
    → (((hi + word - lo) % word + 1) % word == want) ≡ true
    → reserve_attempts (suc n) want (some (lo, hi) ∷ answers) ≡ lo
unfolding reserve_attempts
attempt-accepted n want lo hi answers e = rw e

attempt-refused :
    (n want lo hi : ℕ) (answers : List (Option (ℕ × ℕ)))
    → (((hi + word - lo) % word + 1) % word == want) ≡ false
    → reserve_attempts (suc n) want (some (lo, hi) ∷ answers) ≡ reserve_attempts n want answers
unfolding reserve_attempts
attempt-refused n want lo hi answers e = rw e

reserve-run :
    (n want : ℕ) (blocks : List (List ℕ))
    → All (IsTaken want) blocks
    → reserve_attempts n want (map span_of blocks) ≢ 0
    → Any (λ b. b ≡ run_of (reserve_attempts n want (map span_of blocks)) want) blocks
unfolding reserve_attempts
reserve-run zero want blocks taken ne = absurd (ne refl)
reserve-run (suc n) want [] taken ne = absurd (ne refl)
reserve-run (suc n) want ([] ∷ blocks) taken ne = absurd taken.0
reserve-run (suc n) want ((x ∷ xs) ∷ blocks) taken ne =
    let wide = ((last_of x xs + word - x) % word + 1) % word == want in
    elim (Bool-cases wide) [
      | inl e ↦
          let (count, positive, grow, top) = taken.0 in
          let width =
            width_test x (last_of x xs) want (omega (arith, last_of-ge x xs grow)) top e in
          subst (λ r. Any (λ b. b ≡ run_of r want) ((x ∷ xs) ∷ blocks))
            (sym (attempt-accepted n want x (last_of x xs) (map span_of blocks) e))
            (inl (Grows-run x xs grow (omega arith) ∙ ap (run_of x) count))
      | inr e ↦
          let again = attempt-refused n want x (last_of x xs) (map span_of blocks) e in
          subst (λ r. Any (λ b. b ≡ run_of r want) ((x ∷ xs) ∷ blocks)) (sym again)
            (inr (reserve-run n want blocks taken.1 (λ z. ne (again ∙ z))))
    ]

-- A block that reserve_autoinc_block accepts, within its three attempts, is the run of `want` ids
-- from its result on, all of them taken by one query of ours: no id of the run went to another
-- writer.
pub reserve_autoinc_block-run :
    (want : ℕ) (blocks : List (List ℕ))
    → All (IsTaken want) blocks
    → reserve_autoinc_block want (map span_of blocks) ≢ 0
    → Any (λ b. b ≡ run_of (reserve_autoinc_block want (map span_of blocks)) want) blocks
unfolding reserve_autoinc_block
reserve_autoinc_block-run want blocks = reserve-run 3 want blocks
