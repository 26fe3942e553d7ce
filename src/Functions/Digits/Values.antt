-- ===== src/Functions/Digits/Values.antt =====
-- The digits that HEX, OCT and BIN write have the value of the word.
use native.Mathlib.Nat.{
  div-add-mod', div-div-eq-div-mul, mul_assoc, mul_comm, add-mul, add_assoc, pow-suc, pow-zero,
  mul-zero, mul-suc, mul-one, add-zero, add-suc, pow-le-pow_right, mod-lt, mod-eq_of_lt,
  div-lt_iff_lt-mul, one-le-pow, lt_of_lt_of_le, le_trans, suc-ne-zero,
}
use duckdb_engine.Prelude.{
  ℕ, zero, suc, ◌+◌, ◌-◌, ◌*◌, ◌/◌, ◌%◌, ◌^◌, ◌≤◌, ◌<◌, [], ◌∷◌, Bytes, ◌≡◌, refl, sym, ap, subst,
  ◌≢◌, ◌⊎◌, inl, inr, ◌∙◌, ltb, ◌==◌, ==_ne, if◌then◌else◌, arith,
}
use native.Mathlib.Decide.{ℕ_discrete}
use duckdb_engine.Convert.Values.{hex_digit}
use duckdb_engine.Functions.Digits.{write_digits, hex_integral, oct_integral, binary_integral}

-- The value of a digit, and of a text of digits that follows a number.
unfoldable pub digit_value : ℕ → ℕ
digit_value c = if ltb c 58 then c - 48 else c - 55

unfoldable pub value_from : ℕ → ℕ → Bytes → ℕ
unfolding digit_value
value_from base n [] = n
value_from base n (c ∷ s) = value_from base (n * base + digit_value c) s

digit_value-hex_digit : (d : ℕ) → digit_value (hex_digit d) ≡ d
unfolding digit_value hex_digit
digit_value-hex_digit d = ground arith

-- The remainder by a product, in two steps.
mod_product : (x p b : ℕ) → x % (p * b) ≡ x / p % b * p + x % p
mod_product x p b = grind (
  arith,
  div-add-mod' x p,
  div-add-mod' (x / p) b,
  div-add-mod' x (p * b),
  div-div-eq-div-mul x p b,
  mul_assoc (x / p / b) b p,
  mul_comm b p,
)

regroup : (x p b a : ℕ) → (a * b + x / p % b) * p + x % p ≡ a * (p * b) + x % (p * b)
regroup x p b a = rw (mod_product x p b, add-mul, add_assoc, mul_assoc, mul_comm p b)

value_from-write_digits :
    (base n x a : ℕ) → value_from base a (write_digits base n x) ≡ a * base ^ n + x % base ^ n
unfolding value_from write_digits
value_from-write_digits base zero x a = rw (pow-zero base) (omega arith)
value_from-write_digits base (suc n) x a =
    value_from-write_digits base n x (a * base + digit_value (hex_digit (x / base ^ n % base)))
    ∙ ap (λ d. (a * base + d) * base ^ n + x % base ^ n) (digit_value-hex_digit _)
    ∙ regroup x (base ^ n) base a
    ∙ ap (λ p. a * p + x % p) (sym (pow-suc base n))

two_pow_add : (a b : ℕ) → 2 ^ (a + b) ≡ 2 ^ a * 2 ^ b
two_pow_add a zero = simp (add-zero, pow-zero, mul-one)
two_pow_add a (suc b) = rw (add-suc, pow-suc 2 (a + b), pow-suc 2 b, two_pow_add a b, mul_assoc)

two_pow_mul : (k n : ℕ) → 2 ^ (k * n) ≡ (2 ^ k) ^ n
two_pow_mul k zero = rw (mul-zero, pow-zero 2, pow-zero (2 ^ k))
two_pow_mul k (suc n) = rw (mul-suc, pow-suc, two_pow_add, two_pow_mul k n)

-- DuckDB's CountZeros::Leading on 64 bits, and its documented result: the bits below the leading
-- zeros hold the number, and the first of them is set.
pub record CountsZeros (leading : ℕ → ℕ) : Type 0 where
  pub of_zero : leading 0 ≡ 64
  pub holds : (x : ℕ) → x < 2 ^ 64 → x < 2 ^ (64 - leading x)
  pub first_set : (x : ℕ) → x ≢ 0 → (leading x < 64) × (2 ^ (63 - leading x) ≤ x)

-- A text of digits for a number: it has the number's value, and its first digit is not 0, unless it
-- is the whole text.
abbrev pub IsNumeral : ℕ → ℕ → Bytes → Type 0
IsNumeral base x [] = ⊥
IsNumeral base x (c ∷ s) =
    (value_from base 0 (c ∷ s) ≡ x) × ((c ≢ 48) ⊎ (◌≡◌ {A = Bytes} (c ∷ s) (48 ∷ [])))

first_digit : (base p x : ℕ) → 0 < p → p ≤ x → x < p * base → hex_digit (x / p % base) ≢ 48
unfolding hex_digit
first_digit base p x pos above below = ground (
  arith,
  div-add-mod' x p,
  mod-lt x pos,
  (div-lt_iff_lt-mul {k = p} {x = x} {y = base} pos).1 (rw (mul_comm base p) below),
  λ (q : x / p < base). mod-eq_of_lt q,
  λ (q : x / p ≡ 0). ap (λ k. k * p) q,
)

write_digits-IsNumeral :
    (base n x : ℕ)
    → 0 < base
    → x < base ^ suc n
    → base ^ n ≤ x
    → IsNumeral base x (write_digits base (suc n) x)
unfolding write_digits
write_digits-IsNumeral base n x positive below above = (
  value_from-write_digits base (suc n) x 0 ∙ omega (arith, mod-eq_of_lt below),
  inl (
      first_digit base (base ^ n) x (one-le-pow n base positive) above
        (rw (← pow-suc base n) below)),
)

-- The size that is rounded up from a number's bits is the number of its digits.
sized-IsNumeral :
    (k n bits x : ℕ)
    → x < 2 ^ suc bits
    → 2 ^ bits ≤ x
    → suc bits ≤ k * suc n
    → k * n ≤ bits
    → IsNumeral (2 ^ k) x (write_digits (2 ^ k) (suc n) x)
sized-IsNumeral k n bits x below above fits needed =
    write_digits-IsNumeral (2 ^ k) n x (one-le-pow k 2 (omega arith))
      (lt_of_lt_of_le below (rw (← two_pow_mul k (suc n)) (pow-le-pow_right (omega arith) fits)))
      (le_trans (rw (← two_pow_mul k n) (pow-le-pow_right (omega arith) needed)) above)

module _ (leading : ℕ → ℕ) (zeros : CountsZeros leading) (x : ℕ) (word : x < 2 ^ 64) where
  -- The size that an operator asks for, and what it writes.
  sized :
      (k size : ℕ)
      → (x ≡ 0 → size ≡ 0)
      → (x ≢ 0 → (64 - leading x ≤ k * size) × (k * (size - 1) ≤ 63 - leading x) × (0 < size))
      → IsNumeral (2 ^ k) x (if size == 0 then 48 ∷ [] else write_digits (2 ^ k) size x)
  unfolding value_from
  sized k zero z nz = elim (ℕ_discrete x 0) [
    | yes p ↦ (omega arith, inr refl)
    | no p ↦ absurd (omega (arith, nz p))
  ]
  sized k (suc n) z nz =
      let positive : x ≢ 0 = λ e. absurd (omega (arith, z e)) in
      let bits : 64 - leading x ≡ suc (63 - leading x) =
        omega (arith, (zeros.first_set x positive).0) in
      rw (==_ne (suc n) 0 (suc-ne-zero n)) (
        sized-IsNumeral k n (63 - leading x) x (subst (λ b. x < 2 ^ b) bits (zeros.holds x word))
          (zeros.first_set x positive).1 (omega (arith, nz positive))
          (subst (λ m. k * m ≤ 63 - leading x) (omega arith) (nz positive).1))

  -- HEX, OCT and BIN of an integer write the value of its 64-bit word in base 16, 8 and 2, with no
  -- leading zero.
  pub integral-IsNumeral :
      IsNumeral 16 x (hex_integral leading x)
      × IsNumeral 8 x (oct_integral leading x)
      × IsNumeral 2 x (binary_integral leading x)
  unfolding hex_integral oct_integral binary_integral
  integral-IsNumeral = (
    sized 4 ((64 - leading x + 3) / 4) (λ e. omega (arith, none_at_zero e))
        (λ h. omega (arith, (zeros.first_set x h).0)),
    sized 3 ((64 - leading x + 2) / 3) (λ e. omega (arith, none_at_zero e))
        (λ h. omega (arith, (zeros.first_set x h).0)),
    sized 1 (64 - leading x) (λ e. omega (arith, none_at_zero e))
        (λ h. omega (arith, (zeros.first_set x h).0)),
  )
    where
      none_at_zero : x ≡ 0 → leading x ≡ 64
      none_at_zero e = rw e zeros.of_zero
