-- ===== src/Convert/Numbers.antt =====
-- std::to_string and the case of ASCII letters.
use duckdb_engine.Prelude.{
  ℕ, zero, suc, ◌+◌, ◌-◌, ◌/◌, ◌%◌, ◌<◌, [], ◌∷◌, ◌++◌, Bytes, ◌≡◌, refl, ap, ◌∙◌, arith, ltb, leb,
  ltb→lt, if-keeps, ◌&&◌, if◌then◌else◌,
}

-- The decimal digits of a number, given more fuel than it has digits.
unfoldable pub digits : ℕ → ℕ → Bytes
digits zero n = []
digits (suc fuel) n =
    let more = digits fuel (n / 10) in
    if ltb n 10 then (48 + n) ∷ [] else more ++ (48 + n % 10) ∷ []

unfoldable pub to_string : ℕ → Bytes
unfolding digits
to_string n = digits (suc n) n

unfoldable pub to_upper : ℕ → ℕ
to_upper c = if leb 97 c && leb c 122 then c - 32 else c

-- std::transform(…, ::toupper)
unfoldable pub upper : Bytes → Bytes
unfolding to_upper
upper [] = []
upper (c ∷ s) = to_upper c ∷ upper s

pub upper-append : (s t : Bytes) → upper (s ++ t) ≡ upper s ++ upper t
unfolding upper
upper-append [] t = refl
upper-append (c ∷ s) t = ap (◌∷◌ (to_upper c)) (upper-append s t)

to_upper-digit : (d : ℕ) → d < 10 → to_upper (48 + d) ≡ 48 + d
unfolding to_upper
to_upper-digit d h = ground arith

upper-digits : (fuel n : ℕ) → upper (digits fuel n) ≡ digits fuel n
unfolding upper digits
upper-digits zero n = refl
upper-digits (suc fuel) n =
    if-keeps (λ (t : Bytes). upper t ≡ t) (ltb n 10)
      (λ e. ap (λ d. d ∷ []) (to_upper-digit n (ltb→lt n 10 e)))
      (λ _.
        upper-append (digits fuel (n / 10)) ((48 + n % 10) ∷ [])
        ∙ ap (λ t. t ++ to_upper (48 + n % 10) ∷ []) (upper-digits fuel (n / 10))
        ∙ ap (λ d. digits fuel (n / 10) ++ d ∷ []) (to_upper-digit (n % 10) (omega arith)))

-- A printed number has no letters.
pub upper-to_string : (n : ℕ) → upper (to_string n) ≡ to_string n
unfolding to_string
upper-to_string n = upper-digits (suc n) n
