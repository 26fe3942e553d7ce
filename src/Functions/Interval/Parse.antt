-- ===== src/Functions/Interval/Parse.antt =====
-- An interval in MariaDB's form is read as the time that it names.
use duckdb_engine.Prelude.{
  ℕ, List, zero, suc, ◌+◌, ◌-◌, ◌*◌, ◌^◌, ◌≤◌, ◌<◌, [], ◌∷◌, ◌++◌, Bytes, codes, All, Option, none,
  some, ◌≡◌, refl, sym, ap, ◌∙◌, arith, ==_ne, append_assoc, append-nil,
}
use duckdb_engine.Prelude.Int.{ℤ, pos, sub_ℕ, ◌+ℤ◌, ◌-ℤ◌}
use duckdb_engine.Functions.Texts.{take}
use duckdb_engine.Functions.Interval.{
  scale, leading_number, atoi, split_space, parse_parts, parse_usec, total_us, unsigned_us,
  parse_mariadb_interval_us,
}

abbrev pub IsDigit : ℕ → Type 0
IsDigit c = (48 ≤ c) × (c ≤ 57)

abbrev pub AreDigits : Bytes → Type 0
AreDigits = All IsDigit

-- The number of a text of decimal digits.
unfoldable pub decimal : ℕ → Bytes → ℕ
decimal n [] = n
decimal n (c ∷ s) = decimal (n * 10 + (c - 48)) s

leading_number-decimal : (n : ℕ) (s : Bytes) → AreDigits s → leading_number n s ≡ decimal n s
unfolding leading_number decimal
leading_number-decimal n [] h = refl
leading_number-decimal n (c ∷ s) (d, h) =
    ground (arith, leading_number-decimal (n * 10 + (c - 48)) s)

atoi-decimal : (s : Bytes) → AreDigits s → atoi s ≡ pos (decimal 0 s)
unfolding atoi decimal
atoi-decimal [] h = refl
atoi-decimal (c ∷ s) h = ground (arith, leading_number-decimal 0 (c ∷ s) h)

split_space-digits : (s rest : Bytes) → AreDigits s → split_space (s ++ 32 ∷ rest) ≡ some (s, rest)
unfolding split_space
split_space-digits [] rest h = refl
split_space-digits (c ∷ s) rest (d, h) = ground (arith, split_space-digits s rest h)

part_step :
    (n : ℕ) (num : Bytes) (c : ℕ) (s : Bytes)
    → IsDigit c
    → parse_parts (suc n) num (c ∷ s) ≡ parse_parts (suc n) (num ++ c ∷ []) s
unfolding parse_parts
part_step n num c s d = ground arith

parse_parts-digits :
    (n : ℕ) (num s rest : Bytes)
    → AreDigits s
    → parse_parts (suc n) num (s ++ rest) ≡ parse_parts (suc n) (num ++ s) rest
parse_parts-digits n num [] rest h = ap (λ t. parse_parts (suc n) t rest) (sym (append-nil num))
parse_parts-digits n num (c ∷ s) rest (d, h) =
    part_step n num c (s ++ rest) d
    ∙ parse_parts-digits n (num ++ c ∷ []) s rest h
    ∙ ap (λ t. parse_parts (suc n) t rest) (append_assoc num (c ∷ []) s)

part_colon :
    (n : ℕ) (num s : Bytes)
    → parse_parts (suc n) num (b':' ∷ s)
      ≡ (atoi num ∷ (parse_parts n [] s).0, (parse_parts n [] s).1)
unfolding parse_parts
part_colon n num s = refl

part_point : (n : ℕ) (num s : Bytes) → parse_parts (suc n) num (b'.' ∷ s) ≡ (atoi num ∷ [], s)
unfolding parse_parts
part_point n num s = refl

AreDigits-take : (n : ℕ) (s : Bytes) → AreDigits s → AreDigits (take n s)
AreDigits-take zero s h = tt
AreDigits-take (suc n) [] h = tt
AreDigits-take (suc n) (c ∷ s) (d, h) = (d, AreDigits-take n s h)

AreDigits-append : (s t : Bytes) → AreDigits s → AreDigits t → AreDigits (s ++ t)
AreDigits-append [] t h k = k
AreDigits-append (c ∷ s) t (d, h) k = (d, AreDigits-append s t h k)

-- The fraction as microseconds: its first six digits, or with zeros behind them.
abbrev pub micros : Bytes → ℕ
micros f = decimal 0 (take 6 (f ++ codes "000000"))

parse_usec-digits : (f : Bytes) → AreDigits f → parse_usec f ≡ pos (micros f)
unfolding parse_usec
parse_usec-digits [] h = unfold decimal in refl
parse_usec-digits (c ∷ f) h = atoi-decimal _ (
    AreDigits-take 6 ((c ∷ f) ++ codes "000000")
      (AreDigits-append (c ∷ f) (codes "000000") h (omega arith)))

-- The number in front of a colon, and the last one, in front of the point.
colon_stage :
    (n : ℕ) (h rest : Bytes)
    → AreDigits h
    → parse_parts (suc n) [] (h ++ b':' ∷ rest)
      ≡ (pos (decimal 0 h) ∷ (parse_parts n [] rest).0, (parse_parts n [] rest).1)
colon_stage n h rest digits =
    parse_parts-digits n [] h (b':' ∷ rest) digits
    ∙ part_colon n h rest
    ∙ ap (λ z. (z ∷ (parse_parts n [] rest).0, (parse_parts n [] rest).1)) (atoi-decimal h digits)

point_stage :
    (n : ℕ) (s rest : Bytes)
    → AreDigits s
    → parse_parts (suc n) [] (s ++ b'.' ∷ rest) ≡ (pos (decimal 0 s) ∷ [], rest)
point_stage n s rest digits =
    parse_parts-digits n [] s (b'.' ∷ rest) digits
    ∙ part_point n s rest
    ∙ ap (λ z. (z ∷ [], rest)) (atoi-decimal s digits)

-- Bounds on the numbers of texts of digits.
tens : ℕ → ℕ → ℕ
tens zero b = b
tens (suc k) b = tens k (b * 10)

tens-le : (k a b : ℕ) → a ≤ b → tens k a ≤ tens k b
unfolding tens
tens-le zero a b h = h
tens-le (suc k) a b h = tens-le k (a * 10) (b * 10) (omega arith)

tens_grows : (k a : ℕ) → a ≤ tens k a
unfolding tens
tens_grows zero a = omega arith
tens_grows (suc k) a = omega (arith, tens_grows k (a * 10))

decimal-lt-tens :
    (k n : ℕ) (s : Bytes) → AreDigits (take k s) → decimal n (take k s) < tens k (n + 1)
unfolding decimal tens
decimal-lt-tens zero n s h = omega arith
decimal-lt-tens (suc k) n [] h = omega (arith, tens_grows (suc k) (n + 1))
decimal-lt-tens (suc k) n (c ∷ s) (d, h) = omega (
  arith,
  decimal-lt-tens k (n * 10 + (c - 48)) s h,
  tens-le k (n * 10 + (c - 48) + 1) ((n + 1) * 10) (omega arith),
)

micros-lt : (f : Bytes) → AreDigits f → micros f < 1000000
unfolding tens
micros-lt f h =
    decimal-lt-tens 6 0 (f ++ codes "000000")
      (AreDigits-take 6 (f ++ codes "000000") (AreDigits-append f (codes "000000") h (omega arith)))

-- The microseconds of days, hours, minutes, seconds and a fraction.
abbrev pub micros_of : ℕ → ℕ → ℕ → ℕ → ℕ → ℕ
micros_of d h m s f = (d * 86400 + h * 3600 + m * 60 + s) * 1000000 + f

abbrev pub IsInt : ℕ → Type 0
IsInt n = n < 2 ^ 31

total_of_parts :
    (d h m s : ℕ) (f : Bytes)
    → AreDigits f
    → IsInt d
    → IsInt h
    → IsInt m
    → IsInt s
    → micros_of d h m s (micros f) < 2 ^ 63
    → total_us (pos d) (pos h ∷ pos m ∷ pos s ∷ [], f) ≡ some (pos (micros_of d h m s (micros f)))
unfolding total_us scale ◌+ℤ◌
total_of_parts d h m s f digits p q r t bound =
    rw (parse_usec-digits f digits) (ground (arith, micros-lt f digits))

unsigned_split :
    (text before after : Bytes)
    → split_space text ≡ some (before, after)
    → unsigned_us text ≡ total_us (atoi before) (parse_parts 3 [] after)
unfolding unsigned_us
unsigned_split text before after e = ap split e
  where
    split : Option (Bytes × Bytes) → Option ℤ
    split o = elim o [
      | none ↦ total_us (pos 0) (parse_parts 3 [] text)
      | some (b, a) ↦ total_us (atoi b) (parse_parts 3 [] a)
    ]

-- The text 'D H:M:S.f' of the digits of each number.
abbrev pub interval_text : Bytes → Bytes → Bytes → Bytes → Bytes → Bytes
interval_text d h m s f = d ++ 32 ∷ (h ++ b':' ∷ (m ++ b':' ∷ (s ++ b'.' ∷ f)))

-- The microseconds that it names.
abbrev pub named_us : Bytes → Bytes → Bytes → Bytes → Bytes → ℕ
named_us d h m s f = micros_of (decimal 0 d) (decimal 0 h) (decimal 0 m) (decimal 0 s) (micros f)

module _ (d h m s f : Bytes) (days : AreDigits d) (hours : AreDigits h) (minutes : AreDigits m)
    (seconds : AreDigits s) (fraction : AreDigits f) where
  parts_read :
      parse_parts 3 [] (h ++ b':' ∷ (m ++ b':' ∷ (s ++ b'.' ∷ f)))
      ≡ (pos (decimal 0 h) ∷ pos (decimal 0 m) ∷ pos (decimal 0 s) ∷ [], f)
  parts_read =
      colon_stage 2 h _ hours
      ∙ ap (λ (r : List ℤ × Bytes). (pos (decimal 0 h) ∷ r.0, r.1))
          (colon_stage 1 m _ minutes
            ∙ ap (λ (r : List ℤ × Bytes). (pos (decimal 0 m) ∷ r.0, r.1))
                (point_stage 0 s f seconds))

  -- An interval 'D H:M:S.f', whose numbers have any number of digits, are `int`s and make no more
  -- microseconds than int64_t holds, is read as the microseconds of its days, hours, minutes and
  -- seconds and of its fraction, of which six digits count, and as minus that with a sign in front.
  pub parse-interval_text :
      IsInt (decimal 0 d)
      → IsInt (decimal 0 h)
      → IsInt (decimal 0 m)
      → IsInt (decimal 0 s)
      → named_us d h m s f < 2 ^ 63
      → (parse_mariadb_interval_us (interval_text d h m s f) ≡ some (pos (named_us d h m s f)))
        × (parse_mariadb_interval_us (b'-' ∷ interval_text d h m s f)
            ≡ some (sub_ℕ 0 (named_us d h m s f)))
  parse-interval_text p q r t bound = (
    no_sign d days ∙ unsigned_read,
    minus (interval_text d h m s f) (named_us d h m s f) bound unsigned_read,
  )
    where
      unsigned_read : unsigned_us (interval_text d h m s f) ≡ some (pos (named_us d h m s f))
      unsigned_read =
          unsigned_split (interval_text d h m s f) d _ (split_space-digits d _ days)
          ∙ rw (atoi-decimal d days, parts_read)
              (total_of_parts (decimal 0 d) (decimal 0 h) (decimal 0 m) (decimal 0 s) f fraction p q
                r t bound)

      no_sign :
          (d : Bytes)
          → AreDigits d
          → parse_mariadb_interval_us (interval_text d h m s f)
            ≡ unsigned_us (interval_text d h m s f)
      no_sign [] digits = unfold parse_mariadb_interval_us in refl
      no_sign (c ∷ d) (digit, digits) =
          unfold parse_mariadb_interval_us in rw (==_ne c b'-' (λ e. absurd (omega arith)))

      minus :
          (text : Bytes) (us : ℕ)
          → us < 2 ^ 63
          → unsigned_us text ≡ some (pos us)
          → parse_mariadb_interval_us (b'-' ∷ text) ≡ some (sub_ℕ 0 us)
      minus text us small e = unfold parse_mariadb_interval_us ◌-ℤ◌ in rw e (ground arith)
