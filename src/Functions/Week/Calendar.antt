-- ===== src/Functions/Week/Calendar.antt =====
-- The day numbers of calc_daynr follow the calendar.
use duckdb_engine.Prelude.{
  ℕ, zero, suc, ◌+◌, ◌-◌, ◌*◌, ◌/◌, ◌≤◌, ◌<◌, ◌≡◌, ◌⊎◌, ◌≢◌, ◌==◌, ltb, ◌||◌, if◌then◌else◌, arith,
  if-keeps, ap, subst, sym, ◌∙◌, true,
}
use duckdb_engine.Functions.Week.{calc_days_in_year, calc_daynr}

-- The length of a month in the Gregorian calendar.
unfoldable pub month_length : ℕ → ℕ → ℕ
unfolding calc_days_in_year
month_length y m =
    if m == 2
    then calc_days_in_year y - 337
    else if (m == 4) || ((m == 6) || ((m == 9) || (m == 11)))
    then 30
    else 31

pub record IsDate (y m d : ℕ) : Type 0 where
  pub year_in : 1 ≤ y
  pub month_from : 1 ≤ m
  pub month_to : m ≤ 12
  pub day_from : 1 ≤ d
  pub day_to : d ≤ month_length y m

pub year_lengths : (y : ℕ) → (calc_days_in_year y ≡ 365) ⊎ (calc_days_in_year y ≡ 366)
unfolding calc_days_in_year
year_lengths y = ground arith

-- The next year starts where this one ends.
pub year_start : (y : ℕ) → calc_daynr (y + 1) 1 1 ≡ calc_daynr y 1 1 + calc_days_in_year y
unfolding calc_daynr calc_days_in_year
year_start y = ground arith

pub year_start_small : (y : ℕ) → 1 ≤ y → y ≤ 5881581 → calc_daynr y 1 1 < 2200000000
unfolding calc_daynr
year_start_small y h k = ground arith

-- The day of the year, from 0: January's are the days of the month, the other months follow.
pub day_in_year :
    (y m d : ℕ)
    → IsDate y m d
    → (calc_daynr y 1 1 < calc_daynr y m d + 1)
      × (calc_daynr y m d < calc_daynr y 1 1 + calc_days_in_year y)
unfolding calc_daynr calc_days_in_year month_length
day_in_year y m d v = (ground arith, ground arith)

pub day_in_january : (y d : ℕ) → 1 ≤ d → calc_daynr y 1 d + 1 ≡ calc_daynr y 1 1 + d
unfolding calc_daynr
day_in_january y d h = ground arith

pub day_behind_january :
    (y m d : ℕ) → IsDate y m d → m ≢ 1 → calc_daynr y 1 1 + 31 ≤ calc_daynr y m d
unfolding calc_daynr
day_behind_january y m d v h = ground arith

-- The day after a date.
unfoldable pub next_date : ℕ × ℕ × ℕ → ℕ × ℕ × ℕ
unfolding month_length
next_date (y, m, d) =
    if ltb d (month_length y m)
    then (y, m, d + 1)
    else if m == 12
    then (y + 1, 1, 1)
    else (y, m + 1, 1)

-- A date by its three numbers.
abbrev pub IsDateOf : ℕ × ℕ × ℕ → Type 0
IsDateOf (y, m, d) = IsDate y m d

abbrev pub daynr : ℕ × ℕ × ℕ → ℕ
daynr (y, m, d) = calc_daynr y m d

month_lengths : (y m : ℕ) → (28 ≤ month_length y m) × (month_length y m ≤ 31)
unfolding month_length calc_days_in_year
month_lengths y m = (ground arith, ground arith)

daynr-day : (y m d : ℕ) → 1 ≤ y → 1 ≤ m → 1 ≤ d → calc_daynr y m (d + 1) ≡ calc_daynr y m d + 1
unfolding calc_daynr
daynr-day y m d h k l = ground arith

daynr-february : (y : ℕ) → 1 ≤ y → calc_daynr y 3 1 ≡ calc_daynr y 2 (calc_days_in_year y - 337) + 1
unfolding calc_daynr calc_days_in_year
daynr-february y h = ground arith

daynr-january : (y : ℕ) → 1 ≤ y → calc_daynr y 2 1 ≡ calc_daynr y 1 31 + 1
unfolding calc_daynr
daynr-january y h = ground arith

daynr-from_march :
    (y m length : ℕ)
    → 1 ≤ y
    → 3 ≤ m
    → length + (m * 4 + 27) / 10 ≡ 31 + (m * 4 + 23) / 10
    → calc_daynr y (m + 1) 1 ≡ calc_daynr y m length + 1
unfolding calc_daynr
daynr-from_march y m length h k l = ground arith

month_length-from_march :
    (y m : ℕ) → 3 ≤ m → m < 12 → month_length y m + (m * 4 + 27) / 10 ≡ 31 + (m * 4 + 23) / 10
unfolding month_length
month_length-from_march y m h k = ground arith

daynr-month :
    (y m : ℕ)
    → 1 ≤ y
    → 1 ≤ m
    → m < 12
    → calc_daynr y (m + 1) 1 ≡ calc_daynr y m (month_length y m) + 1
unfolding month_length
daynr-month y zero h k l = elim k [ ]
daynr-month y (suc zero) h k l = daynr-january y h
daynr-month y (suc (suc zero)) h k l = daynr-february y h
daynr-month y (suc (suc (suc m))) h k l =
    daynr-from_march y (suc (suc (suc m))) _ h (omega arith)
      (month_length-from_march y (suc (suc (suc m))) (omega arith) l)

daynr-december : (y : ℕ) → 1 ≤ y → calc_daynr (y + 1) 1 1 ≡ calc_daynr y 12 31 + 1
unfolding calc_daynr
daynr-december y h = ground arith

-- The next day has the next number.
pub daynr-next_date : (t : ℕ × ℕ × ℕ) → IsDateOf t → daynr (next_date t) ≡ daynr t + 1
unfolding next_date
daynr-next_date (y, m, d) v =
    if-keeps (λ t. daynr t ≡ calc_daynr y m d + 1) (ltb d (month_length y m))
      (λ _. daynr-day y m d v.year_in v.month_from v.day_from)
      (λ last.
        let ends : d ≡ month_length y m = ground (arith, v.day_to) in
        if-keeps (λ t. daynr t ≡ calc_daynr y m d + 1) (m == 12)
          (λ e.
            subst (λ n. calc_daynr (y + 1) 1 1 ≡ calc_daynr y n d + 1) (december e)
              (rw (december_ends e ends) (daynr-december y v.year_in)))
          (λ e. rw ends (daynr-month y m v.year_in v.month_from (ground (arith, v.month_to)))))
  where
    december : (m == 12) ≡ true → 12 ≡ m
    december e = ground arith

    december_ends : (m == 12) ≡ true → d ≡ month_length y m → d ≡ 31
    december_ends e h = h ∙ ap (month_length y) (sym (december e))

pub next_date-IsDate : (t : ℕ × ℕ × ℕ) → IsDateOf t → IsDateOf (next_date t)
unfolding next_date
next_date-IsDate (y, m, d) v =
    if-keeps IsDateOf (ltb d (month_length y m)) (λ e. ground arith)
      (λ _.
        if-keeps IsDateOf (m == 12) (λ _. ground (arith, month_lengths (y + 1) 1))
          (λ e. ground (arith, month_lengths y (m + 1))))
