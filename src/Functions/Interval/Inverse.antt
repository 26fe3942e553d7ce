-- ===== src/Functions/Interval/Inverse.antt =====
-- What ADDTIME and SUBTIME add and take away.
use duckdb_engine.Prelude.{ℕ, ◌+◌, ◌%◌, ◌^◌, ◌<◌, true, Bytes, ◌∷◌, some, ◌≡◌, ap, ◌∙◌, arith}
use duckdb_engine.Prelude.Int.{ℤ, pos, sub_ℕ, ◌+ℤ◌, ◌-ℤ◌, ◌%ℤ◌}
use duckdb_engine.Functions.Interval.{
  in_range, int64, given, wrapped, day_us, wrap_day, parse_mariadb_interval_us, addtime_ts,
  subtime_ts, addtime_time, subtime_time,
}
use duckdb_engine.Functions.Interval.Parse.{
  AreDigits, IsInt, decimal, interval_text, named_us, parse-interval_text,
}

module _ (text : Bytes) (us : ℕ) (ts : ℤ) (old : in_range (2 ^ 63) ts ≡ true)
    (new : in_range (2 ^ 63) (ts +ℤ pos us) ≡ true) where
  add_there :
      parse_mariadb_interval_us text ≡ some (pos us) → addtime_ts ts text ≡ some (ts +ℤ pos us)
  unfolding addtime_ts
  add_there e = ap (given (λ z. int64 (ts +ℤ z))) e ∙ rw new

  sub_back :
      parse_mariadb_interval_us text ≡ some (pos us) → subtime_ts (ts +ℤ pos us) text ≡ some ts
  unfolding subtime_ts ◌+ℤ◌ ◌-ℤ◌
  sub_back e = ap (given (λ z. int64 (ts +ℤ pos us -ℤ z))) e ∙ ground arith

  sub_there :
      parse_mariadb_interval_us text ≡ some (sub_ℕ 0 us) → subtime_ts ts text ≡ some (ts +ℤ pos us)
  unfolding subtime_ts ◌+ℤ◌ ◌-ℤ◌
  sub_there e = ap (given (λ z. int64 (ts -ℤ z))) e ∙ ground arith

  add_back :
      parse_mariadb_interval_us text ≡ some (sub_ℕ 0 us) → addtime_ts (ts +ℤ pos us) text ≡ some ts
  unfolding addtime_ts ◌+ℤ◌ ◌-ℤ◌
  add_back e = ap (given (λ z. int64 (ts +ℤ pos us +ℤ z))) e ∙ ground arith

clock_there :
    (text : Bytes) (us t : ℕ)
    → t < day_us
    → t + us < 2 ^ 63
    → parse_mariadb_interval_us text ≡ some (pos us)
    → addtime_time (pos t) text ≡ some (pos ((t + us) % day_us))
unfolding addtime_time wrap_day ◌+ℤ◌ ◌%ℤ◌
clock_there text us t h bound e = ap (given (λ z. wrapped (int64 (pos t +ℤ z)))) e ∙ ground arith

clock_back :
    (text : Bytes) (us t : ℕ)
    → t < day_us
    → t + us < 2 ^ 63
    → parse_mariadb_interval_us text ≡ some (pos us)
    → subtime_time (pos ((t + us) % day_us)) text ≡ some (pos t)
unfolding subtime_time wrap_day ◌+ℤ◌ ◌-ℤ◌ ◌%ℤ◌
clock_back text us t h bound e =
    ap (given (λ z. wrapped (int64 (pos ((t + us) % day_us) -ℤ z)))) e ∙ ground arith

module _ (d h m s f : Bytes) (days : AreDigits d) (hours : AreDigits h) (minutes : AreDigits m)
    (seconds : AreDigits s) (fraction : AreDigits f) where
  -- ADDTIME adds the microseconds that an interval 'D H:M:S.f' names to a timestamp, and SUBTIME
  -- takes them away again; with a sign in front of the interval, each does what the other did. On a
  -- time of day they do so on the clock, which wraps around at midnight. The numbers are `int`s, and
  -- neither a timestamp, nor the time of day with the interval added, leaves int64_t.
  pub subtime-addtime :
      IsInt (decimal 0 d)
      → IsInt (decimal 0 h)
      → IsInt (decimal 0 m)
      → IsInt (decimal 0 s)
      → (ts : ℤ) (t : ℕ) → in_range (2 ^ 63) ts ≡ true
      → in_range (2 ^ 63) (ts +ℤ pos (named_us d h m s f)) ≡ true
      → t < day_us
      → t + named_us d h m s f < 2 ^ 63
      → let text = interval_text d h m s f in
        let us = named_us d h m s f in
        (addtime_ts ts text ≡ some (ts +ℤ pos us))
        × (subtime_ts (ts +ℤ pos us) text ≡ some ts)
        × (subtime_ts ts (b'-' ∷ text) ≡ some (ts +ℤ pos us))
        × (addtime_ts (ts +ℤ pos us) (b'-' ∷ text) ≡ some ts)
        × (addtime_time (pos t) text ≡ some (pos ((t + us) % day_us)))
        × (subtime_time (pos ((t + us) % day_us)) text ≡ some (pos t))
  subtime-addtime p q r u ts t old new clock bound =
      let text = interval_text d h m s f in
      let us = named_us d h m s f in
      let (plain, minus) =
        parse-interval_text d h m s f days hours minutes seconds fraction p q r u (omega arith) in
      (
        add_there text us ts old new plain,
        sub_back text us ts old new plain,
        sub_there (b'-' ∷ text) us ts old new minus,
        add_back (b'-' ∷ text) us ts old new minus,
        clock_there text us t clock bound plain,
        clock_back text us t clock bound plain,
      )
