-- ===== src/Domain/Candles.antt =====
-- Which candles `Candle.__post_init__` lets through.
use kraken_knight.Base.{zero, ◌%◌, ◌≡◌, Bool, true, false, arith, pos, ok}
use kraken_knight.Decimals.{
  Decimal, lt, le, min, le-eq-not-lt, lt_of_lt_of_le, le_trans, min-le_left, min-le_right,
}
use kraken_knight.Domain.{
  Number, finite, Datetime, zoned, Candle, day, zero_decimal, to_decimal, require_utc, make_candle,
}

-- The invariant of a candle that was constructed.
pub record IsWellFormed (c : Candle) : Type 0 where
  pub midnight : c.open_time % day ≡ 0
  pub opening_pos : lt zero_decimal c.opening ≡ true
  pub high_pos : lt zero_decimal c.high ≡ true
  pub low_pos : lt zero_decimal c.low ≡ true
  pub close_pos : lt zero_decimal c.close ≡ true
  pub volume_nonneg : le zero_decimal c.volume ≡ true
  pub low-le-high : le c.low c.high ≡ true
  pub low-le-opening : le c.low c.opening ≡ true
  pub opening-le-high : le c.opening c.high ≡ true
  pub low-le-close : le c.low c.close ≡ true
  pub close-le-high : le c.close c.high ≡ true

module _ (o h l c : Decimal) (p : le (min (min (min o h) l) c) zero_decimal ≡ false) where
  least_pos : lt zero_decimal (min (min (min o h) l) c) ≡ true
  least_pos = ground (arith, le-eq-not-lt (min (min (min o h) l) c) zero_decimal)

  above_least : (x : Decimal) → le (min (min (min o h) l) c) x ≡ true → lt zero_decimal x ≡ true
  above_least x q = lt_of_lt_of_le _ _ _ least_pos q

  min₃-le : le (min (min (min o h) l) c) (min (min o h) l) ≡ true
  min₃-le = min-le_left (min (min o h) l) c

  min₂-le : le (min (min (min o h) l) c) (min o h) ≡ true
  min₂-le = le_trans _ _ _ min₃-le (min-le_left (min o h) l)

  prices_pos :
      (lt zero_decimal o ≡ true)
      × (lt zero_decimal h ≡ true)
      × (lt zero_decimal l ≡ true)
      × (lt zero_decimal c ≡ true)
  prices_pos = (
    above_least o (le_trans _ _ _ min₂-le (min-le_left o h)),
    above_least h (le_trans _ _ _ min₂-le (min-le_right o h)),
    above_least l (le_trans _ _ _ min₃-le (min-le_right (min o h) l)),
    above_least c (min-le_right (min (min o h) l) c),
  )

-- A candle is constructed only from a UTC midnight and finite numbers, with positive prices, a
-- volume that is not negative, and the opening and closing prices within the range from low to
-- high.
pub make_candle-IsWellFormed :
    (t : Datetime) (o h l c v : Number) (complete : Bool) {candle : Candle}
    → make_candle t o h l c v complete ≡ ok candle
    → IsWellFormed candle
unfolding make_candle to_decimal require_utc
make_candle-IsWellFormed (zoned (pos zero) t) (finite o) (finite h) (finite l) (finite c) (finite v)
      complete e =
    ground (arith, prices_pos o h l c, le-eq-not-lt zero_decimal v, le-eq-not-lt l h)
make_candle-IsWellFormed t o h l c v complete e = ground arith

lt-zero-min :
    (a b : Decimal)
    → lt zero_decimal a ≡ true
    → lt zero_decimal b ≡ true
    → lt zero_decimal (min a b) ≡ true
unfolding min
lt-zero-min a b p q = ground arith

-- Every candle that is well formed is constructed from its own fields, unchanged.
pub make_candle_complete :
    (c : Candle)
    → IsWellFormed c
    → make_candle
        (zoned (pos 0) c.open_time)
        (finite c.opening)
        (finite c.high)
        (finite c.low)
        (finite c.close)
        (finite c.volume)
        c.complete
      ≡ ok c
unfolding make_candle to_decimal require_utc
make_candle_complete c w =
    let least =
      lt-zero-min (min (min c.opening c.high) c.low) c.close
        (lt-zero-min (min c.opening c.high) c.low
          (lt-zero-min c.opening c.high w.opening_pos w.high_pos) w.low_pos)
        w.close_pos in
    ground (
      arith,
      w,
      least,
      le-eq-not-lt (min (min (min c.opening c.high) c.low) c.close) zero_decimal,
      le-eq-not-lt zero_decimal c.volume,
      le-eq-not-lt c.low c.high,
    )
