-- ===== src/Domain.antt =====
-- src/kraken_knight/domain.py: numbers from outside, dates, and daily candles.
--
-- A `datetime` is counted in microseconds from the first instant that Python's type has
-- (0001-01-01 00:00), so it is a natural number; `timedelta(days=1)` is `day`. Arguments of a
-- wrong Python type are outside the model, except a float or bool for a number, which the
-- program singles out.
pub mod Candles
mod Tests
use Prim.Native.String.{◌++◌ as text_append}
use kraken_knight.Base.{
  ℕ, zero, ◌+◌, ◌*◌, ◌%◌, String, Bool, ◌&&◌, not, ◌==◌, ℤ, pos, Error, type_error, value_error,
  Result, ok, err, ◌>>=◌, ◌>>◌, raise_if,
}
use kraken_knight.Decimals.{Decimal, of_ℕ, lt, le, min}

-- `Number`, as a caller hands it in
pub data Number : Type 0 where
  -- a finite Decimal, an int, or a text that reads as one
  finite : Decimal → Number
  -- a NaN or an infinity
  not_finite : Number
  -- a text that `Decimal` refuses
  unreadable : Number
  -- a float or a bool
  binary : Number

unfoldable pub to_decimal : Number → String → Result Decimal
to_decimal (finite d) field = ok d
to_decimal not_finite field = err (value_error (text_append field " must be finite"))
to_decimal unreadable field = err (value_error (text_append field " is not a valid decimal"))
to_decimal binary field =
    err (type_error (text_append field " must be supplied as Decimal, int, or str"))

abbrev pub Instant : Type 0
Instant = ℕ

abbrev pub minute : ℕ
minute = 60000000

abbrev pub day : ℕ
day = 86400000000

-- A `datetime`: with no zone, or with the offset from UTC (in microseconds) and the UTC instant.
pub data Datetime : Type 0 where
  naive : Instant → Datetime
  zoned : (offset : ℤ) (instant : Instant) → Datetime

pub record Candle : Type 0 where
  pub open_time : Instant
  pub opening : Decimal
  pub high : Decimal
  pub low : Decimal
  pub close : Decimal
  pub volume : Decimal
  pub complete : Bool

-- `open_time.tzinfo is None or open_time.utcoffset() != timedelta(0)`
unfoldable pub require_utc : Datetime → Error → Result Instant
require_utc (naive t) e = err e
require_utc (zoned (pos zero) t) e = ok t
require_utc (zoned z t) e = err e

abbrev pub zero_decimal : Decimal
zero_decimal = of_ℕ 0

-- `Candle.__post_init__`
unfoldable pub make_candle :
    Datetime → Number → Number → Number → Number → Number → Bool → Result Candle
make_candle open_time opening high low close volume complete = do
  t ← require_utc open_time (value_error "open_time must be timezone-aware UTC")
  raise_if (not (t % day == 0)) (value_error "a daily candle must begin at 00:00:00 UTC")
  o ← to_decimal opening "open"
  h ← to_decimal high "high"
  l ← to_decimal low "low"
  c ← to_decimal close "close"
  v ← to_decimal volume "volume"
  raise_if (le (min (min (min o h) l) c) zero_decimal)
      (value_error "OHLC prices must all be greater than zero")
  raise_if (lt v zero_decimal) (value_error "volume cannot be negative")
  raise_if (lt h l) (value_error "low cannot exceed high")
  raise_if (not (le l o && le o h)) (value_error "open must be within [low, high]")
  raise_if (not (le l c && le c h)) (value_error "close must be within [low, high]")
  ok (record {
    open_time = t;
    opening = o;
    high = h;
    low = l;
    close = c;
    volume = v;
    complete = complete;
  })

-- `Candle.close_time`
abbrev pub close_time : Candle → Instant
close_time c = c.open_time + day
