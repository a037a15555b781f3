-- ===== src/Domain/Tests.antt =====
-- Candles at concrete prices: one that is constructed, and two that are refused.
use kraken_knight.Base.{◌*◌, ◌≡◌, refl, true, pos, value_error, ok, err}
use kraken_knight.Decimals.{of_ℕ, literal, arithmetic}
use kraken_knight.Domain.{
  finite, to_decimal, Instant, day, naive, zoned, Candle, require_utc, zero_decimal, make_candle,
}
use kraken_knight.Domain.Candles.{IsWellFormed, make_candle-IsWellFormed, make_candle_complete}

abbrev first_day : Instant
first_day = 738000 * day

abbrev sample : Candle
sample = record {
  open_time = first_day;
  opening = of_ℕ 100;
  high = of_ℕ 120;
  low = literal 955 1;
  close = of_ℕ 110;
  volume = zero_decimal;
  complete = true;
}

sample_made :
    make_candle
      (zoned (pos 0) first_day)
      (finite (of_ℕ 100))
      (finite (of_ℕ 120))
      (finite (literal 955 1))
      (finite (of_ℕ 110))
      (finite zero_decimal)
      true
    ≡ ok sample
unfolding make_candle to_decimal require_utc arithmetic
sample_made = refl

-- a close above the high
above_high_refused :
    make_candle
      (zoned (pos 0) first_day)
      (finite (of_ℕ 100))
      (finite (of_ℕ 120))
      (finite (literal 955 1))
      (finite (of_ℕ 121))
      (finite zero_decimal)
      true
    ≡ err (value_error "close must be within [low, high]")
unfolding make_candle to_decimal require_utc arithmetic
above_high_refused = refl

-- a time without a zone
naive_refused :
    make_candle
      (naive first_day)
      (finite (of_ℕ 100))
      (finite (of_ℕ 120))
      (finite (literal 955 1))
      (finite (of_ℕ 110))
      (finite zero_decimal)
      true
    ≡ err (value_error "open_time must be timezone-aware UTC")
unfolding make_candle to_decimal require_utc arithmetic
naive_refused = refl

make_candle-IsWellFormed_example : IsWellFormed sample
make_candle-IsWellFormed_example =
    make_candle-IsWellFormed (zoned (pos 0) first_day) (finite (of_ℕ 100)) (finite (of_ℕ 120))
      (finite (literal 955 1)) (finite (of_ℕ 110)) (finite zero_decimal) true sample_made

make_candle_complete_example :
    make_candle
      (zoned (pos 0) first_day)
      (finite (of_ℕ 100))
      (finite (of_ℕ 120))
      (finite (literal 955 1))
      (finite (of_ℕ 110))
      (finite zero_decimal)
      true
    ≡ ok sample
make_candle_complete_example = make_candle_complete sample (
    make_candle-IsWellFormed (zoned (pos 0) first_day) (finite (of_ℕ 100)) (finite (of_ℕ 120))
      (finite (literal 955 1)) (finite (of_ℕ 110)) (finite zero_decimal) true sample_made)
