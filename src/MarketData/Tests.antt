-- ===== src/MarketData/Tests.antt =====
-- A response of three rows, read and then checked at a quarter past midnight.
use kraken_knight.Base.{
  ℕ, ◌+◌, ◌-◌, ◌*◌, ◌/◌, ◌≡◌, refl, ◌↔◌, Bool, true, false, none, some, [], ◌∷◌, ◌++◌, pos,
  market_data_error, ok, err,
}
use kraken_knight.Decimals.{of_ℕ, arithmetic}
use kraken_knight.Domain.{
  finite, to_decimal, Instant, minute, day, zoned, Candle, require_utc, make_candle,
}
use kraken_knight.MarketData.{
  minimum_completion_delay, maximum_observation_age, KrakenOhlcBatch, validate_daily_sequence,
  check_clock, validate_batch_freshness, Cell, Row, cells, unix_epoch, from_timestamp,
  parse_decimal, parse_row, parse_rows, parse_ohlc_rows,
}
use kraken_knight.MarketData.Sequence.{
  IsIncreasing, OpensDaily, validate_daily_sequence-IsIncreasing,
  validate_daily_sequence_contiguous,
}
use kraken_knight.MarketData.Freshness.{IsFresh, validate_batch_freshness_iff, fresh_date}
use kraken_knight.MarketData.Rows.{AreParsed, parse_ohlc_rows-IsParsed}

-- 2021-01-01, in seconds of Unix time
abbrev first_second : ℕ
first_second = 1609459200

abbrev opened : ℕ → Instant
opened n = (unix_epoch + first_second) * 1000000 + n * day

abbrev candle : ℕ → Bool → Candle
candle n complete = record {
  open_time = opened n;
  opening = of_ℕ 100;
  high = of_ℕ 120;
  low = of_ℕ 95;
  close = of_ℕ 110;
  volume = of_ℕ 7;
  complete = complete;
}

abbrev cell : ℕ → Cell
cell n = record { as_int = some (pos n); as_decimal = finite (of_ℕ n) }

abbrev row : ℕ → Row
row n = cells (
    cell (first_second + n * 86400)
    ∷ cell 100
    ∷ cell 120
    ∷ cell 95
    ∷ cell 110
    ∷ cell 105
    ∷ cell 7
    ∷ cell 3
    ∷ [])

abbrev batch : KrakenOhlcBatch
batch = record {
  completed = candle 0 true ∷ candle 1 true ∷ [];
  mutable_tail = candle 2 false;
  raw_pair_key = "XXBTZCAD";
  observed_at = opened 2 + 15 * minute;
  requested_pair = none;
}

abbrev empty_batch : KrakenOhlcBatch
empty_batch = record batch { completed = [] }

rows_parsed :
    parse_ohlc_rows (row 0 ∷ row 1 ∷ row 2 ∷ []) "XXBTZCAD" (opened 2 + 15 * minute) none ≡ ok batch
unfolding parse_ohlc_rows parse_rows parse_row parse_decimal from_timestamp validate_daily_sequence
    make_candle to_decimal require_utc arithmetic
rows_parsed = refl

parse_ohlc_rows-IsParsed_example :
    AreParsed (row 0 ∷ row 1 ∷ row 2 ∷ []) batch.completed batch.mutable_tail
    × IsIncreasing (batch.completed ++ batch.mutable_tail ∷ [])
parse_ohlc_rows-IsParsed_example =
    parse_ohlc_rows-IsParsed (row 0 ∷ row 1 ∷ row 2 ∷ []) "XXBTZCAD" (opened 2 + 15 * minute) none
      batch rows_parsed

validate_daily_sequence-IsIncreasing_example :
    (validate_daily_sequence (candle 0 true ∷ candle 5 true ∷ []) false ≡ ok tt)
    ↔ IsIncreasing (candle 0 true ∷ candle 5 true ∷ [])
validate_daily_sequence-IsIncreasing_example =
    validate_daily_sequence-IsIncreasing (candle 0 true ∷ candle 5 true ∷ [])

validate_daily_sequence_contiguous_example :
    (validate_daily_sequence (candle 0 true ∷ candle 5 true ∷ []) true ≡ ok tt)
    ↔ OpensDaily (opened 0) (candle 0 true ∷ candle 5 true ∷ [])
validate_daily_sequence_contiguous_example =
    validate_daily_sequence_contiguous (candle 0 true ∷ candle 5 true ∷ [])

batch_fresh :
    validate_batch_freshness batch
      (zoned (pos 0) (opened 2 + 16 * minute))
      minimum_completion_delay
      maximum_observation_age
    ≡ ok tt
unfolding validate_batch_freshness check_clock validate_daily_sequence
batch_fresh = refl

-- five minutes and a microsecond after the observation
batch_stale :
    validate_batch_freshness batch
      (zoned (pos 0) (opened 2 + 20 * minute + 1))
      minimum_completion_delay
      maximum_observation_age
    ≡ err (market_data_error "OHLC observation is stale")
unfolding validate_batch_freshness check_clock validate_daily_sequence
batch_stale = refl

validate_batch_freshness_iff_example :
    (validate_batch_freshness batch
        (zoned (pos 0) (opened 2 + 16 * minute))
        minimum_completion_delay
        maximum_observation_age
      ≡ ok tt)
    ↔ IsFresh batch
        (candle 1 true)
        (opened 2 + 16 * minute)
        minimum_completion_delay
        maximum_observation_age
validate_batch_freshness_iff_example =
    validate_batch_freshness_iff batch (pos 0) (opened 2 + 16 * minute) minimum_completion_delay
      maximum_observation_age (candle 1 true) refl

fresh_date_example :
    opened 1 + day ≡ (opened 2 + 16 * minute - minimum_completion_delay) / day * day
fresh_date_example =
    fresh_date batch (pos 0) (opened 2 + 16 * minute) maximum_observation_age (candle 1 true) refl
      refl batch_fresh
