-- ===== src/MarketData.antt =====
-- src/kraken_knight/market_data.py: the parsing of Kraken's daily candles, and the tests that a
-- batch of them is contiguous and fresh.
--
-- A JSON value is seen through the two conversions that the program applies to it. The transport,
-- the JSON reader, the response's envelope and the hash of the raw bytes are not modelled.
pub mod Sequence
pub mod Freshness
pub mod Rows
mod Tests
use kraken_knight.Base.{
  ℕ, ◌+◌, ◌-◌, ◌*◌, ◌%◌, String, Bool, true, false, ◌&&◌, not, Option, none, some, List, [], ◌∷◌,
  ◌++◌, ltb, leb, ◌==◌, if◌then◌else◌, get_last?, ℤ, pos, negsuc, pos_part, neg_part, ltb_ℤ, leb_ℤ,
  value_error, market_data_error, Result, ok, err, ◌>>=◌, ◌>>◌, raise_if,
}
use kraken_knight.Domain.{
  Number, Instant, Candle, Datetime, naive, zoned, minute, day, close_time, make_candle,
}

abbrev pub minimum_completion_delay : ℕ
minimum_completion_delay = 15 * minute

abbrev pub maximum_observation_age : ℕ
maximum_observation_age = 5 * minute

-- `KrakenOhlcBatch`, less the two digests and the cursor
pub record KrakenOhlcBatch : Type 0 where
  pub completed : List Candle
  pub mutable_tail : Candle
  pub raw_pair_key : String
  pub observed_at : Instant
  pub requested_pair : Option String

-- `validate_daily_sequence`; a difference that is not positive is an opening that is not later.
unfoldable pub validate_daily_sequence : List Candle → Bool → Result (Unit {0})
validate_daily_sequence [] require_contiguous = ok tt
validate_daily_sequence (c ∷ []) require_contiguous = ok tt
validate_daily_sequence (previous ∷ current ∷ cs) require_contiguous = do
  raise_if (leb current.open_time previous.open_time)
      (market_data_error "candles must be unique and strictly increasing")
  raise_if (require_contiguous && not (current.open_time - previous.open_time == day))
      (market_data_error "daily candle sequence contains a gap")
  validate_daily_sequence (current ∷ cs) require_contiguous

-- The checks against the clock, once there is a latest completed candle.
unfoldable pub check_clock : Candle → Candle → Instant → Instant → ℕ → ℕ → Result (Unit {0})
check_clock latest tail observed_at evaluated_at delay age = do
  raise_if (ltb evaluated_at observed_at)
      (market_data_error "OHLC observation timestamp is in the future")
  raise_if (ltb age (evaluated_at - observed_at)) (market_data_error "OHLC observation is stale")
  raise_if (not (tail.open_time == close_time latest))
      (market_data_error "mutable OHLC tail does not immediately follow completed data")
  let earliest_decision = close_time latest + delay
  let next_scheduled_decision = earliest_decision + day
  raise_if (ltb evaluated_at earliest_decision)
      (market_data_error "latest candle has not satisfied the completion delay")
  raise_if (leb next_scheduled_decision evaluated_at)
      (market_data_error "latest completed candle is stale for this strategy date")

-- `validate_batch_freshness`; the two limits are durations, so they are not negative.
unfoldable pub validate_batch_freshness : KrakenOhlcBatch → Datetime → ℕ → ℕ → Result (Unit {0})
validate_batch_freshness batch (naive t) delay age =
    err (value_error "evaluated_at must be timezone-aware")
validate_batch_freshness batch (zoned offset evaluated_at) delay age =
    elim (get_last? batch.completed) [
      | none ↦ err (market_data_error "no completed candle is available")
      | some latest ↦
          validate_daily_sequence (batch.completed ++ batch.mutable_tail ∷ []) true
          >> check_clock latest batch.mutable_tail batch.observed_at evaluated_at delay age
    ]

-- A JSON value: what `int(value)` gives, and what `Decimal(str(value))` gives.
pub record Cell : Type 0 where
  pub as_int : Option ℤ
  pub as_decimal : Number

-- A row is an array of values, or something else.
pub data Row : Type 0 where
  not_array : Row
  cells : List Cell → Row

-- 1970-01-01, in seconds from the first instant
abbrev pub unix_epoch : ℕ
unix_epoch = 62135596800

-- `datetime.fromtimestamp(timestamp, tz=UTC)`, which knows the years 1 to 9999
unfoldable pub from_timestamp : ℤ → Result Instant
from_timestamp z =
    if leb_ℤ (negsuc (unix_epoch - 1)) z && ltb_ℤ z (pos 253402300800)
    then ok ((unix_epoch + pos_part z - neg_part z) * 1000000)
    else err (value_error "year is out of range")

-- The conversion of a constructor's ValueError.
abbrev pub as_market_error : {A : Type 0} → Result A → String → Result A
as_market_error (err (value_error _)) message = err (market_data_error message)
as_market_error r message = r

-- `_parse_decimal`, whose exceptions carry the field's name
unfoldable pub parse_decimal : Number → Result (Unit {0})
parse_decimal (Number.finite d) = ok tt
parse_decimal Number.not_finite = err (market_data_error "must be finite")
parse_decimal n = err (market_data_error "is not decimal-compatible")

-- `_parse_row`
unfoldable pub parse_row : Row → Bool → Result Candle
parse_row not_array complete = err (market_data_error "OHLC row must be an array")
parse_row (cells (stamp ∷ opening ∷ high ∷ low ∷ close ∷ vwap ∷ volume ∷ count ∷ more)) complete =
    do
      timestamp ← elim stamp.as_int [
        | none ↦ err (market_data_error "OHLC timestamp must be an integer")
        | some z ↦ ok z
      ]
      opened_at ← from_timestamp timestamp
      raise_if (not (opened_at % day == 0))
          (market_data_error "daily OHLC timestamp must be UTC midnight")
      parse_decimal opening.as_decimal
      parse_decimal high.as_decimal
      parse_decimal low.as_decimal
      parse_decimal close.as_decimal
      parse_decimal volume.as_decimal
      as_market_error
          (make_candle (zoned (pos 0) opened_at) opening.as_decimal high.as_decimal low.as_decimal
            close.as_decimal volume.as_decimal complete)
          "OHLC row violates candle invariants"
parse_row (cells few) complete =
    err (market_data_error "OHLC row must contain at least eight fields")

-- The loop of `parse_ohlc_payload` over `rows[:-1]`, and its last row.
unfoldable pub parse_rows : List Row → Result (List Candle × Candle)
parse_rows [] = err (market_data_error "OHLC result contains no candles")
parse_rows (row ∷ []) = do tail ← parse_row row false; ok ([], tail)
parse_rows (row ∷ next ∷ rows) = do
  candle ← parse_row row true
  parsed ← parse_rows (next ∷ rows)
  ok (candle ∷ parsed.0, parsed.1)

-- The end of `parse_ohlc_payload`: the mutable tail is set apart, and the sequence is validated.
unfoldable pub parse_ohlc_rows :
    List Row → String → Instant → Option String → Result KrakenOhlcBatch
parse_ohlc_rows rows raw_pair_key observed_at expected_pair = do
  parsed ← parse_rows rows
  validate_daily_sequence (parsed.0 ++ parsed.1 ∷ []) false
  ok (record {
    completed = parsed.0;
    mutable_tail = parsed.1;
    raw_pair_key = raw_pair_key;
    observed_at = observed_at;
    requested_pair = expected_pair;
  })
