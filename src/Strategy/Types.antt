-- ===== src/Strategy/Types.antt =====
-- The types of src/kraken_knight/strategy.py, and what it takes from `math`, `statistics`,
-- `hashlib` and `json`.
use kraken_knight.Base.{
  ℕ, suc, ◌+◌, Bool, ◌||◌, Option, List, ltb, if◌then◌else◌, ℤ, pos, Error, value_error, Result, ok,
  err, ◌>>=◌, ◌>>◌, raise_if,
}
use kraken_knight.Decimals.{Decimal, of_ℕ, lt, le}
use kraken_knight.Domain.{Number, Instant, Candle, to_decimal, zero_decimal}

pub data PositionState : Type 0 where
  cash btc : PositionState

pub data DecisionReason : Type 0 where
  insufficient_history incomplete_candle invalid_sequence non_positive_momentum : DecisionReason
  below_trend zero_volatility long_signal : DecisionReason

pub record StrategyPolicy : Type 0 where
  pub momentum_days : ℕ
  pub trend_days : ℕ
  pub volatility_days : ℕ
  pub annualization_days : ℕ
  pub volatility_target : Decimal
  pub max_weight : Decimal

-- What a decision says, apart from the three digests.
pub record Outcome : Type 0 where
  pub signal_open_time : Option Instant
  pub signal_close_time : Option Instant
  pub state : PositionState
  pub target_weight : Decimal
  pub reason : DecisionReason
  pub usable_data : Bool
  pub close : Option Decimal
  pub momentum : Option Decimal
  pub sma : Option Decimal
  pub annualized_volatility : Option Decimal

-- A SHA-256 digest, as the number that its hexadecimal digits write.
abbrev pub Digest : Type 0
Digest = ℕ

pub record StrategyDecision : Type 0 where
  pub decision_id : Digest
  pub outcome : Outcome
  pub open outcome use *
  pub policy_hash : Digest
  pub input_data_hash : Digest

-- The digests of canonical JSON, as functions of the data that is hashed.
pub record Digests : Type 0 where
  pub fingerprint : StrategyPolicy → Digest
  pub input_data : List Candle → Digest
  pub decision : Outcome → Digest → Digest → Digest

-- A binary float, by its bit pattern.
abbrev pub Float : Type 0
Float = ℕ

-- What the program uses of floats; `none` is a ValueError, OverflowError or StatisticsError.
-- `statistics.stdev` may also raise another exception, as it does for a list with an infinity.
pub record Floats : Type 0 where
  pub of_decimal : Decimal → Option Float
  pub log : Float → Option Float
  pub stdev : List Float → Result (Option Float)
  pub sqrt : ℕ → Option Float
  pub times : Float → Float → Float
  pub is_finite : Float → Bool
  pub is_positive : Float → Bool
  -- `Decimal(str(x))` of a finite `x`
  pub to_text_decimal : Float → Decimal

-- `value <= 0` of an int
abbrev pub require_positive : ℤ → Error → Result ℕ
require_positive (pos (suc n)) e = ok (suc n)
require_positive z e = err e

-- `StrategyPolicy.__post_init__`
unfoldable pub make_policy : ℤ → ℤ → ℤ → ℤ → Number → Number → Result StrategyPolicy
make_policy momentum_days trend_days volatility_days annualization_days target maximum = do
  m ← require_positive momentum_days (value_error "momentum_days must be a positive integer")
  t ← require_positive trend_days (value_error "trend_days must be a positive integer")
  v ← require_positive volatility_days (value_error "volatility_days must be a positive integer")
  a ←
      require_positive annualization_days
        (value_error "annualization_days must be a positive integer")
  target' ← to_decimal target "volatility_target"
  maximum' ← to_decimal maximum "max_weight"
  raise_if (le target' zero_decimal) (value_error "volatility_target must be greater than zero")
  raise_if (le maximum' zero_decimal || lt (of_ℕ 1) maximum')
      (value_error "max_weight must be in (0, 1]")
  ok (record {
    momentum_days = m;
    trend_days = t;
    volatility_days = v;
    annualization_days = a;
    volatility_target = target';
    max_weight = maximum';
  })

abbrev max_ℕ : ℕ → ℕ → ℕ
max_ℕ a b = if ltb a b then b else a

-- `StrategyPolicy.minimum_history`
unfoldable pub minimum_history : StrategyPolicy → ℕ
minimum_history p = max_ℕ (max_ℕ p.trend_days (p.momentum_days + 1)) (p.volatility_days + 1)
