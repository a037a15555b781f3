-- ===== src/Strategy.antt =====
-- src/kraken_knight/strategy.py: the daily signal from a history of candles.
--
-- Floats and digests are parameters (`Strategy.Types`); a decision is an `Outcome` and its digests.
mod Types
pub mod Causal
pub mod Table
pub mod Total
mod Tests
pub use Types.*
unfoldable pub use Types.{make_policy, minimum_history}
use mathlib.Core.Option
use kraken_knight.Base.{
  ℕ, ◌+◌, ◌*◌, Bool, true, false, ◌&&◌, not, Option, none, some, List, [], ◌∷◌, map, ltb, ◌==◌,
  if◌then◌else◌, length, last_n, get_last?, head?, any, any_pair, runtime_error, Result, ok, err,
  ◌>>=◌, ◌>>◌,
}
use kraken_knight.Decimals.{Decimal, of_ℕ, le, min, ◌⊖◌, ◌⊘◌, sum_from}
use kraken_knight.Domain.{day, Candle, zero_decimal, close_time}

-- One logarithm before the others; where it raised, the others are not taken.
unfoldable pub prepend : Option Float → Result (Option (List Float)) → Result (Option (List Float))
prepend none rest = ok none
prepend (some x) rest = do more ← rest; ok (Option.map (λ xs. x ∷ xs) more)

module _ (floats : Floats) where
  -- the logarithms of the daily ratios, as far as the first that raises
  unfoldable pub log_returns : List Decimal → Result (Option (List Float))
  log_returns [] = ok (some [])
  log_returns (left ∷ []) = ok (some [])
  log_returns (left ∷ right ∷ rest) = do
    ratio ← right ⊘ left
    prepend (Option.bind (floats.of_decimal ratio) floats.log) (log_returns (right ∷ rest))

  -- `daily_volatility * math.sqrt(annualization_days)`, or nothing where the `except` clause catches
  -- what is raised
  unfoldable pub annualize : Option (List Float) → ℕ → Result (Option Float)
  annualize none days = ok none
  annualize (some xs) days = do
    daily ← floats.stdev xs
    ok (Option.bind daily λ d. Option.map (λ root. floats.times d root) (floats.sqrt days))

  -- The annualized volatility, if it is finite and positive.
  unfoldable pub usable_volatility : Option Float → Option Decimal
  usable_volatility none = none
  usable_volatility (some x) =
      if floats.is_finite x && floats.is_positive x then some (floats.to_text_decimal x) else none

pub record Measures : Type 0 where
  pub price : Decimal
  pub momentum : Decimal
  pub sma : Decimal
  pub volatility : Option Decimal

-- Python's `IndexError`, which the windows never meet
abbrev pub or_index_error {ℓ} : {A : Type ℓ} → Option A → Result A
or_index_error none = err (runtime_error "index out of range")
or_index_error (some a) = ok a

-- The part of `evaluate` that computes, over the closes of a valid history.
unfoldable pub measure : Floats → StrategyPolicy → List Decimal → Result Measures
measure floats policy closes = do
  close ← or_index_error (get_last? closes)
  momentum_reference ← or_index_error (head? (last_n (policy.momentum_days + 1) closes))
  ratio ← close ⊘ momentum_reference
  sma ← sum_from zero_decimal (last_n policy.trend_days closes) ⊘ of_ℕ policy.trend_days
  returns ← log_returns floats (last_n (policy.volatility_days + 1) closes)
  annualized ← annualize floats returns policy.annualization_days
  ok (record {
    price = close;
    momentum = ratio ⊖ of_ℕ 1;
    sma = sma;
    volatility = usable_volatility floats annualized;
  })

-- A decision for cash, before anything was measured.
abbrev pub rejected : Option Candle → DecisionReason → Outcome
rejected signal reason = record {
  signal_open_time = Option.map (λ c. c.open_time) signal;
  signal_close_time = Option.map close_time signal;
  state = cash;
  target_weight = zero_decimal;
  reason = reason;
  usable_data = false;
  close = Option.map (λ c. c.close) signal;
  momentum = none;
  sma = none;
  annualized_volatility = none;
}

abbrev pub measured :
    Option Candle → PositionState → Decimal → DecisionReason → Bool → Measures → Decimal → Outcome
measured signal state target_weight reason usable m volatility = record {
  signal_open_time = Option.map (λ c. c.open_time) signal;
  signal_close_time = Option.map close_time signal;
  state = state;
  target_weight = target_weight;
  reason = reason;
  usable_data = usable;
  close = some m.price;
  momentum = some m.momentum;
  sma = some m.sma;
  annualized_volatility = some volatility;
}

-- The last part of `evaluate`: the decision by the measures.
unfoldable pub classify : StrategyPolicy → Option Candle → Measures → Result Outcome
classify policy signal m = elim m.volatility [
  | none ↦ ok (measured signal cash zero_decimal zero_volatility false m zero_decimal)
  | some volatility ↦
      if le m.momentum zero_decimal
      then ok (measured signal cash zero_decimal non_positive_momentum true m volatility)
      else if le m.price m.sma
      then ok (measured signal cash zero_decimal below_trend true m volatility)
      else do
        uncapped_weight ← policy.volatility_target ⊘ volatility
        ok (
            measured signal btc (min policy.max_weight uncapped_weight) long_signal true m
              volatility)
]

abbrev pub not_next_day : Candle → Candle → Bool
not_next_day left right = not (right.open_time == left.open_time + day)

abbrev pub incomplete : Candle → Bool
incomplete c = not c.complete

abbrev pub closes_of : List Candle → List Decimal
closes_of = map (λ c. c.close)

-- The tests of `evaluate` on its window of candles.
unfoldable pub assess_history :
    Floats → StrategyPolicy → Option Candle → List Candle → Result Outcome
assess_history floats policy signal history =
    if any incomplete history
    then ok (rejected signal invalid_sequence)
    else if any_pair not_next_day history
    then ok (rejected signal invalid_sequence)
    else do m ← measure floats policy (closes_of history); classify policy signal m

abbrev pub is_incomplete : Option Candle → Bool
is_incomplete none = false
is_incomplete (some c) = not c.complete

-- `MomentumTrendStrategy.evaluate`, without the digests
unfoldable pub assess : Floats → StrategyPolicy → List Candle → Result Outcome
assess floats policy candles =
    let signal = get_last? candles in
    if is_incomplete signal
    then ok (rejected signal incomplete_candle)
    else if ltb (length candles) (minimum_history policy)
    then ok (rejected signal insufficient_history)
    else assess_history floats policy signal (last_n (minimum_history policy) candles)

-- `MomentumTrendStrategy.evaluate` and `_decision`
unfoldable pub evaluate : Floats → Digests → StrategyPolicy → List Candle → Result StrategyDecision
evaluate floats digests policy candles = do
  let policy_hash = digests.fingerprint policy
  let input_data_hash = digests.input_data candles
  outcome ← assess floats policy candles
  ok (record {
    decision_id = digests.decision outcome policy_hash input_data_hash;
    outcome = outcome;
    policy_hash = policy_hash;
    input_data_hash = input_data_hash;
  })
