-- ===== src/Backtest/Sizing.antt =====
-- The first half of `_execute_rebalance`: the checks on the clock, the reasons for no action, and
-- the size of the position that the caps allow.
use kraken_knight.Base.{
  ℕ, ◌+◌, ◌*◌, Bool, true, false, ◌&&◌, not, Option, none, some, ltb, ◌==◌, if◌then◌else◌,
  runtime_error, Result, ok, ◌>>=◌, ◌>>◌, raise_if,
}
use kraken_knight.Decimals.{Decimal, of_ℕ, lt, le, min, max, ◌⊕◌, ◌⊖◌, ◌⊗◌, ◌⊘◌}
use kraken_knight.Domain.{Instant, minute, zero_decimal}
use kraken_knight.Strategy.{StrategyDecision}
use kraken_knight.Backtest.Types.{
  TradeSide, ExecutionOutcome, no_action_data_invalid, no_action_stale_signal, BacktestConfig,
  fee_rate_for,
}
use kraken_knight.Backtest.Pricing.{PortfolioSnapshot, portfolio_snapshot, execution_price}

-- The arguments of `_execute_rebalance`.
pub record Rebalance : Type 0 where
  pub signal : StrategyDecision
  pub decision_time : Instant
  pub execution_time : Instant
  pub reference_price : Decimal
  pub execution_volume_btc : Option Decimal
  pub required_signal_close_time : Instant
  pub cash : Decimal
  pub btc : Decimal
  pub config : BacktestConfig
  pub exposure_increase_blocked : Bool
  pub drawdown_disarmed : Bool

-- `signal_close_time is not None and decision_time != signal_close_time + delay`
abbrev off_schedule : Option Instant → Instant → ℕ → Bool
off_schedule none decision_time delay = false
off_schedule (some closed) decision_time delay = not (decision_time == closed + delay * minute)

-- The snapshot, and the checks before anything is decided.
unfoldable pub check_inputs : Rebalance → Result PortfolioSnapshot
check_inputs r = do
  snapshot ←
      portfolio_snapshot r.cash r.btc r.reference_price r.config.costs r.config.instrument_rules
  raise_if (le snapshot.equity zero_decimal) (runtime_error "portfolio equity must remain positive")
  raise_if (ltb r.execution_time r.decision_time)
      (runtime_error "execution cannot precede the recorded decision time")
  raise_if (off_schedule r.signal.signal_close_time r.decision_time r.config.decision_delay_minutes)
      (runtime_error "decision_time does not match the configured schedule")
  ok snapshot

-- `band`
unfoldable pub rebalance_band : BacktestConfig → Decimal → Decimal
rebalance_band config equity =
    max config.rebalance_min_cad (config.rebalance_equity_fraction ⊗ equity)

abbrev pub is_stale : Option Instant → Instant → Bool
is_stale none required = true
is_stale (some closed) required = not (closed == required)

-- `no_action_outcome`
unfoldable pub no_action_outcome : Rebalance → Option ExecutionOutcome
no_action_outcome r =
    if not r.signal.usable_data
    then some no_action_data_invalid
    else if is_stale r.signal.signal_close_time r.required_signal_close_time
    then some no_action_stale_signal
    else none

-- The cash that one bitcoin moves, with the fee, on a side.
abbrev with_fee : TradeSide → Decimal → Decimal → Decimal
with_fee TradeSide.buy price fee_rate = price ⊗ (of_ℕ 1 ⊕ fee_rate)
with_fee TradeSide.sell price fee_rate = price ⊗ (of_ℕ 1 ⊖ fee_rate)

unfoldable pub cash_per_btc : Rebalance → TradeSide → Result Decimal
cash_per_btc r side = do
  price ← execution_price r.reference_price side r.config.costs r.config.instrument_rules
  ok (with_fee side price (fee_rate_for r.config.costs side))

-- `post_cost_price`
unfoldable pub post_cost_price : Rebalance → Result Decimal
post_cost_price r = do
  price ← cash_per_btc r TradeSide.sell
  raise_if (le price zero_decimal) (runtime_error "liquidation value must remain positive")
  ok price

-- The target, under the absolute cap.
unfoldable pub target_btc : Rebalance → Decimal → Decimal → Result Decimal
target_btc r equity post_cost = do
  target ← (r.signal.target_weight ⊗ equity) ⊘ post_cost
  cap ← r.config.absolute_btc_cap_cad ⊘ r.reference_price
  ok (min target cap)

abbrev pub side_towards : Decimal → Decimal → TradeSide
side_towards desired btc = if lt btc desired then TradeSide.buy else TradeSide.sell

-- The cap on the exposure after costs.
unfoldable pub exposure_capped : Rebalance → Decimal → Decimal → Decimal → Result Decimal
exposure_capped r post_cost per_btc desired =
    let cap = r.config.max_post_cost_exposure in
    let denominator = (of_ℕ 1 ⊖ cap) ⊗ post_cost ⊕ cap ⊗ per_btc in
    if lt zero_decimal denominator
    then (do maximum ← (cap ⊗ (r.cash ⊕ r.btc ⊗ per_btc)) ⊘ denominator; ok (min desired maximum))
    else ok zero_decimal

-- The cash reserve: sell to restore it, or buy with what lies above it.
unfoldable pub reserve_capped : Rebalance → Decimal → Decimal → Decimal → Result Decimal
reserve_capped r post_cost per_btc desired =
    if lt r.cash r.config.cash_reserve_cad && lt zero_decimal r.btc
    then (do
      shortfall ← (r.config.cash_reserve_cad ⊖ r.cash) ⊘ post_cost
      ok (min desired (max zero_decimal (r.btc ⊖ shortfall))))
    else if lt r.btc desired
    then (do
      affordable ← max zero_decimal (r.cash ⊖ r.config.cash_reserve_cad) ⊘ per_btc
      ok (min desired (r.btc ⊕ affordable)))
    else ok desired

pub record Size : Type 0 where
  pub post_cost : Decimal
  pub desired_btc : Decimal
  pub risk_gate_blocks_increase : Bool

-- The gates: a blocked increase keeps the holding, and a disarmed account wants none.
unfoldable pub gated : Rebalance → Decimal → Decimal → Size
gated r post_cost desired =
    let blocks = r.exposure_increase_blocked && lt r.btc desired in
    record {
      post_cost = post_cost;
      desired_btc = if r.drawdown_disarmed then zero_decimal else if blocks then r.btc else desired;
      risk_gate_blocks_increase = blocks;
    }

-- From the target weight to `desired_btc`.
unfoldable pub size : Rebalance → Decimal → Result Size
size r equity = do
  post_cost ← post_cost_price r
  target ← target_btc r equity post_cost
  per_btc ← cash_per_btc r (side_towards target r.btc)
  exposed ← exposure_capped r post_cost per_btc target
  desired ← reserve_capped r post_cost per_btc exposed
  ok (gated r post_cost desired)
