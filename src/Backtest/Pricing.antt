-- ===== src/Backtest/Pricing.antt =====
-- The valuation of a portfolio and the price of an execution: `_portfolio_snapshot`,
-- `_round_to_increment` and `_execution_price`.
use kraken_knight.Base.{
  ℕ, ◌+◌, ◌&&◌, Option, none, some, ltb, if◌then◌else◌, runtime_error, Result, ok, ◌>>=◌, ◌>>◌,
  raise_if,
}
use kraken_knight.Decimals.{
  Decimal, Rounding, round_floor, round_ceiling, of_ℕ, lt, le, ◌⊕◌, ◌⊖◌, ◌⊗◌, to_integral, div_at,
  mul_at, digit_count,
}
use kraken_knight.Domain.{zero_decimal}
use kraken_knight.Backtest.Types.{TradeSide, ExecutionCosts, InstrumentRules, fee_rate_for}

-- The precision of the local context.
unfoldable pub increment_precision : Decimal → Decimal → ℕ
increment_precision value increment =
    let wanted = digit_count value + digit_count increment + 8 in
    if ltb 50 wanted then wanted else 50

unfoldable pub round_to_increment : Decimal → Decimal → Rounding → Result Decimal
round_to_increment value increment rounding = do
  let prec = increment_precision value increment
  ratio ← div_at prec value increment
  ok (mul_at prec (to_integral rounding ratio) increment)

abbrev slippage_multiplier : TradeSide → ExecutionCosts → Decimal
slippage_multiplier TradeSide.buy costs = of_ℕ 1 ⊕ costs.slippage_rate
slippage_multiplier TradeSide.sell costs = of_ℕ 1 ⊖ costs.slippage_rate

abbrev price_rounding : TradeSide → Rounding
price_rounding TradeSide.buy = round_ceiling
price_rounding TradeSide.sell = round_floor

unfoldable pub execution_price :
    Decimal → TradeSide → ExecutionCosts → Option InstrumentRules → Result Decimal
execution_price reference_price side costs none =
    ok (reference_price ⊗ slippage_multiplier side costs)
execution_price reference_price side costs (some rules) =
    round_to_increment (reference_price ⊗ slippage_multiplier side costs) rules.price_tick_cad
      (price_rounding side)

pub record PortfolioSnapshot : Type 0 where
  pub equity : Decimal
  pub btc_mark_value : Decimal
  pub btc_liquidation_value : Decimal
  pub estimated_liquidation_fee : Decimal
  pub estimated_liquidation_slippage : Decimal

unfoldable pub portfolio_snapshot :
    Decimal → Decimal → Decimal → ExecutionCosts → Option InstrumentRules → Result PortfolioSnapshot
portfolio_snapshot cash btc reference_price costs rules = do
  let btc_mark_value = btc ⊗ reference_price
  liquidation_price ← execution_price reference_price TradeSide.sell costs rules
  raise_if (lt zero_decimal btc && le liquidation_price zero_decimal)
      (runtime_error "rounded liquidation price must remain positive")
  let liquidation_notional = btc ⊗ liquidation_price
  let fee = liquidation_notional ⊗ fee_rate_for costs TradeSide.sell
  let btc_liquidation_value = liquidation_notional ⊖ fee
  ok (record {
    equity = cash ⊕ btc_liquidation_value;
    btc_mark_value = btc_mark_value;
    btc_liquidation_value = btc_liquidation_value;
    estimated_liquidation_fee = fee;
    estimated_liquidation_slippage = btc_mark_value ⊖ liquidation_notional;
  })
