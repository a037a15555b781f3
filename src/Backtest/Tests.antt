-- ===== src/Backtest/Tests.antt =====
-- Executions at concrete holdings: a purchase, a forced sale, missing evidence, and the two gates
-- at once; then the risk state at concrete candles.
use kraken_knight.Base.{
  ℕ, ◌+◌, ◌-◌, ◌*◌, ◌≡◌, refl, inl, Bool, true, false, none, some, negsuc, ◌+ℤ◌, ◌-ℤ◌, ok,
}
use kraken_knight.Decimals.{Decimal, of_ℕ, literal, lt, arithmetic}
use kraken_knight.Domain.{Instant, minute, day, zero_decimal}
use kraken_knight.Strategy.{
  PositionState, DecisionReason, invalid_sequence, below_trend, long_signal, StrategyDecision,
}
use kraken_knight.Backtest.Types.{
  DrawdownPolicyMode, persistent, taker, TradeSide, ExecutionOutcome, no_action_data_invalid,
  no_action_risk_gate, BacktestConfig, Trade, check_trade, check_decision, ContentIds,
}
use kraken_knight.Backtest.Pricing.{
  increment_precision, round_to_increment, execution_price, portfolio_snapshot,
}
use kraken_knight.Backtest.Sizing.{
  Rebalance, check_inputs, rebalance_band, no_action_outcome, cash_per_btc, post_cost_price,
  target_btc, exposure_capped, reserve_capped, gated, size,
}
use kraken_knight.Backtest.Holdings.{Accounts}
use kraken_knight.Backtest.Gates.{
  execute_rebalance-Accounts, execute_rebalance_gated, execute_rebalance_evidence,
}
use kraken_knight.Backtest.Execution.{
  Execution, traded_outcome, intent_id, decide, no_trade, without_evidence, figures, cap_reduction,
  risk_off_reduction, affordable, volume_capped, to_increment, check_holdings, participation,
  new_cash, new_btc, trade_record, record_trade, settle, trade_towards, rebalance_by, rebalance,
  execute_rebalance,
}

-- digests that tell the two identifiers apart
abbrev ids : ContentIds
ids = record {
  intent = λ decision decided executed weight equity delta. 1;
  trade = λ intent side quantity price notional fee volume capped. 2;
}

abbrev config : DrawdownPolicyMode → BacktestConfig
config mode = record {
  initial_cash = of_ℕ 1000;
  costs = record {
    maker_fee_rate = literal 4 3;
    taker_fee_rate = literal 8 3;
    slippage_rate = zero_decimal;
    buy_liquidity = taker;
    sell_liquidity = taker;
  };
  instrument_rules = none;
  max_execution_volume_fraction = none;
  cash_reserve_cad = of_ℕ 50;
  absolute_btc_cap_cad = of_ℕ 500;
  max_post_cost_exposure = literal 5 1;
  rebalance_min_cad = of_ℕ 10;
  rebalance_equity_fraction = literal 2 2;
  rolling_24h_loss_threshold = literal 5 2;
  max_drawdown_threshold = literal 15 2;
  drawdown_policy_mode = mode;
  drawdown_rearm_cooldown_days = 90;
  decision_delay_minutes = 15;
  daily_execution_lag_days = 1;
}

abbrev closed_at : Instant
closed_at = 738000 * day

abbrev signal : Bool → DecisionReason → Decimal → StrategyDecision
signal usable reason weight = record {
  decision_id = 7;
  outcome = record {
    signal_open_time = some (closed_at - day);
    signal_close_time = some closed_at;
    state = PositionState.btc;
    target_weight = weight;
    reason = reason;
    usable_data = usable;
    close = some (of_ℕ 100);
    momentum = none;
    sma = none;
    annualized_volatility = none;
  };
  policy_hash = 8;
  input_data_hash = 9;
}

abbrev request : StrategyDecision → ℕ → ℕ → Bool → Bool → Rebalance
request s cash_cad holding blocked disarmed = record {
  signal = s;
  decision_time = closed_at + 15 * minute;
  execution_time = closed_at + day;
  reference_price = of_ℕ 100;
  execution_volume_btc = none;
  required_signal_close_time = closed_at;
  cash = of_ℕ cash_cad;
  btc = of_ℕ holding;
  config = config persistent;
  exposure_increase_blocked = blocked;
  drawdown_disarmed = disarmed;
}

abbrev long : StrategyDecision
long = signal true long_signal (literal 25 2)

abbrev bought : Execution
bought = record {
  cash = literal 7459677419354838709677419354 25;
  btc = literal 2520161290322580645161290323 27;
  decision = record {
    intent_id = 1;
    strategy_decision_id = 7;
    signal_time = some 63763200000000000;
    decision_time = 63763200900000000;
    execution_time = 63763286400000000;
    strategy_reason = long_signal;
    target_weight = literal 2500000000000000000000 22;
    pre_trade_equity = literal 1000000 3;
    current_btc_value = literal 0 3;
    estimated_liquidation_fee_cad = literal 0 3;
    requested_delta_cad = literal 2500000000000000000000000000 25;
    rebalance_band_cad = literal 2000000 5;
    outcome = ExecutionOutcome.buy;
    trade_id = some 2;
    remaining_btc = none;
  };
  trade = some record {
    trade_id = 2;
    intent_id = 1;
    strategy_decision_id = 7;
    decision_time = 63763200900000000;
    execution_time = 63763286400000000;
    side = TradeSide.buy;
    liquidity = taker;
    quantity_btc = literal 2520161290322580645161290323 27;
    reference_price = of_ℕ 100;
    execution_price = of_ℕ 100;
    gross_notional_cad = literal 2520161290322580645161290323 25;
    fee_cad = literal 2016129032258064516129032258 27;
    slippage_cad = literal 0 27;
    pre_trade_equity = literal 1000000 3;
    cash_after = literal 7459677419354838709677419354 25;
    btc_after = literal 2520161290322580645161290323 27;
    execution_volume_btc = none;
    volume_participation_fraction = none;
    volume_cap_applied = false;
  };
}

-- A quarter of the equity is bought.
bought_executed : execute_rebalance ids (request long 1000 0 false false) ≡ ok bought
unfolding check_inputs no_action_outcome size rebalance_band cash_per_btc post_cost_price target_btc
    exposure_capped reserve_capped gated intent_id decide no_trade without_evidence figures
    cap_reduction risk_off_reduction affordable volume_capped to_increment check_holdings
    participation traded_outcome new_cash new_btc trade_record record_trade settle trade_towards
    rebalance_by rebalance execute_rebalance portfolio_snapshot execution_price round_to_increment
    increment_precision check_trade check_decision arithmetic ◌+ℤ◌ ◌-ℤ◌
bought_executed = refl

abbrev sale : Trade
sale = record {
  trade_id = 2;
  intent_id = 1;
  strategy_decision_id = 7;
  decision_time = 63763200900000000;
  execution_time = 63763286400000000;
  side = TradeSide.sell;
  liquidity = taker;
  quantity_btc = of_ℕ 4;
  reference_price = of_ℕ 100;
  execution_price = of_ℕ 100;
  gross_notional_cad = of_ℕ 400;
  fee_cad = literal 3200 3;
  slippage_cad = zero_decimal;
  pre_trade_equity = literal 996800 3;
  cash_after = literal 996800 3;
  btc_after = zero_decimal;
  execution_volume_btc = none;
  volume_participation_fraction = none;
  volume_cap_applied = false;
}

abbrev sold : Execution
sold = record {
  cash = literal 996800 3;
  btc = zero_decimal;
  decision = record {
    intent_id = 1;
    strategy_decision_id = 7;
    signal_time = some 63763200000000000;
    decision_time = 63763200900000000;
    execution_time = 63763286400000000;
    strategy_reason = below_trend;
    target_weight = zero_decimal;
    pre_trade_equity = literal 996800 3;
    current_btc_value = literal 396800 3;
    estimated_liquidation_fee_cad = literal 3200 3;
    requested_delta_cad = record { negative = true; coefficient = 396800; exponent = negsuc 2 };
    rebalance_band_cad = literal 1993600 5;
    outcome = ExecutionOutcome.sell;
    trade_id = some 2;
    remaining_btc = none;
  };
  trade = some sale;
}

-- With increases blocked, a position is still closed.
sold_executed :
    execute_rebalance ids (request (signal true below_trend zero_decimal) 600 4 true false)
    ≡ ok sold
unfolding check_inputs no_action_outcome size rebalance_band cash_per_btc post_cost_price target_btc
    exposure_capped reserve_capped gated intent_id decide no_trade without_evidence figures
    cap_reduction risk_off_reduction affordable volume_capped to_increment check_holdings
    participation traded_outcome new_cash new_btc trade_record record_trade settle trade_towards
    rebalance_by rebalance execute_rebalance portfolio_snapshot execution_price round_to_increment
    increment_precision check_trade check_decision arithmetic ◌+ℤ◌ ◌-ℤ◌
sold_executed = refl

abbrev unusable : Execution
unusable = record {
  cash = of_ℕ 600;
  btc = of_ℕ 4;
  decision = record {
    intent_id = 1;
    strategy_decision_id = 7;
    signal_time = some 63763200000000000;
    decision_time = 63763200900000000;
    execution_time = 63763286400000000;
    strategy_reason = invalid_sequence;
    target_weight = literal 3980738362760834670947030498 28;
    pre_trade_equity = literal 996800 3;
    current_btc_value = literal 396800 3;
    estimated_liquidation_fee_cad = literal 3200 3;
    requested_delta_cad = zero_decimal;
    rebalance_band_cad = literal 1993600 5;
    outcome = no_action_data_invalid;
    trade_id = none;
    remaining_btc = none;
  };
  trade = none;
}

-- Unusable data changes nothing.
unusable_executed :
    execute_rebalance ids (request (signal false invalid_sequence zero_decimal) 600 4 false false)
    ≡ ok unusable
unfolding check_inputs no_action_outcome size rebalance_band cash_per_btc post_cost_price target_btc
    exposure_capped reserve_capped gated intent_id decide no_trade without_evidence figures
    cap_reduction risk_off_reduction affordable volume_capped to_increment check_holdings
    participation traded_outcome new_cash new_btc trade_record record_trade settle trade_towards
    rebalance_by rebalance execute_rebalance portfolio_snapshot execution_price round_to_increment
    increment_precision check_trade check_decision arithmetic ◌+ℤ◌ ◌-ℤ◌
unusable_executed = refl

abbrev shadowed : Execution
shadowed = record {
  cash = of_ℕ 1000;
  btc = of_ℕ 1;
  decision = record {
    intent_id = 1;
    strategy_decision_id = 7;
    signal_time = some 63763200000000000;
    decision_time = 63763200900000000;
    execution_time = 63763286400000000;
    strategy_reason = long_signal;
    target_weight = zero_decimal;
    pre_trade_equity = literal 1099200 3;
    current_btc_value = literal 99200 3;
    estimated_liquidation_fee_cad = literal 800 3;
    requested_delta_cad = zero_decimal;
    rebalance_band_cad = literal 2198400 5;
    outcome = no_action_risk_gate;
    trade_id = none;
    remaining_btc = none;
  };
  trade = none;
}

-- Disarmed, with a block on increases, and a signal for more: nothing is sold.
shadowed_executed : execute_rebalance ids (request long 1000 1 true true) ≡ ok shadowed
unfolding check_inputs no_action_outcome size rebalance_band cash_per_btc post_cost_price target_btc
    exposure_capped reserve_capped gated intent_id decide no_trade without_evidence figures
    cap_reduction risk_off_reduction affordable volume_capped to_increment check_holdings
    participation traded_outcome new_cash new_btc trade_record record_trade settle trade_towards
    rebalance_by rebalance execute_rebalance portfolio_snapshot execution_price round_to_increment
    increment_precision check_trade check_decision arithmetic ◌+ℤ◌ ◌-ℤ◌
shadowed_executed = refl

holding_nonneg : lt (of_ℕ 4) zero_decimal ≡ false
unfolding arithmetic
holding_nonneg = refl

execute_rebalance-Accounts_example :
    (side : TradeSide) × Accounts (request long 1000 0 false false) side bought bought.trade
execute_rebalance-Accounts_example =
    execute_rebalance-Accounts ids (request long 1000 0 false false) bought bought_executed

execute_rebalance_gated_example : sale.side ≡ TradeSide.sell
execute_rebalance_gated_example =
    execute_rebalance_gated ids (request (signal true below_trend zero_decimal) 600 4 true false)
      sold sale holding_nonneg refl sold_executed refl

execute_rebalance_evidence_example :
    (unusable.trade ≡ none)
    × (unusable.cash ≡ of_ℕ 600)
    × (unusable.btc ≡ of_ℕ 4)
    × (unusable.decision.outcome ≡ no_action_data_invalid)
execute_rebalance_evidence_example =
    execute_rebalance_evidence ids
      (request (signal false invalid_sequence zero_decimal) 600 4 false false) unusable refl
      (inl refl) unusable_executed
