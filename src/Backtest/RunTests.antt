-- ===== src/Backtest/RunTests.antt =====
-- A replay of four candles: the first decision that has a history buys at the next open.
use mathlib.Core.Option
use kraken_knight.Base.{
  ℕ, suc, ◌+◌, ◌*◌, ◌≡◌, refl, true, false, none, some, List, [], ◌∷◌, ltb, length, ◌+ℤ◌, ◌-ℤ◌, ok,
}
use kraken_knight.Decimals.{of_ℕ, literal, lt, arithmetic}
use kraken_knight.Domain.{day, Candle, zero_decimal}
use kraken_knight.Strategy.{
  prepend, log_returns, annualize, usable_volatility, measure, classify, assess_history, assess,
  evaluate, insufficient_history, long_signal, StrategyPolicy, Digests, Floats, minimum_history,
}
use kraken_knight.Backtest.Types.{
  persistent, taker, TradeSide, ExecutionOutcome, no_action_data_invalid, BacktestConfig,
  check_trade, check_decision, ContentIds,
}
use kraken_knight.Backtest.Pricing.{
  increment_precision, round_to_increment, execution_price, portfolio_snapshot,
}
use kraken_knight.Backtest.Sizing.{
  check_inputs, rebalance_band, no_action_outcome, cash_per_btc, post_cost_price, target_btc,
  exposure_capped, reserve_capped, gated, size,
}
use kraken_knight.Backtest.Execution.{
  traded_outcome, intent_id, decide, no_trade, without_evidence, figures, cap_reduction,
  risk_off_reduction, affordable, volume_capped, to_increment, check_holdings, participation,
  new_cash, new_btc, trade_record, record_trade, settle, trade_towards, rebalance_by, rebalance,
  execute_rebalance,
}
use kraken_knight.Backtest.Risk.{
  causal_long_signal, rearming, measure_drawdown, rearm, reference_equity_24h, signal_id,
  block_on_loss, rolling_gate, expire_block, disarm, increase_blocked, assess_risk,
}
use kraken_knight.Backtest.References.{validate_backtest_candles}
use kraken_knight.Backtest.Run.{
  Replay, gate_events, liquidation_events, record_execution, request, trade_day, close_day,
  replay_day, known_signal, replay_from, first_replay, run_backtest,
}
use kraken_knight.Backtest.Soundness.{IsSound, run_backtest-IsSound}

abbrev config : BacktestConfig
config = record {
  initial_cash = of_ℕ 1000;
  costs = record {
    maker_fee_rate = literal 4 3;
    taker_fee_rate = literal 8 3;
    slippage_rate = zero_decimal;
    buy_liquidity = taker;
    sell_liquidity = taker;
  };
  instrument_rules = none;
  max_execution_volume_fraction = none;
  cash_reserve_cad = of_ℕ 200;
  absolute_btc_cap_cad = of_ℕ 800;
  max_post_cost_exposure = literal 80 2;
  rebalance_min_cad = of_ℕ 50;
  rebalance_equity_fraction = literal 5 2;
  rolling_24h_loss_threshold = literal 8 2;
  max_drawdown_threshold = literal 20 2;
  drawdown_policy_mode = persistent;
  drawdown_rearm_cooldown_days = 90;
  decision_delay_minutes = 15;
  daily_execution_lag_days = 1;
}

abbrev floats : Floats
floats = record {
  of_decimal = λ d. some d.coefficient;
  log = λ x. some (suc x);
  stdev = λ xs. ok (some (length xs));
  sqrt = λ n. some n;
  times = λ x y. x * y;
  is_finite = λ x. true;
  is_positive = λ x. ltb 0 x;
  to_text_decimal = λ x. of_ℕ x;
}

abbrev digests : Digests
digests = record { fingerprint = λ p. 8; input_data = λ cs. length cs; decision = λ o p i. 7 }

abbrev ids : ContentIds
ids = record {
  intent = λ decision decided executed weight equity delta. 1;
  trade = λ intent side quantity price notional fee volume capped. 2;
}

abbrev policy : StrategyPolicy
policy = record {
  momentum_days = 1;
  trend_days = 2;
  volatility_days = 1;
  annualization_days = 365;
  volatility_target = of_ℕ 100;
  max_weight = literal 25 2;
}

abbrev candle : ℕ → ℕ → Candle
candle n close = record {
  open_time = (738000 + n) * day;
  opening = of_ℕ 100;
  high = of_ℕ 150;
  low = of_ℕ 90;
  close = of_ℕ close;
  volume = of_ℕ 7;
  complete = true;
}

abbrev candles : List Candle
candles = candle 0 100 ∷ candle 1 110 ∷ candle 2 120 ∷ candle 3 130 ∷ []

abbrev replayed : Replay
replayed = record {
  cash = literal 7459677419354838709677419354 25;
  btc = literal 2520161290322580645161290323 27;
  cumulative_fees = literal 2016129032258064516129032258 27;
  risk = record {
    high_water_equity = literal 1070967741935483870967741936 24;
    drawdown_disarmed = false;
    drawdown_disarmed_at = none;
    drawdown_rearm_eligible_at = none;
    last_drawdown_rearmed_at = none;
    risk_epoch = 1;
    rolling_loss_blocked_until = none;
  };
  risk_observations =
      (63763200000000000, (of_ℕ 1000))
      ∷ (63763286400000000, (literal 1000000 3))
      ∷ (63763286400000000, (literal 1000000 3))
      ∷ (63763372800000000, (literal 1000000 3))
      ∷ (63763372800000000, (literal 1000000 3))
      ∷ (63763459200000000, (literal 1000000 3))
      ∷ (63763459200000000, (literal 9959677419354838709677419354 25))
      ∷ (63763545600000000, (literal 1070967741935483870967741936 24))
      ∷ [];
  decisions =
      record {
        intent_id = 1;
        strategy_decision_id = 7;
        signal_time = some 63763286400000000;
        decision_time = 63763287300000000;
        execution_time = 63763372800000000;
        strategy_reason = insufficient_history;
        target_weight = zero_decimal;
        pre_trade_equity = literal 1000000 3;
        current_btc_value = literal 0 3;
        estimated_liquidation_fee_cad = literal 0 3;
        requested_delta_cad = zero_decimal;
        rebalance_band_cad = of_ℕ 50;
        outcome = no_action_data_invalid;
        trade_id = none;
        remaining_btc = none;
      }
      ∷ record {
        intent_id = 1;
        strategy_decision_id = 7;
        signal_time = some 63763372800000000;
        decision_time = 63763373700000000;
        execution_time = 63763459200000000;
        strategy_reason = long_signal;
        target_weight = literal 2500000000000000000000 22;
        pre_trade_equity = literal 1000000 3;
        current_btc_value = literal 0 3;
        estimated_liquidation_fee_cad = literal 0 3;
        requested_delta_cad = literal 2500000000000000000000000000 25;
        rebalance_band_cad = of_ℕ 50;
        outcome = ExecutionOutcome.buy;
        trade_id = some 2;
        remaining_btc = none;
      }
      ∷ [];
  trades =
      record {
        trade_id = 2;
        intent_id = 1;
        strategy_decision_id = 7;
        decision_time = 63763373700000000;
        execution_time = 63763459200000000;
        side = TradeSide.buy;
        liquidity = taker;
        quantity_btc = literal 2520161290322580645161290323 27;
        reference_price = of_ℕ 100;
        execution_price = of_ℕ 100;
        gross_notional_cad = literal 2520161290322580645161290323 25;
        fee_cad = literal 2016129032258064516129032258 27;
        slippage_cad = literal 0 27;
        pre_trade_equity = literal 1000000 3;
        cash_after = literal 7459677419354838709677419354 25;
        btc_after = literal 2520161290322580645161290323 27;
        execution_volume_btc = none;
        volume_participation_fraction = none;
        volume_cap_applied = false;
      }
      ∷ [];
  risk_events = [];
}

replay_returns : run_backtest floats digests ids policy config candles ≡ ok replayed
unfolding run_backtest first_replay replay_from known_signal replay_day close_day trade_day request
    record_execution liquidation_events gate_events validate_backtest_candles evaluate assess
    assess_history minimum_history measure classify log_returns prepend usable_volatility annualize
    assess_risk causal_long_signal rearming measure_drawdown rearm reference_equity_24h signal_id
    block_on_loss rolling_gate expire_block disarm increase_blocked check_inputs no_action_outcome
    size rebalance_band cash_per_btc post_cost_price target_btc exposure_capped reserve_capped gated
    intent_id decide no_trade without_evidence figures cap_reduction risk_off_reduction affordable
    volume_capped to_increment check_holdings participation traded_outcome new_cash new_btc
    trade_record record_trade settle trade_towards rebalance_by rebalance execute_rebalance
    portfolio_snapshot execution_price round_to_increment increment_precision check_trade
    check_decision arithmetic ◌+ℤ◌ ◌-ℤ◌ Option.bind
replay_returns = refl

funded : lt config.initial_cash zero_decimal ≡ false
unfolding arithmetic
funded = refl

run_backtest-IsSound_example : IsSound config replayed
run_backtest-IsSound_example =
    run_backtest-IsSound floats digests ids policy config candles replayed funded replay_returns
