-- ===== src/Backtest/RiskTests.antt =====
-- The risk state at concrete candles: a latch set by a drawdown, one cleared after ninety days, a
-- mode without the latch, and a loss that blocks increases.
use kraken_knight.Base.{
  ◌+◌, ◌-◌, ◌*◌, ◌≤◌, ◌≡◌, refl, true, false, ◌||◌, none, some, List, [], ◌∷◌, arith, ◌+ℤ◌, ◌-ℤ◌,
  ok,
}
use kraken_knight.Decimals.{Decimal, of_ℕ, literal, lt, le, eq, max, ◌⊖◌, ◌⊘◌, arithmetic}
use kraken_knight.Domain.{Instant, minute, day, zero_decimal}
use kraken_knight.Strategy.{PositionState, long_signal, StrategyDecision}
use kraken_knight.Backtest.Types.{
  DrawdownPolicyMode, disabled, cooldown_rearm, taker, rolling_24h_loss_gate, drawdown_disarmed,
  drawdown_rearmed, BacktestConfig,
}
use kraken_knight.Backtest.Risk.{
  RiskState, rearm_after_cooldown, block_exposure_increases_for_24h, cooldown_disarm, Observation,
  is_mode_cooldown, causal_long_signal, rearming, Assessment, measure_drawdown, rearm,
  reference_equity_24h, signal_id, block_on_loss, rolling_gate, expire_block, disarm,
  increase_blocked, assess_risk,
}
use kraken_knight.Backtest.Latch.{armed, cooling, latch_of, IsCoherent}
use kraken_knight.Backtest.Rearm.{assess_risk-IsCoherent, assess_risk_disabled, assess_risk_rearmed}
use kraken_knight.Backtest.Rolling.{assess_risk_blocked}

abbrev config : DrawdownPolicyMode → BacktestConfig
config mode = record {
  initial_cash = of_ℕ 1000;
  costs = record {
    maker_fee_rate = literal 4 3;
    taker_fee_rate = literal 8 3;
    slippage_rate = zero_decimal;
    buy_liquidity = taker;
    sell_liquidity = taker;
  };
  instrument_rules = none;
  max_execution_volume_fraction = none;
  cash_reserve_cad = of_ℕ 50;
  absolute_btc_cap_cad = of_ℕ 500;
  max_post_cost_exposure = literal 5 1;
  rebalance_min_cad = of_ℕ 10;
  rebalance_equity_fraction = literal 2 2;
  rolling_24h_loss_threshold = literal 5 2;
  max_drawdown_threshold = literal 15 2;
  drawdown_policy_mode = mode;
  drawdown_rearm_cooldown_days = 90;
  decision_delay_minutes = 15;
  daily_execution_lag_days = 1;
}

abbrev closed_at : Instant
closed_at = 738000 * day

abbrev long : StrategyDecision
long = record {
  decision_id = 7;
  outcome = record {
    signal_open_time = some (closed_at - day);
    signal_close_time = some closed_at;
    state = PositionState.btc;
    target_weight = literal 25 2;
    reason = long_signal;
    usable_data = true;
    close = some (of_ℕ 100);
    momentum = none;
    sma = none;
    annualized_volatility = none;
  };
  policy_hash = 8;
  input_data_hash = 9;
}

abbrev observation : Observation
observation = record {
  signal = some long;
  decision_time = some (closed_at + 15 * minute);
  observation_time = closed_at + day;
  required_signal_close_time = closed_at;
  policy_hash = 8;
}

abbrev armed_risk : RiskState
armed_risk = record {
  high_water_equity = of_ℕ 1000;
  drawdown_disarmed = false;
  drawdown_disarmed_at = none;
  drawdown_rearm_eligible_at = none;
  last_drawdown_rearmed_at = none;
  risk_epoch = 1;
  rolling_loss_blocked_until = none;
}

-- disarmed ninety days before the close of the signal
abbrev disarmed_risk : RiskState
disarmed_risk = record armed_risk {
  drawdown_disarmed = true;
  drawdown_disarmed_at = some (closed_at - 90 * day);
  drawdown_rearm_eligible_at = some closed_at;
}

abbrev observations : List (Instant × Decimal)
observations = (closed_at - day, of_ℕ 990) ∷ (closed_at, of_ℕ 960) ∷ []

abbrev disarmed_now : Assessment
disarmed_now = record {
  risk = record {
    high_water_equity = of_ℕ 1000;
    drawdown_disarmed = true;
    drawdown_disarmed_at = some 63763286400000000;
    drawdown_rearm_eligible_at = some 63771062400000000;
    last_drawdown_rearmed_at = none;
    risk_epoch = 1;
    rolling_loss_blocked_until = some 63763372800000000;
  };
  drawdown = literal 2 1;
  rolling_loss = literal 1666666666666666666666666667 28;
  reference_24h = some (of_ℕ 960);
  events =
      record {
        event_type = rolling_24h_loss_gate;
        observed_at = 63763286400000000;
        strategy_decision_id = some 7;
        equity = of_ℕ 800;
        reference_equity = of_ℕ 960;
        observed_fraction = literal 1666666666666666666666666667 28;
        threshold = literal 5 2;
        action = block_exposure_increases_for_24h;
        risk_epoch = 1;
      }
      ∷ record {
        event_type = drawdown_disarmed;
        observed_at = 63763286400000000;
        strategy_decision_id = some 7;
        equity = of_ℕ 800;
        reference_equity = of_ℕ 1000;
        observed_fraction = literal 2 1;
        threshold = literal 15 2;
        action = cooldown_disarm 63771062400000000 1;
        risk_epoch = 1;
      }
      ∷ [];
}

disarmed_now_assessed :
    assess_risk
      (config cooldown_rearm)
      observation
      (of_ℕ 500)
      (of_ℕ 3)
      (of_ℕ 800)
      observations
      armed_risk
    ≡ ok disarmed_now
unfolding assess_risk causal_long_signal rearming measure_drawdown rearm reference_equity_24h
    signal_id block_on_loss rolling_gate expire_block disarm increase_blocked arithmetic ◌+ℤ◌ ◌-ℤ◌
disarmed_now_assessed = refl

abbrev still_armed : Assessment
still_armed = record {
  risk = record {
    high_water_equity = of_ℕ 1000;
    drawdown_disarmed = false;
    drawdown_disarmed_at = none;
    drawdown_rearm_eligible_at = none;
    last_drawdown_rearmed_at = none;
    risk_epoch = 1;
    rolling_loss_blocked_until = some 63763372800000000;
  };
  drawdown = literal 2 1;
  rolling_loss = literal 1666666666666666666666666667 28;
  reference_24h = some (of_ℕ 960);
  events =
      record {
        event_type = rolling_24h_loss_gate;
        observed_at = 63763286400000000;
        strategy_decision_id = some 7;
        equity = of_ℕ 800;
        reference_equity = of_ℕ 960;
        observed_fraction = literal 1666666666666666666666666667 28;
        threshold = literal 5 2;
        action = block_exposure_increases_for_24h;
        risk_epoch = 1;
      }
      ∷ [];
}

still_armed_assessed :
    assess_risk (config disabled) observation (of_ℕ 500) (of_ℕ 3) (of_ℕ 800) observations armed_risk
    ≡ ok still_armed
unfolding assess_risk causal_long_signal rearming measure_drawdown rearm reference_equity_24h
    signal_id block_on_loss rolling_gate expire_block disarm increase_blocked arithmetic ◌+ℤ◌ ◌-ℤ◌
still_armed_assessed = refl

abbrev rearmed_now : Assessment
rearmed_now = record {
  risk = record {
    high_water_equity = of_ℕ 800;
    drawdown_disarmed = false;
    drawdown_disarmed_at = none;
    drawdown_rearm_eligible_at = none;
    last_drawdown_rearmed_at = some 63763200900000000;
    risk_epoch = 2;
    rolling_loss_blocked_until = none;
  };
  drawdown = zero_decimal;
  rolling_loss = zero_decimal;
  reference_24h = none;
  events =
      record {
        event_type = drawdown_rearmed;
        observed_at = 63763200900000000;
        strategy_decision_id = some 7;
        equity = of_ℕ 800;
        reference_equity = of_ℕ 1000;
        observed_fraction = literal 2 1;
        threshold = literal 15 2;
        action = rearm_after_cooldown 2 (of_ℕ 800);
        risk_epoch = 2;
      }
      ∷ [];
}

rearmed_now_assessed :
    assess_risk
      (config cooldown_rearm)
      observation
      (of_ℕ 800)
      zero_decimal
      (of_ℕ 800)
      []
      disarmed_risk
    ≡ ok rearmed_now
unfolding assess_risk causal_long_signal rearming measure_drawdown rearm reference_equity_24h
    signal_id block_on_loss rolling_gate expire_block disarm increase_blocked arithmetic ◌+ℤ◌ ◌-ℤ◌
rearmed_now_assessed = refl

cooldown : is_mode_cooldown (config cooldown_rearm).drawdown_policy_mode ≡ true
cooldown = refl

disarmed-IsCoherent : IsCoherent (config cooldown_rearm) (latch_of disarmed_risk)
disarmed-IsCoherent = cooling cooldown (closed_at - 90 * day)

reference_positive : lt zero_decimal (of_ℕ 960) ≡ true
unfolding arithmetic
reference_positive = refl

assess_risk-IsCoherent_example : IsCoherent (config cooldown_rearm) (latch_of disarmed_now.risk)
assess_risk-IsCoherent_example =
    assess_risk-IsCoherent (config cooldown_rearm) observation (of_ℕ 500) (of_ℕ 3) (of_ℕ 800)
      observations armed_risk disarmed_now armed disarmed_now_assessed

assess_risk_disabled_example : still_armed.risk.drawdown_disarmed ≡ false
assess_risk_disabled_example =
    assess_risk_disabled (config disabled) observation (of_ℕ 500) (of_ℕ 3) (of_ℕ 800) observations
      armed_risk still_armed refl refl still_armed_assessed

assess_risk_rearmed_example :
    (s : StrategyDecision) × (t since : Instant) × (observation.signal ≡ some s)
    × (observation.decision_time ≡ some t)
    × (is_mode_cooldown (config cooldown_rearm).drawdown_policy_mode ≡ true)
    × (eq zero_decimal zero_decimal ≡ true)
    × (causal_long_signal observation s ≡ true)
    × (disarmed_risk.drawdown_disarmed_at ≡ some since)
    × (since + 90 * day ≤ t)
assess_risk_rearmed_example =
    assess_risk_rearmed (config cooldown_rearm) observation (of_ℕ 800) zero_decimal (of_ℕ 800) []
      disarmed_risk rearmed_now disarmed-IsCoherent refl rearmed_now_assessed refl

assess_risk_blocked_example :
    (fraction : Decimal) × (of_ℕ 800 ⊘ of_ℕ 960 ≡ ok fraction)
    × (disarmed_now.rolling_loss ≡ max zero_decimal (of_ℕ 1 ⊖ fraction))
    × (increase_blocked observation.observation_time disarmed_now.risk ≡ (
        le (literal 5 2) (max zero_decimal (of_ℕ 1 ⊖ fraction))
        || increase_blocked observation.observation_time armed_risk))
assess_risk_blocked_example =
    assess_risk_blocked (config cooldown_rearm) observation (of_ℕ 500) (of_ℕ 3) (of_ℕ 800)
      (of_ℕ 960) closed_at ((closed_at - day, of_ℕ 990) ∷ []) [] armed_risk disarmed_now
      (omega arith) tt reference_positive disarmed_now_assessed
