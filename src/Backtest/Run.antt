-- ===== src/Backtest/Run.antt =====
-- The loop of `run_backtest` on its daily path, without execution references: the risk assessment,
-- the rebalance and the closing valuation of each candle. The equity curve and the benchmark, which
-- nothing in the loop reads, are not part of the state.
use kraken_knight.Base.{
  ℕ, suc, ◌+◌, ◌-◌, ◌*◌, false, Option, none, some, List, [], ◌∷◌, ◌++◌, ltb, ◌==◌, if◌then◌else◌,
  drop, take, runtime_error, Result, ok, err, ◌>>=◌, ◌>>◌,
}
use kraken_knight.Decimals.{Decimal, max, ◌⊕◌}
use kraken_knight.Domain.{Instant, minute, day, Candle, zero_decimal, close_time}
use kraken_knight.Strategy.{evaluate, StrategyPolicy, Digest, StrategyDecision, Digests, Floats}
use kraken_knight.Backtest.Types.{
  ExecutionOutcome, no_action_risk_gate, RiskEventType, BacktestConfig, Trade, RebalanceDecision,
  ContentIds,
}
use kraken_knight.Backtest.Pricing.{portfolio_snapshot}
use kraken_knight.Backtest.Sizing.{Rebalance}
use kraken_knight.Backtest.Execution.{Execution, execute_rebalance}
use kraken_knight.Backtest.Risk.{
  RiskState, RiskAction, hold_current_exposure, completed_forced_liquidation,
  attempted_volume_capped_forced_liquidation, attempted_partial_forced_liquidation, RiskEvent,
  Observation, Assessment, increase_blocked, assess_risk,
}
use kraken_knight.Backtest.References.{validate_backtest_candles}

pub record Replay : Type 0 where
  pub cash : Decimal
  pub btc : Decimal
  pub cumulative_fees : Decimal
  pub risk : RiskState
  pub risk_observations : List (Instant × Decimal)
  pub decisions : List RebalanceDecision
  pub trades : List Trade
  pub risk_events : List RiskEvent

-- `reference_24h or equity`: a zero is false too
abbrev reference_or : Option Decimal → Decimal → Decimal
reference_or none equity = equity
reference_or (some d) equity = if d.coefficient == 0 then equity else d

-- the event of a decision that the block stopped
unfoldable pub gate_events :
    BacktestConfig → Observation → Assessment → Decimal → RebalanceDecision → List RiskEvent
gate_events config o a equity d = elim d.outcome [
  | no_action_risk_gate ↦
      record {
        event_type = RiskEventType.exposure_increase_blocked;
        observed_at = o.observation_time;
        strategy_decision_id = some d.strategy_decision_id;
        equity = equity;
        reference_equity = reference_or a.reference_24h equity;
        observed_fraction = a.rolling_loss;
        threshold = config.rolling_24h_loss_threshold;
        action = hold_current_exposure;
        risk_epoch = a.risk.risk_epoch;
      }
      ∷ []
  | _ ↦ []
]

-- `liquidation_action`, for the three outcomes of a forced liquidation
abbrev liquidation_action : ExecutionOutcome → Decimal → Option RiskAction
liquidation_action ExecutionOutcome.forced_liquidation left =
    some (completed_forced_liquidation left)
liquidation_action ExecutionOutcome.forced_liquidation_partial_volume_capped left =
    some (attempted_volume_capped_forced_liquidation left)
liquidation_action ExecutionOutcome.forced_liquidation_partial left =
    some (attempted_partial_forced_liquidation left)
liquidation_action outcome left = none

unfoldable pub liquidation_events :
    BacktestConfig → Observation → Assessment → Decimal → RebalanceDecision → Trade → List RiskEvent
liquidation_events config o a equity d t = elim (liquidation_action d.outcome t.btc_after) [
  | none ↦ []
  | some action ↦
      record {
        event_type = RiskEventType.forced_liquidation;
        observed_at = o.observation_time;
        strategy_decision_id = some d.strategy_decision_id;
        equity = equity;
        reference_equity = a.risk.high_water_equity;
        observed_fraction = a.drawdown;
        threshold = config.max_drawdown_threshold;
        action = action;
        risk_epoch = a.risk.risk_epoch;
      }
      ∷ []
]

-- What the loop does with what `_execute_rebalance` returned.
unfoldable pub record_execution :
    BacktestConfig → Observation → Assessment → Decimal → Replay → Execution → Replay
record_execution config o a equity st e =
    let events = st.risk_events ++ gate_events config o a equity e.decision in
    elim e.trade [
      | none ↦ record st {
        cash = e.cash;
        btc = e.btc;
        decisions = st.decisions ++ e.decision ∷ [];
        risk_events = events;
      }
      | some t ↦ record st {
        cash = e.cash;
        btc = e.btc;
        decisions = st.decisions ++ e.decision ∷ [];
        trades = st.trades ++ t ∷ [];
        cumulative_fees = st.cumulative_fees ⊕ t.fee_cad;
        risk_events = events ++ liquidation_events config o a equity e.decision t;
      }
    ]

-- the arguments of the call
unfoldable pub request :
    BacktestConfig
    → Observation
    → Assessment
    → Decimal
    → Replay
    → StrategyDecision
    → Instant
    → Rebalance
request config o a price st signal decision_time = record {
  signal = signal;
  decision_time = decision_time;
  execution_time = o.observation_time;
  reference_price = price;
  execution_volume_btc = none;
  required_signal_close_time = o.required_signal_close_time;
  cash = st.cash;
  btc = st.btc;
  config = config;
  exposure_increase_blocked = increase_blocked o.observation_time a.risk;
  drawdown_disarmed = a.risk.drawdown_disarmed;
}

-- The rebalance, where there is a signal.
unfoldable pub trade_day :
    ContentIds
    → BacktestConfig
    → Observation
    → Assessment
    → Decimal
    → Decimal
    → Replay
    → Option (StrategyDecision × Instant)
    → Result Replay
trade_day ids config o a price equity st none = ok st
trade_day ids config o a price equity st (some (signal, decision_time)) = do
  e ← execute_rebalance ids (request config o a price st signal decision_time)
  ok (record_execution config o a equity st e)

-- The valuation after the trade and at the close.
unfoldable pub close_day : BacktestConfig → Observation → Decimal → Candle → Replay → Result Replay
close_day config o price candle st = do
  post ← portfolio_snapshot st.cash st.btc price config.costs config.instrument_rules
  closing ← portfolio_snapshot st.cash st.btc candle.close config.costs config.instrument_rules
  ok (record st {
    risk = record (st.risk) { high_water_equity = max st.risk.high_water_equity closing.equity };
    risk_observations =
        st.risk_observations
        ++ (o.observation_time, post.equity) ∷ (close_time candle, closing.equity) ∷ [];
  })

-- One pass of the loop, from the signal that is known at the open of the candle.
unfoldable pub replay_day :
    ContentIds
    → BacktestConfig
    → Digest
    → Replay
    → Candle
    → Option (StrategyDecision × Instant)
    → Result Replay
replay_day ids config policy_hash st candle known = do
  let o : Observation = record {
    signal = elim known [ none ↦ none | some (s, t) ↦ some s ];
    decision_time = elim known [ none ↦ none | some (s, t) ↦ some t ];
    observation_time = candle.open_time;
    required_signal_close_time = candle.open_time - config.daily_execution_lag_days * day;
    policy_hash = policy_hash;
  }
  snapshot ← portfolio_snapshot st.cash st.btc candle.opening config.costs config.instrument_rules
  a ← assess_risk config o st.cash st.btc snapshot.equity st.risk_observations st.risk
  traded ←
      trade_day ids config o a candle.opening snapshot.equity
        (record st { risk = a.risk; risk_events = st.risk_events ++ a.events }) known
  close_day config o candle.opening candle traded

-- The signal at an execution index: candle `index - 1` closes only at the open, so it is not seen.
unfoldable pub known_signal :
    Floats
    → Digests
    → StrategyPolicy
    → BacktestConfig
    → List Candle
    → ℕ
    → Result (Option (StrategyDecision × Instant))
known_signal floats digests policy config candles index = if ltb index 2 then ok none else do
  s ← evaluate floats digests policy (take (index - 1) candles)
  closed ← elim s.signal_close_time [
    | none ↦ err (runtime_error "a daily strategy decision must identify its signal close")
    | some t ↦ ok t
  ]
  ok (some (s, closed + config.decision_delay_minutes * minute))

module _ (floats : Floats) (digests : Digests) (ids : ContentIds) (policy : StrategyPolicy)
    (config : BacktestConfig) (candles : List Candle) where
  -- the loop, over the candles from an index on
  unfoldable pub replay_from : ℕ → List Candle → Replay → Result Replay
  replay_from index [] st = ok st
  replay_from index (candle ∷ rest) st = do
    known ← known_signal floats digests policy config candles index
    next ← replay_day ids config (digests.fingerprint policy) st candle known
    replay_from (suc index) rest next

  -- The variables before the loop.
  unfoldable pub first_replay : Candle → Result Replay
  first_replay c = do
    snapshot ←
        portfolio_snapshot config.initial_cash zero_decimal c.close config.costs
          config.instrument_rules
    ok (record {
      cash = config.initial_cash;
      btc = zero_decimal;
      cumulative_fees = zero_decimal;
      risk = record {
        high_water_equity = snapshot.equity;
        drawdown_disarmed = false;
        drawdown_disarmed_at = none;
        drawdown_rearm_eligible_at = none;
        last_drawdown_rearmed_at = none;
        risk_epoch = 1;
        rolling_loss_blocked_until = none;
      };
      risk_observations = (c.open_time, config.initial_cash) ∷ (close_time c, snapshot.equity) ∷ [];
      decisions = [];
      trades = [];
      risk_events = [];
    })

  -- `run_backtest`, on the daily path
  unfoldable pub run_backtest : Result Replay
  run_backtest = do
    validate_backtest_candles candles
    c ← elim candles [ [] ↦ err (runtime_error "list index out of range") | c ∷ cs ↦ ok c ]
    st ← first_replay c
    replay_from 1 (drop 1 candles) st
