-- ===== src/Backtest/Types.antt =====
-- The records of src/kraken_knight/backtest.py and src/kraken_knight/risk.py, with the checks of
-- their constructors. Monetary values are decimals, times are instants, and the content
-- identifiers are functions of exactly the fields that the program hashes.
use kraken_knight.Base.{
  ℕ, ◌*◌, String, Bool, false, ◌&&◌, ◌||◌, not, Option, none, some, ltb, leb, ◌==◌, is_none,
  value_error, Result, ok, ◌>>=◌, ◌>>◌, raise_if,
}
use kraken_knight.Decimals.{Decimal, of_ℕ, lt, le}
use kraken_knight.Domain.{Number, Instant, to_decimal, zero_decimal}
use kraken_knight.Strategy.{Digest, DecisionReason}

pub data DrawdownPolicyMode : Type 0 where
  persistent disabled cooldown_rearm : DrawdownPolicyMode

pub data Liquidity : Type 0 where
  maker taker : Liquidity

pub data TradeSide : Type 0 where
  buy sell : TradeSide

pub data ExecutionOutcome : Type 0 where
  buy sell within_band zero_quantity below_exchange_minimum : ExecutionOutcome
  no_action_data_invalid no_action_stale_signal no_action_risk_gate : ExecutionOutcome
  no_action_disarmed no_fill_reference_unavailable forced_liquidation : ExecutionOutcome
  forced_liquidation_partial forced_liquidation_partial_volume_capped : ExecutionOutcome

pub data RiskEventType : Type 0 where
  rolling_24h_loss_gate exposure_increase_blocked drawdown_disarmed : RiskEventType
  drawdown_rearmed forced_liquidation : RiskEventType

pub record ExecutionCosts : Type 0 where
  pub maker_fee_rate : Decimal
  pub taker_fee_rate : Decimal
  pub slippage_rate : Decimal
  pub buy_liquidity : Liquidity
  pub sell_liquidity : Liquidity

-- one pass of the loop in `ExecutionCosts.__post_init__`
unfoldable pub checked_rate : Number → String → Result Decimal
checked_rate n name = do
  value ← to_decimal n name
  raise_if (lt value zero_decimal || le (of_ℕ 1) value) (value_error "rate must be in [0, 1)")
  ok value

unfoldable pub make_costs : Number → Number → Number → Liquidity → Liquidity → Result ExecutionCosts
make_costs maker_fee taker_fee slippage buying selling = do
  m ← checked_rate maker_fee "maker_fee_rate"
  t ← checked_rate taker_fee "taker_fee_rate"
  s ← checked_rate slippage "slippage_rate"
  ok (record {
    maker_fee_rate = m;
    taker_fee_rate = t;
    slippage_rate = s;
    buy_liquidity = buying;
    sell_liquidity = selling;
  })

abbrev pub liquidity_for : ExecutionCosts → TradeSide → Liquidity
liquidity_for costs TradeSide.buy = costs.buy_liquidity
liquidity_for costs TradeSide.sell = costs.sell_liquidity

abbrev pub fee_rate_for : ExecutionCosts → TradeSide → Decimal
fee_rate_for costs side = elim (liquidity_for costs side) [
  | maker ↦ costs.maker_fee_rate
  | taker ↦ costs.taker_fee_rate
]

pub record InstrumentRules : Type 0 where
  pub price_tick_cad : Decimal
  pub quantity_increment_btc : Decimal
  pub minimum_quantity_btc : Decimal
  pub minimum_cost_cad : Decimal

unfoldable pub checked_rule : Number → String → Result Decimal
checked_rule n name = do
  value ← to_decimal n name
  raise_if (le value zero_decimal) (value_error "must be greater than zero")
  ok value

-- `InstrumentRules.__post_init__`
unfoldable pub make_rules : Number → Number → Number → Number → Result InstrumentRules
make_rules tick increment minimum cost = do
  t ← checked_rule tick "price_tick_cad"
  i ← checked_rule increment "quantity_increment_btc"
  m ← checked_rule minimum "minimum_quantity_btc"
  c ← checked_rule cost "minimum_cost_cad"
  raise_if (lt m i) (value_error "minimum_quantity_btc cannot be smaller than its increment")
  ok (record {
    price_tick_cad = t;
    quantity_increment_btc = i;
    minimum_quantity_btc = m;
    minimum_cost_cad = c;
  })

pub record BacktestConfig : Type 0 where
  pub initial_cash : Decimal
  pub costs : ExecutionCosts
  pub instrument_rules : Option InstrumentRules
  pub max_execution_volume_fraction : Option Decimal
  pub cash_reserve_cad : Decimal
  pub absolute_btc_cap_cad : Decimal
  pub max_post_cost_exposure : Decimal
  pub rebalance_min_cad : Decimal
  pub rebalance_equity_fraction : Decimal
  pub rolling_24h_loss_threshold : Decimal
  pub max_drawdown_threshold : Decimal
  pub drawdown_policy_mode : DrawdownPolicyMode
  pub drawdown_rearm_cooldown_days : ℕ
  pub decision_delay_minutes : ℕ
  pub daily_execution_lag_days : ℕ

-- `value is not None and (value <= 0 or value > 1)`
abbrev outside_unit : Option Decimal → Bool
outside_unit none = false
outside_unit (some v) = le v zero_decimal || lt (of_ℕ 1) v

-- `BacktestConfig.__post_init__`, after the conversions to decimals; the message names the field.
unfoldable pub check_config : BacktestConfig → Result BacktestConfig
check_config c = do
  raise_if (le c.initial_cash zero_decimal) (value_error "initial_cash must be greater than zero")
  raise_if (lt c.cash_reserve_cad zero_decimal) (value_error "cash_reserve_cad cannot be negative")
  raise_if (lt c.absolute_btc_cap_cad zero_decimal)
      (value_error "absolute_btc_cap_cad cannot be negative")
  raise_if (lt c.max_post_cost_exposure zero_decimal || lt (of_ℕ 1) c.max_post_cost_exposure)
      (value_error "max_post_cost_exposure must be in [0, 1]")
  raise_if (lt c.rebalance_min_cad zero_decimal)
      (value_error "rebalance_min_cad cannot be negative")
  raise_if (lt c.rebalance_equity_fraction zero_decimal || lt (of_ℕ 1) c.rebalance_equity_fraction)
      (value_error "rebalance_equity_fraction must be in [0, 1]")
  raise_if
      (le c.rolling_24h_loss_threshold zero_decimal || le (of_ℕ 1) c.rolling_24h_loss_threshold)
      (value_error "rolling_24h_loss_threshold must be in (0, 1)")
  raise_if (le c.max_drawdown_threshold zero_decimal || le (of_ℕ 1) c.max_drawdown_threshold)
      (value_error "max_drawdown_threshold must be in (0, 1)")
  raise_if (not (c.drawdown_rearm_cooldown_days == 90))
      (value_error "drawdown_rearm_cooldown_days must be exactly 90")
  raise_if (c.decision_delay_minutes == 0)
      (value_error "decision_delay_minutes must be a positive integer")
  raise_if (c.daily_execution_lag_days == 0)
      (value_error "daily_execution_lag_days must be a positive integer")
  raise_if (leb (c.daily_execution_lag_days * 24 * 60) c.decision_delay_minutes)
      (value_error "decision delay must precede the scheduled execution open")
  raise_if (outside_unit c.max_execution_volume_fraction)
      (value_error "max_execution_volume_fraction must be in (0, 1]")
  ok c

pub record Trade : Type 0 where
  pub trade_id : Digest
  pub intent_id : Digest
  pub strategy_decision_id : Digest
  pub decision_time : Instant
  pub execution_time : Instant
  pub side : TradeSide
  pub liquidity : Liquidity
  pub quantity_btc : Decimal
  pub reference_price : Decimal
  pub execution_price : Decimal
  pub gross_notional_cad : Decimal
  pub fee_cad : Decimal
  pub slippage_cad : Decimal
  pub pre_trade_equity : Decimal
  pub cash_after : Decimal
  pub btc_after : Decimal
  pub execution_volume_btc : Option Decimal
  pub volume_participation_fraction : Option Decimal
  pub volume_cap_applied : Bool

-- `volume is not None and volume <= 0`
abbrev not_positive : Option Decimal → Bool
not_positive none = false
not_positive (some v) = le v zero_decimal

-- `Trade.__post_init__`
unfoldable pub check_trade : Trade → Result Trade
check_trade t = do
  raise_if (ltb t.execution_time t.decision_time)
      (value_error "execution_time cannot precede decision_time")
  raise_if (t.volume_cap_applied && is_none t.execution_volume_btc)
      (value_error "a volume cap cannot be applied without execution volume")
  raise_if (not_positive t.execution_volume_btc)
      (value_error "execution_volume_btc must be positive when supplied")
  raise_if (not (is_none t.execution_volume_btc) && is_none t.volume_participation_fraction)
      (value_error "volume participation is required with execution volume")
  raise_if (outside_unit t.volume_participation_fraction)
      (value_error "volume_participation_fraction must be in (0, 1]")
  ok t

pub record RebalanceDecision : Type 0 where
  pub intent_id : Digest
  pub strategy_decision_id : Digest
  pub signal_time : Option Instant
  pub decision_time : Instant
  pub execution_time : Instant
  pub strategy_reason : DecisionReason
  pub target_weight : Decimal
  pub pre_trade_equity : Decimal
  pub current_btc_value : Decimal
  pub estimated_liquidation_fee_cad : Decimal
  pub requested_delta_cad : Decimal
  pub rebalance_band_cad : Decimal
  pub outcome : ExecutionOutcome
  pub trade_id : Option Digest
  pub remaining_btc : Option Decimal

-- `RebalanceDecision.__post_init__`
unfoldable pub check_decision : RebalanceDecision → Result RebalanceDecision
check_decision d = do
  raise_if (ltb d.execution_time d.decision_time)
      (value_error "execution_time cannot precede decision_time")
  raise_if (elim d.remaining_btc [ none ↦ false | some b ↦ lt b zero_decimal ])
      (value_error "remaining_btc cannot be negative")
  ok d

-- `_intent_id`, and the identifier of a trade
pub record ContentIds : Type 0 where
  pub intent : Digest → Instant → Instant → Decimal → Decimal → Decimal → Digest
  pub trade :
      Digest → TradeSide → Decimal → Decimal → Decimal → Decimal → Option Decimal → Bool → Digest
