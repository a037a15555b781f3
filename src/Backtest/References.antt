-- ===== src/Backtest/References.antt =====
-- What surrounds the loop of `run_backtest`: the test of the candles, the references of the precise
-- path with their index by decision time, the first index, and the decision without a reference.
use kraken_knight.Base.{
  ℕ, suc, ◌+◌, ◌*◌, ◌%◌, Bool, not, Option, none, some, List, [], ◌∷◌, map, ltb, leb, ◌==◌,
  if◌then◌else◌, any, any_pair, ℤ, pos, value_error, runtime_error, Result, ok, err, ◌>>=◌, ◌>>◌,
  raise_if,
}
use kraken_knight.Decimals.{Decimal, le, ◌⊘◌}
use kraken_knight.Domain.{
  Number, to_decimal, Instant, minute, Datetime, Candle, require_utc, zero_decimal, close_time,
}
use kraken_knight.Strategy.{StrategyDecision}
use kraken_knight.Backtest.Types.{
  no_fill_reference_unavailable, BacktestConfig, RebalanceDecision, check_decision, ContentIds,
}
use kraken_knight.Backtest.Pricing.{portfolio_snapshot}
use kraken_knight.Backtest.Sizing.{rebalance_band}

abbrev still_open : Candle → Bool
still_open c = not c.complete

abbrev not_later : Candle → Candle → Bool
not_later left right = leb right.open_time left.open_time

-- `_validate_backtest_candles`
unfoldable pub validate_backtest_candles : List Candle → Result (Unit {0})
validate_backtest_candles [] = err (value_error "at least one candle is required")
validate_backtest_candles (c ∷ cs) = do
  raise_if (any still_open (c ∷ cs)) (value_error "backtests cannot use incomplete candles")
  raise_if (any_pair not_later (c ∷ cs))
      (value_error "candle timestamps must be strictly increasing")

pub record ExecutionReference : Type 0 where
  pub decision_time : Instant
  pub execution_time : Instant
  pub reference_price : Decimal
  pub volume_btc : Decimal
  pub trade_count : ℕ

-- `PRECISE_EXECUTION_WINDOW`
abbrev pub precise_execution_window : ℕ
precise_execution_window = 5 * minute

-- one pass of the loop over the two times
unfoldable pub checked_time : Datetime → Result Instant
checked_time t = do
  i ← require_utc t (value_error "must be timezone-aware UTC")
  raise_if (not (i % minute == 0)) (value_error "must be aligned to a UTC minute")
  ok i

-- `value <= 0` of an int
abbrev pub positive_count : ℤ → Result ℕ
positive_count (pos (suc n)) = ok (suc n)
positive_count z = err (value_error "trade_count must be a positive integer")

-- `ExecutionReference.__post_init__`
unfoldable pub make_reference :
    Datetime → Datetime → Number → Number → ℤ → Result ExecutionReference
make_reference decided executed price volume count = do
  d ← checked_time decided
  e ← checked_time executed
  raise_if (ltb e d) (value_error "execution_time cannot precede decision_time")
  raise_if (ltb (d + precise_execution_window) e)
      (value_error "execution_time must be no later than the five-minute window end")
  p ← to_decimal price "reference_price"
  v ← to_decimal volume "volume_btc"
  raise_if (le p zero_decimal) (value_error "reference_price must be greater than zero")
  raise_if (le v zero_decimal) (value_error "volume_btc must be greater than zero")
  n ← positive_count count
  ok (record {
    decision_time = d;
    execution_time = e;
    reference_price = p;
    volume_btc = v;
    trade_count = n;
  })

-- the decision that a candle's close schedules
unfoldable pub scheduled : BacktestConfig → Candle → Instant
scheduled config c = close_time c + config.decision_delay_minutes * minute

-- `candles[:-1]`
abbrev pub but_last : List Candle → List Candle
but_last [] = []
but_last (c ∷ []) = []
but_last (c ∷ d ∷ cs) = c ∷ but_last (d ∷ cs)

abbrev pub decided_at : Instant → ExecutionReference → Bool
decided_at t r = t == r.decision_time

-- `reference_by_decision.get`, over the references that were indexed
unfoldable pub reference_at : Instant → List ExecutionReference → Option ExecutionReference
reference_at t [] = none
reference_at t (r ∷ rs) = let later = reference_at t rs in if decided_at t r then some r else later

-- The loop of `_index_precise_execution_references`, over what is indexed so far.
unfoldable pub index_from :
    List Instant
    → List ExecutionReference
    → List ExecutionReference
    → Result (List ExecutionReference)
index_from expected indexed [] = ok indexed
index_from expected indexed (r ∷ rs) = do
  raise_if (not (any (λ t. decided_at t r) expected))
      (value_error "execution reference does not match a scheduled candle decision")
  raise_if (any (decided_at r.decision_time) indexed)
      (value_error "execution references must have unique decision times")
  index_from expected (r ∷ indexed) rs

-- `_index_precise_execution_references`
unfoldable pub index_precise_execution_references :
    List Candle → BacktestConfig → List ExecutionReference → Result (List ExecutionReference)
index_precise_execution_references candles config references =
    index_from (map (scheduled config) (but_last candles)) [] references

-- The loop of `_precise_evaluation_start_index`, from an index on.
unfoldable pub start_from : BacktestConfig → Instant → ℕ → List Candle → Result (ℕ × Instant)
start_from config start index [] =
    err (value_error "evaluation_start does not match a scheduled candle decision")
start_from config start index (c ∷ cs) =
    let later = start_from config start (suc index) cs in
    if scheduled config c == start then ok (index, start) else later

-- `_precise_evaluation_start_index`
unfoldable pub precise_evaluation_start_index :
    List Candle → BacktestConfig → Option Datetime → Result (ℕ × Instant)
precise_evaluation_start_index [] config start =
    err (value_error "precise execution requires at least two daily candles")
precise_evaluation_start_index (c ∷ []) config start =
    err (value_error "precise execution requires at least two daily candles")
precise_evaluation_start_index (c ∷ d ∷ cs) config none = ok (1, scheduled config c)
precise_evaluation_start_index (c ∷ d ∷ cs) config (some t) = do
  start ← require_utc t (value_error "evaluation_start must be timezone-aware UTC")
  raise_if (not (start % minute == 0))
      (value_error "evaluation_start must be aligned to a UTC minute")
  start_from config start 1 (but_last (c ∷ d ∷ cs))

-- `_no_fill_reference_decision`
unfoldable pub no_fill_reference_decision :
    ContentIds
    → StrategyDecision
    → Instant
    → Decimal
    → Decimal
    → Decimal
    → BacktestConfig
    → Result RebalanceDecision
no_fill_reference_decision ids signal decision_time valuation_price cash btc config = do
  snapshot ← portfolio_snapshot cash btc valuation_price config.costs config.instrument_rules
  raise_if (le snapshot.equity zero_decimal) (runtime_error "portfolio equity must remain positive")
  current_weight ← snapshot.btc_liquidation_value ⊘ snapshot.equity
  check_decision (record {
    intent_id =
        ids.intent signal.decision_id decision_time decision_time current_weight snapshot.equity
          zero_decimal;
    strategy_decision_id = signal.decision_id;
    signal_time = signal.signal_close_time;
    decision_time = decision_time;
    execution_time = decision_time;
    strategy_reason = signal.reason;
    target_weight = current_weight;
    pre_trade_equity = snapshot.equity;
    current_btc_value = snapshot.btc_liquidation_value;
    estimated_liquidation_fee_cad = snapshot.estimated_liquidation_fee;
    requested_delta_cad = zero_decimal;
    rebalance_band_cad = rebalance_band config snapshot.equity;
    outcome = no_fill_reference_unavailable;
    trade_id = none;
    remaining_btc = none;
  })
