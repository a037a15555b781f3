-- ===== src/Backtest/ScheduleTests.antt =====
-- A reference two minutes after its decision, and its index over two candles.
use kraken_knight.Base.{
  ℕ, ◌+◌, ◌*◌, ◌≡◌, refl, true, none, [], ◌∷◌, map, length, pos, value_error, ok, err,
}
use kraken_knight.Decimals.{of_ℕ, literal, arithmetic}
use kraken_knight.Domain.{
  finite, to_decimal, Instant, minute, day, zoned, Candle, require_utc, zero_decimal,
}
use kraken_knight.Backtest.Types.{persistent, taker, BacktestConfig}
use kraken_knight.Backtest.References.{
  ExecutionReference, checked_time, make_reference, scheduled, but_last, index_from,
  index_precise_execution_references,
}
use kraken_knight.Backtest.Schedule.{
  IsEvidence, make_reference-IsEvidence, IsIndex, index_precise_execution_references-IsIndex,
}

abbrev config : BacktestConfig
config = record {
  initial_cash = of_ℕ 1000;
  costs = record {
    maker_fee_rate = literal 4 3;
    taker_fee_rate = literal 8 3;
    slippage_rate = zero_decimal;
    buy_liquidity = taker;
    sell_liquidity = taker;
  };
  instrument_rules = none;
  max_execution_volume_fraction = none;
  cash_reserve_cad = of_ℕ 200;
  absolute_btc_cap_cad = of_ℕ 800;
  max_post_cost_exposure = literal 80 2;
  rebalance_min_cad = of_ℕ 50;
  rebalance_equity_fraction = literal 5 2;
  rolling_24h_loss_threshold = literal 8 2;
  max_drawdown_threshold = literal 20 2;
  drawdown_policy_mode = persistent;
  drawdown_rearm_cooldown_days = 90;
  decision_delay_minutes = 15;
  daily_execution_lag_days = 1;
}

abbrev candle : ℕ → Candle
candle n = record {
  open_time = (738000 + n) * day;
  opening = of_ℕ 100;
  high = of_ℕ 120;
  low = of_ℕ 95;
  close = of_ℕ 110;
  volume = of_ℕ 7;
  complete = true;
}

abbrev decided : Instant
decided = 738001 * day + 15 * minute

abbrev reference : ExecutionReference
reference = record {
  decision_time = decided;
  execution_time = decided + 2 * minute;
  reference_price = of_ℕ 109;
  volume_btc = literal 25 2;
  trade_count = 12;
}

reference_made :
    make_reference
      (zoned (pos 0) decided)
      (zoned (pos 0) (decided + 2 * minute))
      (finite (of_ℕ 109))
      (finite (literal 25 2))
      (pos 12)
    ≡ ok reference
unfolding make_reference checked_time to_decimal require_utc arithmetic
reference_made = refl

make_reference-IsEvidence_example : IsEvidence reference
make_reference-IsEvidence_example =
    make_reference-IsEvidence (zoned (pos 0) decided) (zoned (pos 0) (decided + 2 * minute))
      (finite (of_ℕ 109)) (finite (literal 25 2)) (pos 12) reference reference_made

reference_indexed :
    index_precise_execution_references (candle 0 ∷ candle 1 ∷ []) config (reference ∷ [])
    ≡ ok (reference ∷ [])
unfolding index_precise_execution_references index_from scheduled
reference_indexed = refl

-- the last candle schedules nothing that can be filled
last_refused :
    index_precise_execution_references (candle 0 ∷ []) config (reference ∷ [])
    ≡ err (value_error "execution reference does not match a scheduled candle decision")
unfolding index_precise_execution_references index_from scheduled
last_refused = refl

index_precise_execution_references-IsIndex_example :
    IsIndex (map (scheduled config) (but_last (candle 0 ∷ candle 1 ∷ []))) (reference ∷ [])
    × (length (reference ∷ []) ≡ length (reference ∷ []))
index_precise_execution_references-IsIndex_example =
    index_precise_execution_references-IsIndex (candle 0 ∷ candle 1 ∷ []) config (reference ∷ [])
      (reference ∷ []) reference_indexed
