-- ===== src/Backtest/Execution.antt =====
-- The second half of `_execute_rebalance`: from the size of the position to a trade, or to the
-- reason that there is none.
use kraken_knight.Base.{
  Bool, true, false, ◌&&◌, ◌||◌, not, Option, none, some, ◌==◌, if◌then◌else◌, runtime_error,
  Result, ok, ◌>>=◌, ◌>>◌, raise_if,
}
use kraken_knight.Decimals.{
  Decimal, round_down, of_ℕ, literal, lt, le, eq, min, max, ◌⊕◌, ◌⊖◌, ◌⊗◌, ◌⊘◌, abs,
}
use kraken_knight.Domain.{zero_decimal}
use kraken_knight.Strategy.{Digest}
use kraken_knight.Backtest.Types.{
  TradeSide, ExecutionOutcome, within_band, zero_quantity, below_exchange_minimum,
  no_action_risk_gate, no_action_disarmed, forced_liquidation, forced_liquidation_partial,
  forced_liquidation_partial_volume_capped, InstrumentRules, liquidity_for, fee_rate_for, Trade,
  check_trade, RebalanceDecision, check_decision, ContentIds,
}
use kraken_knight.Backtest.Pricing.{
  PortfolioSnapshot, portfolio_snapshot, execution_price, round_to_increment,
}
use kraken_knight.Backtest.Sizing.{
  Rebalance, check_inputs, rebalance_band, no_action_outcome, Size, size,
}

-- What the call returns: the holdings, the decision, and the trade if there is one.
pub record Execution : Type 0 where
  pub cash : Decimal
  pub btc : Decimal
  pub decision : RebalanceDecision
  pub trade : Option Trade

-- The numbers that every decision records.
pub record Figures : Type 0 where
  pub snapshot : PortfolioSnapshot
  pub band : Decimal
  pub weight : Decimal
  pub requested_delta : Decimal

-- The disarmed account that holds nothing records zeros.
abbrev pub flat_figures : Figures → Figures
flat_figures f = record f {
  snapshot = record (f.snapshot) {
    btc_liquidation_value = zero_decimal;
    estimated_liquidation_fee = zero_decimal;
  };
  weight = zero_decimal;
}

abbrev pub below_minimum : Option InstrumentRules → Decimal → Decimal → Bool
below_minimum none quantity notional = false
below_minimum (some rules) quantity notional =
    lt quantity rules.minimum_quantity_btc || lt notional rules.minimum_cost_cad

-- A balance that rounding left within 1e-20 of zero; for cash only below it.
abbrev pub snap_cash : Decimal → Decimal
snap_cash c = if lt c zero_decimal && lt (abs c) (literal 1 20) then zero_decimal else c

abbrev pub snap_btc : Decimal → Decimal
snap_btc b = if lt (abs b) (literal 1 20) then zero_decimal else b

abbrev pub tolerance : Decimal
tolerance = literal 1 18

abbrev pub exceeds_cap : Option Decimal → Option Decimal → Bool
exceeds_cap (some share) (some cap) = lt cap share
exceeds_cap share cap = false

abbrev pub side_of : Decimal → TradeSide
side_of q = if lt zero_decimal q then TradeSide.buy else TradeSide.sell

abbrev pub no_evidence : Option ExecutionOutcome → Bool → Option ExecutionOutcome
no_evidence outcome true = none
no_evidence outcome false = outcome

-- The outcome of a decision that has a trade.
unfoldable pub traded_outcome : Bool → TradeSide → Decimal → Bool → ExecutionOutcome
traded_outcome disarmed side btc capped =
    if disarmed
    then if le btc tolerance
      then forced_liquidation
      else if capped
      then forced_liquidation_partial_volume_capped
      else forced_liquidation_partial
    else elim side [ TradeSide.buy ↦ ExecutionOutcome.buy | TradeSide.sell ↦ ExecutionOutcome.sell ]

module _ (ids : ContentIds) (r : Rebalance) where
  unfoldable pub intent_id : Figures → Digest
  intent_id f =
      ids.intent r.signal.decision_id r.decision_time r.execution_time f.weight f.snapshot.equity
        f.requested_delta

  unfoldable pub decide :
      Figures
      → Digest
      → Decimal
      → ExecutionOutcome
      → Option Digest
      → Option Decimal
      → Result RebalanceDecision
  decide f intent delta outcome trade remaining = check_decision (record {
    intent_id = intent;
    strategy_decision_id = r.signal.decision_id;
    signal_time = r.signal.signal_close_time;
    decision_time = r.decision_time;
    execution_time = r.execution_time;
    strategy_reason = r.signal.reason;
    target_weight = f.weight;
    pre_trade_equity = f.snapshot.equity;
    current_btc_value = f.snapshot.btc_liquidation_value;
    estimated_liquidation_fee_cad = f.snapshot.estimated_liquidation_fee;
    requested_delta_cad = delta;
    rebalance_band_cad = f.band;
    outcome = outcome;
    trade_id = trade;
    remaining_btc = remaining;
  })

  -- A return without a trade, which leaves the holdings alone.
  unfoldable pub no_trade : Figures → Digest → Decimal → ExecutionOutcome → Result Execution
  no_trade f intent delta outcome = do
    decision ← decide f intent delta outcome none none
    ok (record { cash = r.cash; btc = r.btc; decision = decision; trade = none })

  -- Missing or stale evidence: no action, at the current weight.
  unfoldable pub without_evidence : PortfolioSnapshot → ExecutionOutcome → Result Execution
  without_evidence snapshot outcome = do
    current_weight ← snapshot.btc_liquidation_value ⊘ snapshot.equity
    let f : Figures = record {
      snapshot = snapshot;
      band = rebalance_band r.config snapshot.equity;
      weight = current_weight;
      requested_delta = zero_decimal;
    }
    no_trade f (intent_id f) zero_decimal outcome

  -- `target_btc_value`, the effective weight and `requested_delta`
  unfoldable pub figures : PortfolioSnapshot → Size → Result Figures
  figures snapshot s = do
    let target_btc_value = s.desired_btc ⊗ s.post_cost
    weight ← target_btc_value ⊘ snapshot.equity
    ok (record {
      snapshot = snapshot;
      band = rebalance_band r.config snapshot.equity;
      weight = weight;
      requested_delta = target_btc_value ⊖ snapshot.btc_liquidation_value;
    })

  -- `cap_reduction`
  unfoldable pub cap_reduction : Figures → Size → Result Bool
  cap_reduction f s = do
    fraction ← f.snapshot.btc_liquidation_value ⊘ f.snapshot.equity
    ok (
        lt s.desired_btc r.btc
        && (lt r.config.absolute_btc_cap_cad f.snapshot.btc_mark_value
            || lt r.config.max_post_cost_exposure fraction
            || lt r.cash r.config.cash_reserve_cad))

  -- `risk_off_reduction`
  unfoldable pub risk_off_reduction : Bool
  risk_off_reduction =
      (eq r.signal.target_weight zero_decimal || r.drawdown_disarmed) && lt zero_decimal r.btc

  -- the quantity that the cash allows, or the holding
  unfoldable pub affordable : TradeSide → Decimal → Decimal → Result Decimal
  affordable TradeSide.buy price quantity = do
    let spendable = max zero_decimal (r.cash ⊖ r.config.cash_reserve_cad)
    maximum ← spendable ⊘ (price ⊗ (of_ℕ 1 ⊕ fee_rate_for r.config.costs TradeSide.buy))
    ok (min quantity maximum)
  affordable TradeSide.sell price quantity = ok (min quantity r.btc)

  -- `self.max_execution_volume_fraction or Decimal("1")`: a zero is false too
  abbrev participation_cap : Option Decimal → Decimal
  participation_cap none = of_ℕ 1
  participation_cap (some d) = if d.coefficient == 0 then of_ℕ 1 else d

  -- The quantity under the volume cap, and whether the cap was applied.
  unfoldable pub volume_capped : Option Decimal → Decimal → Decimal × Bool
  volume_capped none quantity = (quantity, false)
  volume_capped (some volume) quantity =
      let maximum = volume ⊗ participation_cap r.config.max_execution_volume_fraction in
      (min quantity maximum, lt maximum quantity)

  unfoldable pub to_increment : Option InstrumentRules → Decimal → Result Decimal
  to_increment none quantity = ok quantity
  to_increment (some rules) quantity =
      round_to_increment quantity rules.quantity_increment_btc round_down

  abbrev pub cash_after : TradeSide → Decimal → Decimal → Decimal
  cash_after TradeSide.buy notional fee = r.cash ⊖ notional ⊖ fee
  cash_after TradeSide.sell notional fee = r.cash ⊕ notional ⊖ fee

  abbrev pub btc_after : TradeSide → Decimal → Decimal
  btc_after TradeSide.buy quantity = r.btc ⊕ quantity
  btc_after TradeSide.sell quantity = r.btc ⊖ quantity

  -- The checks of the holdings after the trade.
  unfoldable pub check_holdings :
      TradeSide → PortfolioSnapshot → Decimal → Decimal → Result (Unit {0})
  check_holdings TradeSide.buy before cash btc = do
    after ← portfolio_snapshot cash btc r.reference_price r.config.costs r.config.instrument_rules
    raise_if (lt (r.config.absolute_btc_cap_cad ⊕ tolerance) after.btc_mark_value)
        (runtime_error "execution exceeded the absolute BTC exposure cap")
    raise_if
        (lt (r.config.max_post_cost_exposure ⊗ after.equity ⊕ tolerance)
          after.btc_liquidation_value)
        (runtime_error "execution exceeded the post-cost exposure cap")
    raise_if (lt tolerance btc && lt (cash ⊕ tolerance) r.config.cash_reserve_cad)
        (runtime_error "execution spent the required CAD reserve")
  check_holdings TradeSide.sell before cash btc = do
    after ← portfolio_snapshot cash btc r.reference_price r.config.costs r.config.instrument_rules
    raise_if (lt (before.btc_mark_value ⊕ tolerance) after.btc_mark_value)
        (runtime_error "risk-reducing execution increased BTC exposure")

  -- The share of the volume that was traded.
  unfoldable pub participation : Option Decimal → Decimal → Result (Option Decimal)
  participation none quantity = ok none
  participation (some volume) quantity = do share ← quantity ⊘ volume; ok (some share)

  unfoldable pub new_cash : TradeSide → Decimal → Decimal → Decimal
  new_cash side price quantity =
      let gross_notional = quantity ⊗ price in
      snap_cash (cash_after side gross_notional (gross_notional ⊗ fee_rate_for r.config.costs side))

  unfoldable pub new_btc : TradeSide → Decimal → Decimal
  new_btc side quantity = snap_btc (btc_after side quantity)

  -- The `Trade`, before its own checks.
  unfoldable pub trade_record :
      Figures → Digest → TradeSide → Decimal → Decimal → Bool → Option Decimal → Trade
  trade_record f intent side price quantity capped share =
      let gross_notional = quantity ⊗ price in
      let fee = gross_notional ⊗ fee_rate_for r.config.costs side in
      record {
        trade_id =
            ids.trade intent side quantity price gross_notional fee r.execution_volume_btc capped;
        intent_id = intent;
        strategy_decision_id = r.signal.decision_id;
        decision_time = r.decision_time;
        execution_time = r.execution_time;
        side = side;
        liquidity = liquidity_for r.config.costs side;
        quantity_btc = quantity;
        reference_price = r.reference_price;
        execution_price = price;
        gross_notional_cad = gross_notional;
        fee_cad = fee;
        slippage_cad = quantity ⊗ abs (price ⊖ r.reference_price);
        pre_trade_equity = f.snapshot.equity;
        cash_after = new_cash side price quantity;
        btc_after = new_btc side quantity;
        execution_volume_btc = r.execution_volume_btc;
        volume_participation_fraction = share;
        volume_cap_applied = capped;
      }

  -- The decision and the holdings that go with a trade.
  unfoldable pub record_trade : Figures → Trade → Result Execution
  record_trade f t = do
    trade ← check_trade t
    decision ←
        decide f t.intent_id f.requested_delta
          (traded_outcome r.drawdown_disarmed t.side t.btc_after t.volume_cap_applied)
          (some t.trade_id) (if r.drawdown_disarmed then some t.btc_after else none)
    ok (record { cash = t.cash_after; btc = t.btc_after; decision = decision; trade = some trade })

  -- The trade itself: the holdings after it, their checks, and the two records.
  unfoldable pub settle : Figures → Digest → TradeSide → Decimal → Decimal → Bool → Result Execution
  settle f intent side price quantity capped = do
    raise_if
        (lt (new_cash side price quantity) zero_decimal || lt (new_btc side quantity) zero_decimal)
        (runtime_error "execution produced a negative portfolio balance")
    check_holdings side f.snapshot (new_cash side price quantity) (new_btc side quantity)
    share ← participation r.execution_volume_btc quantity
    raise_if (exceeds_cap share r.config.max_execution_volume_fraction)
        (runtime_error "execution exceeded the configured volume participation cap")
    record_trade f (trade_record f intent side price quantity capped share)

  -- From the signed quantity to the quantity that is traded, or to no trade.
  unfoldable pub trade_towards : Figures → Digest → TradeSide → Decimal → Result Execution
  trade_towards f intent side signed_quantity = do
    price ← execution_price r.reference_price side r.config.costs r.config.instrument_rules
    raise_if (le price zero_decimal) (runtime_error "rounded execution price must remain positive")
    wanted ← affordable side price (abs signed_quantity)
    let limited = volume_capped r.execution_volume_btc wanted
    quantity ← to_increment r.config.instrument_rules limited.0
    if le quantity zero_decimal
        then no_trade f intent f.requested_delta zero_quantity
        else if below_minimum r.config.instrument_rules quantity (quantity ⊗ price)
        then no_trade f intent f.requested_delta below_exchange_minimum
        else settle f intent side price quantity limited.1

  -- After the gates: the drift band, then the trade.
  unfoldable pub rebalance_by : Figures → Size → Result Execution
  rebalance_by f s = do
    let intent = intent_id f
    reduction ← cap_reduction f s
    let signed_quantity = s.desired_btc ⊖ r.btc
    if lt (abs f.requested_delta) f.band && not risk_off_reduction && not reduction
        then no_trade f intent f.requested_delta within_band
        else if eq signed_quantity zero_decimal
        then no_trade f intent f.requested_delta zero_quantity
        else trade_towards f intent (side_of signed_quantity) signed_quantity

  unfoldable pub rebalance : PortfolioSnapshot → Result Execution
  rebalance snapshot = do
    s ← size r snapshot.equity
    f ← figures snapshot s
    if s.risk_gate_blocks_increase
        then no_trade f (intent_id f) zero_decimal no_action_risk_gate
        else if r.drawdown_disarmed && eq r.btc zero_decimal
        then no_trade (flat_figures f) (intent_id f) zero_decimal no_action_disarmed
        else rebalance_by f s

  -- `_execute_rebalance`
  unfoldable pub execute_rebalance : Result Execution
  execute_rebalance = do
    snapshot ← check_inputs r
    elim (no_evidence (no_action_outcome r) r.drawdown_disarmed) [
      | some outcome ↦ without_evidence snapshot outcome
      | none ↦ rebalance snapshot
    ]
