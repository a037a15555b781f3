-- ===== src/Backtest/Holdings.antt =====
-- What `_execute_rebalance` does to the holdings, on every path that returns.
use kraken_knight.Base.{
  ◌≡◌, refl, sym, ap, ◌∙◌, Bool, true, false, ◌&&◌, ◌||◌, not, Option, none, some, arith, ok,
  raise_if-eq-ok, Ensures, Ensures-ok, Ensures-bind, Ensures-raise_if, Ensures-if, Ensures-map,
}
use kraken_knight.Decimals.{Decimal, lt, le, eq, ◌⊕◌, ◌⊖◌, ◌⊗◌, abs, gt_of_not_le}
use kraken_knight.Domain.{zero_decimal}
use kraken_knight.Strategy.{Digest}
use kraken_knight.Backtest.Types.{
  TradeSide, ExecutionOutcome, within_band, zero_quantity, below_exchange_minimum, Trade,
  check_trade, check_decision, ContentIds,
}
use kraken_knight.Backtest.Pricing.{execution_price, PortfolioSnapshot, portfolio_snapshot}
use kraken_knight.Backtest.Sizing.{Rebalance, Size}
use kraken_knight.Backtest.Execution.{
  Execution, Figures, below_minimum, tolerance, exceeds_cap, side_of, traded_outcome, intent_id,
  decide, no_trade, cap_reduction, risk_off_reduction, affordable, volume_capped, to_increment,
  check_holdings, participation, new_cash, new_btc, trade_record, record_trade, settle,
  trade_towards, rebalance_by,
}

-- The limits that a purchase keeps, up to the tolerance of 1e-18.
pub record IsWithinCaps (r : Rebalance) (cash btc : Decimal) : Type 0 where
  pub after : PortfolioSnapshot
  pub valued :
      portfolio_snapshot cash btc r.reference_price r.config.costs r.config.instrument_rules
      ≡ ok after
  pub absolute : lt (r.config.absolute_btc_cap_cad ⊕ tolerance) after.btc_mark_value ≡ false
  pub exposure :
      lt (r.config.max_post_cost_exposure ⊗ after.equity ⊕ tolerance) after.btc_liquidation_value
      ≡ false
  pub reserve : lt tolerance btc && lt (cash ⊕ tolerance) r.config.cash_reserve_cad ≡ false

-- What a trade on a side leaves behind.
pub record IsSettled (r : Rebalance) (side : TradeSide) (e : Execution) (t : Trade) : Type 0 where
  pub traded_side : t.side ≡ side
  pub cash_recorded : t.cash_after ≡ e.cash
  pub btc_recorded : t.btc_after ≡ e.btc
  pub cash_nonneg : lt e.cash zero_decimal ≡ false
  pub btc_nonneg : lt e.btc zero_decimal ≡ false
  pub quantity_pos : lt zero_decimal t.quantity_btc ≡ true
  pub outcome :
      e.decision.outcome ≡ traded_outcome r.drawdown_disarmed side e.btc t.volume_cap_applied
  pub linked : e.decision.trade_id ≡ some t.trade_id
  pub caps : side ≡ TradeSide.buy → IsWithinCaps r e.cash e.btc

-- Without a trade nothing changes.
abbrev pub Accounts : Rebalance → TradeSide → Execution → Option Trade → Type 0
Accounts r side e none = (e.cash ≡ r.cash) × (e.btc ≡ r.btc) × (e.decision.trade_id ≡ none)
Accounts r side e (some t) = IsSettled r side e t

||-false_left : (a b : Bool) → (a || b) ≡ false → a ≡ false
||-false_left a b h = ground arith

||-false_right : (a b : Bool) → (a || b) ≡ false → b ≡ false
||-false_right a b h = ground arith

module _ (ids : ContentIds) (r : Rebalance) where
  check_trade-keeps : (t u : Trade) → check_trade t ≡ ok u → u ≡ t
  unfolding check_trade
  check_trade-keeps t u h = ground arith

  decide-Ensures :
      (f : Figures) (intent : Digest) (delta : Decimal) (outcome : ExecutionOutcome)
      (trade : Option Digest) (remaining : Option Decimal)
      → Ensures
          (λ d. (d.trade_id ≡ trade) × (d.outcome ≡ outcome))
          (decide ids r f intent delta outcome trade remaining)
  unfolding decide check_decision
  decide-Ensures f intent delta outcome trade remaining = record { at = λ d e. ground arith }

  -- A return without a trade keeps the holdings and says why.
  pub no_trade_idle :
      (side : TradeSide) (f : Figures) (intent : Digest) (delta : Decimal)
      (outcome : ExecutionOutcome)
      → Ensures
          (λ e. Accounts r side e e.trade × (e.trade ≡ none) × (e.decision.outcome ≡ outcome))
          (no_trade ids r f intent delta outcome)
  unfolding no_trade
  no_trade_idle side f intent delta outcome =
      Ensures-bind (decide ids r f intent delta outcome none none) _ λ d decided.
        let (absent, says) = (decide-Ensures f intent delta outcome none none).at d decided in
        Ensures-ok _ ((refl, refl, absent), refl, says)

  pub no_trade-Accounts :
      (side : TradeSide) (f : Figures) (intent : Digest) (delta : Decimal)
      (outcome : ExecutionOutcome)
      → Ensures (λ e. Accounts r side e e.trade) (no_trade ids r f intent delta outcome)
  no_trade-Accounts side f intent delta outcome =
      Ensures-map _ (λ e h. h.0) (no_trade_idle side f intent delta outcome)

  check_holdings-Ensures :
      (side : TradeSide) (before : PortfolioSnapshot) (cash btc : Decimal)
      → Ensures
          (λ u. side ≡ TradeSide.buy → IsWithinCaps r cash btc)
          (check_holdings ids r side before cash btc)
  unfolding check_holdings
  check_holdings-Ensures TradeSide.buy before cash btc =
      Ensures-bind
        (portfolio_snapshot cash btc r.reference_price r.config.costs r.config.instrument_rules) _
        λ after valued. Ensures-raise_if _ _ _ λ absolute. Ensures-raise_if _ _ _ λ exposure.
          record {
            at = λ u kept bought. record {
              after = after;
              valued = valued;
              absolute = absolute;
              exposure = exposure;
              reserve = raise_if-eq-ok _ _ kept;
            };
          }
  check_holdings-Ensures TradeSide.sell before cash btc = record {
    at = λ u kept bought. absurd (ground arith);
  }

  record_trade-Ensures :
      (f : Figures) (t : Trade)
      → lt t.cash_after zero_decimal ≡ false
      → lt t.btc_after zero_decimal ≡ false
      → lt zero_decimal t.quantity_btc ≡ true
      → (t.side ≡ TradeSide.buy → IsWithinCaps r t.cash_after t.btc_after)
      → Ensures (λ e. Accounts r t.side e e.trade) (record_trade ids r f t)
  unfolding record_trade
  record_trade-Ensures f t cash_nonneg btc_nonneg positive caps =
      Ensures-bind (check_trade t) _ λ trade checked.
        Ensures-bind (decide ids r f t.intent_id f.requested_delta _ _ _) _ λ d decided.
          let (link, says) = (decide-Ensures f t.intent_id f.requested_delta _ _ _).at d decided in
          let same : trade ≡ t = check_trade-keeps t trade checked in
          Ensures-ok _ (record {
            traded_side = ap (λ u. u.side) same;
            cash_recorded = ap (λ u. u.cash_after) same;
            btc_recorded = ap (λ u. u.btc_after) same;
            cash_nonneg = cash_nonneg;
            btc_nonneg = btc_nonneg;
            quantity_pos = ap (λ u. lt zero_decimal u.quantity_btc) same ∙ positive;
            outcome =
                says
                ∙ ap
                    (λ u.
                      traded_outcome r.drawdown_disarmed t.side t.btc_after u.volume_cap_applied)
                    (sym same);
            linked = link ∙ ap (λ u. some u.trade_id) (sym same);
            caps = caps;
          })

  -- The trade that is settled: the holdings it leaves are checked and recorded.
  settle-Ensures :
      (f : Figures) (intent : Digest) (side : TradeSide) (price quantity : Decimal) (capped : Bool)
      → le quantity zero_decimal ≡ false
      → Ensures (λ e. Accounts r side e e.trade) (settle ids r f intent side price quantity capped)
  unfolding settle trade_record
  settle-Ensures f intent side price quantity capped positive =
      Ensures-raise_if
        (lt (new_cash ids r side price quantity) zero_decimal
          || lt (new_btc ids r side quantity) zero_decimal)
        _ _
        λ nonneg.
          Ensures-bind
            (check_holdings ids r side f.snapshot (new_cash ids r side price quantity)
              (new_btc ids r side quantity))
            _
            λ u held.
              Ensures-bind (participation ids r r.execution_volume_btc quantity) _ λ share shared.
                Ensures-raise_if (exceeds_cap share r.config.max_execution_volume_fraction) _ _
                  λ within.
                    record_trade-Ensures f
                      (trade_record ids r f intent side price quantity capped share)
                      (||-false_left _ _ nonneg) (||-false_right _ _ nonneg)
                      (gt_of_not_le quantity zero_decimal positive)
                      ((check_holdings-Ensures side f.snapshot _ _).at u held)

  trade_towards-Ensures :
      (f : Figures) (intent : Digest) (side : TradeSide) (signed_quantity : Decimal)
      → Ensures (λ e. Accounts r side e e.trade) (trade_towards ids r f intent side signed_quantity)
  unfolding trade_towards
  trade_towards-Ensures f intent side signed_quantity =
      Ensures-bind (execution_price r.reference_price side r.config.costs r.config.instrument_rules)
        _
        λ price priced. Ensures-raise_if (le price zero_decimal) _ _ λ positive.
          Ensures-bind (affordable ids r side price (abs signed_quantity)) _ λ wanted paid.
            let limited = volume_capped ids r r.execution_volume_btc wanted in
            Ensures-bind (to_increment ids r r.config.instrument_rules limited.0) _
              λ quantity rounded.
                Ensures-if (le quantity zero_decimal) _ _
                  (λ nothing. no_trade-Accounts side f intent f.requested_delta zero_quantity)
                  (λ something.
                    Ensures-if (below_minimum r.config.instrument_rules quantity (quantity ⊗ price))
                      _ _
                      (λ small.
                        no_trade-Accounts side f intent f.requested_delta below_exchange_minimum)
                      (λ large. settle-Ensures f intent side price quantity limited.1 something))

  -- After the gates, the side is the sign of what is wanted.
  pub rebalance_by-Ensures :
      (f : Figures) (s : Size)
      → Ensures
          (λ e. Accounts r (side_of (s.desired_btc ⊖ r.btc)) e e.trade)
          (rebalance_by ids r f s)
  unfolding rebalance_by
  rebalance_by-Ensures f s =
      let q = s.desired_btc ⊖ r.btc in
      let side = side_of q in
      Ensures-bind (cap_reduction ids r f s) _ λ reduction reduced.
        Ensures-if
          (lt (abs f.requested_delta) f.band && not (risk_off_reduction ids r) && not reduction) _ _
          (λ small. no_trade-Accounts side f (intent_id ids r f) f.requested_delta within_band)
          (λ large.
            Ensures-if (eq q zero_decimal) _ _
              (λ nothing.
                no_trade-Accounts side f (intent_id ids r f) f.requested_delta zero_quantity)
              (λ something. trade_towards-Ensures f (intent_id ids r f) side q))
