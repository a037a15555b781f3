-- ===== src/Backtest/Gates.antt =====
-- The gates of `_execute_rebalance`, on every path: what may be bought, and when.
use kraken_knight.Base.{
  ◌≡◌, refl, ap, ◌∙◌, subst, ◌≢◌, ◌⊎◌, inl, inr, Bool, true, false, ◌&&◌, ◌||◌, Option, none, some,
  arith, ◌==◌, if◌then◌else◌, Bool-cases, ok, Ensures, Ensures-ok, Ensures-bind, Ensures-if,
  Ensures-map,
}
use kraken_knight.Decimals.{Decimal, lt, eq, ◌⊖◌, ◌⊘◌, lt_irrefl, lt-zero-sub}
use kraken_knight.Domain.{Instant, zero_decimal}
use kraken_knight.Backtest.Types.{
  TradeSide, ExecutionOutcome, no_action_data_invalid, no_action_stale_signal, no_action_risk_gate,
  no_action_disarmed, Trade, ContentIds,
}
use kraken_knight.Backtest.Pricing.{PortfolioSnapshot}
use kraken_knight.Backtest.Sizing.{
  Rebalance, check_inputs, is_stale, no_action_outcome, cash_per_btc, post_cost_price, target_btc,
  side_towards, exposure_capped, reserve_capped, gated, size,
}
use kraken_knight.Backtest.Execution.{
  Execution, Figures, flat_figures, side_of, no_evidence, intent_id, no_trade, without_evidence,
  figures, rebalance, execute_rebalance,
}
use kraken_knight.Backtest.Holdings.{
  IsSettled, Accounts, no_trade_idle, no_trade-Accounts, rebalance_by-Ensures,
}

-- The side that the gates leave open, for a holding that is not negative.
pub record IsAllowed (r : Rebalance) (side : TradeSide) : Type 0 where
  pub ungated : r.exposure_increase_blocked ≡ true → side ≡ TradeSide.sell
  pub armed : r.drawdown_disarmed ≡ true → side ≡ TradeSide.sell

||-true : (a b : Bool) → (a || b) ≡ true → (a ≡ true) ⊎ (b ≡ true)
||-true true b h = inl refl
||-true false b h = inr h

side_of-sell :
    (desired held : Decimal) → lt held desired ≡ false → side_of (desired ⊖ held) ≡ TradeSide.sell
side_of-sell desired held h =
    ap (λ c. if c then TradeSide.buy else TradeSide.sell) (lt-zero-sub desired held ∙ h)

-- A gate that is closed does not let the holding grow.
gated-blocked :
    (r : Rebalance) (post_cost desired : Decimal)
    → lt r.btc zero_decimal ≡ false
    → r.exposure_increase_blocked ≡ true
    → lt r.btc (gated r post_cost desired).desired_btc ≡ false
unfolding gated
gated-blocked r post_cost desired held blocked = elim (Bool-cases r.drawdown_disarmed) [
  | inl d ↦ ground (arith, held, d)
  | inr d ↦ ground (arith, lt_irrefl r.btc)
]

gated-disarmed :
    (r : Rebalance) (post_cost desired : Decimal)
    → lt r.btc zero_decimal ≡ false
    → r.drawdown_disarmed ≡ true
    → lt r.btc (gated r post_cost desired).desired_btc ≡ false
unfolding gated
gated-disarmed r post_cost desired held disarmed = ground (arith, held, disarmed)

size-Ensures :
    (r : Rebalance) (equity : Decimal)
    → lt r.btc zero_decimal ≡ false
    → Ensures (λ s. IsAllowed r (side_of (s.desired_btc ⊖ r.btc))) (size r equity)
unfolding size
size-Ensures r equity held = Ensures-bind (post_cost_price r) _ λ post_cost a.
    Ensures-bind (target_btc r equity post_cost) _ λ target b.
      Ensures-bind (cash_per_btc r (side_towards target r.btc)) _ λ per_btc c.
        Ensures-bind (exposure_capped r post_cost per_btc target) _ λ exposed d.
          Ensures-bind (reserve_capped r post_cost per_btc exposed) _ λ desired e.
            Ensures-ok (gated r post_cost desired) (record {
              ungated =
                  λ blocked. side_of-sell _ r.btc (gated-blocked r post_cost desired held blocked);
              armed = λ disarmed.
                  side_of-sell _ r.btc (gated-disarmed r post_cost desired held disarmed);
            })

-- What every call that returns has done.
record IsConducted (r : Rebalance) (e : Execution) : Type 0 where
  pub side : TradeSide
  pub accounts : Accounts r side e e.trade
  pub allowed : lt r.btc zero_decimal ≡ false → IsAllowed r side

module _ (ids : ContentIds) (r : Rebalance) where
  idle-IsConducted : (e : Execution) → Accounts r TradeSide.sell e e.trade → IsConducted r e
  idle-IsConducted e h = record {
    side = TradeSide.sell;
    accounts = h;
    allowed = λ held. record { ungated = λ b. refl; armed = λ d. refl };
  }

  idle :
      (f g : Figures) (outcome : ExecutionOutcome)
      → Ensures (IsConducted r) (no_trade ids r g (intent_id ids r f) zero_decimal outcome)
  idle f g outcome =
      Ensures-map _ idle-IsConducted (no_trade-Accounts ids r TradeSide.sell g _ _ outcome)

  rebalance-Ensures :
      (snapshot : PortfolioSnapshot) → Ensures (IsConducted r) (rebalance ids r snapshot)
  unfolding rebalance
  rebalance-Ensures snapshot = Ensures-bind (size r snapshot.equity) _ λ s sized.
      Ensures-bind (figures ids r snapshot s) _ λ f counted.
        Ensures-if s.risk_gate_blocks_increase _ _ (λ blocked. idle f f no_action_risk_gate)
          (λ unblocked.
            Ensures-if (r.drawdown_disarmed && eq r.btc zero_decimal) _ _
              (λ flat. idle f (flat_figures f) no_action_disarmed)
              (λ holding.
                Ensures-map _
                  (λ e h. record {
                    side = _;
                    accounts = h;
                    allowed = λ held. (size-Ensures r snapshot.equity held).at s sized;
                  })
                  (rebalance_by-Ensures ids r f s)))

  without_evidence-Ensures :
      (snapshot : PortfolioSnapshot) (outcome : ExecutionOutcome)
      → Ensures
          (λ e.
            Accounts r TradeSide.sell e e.trade × (e.trade ≡ none) × (e.decision.outcome ≡ outcome))
          (without_evidence ids r snapshot outcome)
  unfolding without_evidence
  without_evidence-Ensures snapshot outcome =
      Ensures-bind (snapshot.btc_liquidation_value ⊘ snapshot.equity) _
        λ weight divided. no_trade_idle ids r TradeSide.sell _ _ zero_decimal outcome

  by_evidence :
      (snapshot : PortfolioSnapshot) (evidence : Option ExecutionOutcome)
      → Ensures (IsConducted r) (elim evidence [
        | some outcome ↦ without_evidence ids r snapshot outcome
        | none ↦ rebalance ids r snapshot
      ])
  by_evidence snapshot none = rebalance-Ensures snapshot
  by_evidence snapshot (some outcome) =
      Ensures-map _ (λ e h. idle-IsConducted e h.0) (without_evidence-Ensures snapshot outcome)

  on_evidence :
      (snapshot : PortfolioSnapshot) (evidence : Option ExecutionOutcome)
      (outcome : ExecutionOutcome)
      → evidence ≡ some outcome
      → Ensures
          (λ e.
            Accounts r TradeSide.sell e e.trade × (e.trade ≡ none) × (e.decision.outcome ≡ outcome))
          (elim evidence [
            | some found ↦ without_evidence ids r snapshot found
            | none ↦ rebalance ids r snapshot
          ])
  on_evidence snapshot none outcome h = absurd (ground arith)
  on_evidence snapshot (some found) outcome h =
      let same : found ≡ outcome = cc in
      subst
        (λ o.
          Ensures
            (λ e. Accounts r TradeSide.sell e e.trade × (e.trade ≡ none) × (e.decision.outcome ≡ o))
            (without_evidence ids r snapshot found))
        same (without_evidence-Ensures snapshot found)

  missing-Ensures :
      (outcome : ExecutionOutcome)
      → r.drawdown_disarmed ≡ false
      → no_action_outcome r ≡ some outcome
      → Ensures
          (λ e.
            Accounts r TradeSide.sell e e.trade × (e.trade ≡ none) × (e.decision.outcome ≡ outcome))
          (execute_rebalance ids r)
  unfolding execute_rebalance
  missing-Ensures outcome armed missing = Ensures-bind (check_inputs r) _ λ snapshot checked.
      on_evidence snapshot (no_evidence (no_action_outcome r) r.drawdown_disarmed) outcome
        (ap (no_evidence (no_action_outcome r)) armed ∙ missing)

  execute_rebalance-Ensures : Ensures (IsConducted r) (execute_rebalance ids r)
  unfolding execute_rebalance
  execute_rebalance-Ensures = Ensures-bind (check_inputs r) _ λ snapshot checked.
      by_evidence snapshot (no_evidence (no_action_outcome r) r.drawdown_disarmed)

-- Every call that returns accounts for the holdings. Without a trade, cash and BTC are unchanged
-- and the decision names no trade. With one, the quantity is positive, the trade records the
-- holdings that are returned, neither is negative, the decision names the trade and has the
-- outcome of its side and switches, and a purchase keeps the absolute cap, the exposure cap and
-- the cash reserve, each up to 1e-18.
pub execute_rebalance-Accounts :
    (ids : ContentIds) (r : Rebalance) (e : Execution)
    → execute_rebalance ids r ≡ ok e
    → (side : TradeSide) × Accounts r side e e.trade
execute_rebalance-Accounts ids r e h =
    let conducted = (execute_rebalance-Ensures ids r).at e h in (conducted.side, conducted.accounts)

-- From a holding that is not negative, while increases are blocked or the account is disarmed, a
-- call that returns a trade returns a sale.
pub execute_rebalance_gated :
    (ids : ContentIds) (r : Rebalance) (e : Execution) (t : Trade)
    → lt r.btc zero_decimal ≡ false
    → r.exposure_increase_blocked || r.drawdown_disarmed ≡ true
    → execute_rebalance ids r ≡ ok e
    → e.trade ≡ some t
    → t.side ≡ TradeSide.sell
execute_rebalance_gated ids r e t held gate h traded =
    let conducted = (execute_rebalance-Ensures ids r).at e h in
    let settled : IsSettled r conducted.side e t =
      subst (Accounts r conducted.side e) traded conducted.accounts in
    let open_side = conducted.allowed held in
    settled.traded_side
    ∙ elim (||-true _ _ gate) [ inl b ↦ open_side.ungated b | inr d ↦ open_side.armed d ]

-- evidence that is missing or malformed, or that is not of the candle that closed last
abbrev pub LacksEvidence : Rebalance → Type 0
LacksEvidence r =
    (r.signal.usable_data ≡ false)
    ⊎ (r.signal.signal_close_time ≢ some r.required_signal_close_time)

stale :
    (closed : Option Instant) (required : Instant)
    → closed ≢ some required
    → is_stale closed required ≡ true
stale none required h = refl
stale (some t) required h = elim (Bool-cases (t == required)) [
  | inl same ↦
      let equal : t ≡ required = ground (arith, same) in absurd (h (ap (λ x. some x) equal))
  | inr other ↦ rw other refl
]

outcome_lem :
    (r : Rebalance)
    → LacksEvidence r
    → no_action_outcome r
      ≡ some (if r.signal.usable_data then no_action_stale_signal else no_action_data_invalid)
unfolding no_action_outcome
outcome_lem r (inl unusable) = rw unusable refl
outcome_lem r (inr other) =
    let late = stale r.signal.signal_close_time r.required_signal_close_time other in
    ground (arith, late)

-- Unless the account is disarmed, missing evidence leaves the holdings alone. If the data of the
-- signal is not usable, or its candle did not close at the required time, a call that returns makes
-- no trade, changes neither the cash nor the BTC, and records that the data is invalid where it is
-- not usable, and otherwise that the signal is stale.
pub execute_rebalance_evidence :
    (ids : ContentIds) (r : Rebalance) (e : Execution)
    → r.drawdown_disarmed ≡ false
    → LacksEvidence r
    → execute_rebalance ids r ≡ ok e
    → (e.trade ≡ none)
      × (e.cash ≡ r.cash)
      × (e.btc ≡ r.btc)
      × (e.decision.outcome
          ≡ (if r.signal.usable_data then no_action_stale_signal else no_action_data_invalid))
execute_rebalance_evidence ids r e armed lacking h =
    let (accounted, untraded, says) =
      (missing-Ensures ids r _ armed (outcome_lem r lacking)).at e h in
    let same : Accounts r TradeSide.sell e none =
      subst (Accounts r TradeSide.sell e) untraded accounted in
    (untraded, same.0, same.1, says)
