-- ===== src/Backtest/Risk.antt =====
-- The risk state of `run_backtest`: high water, the drawdown latch and the rolling loss gate, from
-- the snapshot of one execution candle to the two switches that `_execute_rebalance` takes.
use kraken_knight.Base.{
  ℕ, suc, ◌+◌, ◌*◌, Bool, true, false, ◌&&◌, not, Option, none, some, List, [], ◌∷◌, ◌++◌, reverse,
  ltb, leb, ◌==◌, if◌then◌else◌, Result, ok, ◌>>=◌,
}
use kraken_knight.Decimals.{Decimal, of_ℕ, lt, le, eq, max, ◌⊖◌, ◌⊘◌}
use kraken_knight.Domain.{Instant, day, zero_decimal}
use kraken_knight.Strategy.{PositionState, long_signal, Digest, StrategyDecision}
use kraken_knight.Backtest.Types.{
  DrawdownPolicyMode, disabled, cooldown_rearm, RiskEventType, BacktestConfig,
}

-- The variables that the loop carries; `RiskState` is their last value.
pub record RiskState : Type 0 where
  pub high_water_equity : Decimal
  pub drawdown_disarmed : Bool
  pub drawdown_disarmed_at : Option Instant
  pub drawdown_rearm_eligible_at : Option Instant
  pub last_drawdown_rearmed_at : Option Instant
  pub risk_epoch : ℕ
  pub rolling_loss_blocked_until : Option Instant

-- The text of `RiskEvent.action`, as what it is made of.
pub data RiskAction : Type 0 where
  rearm_after_cooldown : ℕ → Decimal → RiskAction
  block_exposure_increases_for_24h : RiskAction
  cooldown_disarm : Instant → ℕ → RiskAction
  persist_disarm : RiskAction
  hold_current_exposure : RiskAction
  completed_forced_liquidation : Decimal → RiskAction
  attempted_volume_capped_forced_liquidation : Decimal → RiskAction
  attempted_partial_forced_liquidation : Decimal → RiskAction

-- An event without its identifier, which is a digest of the other fields.
pub record RiskEvent : Type 0 where
  pub event_type : RiskEventType
  pub observed_at : Instant
  pub strategy_decision_id : Option Digest
  pub equity : Decimal
  pub reference_equity : Decimal
  pub observed_fraction : Decimal
  pub threshold : Decimal
  pub action : RiskAction
  pub risk_epoch : ℕ

-- What the loop knows at an execution candle, before it values the portfolio.
pub record Observation : Type 0 where
  pub signal : Option StrategyDecision
  pub decision_time : Option Instant
  pub observation_time : Instant
  pub required_signal_close_time : Instant
  pub policy_hash : Digest

abbrev pub is_mode_cooldown : DrawdownPolicyMode → Bool
is_mode_cooldown cooldown_rearm = true
is_mode_cooldown m = false

abbrev pub is_mode_disabled : DrawdownPolicyMode → Bool
is_mode_disabled disabled = true
is_mode_disabled m = false

abbrev pub is_long : StrategyDecision → Bool
is_long s = elim s.reason [ long_signal ↦ true | _ ↦ false ]

abbrev holds_btc : StrategyDecision → Bool
holds_btc s = elim s.state [ PositionState.btc ↦ true | PositionState.cash ↦ false ]

abbrev is_at : Option Instant → Instant → Bool
is_at none t = false
is_at (some s) t = s == t

-- `current_causal_long_signal`, given that there is a decision time
unfoldable pub causal_long_signal : Observation → StrategyDecision → Bool
causal_long_signal o s =
    s.usable_data
    && is_long s
    && holds_btc s
    && lt zero_decimal s.target_weight
    && is_at s.signal_close_time o.required_signal_close_time
    && s.policy_hash == o.policy_hash

abbrev pub past : Option Instant → Instant → Bool
past none t = false
past (some s) t = leb s t

-- `can_rearm`, with the signal and the time of the decision that rearms
unfoldable pub rearming :
    BacktestConfig → Observation → Decimal → RiskState → Option (StrategyDecision × Instant)
rearming config o btc risk = elim o.signal [
  | none ↦ none
  | some s ↦ elim o.decision_time [
    | none ↦ none
    | some t ↦
        if is_mode_cooldown config.drawdown_policy_mode
          && risk.drawdown_disarmed
          && eq btc zero_decimal
          && past risk.drawdown_rearm_eligible_at t
          && causal_long_signal o s
        then some (s, t)
        else none
  ]
]

-- The risk state on the way through one candle, with the drawdown and the events so far.
pub record Assessment : Type 0 where
  pub risk : RiskState
  pub drawdown : Decimal
  pub rolling_loss : Decimal
  pub reference_24h : Option Decimal
  pub events : List RiskEvent

-- the new high water and the drawdown from it
unfoldable pub measure_drawdown : Decimal → RiskState → Result Assessment
measure_drawdown equity risk = do
  let high = max risk.high_water_equity equity
  fraction ← equity ⊘ high
  ok (record {
    risk = record risk { high_water_equity = high };
    drawdown = of_ℕ 1 ⊖ fraction;
    rolling_loss = zero_decimal;
    reference_24h = none;
    events = [];
  })

-- A rearm clears the latch, opens an epoch and restarts the high water at the cash.
unfoldable pub rearm :
    BacktestConfig → Decimal → Option (StrategyDecision × Instant) → Assessment → Assessment
rearm config cash none a = a
rearm config cash (some (s, t)) a =
    let epoch = suc a.risk.risk_epoch in
    record a {
      risk = record (a.risk) {
        high_water_equity = cash;
        drawdown_disarmed = false;
        drawdown_disarmed_at = none;
        drawdown_rearm_eligible_at = none;
        last_drawdown_rearmed_at = some t;
        risk_epoch = epoch;
      };
      drawdown = zero_decimal;
      events =
          a.events
          ++ (record {
            event_type = RiskEventType.drawdown_rearmed;
            observed_at = t;
            strategy_decision_id = some s.decision_id;
            equity = cash;
            reference_equity = a.risk.high_water_equity;
            observed_fraction = a.drawdown;
            threshold = config.max_drawdown_threshold;
            action = rearm_after_cooldown epoch cash;
            risk_epoch = epoch;
          }
              ∷ []);
    }

abbrev pub first_by : Instant → List (Instant × Decimal) → Option Decimal
first_by t [] = none
first_by t ((at, equity) ∷ rest) =
    let later = first_by t rest in if leb (at + day) t then some equity else later

-- the latest equity that is at least a day old
unfoldable pub reference_equity_24h : Instant → List (Instant × Decimal) → Option Decimal
reference_equity_24h t observations = first_by t (reverse observations)

unfoldable pub signal_id : Observation → Option Digest
signal_id o = elim o.signal [ none ↦ none | some s ↦ some s.decision_id ]

-- A loss at the threshold blocks increases for a day.
unfoldable pub block_on_loss :
    BacktestConfig → Observation → Decimal → Decimal → Decimal → Assessment → Assessment
block_on_loss config o equity reference loss a =
    if le config.rolling_24h_loss_threshold loss
    then record a {
      rolling_loss = loss;
      risk = record (a.risk) { rolling_loss_blocked_until = some (o.observation_time + day) };
      events =
          a.events
          ++ (record {
            event_type = RiskEventType.rolling_24h_loss_gate;
            observed_at = o.observation_time;
            strategy_decision_id = signal_id o;
            equity = equity;
            reference_equity = reference;
            observed_fraction = loss;
            threshold = config.rolling_24h_loss_threshold;
            action = block_exposure_increases_for_24h;
            risk_epoch = a.risk.risk_epoch;
          }
              ∷ []);
    }
    else record a { rolling_loss = loss }

unfoldable pub rolling_gate :
    BacktestConfig → Observation → Decimal → Option Decimal → Assessment → Result Assessment
rolling_gate config o equity none a = ok a
rolling_gate config o equity (some reference) a =
    if lt zero_decimal reference
    then (do
      fraction ← equity ⊘ reference
      ok (
          block_on_loss config o equity reference (max zero_decimal (of_ℕ 1 ⊖ fraction))
            (record a { reference_24h = some reference })))
    else ok (record a { reference_24h = some reference })

-- A block that has run out is forgotten.
unfoldable pub expire_block : Instant → Assessment → Assessment
expire_block t a =
    if past a.risk.rolling_loss_blocked_until t
    then record a { risk = record (a.risk) { rolling_loss_blocked_until = none } }
    else a

-- The drawdown gate latches.
unfoldable pub disarm : BacktestConfig → Observation → Decimal → Assessment → Assessment
disarm config o equity a =
    if not (is_mode_disabled config.drawdown_policy_mode)
      && not a.risk.drawdown_disarmed
      && le config.max_drawdown_threshold a.drawdown
    then (let eligible = o.observation_time + config.drawdown_rearm_cooldown_days * day in
        let cooldown = is_mode_cooldown config.drawdown_policy_mode in
        record a {
          risk = record (a.risk) {
            drawdown_disarmed = true;
            drawdown_disarmed_at = some o.observation_time;
            drawdown_rearm_eligible_at = if cooldown then some eligible else none;
          };
          events =
              a.events
              ++ (record {
                event_type = RiskEventType.drawdown_disarmed;
                observed_at = o.observation_time;
                strategy_decision_id = signal_id o;
                equity = equity;
                reference_equity = a.risk.high_water_equity;
                observed_fraction = a.drawdown;
                threshold = config.max_drawdown_threshold;
                action =
                    if cooldown then cooldown_disarm eligible a.risk.risk_epoch else persist_disarm;
                risk_epoch = a.risk.risk_epoch;
              }
                  ∷ []);
        })
    else a

-- `exposure_increase_blocked`
unfoldable pub increase_blocked : Instant → RiskState → Bool
increase_blocked t risk = elim risk.rolling_loss_blocked_until [
  | none ↦ false
  | some until ↦ ltb t until
]

-- The whole assessment of one candle, from the snapshot's equity.
unfoldable pub assess_risk :
    BacktestConfig
    → Observation
    → Decimal
    → Decimal
    → Decimal
    → List (Instant × Decimal)
    → RiskState
    → Result Assessment
assess_risk config o cash btc equity observations risk = do
  a ← measure_drawdown equity risk
  b ←
      rolling_gate config o equity (reference_equity_24h o.observation_time observations)
        (rearm config cash (rearming config o btc a.risk) a)
  ok (disarm config o equity (expire_block o.observation_time b))
