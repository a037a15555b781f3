-- ===== src/Backtest/Rearm.antt =====
-- What `run_backtest` makes of the drawdown latch at one candle.
use kraken_knight.Base.{
  ◌+◌, ◌*◌, ◌≤◌, ◌≡◌, refl, sym, ap, ◌∙◌, subst, inl, inr, Bool, true, false, Option, none, some,
  List, arith, leb→le, Option-cases, ok,
}
use kraken_knight.Decimals.{Decimal, eq}
use kraken_knight.Domain.{Instant, day, zero_decimal}
use kraken_knight.Strategy.{StrategyDecision}
use kraken_knight.Backtest.Types.{disabled, BacktestConfig}
use kraken_knight.Backtest.Risk.{
  RiskState, Observation, is_mode_cooldown, causal_long_signal, past, rearming, Assessment, rearm,
  assess_risk,
}
use kraken_knight.Backtest.Latch.{
  IsLatch, armed, cooling, latched, latch_of, IsCoherent, IsAssessed, assess_risk-Ensures,
  rearm-IsCoherent, disarm-IsCoherent, disarm-disarmed, disarm-disabled,
}

-- What allows a decision to clear the latch.
record MayRearm (config : BacktestConfig) (o : Observation) (btc : Decimal) (risk : RiskState)
    (s : StrategyDecision) (t : Instant) : Type 0 where
  pub decided_at : o.decision_time ≡ some t
  pub signalled : o.signal ≡ some s
  pub cooldown : is_mode_cooldown config.drawdown_policy_mode ≡ true
  pub flat : eq btc zero_decimal ≡ true
  pub eligible : past risk.drawdown_rearm_eligible_at t ≡ true
  pub causal : causal_long_signal o s ≡ true

rearming-MayRearm :
    (config : BacktestConfig) (o : Observation) (btc : Decimal) (risk : RiskState)
    (s : StrategyDecision) (t : Instant)
    → rearming config o btc risk ≡ some (s, t)
    → MayRearm config o btc risk s t
unfolding rearming
rearming-MayRearm config o btc risk s t h = record {
  decided_at = ground arith;
  signalled = ground arith;
  cooldown = ground arith;
  flat = ground arith;
  eligible = ground arith;
  causal = ground arith;
}

rearm-armed :
    (config : BacktestConfig) (cash : Decimal) (by : Option (StrategyDecision × Instant))
    (a : Assessment)
    → a.risk.drawdown_disarmed ≡ false
    → (rearm config cash by a).risk.drawdown_disarmed ≡ false
unfolding rearm
rearm-armed config cash none a h = h
rearm-armed config cash (some (s, t)) a h = refl

-- A candle keeps the latch coherent: an armed account has no time of disarming, and a disarmed
-- one has it, with the time from which it may rearm the configured days later in the cooldown
-- mode, and never in another mode.
pub assess_risk-IsCoherent :
    (config : BacktestConfig) (o : Observation) (cash btc equity : Decimal)
    (observations : List (Instant × Decimal)) (risk : RiskState) (out : Assessment)
    → IsCoherent config (latch_of risk)
    → assess_risk config o cash btc equity observations risk ≡ ok out
    → IsCoherent config (latch_of out.risk)
assess_risk-IsCoherent config o cash btc equity observations risk out h e =
    let did = (assess_risk-Ensures config o cash btc equity observations risk).at out e in
    let before = subst (IsCoherent config) (sym did.same) h in
    let middle =
      rearm-IsCoherent config o cash (rearming config o btc did.measured.risk) did.measured
        before in
    let after =
      disarm-IsCoherent config o equity did.gated
        (subst (IsCoherent config) (sym did.kept) middle) in
    subst (λ a. IsCoherent config (latch_of a.risk)) (sym did.result) after

-- In the disabled mode an armed account stays armed, whatever the drawdown.
pub assess_risk_disabled :
    (config : BacktestConfig) (o : Observation) (cash btc equity : Decimal)
    (observations : List (Instant × Decimal)) (risk : RiskState) (out : Assessment)
    → config.drawdown_policy_mode ≡ disabled
    → risk.drawdown_disarmed ≡ false
    → assess_risk config o cash btc equity observations risk ≡ ok out
    → out.risk.drawdown_disarmed ≡ false
assess_risk_disabled config o cash btc equity observations risk out mode h e =
    let did = (assess_risk-Ensures config o cash btc equity observations risk).at out e in
    ap (λ a. a.risk.drawdown_disarmed) (did.result ∙ disarm-disabled config o equity did.gated mode)
    ∙ ap (λ l. l.disarmed) did.kept
    ∙ rearm-armed config cash (rearming config o btc did.measured.risk) did.measured
        (ap (λ l. l.disarmed) did.same ∙ h)

-- A latch that a candle clears was set long enough ago, by the time of the decision.
cooled :
    (config : BacktestConfig) (disarmed : Bool) (at eligible : Option Instant) (t : Instant)
    → IsLatch config disarmed at eligible
    → disarmed ≡ true
    → past eligible t ≡ true
    → (since : Instant) × (at ≡ some since)
      × (since + config.drawdown_rearm_cooldown_days * day ≤ t)
cooled config _ _ _ t armed disarmed late = absurd (ground (arith, disarmed))
cooled config _ _ _ t (cooling mode since) disarmed late =
    (since, refl, leb→le (since + config.drawdown_rearm_cooldown_days * day) t late)
cooled config _ _ _ t (latched mode since) disarmed late = absurd (ground (arith, late))

-- The clause of `rearm` that does nothing leaves the latch set.
unrearmed :
    (config : BacktestConfig) (o : Observation) (cash btc equity : Decimal) (risk : RiskState)
    (out : Assessment) (did : IsAssessed config o cash btc equity risk out)
    → rearming config o btc did.measured.risk ≡ none
    → risk.drawdown_disarmed ≡ true
    → out.risk.drawdown_disarmed ≡ true
unfolding rearm
unrearmed config o cash btc equity risk out did idle h =
    let kept : latch_of did.gated.risk ≡ latch_of did.measured.risk =
      did.kept ∙ ap (λ by. latch_of (rearm config cash by did.measured).risk) idle in
    ap (λ a. a.risk.drawdown_disarmed) did.result
    ∙ disarm-disarmed config o equity did.gated (ap (λ l. l.disarmed) (kept ∙ did.same) ∙ h)

-- A candle that clears a coherent latch does so in the cooldown mode, with no BTC held, on a
-- decision of the current causal long signal, made at least the configured days after the account
-- was disarmed.
pub assess_risk_rearmed :
    (config : BacktestConfig) (o : Observation) (cash btc equity : Decimal)
    (observations : List (Instant × Decimal)) (risk : RiskState) (out : Assessment)
    → IsCoherent config (latch_of risk)
    → risk.drawdown_disarmed ≡ true
    → assess_risk config o cash btc equity observations risk ≡ ok out
    → out.risk.drawdown_disarmed ≡ false
    → (s : StrategyDecision) × (t since : Instant) × (o.signal ≡ some s)
      × (o.decision_time ≡ some t)
      × (is_mode_cooldown config.drawdown_policy_mode ≡ true)
      × (eq btc zero_decimal ≡ true)
      × (causal_long_signal o s ≡ true)
      × (risk.drawdown_disarmed_at ≡ some since)
      × (since + config.drawdown_rearm_cooldown_days * day ≤ t)
assess_risk_rearmed config o cash btc equity observations risk out h disarmed e clear =
    let did = (assess_risk-Ensures config o cash btc equity observations risk).at out e in
    elim (Option-cases (rearming config o btc did.measured.risk)) [
      | inl idle ↦
          let still = unrearmed config o cash btc equity risk out did idle disarmed in
          absurd (ground (arith, still, clear))
      | inr ((s, t), found) ↦
          let may = rearming-MayRearm config o btc did.measured.risk s t found in
          let late = ap (λ l. past l.eligible t) (sym did.same) ∙ may.eligible in
          let (since, at, waited) = cooled config _ _ _ t h disarmed late in
          (
            s, t, since, may.signalled, may.decided_at, may.cooldown, may.flat, may.causal, at,
            waited,
          )
    ]
