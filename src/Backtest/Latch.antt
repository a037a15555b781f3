-- ===== src/Backtest/Latch.antt =====
-- The drawdown latch of `run_backtest` from candle to candle: when it is set, and what clears it.
use kraken_knight.Base.{
  ℕ, ◌+◌, ◌*◌, ◌≡◌, refl, ◌∙◌, inl, inr, Bool, true, false, ◌&&◌, not, Option, none, some, List,
  Bool-cases, Ensures, Ensures-ok, Ensures-bind, Ensures-if,
}
use kraken_knight.Decimals.{Decimal, lt, le, max, ◌⊘◌}
use kraken_knight.Domain.{Instant, day, zero_decimal}
use kraken_knight.Strategy.{StrategyDecision}
use kraken_knight.Backtest.Types.{disabled, BacktestConfig}
use kraken_knight.Backtest.Risk.{
  RiskState, Observation, is_mode_cooldown, is_mode_disabled, past, rearming, Assessment,
  measure_drawdown, rearm, reference_equity_24h, block_on_loss, rolling_gate, expire_block, disarm,
  assess_risk,
}

-- The latch, the time it was set, and the time from which it may be cleared.
pub data IsLatch (config : BacktestConfig) : Bool → Option Instant → Option Instant → Type 0 where
  armed : IsLatch config false none none
  cooling :
      is_mode_cooldown config.drawdown_policy_mode ≡ true
      → (t : Instant)
      → IsLatch config true (some t) (some (t + config.drawdown_rearm_cooldown_days * day))
  latched :
      is_mode_cooldown config.drawdown_policy_mode ≡ false
      → (t : Instant) → IsLatch config true (some t) none

pub record Latch : Type 0 where
  pub disarmed : Bool
  pub at : Option Instant
  pub eligible : Option Instant
  pub epoch : ℕ

abbrev pub latch_of : RiskState → Latch
latch_of risk = record {
  disarmed = risk.drawdown_disarmed;
  at = risk.drawdown_disarmed_at;
  eligible = risk.drawdown_rearm_eligible_at;
  epoch = risk.risk_epoch;
}

abbrev pub IsCoherent : BacktestConfig → Latch → Type 0
IsCoherent config l = IsLatch config l.disarmed l.at l.eligible

-- What a candle does to the latch, in the order of the code.
pub record IsAssessed (config : BacktestConfig) (o : Observation) (cash btc equity : Decimal)
    (risk : RiskState) (out : Assessment) : Type 0 where
  pub measured : Assessment
  pub gated : Assessment
  pub same : latch_of measured.risk ≡ latch_of risk
  pub kept :
      latch_of gated.risk
      ≡ latch_of (rearm config cash (rearming config o btc measured.risk) measured).risk
  pub result : out ≡ disarm config o equity gated

module _ (config : BacktestConfig) (o : Observation) where
  measure-Ensures :
      (equity : Decimal) (risk : RiskState)
      → Ensures (λ a. latch_of a.risk ≡ latch_of risk) (measure_drawdown equity risk)
  unfolding measure_drawdown
  measure-Ensures equity risk =
      Ensures-bind (equity ⊘ max risk.high_water_equity equity) _
        λ fraction divided. Ensures-ok _ refl

  block_on_loss-latch :
      (equity reference loss : Decimal) (a : Assessment)
      → latch_of (block_on_loss config o equity reference loss a).risk ≡ latch_of a.risk
  unfolding block_on_loss
  block_on_loss-latch equity reference loss a =
      elim (Bool-cases (le config.rolling_24h_loss_threshold loss)) [
        | inl b ↦ rw b refl
        | inr b ↦ rw b refl
      ]

  expire_block-latch :
      (t : Instant) (a : Assessment) → latch_of (expire_block t a).risk ≡ latch_of a.risk
  unfolding expire_block
  expire_block-latch t a = elim (Bool-cases (past a.risk.rolling_loss_blocked_until t)) [
    | inl b ↦ rw b refl
    | inr b ↦ rw b refl
  ]

  rolling_gate-latch :
      (equity : Decimal) (reference : Option Decimal) (a : Assessment)
      → Ensures (λ b. latch_of b.risk ≡ latch_of a.risk) (rolling_gate config o equity reference a)
  unfolding rolling_gate
  rolling_gate-latch equity none a = Ensures-ok a refl
  rolling_gate-latch equity (some reference) a =
      Ensures-if (lt zero_decimal reference) _ _
        (λ positive.
          Ensures-bind (equity ⊘ reference) _
            λ fraction divided. Ensures-ok _ (block_on_loss-latch equity reference _ _))
        (λ nothing. Ensures-ok _ refl)

  pub assess_risk-Ensures :
      (cash btc equity : Decimal) (observations : List (Instant × Decimal)) (risk : RiskState)
      → Ensures
          (IsAssessed config o cash btc equity risk)
          (assess_risk config o cash btc equity observations risk)
  unfolding assess_risk
  assess_risk-Ensures cash btc equity observations risk =
      Ensures-bind (measure_drawdown equity risk) _ λ a measured.
        Ensures-bind
          (rolling_gate config o equity (reference_equity_24h o.observation_time observations)
            (rearm config cash (rearming config o btc a.risk) a))
          _
          λ b rolled. Ensures-ok _ (record {
            measured = a;
            gated = expire_block o.observation_time b;
            same = (measure-Ensures equity risk).at a measured;
            kept =
                expire_block-latch o.observation_time b
                ∙ (rolling_gate-latch equity _ _).at b rolled;
            result = refl;
          })

  pub rearm-IsCoherent :
      (cash : Decimal) (by : Option (StrategyDecision × Instant)) (a : Assessment)
      → IsCoherent config (latch_of a.risk)
      → IsCoherent config (latch_of (rearm config cash by a).risk)
  unfolding rearm
  rearm-IsCoherent cash none a h = h
  rearm-IsCoherent cash (some (s, t)) a h = armed

  pub disarm-IsCoherent :
      (equity : Decimal) (a : Assessment)
      → IsCoherent config (latch_of a.risk)
      → IsCoherent config (latch_of (disarm config o equity a).risk)
  unfolding disarm
  disarm-IsCoherent equity a h =
      elim (Bool-cases (
        not (is_mode_disabled config.drawdown_policy_mode)
        && not a.risk.drawdown_disarmed
        && le config.max_drawdown_threshold a.drawdown)) [
          | inr b ↦ rw b h
          | inl b ↦ elim (Bool-cases (is_mode_cooldown config.drawdown_policy_mode)) [
            | inl c ↦ rw (b, c) (cooling c o.observation_time)
            | inr c ↦ rw (b, c) (latched c o.observation_time)
          ]
        ]

  -- A latch that is set stays set, whatever the drawdown.
  pub disarm-disarmed :
      (equity : Decimal) (a : Assessment)
      → a.risk.drawdown_disarmed ≡ true
      → (disarm config o equity a).risk.drawdown_disarmed ≡ true
  unfolding disarm
  disarm-disarmed equity a h =
      elim (Bool-cases (
        not (is_mode_disabled config.drawdown_policy_mode)
        && not a.risk.drawdown_disarmed
        && le config.max_drawdown_threshold a.drawdown)) [ inl b ↦ rw b refl | inr b ↦ rw b h ]

  -- Where the mode is disabled, the latch is left alone.
  pub disarm-disabled :
      (equity : Decimal) (a : Assessment)
      → config.drawdown_policy_mode ≡ disabled
      → disarm config o equity a ≡ a
  unfolding disarm
  disarm-disabled equity a h = rw h refl
