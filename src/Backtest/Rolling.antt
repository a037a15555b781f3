-- ===== src/Backtest/Rolling.antt =====
-- The rolling loss gate of `run_backtest`: when it stops the exposure from growing.
use mathlib.Core.List.{reverse_aux, reverse_aux-append}
use kraken_knight.Base.{
  ◌+◌, ◌≤◌, ◌<◌, ◌≡◌, refl, sym, ap, ◌∙◌, inl, inr, Bool, true, false, ◌&&◌, ◌||◌, not, Option,
  none, some, List, [], ◌∷◌, ◌++◌, reverse, arith, leb, lt→ltb, Bool-cases, All, ok, Ensures,
  Ensures-ok, Ensures-bind, Ensures-if,
}
use kraken_knight.Decimals.{Decimal, of_ℕ, lt, le, max, ◌⊖◌, ◌⊘◌}
use kraken_knight.Domain.{Instant, day, zero_decimal}
use kraken_knight.Strategy.{StrategyDecision}
use kraken_knight.Backtest.Types.{BacktestConfig}
use kraken_knight.Backtest.Risk.{
  RiskState, Observation, is_mode_disabled, rearming, Assessment, measure_drawdown, rearm, first_by,
  reference_equity_24h, block_on_loss, rolling_gate, expire_block, disarm, increase_blocked,
  assess_risk,
}

-- The observations since a day before do not count: the latest one before them does.
abbrev pub IsRecent : Instant → Instant × Decimal → Type 0
IsRecent t p = t < p.0 + day

first_by-recent :
    (t : Instant) (reference : Decimal) (after older : List (Instant × Decimal))
    → All (IsRecent t) after
    → first_by t older ≡ some reference
    → first_by t (reverse_aux after older) ≡ some reference
first_by-recent t reference [] older h e = e
first_by-recent t reference ((at, equity) ∷ after) older h e =
    let late : leb (at + day) t ≡ false = ground (arith, h.0) in
    first_by-recent t reference after ((at, equity) ∷ older) h.1 (rw late e)

reference_equity_24h_lem :
    (t at : Instant) (reference : Decimal) (before after : List (Instant × Decimal))
    → at + day ≤ t
    → All (IsRecent t) after
    → reference_equity_24h t (before ++ (at, reference) ∷ after) ≡ some reference
unfolding reference_equity_24h
reference_equity_24h_lem t at reference before after old recent =
    let early : leb (at + day) t ≡ true = ground (arith, old) in
    ap (first_by t) (reverse_aux-append before ((at, reference) ∷ after) [])
    ∙ first_by-recent t reference after ((at, reference) ∷ reverse before) recent (rw early refl)

module _ (config : BacktestConfig) (o : Observation) where
  -- the loss since the reference, and the switch that it leaves
  abbrev Gates : Decimal → Decimal → Bool → Assessment → Type 0
  Gates equity reference before a =
      (fraction : Decimal) × (equity ⊘ reference ≡ ok fraction)
      × (a.rolling_loss ≡ max zero_decimal (of_ℕ 1 ⊖ fraction))
      × (increase_blocked o.observation_time a.risk
          ≡ (le config.rolling_24h_loss_threshold (max zero_decimal (of_ℕ 1 ⊖ fraction)) || before))

  measure-same :
      (equity : Decimal) (risk : RiskState)
      → Ensures
          (λ a.
            increase_blocked o.observation_time a.risk ≡ increase_blocked o.observation_time risk)
          (measure_drawdown equity risk)
  unfolding measure_drawdown increase_blocked
  measure-same equity risk =
      Ensures-bind (equity ⊘ max risk.high_water_equity equity) _
        λ fraction divided. Ensures-ok _ refl

  rearm-same :
      (cash : Decimal) (by : Option (StrategyDecision × Instant)) (a : Assessment)
      → increase_blocked o.observation_time (rearm config cash by a).risk
        ≡ increase_blocked o.observation_time a.risk
  unfolding rearm increase_blocked
  rearm-same cash none a = refl
  rearm-same cash (some (s, t)) a = refl

  block_on_loss-gates :
      (equity reference loss : Decimal) (a : Assessment)
      → ((block_on_loss config o equity reference loss a).rolling_loss ≡ loss)
        × (increase_blocked o.observation_time (block_on_loss config o equity reference loss a).risk
            ≡ (le config.rolling_24h_loss_threshold loss
                || increase_blocked o.observation_time a.risk))
  unfolding block_on_loss increase_blocked
  block_on_loss-gates equity reference loss a =
      elim (Bool-cases (le config.rolling_24h_loss_threshold loss)) [
        | inl b ↦ rw b (refl, lt→ltb o.observation_time (o.observation_time + day) (omega arith))
        | inr b ↦ rw b (refl, refl)
      ]

  rolling_gate-Gates :
      (equity reference : Decimal) (a : Assessment)
      → lt zero_decimal reference ≡ true
      → Ensures
          (Gates equity reference (increase_blocked o.observation_time a.risk))
          (rolling_gate config o equity (some reference) a)
  unfolding rolling_gate
  rolling_gate-Gates equity reference a positive =
      Ensures-if (lt zero_decimal reference) _ _
        (λ yes'. Ensures-bind (equity ⊘ reference) _ λ fraction divided.
          let (loss, gate) = block_on_loss-gates equity reference _ _ in
          Ensures-ok _ (fraction, divided, loss, gate))
        (λ nothing. absurd (ground (arith, positive, nothing)))

  expire_block-same :
      (a : Assessment)
      → ((expire_block o.observation_time a).rolling_loss ≡ a.rolling_loss)
        × (increase_blocked o.observation_time (expire_block o.observation_time a).risk
            ≡ increase_blocked o.observation_time a.risk)
  unfolding expire_block increase_blocked
  expire_block-same a = ground arith

  disarm-same :
      (equity : Decimal) (a : Assessment)
      → ((disarm config o equity a).rolling_loss ≡ a.rolling_loss)
        × (increase_blocked o.observation_time (disarm config o equity a).risk
            ≡ increase_blocked o.observation_time a.risk)
  unfolding disarm increase_blocked
  disarm-same equity a =
      elim (Bool-cases (
        not (is_mode_disabled config.drawdown_policy_mode)
        && not a.risk.drawdown_disarmed
        && le config.max_drawdown_threshold a.drawdown)) [
          | inl b ↦ rw b (refl, refl)
          | inr b ↦ rw b (refl, refl)
        ]

  assess_risk-Gates :
      (cash btc equity reference : Decimal) (observations : List (Instant × Decimal))
      (risk : RiskState)
      → reference_equity_24h o.observation_time observations ≡ some reference
      → lt zero_decimal reference ≡ true
      → Ensures
          (Gates equity reference (increase_blocked o.observation_time risk))
          (assess_risk config o cash btc equity observations risk)
  unfolding assess_risk
  assess_risk-Gates cash btc equity reference observations risk found positive =
      Ensures-bind (measure_drawdown equity risk) _ λ a measured.
        let before = (measure-same equity risk).at a measured in
        let rearmed = rearm config cash (rearming config o btc a.risk) a in
        let same = rearm-same cash (rearming config o btc a.risk) a in
        Ensures-bind
          (rolling_gate config o equity (reference_equity_24h o.observation_time observations)
            rearmed)
          _
          λ b rolled.
            let here : rolling_gate config o equity (some reference) rearmed ≡ ok b =
              ap (λ r. rolling_gate config o equity r rearmed) (sym found) ∙ rolled in
            let (fraction, divided, loss, gate) =
              (rolling_gate-Gates equity reference rearmed positive).at b here in
            let c = expire_block o.observation_time b in
            let (loss_c, block_c) = expire_block-same b in
            let (loss_d, block_d) = disarm-same equity c in
            Ensures-ok _ (
              fraction,
              divided,
              loss_d ∙ loss_c ∙ loss,
              block_d
                  ∙ block_c
                  ∙ gate
                  ∙ ap
                      (λ w.
                        le config.rolling_24h_loss_threshold (max zero_decimal (of_ℕ 1 ⊖ fraction))
                        || w)
                      (same ∙ before),
            )

-- The rolling gate, where the day can be compared. Let the latest observation that is at least a
-- day old have a positive equity. Then the loss that is recorded is what the equity lost of it, as a
-- fraction and never below zero, and increases are blocked after the assessment exactly when this
-- loss has reached the threshold, or when an earlier block still runs.
pub assess_risk_blocked :
    (config : BacktestConfig) (o : Observation) (cash btc equity reference : Decimal) (at : Instant)
    (before after : List (Instant × Decimal)) (risk : RiskState) (out : Assessment)
    → at + day ≤ o.observation_time
    → All (IsRecent o.observation_time) after
    → lt zero_decimal reference ≡ true
    → assess_risk config o cash btc equity (before ++ (at, reference) ∷ after) risk ≡ ok out
    → (fraction : Decimal) × (equity ⊘ reference ≡ ok fraction)
      × (out.rolling_loss ≡ max zero_decimal (of_ℕ 1 ⊖ fraction))
      × (increase_blocked o.observation_time out.risk ≡ (
          le config.rolling_24h_loss_threshold (max zero_decimal (of_ℕ 1 ⊖ fraction))
          || increase_blocked o.observation_time risk))
assess_risk_blocked config o cash btc equity reference at before after risk out old recent positive
      e =
    (assess_risk-Gates config o cash btc equity reference (before ++ (at, reference) ∷ after) risk
        (reference_equity_24h_lem o.observation_time at reference before after old recent)
        positive).at
      out e
