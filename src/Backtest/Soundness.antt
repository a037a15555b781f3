-- ===== src/Backtest/Soundness.antt =====
-- What a whole run keeps: holdings that are not negative, and a coherent latch.
use kraken_knight.Base.{
  ℕ, suc, ◌≡◌, ap, ◌∙◌, inl, inr, false, Option, none, some, List, [], ◌∷◌, Option-cases, drop, ok,
  Ensures, Ensures-ok, Ensures-bind,
}
use kraken_knight.Decimals.{Decimal, lt, lt_irrefl}
use kraken_knight.Domain.{Instant, Candle, zero_decimal}
use kraken_knight.Strategy.{StrategyPolicy, Digest, StrategyDecision, Digests, Floats}
use kraken_knight.Backtest.Types.{TradeSide, BacktestConfig, Trade, ContentIds}
use kraken_knight.Backtest.Pricing.{portfolio_snapshot}
use kraken_knight.Backtest.Sizing.{Rebalance}
use kraken_knight.Backtest.Execution.{Execution, execute_rebalance}
use kraken_knight.Backtest.Holdings.{Accounts}
use kraken_knight.Backtest.Gates.{execute_rebalance-Accounts}
use kraken_knight.Backtest.Risk.{Observation, Assessment, assess_risk}
use kraken_knight.Backtest.Latch.{armed, latch_of, IsCoherent}
use kraken_knight.Backtest.Rearm.{assess_risk-IsCoherent}
use kraken_knight.Backtest.Run.{
  Replay, record_execution, request, trade_day, close_day, replay_day, known_signal, replay_from,
  first_replay, run_backtest,
}
use kraken_knight.Backtest.References.{validate_backtest_candles}

pub record IsSound (config : BacktestConfig) (st : Replay) : Type 0 where
  pub cash_nonneg : lt st.cash zero_decimal ≡ false
  pub btc_nonneg : lt st.btc zero_decimal ≡ false
  pub coherent : IsCoherent config (latch_of st.risk)

-- Holdings that are not negative before a rebalance are not negative after it.
Accounts-nonneg :
    (r : Rebalance) (side : TradeSide) (e : Execution) (trade : Option Trade)
    → lt r.cash zero_decimal ≡ false
    → lt r.btc zero_decimal ≡ false
    → Accounts r side e trade
    → (lt e.cash zero_decimal ≡ false) × (lt e.btc zero_decimal ≡ false)
Accounts-nonneg r side e none c b (cash_kept, btc_kept, untraded) =
    (ap (λ x. lt x zero_decimal) cash_kept ∙ c, ap (λ x. lt x zero_decimal) btc_kept ∙ b)
Accounts-nonneg r side e (some t) c b h = (h.cash_nonneg, h.btc_nonneg)

module _ (ids : ContentIds) (config : BacktestConfig) where
  record_execution-IsSound :
      (o : Observation) (a : Assessment) (equity : Decimal) (st : Replay) (e : Execution)
      → IsSound config st
      → lt e.cash zero_decimal ≡ false
      → lt e.btc zero_decimal ≡ false
      → IsSound config (record_execution config o a equity st e)
  unfolding record_execution
  record_execution-IsSound o a equity st e h c b = elim (Option-cases e.trade) [
    | inl n ↦ rw n (record { cash_nonneg = c; btc_nonneg = b; coherent = h.coherent })
    | inr (t, n) ↦ rw n (record { cash_nonneg = c; btc_nonneg = b; coherent = h.coherent })
  ]

  trade_day-Ensures :
      (o : Observation) (a : Assessment) (price equity : Decimal) (st : Replay)
      (known : Option (StrategyDecision × Instant))
      → IsSound config st
      → Ensures (IsSound config) (trade_day ids config o a price equity st known)
  unfolding trade_day request
  trade_day-Ensures o a price equity st none h = Ensures-ok st h
  trade_day-Ensures o a price equity st (some (s, t)) h =
      let r = request config o a price st s t in
      Ensures-bind (execute_rebalance ids r) _ λ e executed.
        let (side, accounts) = execute_rebalance-Accounts ids r e executed in
        let (c, b) = Accounts-nonneg r side e e.trade h.cash_nonneg h.btc_nonneg accounts in
        Ensures-ok _ (record_execution-IsSound o a equity st e h c b)

  close_day-Ensures :
      (o : Observation) (price : Decimal) (candle : Candle) (st : Replay)
      → IsSound config st
      → Ensures (IsSound config) (close_day config o price candle st)
  unfolding close_day
  close_day-Ensures o price candle st h =
      Ensures-bind (portfolio_snapshot st.cash st.btc price config.costs config.instrument_rules) _
        λ post p.
          Ensures-bind
            (portfolio_snapshot st.cash st.btc candle.close config.costs config.instrument_rules) _
            λ closing q. Ensures-ok _ (record {
              cash_nonneg = h.cash_nonneg;
              btc_nonneg = h.btc_nonneg;
              coherent = h.coherent;
            })

  replay_day-Ensures :
      (policy_hash : Digest) (st : Replay) (candle : Candle)
      (known : Option (StrategyDecision × Instant))
      → IsSound config st
      → Ensures (IsSound config) (replay_day ids config policy_hash st candle known)
  unfolding replay_day
  replay_day-Ensures policy_hash st candle known h =
      Ensures-bind
        (portfolio_snapshot st.cash st.btc candle.opening config.costs config.instrument_rules) _
        λ snapshot p.
          Ensures-bind
            (assess_risk config _ st.cash st.btc snapshot.equity st.risk_observations st.risk) _
            λ a assessed.
              let coherent =
                assess_risk-IsCoherent config _ st.cash st.btc snapshot.equity st.risk_observations
                  st.risk a h.coherent assessed in
              Ensures-bind (trade_day ids config _ a candle.opening snapshot.equity _ known) _
                λ traded q. close_day-Ensures _ candle.opening candle traded (
                  (trade_day-Ensures _ a candle.opening snapshot.equity _ known (record {
                    cash_nonneg = h.cash_nonneg;
                    btc_nonneg = h.btc_nonneg;
                    coherent = coherent;
                  })).at
                    traded q)

module _ (floats : Floats) (digests : Digests) (ids : ContentIds) (policy : StrategyPolicy)
    (config : BacktestConfig) (candles : List Candle) where
  replay_from-Ensures :
      (index : ℕ) (rest : List Candle) (st : Replay)
      → IsSound config st
      → Ensures
          (IsSound config)
          (replay_from floats digests ids policy config candles index rest st)
  unfolding replay_from
  replay_from-Ensures index [] st h = Ensures-ok st h
  replay_from-Ensures index (candle ∷ rest) st h =
      Ensures-bind (known_signal floats digests policy config candles index) _ λ known found.
        Ensures-bind (replay_day ids config (digests.fingerprint policy) st candle known) _
          λ next replayed. replay_from-Ensures (suc index) rest next (
            (replay_day-Ensures ids config (digests.fingerprint policy) st candle known h).at next
              replayed)

  first_replay-Ensures :
      (c : Candle)
      → lt config.initial_cash zero_decimal ≡ false
      → Ensures (IsSound config) (first_replay floats digests ids policy config candles c)
  unfolding first_replay
  first_replay-Ensures c funded =
      Ensures-bind
        (portfolio_snapshot config.initial_cash zero_decimal c.close config.costs
          config.instrument_rules)
        _
        λ snapshot p.
          Ensures-ok _
            (record { cash_nonneg = funded; btc_nonneg = lt_irrefl zero_decimal; coherent = armed })

  run_backtest-Ensures :
      lt config.initial_cash zero_decimal ≡ false
      → Ensures (IsSound config) (run_backtest floats digests ids policy config candles)
  unfolding run_backtest
  run_backtest-Ensures funded = Ensures-bind (validate_backtest_candles candles) _ λ u valid.
      Ensures-bind _ _ λ c first.
        Ensures-bind (first_replay floats digests ids policy config candles c) _ λ st started.
          replay_from-Ensures 1 (drop 1 candles) st ((first_replay-Ensures c funded).at st started)

-- A whole replay that returns, from initial cash that is not negative, ends with holdings that are
-- not negative and a coherent latch, whatever the candles, the policy and the floats.
pub run_backtest-IsSound :
    (floats : Floats) (digests : Digests) (ids : ContentIds) (policy : StrategyPolicy)
    (config : BacktestConfig) (candles : List Candle) (st : Replay)
    → lt config.initial_cash zero_decimal ≡ false
    → run_backtest floats digests ids policy config candles ≡ ok st
    → IsSound config st
run_backtest-IsSound floats digests ids policy config candles st funded h =
    (run_backtest-Ensures floats digests ids policy config candles funded).at st h
