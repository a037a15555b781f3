-- ===== src/MarketData/Freshness.antt =====
-- When a batch is fresh enough for a daily decision.
use kraken_knight.Base.{
  ℕ, ◌+◌, ◌-◌, ◌*◌, ◌/◌, ◌%◌, ◌≤◌, ◌<◌, ◌≡◌, ◌≢◌, ◌↔◌, true, none, some, [], ◌∷◌, ◌++◌, arith,
  get_last?, ℤ, ok,
}
use kraken_knight.Domain.{Candle, Datetime, naive, zoned, day}
use kraken_knight.MarketData.{
  KrakenOhlcBatch, validate_daily_sequence, check_clock, validate_batch_freshness,
  minimum_completion_delay,
}
use kraken_knight.MarketData.Sequence.{OpensDaily, first_open, validate_daily_sequence_contiguous}

-- The window of a decision: the latest candle closed, the delay has passed, a day has not.
pub record IsFresh (batch : KrakenOhlcBatch) (latest : Candle) (evaluated_at delay age : ℕ)
    : Type 0 where
  pub daily :
      OpensDaily
        (first_open (batch.completed ++ batch.mutable_tail ∷ []))
        (batch.completed ++ batch.mutable_tail ∷ [])
  pub observed : batch.observed_at ≤ evaluated_at
  pub recent : evaluated_at ≤ batch.observed_at + age
  pub tail_follows : batch.mutable_tail.open_time ≡ latest.open_time + day
  pub not_early : latest.open_time + day + delay ≤ evaluated_at
  pub not_late : evaluated_at < latest.open_time + day + delay + day

check_clock_iff :
    (latest tail : Candle) (o e delay age : ℕ)
    → (check_clock latest tail o e delay age ≡ ok tt) ↔ (
        (o ≤ e)
        × (e ≤ o + age)
        × (tail.open_time ≡ latest.open_time + day)
        × (latest.open_time + day + delay ≤ e)
        × (e < latest.open_time + day + delay + day))
unfolding check_clock
check_clock_iff latest tail o e delay age = (λ h. ground arith, λ h. ground arith)

-- A batch with a latest completed candle passes exactly when it is fresh: the candles open daily
-- up to the mutable tail, the observation is neither in the future nor older than the limit, and
-- the evaluation falls into the day that begins at the delay after the close.
pub validate_batch_freshness_iff :
    (batch : KrakenOhlcBatch) (offset : ℤ) (evaluated_at delay age : ℕ) (latest : Candle)
    → get_last? batch.completed ≡ some latest
    → (validate_batch_freshness batch (zoned offset evaluated_at) delay age ≡ ok tt)
      ↔ IsFresh batch latest evaluated_at delay age
unfolding validate_batch_freshness
validate_batch_freshness_iff batch offset e delay age latest last =
    let cs = batch.completed ++ batch.mutable_tail ∷ [] in
    let (f, g) = validate_daily_sequence_contiguous cs in
    let (f', g') = check_clock_iff latest batch.mutable_tail batch.observed_at e delay age in
    (
      λ h.
          let v : validate_daily_sequence cs true ≡ ok tt = ground arith in
          let k : check_clock latest batch.mutable_tail batch.observed_at e delay age ≡ ok tt =
            ground arith in
          let (observed, recent, follows, not_early, not_late) = f' k in
          record {
            daily = f v;
            observed = observed;
            recent = recent;
            tail_follows = follows;
            not_early = not_early;
            not_late = not_late;
          },
      λ h.
          let v = g h.daily in
          let k = g' (h.observed, h.recent, h.tail_follows, h.not_early, h.not_late) in
          ground (arith, v, k),
    )

-- With no completed candle, or an evaluation time without a zone, a batch is refused.
pub validate_batch_freshness_refuses :
    (batch : KrakenOhlcBatch) (t : Datetime) (delay age : ℕ)
    → get_last? batch.completed ≡ none
    → validate_batch_freshness batch t delay age ≢ ok tt
unfolding validate_batch_freshness
validate_batch_freshness_refuses batch (naive t) delay age last = λ h. cc
validate_batch_freshness_refuses batch (zoned offset t) delay age last = λ h. ground arith

-- Every batch that passes, with the standard delay, at the same time has the same latest day, and
-- the time alone determines it: one strategy date to each period from 00:15 to 00:15.
pub fresh_date :
    (batch : KrakenOhlcBatch) (offset : ℤ) (evaluated_at age : ℕ) (latest : Candle)
    → get_last? batch.completed ≡ some latest
    → latest.open_time % day ≡ 0
    → validate_batch_freshness batch (zoned offset evaluated_at) minimum_completion_delay age
      ≡ ok tt
    → latest.open_time + day ≡ (evaluated_at - minimum_completion_delay) / day * day
fresh_date batch offset e age latest last midnight passed =
    let fresh =
      (validate_batch_freshness_iff batch offset e minimum_completion_delay age latest last).0
        passed in
    omega (arith, fresh.not_early, fresh.not_late)
