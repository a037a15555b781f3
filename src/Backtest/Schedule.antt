-- ===== src/Backtest/Schedule.antt =====
-- The references of the precise path: which are constructed, and which are indexed.
use kraken_knight.Base.{
  zero, suc, ◌+◌, ◌%◌, ◌≤◌, ◌<◌, ◌≡◌, true, false, not, List, [], ◌∷◌, map, arith, ltb, ◌==◌,
  ltb→le, length, any, ℤ, pos, negsuc, value_error, ok, Ensures, Ensures-ok, Ensures-bind,
  Ensures-raise_if, Ensures-map,
}
use kraken_knight.Decimals.{lt, le, gt_of_not_le}
use kraken_knight.Domain.{
  Number, to_decimal, Instant, minute, Datetime, Candle, require_utc, zero_decimal,
}
use kraken_knight.Backtest.Types.{BacktestConfig}
use kraken_knight.Backtest.References.{
  ExecutionReference, precise_execution_window, checked_time, positive_count, make_reference,
  scheduled, but_last, decided_at, index_from, index_precise_execution_references,
}

-- Evidence inside the window after its decision, with a price and a volume.
pub record IsEvidence (r : ExecutionReference) : Type 0 where
  pub not_before : r.decision_time ≤ r.execution_time
  pub in_window : r.execution_time ≤ r.decision_time + precise_execution_window
  pub decided_on_minute : r.decision_time % minute ≡ 0
  pub executed_on_minute : r.execution_time % minute ≡ 0
  pub price_pos : lt zero_decimal r.reference_price ≡ true
  pub volume_pos : lt zero_decimal r.volume_btc ≡ true
  pub traded : 0 < r.trade_count

checked_time-Ensures : (t : Datetime) → Ensures (λ i. i % minute ≡ 0) (checked_time t)
unfolding checked_time
checked_time-Ensures t =
    Ensures-bind (require_utc t (value_error "must be timezone-aware UTC")) _ λ i utc.
      Ensures-raise_if (not (i % minute == 0)) _ _ λ aligned. Ensures-ok i (ground (arith, aligned))

positive_count-Ensures : (z : ℤ) → Ensures (λ n. 0 < n) (positive_count z)
positive_count-Ensures (pos (suc n)) = Ensures-ok (suc n) (omega arith)
positive_count-Ensures (pos zero) = record { at = λ n e. absurd (ground arith) }
positive_count-Ensures (negsuc n) = record { at = λ m e. absurd (ground arith) }

make_reference-Ensures :
    (decided executed : Datetime) (price volume : Number) (count : ℤ)
    → Ensures IsEvidence (make_reference decided executed price volume count)
unfolding make_reference
make_reference-Ensures decided executed price volume count =
    Ensures-bind (checked_time decided) _ λ d d_checked.
      Ensures-bind (checked_time executed) _ λ e e_checked.
        Ensures-raise_if (ltb e d) _ _ λ ordered.
          Ensures-raise_if (ltb (d + precise_execution_window) e) _ _ λ recent.
            Ensures-bind (to_decimal price "reference_price") _ λ p p_read.
              Ensures-bind (to_decimal volume "volume_btc") _ λ v v_read.
                Ensures-raise_if (le p zero_decimal) _ _ λ p_pos.
                  Ensures-raise_if (le v zero_decimal) _ _ λ v_pos.
                    Ensures-bind (positive_count count) _ λ n counted. Ensures-ok _ (record {
                      not_before = ltb→le e d ordered;
                      in_window = ltb→le (d + precise_execution_window) e recent;
                      decided_on_minute = (checked_time-Ensures decided).at d d_checked;
                      executed_on_minute = (checked_time-Ensures executed).at e e_checked;
                      price_pos = gt_of_not_le p zero_decimal p_pos;
                      volume_pos = gt_of_not_le v zero_decimal v_pos;
                      traded = (positive_count-Ensures count).at n counted;
                    })

-- A reference is constructed only from two UTC minutes, the execution no earlier than the decision
-- and no later than five minutes after it, with a positive price, volume and number of trades.
pub make_reference-IsEvidence :
    (decided executed : Datetime) (price volume : Number) (count : ℤ) (r : ExecutionReference)
    → make_reference decided executed price volume count ≡ ok r
    → IsEvidence r
make_reference-IsEvidence decided executed price volume count r e =
    (make_reference-Ensures decided executed price volume count).at r e

-- References of scheduled decisions, each decision at most once.
abbrev pub IsIndex : List Instant → List ExecutionReference → Type 0
IsIndex expected [] = Unit {0}
IsIndex expected (r ∷ rs) =
    (any (λ t. decided_at t r) expected ≡ true)
    × (any (decided_at r.decision_time) rs ≡ false)
    × IsIndex expected rs

index_from-Ensures :
    (expected : List Instant) (indexed references : List ExecutionReference)
    → IsIndex expected indexed
    → Ensures
        (λ out. IsIndex expected out × (length out ≡ length indexed + length references))
        (index_from expected indexed references)
unfolding index_from
index_from-Ensures expected indexed [] h = Ensures-ok indexed (h, omega arith)
index_from-Ensures expected indexed (r ∷ rs) h =
    Ensures-raise_if (not (any (λ t. decided_at t r) expected)) _ _ λ known.
      Ensures-raise_if (any (decided_at r.decision_time) indexed) _ _ λ unique.
        Ensures-map _ (λ out p. (p.0, omega (arith, p.1)))
          (index_from-Ensures expected (r ∷ indexed) rs (ground (arith, known), unique, h))

-- An index that is built has as many entries as there are references, each of them for a decision
-- that a candle before the last one schedules, and no decision twice.
pub index_precise_execution_references-IsIndex :
    (candles : List Candle) (config : BacktestConfig) (references indexed : List ExecutionReference)
    → index_precise_execution_references candles config references ≡ ok indexed
    → IsIndex (map (scheduled config) (but_last candles)) indexed
      × (length indexed ≡ length references)
unfolding index_precise_execution_references
index_precise_execution_references-IsIndex candles config references indexed e =
    let (index, size) =
      (index_from-Ensures (map (scheduled config) (but_last candles)) [] references tt).at indexed
        e in
    (index, omega (arith, size))
