-- ===== src/Strategy/Tests.antt =====
-- A rising market under a policy with short windows, with whole numbers for floats.
use kraken_knight.Base.{
  ℕ, suc, ◌+◌, ◌*◌, ◌%◌, ◌≤◌, ◌≡◌, refl, true, some, List, [], ◌∷◌, ◌++◌, arith, ltb, ltb→lt,
  length, All, ◌+ℤ◌, ◌-ℤ◌, ok,
}
use kraken_knight.Decimals.{of_ℕ, literal, lt, le, arithmetic}
use kraken_knight.Domain.{day, Candle, zero_decimal}
use mathlib.Core.Option
use kraken_knight.Strategy.Causal.{assess-append}
use kraken_knight.Strategy.Table.{Agrees, assess-Agrees}
use kraken_knight.Domain.Candles.{IsWellFormed}
use kraken_knight.Strategy.{
  prepend, log_returns, annualize, usable_volatility, measure, rejected, classify, assess_history,
  assess, PositionState, invalid_sequence, long_signal, StrategyPolicy, Outcome, Floats,
  minimum_history,
}
use kraken_knight.Strategy.Total.{
  IsValidPolicy, IsModerate, PositiveText, AreFloats, Decides, assess-Decides,
}

abbrev policy : StrategyPolicy
policy = record {
  momentum_days = 1;
  trend_days = 2;
  volatility_days = 2;
  annualization_days = 365;
  volatility_target = literal 1 1;
  max_weight = literal 25 2;
}

-- numbers in place of bit patterns
abbrev floats : Floats
floats = record {
  of_decimal = λ d. some d.coefficient;
  log = λ x. some (suc x);
  stdev = λ xs. ok (some (length xs));
  sqrt = λ n. some n;
  times = λ x y. x * y;
  is_finite = λ x. true;
  is_positive = λ x. ltb 0 x;
  to_text_decimal = λ x. of_ℕ x;
}

abbrev candle : ℕ → ℕ → Candle
candle n close = record {
  open_time = (738000 + n) * day;
  opening = of_ℕ 100;
  high = of_ℕ 150;
  low = of_ℕ 90;
  close = of_ℕ close;
  volume = of_ℕ 7;
  complete = true;
}

abbrev history : List Candle
history = candle 0 100 ∷ candle 1 110 ∷ candle 2 120 ∷ []

candle-IsWellFormed :
    (n c : ℕ)
    → (candle n c).open_time % day ≡ 0
    → lt zero_decimal (of_ℕ c) ≡ true
    → le (of_ℕ 90) (of_ℕ c) ≡ true
    → le (of_ℕ c) (of_ℕ 150) ≡ true
    → IsWellFormed (candle n c)
unfolding arithmetic
candle-IsWellFormed n c midnight positive above below = record {
  midnight = midnight;
  opening_pos = refl;
  high_pos = refl;
  low_pos = refl;
  close_pos = positive;
  volume_nonneg = refl;
  low-le-high = refl;
  low-le-opening = refl;
  opening-le-high = refl;
  low-le-close = above;
  close-le-high = below;
}

history-IsWellFormed : All IsWellFormed history
unfolding arithmetic
history-IsWellFormed = (
  candle-IsWellFormed 0 100 refl refl refl refl,
  (
    candle-IsWellFormed 1 110 refl refl refl refl,
    (candle-IsWellFormed 2 120 refl refl refl refl, tt),
  ),
)

floats-PositiveText : PositiveText floats
floats-PositiveText x is_real positive = (refl, ltb→lt 0 x positive)

floats-AreFloats : AreFloats floats
floats-AreFloats = record {
  text_pos = floats-PositiveText;
  quotient_finite = λ x y q v hx hy divided e. refl;
  log_finite = λ x v h e. refl;
  stdev_returns = λ xs h. (some (length xs), refl);
}

target-IsModerate : IsModerate policy.volatility_target
unfolding arithmetic
target-IsModerate = (refl, refl)

history-IsModerate : All (λ (c : Candle). IsModerate c.close) history
unfolding arithmetic
history-IsModerate = ((refl, refl), ((refl, refl), ((refl, refl), tt)))

policy-IsValidPolicy : IsValidPolicy policy
policy-IsValidPolicy = record {
  momentum_pos = omega arith;
  trend_pos = omega arith;
  volatility_pos = omega arith;
  target_pos = (refl, omega arith);
  weight_pos = (refl, omega arith);
}

abbrev rising : Outcome
rising = record {
  signal_open_time = some ((738000 + 2) * day);
  signal_close_time = some ((738000 + 3) * day);
  state = PositionState.btc;
  target_weight = literal 1369863013698630136986301370 31;
  reason = long_signal;
  usable_data = true;
  close = some (of_ℕ 120);
  momentum = some (literal 90909090909090909090909091 27);
  sma = some (of_ℕ 115);
  annualized_volatility = some (of_ℕ 730);
}

history_rises : assess floats policy history ≡ ok rising
unfolding assess assess_history minimum_history measure classify log_returns prepend
    usable_volatility annualize arithmetic ◌+ℤ◌ Option.bind ◌-ℤ◌
history_rises = refl

-- a missing day
gap_rejected :
    assess floats policy (candle 0 100 ∷ candle 1 110 ∷ candle 3 120 ∷ [])
    ≡ ok (rejected (some (candle 3 120)) invalid_sequence)
unfolding assess assess_history minimum_history measure classify log_returns prepend
    usable_volatility annualize arithmetic
gap_rejected = refl

history_enough : minimum_history policy ≤ length history
unfolding minimum_history
history_enough = omega arith

assess-append_example :
    assess floats policy ((candle 9 5 ∷ []) ++ history) ≡ assess floats policy history
assess-append_example = assess-append floats policy (candle 9 5 ∷ []) history history_enough

assess-Agrees_example : Agrees policy long_signal rising
assess-Agrees_example = assess-Agrees floats policy history rising history_rises

assess-Decides_example : Decides (assess floats policy history)
assess-Decides_example =
    assess-Decides floats policy history policy-IsValidPolicy target-IsModerate floats-AreFloats
      history-IsWellFormed history-IsModerate
