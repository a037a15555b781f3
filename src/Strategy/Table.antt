-- ===== src/Strategy/Table.antt =====
-- The decision table: what each reason says of the state, the weight and the measures.
use kraken_knight.Base.{
  ◌≡◌, refl, subst, inl, inr, Bool, true, false, ◌||◌, Option, some, List, arith, ltb, Bool-cases,
  Option-cases, length, last_n, get_last?, any, any_pair, Result, ok, Result-cases,
}
use kraken_knight.Decimals.{Decimal, lt, le, min, ◌⊘◌, gt_of_not_le, min-le_left}
use kraken_knight.Domain.{Candle, zero_decimal}
use kraken_knight.Strategy.{
  Floats, StrategyPolicy, Outcome, Measures, cash, btc, insufficient_history, incomplete_candle,
  invalid_sequence, non_positive_momentum, below_trend, zero_volatility, long_signal,
  minimum_history, assess, assess_history, measure, classify, rejected, measured, incomplete,
  not_next_day, is_incomplete, DecisionReason, closes_of,
}

-- Cash with no weight, for a reason that leaves the data unusable (`usable` false) or not.
abbrev IsCash : Bool → Outcome → Type 0
IsCash usable o = (o.state ≡ cash) × (o.target_weight ≡ zero_decimal) × (o.usable_data ≡ usable)

-- A long position, with its measures on the right side of each test and a weight within the cap.
abbrev IsLong : StrategyPolicy → Outcome → Type 0
IsLong p o =
    (o.state ≡ btc)
    × (o.usable_data ≡ true)
    × (le o.target_weight p.max_weight ≡ true)
    × ((m : Decimal) × (o.momentum ≡ some m) × (lt zero_decimal m ≡ true))
    × ((c : Decimal) × (s : Decimal) × (o.close ≡ some c) × (o.sma ≡ some s) × (lt s c ≡ true))

-- What an outcome has to be, by its reason.
abbrev pub Agrees : StrategyPolicy → DecisionReason → Outcome → Type 0
Agrees p long_signal o = IsLong p o
Agrees p non_positive_momentum o = IsCash true o
Agrees p below_trend o = IsCash true o
Agrees p insufficient_history o = IsCash false o
Agrees p incomplete_candle o = IsCash false o
Agrees p invalid_sequence o = IsCash false o
Agrees p zero_volatility o = IsCash false o

Agrees-ok :
    (p : StrategyPolicy) (o o' : Outcome)
    → ◌≡◌ {A = Result Outcome} (ok o') (ok o)
    → Agrees p o'.reason o'
    → Agrees p o.reason o
Agrees-ok p o o' e h = let same : o' ≡ o = cc in subst (λ x. Agrees p x.reason x) same h

classify-Agrees :
    (p : StrategyPolicy) (signal : Option Candle) (m : Measures) (o : Outcome)
    → classify p signal m ≡ ok o
    → Agrees p o.reason o
unfolding classify
classify-Agrees p signal m o e = elim (Option-cases m.volatility) [
  | inl absent ↦
      Agrees-ok p o (measured signal cash zero_decimal zero_volatility false m zero_decimal)
        (ground arith) (refl, refl, refl)
  | inr (v, present) ↦ elim (Bool-cases (le m.momentum zero_decimal)) [
    | inl falling ↦
        Agrees-ok p o (measured signal cash zero_decimal non_positive_momentum true m v)
          (ground arith) (refl, refl, refl)
    | inr rising ↦ elim (Bool-cases (le m.price m.sma)) [
      | inl below ↦
          Agrees-ok p o (measured signal cash zero_decimal below_trend true m v) (ground arith)
            (refl, refl, refl)
      | inr above ↦ elim (Result-cases (p.volatility_target ⊘ v)) [
        | inr (x, raised) ↦ absurd (ground arith)
        | inl (w, divided) ↦
            Agrees-ok p o (measured signal btc (min p.max_weight w) long_signal true m v)
              (ground arith)
              (
                refl,
                refl,
                min-le_left p.max_weight w,
                (m.momentum, refl, gt_of_not_le m.momentum zero_decimal rising),
                (m.price, m.sma, refl, refl, gt_of_not_le m.price m.sma above),
              )
      ]
    ]
  ]
]

assess_history-Agrees :
    (f : Floats) (p : StrategyPolicy) (signal : Option Candle) (history : List Candle) (o : Outcome)
    → assess_history f p signal history ≡ ok o
    → Agrees p o.reason o
unfolding assess_history
assess_history-Agrees f p signal history o e =
    elim (Bool-cases (any incomplete history || any_pair not_next_day history)) [
      | inl bad ↦ Agrees-ok p o (rejected signal invalid_sequence) (ground arith) (refl, refl, refl)
      | inr good ↦ elim (Result-cases (measure f p (closes_of history))) [
        | inr (x, raised) ↦ absurd (ground arith)
        | inl (m, done) ↦ classify-Agrees p signal m o (ground arith)
      ]
    ]

-- Every outcome agrees with its reason. A position in BTC is taken only for a long signal, which
-- means a positive momentum, a close above the average, and a weight of at most the cap; each
-- other reason gives cash with weight zero, and marks the data unusable unless momentum or trend
-- decided.
pub assess-Agrees :
    (f : Floats) (p : StrategyPolicy) (candles : List Candle) (o : Outcome)
    → assess f p candles ≡ ok o
    → Agrees p o.reason o
unfolding assess
assess-Agrees f p candles o e = elim (Bool-cases (is_incomplete (get_last? candles))) [
  | inl open_candle ↦
      Agrees-ok p o (rejected (get_last? candles) incomplete_candle) (ground arith)
        (refl, refl, refl)
  | inr closed ↦ elim (Bool-cases (ltb (length candles) (minimum_history p))) [
    | inl short ↦
        Agrees-ok p o (rejected (get_last? candles) insufficient_history) (ground arith)
          (refl, refl, refl)
    | inr enough ↦
        assess_history-Agrees f p (get_last? candles) (last_n (minimum_history p) candles) o
          (ground arith)
  ]
]
