-- ===== src/Strategy/Total.antt =====
-- When the evaluation of candles returns a decision, and what it takes of floats and prices for that.
use kraken_knight.Base.{
  ℕ, zero, suc, ◌+◌, ◌-◌, ◌≤◌, ◌<◌, ◌≡◌, refl, ◌≢◌, inl, inr, true, false, ◌||◌, Option, none, some,
  List, [], ◌∷◌, arith, ltb, ltb→le, Bool-cases, Option-cases, length, drop, last_n, get_last?,
  head?, any, any_pair, All, length-drop, pos, Result, ok,
}
use mathlib.Core.Option
use kraken_knight.Decimals.{
  Decimal, of_ℕ, literal, le, min, ◌⊖◌, ◌⊘◌, sum_from, IsPositive, lt-zero_iff, div-IsPositive,
  div_total,
}
use kraken_knight.Domain.{Candle, zero_decimal}
use kraken_knight.Domain.Candles.{IsWellFormed}
use kraken_knight.Strategy.{
  prepend, log_returns, annualize, usable_volatility, Measures, measure, rejected, measured,
  classify, not_next_day, incomplete, closes_of, assess_history, is_incomplete, assess,
  insufficient_history, incomplete_candle, invalid_sequence, non_positive_momentum, below_trend,
  zero_volatility, long_signal, StrategyPolicy, Outcome, Float, Floats, minimum_history, cash, btc,
}

-- `StrategyPolicy.__post_init__` leaves these positive.
pub record IsValidPolicy (p : StrategyPolicy) : Type 0 where
  pub momentum_pos : 0 < p.momentum_days
  pub trend_pos : 0 < p.trend_days
  pub volatility_pos : 0 < p.volatility_days
  pub target_pos : IsPositive p.volatility_target
  pub weight_pos : IsPositive p.max_weight

-- Between 1e-100 and 1e100: quotients of such numbers are far from the limits of floats, and from
-- the exponents that the decimal context allows.
abbrev pub IsModerate : Decimal → Type 0
IsModerate d =
    (le (literal 1 100) d ≡ true)
    × (le d (record { negative = false; coefficient = 1; exponent = pos 100 }) ≡ true)

-- The text of a finite positive float reads as a positive decimal.
abbrev pub PositiveText : Floats → Type 0
PositiveText f =
    (x : Float) → f.is_finite x ≡ true → f.is_positive x ≡ true → IsPositive (f.to_text_decimal x)

-- What is documented of floats, `math.log` and `statistics.stdev`.
pub record AreFloats (f : Floats) : Type 0 where
  pub text_pos : PositiveText f
  -- the quotient of moderate numbers does not overflow
  pub quotient_finite :
      (x y q : Decimal) (v : Float)
      → IsModerate x
      → IsModerate y
      → y ⊘ x ≡ ok q
      → f.of_decimal q ≡ some v
      → f.is_finite v ≡ true
  pub log_finite : (x v : Float) → f.is_finite x ≡ true → f.log x ≡ some v → f.is_finite v ≡ true
  -- of finite floats there is a deviation, or a StatisticsError
  pub stdev_returns :
      (xs : List Float)
      → All (λ x. f.is_finite x ≡ true) xs
      → (r : Option Float) × (f.stdev xs ≡ ok r)

abbrev AllPositive : List Decimal → Type 0
AllPositive = All IsPositive

abbrev AllModerate : List Decimal → Type 0
AllModerate = All IsModerate

-- what was computed is a list of finite floats
abbrev AreFinite : Floats → Option (List Float) → Type 0
AreFinite f none = All (λ x. f.is_finite x ≡ true) []
AreFinite f (some xs) = All (λ x. f.is_finite x ≡ true) xs

closes-AllPositive : (cs : List Candle) → All IsWellFormed cs → AllPositive (closes_of cs)
closes-AllPositive [] h = tt
closes-AllPositive (c ∷ cs) h = ((lt-zero_iff c.close).0 h.0.close_pos, closes-AllPositive cs h.1)

closes-AllModerate :
    (cs : List Candle) → All (λ (c : Candle). IsModerate c.close) cs → AllModerate (closes_of cs)
closes-AllModerate [] h = tt
closes-AllModerate (c ∷ cs) h = (h.0, closes-AllModerate cs h.1)

length-closes : (cs : List Candle) → length (closes_of cs) ≡ length cs
length-closes [] = refl
length-closes (c ∷ cs) = omega (arith, length-closes cs)

All-drop {ℓ κ} : {A : Type ℓ} (P : A → Type κ) (n : ℕ) (xs : List A) → All P xs → All P (drop n xs)
All-drop P zero xs h = h
All-drop P (suc n) [] h = h
All-drop P (suc n) (x ∷ xs) h = All-drop P n xs h.1

head-total :
    (xs : List Decimal)
    → AllPositive xs
    → 0 < length xs
    → (x : Decimal) × (head? xs ≡ some x) × IsPositive x
head-total [] h p = absurd (omega arith)
head-total (x ∷ xs) h p = (x, refl, h.0)

last-total :
    (xs : List Decimal)
    → AllPositive xs
    → 0 < length xs
    → (x : Decimal) × (get_last? xs ≡ some x) × IsPositive x
last-total [] h p = absurd (omega arith)
last-total (x ∷ []) h p = (x, refl, h.0)
last-total (x ∷ y ∷ xs) h p = last-total (y ∷ xs) h.1 (omega arith)

prepend-total :
    (f : Floats) (x : Option Float) (rest : Result (Option (List Float))) (l : Option (List Float))
    → ((v : Float) → x ≡ some v → f.is_finite v ≡ true)
    → rest ≡ ok l
    → AreFinite f l
    → (r : Option (List Float)) × (prepend x rest ≡ ok r) × AreFinite f r
unfolding prepend
prepend-total f none rest l h e fin = (none, refl, tt)
prepend-total f (some x) rest none h e fin = (none, rw e, tt)
prepend-total f (some x) rest (some xs) h e fin = (some (x ∷ xs), rw e, (h x refl, fin))

ratio-finite :
    (f : Floats) (x y q : Decimal) (v : Float)
    → AreFloats f
    → IsModerate x
    → IsModerate y
    → y ⊘ x ≡ ok q
    → Option.bind (f.of_decimal q) f.log ≡ some v
    → f.is_finite v ≡ true
unfolding Option.bind
ratio-finite f x y q v floats hx hy divided e = elim (Option-cases (f.of_decimal q)) [
  | inl absent ↦ absurd (ground (arith, absent, e))
  | inr (w, present) ↦
      let logged : f.log w ≡ some v = ground (arith, present, e) in
      floats.log_finite w v (floats.quotient_finite x y q w hx hy divided present) logged
]

log_returns-total :
    (f : Floats) (xs : List Decimal)
    → AreFloats f
    → AllPositive xs
    → AllModerate xs
    → (r : Option (List Float)) × (log_returns f xs ≡ ok r) × AreFinite f r
unfolding log_returns
log_returns-total f [] floats h m = (some [], refl, tt)
log_returns-total f (x ∷ []) floats h m = (some [], refl, tt)
log_returns-total f (x ∷ y ∷ xs) floats h m =
    let (q, divided, _) = div-IsPositive y x h.1.0 h.0 in
    let (r, more, fin) = log_returns-total f (y ∷ xs) floats h.1 m.1 in
    let (r', done, fin') =
      prepend-total f (Option.bind (f.of_decimal q) f.log) (log_returns f (y ∷ xs)) r
        (λ v e. ratio-finite f x y q v floats m.0 m.1.0 divided e) more fin in
    (r', rw divided done, fin')

annualize-total :
    (f : Floats) (l : Option (List Float)) (days : ℕ)
    → AreFloats f
    → AreFinite f l
    → (r : Option Float) × (annualize f l days ≡ ok r)
unfolding annualize
annualize-total f none days floats fin = (none, refl)
annualize-total f (some xs) days floats fin =
    let (r, returned) = floats.stdev_returns xs fin in
    (Option.bind r (λ d. Option.map (λ root. f.times d root) (f.sqrt days)), rw returned refl)

length-last_n {ℓ} : {A : Type ℓ} (n : ℕ) (xs : List A) → n ≤ length xs → length (last_n n xs) ≡ n
length-last_n n xs h = omega (arith, length-drop (length xs - n) xs)

usable_volatility-IsPositive :
    (f : Floats) (x : Option Float) (v : Decimal)
    → PositiveText f
    → usable_volatility f x ≡ some v
    → IsPositive v
unfolding usable_volatility
usable_volatility-IsPositive f none v t e = cc
usable_volatility-IsPositive f (some x) v t e = ground (arith, t x)

momentum-le-minimum_history : (p : StrategyPolicy) → p.momentum_days + 1 ≤ minimum_history p
unfolding minimum_history
momentum-le-minimum_history p = ground arith

measure-total :
    (f : Floats) (p : StrategyPolicy) (closes : List Decimal)
    → IsValidPolicy p
    → AreFloats f
    → AllPositive closes
    → AllModerate closes
    → minimum_history p ≤ length closes
    → (m : Measures) × (measure f p closes ≡ ok m)
      × ((v : Decimal) → m.volatility ≡ some v → IsPositive v)
unfolding measure
measure-total f p closes valid floats h moderate enough =
    let window = p.momentum_days + 1 in
    let fits : window ≤ length closes = omega (arith, momentum-le-minimum_history p) in
    let (c, last, c_pos) = last-total closes h (omega (arith, fits)) in
    let (r, ref, r_pos) =
      head-total (last_n window closes) (All-drop IsPositive (length closes - window) closes h)
        (omega (arith, fits, length-last_n window closes fits)) in
    let (q, divided, _) = div-IsPositive c r c_pos r_pos in
    let (s, average) =
      div_total (sum_from zero_decimal (last_n p.trend_days closes)) (of_ℕ p.trend_days)
        valid.trend_pos in
    let (l, logs, fin) =
      log_returns-total f (last_n (p.volatility_days + 1) closes) floats
        (All-drop IsPositive (length closes - (p.volatility_days + 1)) closes h)
        (All-drop IsModerate (length closes - (p.volatility_days + 1)) closes moderate) in
    let (a, scaled) = annualize-total f l p.annualization_days floats fin in
    (
      record { price = c; momentum = q ⊖ of_ℕ 1; sma = s; volatility = usable_volatility f a },
      rw (last, ref, divided, average, logs, scaled),
      λ v e. usable_volatility-IsPositive f a v floats.text_pos e,
    )

min-IsPositive : (a b : Decimal) → IsPositive a → IsPositive b → IsPositive (min a b)
unfolding min
min-IsPositive a b p q = ground arith

-- A decision was reached, and a long one has a positive weight.
abbrev pub Decides : Result Outcome → Type 0
Decides r = (o : Outcome) × (r ≡ ok o) × (o.reason ≡ long_signal → IsPositive o.target_weight)

Decides-rejected :
    (r : Result Outcome) (o : Outcome) → r ≡ ok o → o.reason ≢ long_signal → Decides r
Decides-rejected r o e h = (o, e, λ long. absurd (h long))

classify-Decides :
    (p : StrategyPolicy) (signal : Option Candle) (m : Measures)
    → IsValidPolicy p
    → ((v : Decimal) → m.volatility ≡ some v → IsPositive v)
    → Decides (classify p signal m)
unfolding classify
classify-Decides p signal m valid pv = elim (Option-cases m.volatility) [
  | inl absent ↦
      Decides-rejected _ (measured signal cash zero_decimal zero_volatility false m zero_decimal)
        (ground arith) (λ e. cc)
  | inr (v, present) ↦
      let (w, divided, w_pos) =
        div-IsPositive p.volatility_target v valid.target_pos (pv v present) in
      elim (Bool-cases (le m.momentum zero_decimal)) [
        | inl falling ↦
            Decides-rejected _ (measured signal cash zero_decimal non_positive_momentum true m v)
              (ground arith) (λ e. cc)
        | inr rising ↦ elim (Bool-cases (le m.price m.sma)) [
          | inl below ↦
              Decides-rejected _ (measured signal cash zero_decimal below_trend true m v)
                (ground arith) (λ e. cc)
          | inr above ↦ (
            measured signal btc (min p.max_weight w) long_signal true m v,
            ground arith,
            λ _. min-IsPositive p.max_weight w valid.weight_pos w_pos,
          )
        ]
      ]
]

-- Let the closing prices and the volatility target lie between 1e-100 and 1e100, far from where a
-- float or the exponent of a decimal overflows. With a valid policy, well-formed candles and floats as
-- documented, the evaluation of any list of candles then returns a decision, and never raises; a long
-- decision has a positive weight.
pub assess-Decides :
    (f : Floats) (p : StrategyPolicy) (candles : List Candle)
    → IsValidPolicy p
    → IsModerate p.volatility_target
    → AreFloats f
    → All IsWellFormed candles
    → All (λ (c : Candle). IsModerate c.close) candles
    → Decides (assess f p candles)
unfolding assess assess_history
assess-Decides f p candles valid target floats h moderate =
    let signal = get_last? candles in
    elim (Bool-cases (is_incomplete signal)) [
      | inl still_open ↦
          Decides-rejected _ (rejected signal incomplete_candle) (ground arith) (λ e. cc)
      | inr closed ↦ elim (Bool-cases (ltb (length candles) (minimum_history p))) [
        | inl short ↦
            Decides-rejected _ (rejected signal insufficient_history) (ground arith) (λ e. cc)
        | inr long ↦
            let history = last_n (minimum_history p) candles in
            elim (Bool-cases (any incomplete history || any_pair not_next_day history)) [
              | inl bad ↦
                  Decides-rejected _ (rejected signal invalid_sequence) (ground arith) (λ e. cc)
              | inr good ↦
                  let enough = ltb→le (length candles) (minimum_history p) long in
                  let (m, done, pv) =
                    measure-total f p (closes_of history) valid floats
                      (closes-AllPositive history
                        (All-drop IsWellFormed (length candles - minimum_history p) candles h))
                      (closes-AllModerate history (
                        All-drop (λ (c : Candle). IsModerate c.close)
                          (length candles - minimum_history p) candles moderate))
                      (omega (
                        arith,
                        length-closes history,
                        length-last_n (minimum_history p) candles enough,
                      )) in
                  let (o, decided, weight) = classify-Decides p signal m valid pv in
                  (o, ground arith, weight)
            ]
      ]
    ]
