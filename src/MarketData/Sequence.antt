-- ===== src/MarketData/Sequence.antt =====
-- What an accepted sequence of daily candles is.
use kraken_knight.Base.{
  ℕ, ◌+◌, ◌<◌, ◌≡◌, refl, sym, subst, ◌↔◌, true, false, List, [], ◌∷◌, arith, ok,
}
use kraken_knight.Domain.{Candle, day}
use kraken_knight.MarketData.{validate_daily_sequence}

-- Each candle opens after the one before it.
abbrev pub IsIncreasing : List Candle → Type 0
IsIncreasing [] = Unit
IsIncreasing (c ∷ []) = Unit
IsIncreasing (c ∷ d ∷ cs) = (c.open_time < d.open_time) × IsIncreasing (d ∷ cs)

-- The candles open on the days that follow `start`, without a gap.
abbrev pub OpensDaily : ℕ → List Candle → Type 0
OpensDaily start [] = Unit
OpensDaily start (c ∷ cs) = (c.open_time ≡ start) × OpensDaily (start + day) cs

abbrev pub first_open : List Candle → ℕ
first_open [] = 0
first_open (c ∷ cs) = c.open_time

-- Without the demand for contiguity, exactly the strictly increasing sequences pass.
pub validate_daily_sequence-IsIncreasing :
    (cs : List Candle) → (validate_daily_sequence cs false ≡ ok tt) ↔ IsIncreasing cs
unfolding validate_daily_sequence
validate_daily_sequence-IsIncreasing [] = (λ _. tt, λ _. refl)
validate_daily_sequence-IsIncreasing (c ∷ []) = (λ _. tt, λ _. refl)
validate_daily_sequence-IsIncreasing (c ∷ d ∷ cs) =
    let (f, g) = validate_daily_sequence-IsIncreasing (d ∷ cs) in
    (λ h. ground (arith, f), λ h. ground (arith, g h.1))

daily_chain :
    (c : Candle) (cs : List Candle)
    → (validate_daily_sequence (c ∷ cs) true ≡ ok tt) ↔ OpensDaily c.open_time (c ∷ cs)
unfolding validate_daily_sequence
daily_chain c [] = (λ _. (refl, tt), λ _. refl)
daily_chain c (d ∷ cs) =
    let (f, g) = daily_chain d cs in
    (
      λ h.
          let apart : d.open_time ≡ c.open_time + day = ground arith in
          let rest : validate_daily_sequence (d ∷ cs) true ≡ ok tt = ground arith in
          (refl, subst (λ start. OpensDaily start (d ∷ cs)) apart (f rest)),
      λ h.
          let rest = g (subst (λ start. OpensDaily start (d ∷ cs)) (sym h.1.0) h.1) in
          ground (arith, h.1.0, rest),
    )

-- With the demand for contiguity, exactly the sequences pass whose candles open once a day from the
-- first opening on.
pub validate_daily_sequence_contiguous :
    (cs : List Candle) → (validate_daily_sequence cs true ≡ ok tt) ↔ OpensDaily (first_open cs) cs
unfolding validate_daily_sequence
validate_daily_sequence_contiguous [] = (λ _. tt, λ _. refl)
validate_daily_sequence_contiguous (c ∷ cs) = daily_chain c cs
