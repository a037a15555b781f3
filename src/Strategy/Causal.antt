-- ===== src/Strategy/Causal.antt =====
-- A decision depends only on the window of recent candles.
use kraken_knight.Base.{
  ◌≤◌, ◌<◌, ◌≡◌, refl, false, List, [], ◌∷◌, ◌++◌, arith, ltb, le→ltb, length, length-append,
  last_n-append, get_last?-append,
}
use kraken_knight.Domain.{Candle}
use kraken_knight.Strategy.{Floats, StrategyPolicy, minimum_history, assess}

minimum_history-pos : (p : StrategyPolicy) → 0 < minimum_history p
unfolding minimum_history
minimum_history-pos p = ground arith

-- Candles before the last `minimum_history` ones change nothing of the outcome, whatever they are.
pub assess-append :
    (floats : Floats) (policy : StrategyPolicy) (older recent : List Candle)
    → minimum_history policy ≤ length recent
    → assess floats policy (older ++ recent) ≡ assess floats policy recent
unfolding assess
assess-append floats policy older [] h = absurd (omega (arith, minimum_history-pos policy))
assess-append floats policy older (c ∷ cs) h =
    let n = minimum_history policy in
    let enough = le→ltb (length (c ∷ cs)) n h in
    let enough' : ltb (length (older ++ c ∷ cs)) n ≡ false =
      le→ltb _ _ (omega (arith, length-append older (c ∷ cs))) in
    rw (get_last?-append older c cs, enough, enough', last_n-append n older (c ∷ cs) h) refl
