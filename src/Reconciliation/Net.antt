-- ===== src/Reconciliation/Net.antt =====
-- The net of the legacy fills, as a sum over the trades and the fees that count.
use kraken_knight.Base.{
  String, ◌≡◌, refl, Bool, ◌&&◌, List, [], ◌∷◌, ◌++◌, map, arith, text_eq, one_of, keep_if,
}
use kraken_knight.Decimals.{Decimal, ◌⊖◌, sum_from, negate}
use kraken_knight.Domain.{zero_decimal}
use kraken_knight.Reconciliation.Codes.{Side}
use kraken_knight.Reconciliation.Records.{AuthoritativeOrder, AuthoritativeTrade, TradeFee}
use kraken_knight.Reconciliation.Orders.{order_ids, trade_ids}
use kraken_knight.Reconciliation.Fees.{valid_fees, fee_ids}
use kraken_knight.Reconciliation.Hints.{matched_orders}
use kraken_knight.Reconciliation.Account.{is_legacy, legacy_trades, legacy_fees, net_btc}
use kraken_knight.Reconciliation.Report.{Observed, valid_trade_ids_of, matches_of, legacy_net_btc}

-- the orders that are marked as legacy, or that a hint matches
abbrev legacy_orders : Observed → List String
legacy_orders s =
    matched_orders (matches_of s)
    ++ order_ids (keep_if (λ (o : AuthoritativeOrder). is_legacy o.ownership) s.orders)

-- their valid trades
abbrev legacy_fills : Observed → List AuthoritativeTrade
legacy_fills s =
    keep_if
      (λ (t : AuthoritativeTrade).
        one_of t.trade_id (valid_trade_ids_of s) && one_of t.order_id (legacy_orders s))
      s.trades

-- the valid fees of these trades that are charged in BTC
abbrev charged_btc : Observed → List TradeFee
charged_btc s =
    keep_if
      (λ (f : TradeFee).
        one_of f.fee_id (fee_ids (valid_fees (valid_trade_ids_of s) s.fees))
        && one_of f.trade_id (trade_ids (legacy_fills s))
        && text_eq f.asset "BTC")
      s.fees

-- what is bought minus what is sold, minus the fees
abbrev pub net_of_fills : Observed → Decimal
net_of_fills s =
    sum_from zero_decimal (
      map
        (λ (t : AuthoritativeTrade). elim t.side [
          | Side.buy ↦ t.quantity_btc
          | Side.sell ↦ negate t.quantity_btc
        ])
        (legacy_fills s))
    ⊖ sum_from zero_decimal (map (λ (f : TradeFee). f.amount) (charged_btc s))

keep_if-keep_if {ℓ} :
    {A : Type ℓ} (p q : A → Bool) (xs : List A)
    → keep_if q (keep_if p xs) ≡ keep_if (λ x. p x && q x) xs
keep_if-keep_if p q [] = refl
keep_if-keep_if p q (x ∷ xs) = ground (arith, keep_if-keep_if p q xs)

legacy_fees_lem :
    (valid trades : List String) (fees : List TradeFee)
    → legacy_fees valid trades fees
      ≡ map
          (λ (f : TradeFee). f.amount)
          (keep_if
            (λ (f : TradeFee).
              one_of f.fee_id valid && one_of f.trade_id trades && text_eq f.asset "BTC")
            fees)
unfolding legacy_fees
legacy_fees_lem valid trades [] = refl
legacy_fees_lem valid trades (f ∷ fs) = ground (arith, legacy_fees_lem valid trades fs)

pub legacy_net_btc_lem : (s : Observed) → legacy_net_btc s ≡ net_of_fills s
unfolding legacy_net_btc net_btc legacy_trades
legacy_net_btc_lem s =
    let fills =
      keep_if-keep_if (λ (t : AuthoritativeTrade). one_of t.trade_id (valid_trade_ids_of s))
        (λ (t : AuthoritativeTrade). one_of t.order_id (legacy_orders s)) s.trades in
    let counted = fee_ids (valid_fees (valid_trade_ids_of s) s.fees) in
    let fees = legacy_fees_lem counted (trade_ids (legacy_fills s)) s.fees in rw (fills, fees) refl
