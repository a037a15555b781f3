-- ===== src/Collection/Totals.antt =====
-- `_order_trade_totals_match` and `_external_entries_are_classified`.
use kraken_knight.Base.{
  ℕ, String, Bool, true, false, ◌&&◌, not, Option, none, some, List, [], ◌∷◌, map, if◌then◌else◌,
  any, negsuc, ok, err, text_eq, one_of, Strings, keep_if,
}
use kraken_knight.Decimals.{Decimal, of_ℕ, lt, le, eq, ◌⊕◌, ◌⊖◌, ◌⊗◌, ◌⊘◌, abs, sum_from}
use kraken_knight.Domain.{zero_decimal}
use kraken_knight.Collection.Records.{OrderRecord, TradeRecord, LedgerRecord}
use kraken_knight.Collection.Translate.{normalize_asset}
use kraken_knight.Collection.Merge.{is_subset}

-- `Decimal(1).scaleb(-n) / 2`
unfoldable pub half_unit : ℕ → Decimal
half_unit n = record { negative = false; coefficient = 5; exponent = negsuc n }

-- `len(set(ids)) == len(ids)`
abbrev pub are_distinct : List String → Bool
are_distinct [] = true
are_distinct (s ∷ ss) = not (one_of s ss) && are_distinct ss

abbrev pub same_set : List String → List String → Bool
same_set xs ys = is_subset xs ys && is_subset ys xs

abbrev pub sum_of {ℓ} : {A : Type ℓ} → (A → Decimal) → List A → Decimal
sum_of f xs = sum_from zero_decimal (map f xs)

unfoldable pub trades_of_order : String → List TradeRecord → List TradeRecord
trades_of_order id trades = keep_if (λ (t : TradeRecord). text_eq t.order_id id) trades

-- `tick_size / 2`, a division that cannot fail
unfoldable pub half : Decimal → Decimal
half d = elim (d ⊘ of_ℕ 2) [ ok h ↦ h | err e ↦ zero_decimal ]

-- one round of the loop over the orders
unfoldable pub order_totals_match : Decimal → Decimal → OrderRecord → List TradeRecord → Bool
unfolding half
order_totals_match cost_tolerance tick_size o linked =
    are_distinct o.trade_ids
    && same_set o.trade_ids (map (λ (t : TradeRecord). t.trade_id) linked)
    && eq (sum_of (λ (t : TradeRecord). t.volume) linked) o.executed_volume
    && eq (sum_of (λ (t : TradeRecord). t.cost) linked) o.cost
    && eq (sum_of (λ (t : TradeRecord). t.fee) linked) o.fee
    && not (any (λ (t : TradeRecord). not (text_eq t.order_type o.order_type)) linked)
    && (if eq o.executed_volume zero_decimal
        then eq o.average_price zero_decimal
        else le (abs (o.average_price ⊗ o.executed_volume ⊖ o.cost))
            (cost_tolerance ⊕ half tick_size ⊗ o.executed_volume))

unfoldable pub all_orders_match : Decimal → Decimal → List TradeRecord → List OrderRecord → Bool
all_orders_match cost_tolerance tick_size trades [] = true
all_orders_match cost_tolerance tick_size trades (o ∷ os) =
    order_totals_match cost_tolerance tick_size o (trades_of_order o.order_id trades)
    && all_orders_match cost_tolerance tick_size trades os

-- `_order_trade_totals_match`
unfoldable pub order_trade_totals_match :
    List OrderRecord → List TradeRecord → (cost_decimals : ℕ) (tick_size : Decimal) → Bool
order_trade_totals_match orders trades cost_decimals tick_size =
    are_distinct (map (λ (t : TradeRecord). t.trade_id) trades)
    && all_orders_match (half_unit cost_decimals) tick_size trades orders
    && not (
        any
          (λ (t : TradeRecord).
            not (one_of t.order_id (map (λ (o : OrderRecord). o.order_id) orders)))
          trades)

module _ (strings : Strings) where
  unfoldable pub is_deposit : LedgerRecord → Bool
  is_deposit e =
      text_eq e.entry_type "deposit"
      && text_eq (normalize_asset strings e.asset) "CAD"
      && lt zero_decimal e.amount
      && le zero_decimal e.fee

  -- `_external_entries_are_classified`; `manifest_hash` is `funding_manifest_hash`
  unfoldable pub external_entries_are_classified :
      (manifest_hash : List LedgerRecord → String) → List LedgerRecord → Option String → Bool
  unfolding is_deposit
  external_entries_are_classified manifest_hash entries expected =
      let external = keep_if (λ (e : LedgerRecord). not (text_eq e.entry_type "trade")) entries in
      not (any (λ e. not (is_deposit e)) external)
      && elim expected [ none ↦ false | some hash ↦ text_eq (manifest_hash external) hash ]
