-- ===== src/Reconciliation/Fees.antt =====
-- The phase of `reconcile_account` on fees, and the fee totals.
use kraken_knight.Base.{
  String, Bool, true, ◌&&◌, not, List, [], ◌∷◌, ◌++◌, map, if◌then◌else◌, text_eq, one_of,
  text_join, keep_if, duplicate_values,
}
use kraken_knight.Decimals.{Decimal, lt, sum_from}
use kraken_knight.Domain.{zero_decimal}
use kraken_knight.Reconciliation.Codes.{
  unknown_asset, duplicate_fee_id, invalid_fee, unknown_fee_trade,
}
use kraken_knight.Reconciliation.Records.{TradeFee}
use kraken_knight.Reconciliation.Balances.{Discrepancy, add_if, add_each, supported_assets}

module _ (known valid : List String) where
  -- `known` are the identifiers of all trades, `valid` those of the valid ones
  unfoldable pub check_fee : TradeFee → List Discrepancy
  check_fee f =
      add_if (not (one_of f.asset supported_assets)) unknown_asset "fee" f.fee_id
        (text_join "unsupported fee asset " f.asset)
      ++ (add_if (lt f.amount zero_decimal) invalid_fee "fee" f.fee_id
            "fee amount cannot be negative"
          ++ (if not (one_of f.trade_id known)
              then add_if true unknown_fee_trade "fee" f.fee_id
                  (text_join "referenced trade " (text_join f.trade_id " is absent"))
              else add_if (not (one_of f.trade_id valid)) invalid_fee "fee" f.fee_id
                  "fee does not reference a unique valid trade"))

  unfoldable pub check_fees : List TradeFee → List Discrepancy
  check_fees [] = []
  check_fees (f ∷ fs) = check_fee f ++ check_fees fs

abbrev pub fee_ids : List TradeFee → List String
fee_ids fees = map (λ (f : TradeFee). f.fee_id) fees

unfoldable pub is_valid_fee : (valid duplicates : List String) → TradeFee → Bool
is_valid_fee valid duplicates f =
    not (one_of f.fee_id duplicates)
    && one_of f.asset supported_assets
    && not (lt f.amount zero_decimal)
    && one_of f.trade_id valid

-- the valid fees, in order; their identifiers are `valid_fee_ids`
unfoldable pub valid_fees : List String → List TradeFee → List TradeFee
valid_fees valid fees = keep_if (is_valid_fee valid (duplicate_values (fee_ids fees))) fees

unfoldable pub fee_phase : (known valid : List String) → List TradeFee → List Discrepancy
fee_phase known valid fees =
    add_each (duplicate_values (fee_ids fees)) duplicate_fee_id "fee"
      "fee identifiers must be unique"
    ++ check_fees known valid fees

abbrev pub amounts_in : String → List TradeFee → List Decimal
amounts_in asset [] = []
amounts_in asset (f ∷ fs) =
    if text_eq f.asset asset then f.amount ∷ amounts_in asset fs else amounts_in asset fs

-- `total_fees[asset]`
unfoldable pub total_fees : String → List String → List TradeFee → Decimal
total_fees asset valid fees = sum_from zero_decimal (amounts_in asset (valid_fees valid fees))
