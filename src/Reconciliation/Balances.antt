-- ===== src/Reconciliation/Balances.antt =====
-- Discrepancies, and the phases of `reconcile_account` on balances and liabilities.
use kraken_knight.Base.{
  String, Bool, true, false, ◌||◌, not, Option, none, some, List, [], ◌∷◌, ◌++◌, map, if◌then◌else◌,
  is_none, text_eq, one_of, duplicate_values,
}
use kraken_knight.Decimals.{lt}
use kraken_knight.Domain.{zero_decimal}
use kraken_knight.Reconciliation.Codes.{
  ReasonCode, unknown_asset, missing_required_balance, duplicate_balance_asset, negative_balance,
  duplicate_liability_asset, invalid_liability, nonzero_liability,
}
use kraken_knight.Reconciliation.Records.{AssetBalance, Liability}

pub record Discrepancy : Type 0 where
  pub code : ReasonCode
  pub entity_kind : String
  pub entity_id : String
  pub detail : String

-- `_add`, under a condition
unfoldable pub add_if : Bool → ReasonCode → String → String → String → List Discrepancy
add_if false code kind id detail = []
add_if true code kind id detail =
    record { code = code; entity_kind = kind; entity_id = id; detail = detail } ∷ []

-- one `_add` for each value
unfoldable pub add_each : List String → ReasonCode → String → String → List Discrepancy
add_each [] code kind detail = []
add_each (id ∷ ids) code kind detail =
    record { code = code; entity_kind = kind; entity_id = id; detail = detail }
    ∷ add_each ids code kind detail

abbrev pub supported_assets : List String
supported_assets = "BTC" ∷ "CAD" ∷ []

abbrev pub supported_pair : String
supported_pair = "BTC/CAD"

unfoldable pub check_balance : AssetBalance → List Discrepancy
unfolding add_if
check_balance b =
    add_if (not (one_of b.asset supported_assets)) unknown_asset "balance" b.asset
      "asset is outside the BTC/CAD account boundary"
    ++ add_if (lt b.available zero_decimal || lt b.held zero_decimal) negative_balance "balance"
        b.asset "available and held balances must be nonnegative"

unfoldable pub check_balances : List AssetBalance → List Discrepancy
check_balances [] = []
check_balances (b ∷ bs) = check_balance b ++ check_balances bs

-- `balance_by_asset.get(asset)`: the first balance of an asset
abbrev pub balance_of : String → List AssetBalance → Option AssetBalance
balance_of asset [] = none
balance_of asset (b ∷ bs) = if text_eq b.asset asset then some b else balance_of asset bs

unfoldable pub missing_balances : List AssetBalance → List String → List Discrepancy
missing_balances balances [] = []
missing_balances balances (asset ∷ assets) =
    add_if (is_none (balance_of asset balances)) missing_required_balance "balance" asset
      "a complete reconciliation requires BTC and CAD balances"
    ++ missing_balances balances assets

unfoldable pub balance_phase : List AssetBalance → List Discrepancy
balance_phase balances =
    add_each (duplicate_values (map (λ (b : AssetBalance). b.asset) balances))
      duplicate_balance_asset "balance" "more than one authoritative balance exists for the asset"
    ++ (check_balances balances ++ missing_balances balances supported_assets)

unfoldable pub check_liability : Liability → List Discrepancy
check_liability l =
    add_if (not (one_of l.asset supported_assets)) unknown_asset "liability" l.asset
      "liability asset is outside the BTC/CAD account boundary"
    ++ (if lt l.amount zero_decimal
        then add_if true invalid_liability "liability" l.asset "liability amount cannot be negative"
        else add_if (lt zero_decimal l.amount) nonzero_liability "liability" l.asset
            "spot-only operation requires zero liabilities")

unfoldable pub check_liabilities : List Liability → List Discrepancy
check_liabilities [] = []
check_liabilities (l ∷ ls) = check_liability l ++ check_liabilities ls

unfoldable pub liability_phase : List Liability → List Discrepancy
liability_phase liabilities =
    add_each (duplicate_values (map (λ (l : Liability). l.asset) liabilities))
      duplicate_liability_asset "liability"
      "more than one liability observation exists for the asset"
    ++ check_liabilities liabilities
