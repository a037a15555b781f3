-- ===== src/Reconciliation/Account.antt =====
-- The rest of `reconcile_account`: ownership, held balances, the opening inventory, and the report.
use kraken_knight.Base.{
  String, Bool, true, false, ◌&&◌, ◌||◌, not, Option, none, some, List, [], ◌∷◌, ◌++◌, map, ◌==◌,
  if◌then◌else◌, length, any, text_eq, one_of, codes, text_lt, sort_by, keep_if,
}
use kraken_knight.Decimals.{Decimal, lt, eq, ◌⊖◌, sum_from, negate}
use kraken_knight.Domain.{zero_decimal}
use kraken_knight.Reconciliation.Codes.{
  Status, clean, unresolved, disarmed, Side, is_open, OrderOwnership, legacy, manual, unknown,
  OpeningInventoryClassification, cash_only, confirmed_legacy_btc, external_or_unattributed_btc,
  mixed_legacy_and_unattributed_btc, legacy_btc_balance_shortfall, preexisting_btc, indeterminate,
  ReasonCode, open_manual_order, open_unknown_order, unknown_closed_order, unexplained_held_balance,
  unattributed_btc_inventory, legacy_btc_balance_mismatch, preexisting_btc_required,
  incomplete_inventory_provenance, code_text, is_disarming, same_side,
}
use kraken_knight.Reconciliation.Records.{
  AssetBalance, AuthoritativeOrder, AuthoritativeTrade, TradeFee,
}
use kraken_knight.Reconciliation.Balances.{Discrepancy, add_if}
use kraken_knight.Reconciliation.Orders.{trade_ids}

abbrev pub is_manual : OrderOwnership → Bool
is_manual manual = true
is_manual owner = false

abbrev pub is_unknown : OrderOwnership → Bool
is_unknown unknown = true
is_unknown owner = false

abbrev pub is_legacy : OrderOwnership → Bool
is_legacy legacy = true
is_legacy owner = false

unfoldable pub check_ownership : List String → AuthoritativeOrder → List Discrepancy
check_ownership matched o =
    let unlinked = is_unknown o.ownership && not (one_of o.order_id matched) in
    if is_open o.state
    then (if is_manual o.ownership
        then add_if true open_manual_order "order" o.order_id
            "manual open orders are prohibited in the dedicated account"
        else add_if unlinked open_unknown_order "order" o.order_id
            "open order is not linked to bot or legacy evidence")
    else add_if unlinked unknown_closed_order "order" o.order_id
        "closed order is not attributed to bot, legacy, or manual activity"

unfoldable pub ownership_phase : List String → List AuthoritativeOrder → List Discrepancy
ownership_phase matched [] = []
ownership_phase matched (o ∷ os) = check_ownership matched o ++ ownership_phase matched os

-- a held balance that no open order of the side explains
unfoldable pub check_held :
    Option AssetBalance → Side → String → String → List AuthoritativeOrder → List Discrepancy
check_held none side asset detail orders = []
check_held (some b) side asset detail orders =
    add_if
      (lt zero_decimal b.held
        && not (any (λ (o : AuthoritativeOrder). is_open o.state && same_side o.side side) orders))
      unexplained_held_balance "balance" asset detail

abbrev pub available_of : Option AssetBalance → Decimal
available_of none = zero_decimal
available_of (some b) = b.available

abbrev pub held_of : Option AssetBalance → Decimal
held_of none = zero_decimal
held_of (some b) = b.held

abbrev signed_quantity : AuthoritativeTrade → Decimal
signed_quantity t = elim t.side [ Side.buy ↦ t.quantity_btc | Side.sell ↦ negate t.quantity_btc ]

-- the valid trades of legacy orders
unfoldable pub legacy_trades :
    (valid owners : List String) → List AuthoritativeTrade → List AuthoritativeTrade
legacy_trades valid owners trades =
    keep_if (λ t. one_of t.order_id owners) (keep_if (λ t. one_of t.trade_id valid) trades)

unfoldable pub legacy_fees : (fees_valid trades_legacy : List String) → List TradeFee → List Decimal
legacy_fees fees_valid trades_legacy [] = []
legacy_fees fees_valid trades_legacy (f ∷ fs) =
    if one_of f.fee_id fees_valid && one_of f.trade_id trades_legacy && text_eq f.asset "BTC"
    then f.amount ∷ legacy_fees fees_valid trades_legacy fs
    else legacy_fees fees_valid trades_legacy fs

-- `legacy_net_btc`, with the fees taken off
unfoldable pub net_btc :
    List AuthoritativeTrade → (fees_valid : List String) → List TradeFee → Decimal
net_btc trades fees_valid fees =
    sum_from zero_decimal (map signed_quantity trades)
    ⊖ sum_from zero_decimal (legacy_fees fees_valid (trade_ids trades) fees)

pub record OpeningInventory : Type 0 where
  pub cad_available : Decimal
  pub cad_held : Decimal
  pub cad_total : Decimal
  pub btc_available : Decimal
  pub btc_held : Decimal
  pub btc_total : Decimal
  pub legacy_net_btc : Decimal
  pub btc_variance_from_legacy : Decimal
  pub classification : OpeningInventoryClassification

-- The classification and what it adds, from whether the history is complete, whether the
-- discrepancies so far make the inventory unreliable, the net of legacy fills and the total.
unfoldable pub classify_inventory :
    (complete unreliable : Bool) (net total : Decimal) → OpeningInventoryClassification
classify_inventory complete unreliable net total =
    let variance = total ⊖ net in
    if not complete && not (eq total zero_decimal)
    then indeterminate
    else if unreliable
    then indeterminate
    else if lt net zero_decimal
    then preexisting_btc
    else if eq net zero_decimal && eq total zero_decimal
    then cash_only
    else if eq net zero_decimal
    then external_or_unattributed_btc
    else if eq variance zero_decimal
    then confirmed_legacy_btc
    else if lt zero_decimal variance
    then mixed_legacy_and_unattributed_btc
    else legacy_btc_balance_shortfall

unfoldable pub inventory_discrepancies :
    (complete unreliable : Bool) (net total : Decimal) → List Discrepancy
inventory_discrepancies complete unreliable net total =
    let variance = total ⊖ net in
    if not complete && not (eq total zero_decimal)
    then add_if true incomplete_inventory_provenance "opening_inventory" "BTC"
        "BTC provenance requires complete account-lifetime history and balance continuity"
    else if unreliable
    then []
    else if lt net zero_decimal
    then add_if true preexisting_btc_required "opening_inventory" "BTC"
        "legacy net sales require BTC inventory that predates the matched trades"
    else if eq net zero_decimal && eq total zero_decimal
    then []
    else if eq net zero_decimal
    then add_if true unattributed_btc_inventory "opening_inventory" "BTC"
        "BTC balance is not explained by matched legacy fills"
    else if eq variance zero_decimal
    then []
    else if lt zero_decimal variance
    then add_if true unattributed_btc_inventory "opening_inventory" "BTC"
        "BTC balance exceeds net BTC from matched legacy fills"
    else add_if true legacy_btc_balance_mismatch "opening_inventory" "BTC"
        "BTC balance is below net BTC from matched legacy fills"

-- `sorted(set(discrepancies), key=...)`
abbrev discrepancy_key : Discrepancy → List String
discrepancy_key d = code_text d.code ∷ d.entity_kind ∷ d.entity_id ∷ d.detail ∷ []

abbrev keys_lt : List String → List String → Bool
keys_lt [] [] = false
keys_lt [] (t ∷ ts) = true
keys_lt (s ∷ ss) [] = false
keys_lt (s ∷ ss) (t ∷ ts) = text_lt s t || (text_eq s t && keys_lt ss ts)

abbrev keys_eq : List String → List String → Bool
keys_eq [] [] = true
keys_eq (s ∷ ss) (t ∷ ts) = text_eq s t && keys_eq ss ts
keys_eq ss ts = false

abbrev pub discrepancy_lt : Discrepancy → Discrepancy → Bool
discrepancy_lt a b = keys_lt (discrepancy_key a) (discrepancy_key b)

-- the equality of discrepancies
abbrev pub same_discrepancy : Discrepancy → Discrepancy → Bool
same_discrepancy a b = keys_eq (discrepancy_key a) (discrepancy_key b)

unfoldable pub unique_discrepancies : List Discrepancy → List Discrepancy
unique_discrepancies [] = []
unique_discrepancies (d ∷ ds) =
    if any (same_discrepancy d) ds then unique_discrepancies ds else d ∷ unique_discrepancies ds

unfoldable pub normalize : List Discrepancy → List Discrepancy
normalize discrepancies = sort_by discrepancy_lt (unique_discrepancies discrepancies)

unfoldable pub unique_codes : List ReasonCode → List ReasonCode
unique_codes [] = []
unique_codes (c ∷ cs) =
    if any (λ d. text_eq (code_text c) (code_text d)) cs
    then unique_codes cs
    else c ∷ unique_codes cs

unfoldable pub reason_codes_of : List Discrepancy → List ReasonCode
reason_codes_of discrepancies =
    sort_by (λ c d. text_lt (code_text c) (code_text d))
      (unique_codes (map (λ (d : Discrepancy). d.code) discrepancies))

unfoldable pub status_of : List ReasonCode → List Discrepancy → Status
status_of codes discrepancies =
    if any is_disarming codes
    then disarmed
    else if not (length discrepancies == 0)
    then unresolved
    else clean
