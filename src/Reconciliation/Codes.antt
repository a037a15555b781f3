-- ===== src/Reconciliation/Codes.antt =====
-- The enumerations of reconciliation.py, with the texts of their members.
use kraken_knight.Base.{String, Bool, true, false}

-- `ReconciliationStatus`
pub data Status : Type 0 where
  clean unresolved disarmed : Status

pub data Side : Type 0 where
  buy sell : Side

-- `OPEN` is `still_open`
pub data OrderState : Type 0 where
  still_open partially_filled filled canceled expired rejected : OrderState

-- `OrderState.is_open`
unfoldable pub is_open : OrderState → Bool
is_open still_open = true
is_open partially_filled = true
is_open state = false

pub data OrderOwnership : Type 0 where
  bot legacy manual unknown : OrderOwnership

abbrev pub ownership_text : OrderOwnership → String
ownership_text bot = "bot"
ownership_text legacy = "legacy"
ownership_text manual = "manual"
ownership_text unknown = "unknown"

-- the constructors have `by_` before the source's words
pub data LegacyMatchBasis : Type 0 where
  by_order_id by_client_order_id by_exact_attributes : LegacyMatchBasis

abbrev pub basis_text : LegacyMatchBasis → String
basis_text by_order_id = "order_id"
basis_text by_client_order_id = "client_order_id"
basis_text by_exact_attributes = "exact_attributes"

-- `PREEXISTING_BTC_REQUIRED` is `preexisting_btc`, since a reason has that name too
pub data OpeningInventoryClassification : Type 0 where
  cash_only confirmed_legacy_btc external_or_unattributed_btc : OpeningInventoryClassification
  mixed_legacy_and_unattributed_btc legacy_btc_balance_shortfall preexisting_btc indeterminate :
      OpeningInventoryClassification

pub data ReasonCode : Type 0 where
  unknown_asset unknown_pair missing_required_balance duplicate_balance_asset negative_balance :
      ReasonCode
  duplicate_liability_asset invalid_liability nonzero_liability duplicate_order_id : ReasonCode
  duplicate_client_order_id invalid_order duplicate_trade_id invalid_trade unknown_trade_order :
      ReasonCode
  inconsistent_trade inconsistent_fill_total duplicate_fee_id invalid_fee unknown_fee_trade :
      ReasonCode
  duplicate_legacy_hint_id invalid_legacy_hint unmatched_legacy_hint ambiguous_legacy_hint :
      ReasonCode
  legacy_hint_conflict unverified_attribute_match order_matched_by_multiple_hints : ReasonCode
  open_manual_order open_unknown_order unknown_closed_order unexplained_held_balance : ReasonCode
  unattributed_btc_inventory legacy_btc_balance_mismatch preexisting_btc_required : ReasonCode
  incomplete_inventory_provenance : ReasonCode

abbrev pub code_text : ReasonCode → String
code_text unknown_asset = "unknown_asset"
code_text unknown_pair = "unknown_pair"
code_text missing_required_balance = "missing_required_balance"
code_text duplicate_balance_asset = "duplicate_balance_asset"
code_text negative_balance = "negative_balance"
code_text duplicate_liability_asset = "duplicate_liability_asset"
code_text invalid_liability = "invalid_liability"
code_text nonzero_liability = "nonzero_liability"
code_text duplicate_order_id = "duplicate_order_id"
code_text duplicate_client_order_id = "duplicate_client_order_id"
code_text invalid_order = "invalid_order"
code_text duplicate_trade_id = "duplicate_trade_id"
code_text invalid_trade = "invalid_trade"
code_text unknown_trade_order = "unknown_trade_order"
code_text inconsistent_trade = "inconsistent_trade"
code_text inconsistent_fill_total = "inconsistent_fill_total"
code_text duplicate_fee_id = "duplicate_fee_id"
code_text invalid_fee = "invalid_fee"
code_text unknown_fee_trade = "unknown_fee_trade"
code_text duplicate_legacy_hint_id = "duplicate_legacy_hint_id"
code_text invalid_legacy_hint = "invalid_legacy_hint"
code_text unmatched_legacy_hint = "unmatched_legacy_hint"
code_text ambiguous_legacy_hint = "ambiguous_legacy_hint"
code_text legacy_hint_conflict = "legacy_hint_conflict"
code_text unverified_attribute_match = "unverified_attribute_match"
code_text order_matched_by_multiple_hints = "order_matched_by_multiple_hints"
code_text open_manual_order = "open_manual_order"
code_text open_unknown_order = "open_unknown_order"
code_text unknown_closed_order = "unknown_closed_order"
code_text unexplained_held_balance = "unexplained_held_balance"
code_text unattributed_btc_inventory = "unattributed_btc_inventory"
code_text legacy_btc_balance_mismatch = "legacy_btc_balance_mismatch"
code_text preexisting_btc_required = "preexisting_btc_required"
code_text incomplete_inventory_provenance = "incomplete_inventory_provenance"

-- `code in _DISARMING_CODES`
abbrev pub is_disarming : ReasonCode → Bool
is_disarming unknown_asset = true
is_disarming unknown_pair = true
is_disarming missing_required_balance = true
is_disarming duplicate_balance_asset = true
is_disarming negative_balance = true
is_disarming duplicate_liability_asset = true
is_disarming invalid_liability = true
is_disarming nonzero_liability = true
is_disarming duplicate_order_id = true
is_disarming duplicate_client_order_id = true
is_disarming invalid_order = true
is_disarming duplicate_trade_id = true
is_disarming invalid_trade = true
is_disarming unknown_trade_order = true
is_disarming inconsistent_trade = true
is_disarming inconsistent_fill_total = true
is_disarming duplicate_fee_id = true
is_disarming invalid_fee = true
is_disarming unknown_fee_trade = true
is_disarming duplicate_legacy_hint_id = true
is_disarming invalid_legacy_hint = true
is_disarming unmatched_legacy_hint = false
is_disarming ambiguous_legacy_hint = true
is_disarming legacy_hint_conflict = true
is_disarming unverified_attribute_match = false
is_disarming order_matched_by_multiple_hints = true
is_disarming open_manual_order = true
is_disarming open_unknown_order = true
is_disarming unknown_closed_order = false
is_disarming unexplained_held_balance = true
is_disarming unattributed_btc_inventory = false
is_disarming legacy_btc_balance_mismatch = false
is_disarming preexisting_btc_required = false
is_disarming incomplete_inventory_provenance = false

-- `code in _INVENTORY_UNRELIABLE_CODES`
abbrev pub is_unreliable : ReasonCode → Bool
is_unreliable unknown_asset = true
is_unreliable unknown_pair = true
is_unreliable missing_required_balance = true
is_unreliable duplicate_balance_asset = true
is_unreliable negative_balance = true
is_unreliable duplicate_liability_asset = true
is_unreliable invalid_liability = true
is_unreliable nonzero_liability = true
is_unreliable duplicate_order_id = true
is_unreliable duplicate_client_order_id = true
is_unreliable invalid_order = true
is_unreliable duplicate_trade_id = true
is_unreliable invalid_trade = true
is_unreliable unknown_trade_order = true
is_unreliable inconsistent_trade = true
is_unreliable inconsistent_fill_total = true
is_unreliable duplicate_fee_id = true
is_unreliable invalid_fee = true
is_unreliable unknown_fee_trade = true
is_unreliable duplicate_legacy_hint_id = true
is_unreliable invalid_legacy_hint = true
is_unreliable unmatched_legacy_hint = true
is_unreliable ambiguous_legacy_hint = true
is_unreliable legacy_hint_conflict = true
is_unreliable unverified_attribute_match = false
is_unreliable order_matched_by_multiple_hints = true
is_unreliable open_manual_order = false
is_unreliable open_unknown_order = true
is_unreliable unknown_closed_order = true
is_unreliable unexplained_held_balance = false
is_unreliable unattributed_btc_inventory = false
is_unreliable legacy_btc_balance_mismatch = false
is_unreliable preexisting_btc_required = false
is_unreliable incomplete_inventory_provenance = false

abbrev pub same_side : Side → Side → Bool
same_side buy buy = true
same_side sell sell = true
same_side a b = false
