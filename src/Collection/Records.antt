-- ===== src/Collection/Records.antt =====
-- The exchange's records, as kraken_read.py parses them. An instant is the UTC instant.
use kraken_knight.Base.{ℕ, String, Bool, Option, List, ℤ}
use kraken_knight.Decimals.{Decimal, ◌⊕◌, ◌⊖◌}
use kraken_knight.Domain.{Instant}
use kraken_knight.Reconciliation.Codes.{Side}

pub record ExtendedBalance : Type 0 where
  pub asset : String
  pub balance : Decimal
  pub credit : Decimal
  pub credit_used : Decimal
  pub hold_trade : Decimal

-- `ExtendedBalance.available`
unfoldable pub available : ExtendedBalance → Decimal
available b = b.balance ⊕ b.credit ⊖ b.credit_used ⊖ b.hold_trade

pub record OrderRecord : Type 0 where
  pub order_id : String
  pub client_order_id : Option String
  pub reference_id : Option String
  pub user_reference : Option ℤ
  pub status : String
  pub reason : Option String
  pub opened_at : Instant
  pub closed_at : Option Instant
  pub starts_at : Option Instant
  pub expires_at : Option Instant
  pub pair : String
  pub side : Side
  pub order_type : String
  pub requested_price : Decimal
  pub secondary_price : Decimal
  pub leverage : String
  pub volume : Decimal
  pub executed_volume : Decimal
  pub cost : Decimal
  pub fee : Decimal
  pub average_price : Decimal
  pub stop_price : Decimal
  pub limit_price : Decimal
  pub flags : List String
  pub trade_ids : List String

pub record ClosedOrdersPage : Type 0 where
  pub orders : List OrderRecord
  pub total_count : ℕ
  pub offset : ℕ
  pub observed_at : Instant

pub record TradeRecord : Type 0 where
  pub trade_id : String
  pub order_id : String
  pub position_id : Option String
  pub pair : String
  pub executed_at : Instant
  pub side : Side
  pub order_type : String
  pub price : Decimal
  pub cost : Decimal
  pub fee : Decimal
  pub volume : Decimal
  pub margin : Decimal
  pub maker : Option Bool
  pub exchange_trade_id : Option ℤ
  pub ledger_ids : List String

pub record TradeHistoryPage : Type 0 where
  pub trades : List TradeRecord
  pub total_count : Option ℕ
  pub offset : ℕ
  pub observed_at : Instant

pub record LedgerRecord : Type 0 where
  pub ledger_id : String
  pub reference_id : String
  pub recorded_at : Instant
  pub entry_type : String
  pub subtype : String
  pub asset_class : String
  pub asset : String
  pub amount : Decimal
  pub fee : Decimal
  pub balance : Decimal

pub record LedgerPage : Type 0 where
  pub entries : List LedgerRecord
  pub total_count : Option ℕ
  pub offset : ℕ
  pub observed_at : Instant

pub record WalletAccount : Type 0 where
  pub account_id : String
  pub status : String
  pub active : Bool
  pub account_type : String
