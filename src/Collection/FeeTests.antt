-- ===== src/Collection/FeeTests.antt =====
-- `_linked_trade_fees` and `_restricted_access_gates` on one purchase and one key.
use kraken_knight.Base.{
  ℕ, String, ◌≡◌, refl, true, false, Bool, none, some, List, [], ◌∷◌, pos, ◌+ℤ◌, Result, ok,
  Strings,
}
use kraken_knight.Decimals.{Decimal, of_ℕ, arithmetic, negate}
use kraken_knight.Reconciliation.Codes.{Side}
use kraken_knight.Reconciliation.Records.{TradeFee, make_fee, require_identifier, require_decimal}
use kraken_knight.Collection.Records.{TradeRecord, LedgerRecord}
use kraken_knight.Collection.Translate.{asset_alias, normalize_asset}
use kraken_knight.Collection.Totals.{half_unit}
use kraken_knight.Collection.Access.{Addresses, is_host, ip_is_allowlisted}
use kraken_knight.Collection.Fees.{
  is_linkable, are_linked, expected_btc, expected_cad, amounts_match, is_fee_consistent,
  linked_entries, trade_fees, link_trades,
}

abbrev words : Strings
words = record {
  strip = λ s. s;
  lower = λ s. s;
  upper = λ s. s;
  replace_dashes = λ s. s;
  collapse = λ s. s;
  of_ℕ = λ n. "0";
}

abbrev minus : ℕ → Decimal
minus n = record { negative = true; coefficient = n; exponent = pos 0 }

-- one bitcoin for 40 dollars, with a fee of one dollar
abbrev purchase : TradeRecord
purchase = record {
  trade_id = "T1";
  order_id = "O1";
  position_id = none;
  pair = "XXBTZCAD";
  executed_at = 20;
  side = Side.buy;
  order_type = "limit";
  price = of_ℕ 40;
  cost = of_ℕ 40;
  fee = of_ℕ 1;
  volume = of_ℕ 1;
  margin = of_ℕ 0;
  maker = none;
  exchange_trade_id = none;
  ledger_ids = "L1" ∷ "L2" ∷ [];
}

abbrev leg : String → String → (amount fee balance : Decimal) → LedgerRecord
leg id asset amount fee balance = record {
  ledger_id = id;
  reference_id = "T1";
  recorded_at = 20;
  entry_type = "trade";
  subtype = "tradespot";
  asset_class = "currency";
  asset = asset;
  amount = amount;
  fee = fee;
  balance = balance;
}

abbrev received : LedgerRecord
received = leg "L1" "XXBT" (of_ℕ 1) (of_ℕ 0) (of_ℕ 1)

abbrev paid : LedgerRecord
paid = leg "L2" "ZCAD" (minus 40) (of_ℕ 1) (of_ℕ 59)

abbrev outcome :
    List TradeRecord
    → List LedgerRecord
    → List String
    → Result (List TradeFee × (List String × Bool))
outcome trades ledgers orders = link_trades words (half_unit 2) (half_unit 8) ledgers orders trades

-- the fee is that of the entry in dollars, and the entries agree with the trade
linked :
    outcome (purchase ∷ []) (received ∷ paid ∷ []) ("O1" ∷ [])
    ≡ ok (
      record { fee_id = "L2"; trade_id = "T1"; asset = "CAD"; amount = of_ℕ 1 } ∷ [],
      ("L1" ∷ "L2" ∷ [], true),
    )
unfolding link_trades linked_entries is_linkable are_linked amounts_match is_fee_consistent
    trade_fees expected_btc expected_cad half_unit normalize_asset asset_alias arithmetic ◌+ℤ◌
    negate make_fee require_identifier require_decimal
linked = refl

-- an entry that is not there makes the history inconsistent, and gives no fee
missing : outcome (purchase ∷ []) (paid ∷ []) ("O1" ∷ []) ≡ ok ([], ([], false))
unfolding link_trades linked_entries is_linkable are_linked amounts_match is_fee_consistent
    trade_fees expected_btc expected_cad half_unit normalize_asset asset_alias arithmetic ◌+ℤ◌
    negate make_fee require_identifier require_decimal
missing = refl

-- the order of the trade must be known
orphan :
    outcome (purchase ∷ []) (received ∷ paid ∷ []) []
    ≡ ok (
      record { fee_id = "L2"; trade_id = "T1"; asset = "CAD"; amount = of_ℕ 1 } ∷ [],
      ("L1" ∷ "L2" ∷ [], false),
    )
unfolding link_trades linked_entries is_linkable are_linked amounts_match is_fee_consistent
    trade_fees expected_btc expected_cad half_unit normalize_asset asset_alias arithmetic ◌+ℤ◌
    negate make_fee require_identifier require_decimal
orphan = refl

abbrev host : Addresses
host = record {
  ip_address = λ s. ok (record { version = 4; number = 7 });
  ip_network = λ s. some (record { version = 4; number = 7 }, 32);
}

accepted : ip_is_allowlisted words host "0.0.0.7" ("0.0.0.7/32" ∷ []) ≡ ok true
unfolding ip_is_allowlisted is_host
accepted = refl

two_entries : ip_is_allowlisted words host "0.0.0.7" ("0.0.0.7/32" ∷ "0.0.0.8/32" ∷ []) ≡ ok false
unfolding ip_is_allowlisted is_host
two_entries = refl
