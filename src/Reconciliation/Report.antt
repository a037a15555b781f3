-- ===== src/Reconciliation/Report.antt =====
-- `reconcile_account`: the phases put together, and the report.
use kraken_knight.Base.{
  ℕ, String, Bool, false, ◌&&◌, ◌||◌, not, Option, List, ◌++◌, ◌==◌, any, value_error, Result, ok,
  ◌>>◌, raise_if, text_eq, one_of, text_join, text_lt, sort_by, keep_if, before, sort_texts,
}
use kraken_knight.Decimals.{Decimal, ◌⊕◌, ◌⊖◌}
use kraken_knight.Domain.{Instant}
use kraken_knight.Reconciliation.Codes.{
  Status, Side, is_open, basis_text, ReasonCode, is_unreliable,
}
use kraken_knight.Reconciliation.Records.{
  AssetBalance, Liability, AuthoritativeOrder, AuthoritativeTrade, TradeFee, LegacySubmissionHint,
  AccountSnapshot,
}
use kraken_knight.Reconciliation.Balances.{Discrepancy, balance_of, balance_phase, liability_phase}
use kraken_knight.Reconciliation.Orders.{
  order_ids, valid_order_ids, order_phase, trade_ids, valid_trade_ids, trade_phase, check_fills,
}
use kraken_knight.Reconciliation.Fees.{fee_ids, valid_fees, fee_phase, total_fees}
use kraken_knight.Reconciliation.Hints.{
  LegacySubmissionMatch, match_hints, matched_orders, hint_phase,
}
use kraken_knight.Reconciliation.Account.{
  is_legacy, ownership_phase, check_held, available_of, held_of, legacy_trades, net_btc,
  OpeningInventory, classify_inventory, inventory_discrepancies, normalize, reason_codes_of,
  status_of,
}

-- The records of a snapshot in their stable order.
pub record Observed : Type 0 where
  pub account_id : String
  pub observed_at : Instant
  pub balances : List AssetBalance
  pub orders : List AuthoritativeOrder
  pub trades : List AuthoritativeTrade
  pub fees : List TradeFee
  pub liabilities : List Liability
  pub hints : List LegacySubmissionHint
  pub complete : Bool

-- `ZeroWriteProof`, whose fields may only have their defaults
pub record ZeroWriteProof : Type 0 where
  pub exchange_writes : Bool
  pub network_calls : ℕ
  pub persistence_writes : ℕ
  pub implementation : String

unfoldable pub make_zero_write_proof : Bool → ℕ → ℕ → String → Result ZeroWriteProof
make_zero_write_proof writes calls stored implementation =
    raise_if (writes || not (calls == 0) || not (stored == 0))
      (value_error "zero-write proof fields are invariant")
    >> ok (record {
      exchange_writes = writes;
      network_calls = calls;
      persistence_writes = stored;
      implementation = implementation;
    })

abbrev pub zero_write_proof : ZeroWriteProof
zero_write_proof = record {
  exchange_writes = false;
  network_calls = 0;
  persistence_writes = 0;
  implementation = "exchange_independent_reconciliation_v1";
}

-- What the report's hash is taken of.
pub record ReportBody : Type 0 where
  pub schema_version : ℕ
  pub source_hash : String
  pub account_id : String
  pub observed_at : Instant
  pub status : Status
  pub reason_codes : List ReasonCode
  pub discrepancies : List Discrepancy
  pub legacy_matches : List LegacySubmissionMatch
  pub opening_inventory : OpeningInventory
  pub open_order_ids : List String
  pub total_fees_cad : Decimal
  pub total_fees_btc : Decimal
  pub proof : ZeroWriteProof

pub record ReconciliationReport : Type 0 where
  pub report_id : String
  pub content_hash : String
  pub body : ReportBody

-- `sha256_json` of each kind of record
pub record Digests : Type 0 where
  pub of_balance : AssetBalance → String
  pub of_order : AuthoritativeOrder → String
  pub of_trade : AuthoritativeTrade → String
  pub of_fee : TradeFee → String
  pub of_liability : Liability → String
  pub of_hint : LegacySubmissionHint → String
  pub of_source : Observed → String
  pub of_body : ReportBody → String

-- the facts that several phases use
unfoldable pub valid_order_ids_of : Observed → List String
valid_order_ids_of s = valid_order_ids s.orders s.observed_at

unfoldable pub valid_trade_ids_of : Observed → List String
valid_trade_ids_of s = valid_trade_ids s.orders s.trades s.observed_at

unfoldable pub matchable_orders : Observed → List AuthoritativeOrder
matchable_orders s =
    keep_if (λ (o : AuthoritativeOrder). one_of o.order_id (valid_order_ids_of s)) s.orders

unfoldable pub matches_of : Observed → List LegacySubmissionMatch
matches_of s =
    match_hints s.observed_at (matchable_orders s) (valid_trade_ids_of s) s.trades s.hints

unfoldable pub legacy_net_btc : Observed → Decimal
legacy_net_btc s =
    let owners =
      matched_orders (matches_of s)
      ++ order_ids (keep_if (λ (o : AuthoritativeOrder). is_legacy o.ownership) s.orders) in
    net_btc (legacy_trades (valid_trade_ids_of s) owners s.trades)
      (fee_ids (valid_fees (valid_trade_ids_of s) s.fees)) s.fees

abbrev pub cad_balance : Observed → Option AssetBalance
cad_balance s = balance_of "CAD" s.balances

abbrev pub btc_balance : Observed → Option AssetBalance
btc_balance s = balance_of "BTC" s.balances

abbrev pub btc_total : Observed → Decimal
btc_total s = available_of (btc_balance s) ⊕ held_of (btc_balance s)

-- every phase before the inventory, in the source's order
unfoldable pub observed_discrepancies : Observed → List Discrepancy
observed_discrepancies s =
    balance_phase s.balances
    ++ (liability_phase s.liabilities
        ++ (order_phase s.orders s.observed_at
            ++ (trade_phase s.orders s.trades s.observed_at
                ++ (check_fills (valid_order_ids_of s) (valid_trade_ids_of s) s.trades s.orders
                    ++ (fee_phase (trade_ids s.trades) (valid_trade_ids_of s) s.fees
                        ++ (hint_phase s.observed_at (matchable_orders s) (valid_trade_ids_of s)
                              s.trades s.hints
                            ++ (ownership_phase (matched_orders (matches_of s)) s.orders
                                ++ (check_held (cad_balance s) Side.buy "CAD"
                                      "held CAD has no corresponding open buy order" s.orders
                                    ++ check_held (btc_balance s) Side.sell "BTC"
                                        "held BTC has no corresponding open sell order"
                                        s.orders))))))))

unfoldable pub inventory_unreliable : Observed → Bool
inventory_unreliable s = any (λ (d : Discrepancy). is_unreliable d.code) (observed_discrepancies s)

unfoldable pub all_discrepancies : Observed → List Discrepancy
all_discrepancies s =
    observed_discrepancies s
    ++ inventory_discrepancies s.complete (inventory_unreliable s) (legacy_net_btc s) (btc_total s)

unfoldable pub opening_inventory_of : Observed → OpeningInventory
opening_inventory_of s = record {
  cad_available = available_of (cad_balance s);
  cad_held = held_of (cad_balance s);
  cad_total = available_of (cad_balance s) ⊕ held_of (cad_balance s);
  btc_available = available_of (btc_balance s);
  btc_held = held_of (btc_balance s);
  btc_total = btc_total s;
  legacy_net_btc = legacy_net_btc s;
  btc_variance_from_legacy = btc_total s ⊖ legacy_net_btc s;
  classification =
      classify_inventory s.complete (inventory_unreliable s) (legacy_net_btc s) (btc_total s);
}

abbrev match_lt : LegacySubmissionMatch → LegacySubmissionMatch → Bool
match_lt a b =
    text_lt a.hint_id b.hint_id
    || (text_eq a.hint_id b.hint_id
        && (text_lt a.order_id b.order_id
            || (text_eq a.order_id b.order_id
                && text_lt (basis_text a.basis) (basis_text b.basis))))

unfoldable pub open_order_ids_of : List AuthoritativeOrder → List String
open_order_ids_of orders =
    sort_texts (order_ids (keep_if (λ (o : AuthoritativeOrder). is_open o.state) orders))

module _ (digests : Digests) where
  unfoldable pub report_body : Observed → ReportBody
  report_body s =
      let discrepancies = normalize (all_discrepancies s) in
      let codes = reason_codes_of discrepancies in
      record {
        schema_version = 1;
        source_hash = digests.of_source s;
        account_id = s.account_id;
        observed_at = s.observed_at;
        status = status_of codes discrepancies;
        reason_codes = codes;
        discrepancies = discrepancies;
        legacy_matches = sort_by match_lt (matches_of s);
        opening_inventory = opening_inventory_of s;
        open_order_ids = open_order_ids_of s.orders;
        total_fees_cad = total_fees "CAD" (valid_trade_ids_of s) s.fees;
        total_fees_btc = total_fees "BTC" (valid_trade_ids_of s) s.fees;
        proof = zero_write_proof;
      }

  -- `_stable_records` of each collection
  abbrev pub balance_lt : AssetBalance → AssetBalance → Bool
  balance_lt = before (λ (b : AssetBalance). b.asset) digests.of_balance

  abbrev pub order_lt : AuthoritativeOrder → AuthoritativeOrder → Bool
  order_lt = before (λ (o : AuthoritativeOrder). o.order_id) digests.of_order

  abbrev pub trade_lt : AuthoritativeTrade → AuthoritativeTrade → Bool
  trade_lt = before (λ (t : AuthoritativeTrade). t.trade_id) digests.of_trade

  abbrev pub fee_lt : TradeFee → TradeFee → Bool
  fee_lt = before (λ (f : TradeFee). f.fee_id) digests.of_fee

  abbrev pub liability_lt : Liability → Liability → Bool
  liability_lt = before (λ (l : Liability). l.asset) digests.of_liability

  abbrev pub hint_lt : LegacySubmissionHint → LegacySubmissionHint → Bool
  hint_lt = before (λ (h : LegacySubmissionHint). h.hint_id) digests.of_hint

  unfoldable pub stable_records : AccountSnapshot → Observed
  stable_records s = record {
    account_id = s.account_id;
    observed_at = s.observed_at;
    balances = sort_by balance_lt s.balances;
    orders = sort_by order_lt s.orders;
    trades = sort_by trade_lt s.trades;
    fees = sort_by fee_lt s.fees;
    liabilities = sort_by liability_lt s.liabilities;
    hints = sort_by hint_lt s.legacy_hints;
    complete = s.inventory_history_complete;
  }

  unfoldable pub reconcile_account : AccountSnapshot → ReconciliationReport
  unfolding report_body stable_records
  reconcile_account s =
      let body = report_body (stable_records s) in
      record {
        report_id = text_join "reconciliation_" (digests.of_body body);
        content_hash = digests.of_body body;
        body = body;
      }
