-- ===== src/Reconciliation/Tests.antt =====
-- The reconciliation of a small account, and each theorem applied to it.
use kraken_knight.Base.{
  String, ◌≡◌, refl, ◌↔◌, inr, true, none, some, List, [], ◌∷◌, any, ◌+ℤ◌, nothing, kept, exchanged,
}
use kraken_knight.Reconciliation.Canonical.{
  IsShuffled, IsCollisionFree, reconcile_account-IsShuffled,
}
use kraken_knight.Reconciliation.Safety.{IsReconciled, reconcile_account-IsReconciled}
use kraken_knight.Reconciliation.Status.{disarms, reconcile_account_status}
use kraken_knight.Decimals.{of_ℕ, arithmetic}
use kraken_knight.Reconciliation.Codes.{clean, disarmed, Side, filled, is_open, legacy}
use kraken_knight.Reconciliation.Records.{
  AssetBalance, AuthoritativeOrder, AuthoritativeTrade, AccountSnapshot,
}
use kraken_knight.Reconciliation.Balances.{
  add_if, add_each, check_balance, check_balances, missing_balances, balance_phase,
  check_liabilities, liability_phase,
}
use kraken_knight.Reconciliation.Orders.{
  breaks_order, breaks_state, is_invalid, order_discrepancies, validate_order, check_orders,
  valid_orders, valid_order_ids, order_phase, is_inconsistent, breaks_trade, trade_against,
  trade_discrepancies, check_trades, is_valid_trade, valid_trades, valid_trade_ids, trade_phase,
  check_fills,
}
use kraken_knight.Reconciliation.Fees.{check_fees, valid_fees, fee_phase}
use kraken_knight.Reconciliation.Hints.{check_hints, match_hints, check_multiples, hint_phase}
use kraken_knight.Reconciliation.Account.{
  check_ownership, ownership_phase, check_held, legacy_trades, legacy_fees, net_btc,
  inventory_discrepancies, unique_discrepancies, normalize, unique_codes, reason_codes_of,
  status_of,
}
use kraken_knight.Reconciliation.Report.{
  Digests, valid_order_ids_of, valid_trade_ids_of, matchable_orders, matches_of, legacy_net_btc,
  observed_discrepancies, inventory_unreliable, all_discrepancies, report_body, stable_records,
  reconcile_account,
}

abbrev plain_digests : Digests
plain_digests = record {
  of_balance = λ b. "";
  of_order = λ o. "";
  of_trade = λ t. "";
  of_fee = λ f. "";
  of_liability = λ l. "";
  of_hint = λ h. "";
  of_source = λ s. "source";
  of_body = λ b. "body";
}

abbrev cad : AssetBalance
cad = record { asset = "CAD"; available = of_ℕ 100; held = of_ℕ 0 }

abbrev bitcoin : AssetBalance
bitcoin = record { asset = "BTC"; available = of_ℕ 2; held = of_ℕ 0 }

abbrev purchase : AuthoritativeOrder
purchase = record {
  order_id = "order";
  pair = "BTC/CAD";
  side = Side.buy;
  state = filled;
  quantity_btc = of_ℕ 2;
  filled_quantity_btc = of_ℕ 2;
  opened_at = 10;
  closed_at = some 20;
  limit_price_cad = some (of_ℕ 50);
  client_order_id = none;
  ownership = legacy;
}

abbrev fill : String → AuthoritativeTrade
fill id = record {
  trade_id = id;
  order_id = "order";
  pair = "BTC/CAD";
  side = Side.buy;
  quantity_btc = of_ℕ 1;
  price_cad = of_ℕ 50;
  executed_at = 15;
}

abbrev account : List AssetBalance → List AuthoritativeTrade → AccountSnapshot
account balances trades = record {
  account_id = "alice";
  observed_at = 30;
  balances = balances;
  orders = purchase ∷ [];
  trades = trades;
  fees = [];
  liabilities = [];
  legacy_hints = [];
  inventory_history_complete = true;
}

abbrev observed_account : AccountSnapshot
observed_account = account (cad ∷ bitcoin ∷ []) (fill "b" ∷ fill "a" ∷ [])

reports_clean : (reconcile_account plain_digests observed_account).body.status ≡ clean
unfolding reconcile_account stable_records report_body status_of reason_codes_of normalize
    unique_codes unique_discrepancies all_discrepancies observed_discrepancies balance_phase
    check_balances check_balance missing_balances liability_phase check_liabilities order_phase
    check_orders order_discrepancies is_invalid breaks_order breaks_state validate_order
    valid_orders valid_order_ids valid_order_ids_of valid_trade_ids valid_trade_ids_of valid_trades
    is_valid_trade trade_phase check_trades trade_discrepancies trade_against is_inconsistent
    breaks_trade check_fills fee_phase check_fees valid_fees hint_phase check_hints match_hints
    matches_of matchable_orders check_multiples ownership_phase check_ownership is_open check_held
    inventory_discrepancies inventory_unreliable legacy_net_btc net_btc legacy_trades legacy_fees
    add_if add_each arithmetic ◌+ℤ◌
reports_clean = refl

-- the same observations, listed in another order
abbrev shuffled_account : AccountSnapshot
shuffled_account = account (bitcoin ∷ cad ∷ []) (fill "a" ∷ fill "b" ∷ [])

is_shuffled : IsShuffled plain_digests observed_account shuffled_account
is_shuffled = record {
  account_same = refl;
  instant_same = refl;
  history_same = refl;
  balances_same = exchanged cad bitcoin [];
  orders_same = kept purchase nothing;
  trades_same = exchanged (fill "b") (fill "a") [];
  fees_same = nothing;
  liabilities_same = nothing;
  hints_same = nothing;
}

collision_free : IsCollisionFree plain_digests observed_account
collision_free = record {
  balances_apart = ((inr (inr refl), tt), (tt, tt));
  orders_apart = (tt, tt);
  trades_apart = ((inr (inr refl), tt), (tt, tt));
  fees_apart = tt;
  liabilities_apart = tt;
  hints_apart = tt;
}

reconcile_account-IsShuffled_example :
    reconcile_account plain_digests observed_account
    ≡ reconcile_account plain_digests shuffled_account
reconcile_account-IsShuffled_example =
    reconcile_account-IsShuffled plain_digests observed_account shuffled_account is_shuffled
      collision_free

reconcile_account-IsReconciled_example :
    IsReconciled (stable_records plain_digests observed_account)
reconcile_account-IsReconciled_example =
    reconcile_account-IsReconciled plain_digests observed_account reports_clean

reconcile_account_status_example :
    (((reconcile_account plain_digests observed_account).body.status ≡ clean)
      ↔ (all_discrepancies (stable_records plain_digests observed_account) ≡ []))
    × (((reconcile_account plain_digests observed_account).body.status ≡ disarmed)
        ↔ (any disarms (all_discrepancies (stable_records plain_digests observed_account)) ≡ true))
reconcile_account_status_example = reconcile_account_status plain_digests observed_account
