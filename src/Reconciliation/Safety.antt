-- ===== src/Reconciliation/Safety.antt =====
-- A clean report: what the account then satisfies.
use kraken_knight.Base.{
  ◌≡◌, refl, sym, subst, ◌⊎◌, true, false, not, [], map, is_none, any, one_of, duplicate_values,
}
use kraken_knight.Domain.{zero_decimal}
use kraken_knight.Decimals.{lt, le, eq, ◌⊖◌}
use kraken_knight.Reconciliation.Codes.{clean, is_unreliable}
use kraken_knight.Reconciliation.Records.{
  AssetBalance, Liability, AuthoritativeOrder, AccountSnapshot,
}
use kraken_knight.Reconciliation.Balances.{
  Discrepancy, add_each, check_balances, balance_phase, liability_phase,
}
use kraken_knight.Reconciliation.Orders.{
  given_ids, valid_orders, order_ids, valid_order_ids, order_phase, trade_ids, trade_phase,
  check_fills,
}
use kraken_knight.Reconciliation.Fees.{fee_phase}
use kraken_knight.Reconciliation.Hints.{matched_orders, hint_phase}
use kraken_knight.Reconciliation.Account.{ownership_phase, inventory_discrepancies}
use kraken_knight.Reconciliation.Report.{
  Observed, Digests, valid_order_ids_of, valid_trade_ids_of, matchable_orders, matches_of,
  legacy_net_btc, cad_balance, btc_balance, btc_total, observed_discrepancies, inventory_unreliable,
  all_discrepancies, opening_inventory_of, stable_records, reconcile_account,
}
use kraken_knight.Reconciliation.Status.{reconcile_account_status}
use kraken_knight.Reconciliation.Net.{net_of_fills, legacy_net_btc_lem}
use kraken_knight.Reconciliation.Clean.{
  append-nil, is_foreign, is_negative, is_owed, check_balances-clean, check_liabilities-clean,
  missing_balances-clean, is_broken, is_bad_trade, check_orders-clean, check_trades-clean,
  valid_orders-all, is_unmatched, check_fills-clean, order_ids-all, is_stranger,
  ownership_phase-clean, add_each-nil, IsExact, inventory-clean, IsExact-bound,
}

pub record IsReconciled (s : Observed) : Type 0 where
  -- only BTC and CAD, both of them, and nothing below zero
  pub supported : any is_foreign s.balances ≡ false
  pub nonnegative : any is_negative s.balances ≡ false
  pub btc_present : is_none (btc_balance s) ≡ false
  pub cad_present : is_none (cad_balance s) ≡ false
  pub debt_free : any is_owed s.liabilities ≡ false
  -- every order is valid and its valid trades add up to its fill; every trade is well formed
  pub orders_valid : any (is_broken s.observed_at) s.orders ≡ false
  pub fills_match : any (is_unmatched (valid_trade_ids_of s) s.trades) s.orders ≡ false
  pub trades_valid : any (is_bad_trade s.observed_at) s.trades ≡ false
  -- no open order is manual, and every order of unknown owner is matched by a hint
  pub attributed : any (is_stranger (matched_orders (matches_of s))) s.orders ≡ false
  -- the BTC held and the net of the legacy fills are both none, or the net is not negative and does
  -- not differ from what is held; in particular nothing is held beyond the net
  pub explained :
      ((eq (net_of_fills s) zero_decimal ≡ true) × (eq (btc_total s) zero_decimal ≡ true))
      ⊎ ((lt (net_of_fills s) zero_decimal ≡ false)
          × (eq (btc_total s ⊖ net_of_fills s) zero_decimal ≡ true))
  pub no_surplus : le (btc_total s) (net_of_fills s) ≡ true

valid_ids-all :
    (s : Observed)
    → order_phase s.orders s.observed_at ≡ []
    → (any (is_broken s.observed_at) s.orders ≡ false) × (valid_order_ids_of s ≡ order_ids s.orders)
unfolding order_phase valid_order_ids_of valid_order_ids
valid_ids-all s h =
    let (first, more) = append-nil (add_each (duplicate_values (order_ids s.orders)) _ _ _) _ h in
    let (second, checks) =
      append-nil (add_each (duplicate_values (given_ids s.orders)) _ _ _) _ more in
    let ids = add_each-nil (duplicate_values (order_ids s.orders)) _ _ _ first in
    let clients = add_each-nil (duplicate_values (given_ids s.orders)) _ _ _ second in
    let valid = check_orders-clean s.observed_at s.orders checks in
    let all = valid_orders-all s.observed_at s.orders valid in
    (
      valid,
      subst
          (λ d.
            valid_orders d (duplicate_values (given_ids s.orders)) s.observed_at s.orders
            ≡ order_ids s.orders)
          (sym ids)
          (subst (λ c. valid_orders [] c s.observed_at s.orders ≡ order_ids s.orders) (sym clients)
            all),
    )

pub all_discrepancies-IsReconciled : (s : Observed) → all_discrepancies s ≡ [] → IsReconciled s
unfolding all_discrepancies observed_discrepancies balance_phase liability_phase trade_phase
    opening_inventory_of inventory_unreliable
all_discrepancies-IsReconciled s h =
    let (observed, inventory) = append-nil (observed_discrepancies s) _ h in
    let (balances, r1) = append-nil (balance_phase s.balances) _ observed in
    let (liabilities, r2) = append-nil (liability_phase s.liabilities) _ r1 in
    let (orders, r3) = append-nil (order_phase s.orders s.observed_at) _ r2 in
    let (trades, r4) = append-nil (trade_phase s.orders s.trades s.observed_at) _ r3 in
    let (fill, r5) =
      append-nil (check_fills (valid_order_ids_of s) (valid_trade_ids_of s) s.trades s.orders) _
        r4 in
    let (fees, r6) =
      append-nil (fee_phase (trade_ids s.trades) (valid_trade_ids_of s) s.fees) _ r5 in
    let (hints, r7) =
      append-nil
        (hint_phase s.observed_at (matchable_orders s) (valid_trade_ids_of s) s.trades s.hints) _
        r6 in
    let (owners, r8) = append-nil (ownership_phase (matched_orders (matches_of s)) s.orders) _ r7 in
    let (b1, b2) =
      append-nil
        (add_each (duplicate_values (map (λ (b : AssetBalance). b.asset) s.balances)) _ _ _) _
        balances in
    let (b3, b4) = append-nil (check_balances s.balances) _ b2 in
    let (foreign, negative) = check_balances-clean s.balances b3 in
    let (btc, cad) = missing_balances-clean s.balances b4 in
    let (l1, l2) =
      append-nil
        (add_each (duplicate_values (map (λ (l : Liability). l.asset) s.liabilities)) _ _ _) _
        liabilities in
    let (t1, t2) = append-nil (add_each (duplicate_values (trade_ids s.trades)) _ _ _) _ trades in
    let (valid, listed) = valid_ids-all s orders in
    let known =
      subst (λ ids. any (λ (o : AuthoritativeOrder). not (one_of o.order_id ids)) s.orders ≡ false)
        (sym listed) (order_ids-all s.orders) in
    let reliable : inventory_unreliable s ≡ false =
      subst (λ ds. any (λ (d : Discrepancy). is_unreliable d.code) ds ≡ false) (sym observed)
        refl in
    let counted = inventory-clean s.complete (legacy_net_btc s) (btc_total s) (
      subst (λ u. inventory_discrepancies s.complete u (legacy_net_btc s) (btc_total s) ≡ [])
        reliable inventory) in
    let exact = subst (λ n. IsExact n (btc_total s)) (legacy_net_btc_lem s) counted in
    record {
      supported = foreign;
      nonnegative = negative;
      btc_present = btc;
      cad_present = cad;
      debt_free = check_liabilities-clean s.liabilities l2;
      orders_valid = valid;
      fills_match =
          check_fills-clean (valid_order_ids_of s) (valid_trade_ids_of s) s.trades s.orders known
            fill;
      trades_valid = check_trades-clean s.observed_at s.orders s.trades t2;
      attributed = ownership_phase-clean (matched_orders (matches_of s)) s.orders owners;
      explained = exact;
      no_surplus = IsExact-bound (net_of_fills s) (btc_total s) exact;
    }

-- A CLEAN report is safe to trade on. The account has BTC and CAD only, both of them, and no
-- balance below zero; it has no liability; every order is valid and its valid trades add up to its
-- filled quantity; every trade is well formed; no open order is manual and no order of unknown
-- owner is unmatched. Its BTC is explained by the legacy fills, whose net is what valid trades of
-- legacy orders bought, minus what they sold and minus their valid fees in BTC: both are none, or the
-- net is not negative and differs by nothing from the BTC, which in either case does not exceed it.
pub reconcile_account-IsReconciled :
    (digests : Digests) (snapshot : AccountSnapshot)
    → (reconcile_account digests snapshot).body.status ≡ clean
    → IsReconciled (stable_records digests snapshot)
reconcile_account-IsReconciled digests snapshot h =
    all_discrepancies-IsReconciled (stable_records digests snapshot)
      ((reconcile_account_status digests snapshot).0.0 h)
