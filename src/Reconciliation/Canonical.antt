-- ===== src/Reconciliation/Canonical.antt =====
-- The report does not depend on the order of the observations.
use kraken_knight.Base.{◌≡◌, ap, text_join, AllApart, Reordered, sort_before-Reordered}
use kraken_knight.Reconciliation.Records.{
  AssetBalance, Liability, AuthoritativeOrder, AuthoritativeTrade, TradeFee, LegacySubmissionHint,
  AccountSnapshot,
}
use kraken_knight.Reconciliation.Report.{
  Observed, ReconciliationReport, Digests, report_body, balance_lt, order_lt, trade_lt, fee_lt,
  liability_lt, hint_lt, stable_records, reconcile_account,
}

-- Two observations of the same account in another order.
pub record IsShuffled (digests : Digests) (s t : AccountSnapshot) : Type 0 where
  pub account_same : s.account_id ≡ t.account_id
  pub instant_same : s.observed_at ≡ t.observed_at
  pub history_same : s.inventory_history_complete ≡ t.inventory_history_complete
  pub balances_same : Reordered s.balances t.balances
  pub orders_same : Reordered s.orders t.orders
  pub trades_same : Reordered s.trades t.trades
  pub fees_same : Reordered s.fees t.fees
  pub liabilities_same : Reordered s.liabilities t.liabilities
  pub hints_same : Reordered s.legacy_hints t.legacy_hints

-- No two different records of a collection have the same identifier and the same digest.
pub record IsCollisionFree (digests : Digests) (s : AccountSnapshot) : Type 0 where
  pub balances_apart : AllApart (balance_lt digests) s.balances
  pub orders_apart : AllApart (order_lt digests) s.orders
  pub trades_apart : AllApart (trade_lt digests) s.trades
  pub fees_apart : AllApart (fee_lt digests) s.fees
  pub liabilities_apart : AllApart (liability_lt digests) s.liabilities
  pub hints_apart : AllApart (hint_lt digests) s.legacy_hints

abbrev reported : Digests → Observed → ReconciliationReport
reported digests s =
    let body = report_body digests s in
    record {
      report_id = text_join "reconciliation_" (digests.of_body body);
      content_hash = digests.of_body body;
      body = body;
    }

-- The report does not depend on the order in which the exchange lists the balances, orders, trades,
-- fees, liabilities and hints: two snapshots that differ in nothing else have the same report, if
-- no two different records of one collection share their identifier and their digest.
pub reconcile_account-IsShuffled :
    (digests : Digests) (s t : AccountSnapshot)
    → IsShuffled digests s t
    → IsCollisionFree digests s
    → reconcile_account digests s ≡ reconcile_account digests t
unfolding reconcile_account stable_records
reconcile_account-IsShuffled digests s t h c =
    let balances =
      sort_before-Reordered (λ (x : AssetBalance). x.asset) digests.of_balance h.balances_same
        c.balances_apart in
    let orders =
      sort_before-Reordered (λ (x : AuthoritativeOrder). x.order_id) digests.of_order h.orders_same
        c.orders_apart in
    let trades =
      sort_before-Reordered (λ (x : AuthoritativeTrade). x.trade_id) digests.of_trade h.trades_same
        c.trades_apart in
    let fees =
      sort_before-Reordered (λ (x : TradeFee). x.fee_id) digests.of_fee h.fees_same c.fees_apart in
    let liabilities =
      sort_before-Reordered (λ (x : Liability). x.asset) digests.of_liability h.liabilities_same
        c.liabilities_apart in
    let hints =
      sort_before-Reordered (λ (x : LegacySubmissionHint). x.hint_id) digests.of_hint h.hints_same
        c.hints_apart in
    let account = h.account_same in
    let instant = h.instant_same in
    let history = h.history_same in
    let same : stable_records digests s ≡ stable_records digests t =
      cc (account, instant, history, balances, orders, trades, fees, liabilities, hints) in
    ap (reported digests) same
