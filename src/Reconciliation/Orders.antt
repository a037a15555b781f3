-- ===== src/Reconciliation/Orders.antt =====
-- The phases of `reconcile_account` on orders, trades and fees.
use kraken_knight.Base.{
  String, Bool, true, false, ◌&&◌, ◌||◌, not, Option, none, some, List, [], ◌∷◌, ◌++◌, map, ltb,
  if◌then◌else◌, is_none, text_eq, one_of, text_join, duplicate_values,
}
use kraken_knight.Decimals.{Decimal, lt, le, eq, sum_from}
use kraken_knight.Domain.{Instant, zero_decimal}
use kraken_knight.Reconciliation.Codes.{
  OrderState, still_open, partially_filled, filled, canceled, expired, rejected, unknown_pair,
  duplicate_order_id, duplicate_client_order_id, invalid_order, duplicate_trade_id, invalid_trade,
  unknown_trade_order, inconsistent_trade, inconsistent_fill_total, same_side,
}
use kraken_knight.Reconciliation.Records.{AuthoritativeOrder, AuthoritativeTrade}
use kraken_knight.Reconciliation.Balances.{Discrepancy, add_if, add_each, supported_pair}

-- `value is not None and test(value)`
abbrev pub given_and {ℓ} : {A : Type ℓ} → Option A → (A → Bool) → Bool
given_and none test = false
given_and (some a) test = test a

unfoldable pub breaks_order : AuthoritativeOrder → Instant → Bool
breaks_order o observed_at =
    le o.quantity_btc zero_decimal
    || lt o.filled_quantity_btc zero_decimal
    || lt o.quantity_btc o.filled_quantity_btc
    || given_and o.limit_price_cad (λ p. le p zero_decimal)
    || given_and o.closed_at (λ c. ltb c o.opened_at)
    || ltb observed_at o.opened_at
    || given_and o.closed_at (λ c. ltb observed_at c)

-- what the state says of the fill and of the closing time
unfoldable pub breaks_state : AuthoritativeOrder → OrderState → Bool
breaks_state o still_open = not (eq o.filled_quantity_btc zero_decimal) || not (is_none o.closed_at)
breaks_state o partially_filled =
    not (lt zero_decimal o.filled_quantity_btc && lt o.filled_quantity_btc o.quantity_btc)
    || not (is_none o.closed_at)
breaks_state o filled = not (eq o.filled_quantity_btc o.quantity_btc) || is_none o.closed_at
breaks_state o canceled = le o.quantity_btc o.filled_quantity_btc || is_none o.closed_at
breaks_state o expired = le o.quantity_btc o.filled_quantity_btc || is_none o.closed_at
breaks_state o rejected = not (eq o.filled_quantity_btc zero_decimal) || is_none o.closed_at

unfoldable pub is_invalid : AuthoritativeOrder → Instant → Bool
is_invalid o observed_at = breaks_order o observed_at || breaks_state o o.state

-- `_validate_order`: what it adds, and what it returns
unfoldable pub order_discrepancies : AuthoritativeOrder → Instant → List Discrepancy
order_discrepancies o observed_at =
    add_if (not (text_eq o.pair supported_pair)) unknown_pair "order" o.order_id
      (text_join "unsupported pair " o.pair)
    ++ add_if (is_invalid o observed_at) invalid_order "order" o.order_id
        "quantity, fill, price, timestamp, or state invariants failed"

unfoldable pub validate_order : AuthoritativeOrder → Instant → Bool
validate_order o observed_at = not (is_invalid o observed_at) && text_eq o.pair supported_pair

unfoldable pub check_orders : List AuthoritativeOrder → Instant → List Discrepancy
check_orders [] observed_at = []
check_orders (o ∷ os) observed_at = order_discrepancies o observed_at ++ check_orders os observed_at

abbrev pub given_ids : List AuthoritativeOrder → List String
given_ids [] = []
given_ids (o ∷ os) = elim o.client_order_id [ none ↦ given_ids os | some id ↦ id ∷ given_ids os ]

-- An order without duplicates of its identifiers: `valid_order_ids` has those that are valid too.
unfoldable pub valid_orders :
    (duplicates clients : List String) → Instant → List AuthoritativeOrder → List String
valid_orders duplicates clients observed_at [] = []
valid_orders duplicates clients observed_at (o ∷ os) =
    let rest = valid_orders duplicates clients observed_at os in
    if validate_order o observed_at
      && not (one_of o.order_id duplicates)
      && not (given_and o.client_order_id (λ id. one_of id clients))
    then o.order_id ∷ rest
    else rest

abbrev pub order_ids : List AuthoritativeOrder → List String
order_ids orders = map (λ (o : AuthoritativeOrder). o.order_id) orders

unfoldable pub valid_order_ids : List AuthoritativeOrder → Instant → List String
valid_order_ids orders observed_at =
    valid_orders (duplicate_values (order_ids orders)) (duplicate_values (given_ids orders))
      observed_at orders

unfoldable pub order_phase : List AuthoritativeOrder → Instant → List Discrepancy
order_phase orders observed_at =
    add_each (duplicate_values (order_ids orders)) duplicate_order_id "order"
      "authoritative order identifiers must be unique"
    ++ (add_each (duplicate_values (given_ids orders)) duplicate_client_order_id "order"
          "client order identifiers must be globally unique in the local ledger"
        ++ check_orders orders observed_at)

-- `order_by_id.get(id)`: the first order of an identifier
abbrev pub order_by_id : String → List AuthoritativeOrder → Option AuthoritativeOrder
order_by_id id [] = none
order_by_id id (o ∷ os) = if text_eq o.order_id id then some o else order_by_id id os

unfoldable pub is_inconsistent : AuthoritativeTrade → AuthoritativeOrder → Bool
is_inconsistent t o =
    not (text_eq t.pair o.pair)
    || not (same_side t.side o.side)
    || ltb t.executed_at o.opened_at
    || given_and o.closed_at (λ c. ltb c t.executed_at)

unfoldable pub breaks_trade : AuthoritativeTrade → Instant → Bool
breaks_trade t observed_at =
    le t.quantity_btc zero_decimal || le t.price_cad zero_decimal || ltb observed_at t.executed_at

module _ (orders : List AuthoritativeOrder) (observed_at : Instant) where
  -- the rest of one round of the loop, once the order is looked up
  unfoldable pub trade_against : AuthoritativeTrade → Option AuthoritativeOrder → List Discrepancy
  trade_against t none =
      add_if true unknown_trade_order "trade" t.trade_id
        (text_join "referenced order " (text_join t.order_id " is absent"))
  trade_against t (some o) =
      add_if (is_inconsistent t o) inconsistent_trade "trade" t.trade_id
        "trade disagrees with its authoritative order"

  unfoldable pub trade_discrepancies : AuthoritativeTrade → List Discrepancy
  trade_discrepancies t =
      add_if (not (text_eq t.pair supported_pair)) unknown_pair "trade" t.trade_id
        (text_join "unsupported pair " t.pair)
      ++ (if breaks_trade t observed_at
          then add_if true invalid_trade "trade" t.trade_id
              "trade quantity and price must be positive"
          else trade_against t (order_by_id t.order_id orders))

  unfoldable pub check_trades : List AuthoritativeTrade → List Discrepancy
  check_trades [] = []
  check_trades (t ∷ ts) = trade_discrepancies t ++ check_trades ts

  -- a trade that reaches the end of its round and goes into `valid_trade_ids`
  unfoldable pub is_valid_trade : List String → List String → AuthoritativeTrade → Bool
  is_valid_trade valid duplicates t =
      not (breaks_trade t observed_at)
      && given_and (order_by_id t.order_id orders)
          (λ o. not (is_inconsistent t o) && one_of o.order_id valid)
      && not (one_of t.trade_id duplicates)
      && text_eq t.pair supported_pair

  unfoldable pub valid_trades : List String → List String → List AuthoritativeTrade → List String
  valid_trades valid duplicates [] = []
  valid_trades valid duplicates (t ∷ ts) =
      let rest = valid_trades valid duplicates ts in
      if is_valid_trade valid duplicates t then t.trade_id ∷ rest else rest

abbrev pub trade_ids : List AuthoritativeTrade → List String
trade_ids trades = map (λ (t : AuthoritativeTrade). t.trade_id) trades

unfoldable pub valid_trade_ids :
    List AuthoritativeOrder → List AuthoritativeTrade → Instant → List String
valid_trade_ids orders trades observed_at =
    valid_trades orders observed_at (valid_order_ids orders observed_at)
      (duplicate_values (trade_ids trades)) trades

unfoldable pub trade_phase :
    List AuthoritativeOrder → List AuthoritativeTrade → Instant → List Discrepancy
trade_phase orders trades observed_at =
    add_each (duplicate_values (trade_ids trades)) duplicate_trade_id "trade"
      "authoritative trade identifiers must be unique"
    ++ check_trades orders observed_at trades

-- the quantities of an order's valid trades, in the order of the trades
abbrev pub fills : String → List String → List AuthoritativeTrade → List Decimal
fills id valid [] = []
fills id valid (t ∷ ts) =
    if one_of t.trade_id valid && text_eq t.order_id id
    then t.quantity_btc ∷ fills id valid ts
    else fills id valid ts

unfoldable pub check_fills :
    (orders_valid trades_valid : List String)
    → List AuthoritativeTrade
    → List AuthoritativeOrder
    → List Discrepancy
check_fills orders_valid trades_valid trades [] = []
check_fills orders_valid trades_valid trades (o ∷ os) =
    add_if
      (one_of o.order_id orders_valid
        && not (
            eq (sum_from zero_decimal (fills o.order_id trades_valid trades))
              o.filled_quantity_btc))
      inconsistent_fill_total "order" o.order_id
      "sum of unique authoritative trades does not equal filled quantity"
    ++ check_fills orders_valid trades_valid trades os
