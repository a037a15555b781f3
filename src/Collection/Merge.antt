-- ===== src/Collection/Merge.antt =====
-- The merging of pages, and the tests that the history is complete and quiet.
use kraken_knight.Base.{
  ℕ, String, Bool, true, false, ◌&&◌, not, Option, none, some, List, [], ◌∷◌, ◌++◌, map, ltb, ◌==◌,
  if◌then◌else◌, length, any, ℤ, leb_ℤ, text_eq, one_of, text_lt, sort_by,
}
use kraken_knight.Decimals.{eq}
use kraken_knight.Reconciliation.Codes.{same_side}
use kraken_knight.Collection.Records.{
  OrderRecord, ClosedOrdersPage, TradeRecord, TradeHistoryPage, LedgerRecord, LedgerPage,
}

-- the three merges have the same text; `key` is the identifier and `same` the equality of records
module _ {ℓ} {A : Type ℓ} (key : A → String) (same : A → A → Bool) where
  abbrev pub find_key : String → List A → Option A
  find_key id [] = none
  find_key id (x ∷ xs) = if text_eq (key x) id then some x else find_key id xs

  -- `by_id[key] = record`
  abbrev pub set_key : A → List A → List A
  set_key x [] = x ∷ []
  set_key x (y ∷ ys) = if text_eq (key y) (key x) then x ∷ ys else y ∷ set_key x ys

  -- one group's records into the dictionary; the flag is `consistent`
  unfoldable pub merge_into : List A → Bool → List A → List A × Bool
  merge_into by_id consistent [] = (by_id, consistent)
  merge_into by_id consistent (x ∷ xs) = elim (find_key (key x) by_id) [
    | none ↦ merge_into (set_key x by_id) consistent xs
    | some old ↦
        if same old x then merge_into (set_key x by_id) consistent xs else merge_into by_id false xs
  ]

  abbrev pub flatten : List (List A) → List A
  flatten [] = []
  flatten (g ∷ gs) = g ++ flatten gs

  abbrev key_lt : A → A → Bool
  key_lt x y = text_lt (key x) (key y)

  -- `_merge_orders`, `_merge_trades` and `_merge_ledgers`
  unfoldable pub merge : List (List A) → List A × Bool
  unfolding merge_into
  merge groups =
      let merged = merge_into [] true (flatten groups) in (sort_by key_lt merged.0, merged.1)

-- `==` of two optional values, of tuples of texts, and of the three records
abbrev pub option_same {ℓ} : {A : Type ℓ} → (A → A → Bool) → Option A → Option A → Bool
option_same same none none = true
option_same same (some a) (some b) = same a b
option_same same a b = false

abbrev pub texts_same : List String → List String → Bool
texts_same [] [] = true
texts_same (s ∷ ss) (t ∷ ts) = text_eq s t && texts_same ss ts
texts_same ss ts = false

abbrev same_instant : ℕ → ℕ → Bool
same_instant a b = a == b

abbrev same_integer : ℤ → ℤ → Bool
same_integer a b = leb_ℤ a b && leb_ℤ b a

abbrev same_bool : Bool → Bool → Bool
same_bool a b = if a then b else not b

unfoldable pub entry_same : LedgerRecord → LedgerRecord → Bool
entry_same a b =
    text_eq a.ledger_id b.ledger_id
    && text_eq a.reference_id b.reference_id
    && a.recorded_at == b.recorded_at
    && text_eq a.entry_type b.entry_type
    && text_eq a.subtype b.subtype
    && text_eq a.asset_class b.asset_class
    && text_eq a.asset b.asset
    && eq a.amount b.amount
    && eq a.fee b.fee
    && eq a.balance b.balance

unfoldable pub trade_same : TradeRecord → TradeRecord → Bool
trade_same a b =
    text_eq a.trade_id b.trade_id
    && text_eq a.order_id b.order_id
    && option_same text_eq a.position_id b.position_id
    && text_eq a.pair b.pair
    && a.executed_at == b.executed_at
    && same_side a.side b.side
    && text_eq a.order_type b.order_type
    && eq a.price b.price
    && eq a.cost b.cost
    && eq a.fee b.fee
    && eq a.volume b.volume
    && eq a.margin b.margin
    && option_same same_bool a.maker b.maker
    && option_same same_integer a.exchange_trade_id b.exchange_trade_id
    && texts_same a.ledger_ids b.ledger_ids

unfoldable pub order_same : OrderRecord → OrderRecord → Bool
order_same a b =
    text_eq a.order_id b.order_id
    && option_same text_eq a.client_order_id b.client_order_id
    && option_same text_eq a.reference_id b.reference_id
    && option_same same_integer a.user_reference b.user_reference
    && text_eq a.status b.status
    && option_same text_eq a.reason b.reason
    && a.opened_at == b.opened_at
    && option_same same_instant a.closed_at b.closed_at
    && option_same same_instant a.starts_at b.starts_at
    && option_same same_instant a.expires_at b.expires_at
    && text_eq a.pair b.pair
    && same_side a.side b.side
    && text_eq a.order_type b.order_type
    && eq a.requested_price b.requested_price
    && eq a.secondary_price b.secondary_price
    && text_eq a.leverage b.leverage
    && eq a.volume b.volume
    && eq a.executed_volume b.executed_volume
    && eq a.cost b.cost
    && eq a.fee b.fee
    && eq a.average_price b.average_price
    && eq a.stop_price b.stop_price
    && eq a.limit_price b.limit_price
    && texts_same a.flags b.flags
    && texts_same a.trade_ids b.trade_ids

unfoldable pub merge_orders : List (List OrderRecord) → List OrderRecord × Bool
unfolding merge order_same
merge_orders groups = merge (λ (o : OrderRecord). o.order_id) order_same groups

unfoldable pub merge_trades : List (List TradeRecord) → List TradeRecord × Bool
unfolding merge trade_same
merge_trades groups = merge (λ (t : TradeRecord). t.trade_id) trade_same groups

unfoldable pub merge_ledgers : List (List LedgerRecord) → List LedgerRecord × Bool
unfolding merge entry_same
merge_ledgers groups = merge (λ (e : LedgerRecord). e.ledger_id) entry_same groups

unfoldable pub counted : Option ℕ → ℕ → ℕ → Bool
counted none n limit = ltb n limit
counted (some total) n limit = total == n

-- `_history_complete`
unfoldable pub history_complete : ClosedOrdersPage → TradeHistoryPage → LedgerPage → Bool
unfolding counted
history_complete closed trades ledgers =
    closed.total_count == length closed.orders
    && counted trades.total_count (length trades.trades) 100
    && counted ledgers.total_count (length ledgers.entries) 50

-- `xs <= ys`, of sets of texts
abbrev pub is_subset : List String → List String → Bool
is_subset xs ys = not (any (λ x. not (one_of x ys)) xs)

-- `_tail_is_quiet`
unfoldable pub tail_is_quiet :
    (closed : ClosedOrdersPage) (trades : TradeHistoryPage) (ledgers : LedgerPage)
    (tail_closed : ClosedOrdersPage) (tail_trades : TradeHistoryPage) (tail_ledgers : LedgerPage)
    → Bool
tail_is_quiet closed trades ledgers tail_closed tail_trades tail_ledgers =
    is_subset (map (λ (o : OrderRecord). o.order_id) tail_closed.orders)
      (map (λ (o : OrderRecord). o.order_id) closed.orders)
    && is_subset (map (λ (t : TradeRecord). t.trade_id) tail_trades.trades)
        (map (λ (t : TradeRecord). t.trade_id) trades.trades)
    && is_subset (map (λ (e : LedgerRecord). e.ledger_id) tail_ledgers.entries)
        (map (λ (e : LedgerRecord). e.ledger_id) ledgers.entries)
