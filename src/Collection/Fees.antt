-- ===== src/Collection/Fees.antt =====
-- `_linked_trade_fees`: the two ledger entries of each trade, and its fee.
use kraken_knight.Base.{
  ℕ, String, Bool, true, false, ◌&&◌, ◌||◌, not, Option, none, some, List, [], ◌∷◌, ◌++◌, map, ◌==◌,
  if◌then◌else◌, length, any, Result, ok, ◌>>=◌, text_eq, one_of, Strings, keep_if,
}
use kraken_knight.Decimals.{Decimal, lt, le, eq, ◌⊕◌, ◌⊖◌, ◌⊗◌, abs, sum_from, negate}
use kraken_knight.Domain.{finite, zero_decimal}
use kraken_knight.Reconciliation.Codes.{Side}
use kraken_knight.Reconciliation.Records.{TradeFee, make_fee}
use kraken_knight.Collection.Records.{OrderRecord, TradeRecord, LedgerRecord}
use kraken_knight.Collection.Translate.{normalize_asset}
use kraken_knight.Collection.Totals.{half_unit, are_distinct}

-- `entries_by_id.get(id)`: a later entry of an identifier replaces an earlier one
abbrev pub last_entry : String → List LedgerRecord → Option LedgerRecord
last_entry id [] = none
last_entry id (e ∷ es) = elim (last_entry id es) [
  | some later ↦ some later
  | none ↦ if text_eq e.ledger_id id then some e else none
]

module _ (strings : Strings) (cost_tolerance base_tolerance : Decimal) where
  abbrev asset_of : LedgerRecord → String
  asset_of e = normalize_asset strings e.asset

  -- the test of the trade itself
  unfoldable pub is_linkable : TradeRecord → Bool
  is_linkable t =
      length t.ledger_ids == 2
      && are_distinct t.ledger_ids
      && le (abs (t.price ⊗ t.volume ⊖ t.cost)) cost_tolerance

  -- the two entries are one of BTC and one of CAD, and are the trade's
  unfoldable pub are_linked : TradeRecord → LedgerRecord → LedgerRecord → Bool
  are_linked t a b =
      ((text_eq (asset_of a) "BTC" && text_eq (asset_of b) "CAD")
        || (text_eq (asset_of a) "CAD" && text_eq (asset_of b) "BTC"))
      && not (
          any
            (λ (e : LedgerRecord).
              not (text_eq e.entry_type "trade")
              || not (text_eq e.reference_id t.trade_id)
              || not (text_eq e.asset_class "currency")
              || not (e.recorded_at == t.executed_at))
            (a ∷ b ∷ []))

  unfoldable pub expected_btc : TradeRecord → Decimal
  expected_btc t = elim t.side [ Side.buy ↦ t.volume | Side.sell ↦ negate t.volume ]

  unfoldable pub expected_cad : TradeRecord → Decimal
  expected_cad t = elim t.side [ Side.buy ↦ negate t.cost | Side.sell ↦ t.cost ]

  unfoldable pub amounts_match : TradeRecord → List LedgerRecord → Bool
  unfolding expected_btc expected_cad
  amounts_match t linked = not (
      any
        (λ (e : LedgerRecord).
          if text_eq (asset_of e) "BTC"
          then not (eq e.amount (expected_btc t))
          else not (eq e.amount (expected_cad t)))
        linked)

  abbrev fee_entries : List LedgerRecord → List LedgerRecord
  fee_entries linked = keep_if (λ (e : LedgerRecord). lt zero_decimal e.fee) linked

  unfoldable pub is_fee_consistent : TradeRecord → List LedgerRecord → Bool
  is_fee_consistent t linked =
      let charged = fee_entries linked in
      let actual = sum_from zero_decimal (map (λ (e : LedgerRecord). e.fee) charged) in
      if length charged == 0
      then eq t.fee zero_decimal
      else if not (any (λ e. not (text_eq (asset_of e) "CAD")) charged)
      then le (abs (actual ⊖ t.fee)) cost_tolerance
      else if not (any (λ e. not (text_eq (asset_of e) "BTC")) charged)
      then le (abs (actual ⊗ t.price ⊖ t.fee)) (cost_tolerance ⊕ base_tolerance ⊗ t.price)
      else false

  -- the entries of a trade that passes the tests, or nothing where the loop continues
  unfoldable pub linked_entries : List LedgerRecord → TradeRecord → Option (List LedgerRecord)
  unfolding is_linkable are_linked
  linked_entries ledgers t = elim t.ledger_ids [
    | first ∷ second ∷ [] ↦ elim (last_entry first ledgers) [
      | none ↦ none
      | some a ↦ elim (last_entry second ledgers) [
        | none ↦ none
        | some b ↦ if is_linkable t && are_linked t a b then some (a ∷ b ∷ []) else none
      ]
    ]
    | others ↦ none
  ]

  unfoldable pub trade_fees : String → List LedgerRecord → Result (List TradeFee)
  trade_fees id [] = ok []
  trade_fees id (e ∷ es) =
      let rest = trade_fees id es in
      if lt zero_decimal e.fee
      then (make_fee strings e.ledger_id id (asset_of e) (finite e.fee) >>= λ fee.
          rest >>= λ more. ok (fee ∷ more))
      else rest

  -- the loop over the trades: the fees, the entries that they refer to, and `consistent`
  unfoldable pub link_trades :
      List LedgerRecord
      → (order_ids : List String) → List TradeRecord
      → Result (List TradeFee × (List String × Bool))
  unfolding linked_entries amounts_match is_fee_consistent trade_fees
  link_trades ledgers order_ids [] = ok ([], ([], true))
  link_trades ledgers order_ids (t ∷ ts) =
      let rest = link_trades ledgers order_ids ts in
      elim (linked_entries ledgers t) [
        | none ↦ rest >>= λ more. ok (more.0, (more.1.0, false))
        | some linked ↦ trade_fees t.trade_id linked >>= λ fees. rest >>= λ more. ok (
          fees ++ more.0,
          (
            map (λ (e : LedgerRecord). e.ledger_id) linked ++ more.1.0,
            amounts_match t linked
                && is_fee_consistent t linked
                && one_of t.order_id order_ids
                && more.1.1,
          ),
        )
      ]

-- `_linked_trade_fees`
unfoldable pub linked_trade_fees :
    Strings
    → List TradeRecord
    → List LedgerRecord
    → List OrderRecord
    → (cost_decimals base_decimals : ℕ) → Result (List TradeFee × Bool)
unfolding link_trades half_unit
linked_trade_fees strings trades ledgers orders cost_decimals base_decimals = do
  let orders_known = map (λ (o : OrderRecord). o.order_id) orders
  let trades_known = map (λ (t : TradeRecord). t.trade_id) trades
  linked ←
      link_trades strings (half_unit cost_decimals) (half_unit base_decimals) ledgers orders_known
        trades
  let distinct_ids =
      are_distinct (map (λ (e : LedgerRecord). e.ledger_id) ledgers)
      && are_distinct trades_known
      && are_distinct orders_known
  let explained = not (
      any
        (λ (e : LedgerRecord).
          text_eq e.entry_type "trade"
          && (not (one_of e.reference_id trades_known) || not (one_of e.ledger_id linked.1.0)))
        ledgers)
  ok (linked.0, distinct_ids && linked.1.1 && explained)
