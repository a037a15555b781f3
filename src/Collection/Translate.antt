-- ===== src/Collection/Translate.antt =====
-- From the exchange's records to those of reconciliation.py.
use mathlib.Core.Option
use kraken_knight.Base.{
  String, ◌&&◌, not, none, some, List, [], ◌∷◌, ◌++◌, if◌then◌else◌, any, pos,
  reconciliation_job_error, Result, ok, err, ◌>>=◌, text_eq, one_of, Strings,
}
use kraken_knight.Decimals.{lt, eq, ◌⊕◌}
use kraken_knight.Domain.{finite, zoned, zero_decimal}
use kraken_knight.Reconciliation.Codes.{
  OrderState, still_open, partially_filled, filled, canceled, expired, unknown,
}
use kraken_knight.Reconciliation.Records.{
  AssetBalance, Liability, AuthoritativeOrder, AuthoritativeTrade, make_balance, make_liability,
  make_order, make_trade,
}
use kraken_knight.Collection.Records.{ExtendedBalance, available, OrderRecord, TradeRecord}

abbrev pub btc_cad_aliases : List String
btc_cad_aliases = "BTC/CAD" ∷ "XBT/CAD" ∷ "XBTCAD" ∷ "XXBTZCAD" ∷ []

-- `_ASSET_ALIASES.get(name, name)`
unfoldable pub asset_alias : String → String
asset_alias name =
    if one_of name ("BTC" ∷ "XBT" ∷ "XXBT" ∷ [])
    then "BTC"
    else if one_of name ("CAD" ∷ "ZCAD" ∷ [])
    then "CAD"
    else name

-- `_order_state`
unfoldable pub order_state : OrderRecord → Result OrderState
order_state o =
    if one_of o.status ("pending" ∷ "open" ∷ [])
    then ok (if lt zero_decimal o.executed_volume then partially_filled else still_open)
    else if text_eq o.status "closed"
    then ok filled
    else if text_eq o.status "canceled"
    then ok canceled
    else if text_eq o.status "expired"
    then ok expired
    else err (reconciliation_job_error "Kraken order state cannot be reconciled")

module _ (strings : Strings) where
  -- `_normalize_pair` and `_normalize_asset`
  unfoldable pub normalize_pair : String → String
  normalize_pair pair =
      let normalized = strings.upper (strings.strip pair) in
      if one_of normalized btc_cad_aliases then "BTC/CAD" else normalized

  unfoldable pub normalize_asset : String → String
  unfolding asset_alias
  normalize_asset asset = asset_alias (strings.upper (strings.strip asset))

  -- the loop of `_balances`
  unfoldable pub present_balances : List ExtendedBalance → Result (List AssetBalance)
  present_balances [] = ok []
  present_balances (b ∷ bs) =
      let rest = present_balances bs in
      let name = normalize_asset b.asset in
      if not (one_of name ("BTC" ∷ "CAD" ∷ []))
        && eq (b.balance ⊕ b.credit ⊕ b.credit_used ⊕ b.hold_trade) zero_decimal
      then rest
      else (make_balance strings name (finite (available b)) (finite b.hold_trade) >>= λ balance.
          rest >>= λ more. ok (balance ∷ more))

  -- the required balances that are not there, as zeros
  abbrev zero_if_missing : String → List AssetBalance → List AssetBalance
  zero_if_missing asset present =
      if any (λ (b : AssetBalance). text_eq b.asset asset) present
      then []
      else record { asset = asset; available = zero_decimal; held = zero_decimal } ∷ []

  -- `_balances`
  unfoldable pub balances : List ExtendedBalance → Result (List AssetBalance)
  unfolding present_balances
  balances items = do
    present ← present_balances items
    ok (present ++ (zero_if_missing "BTC" present ++ zero_if_missing "CAD" present))

  -- `_liabilities`
  unfoldable pub liabilities : List ExtendedBalance → Result (List Liability)
  liabilities [] = ok []
  liabilities (b ∷ bs) =
      let rest = liabilities bs in
      if eq b.credit_used zero_decimal
      then rest
      else (make_liability strings (normalize_asset b.asset) (finite b.credit_used) >>= λ liability.
          rest >>= λ more. ok (liability ∷ more))

  -- `_authoritative_order`; the exchange's times are UTC
  unfoldable pub authoritative_order : OrderRecord → Result AuthoritativeOrder
  unfolding order_state normalize_pair
  authoritative_order o = do
    state ← order_state o
    make_order strings o.order_id (normalize_pair o.pair) o.side state (finite o.volume)
        (finite o.executed_volume) (zoned (pos 0) o.opened_at)
        (Option.map (λ t. zoned (pos 0) t) o.closed_at)
        (if eq o.requested_price zero_decimal then none else some (finite o.requested_price))
        o.client_order_id unknown

  -- `_authoritative_trade`
  unfoldable pub authoritative_trade : TradeRecord → Result AuthoritativeTrade
  unfolding normalize_pair
  authoritative_trade t =
      make_trade strings t.trade_id t.order_id (normalize_pair t.pair) t.side (finite t.volume)
        (finite t.price) (zoned (pos 0) t.executed_at)
