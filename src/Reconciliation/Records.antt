-- ===== src/Reconciliation/Records.antt =====
-- The records of an observed account and the checks of their constructors.
use kraken_knight.Base.{
  String, Bool, Option, none, some, List, ltb, type_error, value_error, Result, ok, err, ◌>>=◌,
  ◌>>◌, raise_if, text_eq, text_join, Strings,
}
use kraken_knight.Decimals.{Decimal}
use kraken_knight.Domain.{
  Number, finite, not_finite, unreadable, binary, Instant, Datetime, require_utc,
}
use kraken_knight.Reconciliation.Codes.{Side, OrderState, OrderOwnership}

pub record AssetBalance : Type 0 where
  pub asset : String
  pub available : Decimal
  pub held : Decimal

pub record Liability : Type 0 where
  pub asset : String
  pub amount : Decimal

pub record AuthoritativeOrder : Type 0 where
  pub order_id : String
  pub pair : String
  pub side : Side
  pub state : OrderState
  pub quantity_btc : Decimal
  pub filled_quantity_btc : Decimal
  pub opened_at : Instant
  pub closed_at : Option Instant
  pub limit_price_cad : Option Decimal
  pub client_order_id : Option String
  pub ownership : OrderOwnership

pub record AuthoritativeTrade : Type 0 where
  pub trade_id : String
  pub order_id : String
  pub pair : String
  pub side : Side
  pub quantity_btc : Decimal
  pub price_cad : Decimal
  pub executed_at : Instant

pub record TradeFee : Type 0 where
  pub fee_id : String
  pub trade_id : String
  pub asset : String
  pub amount : Decimal

pub record LegacySubmissionHint : Type 0 where
  pub hint_id : String
  pub pair : String
  pub side : Side
  pub quantity_btc : Decimal
  pub window_start : Instant
  pub window_end : Instant
  pub limit_price_cad : Option Decimal
  pub order_id : Option String
  pub client_order_id : Option String

pub record AccountSnapshot : Type 0 where
  pub account_id : String
  pub observed_at : Instant
  pub balances : List AssetBalance
  pub orders : List AuthoritativeOrder
  pub trades : List AuthoritativeTrade
  pub fees : List TradeFee
  pub liabilities : List Liability
  pub legacy_hints : List LegacySubmissionHint
  pub inventory_history_complete : Bool

-- A `Decimal` argument: a value of another type is `unreadable` or `binary`.
unfoldable pub require_decimal : Number → String → Result Decimal
require_decimal (finite d) name = ok d
require_decimal not_finite name = err (value_error (text_join name " must be finite"))
require_decimal unreadable name = err (type_error (text_join name " must be a Decimal"))
require_decimal binary name = err (type_error (text_join name " must be a Decimal"))

unfoldable pub require_utc_field : Datetime → String → Result Instant
require_utc_field t name =
    require_utc t (value_error (text_join name " must be timezone-aware UTC"))

-- an argument that may be None
abbrev pub if_given {ℓ κ} :
    {A : Type ℓ} {B : Type κ} → (A → Result B) → Option A → Result (Option B)
if_given check none = ok none
if_given check (some a) = check a >>= λ b. ok (some b)

module _ (strings : Strings) where
  unfoldable pub require_identifier : String → String → Result String
  require_identifier value name =
      let normalized = strings.strip value in
      raise_if (text_eq normalized "") (value_error (text_join name " cannot be empty"))
      >> ok normalized

  unfoldable pub make_balance : String → Number → Number → Result AssetBalance
  make_balance asset available held = do
    a ← require_identifier asset "asset"
    b ← require_decimal available "available"
    c ← require_decimal held "held"
    ok (record { asset = a; available = b; held = c })

  unfoldable pub make_liability : String → Number → Result Liability
  make_liability asset amount = do
    a ← require_identifier asset "asset"
    b ← require_decimal amount "amount"
    ok (record { asset = a; amount = b })

  unfoldable pub make_order :
      (order_id pair : String) (side : Side) (state : OrderState) (quantity fill : Number)
      (opened : Datetime) (closed : Option Datetime) (price : Option Number)
      (client : Option String) (ownership : OrderOwnership)
      → Result AuthoritativeOrder
  make_order order_id pair side state quantity fill opened closed price client ownership = do
    i ← require_identifier order_id "order_id"
    p ← require_identifier pair "pair"
    q ← require_decimal quantity "quantity_btc"
    f ← require_decimal fill "filled_quantity_btc"
    o ← require_utc_field opened "opened_at"
    c ← if_given (λ t. require_utc_field t "closed_at") closed
    l ← if_given (λ n. require_decimal n "limit_price_cad") price
    k ← if_given (λ s. require_identifier s "client_order_id") client
    ok (record {
      order_id = i;
      pair = p;
      side = side;
      state = state;
      quantity_btc = q;
      filled_quantity_btc = f;
      opened_at = o;
      closed_at = c;
      limit_price_cad = l;
      client_order_id = k;
      ownership = ownership;
    })

  unfoldable pub make_trade :
      (trade_id order_id pair : String) (side : Side) (quantity price : Number)
      (executed : Datetime)
      → Result AuthoritativeTrade
  make_trade trade_id order_id pair side quantity price executed = do
    i ← require_identifier trade_id "trade_id"
    o ← require_identifier order_id "order_id"
    p ← require_identifier pair "pair"
    q ← require_decimal quantity "quantity_btc"
    c ← require_decimal price "price_cad"
    t ← require_utc_field executed "executed_at"
    ok (record {
      trade_id = i;
      order_id = o;
      pair = p;
      side = side;
      quantity_btc = q;
      price_cad = c;
      executed_at = t;
    })

  unfoldable pub make_fee : (fee_id trade_id asset : String) (amount : Number) → Result TradeFee
  make_fee fee_id trade_id asset amount = do
    i ← require_identifier fee_id "fee_id"
    t ← require_identifier trade_id "trade_id"
    a ← require_identifier asset "asset"
    m ← require_decimal amount "amount"
    ok (record { fee_id = i; trade_id = t; asset = a; amount = m })

  unfoldable pub make_hint :
      (hint_id pair : String) (side : Side) (quantity : Number) (start stop : Datetime)
      (price : Option Number) (order_id client : Option String)
      → Result LegacySubmissionHint
  make_hint hint_id pair side quantity start stop price order_id client = do
    i ← require_identifier hint_id "hint_id"
    p ← require_identifier pair "pair"
    q ← require_decimal quantity "quantity_btc"
    a ← require_utc_field start "window_start"
    b ← require_utc_field stop "window_end"
    raise_if (ltb b a) (value_error "window_end cannot precede window_start")
    l ← if_given (λ n. require_decimal n "limit_price_cad") price
    o ← if_given (λ s. require_identifier s "order_id") order_id
    k ← if_given (λ s. require_identifier s "client_order_id") client
    ok (record {
      hint_id = i;
      pair = p;
      side = side;
      quantity_btc = q;
      window_start = a;
      window_end = b;
      limit_price_cad = l;
      order_id = o;
      client_order_id = k;
    })

  unfoldable pub make_snapshot :
      (account_id : String) (observed : Datetime) (balances : List AssetBalance)
      (orders : List AuthoritativeOrder) (trades : List AuthoritativeTrade) (fees : List TradeFee)
      (liabilities : List Liability) (hints : List LegacySubmissionHint) (complete : Bool)
      → Result AccountSnapshot
  make_snapshot account_id observed balances orders trades fees liabilities hints complete = do
    i ← require_identifier account_id "account_id"
    t ← require_utc_field observed "observed_at"
    ok (record {
      account_id = i;
      observed_at = t;
      balances = balances;
      orders = orders;
      trades = trades;
      fees = fees;
      liabilities = liabilities;
      legacy_hints = hints;
      inventory_history_complete = complete;
    })
