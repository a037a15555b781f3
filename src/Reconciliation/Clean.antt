-- ===== src/Reconciliation/Clean.antt =====
-- What a report without discrepancies says of the account, phase by phase.
use kraken_knight.Base.{
  String, ◌≡◌, refl, sym, ◌∙◌, ◌⊎◌, inl, inr, Bool, true, false, ◌&&◌, ◌||◌, not, Option, none,
  some, List, [], ◌∷◌, ◌++◌, arith, is_none, any, text_eq, text_eq_refl, one_of,
}
use kraken_knight.Decimals.{
  Decimal, lt, le, eq, ◌⊖◌, sum_from, le-eq-not-lt, le_trans, le_total, lt-zero-sub,
}
use kraken_knight.Domain.{Instant, zero_decimal}
use kraken_knight.Reconciliation.Codes.{is_open, ReasonCode}
use kraken_knight.Reconciliation.Records.{
  AssetBalance, Liability, AuthoritativeOrder, AuthoritativeTrade,
}
use kraken_knight.Reconciliation.Balances.{
  add_if, add_each, supported_assets, supported_pair, check_balance, check_balances, balance_of,
  missing_balances, check_liability, check_liabilities,
}
use kraken_knight.Reconciliation.Orders.{
  given_and, order_discrepancies, validate_order, check_orders, valid_orders, order_ids,
  breaks_trade, trade_discrepancies, check_trades, fills, check_fills,
}
use kraken_knight.Reconciliation.Account.{
  is_manual, is_unknown, check_ownership, ownership_phase, inventory_discrepancies,
}

-- both parts of an empty list are empty
pub append-nil {ℓ} : {A : Type ℓ} (xs ys : List A) → xs ++ ys ≡ [] → (xs ≡ []) × (ys ≡ [])
append-nil [] ys h = (refl, h)
append-nil (x ∷ xs) ys h = cc

abbrev pub is_foreign : AssetBalance → Bool
is_foreign b = not (one_of b.asset supported_assets)

abbrev pub is_negative : AssetBalance → Bool
is_negative b = lt b.available zero_decimal || lt b.held zero_decimal

abbrev pub is_owed : Liability → Bool
is_owed l = lt l.amount zero_decimal || lt zero_decimal l.amount

pub check_balances-clean :
    (bs : List AssetBalance)
    → check_balances bs ≡ []
    → (any is_foreign bs ≡ false) × (any is_negative bs ≡ false)
unfolding check_balances check_balance add_if
check_balances-clean [] h = (refl, refl)
check_balances-clean (b ∷ bs) h =
    let (here, rest) = append-nil (check_balance b) (check_balances bs) h in
    let (foreign, negative) = check_balances-clean bs rest in
    (ground (arith, here, foreign), ground (arith, here, negative))

pub check_liabilities-clean :
    (ls : List Liability) → check_liabilities ls ≡ [] → any is_owed ls ≡ false
unfolding check_liabilities check_liability add_if
check_liabilities-clean [] h = refl
check_liabilities-clean (l ∷ ls) h =
    let (here, rest) = append-nil (check_liability l) (check_liabilities ls) h in
    ground (arith, here, check_liabilities-clean ls rest)

pub missing_balances-clean :
    (bs : List AssetBalance)
    → missing_balances bs supported_assets ≡ []
    → (is_none (balance_of "BTC" bs) ≡ false) × (is_none (balance_of "CAD" bs) ≡ false)
unfolding missing_balances add_if
missing_balances-clean bs h = (ground (arith, h), ground (arith, h))

no_member : (id : Option String) → given_and id (λ s. one_of s []) ≡ false
no_member none = refl
no_member (some s) = refl

module _ (observed_at : Instant) where
  abbrev pub is_broken : AuthoritativeOrder → Bool
  is_broken o = not (validate_order o observed_at)

  abbrev pub is_bad_trade : AuthoritativeTrade → Bool
  is_bad_trade t = breaks_trade t observed_at || not (text_eq t.pair supported_pair)

  pub check_orders-clean :
      (os : List AuthoritativeOrder) → check_orders os observed_at ≡ [] → any is_broken os ≡ false
  unfolding check_orders order_discrepancies add_if validate_order
  check_orders-clean [] h = refl
  check_orders-clean (o ∷ os) h =
      let (here, rest) =
        append-nil (order_discrepancies o observed_at) (check_orders os observed_at) h in
      ground (arith, here, check_orders-clean os rest)

  pub check_trades-clean :
      (orders : List AuthoritativeOrder) (ts : List AuthoritativeTrade)
      → check_trades orders observed_at ts ≡ []
      → any is_bad_trade ts ≡ false
  unfolding check_trades trade_discrepancies add_if
  check_trades-clean orders [] h = refl
  check_trades-clean orders (t ∷ ts) h =
      let (here, rest) =
        append-nil (trade_discrepancies orders observed_at t) (check_trades orders observed_at ts)
          h in
      let more = check_trades-clean orders ts rest in ground (arith, here, more)

  -- without duplicates and invalid orders, every order is among the valid ones
  pub valid_orders-all :
      (os : List AuthoritativeOrder)
      → any is_broken os ≡ false
      → valid_orders [] [] observed_at os ≡ order_ids os
  unfolding valid_orders
  valid_orders-all [] h = refl
  valid_orders-all (o ∷ os) h =
      let rest : any is_broken os ≡ false = ground (arith, h) in
      let none' : given_and o.client_order_id (λ id. one_of id []) ≡ false =
        no_member o.client_order_id in
      ground (arith, h, none', valid_orders-all os rest)

abbrev pub is_unmatched : List String → List AuthoritativeTrade → AuthoritativeOrder → Bool
is_unmatched valid trades o =
    not (eq (sum_from zero_decimal (fills o.order_id valid trades)) o.filled_quantity_btc)

pub check_fills-clean :
    (orders_valid valid : List String) (trades : List AuthoritativeTrade)
    (os : List AuthoritativeOrder)
    → any (λ (o : AuthoritativeOrder). not (one_of o.order_id orders_valid)) os ≡ false
    → check_fills orders_valid valid trades os ≡ []
    → any (is_unmatched valid trades) os ≡ false
unfolding check_fills add_if
check_fills-clean orders_valid valid trades [] k h = refl
check_fills-clean orders_valid valid trades (o ∷ os) k h =
    let here : one_of o.order_id orders_valid ≡ true = ground (arith, k) in
    let k' : any (λ (x : AuthoritativeOrder). not (one_of x.order_id orders_valid)) os ≡ false =
      ground (arith, k) in
    let (first, rest) =
      append-nil (add_if _ _ _ _ _) (check_fills orders_valid valid trades os) h in
    ground (arith, here, first, check_fills-clean orders_valid valid trades os k' rest)

one_of_self : (id : String) (ids : List String) → one_of id (id ∷ ids) ≡ true
one_of_self id ids = ground (arith, text_eq_refl id)

listed :
    (os : List AuthoritativeOrder) (ids : List String)
    → ((id : String) → one_of id (order_ids os) ≡ true → one_of id ids ≡ true)
    → any (λ (o : AuthoritativeOrder). not (one_of o.order_id ids)) os ≡ false
listed [] ids h = refl
listed (o ∷ os) ids h =
    let here = h o.order_id (one_of_self o.order_id (order_ids os)) in
    let rest = listed os ids (λ id m. h id (ground (arith, m))) in ground (arith, here, rest)

-- every order stands in the list of all identifiers
pub order_ids-all :
    (os : List AuthoritativeOrder)
    → any (λ (o : AuthoritativeOrder). not (one_of o.order_id (order_ids os))) os ≡ false
order_ids-all os = listed os (order_ids os) (λ id h. h)

abbrev pub is_stranger : List String → AuthoritativeOrder → Bool
is_stranger matched o =
    (is_open o.state && is_manual o.ownership)
    || (is_unknown o.ownership && not (one_of o.order_id matched))

pub ownership_phase-clean :
    (matched : List String) (os : List AuthoritativeOrder)
    → ownership_phase matched os ≡ []
    → any (is_stranger matched) os ≡ false
unfolding ownership_phase check_ownership add_if
ownership_phase-clean matched [] h = refl
ownership_phase-clean matched (o ∷ os) h =
    let (here, rest) = append-nil (check_ownership matched o) (ownership_phase matched os) h in
    let more = ownership_phase-clean matched os rest in ground (arith, here, more)

pub add_each-nil :
    (ids : List String) (code : ReasonCode) (kind detail : String)
    → add_each ids code kind detail ≡ []
    → ids ≡ []
unfolding add_each
add_each-nil [] code kind detail h = refl
add_each-nil (id ∷ ids) code kind detail h = cc

-- nothing is held and nothing is owed to the fills, or their net is what is held
abbrev pub IsExact : (net total : Decimal) → Type 0
IsExact net total =
    ((eq net zero_decimal ≡ true) × (eq total zero_decimal ≡ true))
    ⊎ ((lt net zero_decimal ≡ false) × (eq (total ⊖ net) zero_decimal ≡ true))

pub inventory-clean :
    (complete : Bool) (net total : Decimal)
    → inventory_discrepancies complete false net total ≡ []
    → IsExact net total
unfolding inventory_discrepancies add_if
inventory-clean complete net total h = ground (arith, h)

-- no difference is positive, so that nothing is held beyond the net
pub IsExact-bound : (net total : Decimal) → IsExact net total → le total net ≡ true
unfolding eq
IsExact-bound net total (inl (none', empty)) =
    le_trans total zero_decimal net (ground (arith, empty)) (ground (arith, none'))
IsExact-bound net total (inr (owned, same)) =
    let least : lt zero_decimal (total ⊖ net) ≡ false =
      ground (arith, same, le-eq-not-lt (total ⊖ net) zero_decimal) in
    le_total net total (sym (lt-zero-sub total net) ∙ least)
