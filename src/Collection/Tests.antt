-- ===== src/Collection/Tests.antt =====
-- The ledger of one deposit and one purchase, and each theorem applied to it.
use kraken_knight.Base.{
  ℕ, ◌+◌, ◌^◌, String, ◌≡◌, refl, ◌≢◌, ◌↔◌, true, false, ◌&&◌, not, some, List, [], ◌∷◌, arith, any,
  All, pos, ◌+ℤ◌, text_eq, Strings,
}
use kraken_knight.Decimals.{Decimal, of_ℕ, arithmetic}
use kraken_knight.Domain.{zero_decimal}
use kraken_knight.Reconciliation.Codes.{clean, unresolved}
use kraken_knight.Collection.Records.{ExtendedBalance, LedgerRecord}
use kraken_knight.Collection.Gates.{OperationalGate, status_from_gates, status_from_gates_iff}
use kraken_knight.Collection.Merge.{merge_into, merge, entry_same, merge_ledgers}
use kraken_knight.Collection.Translate.{asset_alias, normalize_asset}
use kraken_knight.Collection.Replay.{
  exhausted, follows, without_next, next_entries, replay_instant, replay, balances_by_asset,
  replay_asset, all_balanced, ledger_balances_match,
}
use kraken_knight.Collection.Balances.{replay_fuel, IsExplained, ledger_balances_match-IsExplained}
use kraken_knight.Collection.Merged.{entry_id, merge_ledgers_consistent}

abbrev plain : Strings
plain = record {
  strip = λ s. s;
  lower = λ s. s;
  upper = λ s. s;
  replace_dashes = λ s. s;
  collapse = λ s. s;
  of_ℕ = λ n. "0";
}

abbrev entry : String → String → String → ℕ → (amount fee balance : Decimal) → LedgerRecord
entry id reference kind time amount fee balance = record {
  ledger_id = id;
  reference_id = reference;
  recorded_at = time;
  entry_type = kind;
  subtype = "";
  asset_class = "currency";
  asset = "ZCAD";
  amount = amount;
  fee = fee;
  balance = balance;
}

abbrev deposit : LedgerRecord
deposit = entry "L1" "D1" "deposit" 10 (of_ℕ 100) (of_ℕ 0) (of_ℕ 100)

abbrev spending : LedgerRecord
spending =
    entry "L2" "T1" "trade" 20 (record { negative = true; coefficient = 40; exponent = pos 0 })
      (of_ℕ 1) (of_ℕ 59)

abbrev cad : ExtendedBalance
cad = record {
  asset = "CAD";
  balance = of_ℕ 59;
  credit = of_ℕ 0;
  credit_used = of_ℕ 0;
  hold_trade = of_ℕ 0;
}

matches : ledger_balances_match plain (spending ∷ deposit ∷ []) (cad ∷ []) ≡ true
unfolding ledger_balances_match balances_by_asset all_balanced replay_asset replay replay_instant
    next_entries without_next follows normalize_asset asset_alias arithmetic ◌+ℤ◌
matches = refl

-- The sums are rounded to 28 digits: a balance of 1e29 matches a deposit of one dollar more.
rounded :
    ledger_balances_match plain
      (entry "L1" "D1" "deposit" 10 (of_ℕ (10 ^ 29 + 1)) (of_ℕ 0) (of_ℕ (10 ^ 29)) ∷ [])
      (record cad { balance = of_ℕ (10 ^ 29) } ∷ [])
    ≡ true
unfolding ledger_balances_match balances_by_asset all_balanced replay_asset replay replay_instant
    next_entries without_next follows normalize_asset asset_alias arithmetic ◌+ℤ◌
rounded = refl

ledger_balances_match-IsExplained_example :
    IsExplained plain (spending ∷ deposit ∷ []) (normalize_asset plain "CAD") (of_ℕ 59) × Unit {0}
ledger_balances_match-IsExplained_example =
    ledger_balances_match-IsExplained plain (spending ∷ deposit ∷ []) (cad ∷ []) matches

replay_fuel_example : replay 2 zero_decimal (deposit ∷ spending ∷ []) ≢ exhausted
replay_fuel_example = replay_fuel 2 zero_decimal (deposit ∷ spending ∷ []) (omega arith)

abbrev quiet : OperationalGate
quiet = record {
  name = "collection_quiet";
  passed = false;
  failure_status = unresolved;
  detail = "activity during the collection";
}

status_from_gates_iff_example : (status_from_gates (quiet ∷ []) (some clean) ≡ clean) ↔ (
    (some clean ≡ some clean) × (any (λ (g : OperationalGate). not g.passed) (quiet ∷ []) ≡ false))
status_from_gates_iff_example = status_from_gates_iff (quiet ∷ []) (some clean)

-- two pages with one record in common
abbrev pages : List (List LedgerRecord)
pages = (deposit ∷ spending ∷ []) ∷ (spending ∷ []) ∷ []

merged : (merge_ledgers pages).1 ≡ true
unfolding merge_ledgers merge merge_into entry_same arithmetic
merged = refl

merge_ledgers_consistent_example :
    All
      (λ x.
        any (λ z. text_eq (entry_id z) (entry_id x) && entry_same z x) (merge_ledgers pages).0
        ≡ true)
      (deposit ∷ spending ∷ spending ∷ [])
    × All
        (λ x.
          All
            (λ z. text_eq (entry_id x) (entry_id z) ≡ true → entry_same x z ≡ true)
            (deposit ∷ spending ∷ spending ∷ []))
        (deposit ∷ spending ∷ spending ∷ [])
merge_ledgers_consistent_example = merge_ledgers_consistent pages merged
