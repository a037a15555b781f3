-- ===== src/Collection/Replay.antt =====
-- `_ledger_balances_match`: the entries of each asset, replayed from zero, give the balances.
use kraken_knight.Base.{
  ℕ, zero, suc, String, Bool, true, false, ◌&&◌, ◌||◌, not, Option, none, some, List, [], ◌∷◌, ◌++◌,
  map, ltb, ◌==◌, if◌then◌else◌, is_none, length, any, text_eq, Strings, text_lt, sort_by, keep_if,
}
use kraken_knight.Decimals.{Decimal, lt, eq, ◌⊕◌, ◌⊖◌}
use kraken_knight.Domain.{zero_decimal}
use kraken_knight.Collection.Records.{ExtendedBalance, LedgerRecord}
use kraken_knight.Collection.Translate.{normalize_asset}

-- What a replay comes to: the last balance, an instant at which the next entry is not determined,
-- or the end of the fuel.
pub data Replayed : Type 0 where
  balanced : Decimal → Replayed
  undetermined : Replayed
  exhausted : Replayed

-- `current + entry.amount - entry.fee == entry.balance`
unfoldable pub follows : Decimal → LedgerRecord → Bool
follows current e = eq (current ⊕ e.amount ⊖ e.fee) e.balance

-- the list without the first entry that follows; only one does where this is used
unfoldable pub without_next : Decimal → List LedgerRecord → List LedgerRecord
without_next current [] = []
without_next current (e ∷ es) = if follows current e then es else e ∷ without_next current es

unfoldable pub next_entries : Decimal → List LedgerRecord → List LedgerRecord
next_entries current entries = keep_if (follows current) entries

-- `while same_time`: the entries of one instant, each the only one that follows
unfoldable pub replay_instant : ℕ → Decimal → List LedgerRecord → Replayed
unfolding next_entries without_next
replay_instant fuel current [] = balanced current
replay_instant zero current (e ∷ es) = exhausted
replay_instant (suc fuel) current (e ∷ es) = elim (next_entries current (e ∷ es)) [
  | selected ∷ [] ↦ replay_instant fuel selected.balance (without_next current (e ∷ es))
  | others ↦ undetermined
]

abbrev pub at_instant : ℕ → LedgerRecord → Bool
at_instant t e = e.recorded_at == t

abbrev pub not_at : ℕ → LedgerRecord → Bool
not_at t e = not (e.recorded_at == t)

-- `while remaining`: one instant after the other
unfoldable pub replay : ℕ → Decimal → List LedgerRecord → Replayed
replay fuel current [] = balanced current
replay zero current (e ∷ es) = exhausted
replay (suc fuel) current (e ∷ es) =
    let same = keep_if (at_instant e.recorded_at) (e ∷ es) in
    let later = keep_if (not_at e.recorded_at) (e ∷ es) in
    elim (replay_instant (length same) current same) [
      | balanced next ↦ replay fuel next later
      | undetermined ↦ undetermined
      | exhausted ↦ exhausted
    ]

abbrev pub entry_lt : LedgerRecord → LedgerRecord → Bool
entry_lt a b =
    ltb a.recorded_at b.recorded_at
    || (a.recorded_at == b.recorded_at && text_lt a.ledger_id b.ledger_id)

-- `balance_by_asset`, or nothing where the function returns early
abbrev pub balance_at : String → List (String × Decimal) → Option Decimal
balance_at asset [] = none
balance_at asset ((name, amount) ∷ rest) =
    if text_eq name asset then some amount else balance_at asset rest

abbrev pub is_balanced_at : Replayed → Decimal → Bool
is_balanced_at (balanced last) amount = eq last amount
is_balanced_at r amount = false

abbrev pub or_zero : Option Decimal → Decimal
or_zero none = zero_decimal
or_zero (some d) = d

module _ (strings : Strings) where
  unfoldable pub balances_by_asset : List ExtendedBalance → Option (List (String × Decimal))
  balances_by_asset [] = some []
  balances_by_asset (b ∷ bs) =
      let rest = balances_by_asset bs in
      let name = normalize_asset strings b.asset in
      elim rest [
        | none ↦ none
        | some known ↦
            if not (is_none (balance_at name known)) || lt b.balance zero_decimal
            then none
            else some ((name, b.balance) ∷ known)
      ]

  abbrev pub is_of : String → LedgerRecord → Bool
  is_of asset e = text_eq (normalize_asset strings e.asset) asset

  abbrev pub is_unusable : LedgerRecord → Bool
  is_unusable e = not (text_eq e.asset_class "currency") || lt e.balance zero_decimal

  -- the entries of an asset in time, replayed
  unfoldable pub replay_asset : String → List LedgerRecord → Replayed
  unfolding replay
  replay_asset asset entries =
      let mine = sort_by entry_lt (keep_if (is_of asset) entries) in
      replay (length mine) zero_decimal mine

  unfoldable pub all_balanced : List (String × Decimal) → List LedgerRecord → List String → Bool
  unfolding replay_asset
  all_balanced known entries [] = true
  all_balanced known entries (asset ∷ assets) =
      is_balanced_at (replay_asset asset entries) (or_zero (balance_at asset known))
      && all_balanced known entries assets

  -- `_ledger_balances_match`; the loops over the balances and the assets return false whatever
  -- their order, as soon as one of their tests fails
  unfoldable pub ledger_balances_match : List LedgerRecord → List ExtendedBalance → Bool
  unfolding balances_by_asset all_balanced
  ledger_balances_match entries items = elim (balances_by_asset items) [
    | none ↦ false
    | some known ↦
        not (any is_unusable entries)
        && all_balanced known entries (
            map (λ (p : String × Decimal). p.0) known
            ++ map (λ (e : LedgerRecord). normalize_asset strings e.asset) entries)
  ]
