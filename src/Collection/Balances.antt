-- ===== src/Collection/Balances.antt =====
-- What a match of the ledger and the balances shows, and that the replay ends.
use kraken_knight.Base.{
  ℕ, zero, suc, ◌≤◌, String, ◌≡◌, sym, subst, ◌≢◌, inl, inr, Bool, true, false, none, some, List,
  [], ◌∷◌, ◌++◌, map, arith, Bool-cases, Option-cases, length, All, text_eq, text_eq_iff,
  text_eq_refl, one_of, Strings, sort_by, keep_if, composed, Reordered-sort_by,
}
use kraken_knight.Decimals.{Decimal, eq}
use kraken_knight.Domain.{zero_decimal}
use kraken_knight.Collection.Records.{ExtendedBalance, LedgerRecord}
use kraken_knight.Collection.Translate.{normalize_asset}
use kraken_knight.Collection.Replay.{
  exhausted, replay_instant, at_instant, not_at, replay, entry_lt, balance_at, is_balanced_at,
  or_zero, balances_by_asset, is_of, replay_asset, all_balanced, ledger_balances_match,
}
use kraken_knight.Collection.Chains.{
  IsReplayed, Replayed-cases, replay-IsReplayed, replay_instant-fuel,
}

length-keep_if :
    (p : LedgerRecord → Bool) (xs : List LedgerRecord) → length (keep_if p xs) ≤ length xs
length-keep_if p [] = omega arith
length-keep_if p (x ∷ xs) = ground (arith, length-keep_if p xs)

later-length :
    (e : LedgerRecord) (es : List LedgerRecord)
    → length (keep_if (not_at e.recorded_at) (e ∷ es)) ≤ length es
later-length e es =
    let gone : not_at e.recorded_at e ≡ false = ground arith in
    ground (arith, gone, length-keep_if (not_at e.recorded_at) es)

-- The two loops of the replay end: with as much fuel as there are entries, as the code is run here,
-- the replay comes to a balance or to an instant with no single next entry, never to the end of
-- the fuel.
pub replay_fuel :
    (fuel : ℕ) (current : Decimal) (xs : List LedgerRecord)
    → length xs ≤ fuel
    → replay fuel current xs ≢ exhausted
unfolding replay
replay_fuel fuel current [] h e = cc
replay_fuel zero current (x ∷ xs) h e = absurd (omega (arith, h))
replay_fuel (suc fuel) current (x ∷ xs) h e =
    let same = keep_if (at_instant x.recorded_at) (x ∷ xs) in
    let later = keep_if (not_at x.recorded_at) (x ∷ xs) in
    elim (Replayed-cases (replay_instant (length same) current same)) [
      | inr (inl stuck) ↦ ground (arith, stuck, e)
      | inr (inr empty) ↦ replay_instant-fuel (length same) current same (omega arith) empty
      | inl (middle, here) ↦
          let shorter : length later ≤ fuel = omega (arith, h, later-length x xs) in
          replay_fuel fuel middle later shorter (ground (arith, here, e))
    ]

module _ (strings : Strings) where
  -- The entries of an asset, from zero, lead to the amount.
  pub record IsExplained (entries : List LedgerRecord) (asset : String) (amount : Decimal)
      : Type 0 where
    pub last : Decimal
    pub replayed : IsReplayed zero_decimal (keep_if (is_of strings asset) entries) last
    pub reached : eq last amount ≡ true

  replay_asset-IsExplained :
      (entries : List LedgerRecord) (asset : String) (amount : Decimal)
      → is_balanced_at (replay_asset strings asset entries) amount ≡ true
      → IsExplained entries asset amount
  unfolding replay_asset
  replay_asset-IsExplained entries asset amount h =
      let mine = keep_if (is_of strings asset) entries in
      let ordered = sort_by entry_lt mine in
      elim (Replayed-cases (replay (length ordered) zero_decimal ordered)) [
        | inr (inl stuck) ↦ absurd (ground (arith, stuck, h))
        | inr (inr empty) ↦ absurd (ground (arith, empty, h))
        | inl (last, here) ↦
            let r = replay-IsReplayed (length ordered) zero_decimal last ordered here in
            record {
              last = last;
              replayed = record {
                ordered = r.ordered;
                same_entries = composed (Reordered-sort_by entry_lt mine) r.same_entries;
                chained = r.chained;
              };
              reached = ground (arith, here, h);
            }
      ]

  all_balanced-member :
      (known : List (String × Decimal)) (entries : List LedgerRecord) (assets : List String)
      (asset : String)
      → all_balanced strings known entries assets ≡ true
      → one_of asset assets ≡ true
      → IsExplained entries asset (or_zero (balance_at asset known))
  unfolding all_balanced
  all_balanced-member known entries [] asset h m = cc
  all_balanced-member known entries (a ∷ as') asset h m =
      let first : is_balanced_at (replay_asset strings a entries) (or_zero (balance_at a known))
          ≡ true =
        ground (arith, h) in
      let rest : all_balanced strings known entries as' ≡ true = ground (arith, h) in
      elim (Bool-cases (text_eq asset a)) [
        | inl same ↦
            subst (λ x. IsExplained entries x (or_zero (balance_at x known)))
              (sym ((text_eq_iff asset a).0 same))
              (replay_asset-IsExplained entries a (or_zero (balance_at a known)) first)
        | inr other ↦ all_balanced-member known entries as' asset rest (ground (arith, m, other))
      ]

  -- the names of the dictionary
  abbrev names : List (String × Decimal) → List String
  names known = map (λ (p : String × Decimal). p.0) known

  balance_at-names :
      (known : List (String × Decimal)) (asset : String) (d : Decimal)
      → balance_at asset known ≡ some d
      → one_of asset (names known) ≡ true
  balance_at-names [] asset d h = cc
  balance_at-names ((name, amount) ∷ rest) asset d h = ground (
    arith,
    h,
    text_eq_iff asset name,
    text_eq_iff name asset,
    text_eq_refl name,
    balance_at-names rest asset d,
  )

  one_of_append :
      (asset : String) (xs ys : List String)
      → one_of asset xs ≡ true
      → one_of asset (xs ++ ys) ≡ true
  one_of_append asset [] ys h = cc
  one_of_append asset (x ∷ xs) ys h = ground (arith, h, one_of_append asset xs ys)

  -- every balance is in the dictionary
  abbrev pub IsListed : List (String × Decimal) → ExtendedBalance → Type 0
  IsListed known b = balance_at (normalize_asset strings b.asset) known ≡ some b.balance

  IsListed-more :
      (known : List (String × Decimal)) (name : String) (amount : Decimal)
      (bs : List ExtendedBalance)
      → balance_at name known ≡ none
      → All (IsListed known) bs
      → All (IsListed ((name, amount) ∷ known)) bs
  IsListed-more known name amount [] fresh h = tt
  IsListed-more known name amount (b ∷ bs) fresh h =
      let here = h.0 in
      let apart : text_eq name (normalize_asset strings b.asset) ≡ false =
        ground (arith, text_eq_iff name (normalize_asset strings b.asset), fresh, here) in
      (ground (arith, apart, here), IsListed-more known name amount bs fresh h.1)

  balances_by_asset-IsListed :
      (bs : List ExtendedBalance) (known : List (String × Decimal))
      → balances_by_asset strings bs ≡ some known
      → All (IsListed known) bs
  unfolding balances_by_asset
  balances_by_asset-IsListed [] known h = tt
  balances_by_asset-IsListed (b ∷ bs) known h = elim (Option-cases (balances_by_asset strings bs)) [
    | inl none' ↦ absurd (ground (arith, none', h))
    | inr (rest, here) ↦ elim (Option-cases (balance_at (normalize_asset strings b.asset) rest)) [
      | inr (d, twice) ↦ absurd (ground (arith, here, twice, h))
      | inl fresh ↦
          let same : (normalize_asset strings b.asset, b.balance) ∷ rest ≡ known =
            ground (arith, here, fresh, h) in
          subst (λ k. All (IsListed k) (b ∷ bs)) same
            (
              ground (arith, text_eq_refl (normalize_asset strings b.asset)),
              IsListed-more rest (normalize_asset strings b.asset) b.balance bs fresh
                  (balances_by_asset-IsListed bs rest here),
            )
    ]
  ]

  All-map {ℓ κ μ} :
      {A : Type ℓ} {P : A → Type κ} {Q : A → Type μ} (xs : List A)
      → ((x : A) → P x → Q x)
      → All P xs
      → All Q xs
  All-map [] f h = tt
  All-map (x ∷ xs) f h = (f x h.0, All-map xs f h.1)

  -- If the ledger matches the balances, every reported balance is explained by the entries of its
  -- asset. They can be put in an order in which each entry's balance equals the balance before it,
  -- from zero, plus its amount minus its fee, both operations rounded to 28 digits as the default
  -- context does; and the last entry's balance equals the reported one.
  pub ledger_balances_match-IsExplained :
      (entries : List LedgerRecord) (items : List ExtendedBalance)
      → ledger_balances_match strings entries items ≡ true
      → All
          (λ (b : ExtendedBalance). IsExplained entries (normalize_asset strings b.asset) b.balance)
          items
  unfolding ledger_balances_match
  ledger_balances_match-IsExplained entries items h =
      elim (Option-cases (balances_by_asset strings items)) [
        | inl none' ↦ absurd (ground (arith, none', h))
        | inr (known, here) ↦
            let assets =
              names known ++ map (λ (e : LedgerRecord). normalize_asset strings e.asset) entries in
            let balanced' : all_balanced strings known entries assets ≡ true =
              ground (arith, here, h) in
            All-map items
              (λ b listed.
                let name = normalize_asset strings b.asset in
                let member =
                  one_of_append name (names known) _
                    (balance_at-names known name b.balance listed) in
                subst (λ o. IsExplained entries name (or_zero o)) listed
                  (all_balanced-member known entries assets name balanced' member))
              (balances_by_asset-IsListed items known here)
      ]
