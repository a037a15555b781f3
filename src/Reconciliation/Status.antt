-- ===== src/Reconciliation/Status.antt =====
-- The status of a report against the discrepancies that were found.
use kraken_knight.Base.{
  String, ◌≡◌, refl, sym, ap, ◌∙◌, subst, ◌↔◌, inl, inr, Bool, true, false, not, List, [], ◌∷◌, map,
  arith, ◌==◌, Bool-cases, length, any, text_eq, text_eq_iff, one_of, text_lt, any-sort_by,
}
use kraken_knight.Reconciliation.Codes.{
  Status, clean, unresolved, disarmed, ReasonCode, unknown_asset, unknown_pair,
  missing_required_balance, duplicate_balance_asset, negative_balance, duplicate_liability_asset,
  invalid_liability, nonzero_liability, duplicate_order_id, duplicate_client_order_id,
  invalid_order, duplicate_trade_id, invalid_trade, unknown_trade_order, inconsistent_trade,
  inconsistent_fill_total, duplicate_fee_id, invalid_fee, unknown_fee_trade,
  duplicate_legacy_hint_id, invalid_legacy_hint, unmatched_legacy_hint, ambiguous_legacy_hint,
  legacy_hint_conflict, unverified_attribute_match, order_matched_by_multiple_hints,
  open_manual_order, open_unknown_order, unknown_closed_order, unexplained_held_balance,
  unattributed_btc_inventory, legacy_btc_balance_mismatch, preexisting_btc_required,
  incomplete_inventory_provenance, code_text, is_disarming,
}
use kraken_knight.Reconciliation.Records.{AccountSnapshot}
use kraken_knight.Reconciliation.Balances.{Discrepancy}
use kraken_knight.Reconciliation.Account.{
  discrepancy_lt, same_discrepancy, unique_discrepancies, normalize, unique_codes, reason_codes_of,
  status_of,
}
use kraken_knight.Reconciliation.Report.{
  Digests, all_discrepancies, report_body, stable_records, reconcile_account,
}

abbrev disarming_texts : List String
disarming_texts =
    "unknown_asset" ∷ "unknown_pair" ∷ "missing_required_balance" ∷ "duplicate_balance_asset"
    ∷ "negative_balance" ∷ "duplicate_liability_asset" ∷ "invalid_liability" ∷ "nonzero_liability"
    ∷ "duplicate_order_id" ∷ "duplicate_client_order_id" ∷ "invalid_order" ∷ "duplicate_trade_id"
    ∷ "invalid_trade" ∷ "unknown_trade_order" ∷ "inconsistent_trade" ∷ "inconsistent_fill_total"
    ∷ "duplicate_fee_id" ∷ "invalid_fee" ∷ "unknown_fee_trade" ∷ "duplicate_legacy_hint_id"
    ∷ "invalid_legacy_hint" ∷ "ambiguous_legacy_hint" ∷ "legacy_hint_conflict"
    ∷ "order_matched_by_multiple_hints" ∷ "open_manual_order" ∷ "open_unknown_order"
    ∷ "unexplained_held_balance" ∷ []

is_disarming-text : (c : ReasonCode) → one_of (code_text c) disarming_texts ≡ is_disarming c
is_disarming-text unknown_asset = refl
is_disarming-text unknown_pair = refl
is_disarming-text missing_required_balance = refl
is_disarming-text duplicate_balance_asset = refl
is_disarming-text negative_balance = refl
is_disarming-text duplicate_liability_asset = refl
is_disarming-text invalid_liability = refl
is_disarming-text nonzero_liability = refl
is_disarming-text duplicate_order_id = refl
is_disarming-text duplicate_client_order_id = refl
is_disarming-text invalid_order = refl
is_disarming-text duplicate_trade_id = refl
is_disarming-text invalid_trade = refl
is_disarming-text unknown_trade_order = refl
is_disarming-text inconsistent_trade = refl
is_disarming-text inconsistent_fill_total = refl
is_disarming-text duplicate_fee_id = refl
is_disarming-text invalid_fee = refl
is_disarming-text unknown_fee_trade = refl
is_disarming-text duplicate_legacy_hint_id = refl
is_disarming-text invalid_legacy_hint = refl
is_disarming-text unmatched_legacy_hint = refl
is_disarming-text ambiguous_legacy_hint = refl
is_disarming-text legacy_hint_conflict = refl
is_disarming-text unverified_attribute_match = refl
is_disarming-text order_matched_by_multiple_hints = refl
is_disarming-text open_manual_order = refl
is_disarming-text open_unknown_order = refl
is_disarming-text unknown_closed_order = refl
is_disarming-text unexplained_held_balance = refl
is_disarming-text unattributed_btc_inventory = refl
is_disarming-text legacy_btc_balance_mismatch = refl
is_disarming-text preexisting_btc_required = refl
is_disarming-text incomplete_inventory_provenance = refl

any-map {ℓ κ} :
    {A : Type ℓ} {B : Type κ} (p : B → Bool) (f : A → B) (xs : List A)
    → any p (map f xs) ≡ any (λ x. p (f x)) xs
any-map p f [] = refl
any-map p f (x ∷ xs) = ground (arith, any-map p f xs)

-- a test that a pair of equal keys passes together
witnessed {ℓ} :
    {A : Type ℓ} (p same : A → Bool) (xs : List A)
    → ((x : A) → same x ≡ true → p x ≡ true)
    → any same xs ≡ true
    → any p xs ≡ true
witnessed p same [] h e = cc
witnessed p same (x ∷ xs) h e = elim (Bool-cases (same x)) [
  | inl here ↦ ground (arith, h x here)
  | inr there ↦
      let rest : any same xs ≡ true = ground (arith, e, there) in
      ground (arith, witnessed p same xs h rest)
]

any-unique_codes :
    (p : ReasonCode → Bool) (cs : List ReasonCode)
    → ((c d : ReasonCode) → text_eq (code_text c) (code_text d) ≡ true → p c ≡ true → p d ≡ true)
    → any p (unique_codes cs) ≡ any p cs
unfolding unique_codes
any-unique_codes p [] h = refl
any-unique_codes p (c ∷ cs) h = elim (Bool-cases (p c)) [
  | inr fails ↦ ground (arith, fails, any-unique_codes p cs h)
  | inl holds ↦ elim (Bool-cases (any (λ d. text_eq (code_text c) (code_text d)) cs)) [
    | inr single ↦ ground (arith, single, any-unique_codes p cs h)
    | inl again ↦
        let later =
          witnessed p (λ d. text_eq (code_text c) (code_text d)) cs (λ d e. h c d e holds) again in
        ground (arith, again, later, any-unique_codes p cs h)
  ]
]

any-unique_discrepancies :
    (p : Discrepancy → Bool) (ds : List Discrepancy)
    → ((a b : Discrepancy)
        → text_eq (code_text a.code) (code_text b.code) ≡ true
        → p a ≡ true
        → p b ≡ true)
    → any p (unique_discrepancies ds) ≡ any p ds
unfolding unique_discrepancies
any-unique_discrepancies p [] h = refl
any-unique_discrepancies p (d ∷ ds) h = elim (Bool-cases (p d)) [
  | inr fails ↦ ground (arith, fails, any-unique_discrepancies p ds h)
  | inl holds ↦ elim (Bool-cases (any (same_discrepancy d) ds)) [
    | inr single ↦ ground (arith, single, any-unique_discrepancies p ds h)
    | inl again ↦
        let later =
          witnessed p (same_discrepancy d) ds (λ e same. h d e (ground (arith, same)) holds)
            again in
        ground (arith, again, later, any-unique_discrepancies p ds h)
  ]
]

any-normalize :
    (p : Discrepancy → Bool) (ds : List Discrepancy)
    → ((a b : Discrepancy)
        → text_eq (code_text a.code) (code_text b.code) ≡ true
        → p a ≡ true
        → p b ≡ true)
    → any p (normalize ds) ≡ any p ds
unfolding normalize
any-normalize p ds h =
    any-sort_by p discrepancy_lt (unique_discrepancies ds) ∙ any-unique_discrepancies p ds h

abbrev pub disarms : Discrepancy → Bool
disarms d = is_disarming d.code

is_disarming-same :
    (c d : ReasonCode)
    → text_eq (code_text c) (code_text d) ≡ true
    → is_disarming c ≡ true
    → is_disarming d ≡ true
is_disarming-same c d e h =
    sym (is_disarming-text d)
    ∙ subst (λ t. one_of t disarming_texts ≡ true) ((text_eq_iff (code_text c) (code_text d)).0 e)
        (is_disarming-text c ∙ h)

any-reason_codes :
    (ds : List Discrepancy) → any is_disarming (reason_codes_of (normalize ds)) ≡ any disarms ds
unfolding reason_codes_of
any-reason_codes ds =
    any-sort_by is_disarming (λ c d. text_lt (code_text c) (code_text d)) (unique_codes _)
    ∙ any-unique_codes is_disarming _ is_disarming-same
    ∙ any-map is_disarming (λ (d : Discrepancy). d.code) (normalize ds)
    ∙ any-normalize disarms ds (λ a b e h. is_disarming-same a.code b.code e h)

always : Discrepancy → Bool
always d = true

length-always : (ds : List Discrepancy) → (length ds == 0) ≡ not (any always ds)
unfolding always
length-always [] = refl
length-always (d ∷ ds) = ground arith

length-normalize : (ds : List Discrepancy) → (length (normalize ds) == 0) ≡ (length ds == 0)
unfolding always
length-normalize ds =
    length-always (normalize ds)
    ∙ ap not (any-normalize always ds (λ a b e h. refl))
    ∙ sym (length-always ds)

length-nil : (ds : List Discrepancy) → (length ds == 0) ≡ true → ds ≡ []
length-nil [] h = refl
length-nil (d ∷ ds) h = absurd (ground (arith, h))

nil-any : (p : Discrepancy → Bool) (ds : List Discrepancy) → ds ≡ [] → any p ds ≡ false
nil-any p ds e = subst (λ l. any p l ≡ false) (sym e) refl

module _ (digests : Digests) (snapshot : AccountSnapshot) where
  abbrev found : List Discrepancy
  found = all_discrepancies (stable_records digests snapshot)

  abbrev status_found : Status
  status_found = (reconcile_account digests snapshot).body.status

  status_disarmed : any disarms found ≡ true → status_found ≡ disarmed
  unfolding reconcile_account report_body status_of
  status_disarmed h = let e = any-reason_codes found ∙ h in ground (arith, e)

  status_clean : found ≡ [] → status_found ≡ clean
  unfolding reconcile_account report_body status_of
  status_clean h =
      let e = any-reason_codes found ∙ nil-any disarms found h in
      let n = length-normalize found ∙ ap (λ l. length l == 0) h in ground (arith, e, n)

  status_unresolved :
      any disarms found ≡ false → (length found == 0) ≡ false → status_found ≡ unresolved
  unfolding reconcile_account report_body status_of
  status_unresolved h k =
      let e = any-reason_codes found ∙ h in
      let n = length-normalize found ∙ k in ground (arith, e, n)

  -- The status of a report says what was found. It is CLEAN exactly if no phase found a
  -- discrepancy, and DISARMED exactly if one of the discrepancies has a disarming code: sorting
  -- and removing duplicates loses none.
  pub reconcile_account_status :
      (((reconcile_account digests snapshot).body.status ≡ clean)
        ↔ (all_discrepancies (stable_records digests snapshot) ≡ []))
      × (((reconcile_account digests snapshot).body.status ≡ disarmed)
          ↔ (any disarms (all_discrepancies (stable_records digests snapshot)) ≡ true))
  reconcile_account_status = elim (Bool-cases (any disarms found)) [
    | inl bad ↦
        let d = status_disarmed bad in
        (
          (
            λ c. absurd (ground (arith, c, d)),
            λ e. absurd (ground (arith, nil-any disarms found e, bad)),
          ),
          (λ c. bad, λ e. d),
        )
    | inr fine ↦ elim (Bool-cases (length found == 0)) [
      | inl none' ↦
          let c = status_clean (length-nil found none') in
          (
            (λ e. length-nil found none', λ e. c),
            (λ e. absurd (ground (arith, c, e)), λ e. absurd (ground (arith, e, fine))),
          )
      | inr some' ↦
          let u = status_unresolved fine some' in
          (
            (
              λ e. absurd (ground (arith, u, e)),
              λ e. absurd (ground (arith, ap (λ l. length l == 0) e, some')),
            ),
            (λ e. absurd (ground (arith, u, e)), λ e. absurd (ground (arith, e, fine))),
          )
    ]
  ]
