-- ===== src/Reconciliation/Hints.antt =====
-- The phase of `reconcile_account` on the hints of earlier submissions.
use kraken_knight.Base.{
  String, Bool, true, false, ◌&&◌, ◌||◌, not, Option, none, some, List, [], ◌∷◌, ◌++◌, map, ltb,
  leb, ◌==◌, if◌then◌else◌, is_none, length, any, text_eq, one_of, text_join, keep_if, sort_texts,
  duplicate_values,
}
use kraken_knight.Decimals.{le, eq}
use kraken_knight.Domain.{Instant, zero_decimal}
use kraken_knight.Reconciliation.Codes.{
  OrderOwnership, bot, manual, ownership_text, LegacyMatchBasis, by_order_id, by_client_order_id,
  by_exact_attributes, unknown_pair, duplicate_legacy_hint_id, invalid_legacy_hint,
  unmatched_legacy_hint, ambiguous_legacy_hint, legacy_hint_conflict, unverified_attribute_match,
  order_matched_by_multiple_hints, same_side,
}
use kraken_knight.Reconciliation.Records.{
  AuthoritativeOrder, AuthoritativeTrade, LegacySubmissionHint,
}
use kraken_knight.Reconciliation.Balances.{Discrepancy, add_if, add_each, supported_pair}
use kraken_knight.Reconciliation.Orders.{given_and, order_ids}

pub record LegacySubmissionMatch : Type 0 where
  pub hint_id : String
  pub order_id : String
  pub trade_ids : List String
  pub basis : LegacyMatchBasis

-- `optional == text`
abbrev is_given_text : Option String → String → Bool
is_given_text given s = given_and given (λ t. text_eq t s)

-- `a is None or test(a)`
abbrev none_or {ℓ} : {A : Type ℓ} → Option A → (A → Bool) → Bool
none_or none test = true
none_or (some a) test = test a

-- the identity that a hint names is the order's
unfoldable pub is_identified : LegacySubmissionHint → AuthoritativeOrder → Bool
is_identified h o = elim h.order_id [
  | some id ↦ text_eq o.order_id id
  | none ↦ elim h.client_order_id [ some id ↦ is_given_text o.client_order_id id | none ↦ true ]
]

unfoldable pub hint_basis : LegacySubmissionHint → LegacyMatchBasis
hint_basis h =
    if not (is_none h.order_id)
    then by_order_id
    else if not (is_none h.client_order_id)
    then by_client_order_id
    else by_exact_attributes

unfoldable pub is_candidate : LegacySubmissionHint → AuthoritativeOrder → Bool
is_candidate h o =
    none_or h.order_id (λ id. text_eq o.order_id id)
    && none_or h.client_order_id (λ id. is_given_text o.client_order_id id)
    && text_eq o.pair h.pair
    && same_side o.side h.side
    && eq o.quantity_btc h.quantity_btc
    && leb h.window_start o.opened_at
    && leb o.opened_at h.window_end
    && none_or h.limit_price_cad (λ p. given_and o.limit_price_cad (λ q. eq q p))

-- `_hint_candidates`: the candidates, and whether the named identity disagrees
unfoldable pub hint_candidates :
    LegacySubmissionHint → List AuthoritativeOrder → List AuthoritativeOrder
hint_candidates h orders = keep_if (is_candidate h) (keep_if (is_identified h) orders)

unfoldable pub identity_conflict : LegacySubmissionHint → List AuthoritativeOrder → Bool
unfolding hint_candidates
identity_conflict h orders =
    (not (is_none h.order_id) || not (is_none h.client_order_id))
    && any (is_identified h) orders
    && length (hint_candidates h orders) == 0

unfoldable pub breaks_hint : LegacySubmissionHint → Instant → Bool
breaks_hint h observed_at =
    le h.quantity_btc zero_decimal
    || given_and h.limit_price_cad (λ p. le p zero_decimal)
    || ltb observed_at h.window_end

abbrev pub is_bot_or_manual : OrderOwnership → Bool
is_bot_or_manual bot = true
is_bot_or_manual manual = true
is_bot_or_manual owner = false

-- `",".join(texts)`
abbrev pub join_with_commas : List String → String
join_with_commas [] = ""
join_with_commas (s ∷ []) = s
join_with_commas (s ∷ t ∷ rest) = text_join s (text_join "," (join_with_commas (t ∷ rest)))

abbrev pub is_exact : LegacyMatchBasis → Bool
is_exact by_exact_attributes = true
is_exact basis = false

-- the identifiers of an order's valid trades, sorted
unfoldable pub trades_of : String → List String → List AuthoritativeTrade → List String
trades_of id valid trades = sort_texts (
    map (λ (t : AuthoritativeTrade). t.trade_id)
      (keep_if (λ t. text_eq t.order_id id && one_of t.trade_id valid) trades))

module _ (observed_at : Instant) (matchable : List AuthoritativeOrder) (valid : List String)
    (trades : List AuthoritativeTrade) where
  -- the only candidate
  unfoldable pub check_match : LegacySubmissionHint → AuthoritativeOrder → List Discrepancy
  check_match h o =
      if is_exact (hint_basis h)
      then add_if true unverified_attribute_match "legacy_hint" h.hint_id
          "attribute-only similarity cannot establish legacy ownership"
      else add_if (is_bot_or_manual o.ownership) legacy_hint_conflict "legacy_hint" h.hint_id
          (text_join "matched order is classified as " (ownership_text o.ownership))

  unfoldable pub check_candidates :
      LegacySubmissionHint → List AuthoritativeOrder → List Discrepancy
  check_candidates h [] =
      add_if true unmatched_legacy_hint "legacy_hint" h.hint_id
        "no authoritative order satisfies all supplied evidence"
  check_candidates h (o ∷ []) = check_match h o
  check_candidates h (o ∷ p ∷ rest) = add_if true ambiguous_legacy_hint "legacy_hint" h.hint_id (
      text_join "multiple authoritative orders match: "
        (join_with_commas (sort_texts (order_ids (o ∷ p ∷ rest)))))

  unfoldable pub check_hint : LegacySubmissionHint → List Discrepancy
  check_hint h =
      if not (text_eq h.pair supported_pair)
      then add_if true unknown_pair "legacy_hint" h.hint_id (text_join "unsupported pair " h.pair)
      else if breaks_hint h observed_at
      then add_if true invalid_legacy_hint "legacy_hint" h.hint_id
          "hint quantity and optional price must be positive"
      else if identity_conflict h matchable
      then add_if true legacy_hint_conflict "legacy_hint" h.hint_id
          "explicit identity exists but authoritative attributes disagree"
      else check_candidates h (hint_candidates h matchable)

  unfoldable pub check_hints : List LegacySubmissionHint → List Discrepancy
  check_hints [] = []
  check_hints (h ∷ hs) = check_hint h ++ check_hints hs

  unfoldable pub match_candidates :
      LegacySubmissionHint → List AuthoritativeOrder → List LegacySubmissionMatch
  match_candidates h (o ∷ []) =
      if is_exact (hint_basis h) || is_bot_or_manual o.ownership
      then []
      else record {
        hint_id = h.hint_id;
        order_id = o.order_id;
        trade_ids = trades_of o.order_id valid trades;
        basis = hint_basis h;
      }
        ∷ []
  match_candidates h others = []

  -- the match that a round of the loop appends, if it gets so far
  unfoldable pub match_hint : LegacySubmissionHint → List LegacySubmissionMatch
  match_hint h =
      if not (text_eq h.pair supported_pair)
        || breaks_hint h observed_at
        || identity_conflict h matchable
      then []
      else match_candidates h (hint_candidates h matchable)

  unfoldable pub match_hints : List LegacySubmissionHint → List LegacySubmissionMatch
  match_hints [] = []
  match_hints (h ∷ hs) = match_hint h ++ match_hints hs

abbrev pub matched_orders : List LegacySubmissionMatch → List String
matched_orders matches = map (λ (m : LegacySubmissionMatch). m.order_id) matches

abbrev hints_of : String → List LegacySubmissionMatch → List String
hints_of id matches =
    map (λ (m : LegacySubmissionMatch). m.hint_id)
      (keep_if (λ (m : LegacySubmissionMatch). text_eq m.order_id id) matches)

-- an order that more than one hint matched
unfoldable pub check_multiples : List LegacySubmissionMatch → List String → List Discrepancy
check_multiples matches [] = []
check_multiples matches (id ∷ ids) =
    add_if true order_matched_by_multiple_hints "order" id
      (text_join "matched by legacy hints: " (join_with_commas (sort_texts (hints_of id matches))))
    ++ check_multiples matches ids

unfoldable pub hint_phase :
    Instant
    → List AuthoritativeOrder
    → List String
    → List AuthoritativeTrade
    → List LegacySubmissionHint
    → List Discrepancy
hint_phase observed_at matchable valid trades hints =
    let matches = match_hints observed_at matchable valid trades hints in
    add_each (duplicate_values (map (λ (h : LegacySubmissionHint). h.hint_id) hints))
      duplicate_legacy_hint_id "legacy_hint" "legacy hint identifiers must be unique"
    ++ (check_hints observed_at matchable valid trades hints
        ++ check_multiples matches (duplicate_values (matched_orders matches)))
