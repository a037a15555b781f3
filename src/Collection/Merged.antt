-- ===== src/Collection/Merged.antt =====
-- What the merging of pages keeps.
use kraken_knight.Base.{
  ℕ, String, ◌≡◌, refl, sym, ◌∙◌, subst, inl, inr, Bool, true, false, ◌&&◌, some, List, [], ◌∷◌,
  arith, ◌==◌, if◌then◌else◌, Bool-cases, Option-cases, any, All, text_eq, text_eq_iff,
  text_eq_refl, text_lt, any-sort_by,
}
use kraken_knight.Decimals.{Decimal, le, eq, le_refl, le_trans}
use kraken_knight.Collection.Records.{LedgerRecord}
use kraken_knight.Collection.Merge.{
  find_key, set_key, merge_into, flatten, merge, entry_same, merge_ledgers,
}

module _ {ℓ} {A : Type ℓ} (key : A → String) (same : A → A → Bool)
    (same_refl : (x : A) → same x x ≡ true)
    (same_sym : (x y : A) → same x y ≡ true → same y x ≡ true)
    (same_trans : (x y z : A) → same x y ≡ true → same y z ≡ true → same x z ≡ true) where
  -- The dictionary has the record, or an equal one, under its identifier.
  abbrev pub IsKept : List A → A → Type ℓ
  IsKept by_id x = (y : A) × (find_key key same (key x) by_id ≡ some y) × (same y x ≡ true)

  find_key-set :
      (x : A) (id : String) (by_id : List A)
      → find_key key same id (set_key key same x by_id)
        ≡ (if text_eq (key x) id then some x else find_key key same id by_id)
  find_key-set x id [] = refl
  find_key-set x id (y ∷ ys) = ground (
    arith,
    text_eq_iff (key y) (key x),
    text_eq_iff (key y) id,
    text_eq_iff (key x) id,
    find_key-set x id ys,
  )

  inconsistent_stays : (by_id xs : List A) → (merge_into key same by_id false xs).1 ≡ false
  unfolding merge_into
  inconsistent_stays by_id [] = refl
  inconsistent_stays by_id (x ∷ xs) = elim (Option-cases (find_key key same (key x) by_id)) [
    | inl fresh ↦ ground (arith, fresh, inconsistent_stays (set_key key same x by_id) xs)
    | inr (old, found) ↦ ground (
      arith,
      found,
      inconsistent_stays (set_key key same x by_id) xs,
      inconsistent_stays by_id xs,
    )
  ]

  -- a record that agrees with what is there takes no other record away
  set_key-IsKept :
      (by_id : List A) (x z : A)
      → ((old : A) → find_key key same (key x) by_id ≡ some old → same old x ≡ true)
      → IsKept by_id z
      → IsKept (set_key key same x by_id) z
  set_key-IsKept by_id x z agrees (y, found, equal) = elim (Bool-cases (text_eq (key x) (key z))) [
    | inr other ↦ (y, ground (arith, find_key-set x (key z) by_id, other, found), equal)
    | inl same_key ↦
        let keys = (text_eq_iff (key x) (key z)).0 same_key in
        let old = agrees y (subst (λ k. find_key key same k by_id ≡ some y) (sym keys) found) in
        (
          x,
          ground (arith, find_key-set x (key z) by_id, same_key),
          same_trans x y z (same_sym y x old) equal,
        )
  ]

  set_key_self : (by_id : List A) (x : A) → IsKept (set_key key same x by_id) x
  set_key_self by_id x =
      (x, ground (arith, find_key-set x (key x) by_id, text_eq_refl (key x)), same_refl x)

  -- what a merge has kept: what was there, and the records that went in
  abbrev HasKept : List A → List A → List A × Bool → Type ℓ
  HasKept by_id xs merged =
      ((z : A) → IsKept by_id z → IsKept merged.0 z) × All (IsKept merged.0) xs

  HasKept-next :
      (by_id xs : List A) (x : A)
      → ((old : A) → find_key key same (key x) by_id ≡ some old → same old x ≡ true)
      → HasKept
          (set_key key same x by_id)
          xs
          (merge_into key same (set_key key same x by_id) true xs)
      → HasKept by_id (x ∷ xs) (merge_into key same (set_key key same x by_id) true xs)
  HasKept-next by_id xs x agrees (keeps, all) =
      (λ z k. keeps z (set_key-IsKept by_id x z agrees k), (keeps x (set_key_self by_id x), all))

  merge_into-IsKept :
      (by_id xs : List A)
      → (merge_into key same by_id true xs).1 ≡ true
      → HasKept by_id xs (merge_into key same by_id true xs)
  unfolding merge_into
  merge_into-IsKept by_id [] h = (λ z k. k, tt)
  merge_into-IsKept by_id (x ∷ xs) h = elim (Option-cases (find_key key same (key x) by_id)) [
    | inl fresh ↦
        let step : merge_into key same by_id true (x ∷ xs)
            ≡ merge_into key same (set_key key same x by_id) true xs =
          ground (arith, fresh) in
        let rest = subst (λ m. m.1 ≡ true) step h in
        subst (HasKept by_id (x ∷ xs)) (sym step) (
          HasKept-next by_id xs x (λ old e. absurd (ground (arith, fresh, e)))
            (merge_into-IsKept (set_key key same x by_id) xs rest))
    | inr (old, found) ↦ elim (Bool-cases (same old x)) [
      | inr differs ↦ absurd (ground (arith, found, differs, h, inconsistent_stays by_id xs))
      | inl equal ↦
          let step : merge_into key same by_id true (x ∷ xs)
              ≡ merge_into key same (set_key key same x by_id) true xs =
            ground (arith, found, equal) in
          let rest = subst (λ m. m.1 ≡ true) step h in
          let agrees = λ (o : A) (e : find_key key same (key x) by_id ≡ some o).
            let one : old ≡ o = cc in subst (λ y. same y x ≡ true) one equal in
          subst (HasKept by_id (x ∷ xs)) (sym step)
            (HasKept-next by_id xs x agrees (merge_into-IsKept (set_key key same x by_id) xs rest))
    ]
  ]

  find_key-any :
      (by_id : List A) (x y : A)
      → find_key key same (key x) by_id ≡ some y
      → same y x ≡ true
      → any (λ z. text_eq (key z) (key x) && same z x) by_id ≡ true
  find_key-any [] x y h e = cc
  find_key-any (z ∷ zs) x y h e = elim (Bool-cases (text_eq (key z) (key x))) [
    | inl here ↦
        let one : z ≡ y = ground (arith, here, h) in
        let equal : same z x ≡ true = subst (λ w. same w x ≡ true) (sym one) e in
        ground (arith, here, equal)
    | inr there ↦
        let rest : find_key key same (key x) zs ≡ some y = ground (arith, there, h) in
        ground (arith, find_key-any zs x y rest e)
  ]

  agreeing :
      (by_id : List A) (x z : A)
      → IsKept by_id x
      → IsKept by_id z
      → text_eq (key x) (key z) ≡ true
      → same x z ≡ true
  agreeing by_id x z (y, found, equal) (w, found', equal') keys =
      let ids = (text_eq_iff (key x) (key z)).0 keys in
      let found_x : find_key key same (key z) by_id ≡ some y =
        subst (λ k. find_key key same k by_id ≡ some y) ids found in
      let one : y ≡ w = cc in
      same_trans x y z (same_sym y x equal) (subst (λ v. same v z ≡ true) (sym one) equal')

  All-map {κ μ} :
      {P : A → Type κ} {Q : A → Type μ} (xs : List A) → ((x : A) → P x → Q x) → All P xs → All Q xs
  All-map [] f h = tt
  All-map (x ∷ xs) f h = (f x h.0, All-map xs f h.1)

  pub merge_consistent :
      (groups : List (List A))
      → (merge key same groups).1 ≡ true
      → All
          (λ x. any (λ z. text_eq (key z) (key x) && same z x) (merge key same groups).0 ≡ true)
          (flatten key same groups)
        × All
            (λ x.
              All (λ z. text_eq (key x) (key z) ≡ true → same x z ≡ true) (flatten key same groups))
            (flatten key same groups)
  unfolding merge
  merge_consistent groups h =
      let all = (merge_into-IsKept [] (flatten key same groups) h).1 in
      let by_id = (merge_into key same [] true (flatten key same groups)).0 in
      (
        All-map (flatten key same groups)
            (λ x k.
              any-sort_by (λ z. text_eq (key z) (key x) && same z x)
                (λ a b. text_lt (key a) (key b)) by_id
              ∙ find_key-any by_id x (k.0) (k.1) (k.2))
            all,
        All-map (flatten key same groups)
            (λ x k. All-map (flatten key same groups) (λ z l e. agreeing by_id x z k l e) all) all,
      )

eq_refl : (a : Decimal) → eq a a ≡ true
unfolding eq
eq_refl a = ground (arith, le_refl a)

eq_sym : (a b : Decimal) → eq a b ≡ true → eq b a ≡ true
unfolding eq
eq_sym a b h = ground (arith, h)

eq_trans : (a b c : Decimal) → eq a b ≡ true → eq b c ≡ true → eq a c ≡ true
unfolding eq
eq_trans a b c h k =
    let ab : le a b ≡ true = ground (arith, h) in
    let ba : le b a ≡ true = ground (arith, h) in
    let bc : le b c ≡ true = ground (arith, k) in
    let cb : le c b ≡ true = ground (arith, k) in
    ground (arith, le_trans a b c ab bc, le_trans c b a cb ba)

entry_same_refl : (a : LedgerRecord) → entry_same a a ≡ true
unfolding entry_same
entry_same_refl a = ground (
  arith,
  text_eq_refl a.ledger_id,
  text_eq_refl a.reference_id,
  text_eq_refl a.entry_type,
  text_eq_refl a.subtype,
  text_eq_refl a.asset_class,
  text_eq_refl a.asset,
  eq_refl a.amount,
  eq_refl a.fee,
  eq_refl a.balance,
)

text_eq_sym : (s t : String) → text_eq s t ≡ true → text_eq t s ≡ true
text_eq_sym s t h = subst (λ x. text_eq x s ≡ true) ((text_eq_iff s t).0 h) (text_eq_refl s)

text_eq_trans : (s t u : String) → text_eq s t ≡ true → text_eq t u ≡ true → text_eq s u ≡ true
text_eq_trans s t u h k = subst (λ x. text_eq s x ≡ true) ((text_eq_iff t u).0 k) h

entry_same_sym : (a b : LedgerRecord) → entry_same a b ≡ true → entry_same b a ≡ true
unfolding entry_same
entry_same_sym a b h = ground (
  arith,
  h,
  text_eq_sym a.ledger_id b.ledger_id,
  text_eq_sym a.reference_id b.reference_id,
  text_eq_sym a.entry_type b.entry_type,
  text_eq_sym a.subtype b.subtype,
  text_eq_sym a.asset_class b.asset_class,
  text_eq_sym a.asset b.asset,
  eq_sym a.amount b.amount,
  eq_sym a.fee b.fee,
  eq_sym a.balance b.balance,
)

nat_trans : (m n o : ℕ) → (m == n) ≡ true → (n == o) ≡ true → (m == o) ≡ true
nat_trans m n o h k = ground (arith, h, k)

-- two chains of tests that are each transitive
and_trans :
    {p q r p' q' r' : Bool}
    → (p ≡ true → q ≡ true → r ≡ true)
    → (p' ≡ true → q' ≡ true → r' ≡ true)
    → p && p' ≡ true
    → q && q' ≡ true
    → r && r' ≡ true
and_trans {p} {q} f g h k =
    let p1 : p ≡ true = ground (arith, h) in
    let q1 : q ≡ true = ground (arith, k) in ground (arith, h, k, f p1 q1, g)

entry_same_trans :
    (a b c : LedgerRecord) → entry_same a b ≡ true → entry_same b c ≡ true → entry_same a c ≡ true
unfolding entry_same
entry_same_trans a b c =
    and_trans
      (and_trans
        (and_trans
          (and_trans
            (and_trans
              (and_trans
                (and_trans
                  (and_trans
                    (and_trans (text_eq_trans a.ledger_id b.ledger_id c.ledger_id)
                      (text_eq_trans a.reference_id b.reference_id c.reference_id))
                    (nat_trans a.recorded_at b.recorded_at c.recorded_at))
                  (text_eq_trans a.entry_type b.entry_type c.entry_type))
                (text_eq_trans a.subtype b.subtype c.subtype))
              (text_eq_trans a.asset_class b.asset_class c.asset_class))
            (text_eq_trans a.asset b.asset c.asset))
          (eq_trans a.amount b.amount c.amount))
        (eq_trans a.fee b.fee c.fee))
      (eq_trans a.balance b.balance c.balance)

abbrev pub entry_id : LedgerRecord → String
entry_id e = e.ledger_id

-- When the merge of ledger pages says that they are consistent, no record is lost and none was
-- overwritten by a different one: each record of each page, or one equal to it, is in the result
-- under its identifier, and two records of any pages with one identifier are equal.
pub merge_ledgers_consistent :
    (groups : List (List LedgerRecord))
    → (merge_ledgers groups).1 ≡ true
    → All
        (λ x.
          any (λ z. text_eq (entry_id z) (entry_id x) && entry_same z x) (merge_ledgers groups).0
          ≡ true)
        (flatten entry_id entry_same groups)
      × All
          (λ x.
            All
              (λ z. text_eq (entry_id x) (entry_id z) ≡ true → entry_same x z ≡ true)
              (flatten entry_id entry_same groups))
          (flatten entry_id entry_same groups)
unfolding merge_ledgers
merge_ledgers_consistent groups h =
    merge_consistent entry_id entry_same entry_same_refl entry_same_sym entry_same_trans groups h
