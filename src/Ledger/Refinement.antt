-- ===== src/Ledger/Refinement.antt =====
-- A table as a map that is written once: from the columns of the scope to those that are compared.
use mathlib.Core.Path.{fun_ext}
use kraken_knight.Base.{
  ◌≡◌, refl, sym, ap, subst, inl, inr, Bool, true, false, Option, none, some, List, [], ◌∷◌, ◌++◌,
  arith, if◌then◌else◌, Bool-cases, Option-cases, any, ledger_conflict, Result, ok, err,
}
use kraken_knight.Ledger.Tables.{Cell, cells_eq, find_row, Table, clashes, same_scope, write_once}
use kraken_knight.Ledger.WriteOnce.{cells_eq-eq, cells_eq_refl, write_once-cases}

-- The abstract map, and its one operation: a key is set once, and set again only to what it has.
abbrev pub WriteOnceMap : Type 0
WriteOnceMap = List Cell → Option (List Cell)

abbrev pub updated : WriteOnceMap → List Cell → List Cell → WriteOnceMap
updated f k c k' = if cells_eq k' k then some c else f k'

unfoldable pub put_once : WriteOnceMap → List Cell → List Cell → Option WriteOnceMap
put_once f k c = elim (f k) [
  | none ↦ some (updated f k c)
  | some old ↦ if cells_eq old c then some f else none
]

module _ {ℓ} {A : Type ℓ} where
  find_row-none :
      (p q : A → Bool) (xs : List A)
      → ((x : A) → p x ≡ true → q x ≡ true)
      → any q xs ≡ false
      → find_row p xs ≡ none
  find_row-none p q [] h e = refl
  find_row-none p q (x ∷ xs) h e =
      let rest : any q xs ≡ false = ground (arith, e) in
      ground (arith, e, h x, find_row-none p q xs h rest)

  find_row-any :
      (p q : A → Bool) (xs : List A) (o : A)
      → ((x : A) → p x ≡ true → q x ≡ true)
      → find_row p xs ≡ some o
      → any q xs ≡ true
  find_row-any p q [] o h e = cc
  find_row-any p q (x ∷ xs) o h e = elim (Bool-cases (p x)) [
    | inl here ↦ ground (arith, h x here)
    | inr there ↦
        let rest : find_row p xs ≡ some o = ground (arith, e, there) in
        ground (arith, find_row-any p q xs o h rest)
  ]

  find_row_append :
      (p : A → Bool) (xs : List A) (y : A)
      → find_row p (xs ++ y ∷ [])
        ≡ elim (find_row p xs) [ none ↦ if p y then some y else none | some o ↦ some o ]
  find_row_append p [] y = refl
  find_row_append p (x ∷ xs) y = ground (arith, find_row_append p xs y)

module _ {A : Type 0} (t : Table A) where
  -- The scope is among the constraints.
  abbrev pub IsScoped : Type 0
  IsScoped = (a b : A) → same_scope t a b ≡ true → clashes t a b ≡ true

  abbrev pub content_of : Option A → Option (List Cell)
  content_of none = none
  content_of (some r) = some (t.content r)

  -- the map that the rows stand for
  abbrev pub view : List A → WriteOnceMap
  view rows k = content_of (find_row (λ r. cells_eq k (t.scope r)) rows)

  unscoped :
      (scoped : IsScoped) (new : A) (rows : List A)
      → any (clashes t new) rows ≡ false
      → find_row (same_scope t new) rows ≡ none
  unscoped scoped new rows fresh =
      find_row-none (same_scope t new) (clashes t new) rows (scoped new) fresh

  view_append :
      (new : A) (rows : List A)
      → find_row (same_scope t new) rows ≡ none
      → (k : List Cell)
      → view (rows ++ new ∷ []) k ≡ updated (view rows) (t.scope new) (t.content new) k
  view_append new rows missing k =
      let p = λ (r : A). cells_eq k (t.scope r) in
      elim (Bool-cases (cells_eq k (t.scope new))) [
        | inl same ↦
            let none' : find_row p rows ≡ none =
              subst (λ x. find_row (λ r. cells_eq x (t.scope r)) rows ≡ none)
                (sym (cells_eq-eq k (t.scope new) same)) missing in
            ground (arith, find_row_append p rows new, none', same)
        | inr other ↦ elim (Option-cases (find_row p rows)) [
          | inl absent' ↦ ground (arith, find_row_append p rows new, absent', other)
          | inr (o, found) ↦ ground (arith, find_row_append p rows new, found, other)
        ]
      ]

  pub write_once-put_once :
      (scoped : IsScoped) (reference : Result (Unit {0})) (new : A) (rows rows' : List A)
      → write_once t reference new rows ≡ ok rows'
      → put_once (view rows) (t.scope new) (t.content new) ≡ some (view rows')
  unfolding put_once
  write_once-put_once scoped reference new rows rows' h =
      elim (write_once-cases t reference new rows rows' h) [
        | inl (inserted, passed) ↦
            let missing = unscoped scoped new rows inserted.fresh in
            let views : view (rows ++ new ∷ [])
                ≡ updated (view rows) (t.scope new) (t.content new) =
              fun_ext (view_append new rows missing) in
            let views' : view rows' ≡ updated (view rows) (t.scope new) (t.content new) =
              subst (λ r. view r ≡ updated (view rows) (t.scope new) (t.content new))
                (sym inserted.extended) views in
            let at_new : view rows (t.scope new) ≡ none = ap content_of missing in
            ground (arith, at_new, views')
        | inr retried ↦
            let at_new : view rows (t.scope new) ≡ some (t.content retried.old) =
              ap content_of retried.found in
            ground (arith, at_new, retried.agreed, ap view retried.kept)
      ]

  -- what the map refuses, the table refuses, and says so
  pub write_once-different :
      (scoped : IsScoped) (reference : Result (Unit {0})) (new : A) (rows : List A)
      → put_once (view rows) (t.scope new) (t.content new) ≡ none
      → write_once t reference new rows ≡ err (ledger_conflict t.different)
  unfolding put_once write_once
  write_once-different scoped reference new rows h =
      elim (Option-cases (find_row (same_scope t new) rows)) [
        | inl missing ↦
            let at_new : view rows (t.scope new) ≡ none = ap content_of missing in
            absurd (ground (arith, at_new, h))
        | inr (old, found) ↦
            let at_new : view rows (t.scope new) ≡ some (t.content old) = ap content_of found in
            let clash =
              find_row-any (same_scope t new) (clashes t new) rows old (scoped new) found in
            elim (Bool-cases (cells_eq (t.content old) (t.content new))) [
              | inl same ↦ absurd (ground (arith, at_new, same, h))
              | inr other ↦ ground (arith, clash, found, other)
            ]
      ]

  -- A row with the same keys and the same content is a retry.
  pub write_once-retry :
      (scoped : IsScoped) (reference again : Result (Unit {0})) (new new' : A) (rows rows' : List A)
      → t.scope new' ≡ t.scope new
      → t.content new' ≡ t.content new
      → write_once t reference new rows ≡ ok rows'
      → write_once t again new' rows' ≡ ok rows'
  unfolding write_once
  write_once-retry scoped reference again new new' rows rows' scopes contents h =
      let found : (o : A) × (find_row (same_scope t new) rows' ≡ some o)
          × (cells_eq (t.content o) (t.content new) ≡ true) =
        elim (write_once-cases t reference new rows rows' h) [
          | inl (inserted, passed) ↦
              let missing = unscoped scoped new rows inserted.fresh in
              let last : find_row (same_scope t new) (rows ++ new ∷ []) ≡ some new = ground (
                arith,
                find_row_append (same_scope t new) rows new,
                missing,
                cells_eq_refl (t.scope new),
              ) in
              (
                new,
                subst (λ r. find_row (same_scope t new) r ≡ some new) (sym inserted.extended) last,
                cells_eq_refl (t.content new),
              )
          | inr retried ↦ (
            retried.old,
            subst (λ r. find_row (same_scope t new) r ≡ some retried.old) (sym retried.kept)
                retried.found,
            retried.agreed,
          )
        ] in
      let (o, here, agreed) = found in
      let here' : find_row (same_scope t new') rows' ≡ some o =
        subst (λ s. find_row (λ r. cells_eq s (t.scope r)) rows' ≡ some o) (sym scopes) here in
      let agreed' : cells_eq (t.content o) (t.content new') ≡ true =
        subst (λ c. cells_eq (t.content o) c ≡ true) (sym contents) agreed in
      let clash = find_row-any (same_scope t new') (clashes t new') rows' o (scoped new') here' in
      ground (arith, clash, here', agreed')
