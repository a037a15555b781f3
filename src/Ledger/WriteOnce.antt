-- ===== src/Ledger/WriteOnce.antt =====
-- What an insertion leaves: the row at the end of the table, or a retry that changes nothing.
use kraken_knight.Base.{
  ◌≡◌, refl, sym, ap, subst, ◌⊎◌, inl, inr, Bool, true, false, ◌||◌, some, List, [], ◌∷◌, ◌++◌,
  arith, Bool-cases, Option-cases, Bool-eq, any, Result, ok, Result-cases, text_eq_iff,
  text_eq_refl,
}
use kraken_knight.Ledger.Tables.{
  Cell, absent, integer, textual, cell_eq, cells_eq, any_equal, find_row, Table, clashes,
  same_scope, write_once,
}

cell_eq-eq : (a b : Cell) → cell_eq a b ≡ true → a ≡ b
cell_eq-eq absent absent h = refl
cell_eq-eq absent (integer b) h = cc
cell_eq-eq absent (textual b) h = cc
cell_eq-eq (integer a) absent h = cc
cell_eq-eq (integer a) (integer b) h = let e : a ≡ b = ground (arith, h) in ap integer e
cell_eq-eq (integer a) (textual b) h = cc
cell_eq-eq (textual a) absent h = cc
cell_eq-eq (textual a) (integer b) h = cc
cell_eq-eq (textual a) (textual b) h = ap textual ((text_eq_iff a b).0 h)

cell_eq_refl : (a : Cell) → cell_eq a a ≡ true
cell_eq_refl absent = refl
cell_eq_refl (integer a) = ground arith
cell_eq_refl (textual a) = text_eq_refl a

pub cells_eq-eq : (a b : List Cell) → cells_eq a b ≡ true → a ≡ b
cells_eq-eq [] [] h = refl
cells_eq-eq [] (y ∷ ys) h = cc
cells_eq-eq (x ∷ xs) [] h = cc
cells_eq-eq (x ∷ xs) (y ∷ ys) h =
    let e : cell_eq x y ≡ true = ground (arith, h) in
    let es : cells_eq xs ys ≡ true = ground (arith, h) in
    cc (cell_eq-eq x y e, cells_eq-eq xs ys es)

pub cells_eq_refl : (a : List Cell) → cells_eq a a ≡ true
cells_eq_refl [] = refl
cells_eq_refl (x ∷ xs) = ground (arith, cell_eq_refl x, cells_eq_refl xs)

pub cells_eq_sym : (a b : List Cell) → cells_eq a b ≡ cells_eq b a
cells_eq_sym a b =
    Bool-eq (λ h. subst (λ x. cells_eq x a ≡ true) (cells_eq-eq a b h) (cells_eq_refl a))
      (λ h. subst (λ x. cells_eq x b ≡ true) (cells_eq-eq b a h) (cells_eq_refl b))

any_equal_sym : (ks ls : List (List Cell)) → any_equal ks ls ≡ any_equal ls ks
any_equal_sym [] [] = refl
any_equal_sym [] (l ∷ ls) = refl
any_equal_sym (k ∷ ks) [] = refl
any_equal_sym (k ∷ ks) (l ∷ ls) = ground (arith, cells_eq_sym k l, any_equal_sym ks ls)

pub any_append {ℓ} :
    {A : Type ℓ} (p : A → Bool) (xs : List A) (y : A) → any p (xs ++ y ∷ []) ≡ any p xs || p y
any_append p [] y = ground arith
any_append p (x ∷ xs) y = ground (arith, any_append p xs y)

module _ {A : Type 0} (t : Table A) where
  -- No row agrees with a later one on the columns of a constraint.
  abbrev pub IsUnique : List A → Type 0
  IsUnique [] = Unit {0}
  IsUnique (x ∷ xs) = (any (clashes t x) xs ≡ false) × IsUnique xs

  -- The two ways in which an insertion succeeds.
  pub record IsInserted (new : A) (rows rows' : List A) : Type 0 where
    pub fresh : any (clashes t new) rows ≡ false
    pub extended : rows' ≡ rows ++ new ∷ []

  pub record IsRetried (new : A) (rows rows' : List A) : Type 0 where
    pub old : A
    pub found : find_row (same_scope t new) rows ≡ some old
    pub agreed : cells_eq (t.content old) (t.content new) ≡ true
    pub kept : rows' ≡ rows

  pub write_once-cases :
      (reference : Result (Unit {0})) (new : A) (rows rows' : List A)
      → write_once t reference new rows ≡ ok rows'
      → (IsInserted new rows rows' × (reference ≡ ok tt)) ⊎ IsRetried new rows rows'
  unfolding write_once
  write_once-cases reference new rows rows' h = elim (Bool-cases (any (clashes t new) rows)) [
    | inl clash ↦ elim (Option-cases (find_row (same_scope t new) rows)) [
      | inl missing ↦ absurd (ground (arith, clash, missing, h))
      | inr (old, found) ↦ elim (Bool-cases (cells_eq (t.content old) (t.content new))) [
        | inl same ↦ inr (record {
          old = old;
          found = found;
          agreed = same;
          kept = ground (arith, clash, found, same, h);
        })
        | inr different ↦ absurd (ground (arith, clash, found, different, h))
      ]
    ]
    | inr fresh ↦ elim (Result-cases reference) [
      | inl (tt, passed) ↦
          inl (record { fresh = fresh; extended = ground (arith, fresh, passed, h) }, passed)
      | inr (e, raised) ↦ absurd (ground (arith, fresh, raised, h))
    ]
  ]

  IsUnique-append :
      (rows : List A) (new : A)
      → any (clashes t new) rows ≡ false
      → IsUnique rows
      → IsUnique (rows ++ new ∷ [])
  IsUnique-append [] new fresh unique = (refl, tt)
  IsUnique-append (x ∷ xs) new fresh unique =
      let apart : clashes t x new ≡ false =
        ground (arith, fresh, any_equal_sym (t.keys new) (t.keys x)) in
      let fresh' : any (clashes t new) xs ≡ false = ground (arith, fresh) in
      (
        ground (arith, any_append (clashes t x) xs new, unique.0, apart),
        IsUnique-append xs new fresh' unique.1,
      )

  pub write_once-IsUnique :
      (reference : Result (Unit {0})) (new : A) (rows rows' : List A)
      → write_once t reference new rows ≡ ok rows'
      → IsUnique rows
      → IsUnique rows'
  write_once-IsUnique reference new rows rows' h unique =
      elim (write_once-cases reference new rows rows' h) [
        | inl (inserted, passed) ↦
            subst IsUnique (sym inserted.extended) (IsUnique-append rows new inserted.fresh unique)
        | inr retried ↦ subst IsUnique (sym retried.kept) unique
      ]
