-- ===== src/Base/Sorting.antt =====
-- `sorted`, which keeps the order of equal keys, and what does not depend on the order of a list.
use Prim.Native.Nat.{suc}
use mathlib.Core.Path.{◌≡◌, refl, sym, ap, ◌∙◌}
use mathlib.Core.Bool.{Bool, true, false, ◌||◌, ◌&&◌, not}
use mathlib.Core.Logic.{◌⊎◌, inl, inr}
use mathlib.Core.List.{List, [], ◌∷◌, ◌++◌}
use native.Mathlib.Omega.{arith}
use kraken_knight.Base.Tests.{if◌then◌else◌, Bool-cases}
use kraken_knight.Base.Lists.{any, All, length}
use kraken_knight.Base.Texts.{
  text_eq, text_eq_iff, one_of, text_lt, text_lt_trans, text_lt_asym, text_lt_irrefl,
}
use Prim.Native.String.{String}

module _ {ℓ} {A : Type ℓ} where
  -- before the first element that `x` does not follow
  abbrev pub insert_by : (A → A → Bool) → A → List A → List A
  insert_by lt x [] = x ∷ []
  insert_by lt x (y ∷ ys) = if lt y x then y ∷ insert_by lt x ys else x ∷ y ∷ ys

  abbrev pub sort_by : (A → A → Bool) → List A → List A
  sort_by lt [] = []
  sort_by lt (x ∷ xs) = insert_by lt x (sort_by lt xs)

  abbrev pub keep_if : (A → Bool) → List A → List A
  keep_if p [] = []
  keep_if p (x ∷ xs) = if p x then x ∷ keep_if p xs else keep_if p xs

  pub any-insert_by :
      (p : A → Bool) (lt : A → A → Bool) (x : A) (ys : List A)
      → any p (insert_by lt x ys) ≡ p x || any p ys
  any-insert_by p lt x [] = refl
  any-insert_by p lt x (y ∷ ys) = ground (arith, any-insert_by p lt x ys)

  pub any-sort_by :
      (p : A → Bool) (lt : A → A → Bool) (xs : List A) → any p (sort_by lt xs) ≡ any p xs
  any-sort_by p lt [] = refl
  any-sort_by p lt (x ∷ xs) =
      ground (arith, any-insert_by p lt x (sort_by lt xs), any-sort_by p lt xs)

  -- A strict order: what a key of texts gives.
  pub record IsOrder (lt : A → A → Bool) : Type ℓ where
    pub asym : (x y : A) → lt x y ≡ true → lt y x ≡ false
    pub transitive : (x y z : A) → lt x y ≡ true → lt y z ≡ true → lt x z ≡ true

  -- Two elements that the order tells apart, unless they are the same.
  abbrev pub IsApart : (A → A → Bool) → A → A → Type ℓ
  IsApart lt x y = (x ≡ y) ⊎ ((lt x y ≡ true) ⊎ (lt y x ≡ true))

  abbrev pub AllApart : (A → A → Bool) → List A → Type ℓ
  AllApart lt [] = Unit
  AllApart lt (x ∷ xs) = All (IsApart lt x) xs × AllApart lt xs

  module _ (lt : A → A → Bool) (order : IsOrder lt) where
    insert_lt_comm :
        (x y : A) (zs : List A)
        → lt x y ≡ true
        → insert_by lt x (insert_by lt y zs) ≡ insert_by lt y (insert_by lt x zs)
    insert_lt_comm x y [] h = ground (arith, h, order.asym x y h)
    insert_lt_comm x y (z ∷ zs) h =
        ground (arith, h, order.asym x y h, order.transitive z x y, insert_lt_comm x y zs h)

    insert_by_comm :
        (x y : A) (zs : List A)
        → IsApart lt x y
        → insert_by lt x (insert_by lt y zs) ≡ insert_by lt y (insert_by lt x zs)
    insert_by_comm x y zs (inl same) = cc
    insert_by_comm x y zs (inr (inl below)) = insert_lt_comm x y zs below
    insert_by_comm x y zs (inr (inr above)) = sym (insert_lt_comm y x zs above)

  -- The same elements in another order.
  pub data Reordered : List A → List A → Type ℓ where
    nothing : Reordered [] []
    kept : (x : A) {xs ys : List A} → Reordered xs ys → Reordered (x ∷ xs) (x ∷ ys)
    exchanged : (x y : A) (zs : List A) → Reordered (x ∷ y ∷ zs) (y ∷ x ∷ zs)
    composed : {xs ys zs : List A} → Reordered xs ys → Reordered ys zs → Reordered xs zs

  All-Reordered {κ} : (P : A → Type κ) {xs ys : List A} → Reordered xs ys → All P xs → All P ys
  All-Reordered P nothing h = tt
  All-Reordered P (kept x r) h = (h.0, All-Reordered P r h.1)
  All-Reordered P (exchanged x y zs) h = (h.1.0, (h.0, h.1.1))
  All-Reordered P (composed r s) h = All-Reordered P s (All-Reordered P r h)

  IsApart-sym : (lt : A → A → Bool) (x y : A) → IsApart lt x y → IsApart lt y x
  IsApart-sym lt x y (inl same) = inl (sym same)
  IsApart-sym lt x y (inr (inl below)) = inr (inr below)
  IsApart-sym lt x y (inr (inr above)) = inr (inl above)

  AllApart-Reordered :
      (lt : A → A → Bool) {xs ys : List A} → Reordered xs ys → AllApart lt xs → AllApart lt ys
  AllApart-Reordered lt nothing h = tt
  AllApart-Reordered lt (kept x r) h =
      (All-Reordered (IsApart lt x) r h.0, AllApart-Reordered lt r h.1)
  AllApart-Reordered lt (exchanged x y zs) h = ((IsApart-sym lt x y (h.0.0), h.1.0), (h.0.1, h.1.1))
  AllApart-Reordered lt (composed r s) h = AllApart-Reordered lt s (AllApart-Reordered lt r h)

  pub Reordered-refl : (xs : List A) → Reordered xs xs
  Reordered-refl [] = nothing
  Reordered-refl (x ∷ xs) = kept x (Reordered-refl xs)

  Reordered-append_left :
      (zs : List A) {ys ys' : List A} → Reordered ys ys' → Reordered (zs ++ ys) (zs ++ ys')
  Reordered-append_left [] s = s
  Reordered-append_left (z ∷ zs) s = kept z (Reordered-append_left zs s)

  pub Reordered-append :
      {xs xs' ys ys' : List A}
      → Reordered xs xs'
      → Reordered ys ys'
      → Reordered (xs ++ ys) (xs' ++ ys')
  Reordered-append nothing s = s
  Reordered-append (kept x r) s = kept x (Reordered-append r s)
  Reordered-append {ys = ys} (exchanged x y zs) s =
      composed (exchanged x y (zs ++ ys)) (kept y (kept x (Reordered-append_left zs s)))
  Reordered-append {ys = ys} (composed r t) s =
      composed (Reordered-append r (Reordered-refl ys)) (Reordered-append t s)

  Reordered-back : (x : A) (xs ys : List A) → Reordered (x ∷ xs ++ ys) (xs ++ x ∷ ys)
  Reordered-back x [] ys = Reordered-refl (x ∷ ys)
  Reordered-back x (z ∷ xs) ys =
      composed (exchanged x z (xs ++ ys)) (kept z (Reordered-back x xs ys))

  pub length-Reordered : {xs ys : List A} → Reordered xs ys → length xs ≡ length ys
  length-Reordered nothing = refl
  length-Reordered (kept x r) = ap suc (length-Reordered r)
  length-Reordered (exchanged x y zs) = refl
  length-Reordered (composed r s) = length-Reordered r ∙ length-Reordered s

  insert_by-Reordered :
      (lt : A → A → Bool) (x : A) (ys : List A) → Reordered (x ∷ ys) (insert_by lt x ys)
  insert_by-Reordered lt x [] = Reordered-refl (x ∷ [])
  insert_by-Reordered lt x (y ∷ ys) = elim (Bool-cases (lt y x)) [
    | inl after ↦ rw after (composed (exchanged x y ys) (kept y (insert_by-Reordered lt x ys)))
    | inr here ↦ rw here (Reordered-refl (x ∷ y ∷ ys))
  ]

  pub Reordered-sort_by : (lt : A → A → Bool) (xs : List A) → Reordered xs (sort_by lt xs)
  Reordered-sort_by lt [] = nothing
  Reordered-sort_by lt (x ∷ xs) =
      composed (kept x (Reordered-sort_by lt xs)) (insert_by-Reordered lt x (sort_by lt xs))

  -- a list is what passes a test, and then what does not
  pub Reordered-split :
      (p q : A → Bool) (xs : List A)
      → ((x : A) → q x ≡ not (p x))
      → Reordered xs (keep_if p xs ++ keep_if q xs)
  Reordered-split p q [] h = nothing
  Reordered-split p q (x ∷ xs) h =
      let rest = Reordered-split p q xs h in
      elim (Bool-cases (p x)) [
        | inl passes ↦
            let other : q x ≡ false = ground (arith, h x, passes) in
            rw (passes, other) (kept x rest)
        | inr fails ↦
            let other : q x ≡ true = ground (arith, h x, fails) in
            rw (fails, other)
              (composed (kept x rest) (Reordered-back x (keep_if p xs) (keep_if q xs)))
      ]

  module _ (lt : A → A → Bool) (order : IsOrder lt) where
    pub sort_by-Reordered :
        {xs ys : List A} → Reordered xs ys → AllApart lt xs → sort_by lt xs ≡ sort_by lt ys
    sort_by-Reordered nothing h = refl
    sort_by-Reordered (kept x r) h = ap (insert_by lt x) (sort_by-Reordered r h.1)
    sort_by-Reordered (exchanged x y zs) h = insert_by_comm lt order x y (sort_by lt zs) (h.0.0)
    sort_by-Reordered (composed r s) h =
        sort_by-Reordered r h ∙ sort_by-Reordered s (AllApart-Reordered lt r h)

-- The order of pairs of texts.
module _ {ℓ} {A : Type ℓ} (first second : A → String) where
  abbrev pub before : A → A → Bool
  before x y =
      text_lt (first x) (first y) || (text_eq (first x) (first y) && text_lt (second x) (second y))

  pub before-IsOrder : IsOrder before
  before-IsOrder = record {
    asym = λ x y h. ground (
      arith,
      h,
      text_lt_asym (first x) (first y),
      text_lt_asym (second x) (second y),
      text_eq_iff (first x) (first y),
      text_eq_iff (first y) (first x),
      text_lt_irrefl (first x),
    );
    transitive = λ x y z h k. ground (
      arith,
      h,
      k,
      text_lt_trans (first x) (first y) (first z),
      text_lt_trans (second x) (second y) (second z),
      text_eq_iff (first x) (first y),
      text_eq_iff (first y) (first z),
      text_eq_iff (first x) (first z),
    );
  }

pub sort_before-Reordered {ℓ} :
    {A : Type ℓ} (first second : A → String) {xs ys : List A}
    → Reordered xs ys
    → AllApart (before first second) xs
    → sort_by (before first second) xs ≡ sort_by (before first second) ys
sort_before-Reordered first second r h =
    sort_by-Reordered (before first second) (before-IsOrder first second) r h

-- `sorted(set(xs))` and `_duplicate_values`: the values that occur more than once
abbrev pub distinct : List String → List String
distinct [] = []
distinct (x ∷ xs) = if one_of x xs then distinct xs else x ∷ distinct xs

abbrev pub sort_texts : List String → List String
sort_texts xs = sort_by text_lt xs

abbrev pub repeated : List String → List String
repeated [] = []
repeated (x ∷ xs) = if one_of x xs then x ∷ repeated xs else repeated xs

abbrev pub duplicate_values : List String → List String
duplicate_values xs = sort_texts (distinct (repeated xs))

one_of-any :
    (p : String → Bool) (x : String) (xs : List String)
    → one_of x xs ≡ true
    → p x ≡ true
    → any p xs ≡ true
one_of-any p x [] h k = cc
one_of-any p x (y ∷ ys) h k = ground (arith, h, k, text_eq_iff x y, one_of-any p x ys)

pub any-distinct : (p : String → Bool) (xs : List String) → any p (distinct xs) ≡ any p xs
any-distinct p [] = refl
any-distinct p (x ∷ xs) = ground (arith, any-distinct p xs, one_of-any p x xs)
