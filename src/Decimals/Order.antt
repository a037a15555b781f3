-- ===== src/Decimals/Order.antt =====
-- The order of decimals: total, transitive, and what the builtins `min` and `max` return.
use kraken_knight.Base.{
  ℕ, zero, suc, ◌+◌, ◌-◌, ◌*◌, ◌^◌, ◌≤◌, ◌<◌, ◌≡◌, refl, sym, ◌↔◌, inl, inr, Bool, true, false, not,
  arith, if◌then◌else◌, Bool-cases, ℤ, pos_part, neg_part, ◌≤ℤ◌, leb_ℤ,
}
use native.Mathlib.Nat.{
  pow-suc, mul_assoc, mul-le-mul_right, one-le-pow, le_of_mul-le-mul_right, pow-zero,
}
use kraken_knight.Decimals.Defs.{Decimal, signed, shift, aligned, lt, le, min, max}

pub le-eq-not-lt : (a b : Decimal) → le a b ≡ not (lt b a)
unfolding le lt
le-eq-not-lt a b = ground arith

pub lt_irrefl : (a : Decimal) → lt a a ≡ false
unfolding lt
lt_irrefl a = ground arith

pub lt_asymm : (a b : Decimal) → lt a b ≡ true → lt b a ≡ false
unfolding lt
lt_asymm a b h = ground arith

pub le_refl : (a : Decimal) → le a a ≡ true
unfolding le
le_refl a = ground arith

pub pow-add : (n i j : ℕ) → n ^ (i + j) ≡ n ^ i * n ^ j
pow-add n i zero = let e : i + 0 ≡ i = omega arith in rw (e, pow-zero) (omega arith)
pow-add n i (suc j) =
    let e : i + suc j ≡ suc (i + j) = omega arith in
    rw (e, pow-suc n (i + j), pow-suc n j, pow-add n i j) (mul_assoc (n ^ i) (n ^ j) n)

-- A decimal as an integer at an exponent below its own.
at_exponent : ℤ → Decimal → ℤ
at_exponent m a = signed a.negative (a.coefficient * 10 ^ shift a.exponent m)

pub pos_part-signed : (s : Bool) (n : ℕ) → pos_part (signed s n) ≡ (if s then 0 else n)
pos_part-signed false n = refl
pos_part-signed true zero = refl
pos_part-signed true (suc n) = refl

pub neg_part-signed : (s : Bool) (n : ℕ) → neg_part (signed s n) ≡ (if s then n else 0)
neg_part-signed false n = refl
neg_part-signed true zero = refl
neg_part-signed true (suc n) = refl

pub ruleset signs = (pos_part-signed, neg_part-signed)

-- `signed s x ≤ℤ signed t y`, read on the magnitudes
abbrev Below : Bool → ℕ → Bool → ℕ → Type 0
Below s x t y =
    (if s then 0 else x) + (if t then y else 0) ≤ (if t then 0 else y) + (if s then x else 0)

Below-iff : (s : Bool) (x : ℕ) (t : Bool) (y : ℕ) → (signed s x ≤ℤ signed t y) ↔ Below s x t y
Below-iff s x t y = (λ h. simp signs at h, λ h. simp signs h)

Below-scale :
    (s : Bool) (x : ℕ) (t : Bool) (y k : ℕ) → 0 < k → Below s x t y ↔ Below s (x * k) t (y * k)
Below-scale false x false y k p = (
  λ h. omega (arith, mul-le-mul_right {m = x} {n = y} k (omega arith)),
  λ h. omega (arith, le_of_mul-le-mul_right {m = x} {n = y} {k = k} (omega arith) p),
)
Below-scale false x true y k p = (
  λ h. omega (arith, mul-le-mul_right {m = x + y} {n = 0} k (omega arith)),
  λ h. omega (arith, le_of_mul-le-mul_right {m = x + y} {n = 0} {k = k} (omega arith) p),
)
Below-scale true x false y k p = (λ h. omega arith, λ h. omega arith)
Below-scale true x true y k p = (
  λ h. omega (arith, mul-le-mul_right {m = y} {n = x} k (omega arith)),
  λ h. omega (arith, le_of_mul-le-mul_right {m = y} {n = x} {k = k} (omega arith) p),
)

Below-trans :
    (s : Bool) (x : ℕ) (t : Bool) (y : ℕ) (u : Bool) (z : ℕ)
    → Below s x t y
    → Below t y u z
    → Below s x u z
Below-trans s x t y u z h k = ground arith

shift-split : (x y m : ℤ) → m ≤ℤ x → m ≤ℤ y → shift x m ≡ shift x y + (shift x m - shift x y)
unfolding shift
shift-split x y m h k = omega arith

shift-split' : (x y m : ℤ) → m ≤ℤ x → m ≤ℤ y → shift y m ≡ shift y x + (shift x m - shift x y)
unfolding shift
shift-split' x y m h k = omega arith

scale_split :
    (c : ℕ) (x y m : ℤ) (d : ℕ)
    → shift x m ≡ shift x y + d
    → c * 10 ^ shift x m ≡ c * 10 ^ shift x y * 10 ^ d
scale_split c x y m d e = rw (e, pow-add 10 (shift x y) d) (sym (mul_assoc c _ _))

le_of_leb : (x y : ℤ) → (leb_ℤ x y ≡ true) ↔ (x ≤ℤ y)
le_of_leb x y = (λ h. ground arith, λ h. ground arith)

le-aligned :
    (a b : Decimal)
    → (le a b ≡ true)
      ↔ Below a.negative
          (a.coefficient * 10 ^ shift a.exponent b.exponent)
          b.negative
          (b.coefficient * 10 ^ shift b.exponent a.exponent)
unfolding le aligned
le-aligned a b =
    let iff =
      Below-iff a.negative (a.coefficient * 10 ^ shift a.exponent b.exponent) b.negative
        (b.coefficient * 10 ^ shift b.exponent a.exponent) in
    let test = le_of_leb (aligned a b) (aligned b a) in
    (λ h. iff.0 (test.0 h), λ h. test.1 (iff.1 h))

-- At any exponent below both, the integers of two decimals are in their order.
le_iff :
    (m : ℤ) (a b : Decimal)
    → m ≤ℤ a.exponent
    → m ≤ℤ b.exponent
    → (le a b ≡ true)
      ↔ Below a.negative
          (a.coefficient * 10 ^ shift a.exponent m)
          b.negative
          (b.coefficient * 10 ^ shift b.exponent m)
le_iff m a b h k =
    let d = shift a.exponent m - shift a.exponent b.exponent in
    let ea = scale_split a.coefficient _ _ m d (shift-split a.exponent b.exponent m h k) in
    let eb = scale_split b.coefficient _ _ m d (shift-split' a.exponent b.exponent m h k) in
    let scale =
      Below-scale a.negative (a.coefficient * 10 ^ shift a.exponent b.exponent) b.negative
        (b.coefficient * 10 ^ shift b.exponent a.exponent) (10 ^ d)
        (one-le-pow d 10 (omega arith)) in
    (
      λ p. rw (ea, eb) (scale.0 ((le-aligned a b).0 p)),
      λ q. (le-aligned a b).1 (scale.1 (rw (ea, eb) at q)),
    )

abbrev lower : ℤ → ℤ → ℤ
lower x y = if leb_ℤ x y then x else y

lower-le : (x y : ℤ) → (lower x y ≤ℤ x) × (lower x y ≤ℤ y)
lower-le x y = ground arith

≤ℤ_trans : (x y z : ℤ) → x ≤ℤ y → y ≤ℤ z → x ≤ℤ z
≤ℤ_trans x y z h k = omega arith

pub le_trans : (a b c : Decimal) → le a b ≡ true → le b c ≡ true → le a c ≡ true
le_trans a b c h k =
    let ab = lower a.exponent b.exponent in
    let m = lower ab c.exponent in
    let (m-ab, m-c) = lower-le ab c.exponent in
    let (ab-a, ab-b) = lower-le a.exponent b.exponent in
    let m-a = ≤ℤ_trans m ab a.exponent m-ab ab-a in
    let m-b = ≤ℤ_trans m ab b.exponent m-ab ab-b in
    (le_iff m a c m-a m-c).1 (
      Below-trans a.negative (a.coefficient * 10 ^ shift a.exponent m) b.negative
        (b.coefficient * 10 ^ shift b.exponent m) c.negative
        (c.coefficient * 10 ^ shift c.exponent m) ((le_iff m a b m-a m-b).0 h)
        ((le_iff m b c m-b m-c).0 k))

pub le_total : (a b : Decimal) → lt a b ≡ false → le b a ≡ true
le_total a b h = rw (le-eq-not-lt b a, h)

pub le_of_lt : (a b : Decimal) → lt a b ≡ true → le a b ≡ true
le_of_lt a b h = rw (le-eq-not-lt a b, lt_asymm a b h)

pub min-le_left : (a b : Decimal) → le (min a b) a ≡ true
unfolding min
min-le_left a b = ground (arith, le_refl a, le_of_lt b a)

pub min-le_right : (a b : Decimal) → le (min a b) b ≡ true
unfolding min
min-le_right a b = ground (arith, le_refl b, le_total b a)

pub le-max_left : (a b : Decimal) → le a (max a b) ≡ true
unfolding max
le-max_left a b = ground (arith, le_refl a, le_of_lt a b)

pub le-max_right : (a b : Decimal) → le b (max a b) ≡ true
unfolding max
le-max_right a b = ground (arith, le_refl b, le_total a b)

pub lt_of_lt_of_le : (a b c : Decimal) → lt a b ≡ true → le b c ≡ true → lt a c ≡ true
lt_of_lt_of_le a b c h k = elim (Bool-cases (lt a c)) [
  | inl p ↦ p
  | inr p ↦ let back = le_trans b c a k (le_total a c p) in cc (le-eq-not-lt b a)
]

pub gt_of_not_le : (a b : Decimal) → le a b ≡ false → lt b a ≡ true
gt_of_not_le a b h = ground (arith, le-eq-not-lt a b)
