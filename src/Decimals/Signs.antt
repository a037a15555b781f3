-- ===== src/Decimals/Signs.antt =====
-- The signs of results. Rounding never changes a sign and never turns a nonzero number into zero,
-- so the sign of a difference is the order of its terms.
use kraken_knight.Base.{
  ℕ, zero, suc, ◌-◌, ◌*◌, ◌/◌, ◌^◌, ◌≤◌, ◌<◌, ◌≡◌, refl, sym, ◌∙◌, ◌↔◌, inl, inr, Bool, true, false,
  ◌&&◌, not, arith, ltb, ◌==◌, if◌then◌else◌, ltb→lt, lt→ltb, ltb→le, Bool-cases, Bool-eq, ℤ, pos,
  negsuc, pos_part, neg_part, ◌≤ℤ◌, +ℤ_parts, ◌+ℤ◌,
}
use native.Mathlib.Nat.{pow-suc, pow-zero, one-le-pow, le-div_iff_mul-le}
use kraken_knight.Decimals.Defs.{
  Decimal, of_ℕ, signed, shift, aligned, lt, fix, half_even, carry, digits_above, round_off,
  exact_add, copy_negate, default_prec, ◌⊕◌, ◌⊖◌, ◌⊗◌, mul_at, magnitude, is_negative,
}
use kraken_knight.Decimals.Order.{pos_part-signed, neg_part-signed}

abbrev pub IsPositive : Decimal → Type 0
IsPositive a = (a.negative ≡ false) × (0 < a.coefficient)

pub lt-zero_iff : (a : Decimal) → (lt (of_ℕ 0) a ≡ true) ↔ IsPositive a
unfolding lt aligned
lt-zero_iff a =
    let p = pos_part-signed a.negative (a.coefficient * 10 ^ shift a.exponent (pos 0)) in
    let n = neg_part-signed a.negative (a.coefficient * 10 ^ shift a.exponent (pos 0)) in
    let ten = one-le-pow (shift a.exponent (pos 0)) 10 (omega arith) in
    (λ h. grind (arith, p, n), λ h. grind (arith, p, n, ten))

ten-le-pow : (p : ℕ) → 0 < p → 10 ≤ 10 ^ p
ten-le-pow zero h = absurd (omega arith)
ten-le-pow (suc p) h = rw (pow-suc 10 p) (omega (arith, one-le-pow p 10 (omega arith)))

pow-digits_above-le : (f l n : ℕ) → 10 ≤ l → 0 < n → 10 ^ digits_above f l n ≤ n
unfolding digits_above
pow-digits_above-le zero l n h p = rw (pow-zero 10) p
pow-digits_above-le (suc f) l n h p = elim (Bool-cases (ltb n l)) [
  | inl small ↦ rw small (rw (pow-zero 10) p)
  | inr large ↦
      rw (large, pow-suc 10 (digits_above f l (n / 10)))
        (omega (
          arith,
          ltb→le n l large,
          pow-digits_above-le f l (n / 10) h (omega (arith, ltb→le n l large)),
        ))
]

half_even-pos : (q r d : ℕ) → 0 < q → 0 < half_even q r d
unfolding half_even
half_even-pos q r d h = ground arith

carry-pos : (prec : ℕ) (s : Bool) (c : ℕ) (e : ℤ) → 0 < c → 0 < (carry prec s c e).coefficient
unfolding carry
carry-pos prec s c e h = ground (arith, one-le-pow (prec - 1) 10 (omega arith))

carry-negative : (prec : ℕ) (s : Bool) (c : ℕ) (e : ℤ) → (carry prec s c e).negative ≡ s
unfolding carry
carry-negative prec s c e = ground arith

round_off-pos :
    (prec k : ℕ) (a : Decimal) → 10 ^ k ≤ a.coefficient → 0 < (round_off prec k a).coefficient
unfolding round_off
round_off-pos prec k a h = carry-pos prec a.negative _ _ (
    half_even-pos (a.coefficient / 10 ^ k) _ _ (
      (le-div_iff_mul-le {k = 10 ^ k} {x = 1} {y = a.coefficient} (one-le-pow k 10 (omega arith))).1
        (omega (arith, h))))

module _ (prec : ℕ) (a : Decimal) where
  pub negative-fix : (fix prec a).negative ≡ a.negative
  unfolding fix round_off
  negative-fix = elim (Bool-cases (ltb a.coefficient (10 ^ prec))) [
    | inl p ↦ rw p
    | inr p ↦ rw p (carry-negative prec a.negative _ _)
  ]

  fix-zero : a.coefficient ≡ 0 → (fix prec a).coefficient ≡ 0
  unfolding fix
  fix-zero z =
      let small =
        lt→ltb a.coefficient (10 ^ prec) (omega (arith, z, one-le-pow prec 10 (omega arith))) in
      rw small z

  fix-pos : 0 < prec → 0 < a.coefficient → 0 < (fix prec a).coefficient
  unfolding fix
  fix-pos h p = elim (Bool-cases (ltb a.coefficient (10 ^ prec))) [
    | inl small ↦ rw small p
    | inr large ↦ rw large (
        round_off-pos prec (digits_above a.coefficient (10 ^ prec) a.coefficient) a
          (pow-digits_above-le a.coefficient (10 ^ prec) a.coefficient (ten-le-pow prec h) p))
  ]

  -- rounding keeps a positive number positive, and makes nothing else positive
  pub fix-IsPositive_iff : 0 < prec → IsPositive (fix prec a) ↔ IsPositive a
  fix-IsPositive_iff h = (
    λ (s, c). (sym negative-fix ∙ s, ground (arith, fix-zero)),
    λ (s, c). (negative-fix ∙ s, fix-pos h c),
  )

pub mul-IsPositive : (a b : Decimal) → IsPositive a → IsPositive b → IsPositive (a ⊗ b)
unfolding ◌⊗◌ mul_at
mul-IsPositive a b (s, p) (t, q) =
    (fix-IsPositive_iff default_prec _ (omega arith)).1 (rw (s, t) refl, grind arith)

signed-not :
    (s : Bool) (n : ℕ)
    → (pos_part (signed (not s) n) ≡ neg_part (signed s n))
      × (neg_part (signed (not s) n) ≡ pos_part (signed s n))
signed-not false zero = (refl, refl)
signed-not true zero = (refl, refl)
signed-not false (suc n) = (refl, refl)
signed-not true (suc n) = (refl, refl)

-- the sign and magnitude that `exact_add` gives to a sum
sum-IsPositive_iff :
    (z : ℤ) (s : Bool)
    → (((if magnitude z == 0 then s else is_negative z) ≡ false) × (0 < magnitude z)) ↔ (pos 1 ≤ℤ z)
sum-IsPositive_iff (pos n) s = (λ h. omega arith, λ h. ground arith)
sum-IsPositive_iff (negsuc n) s = (λ h. ground arith, λ h. absurd (omega arith))

exact_sub-IsPositive_iff :
    (a b : Decimal) → IsPositive (exact_add a (copy_negate b)) ↔ (lt b a ≡ true)
unfolding exact_add lt aligned
exact_sub-IsPositive_iff a b =
    let sb = signed b.negative (b.coefficient * 10 ^ shift b.exponent a.exponent) in
    let nb = signed (not b.negative) (b.coefficient * 10 ^ shift b.exponent a.exponent) in
    let sa = signed a.negative (a.coefficient * 10 ^ shift a.exponent b.exponent) in
    let flip = signed-not b.negative (b.coefficient * 10 ^ shift b.exponent a.exponent) in
    let iff = sum-IsPositive_iff (sa +ℤ nb) (a.negative && not b.negative) in
    let parts = +ℤ_parts sa nb in
    (
      λ h. lt→ltb _ _ (omega (arith, iff.0 h, parts, flip)),
      λ h. iff.1 (omega (arith, ltb→lt _ _ h, parts, flip)),
    )

-- The sign of a difference is exact, although the difference is rounded.
pub lt-zero-sub : (a b : Decimal) → lt (of_ℕ 0) (a ⊖ b) ≡ lt b a
unfolding ◌⊖◌ ◌⊕◌
lt-zero-sub a b =
    Bool-eq
      (λ h. (exact_sub-IsPositive_iff a b).0 (
        (fix-IsPositive_iff default_prec (exact_add a (copy_negate b)) (omega arith)).0
          ((lt-zero_iff _).0 h)))
      (λ h. (lt-zero_iff _).1 (
        (fix-IsPositive_iff default_prec (exact_add a (copy_negate b)) (omega arith)).1
          ((exact_sub-IsPositive_iff a b).1 h)))
