-- ===== src/Decimals/Quotients.antt =====
-- A quotient of positive numbers is positive: the digits that a division keeps are never all zero.
use kraken_knight.Base.{
  ℕ, zero, suc, ◌+◌, ◌-◌, ◌*◌, ◌/◌, ◌^◌, ◌≤◌, ◌<◌, ◌≡◌, refl, inl, inr, arith, ltb, ◌==◌, ltb→lt,
  ltb→le, Bool-cases, ℤ, pos, pos_part, neg_part, ◌+ℤ◌, ◌-ℤ◌, zero_division, ok, err,
}
use native.Mathlib.Nat.{
  pow-suc, pow-zero, one-le-pow, le-div_iff_mul-le, mul-le-mul, pow-le-pow_right, le_trans,
}
use kraken_knight.Decimals.Defs.{
  signs, Decimal, digits, digits_above, quotient, sticky, strip, div_nonzero, div_at, default_prec,
  ◌⊘◌, fix,
}
use kraken_knight.Decimals.Order.{pow-add}
use kraken_knight.Decimals.Signs.{IsPositive, fix-IsPositive_iff}

-- a number has at most `digits_above + 1` digits, and at least as many
below-pow-digits : (f n : ℕ) → n ≤ f → n < 10 ^ (digits_above f 10 n + 1)
unfolding digits_above
below-pow-digits zero n h = omega arith
below-pow-digits (suc f) n h = elim (Bool-cases (ltb n 10)) [
  | inl small ↦ rw small (omega (arith, ltb→lt n 10 small))
  | inr large ↦
      let rest = digits_above f 10 (n / 10) in
      let e : suc rest + 1 ≡ suc (rest + 1) = omega arith in
      rw (large, e, pow-suc 10 (rest + 1))
        (omega (
          arith,
          ltb→le n 10 large,
          below-pow-digits f (n / 10) (omega (arith, ltb→le n 10 large)),
        ))
]

pow-digits-le : (f n : ℕ) → 0 < n → 10 ^ digits_above f 10 n ≤ n
unfolding digits_above
pow-digits-le zero n p = rw (pow-zero 10) p
pow-digits-le (suc f) n p = elim (Bool-cases (ltb n 10)) [
  | inl small ↦ rw small (rw (pow-zero 10) p)
  | inr large ↦
      rw (large, pow-suc 10 (digits_above f 10 (n / 10)))
        (omega
          (arith, ltb→le n 10 large, pow-digits-le f (n / 10) (omega (arith, ltb→le n 10 large))))
]

sticky-pos : (q r : ℕ) → 0 < q → 0 < sticky q r
unfolding sticky
sticky-pos q r h = ground arith

strip-pos : (f c : ℕ) (e i : ℤ) → 0 < c → 0 < (strip f c e i).0
unfolding strip
strip-pos zero c e i h = h
strip-pos (suc f) c e i h = ground (arith, strip-pos f (c / 10) (e +ℤ pos 1) i)

-- a shift that makes the dividend at least as long as the divisor
quotient-pos :
    (a b : ℕ) (s : ℤ) → b * 10 ^ neg_part s ≤ a * 10 ^ pos_part s → 0 < b → 0 < quotient a b s
unfolding quotient
quotient-pos a b s h p = sticky-pos _ _ (
    (le-div_iff_mul-le {k = b * 10 ^ neg_part s} {x = 1} {y = a * 10 ^ pos_part s} (
        mul-le-mul {n₁ = 1} {m₁ = 1} {n₂ = b} {m₂ = 10 ^ neg_part s} p
          (one-le-pow (neg_part s) 10 (omega arith)))).1
      (omega (arith, h)))

sub-parts : (x y : ℕ) → (pos_part (pos x -ℤ pos y) ≡ x - y) × (neg_part (pos x -ℤ pos y) ≡ y - x)
unfolding ◌-ℤ◌
sub-parts x y = ground arith

long_enough :
    (a b p : ℕ)
    → 0 < a
    → let s = pos (digits b + p + 1) -ℤ pos (digits a) in b * 10 ^ neg_part s ≤ a * 10 ^ pos_part s
unfolding digits
long_enough a b p h =
    let da = digits_above a 10 a in
    let db = digits_above b 10 b in
    let x = db + 1 + p + 1 in
    let y = da + 1 in
    let (ps, ns) = sub-parts x y in
    let above : b ≤ 10 ^ (db + 1) = omega (arith, below-pow-digits b b (omega arith)) in
    let below = pow-digits-le a a h in
    let middle : 10 ^ (db + 1 + (y - x)) ≤ 10 ^ (da + (x - y)) =
      pow-le-pow_right {n = 10} (omega arith) (omega arith) in
    rw (ps, ns)
      (le_trans (mul-le-mul {m₁ = 10 ^ (y - x)} {m₂ = 10 ^ (y - x)} above (omega arith)) (
        le_trans (rw (pow-add 10 (db + 1) (y - x), pow-add 10 da (x - y)) at middle)
          (mul-le-mul {m₁ = 10 ^ (x - y)} {m₂ = 10 ^ (x - y)} below (omega arith))))

div_nonzero-IsPositive :
    (prec : ℕ) (a b : Decimal) → IsPositive a → IsPositive b → IsPositive (div_nonzero prec a b)
unfolding div_nonzero
div_nonzero-IsPositive prec a b (s, p) (t, q) =
    let sh = pos (digits b.coefficient + prec + 1) -ℤ pos (digits a.coefficient) in
    let qp =
      quotient-pos a.coefficient b.coefficient sh (long_enough a.coefficient b.coefficient prec p)
        q in
    (
      rw (s, t) refl,
      ground (
        arith,
        qp,
        strip-pos (prec + prec) (quotient a.coefficient b.coefficient sh)
            (a.exponent -ℤ b.exponent -ℤ sh) (a.exponent -ℤ b.exponent) qp,
      ),
    )

-- A positive number divided by a positive number gives a positive number.
pub div-IsPositive :
    (a b : Decimal) → IsPositive a → IsPositive b → (q : Decimal) × (a ⊘ b ≡ ok q) × IsPositive q
unfolding ◌⊘◌ div_at
div-IsPositive a b ha hb = (
  fix default_prec (div_nonzero default_prec a b),
  ground arith,
  (fix-IsPositive_iff default_prec (div_nonzero default_prec a b) (omega arith)).1
      (div_nonzero-IsPositive default_prec a b ha hb),
)

pub div_zero : (a b : Decimal) → b.coefficient ≡ 0 → a ⊘ b ≡ err zero_division
unfolding ◌⊘◌ div_at
div_zero a b h = ground arith

-- Any division by a number that is not zero has a result.
pub div_total : (a b : Decimal) → 0 < b.coefficient → (q : Decimal) × (a ⊘ b ≡ ok q)
unfolding ◌⊘◌ div_at
div_total a b h = elim (Bool-cases (a.coefficient == 0)) [
  | inl z ↦ (
    record {
      negative = signs a.negative b.negative;
      coefficient = 0;
      exponent = a.exponent -ℤ b.exponent;
    },
    ground arith,
  )
  | inr n ↦ (fix default_prec (div_nonzero default_prec a b), ground arith)
]
