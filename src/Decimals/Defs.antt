-- ===== src/Decimals/Defs.antt =====
-- Finite values of Python's `decimal.Decimal`, and the operations the program uses of them:
-- a sign, a coefficient and a power of ten. A result is rounded half-even to a precision, which
-- is 28 digits by default and is given where the program sets a local context. The limits on
-- exponents (a million digits) are not modelled, so neither overflow nor underflow is.
use kraken_knight.Base.{
  ℕ, zero, suc, ◌+◌, ◌-◌, ◌*◌, ◌/◌, ◌%◌, ◌^◌, Bool, true, false, not, ◌&&◌, ltb, ◌==◌,
  if◌then◌else◌, ℤ, pos, negsuc, pos_part, neg_part, ◌+ℤ◌, ◌-ℤ◌, ltb_ℤ, leb_ℤ, Result, ok, err,
  zero_division, List, [], ◌∷◌,
}

pub record Decimal : Type 0 where
  pub negative : Bool
  pub coefficient : ℕ
  pub exponent : ℤ

-- `Decimal(n)` of an int, and a literal such as `Decimal("0.05")`, which is `literal 5 2`
abbrev pub of_ℕ : ℕ → Decimal
of_ℕ n = record { negative = false; coefficient = n; exponent = pos 0 }

abbrev pub literal : ℕ → ℕ → Decimal
literal n places = record {
  negative = false;
  coefficient = n;
  exponent = elim places [ zero ↦ pos 0 | suc k ↦ negsuc k ];
}

-- the integer that a sign and a magnitude stand for
abbrev pub signed : Bool → ℕ → ℤ
signed false n = pos n
signed true zero = pos 0
signed true (suc n) = negsuc n

-- how far `x` lies above `y`, or 0
unfoldable pub shift : ℤ → ℤ → ℕ
shift x y = pos_part x + neg_part y - (pos_part y + neg_part x)

-- `a` as an integer at the lower of the two exponents
unfoldable pub aligned : Decimal → Decimal → ℤ
aligned a b = signed a.negative (a.coefficient * 10 ^ shift a.exponent b.exponent)

-- `a < b`, `a <= b` and `a == b`
unfoldable pub lt : Decimal → Decimal → Bool
lt a b = ltb_ℤ (aligned a b) (aligned b a)

unfoldable pub le : Decimal → Decimal → Bool
le a b = leb_ℤ (aligned a b) (aligned b a)

unfoldable pub eq : Decimal → Decimal → Bool
eq a b = le a b && le b a

-- the builtins `min` and `max`, which keep the first of two equal arguments
unfoldable pub min : Decimal → Decimal → Decimal
min a b = if lt b a then b else a

unfoldable pub max : Decimal → Decimal → Decimal
max a b = if lt a b then b else a

-- The number of decimal digits above `limit`, a power of ten. The number itself is fuel enough.
unfoldable pub digits_above : ℕ → ℕ → ℕ → ℕ
digits_above zero limit n = 0
digits_above (suc fuel) limit n =
    let rest = suc (digits_above fuel limit (n / 10)) in if ltb n limit then 0 else rest

unfoldable pub digits : ℕ → ℕ
digits n = let d = digits_above n 10 n in d + 1

-- ROUND_HALF_EVEN of a quotient `q` with the remainder `r` of a division by `d`
unfoldable pub half_even : ℕ → ℕ → ℕ → ℕ
half_even q r d = if ltb d (2 * r) then q + 1 else if d == 2 * r then q + q % 2 else q

-- The context's rounding to `prec` digits; rounding up may carry into one more digit.
unfoldable pub carry : ℕ → Bool → ℕ → ℤ → Decimal
carry prec s c e =
    if c == 10 ^ prec
    then record { negative = s; coefficient = 10 ^ (prec - 1); exponent = e +ℤ pos 1 }
    else record { negative = s; coefficient = c; exponent = e }

-- without the lowest `k` digits
unfoldable pub round_off : ℕ → ℕ → Decimal → Decimal
round_off prec k a =
    carry prec a.negative (half_even (a.coefficient / 10 ^ k) (a.coefficient % 10 ^ k) (10 ^ k))
      (a.exponent +ℤ pos k)

unfoldable pub fix : ℕ → Decimal → Decimal
fix prec a =
    let k = digits_above a.coefficient (10 ^ prec) a.coefficient in
    if ltb a.coefficient (10 ^ prec) then a else round_off prec k a

abbrev pub default_prec : ℕ
default_prec = 28

abbrev pub magnitude : ℤ → ℕ
magnitude z = pos_part z + neg_part z

abbrev pub is_negative : ℤ → Bool
is_negative (pos _) = false
is_negative (negsuc _) = true

-- The exact sum; a zero sum is negative only if both operands are.
unfoldable pub exact_add : Decimal → Decimal → Decimal
exact_add a b =
    let total = aligned a b +ℤ aligned b a in
    record {
      negative = if magnitude total == 0 then a.negative && b.negative else is_negative total;
      coefficient = magnitude total;
      exponent = if leb_ℤ a.exponent b.exponent then a.exponent else b.exponent;
    }

-- A unary minus that does not round.
abbrev pub copy_negate : Decimal → Decimal
copy_negate a = record a { negative = not a.negative }

-- exclusive or of signs
abbrev pub signs : Bool → Bool → Bool
signs false t = t
signs true t = not t

-- The quotient's digits: as many as the precision and two more, the last one sticky.
unfoldable pub sticky : ℕ → ℕ → ℕ
sticky q r = if r == 0 then q else if q % 5 == 0 then q + 1 else q

unfoldable pub quotient : ℕ → ℕ → ℤ → ℕ
quotient a b s =
    let x = a * 10 ^ pos_part s in let y = b * 10 ^ neg_part s in sticky (x / y) (x % y)

-- An exact quotient loses its trailing zeros down to the ideal exponent.
unfoldable pub strip : ℕ → ℕ → ℤ → ℤ → ℕ × ℤ
strip zero c e ideal = (c, e)
strip (suc fuel) c e ideal =
    let rest = strip fuel (c / 10) (e +ℤ pos 1) ideal in
    if ltb_ℤ e ideal && (c % 10 == 0) then rest else (c, e)

unfoldable pub is_exact : ℕ → ℕ → ℤ → Bool
is_exact a b s = (a * 10 ^ pos_part s) % (b * 10 ^ neg_part s) == 0

unfoldable pub div_nonzero : ℕ → Decimal → Decimal → Decimal
div_nonzero prec a b =
    let ideal = a.exponent -ℤ b.exponent in
    let s = pos (digits b.coefficient + prec + 1) -ℤ pos (digits a.coefficient) in
    let q = quotient a.coefficient b.coefficient s in
    let e = ideal -ℤ s in
    let (c, e') =
      if is_exact a.coefficient b.coefficient s then strip (prec + prec) q e ideal else (q, e) in
    record { negative = signs a.negative b.negative; coefficient = c; exponent = e' }

unfoldable pub div_at : ℕ → Decimal → Decimal → Result Decimal
div_at prec a b =
    if b.coefficient == 0
    then err zero_division
    else if a.coefficient == 0
    then ok (record {
      negative = signs a.negative b.negative;
      coefficient = 0;
      exponent = a.exponent -ℤ b.exponent;
    })
    else ok (fix prec (div_nonzero prec a b))

unfoldable pub mul_at : ℕ → Decimal → Decimal → Decimal
mul_at prec a b = fix prec (record {
  negative = signs a.negative b.negative;
  coefficient = a.coefficient * b.coefficient;
  exponent = a.exponent +ℤ b.exponent;
})

-- The operators, in the default context.
infixl 65 ◌⊕◌ ◌⊖◌
infixl 70 ◌⊗◌ ◌⊘◌
unfoldable pub ◌⊕◌ : Decimal → Decimal → Decimal
a ⊕ b = fix default_prec (exact_add a b)

unfoldable pub ◌⊖◌ : Decimal → Decimal → Decimal
a ⊖ b = a ⊕ copy_negate b

unfoldable pub ◌⊗◌ : Decimal → Decimal → Decimal
a ⊗ b = mul_at default_prec a b

unfoldable pub ◌⊘◌ : Decimal → Decimal → Result Decimal
a ⊘ b = div_at default_prec a b

-- Python's `-a`, which rounds; a zero loses its sign
unfoldable pub negate : Decimal → Decimal
negate a =
    fix default_prec (record a { negative = if a.coefficient == 0 then false else not a.negative })

-- `abs(a)`, which rounds
unfoldable pub abs : Decimal → Decimal
abs a = fix default_prec (record a { negative = false })

-- `sum(xs, start=Decimal("0"))`
unfoldable pub sum_from : Decimal → List Decimal → Decimal
sum_from acc [] = acc
sum_from acc (x ∷ xs) = sum_from (acc ⊕ x) xs

pub data Rounding : Type 0 where
  round_down round_floor round_ceiling : Rounding

unfoldable pub rounds_up : Rounding → Bool → Bool
rounds_up round_down s = false
rounds_up round_floor s = s
rounds_up round_ceiling s = not s

-- `a.to_integral_value(rounding=r)`
unfoldable pub to_integral : Rounding → Decimal → Decimal
to_integral r a =
    let d = 10 ^ neg_part a.exponent in
    let up = if a.coefficient % d == 0 then false else rounds_up r a.negative in
    if neg_part a.exponent == 0 then a else record {
      negative = a.negative;
      coefficient = a.coefficient / d + (if up then 1 else 0);
      exponent = pos 0;
    }

-- `len(a.as_tuple().digits)`
unfoldable pub digit_count : Decimal → ℕ
digit_count a = digits a.coefficient

-- For tests: whoever unfolds this computes with all of the above.
unfoldable pub arithmetic : Unit {0}
unfolding shift aligned lt le eq min max digits_above digits half_even carry round_off fix exact_add
    sticky quotient strip is_exact div_nonzero div_at mul_at ◌⊕◌ ◌⊖◌ ◌⊗◌ ◌⊘◌ abs negate sum_from
    rounds_up to_integral digit_count
arithmetic = tt
