-- ===== src/Decimals.antt =====
-- `decimal.Decimal`: its values, its arithmetic, and what the program relies on of them.
mod Defs
mod Order
mod Signs
mod Quotients
pub use Defs.{
  Decimal, Rounding, round_down, round_floor, round_ceiling, default_prec, of_ℕ, literal,
  copy_negate,
}
unfoldable pub use Defs.{
  lt, le, eq, min, max, ◌⊕◌, ◌⊖◌, ◌⊗◌, ◌⊘◌, abs, sum_from, negate, to_integral, div_at, mul_at,
  digit_count, arithmetic,
}
pub use Order.{
  le-eq-not-lt, lt_irrefl, lt_asymm, le_refl, le_trans, le_total, le_of_lt, lt_of_lt_of_le,
  gt_of_not_le, min-le_left, min-le_right, le-max_left, le-max_right,
}
pub use Signs.{IsPositive, lt-zero_iff, lt-zero-sub, mul-IsPositive}
pub use Quotients.{div-IsPositive, div_total, div_zero}
