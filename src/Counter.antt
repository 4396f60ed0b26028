-- ===== src/Counter.antt =====
-- ChampSim/inc/msl/fwcounter.h: the saturating counter `base_fwcounter<val_type, MAXVAL, MINVAL>`.
-- A counter is its `_value`, a `signed long long`; an operation that updates `*this` returns the
-- new value. `Laws` has the bounds and the meaning of the comparators, `Unsigned` the counters
-- `fwcounter<WIDTH>` as natural numbers.
pub mod Laws
pub mod Unsigned
pub mod Training
mod Tests
use cs230_branch_predictor.Prelude.{ℕ, ◌-◌, ◌^◌, Bool, not, ◌||◌, Option, if◌then◌else◌, ◌+◌}
use cs230_branch_predictor.Prelude.Int.{ℤ, pos, negsuc, ◌+ℤ◌, ◌-ℤ◌, ◌*ℤ◌, div_ℤ, ltb_ℤ, eq_ℤ}
use mathlib.Core.Option

-- The template arguments.
pub record Range : Type 0 where
  pub minimum : ℤ
  pub maximum : ℤ

-- `fwcounter<WIDTH>`
abbrev pub fwcounter : ℕ → Range
fwcounter width = record { minimum = pos 0; maximum = pos (2 ^ width - 1) }

-- `sfwcounter<WIDTH>`
abbrev pub sfwcounter : ℕ → Range
sfwcounter width = record {
  minimum = negsuc (2 ^ (width - 1) - 1);
  maximum = pos (2 ^ (width - 1) - 1);
}

-- `lhs < rhs`, `lhs == rhs`, and the four comparators that the source builds from these.
unfoldable pub lt : ℤ → ℤ → Bool
lt lhs rhs = ltb_ℤ lhs rhs

unfoldable pub eq : ℤ → ℤ → Bool
eq lhs rhs = eq_ℤ lhs rhs

unfoldable pub gt : ℤ → ℤ → Bool
unfolding eq lt
gt lhs rhs = not (eq lhs rhs || lt lhs rhs)

unfoldable pub ge : ℤ → ℤ → Bool
unfolding lt
ge lhs rhs = not (lt lhs rhs)

unfoldable pub le : ℤ → ℤ → Bool
unfolding gt
le lhs rhs = not (gt lhs rhs)

unfoldable pub ne : ℤ → ℤ → Bool
unfolding eq
ne lhs rhs = not (eq lhs rhs)

module _ (range : Range) where
  -- `std::clamp(val, MINVAL, MAXVAL)`
  unfoldable pub clamp : ℤ → ℤ
  clamp val =
      if ltb_ℤ val range.minimum
      then range.minimum
      else if ltb_ℤ range.maximum val
      then range.maximum
      else val

  unfoldable pub assign : ℤ → ℤ
  unfolding clamp
  assign rhs = clamp rhs

  unfoldable pub add_assign : ℤ → ℤ → ℤ
  unfolding clamp
  add_assign value rhs = clamp (value +ℤ rhs)

  unfoldable pub sub_assign : ℤ → ℤ → ℤ
  unfolding clamp
  sub_assign value rhs = clamp (value -ℤ rhs)

  unfoldable pub mul_assign : ℤ → ℤ → ℤ
  unfolding clamp
  mul_assign value rhs = clamp (value *ℤ rhs)

  -- Division by zero is undefined: `none`.
  unfoldable pub div_assign : ℤ → ℤ → Option ℤ
  unfolding clamp
  div_assign value rhs = Option.map clamp (div_ℤ value rhs)

  unfoldable pub pre_increment : ℤ → ℤ
  unfolding add_assign
  pre_increment value = add_assign value (pos 1)

  unfoldable pub pre_decrement : ℤ → ℤ
  unfolding sub_assign
  pre_decrement value = sub_assign value (pos 1)

  -- The postfix operators return the old counter beside the new one.
  unfoldable pub post_increment : ℤ → ℤ × ℤ
  unfolding pre_increment
  post_increment value = (value, pre_increment value)

  unfoldable pub post_decrement : ℤ → ℤ × ℤ
  unfolding pre_decrement
  post_decrement value = (value, pre_decrement value)

  unfoldable pub is_max : ℤ → Bool
  is_max value = eq_ℤ value range.maximum

  unfoldable pub is_min : ℤ → Bool
  is_min value = eq_ℤ value range.minimum
