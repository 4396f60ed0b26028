-- ===== src/Counter/Laws.antt =====
-- ChampSim/inc/msl/fwcounter.h: what each operator of a counter guarantees.
use cs230_branch_predictor.Prelude.{◌≡◌, ◌↔◌, true, false, Option, none, some, arith}
use cs230_branch_predictor.Prelude.Int.{ℤ, pos, ◌+ℤ◌, ◌-ℤ◌, ◌*ℤ◌, ◌≤ℤ◌, div_ℤ, int_laws}
use mathlib.Core.Option
use mathlib.Core.Option.{some-injective}
use cs230_branch_predictor.Counter.{
  Range, clamp, assign, add_assign, sub_assign, mul_assign, div_assign, post_increment,
  post_decrement, lt, eq, gt, ge, le, ne,
}

-- The value lies between the minimum and the maximum.
abbrev pub IsBounded : Range → ℤ → Type 0
IsBounded r v = (r.minimum ≤ℤ v) × (v ≤ℤ r.maximum)

pub clamp-IsBounded : (r : Range) (v : ℤ) → r.minimum ≤ℤ r.maximum → IsBounded r (clamp r v)
unfolding clamp
clamp-IsBounded r v h = ground arith

pub clamp_of_bounded : (r : Range) (v : ℤ) → IsBounded r v → clamp r v ≡ v
unfolding clamp
clamp_of_bounded r v h = ground arith

-- A property of the result, where there is one.
abbrev pub OnSome : (ℤ → Type 0) → Option ℤ → Type 0
OnSome P none = Unit
OnSome P (some w) = P w

map-OnSome :
    (r : Range) (o : Option ℤ)
    → r.minimum ≤ℤ r.maximum
    → OnSome (IsBounded r) (Option.map (clamp r) o)
map-OnSome r none h = tt
map-OnSome r (some q) h = clamp-IsBounded r q h

-- Whatever the operand, each operator that updates a counter leaves it between its minimum and its
-- maximum, if the minimum is no greater than the maximum; a division where it is defined.
pub operators-IsBounded :
    (r : Range) (v rhs : ℤ)
    → r.minimum ≤ℤ r.maximum
    → IsBounded r (assign r rhs)
      × IsBounded r (add_assign r v rhs)
      × IsBounded r (sub_assign r v rhs)
      × IsBounded r (mul_assign r v rhs)
      × OnSome (IsBounded r) (div_assign r v rhs)
      × IsBounded r (post_increment r v).1
      × IsBounded r (post_decrement r v).1
unfolding assign add_assign sub_assign mul_assign div_assign post_increment post_decrement
operators-IsBounded r v rhs h = (
  clamp-IsBounded r rhs h,
  clamp-IsBounded r (v +ℤ rhs) h,
  clamp-IsBounded r (v -ℤ rhs) h,
  clamp-IsBounded r (v *ℤ rhs) h,
  map-OnSome r (div_ℤ v rhs) h,
  clamp-IsBounded r (v +ℤ pos 1) h,
  clamp-IsBounded r (v -ℤ pos 1) h,
)

add_sub : (v rhs : ℤ) → v +ℤ rhs -ℤ rhs ≡ v
add_sub v rhs = omega int_laws

-- Where the sum fits the counter, `+=` gives the exact sum, and `-=` of the same operand takes it
-- back.
pub sub_assign-add_assign :
    (r : Range) (v rhs : ℤ)
    → IsBounded r v
    → IsBounded r (v +ℤ rhs)
    → (add_assign r v rhs ≡ v +ℤ rhs) × (sub_assign r (add_assign r v rhs) rhs ≡ v)
unfolding add_assign sub_assign
sub_assign-add_assign r v rhs h fits = (
  clamp_of_bounded r (v +ℤ rhs) fits,
  rw (clamp_of_bounded r (v +ℤ rhs) fits, add_sub v rhs) (clamp_of_bounded r v h),
)

-- The six comparators, which the source derives from `<` and `==`, are the orders and the equation
-- of the values.
pub comparators :
    (a b : ℤ)
    → ((le a b ≡ true) ↔ (a ≤ℤ b))
      × ((ge a b ≡ true) ↔ (b ≤ℤ a))
      × ((gt a b ≡ false) ↔ (a ≤ℤ b))
      × ((lt a b ≡ false) ↔ (b ≤ℤ a))
      × ((eq a b ≡ true) ↔ (a ≡ b))
      × ((ne a b ≡ false) ↔ (a ≡ b))
unfolding le ge gt lt eq ne
comparators a b = ground arith
