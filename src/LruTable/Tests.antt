-- ===== src/LruTable/Tests.antt =====
-- The table with two sets of two ways over pairs of a set and a tag, and the theorems on it.
use cs230_branch_predictor.Prelude.{ℕ, ◌≤◌, ◌≡◌, refl, arith, true, none, some}
use cs230_branch_predictor.Prelude.Search.{find_first}
use cs230_branch_predictor.LruTable.{
  Projections, LruTable, throws, sets_not_power_of_two, is_valid, empty, make, check_hit, fill,
  fill_position, minmax_element,
}
use cs230_branch_predictor.LruTable.Keys.{IsValid}
use cs230_branch_predictor.LruTable.Fill.{check_hit-fill, fill_evicts, fill-IsValid}
use cs230_branch_predictor.LruTable.Touch.{operations-IsValid}

abbrev pairs : Projections (ℕ × ℕ)
pairs = record { set_projection = λ x. x.0; tag_projection = λ x. x.1; initial = (0, 0) }

abbrev start : LruTable (ℕ × ℕ)
start = empty pairs 2 2

start-IsValid : IsValid pairs start
start-IsValid = record {
  home = λ i valid. cc;
  unique = λ i j vi vj key. cc;
  past = λ i. omega arith;
  order = λ i j valid e. cc;
}

-- Tags 5 and 6 in set 1, the first used again.
abbrev full : LruTable (ℕ × ℕ)
full = (check_hit pairs (1, 5) (fill pairs (1, 6) (fill pairs (1, 5) start))).0

full-IsValid : IsValid pairs full
full-IsValid =
    (operations-IsValid pairs (1, 5) (fill pairs (1, 6) (fill pairs (1, 5) start))
      (fill-IsValid pairs (1, 6) (fill pairs (1, 5) start)
        (fill-IsValid pairs (1, 5) start start-IsValid))).0

-- The third tag replaces 6, which was used least recently.
third_replaces : (check_hit pairs (1, 6) (fill pairs (1, 7) full)).1 ≡ none
unfolding fill check_hit find_first minmax_element fill_position
third_replaces = refl

check_hit-fill_example : (check_hit pairs (3, 7) (fill pairs (1, 7) full)).1 ≡ some (1, 7)
unfolding fill check_hit find_first minmax_element fill_position
check_hit-fill_example =
    check_hit-fill pairs (1, 7) full (omega arith) (3, 7) full-IsValid (refl, refl)

fill_evicts_example :
    (is_valid (full.block 3) ≡ true) × ((full.block 2).last_used ≤ (full.block 3).last_used)
unfolding fill check_hit find_first minmax_element fill_position
fill_evicts_example =
    fill_evicts pairs (1, 7) full (omega arith) (1, 6) 2 3 full-IsValid refl refl (omega arith)

make_six : make pairs 6 4 ≡ throws sets_not_power_of_two
unfolding make
make_six = refl
