-- ===== src/LoopPredictor.antt =====
-- ChampSim/branch/LTage/loop_predictor.h: the loop predictor, 64 sets of 4 ways. Counters are
-- natural numbers, as `Counter.Unsigned` justifies.
pub mod Entry
pub mod Learn
pub mod Frame
mod Tests
use cs230_branch_predictor.Prelude.{
  ℕ, zero, suc, ◌+◌, ◌-◌, ◌/◌, ◌%◌, ◌^◌, Bool, true, false, not, ◌==◌, ltb, leb, same, ◌&&◌, Option,
  none, some, if◌then◌else◌, update₂, bit_and,
}
use cs230_branch_predictor.Prelude.Search.{find_first}
use cs230_branch_predictor.Counter.Unsigned.{maximum, count_up, count_down, store}

abbrev pub num_ways : ℕ
num_ways = 4

abbrev pub init_age : ℕ
init_age = 255

abbrev pub tag_width : ℕ
tag_width = 14

abbrev pub iter_max : ℕ
iter_max = maximum 14

abbrev pub confidence_max : ℕ
confidence_max = maximum 2

abbrev pub age_max : ℕ
age_max = maximum 8

abbrev pub num_sets : ℕ
num_sets = 64

abbrev pub index_width : ℕ
index_width = 6

-- `loop_entry_t`
pub record LoopEntry : Type 0 where
  pub past_iter_cnt : ℕ
  pub curr_iter_cnt : ℕ
  pub tag : ℕ
  pub confidence : ℕ
  pub age : ℕ

abbrev pub reset_entry : LoopEntry
reset_entry = record { past_iter_cnt = 0; curr_iter_cnt = 0; tag = 0; confidence = 0; age = 0 }

pub record LoopBranchInfo : Type 0 where
  pub hit : Bool
  pub index : ℕ
  pub way : ℕ
  pub prediction : Bool
  pub is_valid_loop_prediction : Bool

-- `loop_component` is read at the set and then at the way.
pub record LoopPredictor : Type 0 where
  pub loop_component : ℕ → ℕ → LoopEntry
  pub loop_branch_info : LoopBranchInfo
  pub loop_prediction : Bool

unfoldable pub loop_predictor_init : LoopPredictor → LoopPredictor
loop_predictor_init s = record s {
  loop_component =
      λ i j. if ltb i num_sets && ltb j num_ways then reset_entry else s.loop_component i j;
}

-- `ip_ % NUM_SETS` and `(ip_ >> INDEX_WIDTH) & ((1 << TAG_WIDTH) - 1)`
abbrev pub index_of : ℕ → ℕ
index_of ip = ip % num_sets

abbrev pub tag_of : ℕ → ℕ
tag_of ip = bit_and (ip / 2 ^ index_width) (2 ^ tag_width - 1)

abbrev pub matches : LoopPredictor → ℕ → ℕ → Bool
matches s ip j = (s.loop_component (index_of ip) j).tag == tag_of ip

-- `entry.curr_iter_cnt.value() == entry.past_iter_cnt.value()` predicts the exit of the loop.
abbrev pub predicted : LoopEntry → Bool
predicted e = not (e.curr_iter_cnt == e.past_iter_cnt)

abbrev pub is_confident : LoopEntry → Bool
is_confident e = e.confidence == 3

-- What a prediction stores, by the way that matches.
abbrev pub predict_way : LoopPredictor → ℕ → Option ℕ → LoopPredictor
predict_way s ip none = record s {
  loop_branch_info = record s.loop_branch_info { hit = false; is_valid_loop_prediction = false };
  loop_prediction = false;
}
predict_way s ip (some j) = record s {
  loop_branch_info = record {
    hit = true;
    index = index_of ip;
    way = j;
    prediction = predicted (s.loop_component (index_of ip) j);
    is_valid_loop_prediction = is_confident (s.loop_component (index_of ip) j);
  };
  loop_prediction = predicted (s.loop_component (index_of ip) j);
}

unfoldable pub predict_branch : LoopPredictor → ℕ → LoopPredictor × Bool
predict_branch s ip =
    let s' = predict_way s ip (find_first (matches s ip) num_ways 0) in (s', s'.loop_prediction)

-- The entry that a taken branch allocates.
abbrev pub allocated : ℕ → LoopEntry
allocated tag = record {
  past_iter_cnt = store iter_max 0;
  curr_iter_cnt = store iter_max 1;
  confidence = store confidence_max 0;
  tag = tag;
  age = store age_max init_age;
}

abbrev pub aged : LoopEntry → LoopEntry
aged e = record e { age = count_down age_max e.age }

-- A taken branch without an entry: the first way of age 0 is allocated, else all ways age.
abbrev pub allocate_way : LoopPredictor → ℕ → Option ℕ → ℕ → ℕ → LoopEntry
allocate_way s ip none = λ i j.
    if i == index_of ip && ltb j num_ways then aged (s.loop_component i j) else s.loop_component i j
allocate_way s ip (some j) = update₂ s.loop_component (index_of ip) j (allocated (tag_of ip))

abbrev pub has_expired : LoopPredictor → ℕ → ℕ → Bool
has_expired s ip j = (s.loop_component (index_of ip) j).age == 0

-- An entry whose loop was not regular starts again, with `curr` iterations counted.
abbrev pub forget : ℕ → LoopEntry → LoopEntry
forget curr e = record e {
  past_iter_cnt = store iter_max 0;
  curr_iter_cnt = store iter_max curr;
  age = store age_max 0;
  confidence = store confidence_max 0;
}

abbrev pub count_iteration : LoopEntry → LoopEntry
count_iteration e = record e { curr_iter_cnt = count_up iter_max e.curr_iter_cnt }

-- The end of an execution of the loop that gains confidence.
abbrev pub confirm : LoopEntry → LoopEntry
confirm e = record e {
  past_iter_cnt = e.curr_iter_cnt;
  curr_iter_cnt = store iter_max 0;
  confidence = count_up confidence_max e.confidence;
}

abbrev pub rejuvenate : LoopEntry → LoopEntry
rejuvenate e = record e { age = count_up age_max e.age }

-- The update of the entry that was hit, if its prediction was valid, and if not.
abbrev pub update_valid : Bool → Bool → LoopEntry → LoopEntry
update_valid prediction taken e =
    if same prediction taken && taken
    then count_iteration (rejuvenate e)
    else if same prediction taken && not taken
    then confirm (rejuvenate e)
    else if not (same prediction taken) && taken
    then forget 1 e
    else forget 0 e

abbrev pub update_training : Bool → LoopEntry → LoopEntry
update_training true e =
    if e.past_iter_cnt == 0
    then count_iteration e
    else if ltb e.past_iter_cnt (e.curr_iter_cnt + 1)
    then forget 1 e
    else count_iteration e
update_training false e =
    if e.past_iter_cnt == 0
    then confirm e
    else if e.past_iter_cnt == e.curr_iter_cnt
    then confirm e
    else forget 0 e

unfoldable pub update_entry : Bool → Bool → Bool → LoopEntry → LoopEntry
update_entry valid prediction taken e =
    if valid then update_valid prediction taken e else update_training taken e

-- `last_branch_result`
abbrev pub component_after : LoopPredictor → ℕ → Bool → ℕ → ℕ → LoopEntry
component_after s ip taken =
    if s.loop_branch_info.hit
    then update₂ s.loop_component s.loop_branch_info.index s.loop_branch_info.way (
        update_entry s.loop_branch_info.is_valid_loop_prediction s.loop_branch_info.prediction taken
          (s.loop_component s.loop_branch_info.index s.loop_branch_info.way))
    else if taken
    then allocate_way s ip (find_first (has_expired s ip) num_ways 0)
    else s.loop_component

unfoldable pub last_branch_result : ℕ → Bool → LoopPredictor → LoopPredictor
last_branch_result ip taken s = record s { loop_component = component_after s ip taken }
