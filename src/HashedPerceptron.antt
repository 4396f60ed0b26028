-- ===== src/HashedPerceptron.antt =====
-- ChampSim/branch/hashed_perceptron/hashed_perceptron.cc and hashed_perceptron.h: the sum of 16
-- signed weights, each selected by a folded history and the address, with a dynamic threshold.
pub mod Laws
pub mod Training
mod Tests
use mathlib.Core.List.{map}
use cs230_branch_predictor.Prelude.{
  ℕ, ◌+◌, ◌-◌, ◌%◌, ◌^◌, Bool, true, not, same, ◌||◌, List, [], ◌∷◌, bit_xor, if◌then◌else◌,
  update₂,
}
use cs230_branch_predictor.Prelude.Int.{ℤ, pos, negsuc, ◌+ℤ◌, ◌-ℤ◌, ltb_ℤ, abs}
use cs230_branch_predictor.Counter.{sfwcounter, add_assign}
use cs230_branch_predictor.FoldedShiftRegister.{FoldedShiftRegister, value, push_back, make}

abbrev pub table_index_bits : ℕ
table_index_bits = 12

abbrev pub table_size : ℕ
table_size = 2 ^ 12

abbrev pub threshold : ℤ
threshold = pos 1

abbrev pub speed : ℤ
speed = pos 18

abbrev pub history_lengths : List ℕ
history_lengths = 0 ∷ 3 ∷ 4 ∷ 6 ∷ 8 ∷ 10 ∷ 14 ∷ 19 ∷ 26 ∷ 36 ∷ 49 ∷ 67 ∷ 91 ∷ 125 ∷ 170 ∷ 232 ∷ []

pub record PerceptronResult : Type 0 where
  pub indices : List ℕ
  pub yout : ℤ

-- The tables are read at the table's number and then at the index.
pub record HashedPerceptron : Type 0 where
  pub tables : ℕ → ℕ → ℤ
  pub ghist_words : List FoldedShiftRegister
  pub theta : ℤ
  pub tc : ℤ
  pub last_result : PerceptronResult

-- A new predictor, by the initialisers of the members.
abbrev pub fresh : HashedPerceptron
fresh = record {
  tables = λ i j. pos 0;
  ghist_words = map (make table_index_bits) history_lengths;
  theta = pos 10;
  tc = pos 0;
  last_result = record {
    indices = 0 ∷ 0 ∷ 0 ∷ 0 ∷ 0 ∷ 0 ∷ 0 ∷ 0 ∷ 0 ∷ 0 ∷ 0 ∷ 0 ∷ 0 ∷ 0 ∷ 0 ∷ 0 ∷ [];
    yout = pos 0;
  };
}

unfoldable pub get_index : ℕ → FoldedShiftRegister → ℕ
get_index pc hist = bit_xor (value table_index_bits hist) (pc % 2 ^ table_index_bits)

-- `std::inner_product` from table i on.
unfoldable pub add_weights : (ℕ → ℕ → ℤ) → ℤ → ℕ → List ℕ → ℤ
add_weights tables acc i [] = acc
add_weights tables acc i (j ∷ js) = add_weights tables (acc +ℤ tables i j) (i + 1) js

-- `yout >= THRESHOLD`
abbrev pub says_taken : ℤ → Bool
says_taken yout = not (ltb_ℤ yout threshold)

unfoldable pub predict_branch : HashedPerceptron → ℕ → HashedPerceptron × Bool
predict_branch s pc =
    let indices = map (get_index pc) s.ghist_words in
    let yout = add_weights s.tables (pos 0) 0 indices in
    (record s { last_result = record { indices = indices; yout = yout } }, says_taken yout)

-- `tables[i][indices[i]] += taken ? 1 : -1`, from table i on.
unfoldable pub update_weights : Bool → ℕ → List ℕ → (ℕ → ℕ → ℤ) → ℕ → ℕ → ℤ
update_weights taken i [] tables = tables
update_weights taken i (j ∷ js) tables = update_weights taken (i + 1) js (
    update₂ tables i j (add_assign (sfwcounter 8) (tables i j) (if taken then pos 1 else negsuc 0)))

unfoldable pub adjust_threshold : Bool → HashedPerceptron → HashedPerceptron
adjust_threshold correct s =
    if not correct
    then if not (ltb_ℤ (s.tc +ℤ pos 1) speed)
      then record s { theta = s.theta +ℤ pos 1; tc = pos 0 }
      else record s { tc = s.tc +ℤ pos 1 }
    else if not (ltb_ℤ (pos 0 -ℤ speed) (s.tc -ℤ pos 1))
    then record s { theta = s.theta -ℤ pos 1; tc = pos 0 }
    else record s { tc = s.tc -ℤ pos 1 }

abbrev pub is_correct : Bool → HashedPerceptron → Bool
is_correct taken s = same taken (says_taken s.last_result.yout)

abbrev pub is_weak : HashedPerceptron → Bool
is_weak s = ltb_ℤ (abs s.last_result.yout) s.theta

unfoldable pub last_branch_result : Bool → HashedPerceptron → HashedPerceptron
last_branch_result taken s =
    let pushed = record s { ghist_words = map (push_back table_index_bits taken) s.ghist_words } in
    if not (is_correct taken s) || is_weak s
    then adjust_threshold (is_correct taken s)
        (record pushed { tables = update_weights taken 0 s.last_result.indices s.tables })
    else pushed
