-- ===== src/Tage/Tests.antt =====
-- Runs of the TAGE model on concrete states, and the theorems at inputs that meet their hypotheses.
use cs230_branch_predictor.Prelude.{
  ℕ, ◌-◌, ◌%◌, ◌^◌, ◌≡◌, refl, arith, Bool, true, false, none, some, List, [], ◌∷◌, ◌==◌, ◌&&◌,
  ◌||◌, if◌then◌else◌,
}
use cs230_branch_predictor.Prelude.Digits.{bit_at}
use cs230_branch_predictor.Tage.{Tage, reset_info, num_components, initialize_branch_predictor}
use cs230_branch_predictor.Tage.Hash.{tag_hash, index_hash, get_ghist_hash}
use cs230_branch_predictor.Tage.Predict.{components, hits, predict_branch}
use cs230_branch_predictor.Tage.Update.{allocate, next_comp}
use cs230_branch_predictor.Tage.Select.{
  IsLast, IsAltpred, components-IsLast, decision, predict_branch-decision,
}
use cs230_branch_predictor.Tage.Allocate.{allocate-free}
use cs230_branch_predictor.Tage.History.{Branch, run, taken_at, get_ghist_hash-bit}
use cs230_branch_predictor.Tage.Invariant.{IsValid}
use cs230_branch_predictor.Tage.Trace.{run-IsValid}

-- All tables and registers cleared, and USE_ALT_ON_NA at 9.
abbrev cleared : Tage
cleared = record {
  tage_table = λ c j. record { pred = 0; tag = 0; u = 0 };
  bimodal_table = λ i. 2;
  branch_info = reset_info;
  num_branches = 0;
  phist = 0;
  ghist = λ i. false;
  use_alt_on_na = 9;
}

-- The same with every entry useful.
abbrev useful : Tage
useful = record cleared { tage_table = λ c j. record { pred = 0; tag = 0; u = 2 } }

abbrev trace : List Branch
trace =
    record { ip = 0x401; rand = 3; taken = true }
    ∷ record { ip = 0x402; rand = 7; taken = false }
    ∷ record { ip = 0x401; rand = 1; taken = false }
    ∷ []

components-cleared : components cleared 0 ≡ (some 12, some 11)
unfolding components tag_hash index_hash get_ghist_hash
components-cleared = refl

components-none : components cleared 0x7f ≡ (none, none)
unfolding components tag_hash index_hash get_ghist_hash
components-none = refl

components-IsLast_example :
    IsLast (hits cleared 0) num_components (components cleared 0).0
    × IsAltpred (hits cleared 0) (components cleared 0).0 (components cleared 0).1
components-IsLast_example = components-IsLast cleared 0

predict_branch-decision_example :
    (predict_branch cleared 0).1 ≡ decision cleared 0 (some 12) (some 11)
unfolding tag_hash index_hash get_ghist_hash
predict_branch-decision_example =
    predict_branch-decision cleared 0 (some 12) (some 11)
      (omega arith, omega arith, refl, λ j lo hi. absurd (omega arith))
      (omega arith, omega arith, refl, λ j lo hi. absurd (omega arith))

run-IsValid_example : IsValid (run (initialize_branch_predictor cleared) trace)
run-IsValid_example = run-IsValid cleared trace (omega arith)

allocate-free_example : (allocate 0 0x7f false cleared).tage_table 0 (index_hash cleared 0x7f 1) ≡ (
    if 0 == 1 - 1 && index_hash cleared 0x7f 1 == index_hash cleared 0x7f 1
    then record { pred = if false then 4 else 3; tag = tag_hash cleared 0x7f 1; u = 0 }
    else cleared.tage_table 0 (index_hash cleared 0x7f 1))
unfolding next_comp
allocate-free_example =
    allocate-free 0 0x7f false cleared 1 0 (index_hash cleared 0x7f 1) (refl, refl)
      (omega arith, omega arith, refl, λ j lo hi. absurd (omega arith))

-- One branch before half an interval is over.
abbrev late : Tage
late = record useful { num_branches = 2 ^ 18 - 1 }

-- Taken branches 1, 4 and 5 branches ago.
abbrev pattern_history : ℕ → Bool
pattern_history i = i == 0 || (i == 3 || i == 4)

get_ghist_hash-bit_example :
    bit_at (get_ghist_hash pattern_history 10 3) 0 ≡ taken_at pattern_history 3 0 10 0 % 2
get_ghist_hash-bit_example = get_ghist_hash-bit pattern_history 10 3 0 (omega arith) (omega arith)

get_ghist_hash-pattern : get_ghist_hash pattern_history 10 3 ≡ 2
unfolding get_ghist_hash
get_ghist_hash-pattern = refl
