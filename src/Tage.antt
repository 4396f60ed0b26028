-- ===== src/Tage.antt =====
-- ChampSim/branch/Tage/tage.h, the same text in ChampSim/branch/LTage/tage.h: the constants, the
-- table entries and the state of the TAGE predictor. Addresses are numbers below 2 ^ 64. The
-- counters are natural numbers, as `Counter.Unsigned` justifies. An `int32_t` component number
-- with -1 for "no component" is an option. Its children have the hashes, the prediction, the
-- update, and what is proved of them.
pub mod Hash
pub mod Predict
pub mod Update
pub mod Bounds
pub mod Select
pub mod Search
pub mod History
pub mod Trace
mod Tests
pub mod Allocate
pub mod Invariant
use cs230_branch_predictor.Prelude.{
  ℕ, ◌+◌, ◌-◌, ◌*◌, ◌/◌, ◌^◌, Bool, true, false, Option, none, List, [], ◌∷◌, ltb, ◌&&◌, get_or,
  if◌then◌else◌,
}
use cs230_branch_predictor.Counter.Unsigned.{maximum, store}

abbrev pub num_components : ℕ
num_components = 13

abbrev pub tage_entries : ℕ
tage_entries = 1024

abbrev pub bimodal_entries : ℕ
bimodal_entries = 16 * 1024

abbrev pub phist_bits : ℕ
phist_bits = 16

abbrev pub ghist_bits : ℕ
ghist_bits = 640

abbrev pub weakly_taken : ℕ
weakly_taken = 4

abbrev pub weakly_not_taken : ℕ
weakly_not_taken = 3

abbrev pub reset_useful_interval : ℕ
reset_useful_interval = 512 * 1024

-- The arrays are read at `component - 1`.
abbrev pub tag_widths : ℕ → ℕ
tag_widths i = get_or (7 ∷ 7 ∷ 8 ∷ 8 ∷ 9 ∷ 10 ∷ 11 ∷ 12 ∷ 12 ∷ 13 ∷ 14 ∷ 15 ∷ []) i 0

abbrev pub hist_lens : ℕ → ℕ
hist_lens i = get_or (4 ∷ 6 ∷ 10 ∷ 16 ∷ 25 ∷ 40 ∷ 64 ∷ 101 ∷ 160 ∷ 254 ∷ 403 ∷ 640 ∷ []) i 0

abbrev pub tage_index_bits : ℕ → ℕ
tage_index_bits i = get_or (10 ∷ 10 ∷ 10 ∷ 10 ∷ 10 ∷ 10 ∷ 10 ∷ 10 ∷ 10 ∷ 10 ∷ 10 ∷ 10 ∷ []) i 0

-- The maxima of `fwcounter<3> pred`, `fwcounter<2> u`, the bimodal counters and `USE_ALT_ON_NA`.
abbrev pub pred_max : ℕ
pred_max = maximum 3

abbrev pub u_max : ℕ
u_max = maximum 2

abbrev pub bimodal_max : ℕ
bimodal_max = maximum 2

abbrev pub use_alt_max : ℕ
use_alt_max = maximum 4

-- `tage_entry_t`
pub record Entry : Type 0 where
  pub pred : ℕ
  pub tag : ℕ
  pub u : ℕ

abbrev pub reset_entry : Entry
reset_entry = record { pred = 0; tag = 0; u = 0 }

-- `branch_ip` is -1 as a 64-bit word and the indices are `int32_t` bit patterns.
pub record BranchInfo : Type 0 where
  pub branch_ip : ℕ
  pub provider_comp : Option ℕ
  pub provider_comp_entry : Entry
  pub provider_comp_pred : Bool
  pub provider_index : ℕ
  pub altpred_comp : Option ℕ
  pub altpred_comp_entry : Entry
  pub altpred_comp_pred : Bool
  pub altpred_index : ℕ
  pub ultimate_pred : Bool
  pub bimodal_entry : ℕ

-- `BranchInfo::reset`; -1 stored in a `bool` is true.
abbrev pub reset_info : BranchInfo
reset_info = record {
  branch_ip = 2 ^ 64 - 1;
  provider_comp = none;
  provider_comp_entry = reset_entry;
  provider_comp_pred = true;
  provider_index = 2 ^ 32 - 1;
  altpred_comp = none;
  altpred_comp_entry = reset_entry;
  altpred_comp_pred = true;
  altpred_index = 2 ^ 32 - 1;
  ultimate_pred = true;
  bimodal_entry = 2;
}

-- `class Tage`. `tage_table` is read at `component - 1` and then at the index; bit i of `ghist` is
-- the outcome of the branch i + 1 branches ago.
pub record Tage : Type 0 where
  pub tage_table : ℕ → ℕ → Entry
  pub bimodal_table : ℕ → ℕ
  pub branch_info : BranchInfo
  pub num_branches : ℕ
  pub phist : ℕ
  pub ghist : ℕ → Bool
  pub use_alt_on_na : ℕ

-- The pair of loops over `tage_table`.
abbrev pub for_entries : (Entry → Entry) → (ℕ → ℕ → Entry) → ℕ → ℕ → Entry
for_entries f table c j =
    if ltb c (num_components - 1) && ltb j tage_entries then f (table c j) else table c j

-- `Tage::initialize_branch_predictor`. `USE_ALT_ON_NA` keeps its value.
unfoldable pub initialize_branch_predictor : Tage → Tage
initialize_branch_predictor s = record s {
  tage_table = for_entries (λ _. reset_entry) s.tage_table;
  bimodal_table = λ i.
      if ltb i bimodal_entries then store bimodal_max (1 + bimodal_max / 2) else s.bimodal_table i;
  num_branches = 0;
  ghist = λ _. false;
  phist = 0;
  branch_info = reset_info;
}
