-- ===== src/Tage/Predict.antt =====
-- ChampSim/branch/Tage/tage.cc: `predict_branch`.
use cs230_branch_predictor.Prelude.{
  ℕ, zero, suc, ◌+◌, ◌-◌, ◌%◌, Bool, ◌==◌, ltb, ◌&&◌, ◌||◌, Option, none, some, if◌then◌else◌,
}
use cs230_branch_predictor.Counter.Unsigned.{above_half}
use cs230_branch_predictor.Tage.{
  Tage, Entry, BranchInfo, reset_info, num_components, bimodal_entries, pred_max, bimodal_max,
  weakly_taken, weakly_not_taken,
}
use cs230_branch_predictor.Tage.Hash.{tag_hash, index_hash}

-- The entry of a component that an address and the histories select.
abbrev pub entry_at : Tage → ℕ → ℕ → Entry
entry_at s ip component = s.tage_table (component - 1) (index_hash s ip component)

-- `tage_table[i - 1][tage_index[i]].tag == tage_tags[i]`
abbrev pub hits : Tage → ℕ → ℕ → Bool
hits s ip i = (entry_at s ip i).tag == tag_hash s ip i

abbrev pub older : Option ℕ → Option ℕ → Option ℕ
older none altpred = altpred
older (some p) altpred = some p

-- The loop over the components from i on: the provider is the last that hits, and the alternative
-- the last that hit before it.
unfoldable pub scan : (ℕ → Bool) → ℕ → ℕ → Option ℕ → Option ℕ → Option ℕ × Option ℕ
scan hit zero i provider altpred = (provider, altpred)
scan hit (suc rounds) i provider altpred =
    scan hit rounds (i + 1) (if hit i then some i else provider)
      (if hit i then older provider altpred else altpred)

unfoldable pub components : Tage → ℕ → Option ℕ × Option ℕ
unfolding scan
components s ip = scan (hits s ip) (num_components - 1) 1 none none

abbrev pub base_pred : Tage → ℕ → ℕ
base_pred s ip = s.bimodal_table (ip % bimodal_entries)

-- The fields that are stored for the provider and for the alternative.
abbrev pub with_provider : Tage → ℕ → ℕ → BranchInfo → BranchInfo
with_provider s ip p info = record info {
  provider_index = index_hash s ip p;
  provider_comp_pred = above_half pred_max (entry_at s ip p).pred;
  provider_comp_entry = entry_at s ip p;
}

abbrev pub with_altpred : Tage → ℕ → Option ℕ → BranchInfo → BranchInfo
with_altpred s ip none info = info
with_altpred s ip (some a) info = record info {
  altpred_index = index_hash s ip a;
  altpred_comp_pred = above_half pred_max (entry_at s ip a).pred;
  altpred_comp_entry = entry_at s ip a;
}

-- The test for a newly allocated entry.
abbrev pub is_new : Entry → Bool
is_new e = (e.pred == weakly_not_taken || e.pred == weakly_taken) && e.u == 0

-- The choice between the provider, the alternative and the bimodal table.
abbrev pub choose : Tage → ℕ → ℕ → Option ℕ → BranchInfo → Bool
choose s ip p none info =
    if is_new (entry_at s ip p) && ltb 7 s.use_alt_on_na
    then above_half bimodal_max (base_pred s ip)
    else info.provider_comp_pred
choose s ip p (some a) info =
    if is_new (entry_at s ip p) && ltb 7 s.use_alt_on_na
    then info.altpred_comp_pred
    else info.provider_comp_pred

-- The record that a prediction leaves for the update, from the components found.
abbrev pub fill_info : Tage → ℕ → Option ℕ → Option ℕ → BranchInfo
fill_info s ip none altpred = record reset_info {
  bimodal_entry = base_pred s ip;
  provider_comp = none;
  altpred_comp = altpred;
  ultimate_pred = above_half bimodal_max (base_pred s ip);
}
fill_info s ip (some p) altpred =
    let info = record reset_info {
      bimodal_entry = base_pred s ip;
      provider_comp = some p;
      altpred_comp = altpred;
    } in
    let info' = with_altpred s ip altpred (with_provider s ip p info) in
    record info' { ultimate_pred = choose s ip p altpred info' }

unfoldable pub predict_branch : Tage → ℕ → Tage × Bool
predict_branch s ip =
    let (provider, altpred) = components s ip in
    let info = fill_info s ip provider altpred in
    (record s { branch_info = info }, info.ultimate_pred)
