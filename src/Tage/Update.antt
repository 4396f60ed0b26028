-- ===== src/Tage/Update.antt =====
-- ChampSim/branch/Tage/tage.cc: `last_branch_result`, stage by stage. The value that `rand()`
-- returns, of the C library, is an argument.
use cs230_branch_predictor.Prelude.{
  ℕ, zero, suc, ◌+◌, ◌-◌, ◌*◌, ◌/◌, ◌%◌, ◌^◌, Bool, true, false, not, ◌==◌, ltb, same, ◌&&◌, Option,
  none, some, if◌then◌else◌, update, update₂, bit_and, bit_or,
}
use cs230_branch_predictor.Prelude.Search.{find_first}
use cs230_branch_predictor.Counter.Unsigned.{above_half, train, store}
use cs230_branch_predictor.Tage.{
  Tage, Entry, BranchInfo, num_components, bimodal_entries, pred_max, bimodal_max, u_max,
  use_alt_max, weakly_taken, weakly_not_taken, reset_useful_interval, phist_bits, ghist_bits,
  for_entries,
}
use cs230_branch_predictor.Tage.Hash.{tag_hash, index_hash, low_word}
use cs230_branch_predictor.Tage.Predict.{is_new}

-- The local variables that the function reads from `branch_info`.
abbrev pub bimodal_prediction : BranchInfo → Bool
bimodal_prediction info = above_half bimodal_max info.bimodal_entry

abbrev pub prediction_of : Option ℕ → Bool → Bool → Bool
prediction_of none bimodal stored = bimodal
prediction_of (some c) bimodal stored = stored

abbrev pub provider_prediction : BranchInfo → Bool
provider_prediction info =
    prediction_of info.provider_comp (bimodal_prediction info) info.provider_comp_pred

abbrev pub altpred_prediction : BranchInfo → Bool
altpred_prediction info =
    prediction_of info.altpred_comp (bimodal_prediction info) info.altpred_comp_pred

-- One entry of the table, changed in place.
abbrev pub modify : (ℕ → ℕ → Entry) → ℕ → ℕ → (Entry → Entry) → ℕ → ℕ → Entry
modify table component index f =
    update₂ table (component - 1) index (f (table (component - 1) index))

abbrev pub train_pred : Bool → Entry → Entry
train_pred taken e = record e { pred = train pred_max taken e.pred }

abbrev pub train_u : Bool → Entry → Entry
train_u up e = record e { u = train u_max up e.u }

-- "update `USE_ALT_ON_NA`"
abbrev pub use_alt_for : Bool → Tage → Option ℕ → ℕ
use_alt_for taken s none = s.use_alt_on_na
use_alt_for taken s (some p) =
    if is_new (s.tage_table (p - 1) s.branch_info.provider_index)
      && not (same (provider_prediction s.branch_info) (altpred_prediction s.branch_info))
    then train use_alt_max (same (altpred_prediction s.branch_info) taken) s.use_alt_on_na
    else s.use_alt_on_na

unfoldable pub update_use_alt : Bool → Tage → Tage
update_use_alt taken s = record s {
  use_alt_on_na = use_alt_for taken s s.branch_info.provider_comp;
}

-- "Update the `ctr`"
abbrev pub ctr_for : ℕ → Bool → Tage → Option ℕ → Tage
ctr_for ip taken s none = record s {
  bimodal_table =
      update s.bimodal_table (ip % bimodal_entries)
        (train bimodal_max taken (s.bimodal_table (ip % bimodal_entries)));
}
ctr_for ip taken s (some p) = record s {
  tage_table = modify s.tage_table p s.branch_info.provider_index (train_pred taken);
}

unfoldable pub update_ctr : ℕ → Bool → Tage → Tage
update_ctr ip taken s = ctr_for ip taken s s.branch_info.provider_comp

-- "L-TAGE improvement"
abbrev pub altpred_for : Bool → Tage → Option ℕ → Option ℕ → ℕ → ℕ → Entry
altpred_for taken s none altpred = s.tage_table
altpred_for taken s (some p) none = s.tage_table
altpred_for taken s (some p) (some a) =
    if (s.tage_table (p - 1) s.branch_info.provider_index).u == 0
    then modify s.tage_table a s.branch_info.altpred_index (train_pred taken)
    else s.tage_table

unfoldable pub update_altpred : Bool → Tage → Tage
update_altpred taken s = record s {
  tage_table = altpred_for taken s s.branch_info.provider_comp s.branch_info.altpred_comp;
}

-- "Update the `u`"
abbrev pub u_for : Bool → Tage → Option ℕ → ℕ → ℕ → Entry
u_for taken s none = s.tage_table
u_for taken s (some p) =
    if same s.branch_info.ultimate_pred (altpred_prediction s.branch_info)
    then s.tage_table
    else modify s.tage_table p s.branch_info.provider_index
        (train_u (same s.branch_info.ultimate_pred taken))

unfoldable pub update_u : Bool → Tage → Tage
update_u taken s = record s { tage_table = u_for taken s s.branch_info.provider_comp }

-- `1 << (NUM_COMPONENTS - provider_comp - 1)`, and the component after the provider.
abbrev pub choices : Option ℕ → ℕ
choices none = 2 ^ num_components
choices (some p) = 2 ^ (num_components - p - 1)

abbrev pub after_provider : Option ℕ → ℕ
after_provider none = 1
after_provider (some p) = p + 1

-- "compute the next component for search": 0, 1 or 2 further, by the low bits of `rand()`.
unfoldable pub next_comp : ℕ → Option ℕ → ℕ
next_comp rand provider =
    let rand_ = bit_and rand (choices provider - 1) in
    if bit_and rand_ 1 == 0
    then after_provider provider
    else if bit_and rand_ 2 == 0
    then after_provider provider + 1
    else after_provider provider + 1 + 1

-- The decrements of the `u` counters, from component i on.
unfoldable pub decrement_u : (ℕ → ℕ) → ℕ → ℕ → (ℕ → ℕ → Entry) → ℕ → ℕ → Entry
decrement_u index zero i table = table
decrement_u index (suc rounds) i table =
    decrement_u index rounds (i + 1) (modify table i (index i) (train_u false))

abbrev pub fresh_entry : Bool → ℕ → Entry
fresh_entry taken tag = record {
  pred = store pred_max (if taken then weakly_taken else weakly_not_taken);
  tag = tag;
  u = store u_max 0;
}

abbrev pub is_free : Tage → ℕ → ℕ → Bool
is_free s ip i = (s.tage_table (i - 1) (index_hash s ip i)).u == 0

abbrev pub allocate_at : ℕ → Bool → Tage → ℕ → Option ℕ → ℕ → ℕ → Entry
allocate_at ip taken s next none =
    decrement_u (index_hash s ip) (num_components - next) next s.tage_table
allocate_at ip taken s next (some i) =
    modify s.tage_table i (index_hash s ip i) (λ _. fresh_entry taken (tag_hash s ip i))

abbrev pub below_last : Option ℕ → Bool
below_last none = true
below_last (some p) = ltb p (num_components - 1)

-- "Allocate a new entry on longer history components"
unfoldable pub allocate : ℕ → ℕ → Bool → Tage → Tage
allocate rand ip taken s =
    let provider = s.branch_info.provider_comp in
    let next = next_comp rand provider in
    let found = find_first (is_free s ip) (num_components - next) next in
    record s {
      tage_table =
          if not (same s.branch_info.ultimate_pred taken) && below_last provider
          then allocate_at ip taken s next found
          else s.tage_table;
    }

-- Every half interval the `u` counters lose their high bit, every interval their low bit.
abbrev pub mask_u : ℕ → Entry → Entry
mask_u mask e = record e { u = store u_max (bit_and e.u mask) }

unfoldable pub age_useful : Tage → Tage
age_useful s =
    if s.num_branches + 1 == reset_useful_interval / 2
    then record s {
      num_branches = s.num_branches + 1;
      tage_table = for_entries (mask_u 1) s.tage_table;
    }
    else if s.num_branches + 1 == reset_useful_interval
    then record s { num_branches = 0; tage_table = for_entries (mask_u 2) s.tage_table }
    else record s { num_branches = s.num_branches + 1 }

-- `ghist << 1` drops the oldest bit of the 641, then bit 0 is set.
abbrev pub push_history : Bool → (ℕ → Bool) → ℕ → Bool
push_history taken ghist zero = taken
push_history taken ghist (suc i) = ltb (suc i) (ghist_bits + 1) && ghist i

unfoldable pub update_histories : ℕ → Bool → Tage → Tage
update_histories ip taken s = record s {
  phist = bit_and (bit_or (s.phist * 2) (bit_and (low_word ip) 1)) (2 ^ phist_bits - 1);
  ghist = push_history taken s.ghist;
}

unfoldable pub last_branch_result : ℕ → ℕ → Bool → Tage → Tage
last_branch_result rand ip taken s =
    let trained =
      update_u taken (update_altpred taken (update_ctr ip taken (update_use_alt taken s))) in
    update_histories ip taken (age_useful (allocate rand ip taken trained))
