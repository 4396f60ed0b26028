-- ===== src/Tage/Allocate.antt =====
-- ChampSim/branch/Tage/tage.cc, `last_branch_result`: the allocation of an entry after a
-- misprediction, and the ageing of the useful counters.
use cs230_branch_predictor.Prelude.{
  ℕ, zero, suc, ◌+◌, ◌-◌, ◌*◌, ◌/◌, ◌%◌, ◌^◌, ◌≤◌, ◌<◌, ◌≡◌, ◌⊎◌, refl, arith, Bool, true, false,
  Option, none, some, ◌==◌, ltb, leb, ◌&&◌, if◌then◌else◌, Bool-cases, inl, inr, not, same, ◌∙◌, ap,
  min,
}
use cs230_branch_predictor.Prelude.Digits.{bit_and-halves, bit_and_mask}
use cs230_branch_predictor.Counter.Unsigned.{above_half}
use cs230_branch_predictor.Tage.{pred_max, Tage, Entry, num_components, tage_entries, u_max}
use cs230_branch_predictor.Tage.Hash.{index_hash, tag_hash}
use cs230_branch_predictor.Tage.Predict.{hits, entry_at}
use cs230_branch_predictor.Tage.Update.{
  modify, train_u, next_comp, decrement_u, is_free, allocate_at, allocate, below_last, age_useful,
}
use cs230_branch_predictor.Prelude.Search.{IsFirst, IsFirst-unique, search-IsFirst}
use cs230_branch_predictor.Tage.Search.{next_comp_pos}

-- One decrement of `u`, for each component of a range, at the index that the address selects.
pub decrement_u_lem :
    (index : ℕ → ℕ) (rounds i : ℕ) (t : ℕ → ℕ → Entry) (c j : ℕ)
    → 1 ≤ i
    → decrement_u index rounds i t c j ≡ (
        if leb i (c + 1) && ltb (c + 1) (i + rounds) && j == index (c + 1)
        then train_u false (t c j)
        else t c j)
unfolding decrement_u
decrement_u_lem index zero i t c j lo = ground arith
decrement_u_lem index (suc rounds) i t c j lo =
    let later =
      decrement_u_lem index rounds (i + 1) (modify t i (index i) (train_u false)) c j
        (omega arith) in
    later ∙ (elim (Bool-cases (c + 1 == i)) [
      | inl e ↦ let same_comp : c + 1 ≡ i = ground arith in rw same_comp (ground arith)
      | inr ne ↦ ground arith
    ])

-- A misprediction with a longer component to go to.
abbrev pub Mispredicted : Bool → Tage → Type 0
Mispredicted taken s =
    (s.branch_info.ultimate_pred ≡ not taken) × (below_last s.branch_info.provider_comp ≡ true)

allocating :
    (rand ip : ℕ) (taken : Bool) (s : Tage) (found : Option ℕ)
    → Mispredicted taken s
    → IsFirst (is_free s ip) (next_comp rand s.branch_info.provider_comp) num_components found
    → (allocate rand ip taken s).tage_table
      ≡ allocate_at ip taken s (next_comp rand s.branch_info.provider_comp) found
unfolding allocate
allocating rand ip taken s found m first =
    let next = next_comp rand s.branch_info.provider_comp in
    let same_found =
      IsFirst-unique (is_free s ip) next num_components _ found
        (search-IsFirst (is_free s ip) next num_components) first in
    let wrong : not (same s.branch_info.ultimate_pred taken)
          && below_last s.branch_info.provider_comp
        ≡ true =
      ground arith in
    rw wrong (ap (allocate_at ip taken s next) same_found)

-- After a misprediction, where component i is the first from the start of the search whose entry
-- for the address is not useful, that entry is replaced by a weak one of the outcome with the tag
-- of the address, and no other entry changes.
pub allocate-free :
    (rand ip : ℕ) (taken : Bool) (s : Tage) (i c j : ℕ)
    → Mispredicted taken s
    → IsFirst (is_free s ip) (next_comp rand s.branch_info.provider_comp) num_components (some i)
    → (allocate rand ip taken s).tage_table c j ≡ (
        if c == i - 1 && j == index_hash s ip i
        then record { pred = if taken then 4 else 3; tag = tag_hash s ip i; u = 0 }
        else s.tage_table c j)
allocate-free rand ip taken s i c j m first =
    rw (allocating rand ip taken s (some i) m first) (ground arith)

-- After a misprediction, where the entries of the address in all components from the start of the
-- search on are useful, no entry is allocated, and exactly these entries have their useful
-- counter decremented.
pub allocate-useful :
    (rand ip : ℕ) (taken : Bool) (s : Tage) (c j : ℕ)
    → Mispredicted taken s
    → IsFirst (is_free s ip) (next_comp rand s.branch_info.provider_comp) num_components none
    → (allocate rand ip taken s).tage_table c j ≡ (
        if leb (next_comp rand s.branch_info.provider_comp) (c + 1)
          && ltb (c + 1) num_components
          && j == index_hash s ip (c + 1)
        then record (s.tage_table c j) { u = min ((s.tage_table c j).u - 1) u_max }
        else s.tage_table c j)
allocate-useful rand ip taken s c j m first =
    let next = next_comp rand s.branch_info.provider_comp in
    rw
      (
        allocating rand ip taken s none m first,
        decrement_u_lem (index_hash s ip) (num_components - next) next s.tage_table c j
            (next_comp_pos rand s.branch_info.provider_comp),
      )
      (ground arith)

-- A correct prediction, or a provider that is the last component, allocates nothing.
pub allocate-keeps :
    (rand ip : ℕ) (taken : Bool) (s : Tage)
    → (s.branch_info.ultimate_pred ≡ taken) ⊎ (below_last s.branch_info.provider_comp ≡ false)
    → (allocate rand ip taken s).tage_table ≡ s.tage_table
unfolding allocate
allocate-keeps rand ip taken s h =
    let idle : not (same s.branch_info.ultimate_pred taken)
          && below_last s.branch_info.provider_comp
        ≡ false =
      ground arith in
    rw idle

-- The hashes do not read the table.
hashes-allocate :
    (rand ip : ℕ) (taken : Bool) (s : Tage) (i : ℕ)
    → (index_hash (allocate rand ip taken s) ip i ≡ index_hash s ip i)
      × (tag_hash (allocate rand ip taken s) ip i ≡ tag_hash s ip i)
unfolding allocate index_hash tag_hash
hashes-allocate rand ip taken s i = (refl, refl)

-- After an allocation at component i the address, looked up with unchanged histories, hits
-- component i, and the entry there predicts the outcome.
pub allocate-hits :
    (rand ip : ℕ) (taken : Bool) (s : Tage) (i : ℕ)
    → Mispredicted taken s
    → IsFirst (is_free s ip) (next_comp rand s.branch_info.provider_comp) num_components (some i)
    → (hits (allocate rand ip taken s) ip i ≡ true)
      × (above_half pred_max (entry_at (allocate rand ip taken s) ip i).pred ≡ taken)
unfolding allocate
allocate-hits rand ip taken s i m first =
    let same_hash = hashes-allocate rand ip taken s i in
    let entry = allocate-free rand ip taken s i (i - 1) (index_hash s ip i) m first in
    rw (same_hash.0, same_hash.1, entry) (ground arith)

-- The 19-bit cycle of the useful counters: a branch that completes half an interval clears the high
-- bit of every counter, one that completes it clears the low bit and starts again, and no other
-- branch changes the table.
pub age_useful_lem :
    (s : Tage) (c j : ℕ)
    → c < num_components - 1
    → j < tage_entries
    → (s.tage_table c j).u ≤ u_max
    → ((age_useful s).num_branches
        ≡ (if s.num_branches + 1 == 2 ^ 19 then 0 else s.num_branches + 1))
      × (((age_useful s).tage_table c j).u ≡ (
          if s.num_branches + 1 == 2 ^ 18
          then (s.tage_table c j).u % 2
          else if s.num_branches + 1 == 2 ^ 19
          then (s.tage_table c j).u / 2 * 2
          else (s.tage_table c j).u))
unfolding age_useful
age_useful_lem s c j hc hj fits =
    let u = (s.tage_table c j).u in
    ground (arith, bit_and_mask 1 u, bit_and-halves u 2, bit_and_mask 1 (u / 2))
