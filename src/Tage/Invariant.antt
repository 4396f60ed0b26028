-- ===== src/Tage/Invariant.antt =====
-- ChampSim/branch/Tage: the well-formedness of the predictor's state, and that initialisation,
-- prediction and update keep it.
use native.Mathlib.Decide.{dec_le}
use native.Mathlib.Nat.{one-le-pow, mod-lt}
use cs230_branch_predictor.Prelude.{
  ℕ, zero, suc, ◌+◌, ◌-◌, ◌/◌, ◌^◌, ◌≤◌, ◌<◌, ◌≡◌, refl, arith, Bool, false, Option, none, some,
  ◌==◌, ◌&&◌, Bool-cases, inl, inr, not, same,
}
use cs230_branch_predictor.Prelude.Digits.{bit_and_mask}
use cs230_branch_predictor.Tage.{
  Tage, Entry, BranchInfo, num_components, tage_entries, bimodal_entries, reset_useful_interval,
  tag_widths, pred_max, u_max, bimodal_max, use_alt_max, phist_bits, reset_entry, for_entries,
  initialize_branch_predictor,
}
use cs230_branch_predictor.Tage.Hash.{index_hash, tag_hash}
use cs230_branch_predictor.Tage.Predict.{predict_branch, hits, fill_info}
use cs230_branch_predictor.Tage.Update.{
  modify, train_pred, train_u, use_alt_for, update_use_alt, ctr_for, update_ctr, altpred_for,
  update_altpred, u_for, update_u, next_comp, decrement_u, fresh_entry, is_free, allocate_at,
  allocate, mask_u, age_useful, update_histories, last_branch_result, below_last,
  altpred_prediction,
}
use cs230_branch_predictor.Tage.Bounds.{index_hash-lt, tag_hash-lt}
use cs230_branch_predictor.Prelude.Search.{IsFirst, search-IsFirst}
use cs230_branch_predictor.Tage.Search.{next_comp_bounds}
use cs230_branch_predictor.Tage.Select.{IsLast, IsAltpred, components-IsLast}

-- The counters and the tag of an entry of component c + 1 fit their widths.
pub record EntryIsValid (c : ℕ) (e : Entry) : Type 0 where
  pub pred_fits : e.pred ≤ pred_max
  pub u_fits : e.u ≤ u_max
  pub tag_fits : e.tag < 2 ^ tag_widths c

abbrev pub TableIsValid : (ℕ → ℕ → Entry) → Type 0
TableIsValid t = (c j : ℕ) → c < num_components - 1 → j < tage_entries → EntryIsValid c (t c j)

-- The provider is a table component and read inside its table; the alternative is one below it.
abbrev pub AltpredIsValid : ℕ → BranchInfo → Option ℕ → Type 0
AltpredIsValid p info none = Unit
AltpredIsValid p info (some a) = (1 ≤ a) × (a < p) × (info.altpred_index < tage_entries)

abbrev pub ComponentsAreValid : BranchInfo → Option ℕ → Type 0
ComponentsAreValid info none = info.altpred_comp ≡ none
ComponentsAreValid info (some p) =
    (1 ≤ p)
    × (p < num_components)
    × (info.provider_index < tage_entries)
    × AltpredIsValid p info info.altpred_comp

abbrev pub InfoIsValid : BranchInfo → Type 0
InfoIsValid info = ComponentsAreValid info info.provider_comp

pub record IsValid (s : Tage) : Type 0 where
  pub table : TableIsValid s.tage_table
  pub bimodal : (i : ℕ) → i < bimodal_entries → s.bimodal_table i ≤ bimodal_max
  pub info : InfoIsValid s.branch_info
  pub use_alt : s.use_alt_on_na ≤ use_alt_max
  pub branches : s.num_branches < reset_useful_interval
  pub path : s.phist < 2 ^ phist_bits

reset_entry-IsValid : (c : ℕ) → EntryIsValid c reset_entry
reset_entry-IsValid c = omega (arith, one-le-pow (tag_widths c) 2 (omega arith))

-- Initialisation makes any state valid, apart from the register that it leaves alone.
pub initialize-IsValid :
    (s : Tage) → s.use_alt_on_na ≤ use_alt_max → IsValid (initialize_branch_predictor s)
unfolding initialize_branch_predictor
initialize-IsValid s h = record {
  table = λ c j hc hj. ground (arith, reset_entry-IsValid c);
  bimodal = λ i hi. ground arith;
  info = refl;
  use_alt = h;
  branches = omega arith;
  path = omega arith;
}

fill_info-IsValid :
    (s : Tage) (ip : ℕ) (p a : Option ℕ)
    → IsLast (hits s ip) num_components p
    → IsAltpred (hits s ip) p a
    → InfoIsValid (fill_info s ip p a)
fill_info-IsValid s ip none a last alt = alt
fill_info-IsValid s ip (some p) none last alt =
    (last.0, last.1, index_hash-lt s ip p last.0 last.1, tt)
fill_info-IsValid s ip (some p) (some a) last alt = (
  last.0,
  last.1,
  index_hash-lt s ip p last.0 last.1,
  (alt.0, alt.1, index_hash-lt s ip a alt.0 (omega arith)),
)

-- A prediction keeps the state valid.
pub predict_branch-IsValid : (s : Tage) (ip : ℕ) → IsValid s → IsValid (predict_branch s ip).0
unfolding predict_branch
predict_branch-IsValid s ip v = record {
  table = v.table;
  bimodal = v.bimodal;
  info = fill_info-IsValid s ip _ _ (components-IsLast s ip).0 (components-IsLast s ip).1;
  use_alt = v.use_alt;
  branches = v.branches;
  path = v.path;
}

-- A change of one entry that keeps it valid keeps the table valid.
modify-IsValid :
    (t : ℕ → ℕ → Entry) (p i : ℕ) (f : Entry → Entry)
    → TableIsValid t
    → (EntryIsValid (p - 1) (t (p - 1) i) → EntryIsValid (p - 1) (f (t (p - 1) i)))
    → 1 ≤ p
    → p < num_components
    → i < tage_entries
    → TableIsValid (modify t p i f)
modify-IsValid t p i f v keep lo hi in_range =
    λ c j hc hj. let changed = keep (v (p - 1) i (omega arith) in_range) in ground (arith, v c j)

train_pred-IsValid :
    {c : ℕ} (taken : Bool) (e : Entry) → EntryIsValid c e → EntryIsValid c (train_pred taken e)
train_pred-IsValid taken e v = ground arith

train_u-IsValid : {c : ℕ} (up : Bool) (e : Entry) → EntryIsValid c e → EntryIsValid c (train_u up e)
train_u-IsValid up e v = ground arith

with_table :
    {s : Tage} {t : ℕ → ℕ → Entry}
    → IsValid s
    → TableIsValid t
    → IsValid (record s { tage_table = t })
with_table v h = record {
  table = h;
  bimodal = v.bimodal;
  info = v.info;
  use_alt = v.use_alt;
  branches = v.branches;
  path = v.path;
}

-- The stages, each with the branch record that a prediction left. None of them changes it.
module _ (taken : Bool) (s : Tage) (v : IsValid s) where
  update_use_alt-IsValid : IsValid (update_use_alt taken s)
  unfolding update_use_alt
  update_use_alt-IsValid = record {
    table = v.table;
    bimodal = v.bimodal;
    info = v.info;
    use_alt = bounded s.branch_info.provider_comp;
    branches = v.branches;
    path = v.path;
  }
    where
      bounded : (p : Option ℕ) → use_alt_for taken s p ≤ use_alt_max
      bounded none = v.use_alt
      bounded (some p) = ground (arith, v.use_alt)

  update_ctr-IsValid : (ip : ℕ) → IsValid (update_ctr ip taken s)
  unfolding update_ctr
  update_ctr-IsValid ip = go s.branch_info.provider_comp v.info
    where
      go : (p : Option ℕ) → ComponentsAreValid s.branch_info p → IsValid (ctr_for ip taken s p)
      go none h = record {
        table = v.table;
        bimodal = λ i hi. ground (arith, v.bimodal i);
        info = v.info;
        use_alt = v.use_alt;
        branches = v.branches;
        path = v.path;
      }
      go (some p) h = with_table v (
          modify-IsValid s.tage_table p s.branch_info.provider_index (train_pred taken) v.table
            (train_pred-IsValid taken _) h.0 h.1 h.2)

  update_altpred-IsValid : IsValid (update_altpred taken s)
  unfolding update_altpred
  update_altpred-IsValid = with_table v (go s.branch_info.provider_comp v.info)
    where
      trained :
          (p a : ℕ)
          → p < num_components
          → AltpredIsValid p s.branch_info (some a)
          → TableIsValid (modify s.tage_table a s.branch_info.altpred_index (train_pred taken))
      trained p a hi h =
          modify-IsValid s.tage_table a s.branch_info.altpred_index (train_pred taken) v.table
            (train_pred-IsValid taken _) h.0 (omega arith) h.2

      at_altpred :
          (p : ℕ) (a : Option ℕ)
          → p < num_components
          → AltpredIsValid p s.branch_info a
          → TableIsValid (altpred_for taken s (some p) a)
      at_altpred p none hi h = v.table
      at_altpred p (some a) hi h =
          elim (Bool-cases ((s.tage_table (p - 1) s.branch_info.provider_index).u == 0)) [
            | inl e ↦ rw e (trained p a hi h)
            | inr e ↦ rw e v.table
          ]

      go :
          (p : Option ℕ)
          → ComponentsAreValid s.branch_info p
          → TableIsValid (altpred_for taken s p s.branch_info.altpred_comp)
      go none h = v.table
      go (some p) h = at_altpred p s.branch_info.altpred_comp h.1 h.3

  update_u-IsValid : IsValid (update_u taken s)
  unfolding update_u
  update_u-IsValid = with_table v (go s.branch_info.provider_comp v.info)
    where
      go : (p : Option ℕ) → ComponentsAreValid s.branch_info p → TableIsValid (u_for taken s p)
      go none h = v.table
      go (some p) h =
          elim (Bool-cases (same s.branch_info.ultimate_pred (altpred_prediction s.branch_info))) [
            | inl e ↦ rw e v.table
            | inr e ↦ rw e (
                modify-IsValid s.tage_table p s.branch_info.provider_index
                  (train_u (same s.branch_info.ultimate_pred taken)) v.table
                  (train_u-IsValid (same s.branch_info.ultimate_pred taken) _) h.0 h.1 h.2)
          ]

fresh_entry-IsValid :
    (s : Tage) (ip i : ℕ) (taken : Bool)
    → 1 ≤ i
    → i < num_components
    → EntryIsValid (i - 1) (fresh_entry taken (tag_hash s ip i))
fresh_entry-IsValid s ip i taken lo hi = ground (arith, tag_hash-lt s ip i)

decrement_u-IsValid :
    (index : ℕ → ℕ)
    → ((c : ℕ) → 1 ≤ c → c < num_components → index c < tage_entries)
    → (rounds i : ℕ) (t : ℕ → ℕ → Entry) → 1 ≤ i
    → i + rounds ≤ num_components
    → TableIsValid t
    → TableIsValid (decrement_u index rounds i t)
unfolding decrement_u
decrement_u-IsValid index inside zero i t lo hi v = v
decrement_u-IsValid index inside (suc rounds) i t lo hi v =
    decrement_u-IsValid index inside rounds (i + 1) _ (omega arith) (omega arith) (
      modify-IsValid t i (index i) (train_u false) v (train_u-IsValid false _) lo (omega arith)
        (inside i lo (omega arith)))

for_entries-IsValid :
    (f : Entry → Entry) (t : ℕ → ℕ → Entry)
    → ((c : ℕ) (e : Entry) → EntryIsValid c e → EntryIsValid c (f e))
    → TableIsValid t
    → TableIsValid (for_entries f t)
for_entries-IsValid f t keep v =
    λ c j hc hj. let changed = keep c (t c j) (v c j hc hj) in ground (arith, v c j)

mask_u-IsValid : (mask c : ℕ) (e : Entry) → EntryIsValid c e → EntryIsValid c (mask_u mask e)
mask_u-IsValid mask c e v = ground arith

module _ (s : Tage) (v : IsValid s) where
  allocate_at-IsValid :
      (ip : ℕ) (taken : Bool) (next : ℕ) (found : Option ℕ)
      → 1 ≤ next
      → IsFirst (is_free s ip) next num_components found
      → TableIsValid (allocate_at ip taken s next found)
  allocate_at-IsValid ip taken next none lo h = elim (dec_le next num_components) [
    | yes in_range ↦
        decrement_u-IsValid (index_hash s ip) (index_hash-lt s ip) (num_components - next) next
          s.tage_table lo (omega arith) v.table
    | no past ↦
        let empty : num_components - next ≡ 0 = omega arith in
        rw empty (unfold decrement_u in v.table)
  ]
  allocate_at-IsValid ip taken next (some i) lo h =
      modify-IsValid s.tage_table i (index_hash s ip i) (λ _. fresh_entry taken (tag_hash s ip i))
        v.table (λ _. fresh_entry-IsValid s ip i taken (omega arith) h.1) (omega arith) h.1
        (index_hash-lt s ip i (omega arith) h.1)

  allocate-IsValid : (rand ip : ℕ) (taken : Bool) → IsValid (allocate rand ip taken s)
  unfolding allocate
  allocate-IsValid rand ip taken =
      with_table v
        (elim (Bool-cases (not (same s.branch_info.ultimate_pred taken) && below_last provider)) [
          | inl e ↦ rw e (
              allocate_at-IsValid ip taken next _ (ground (arith, next_comp_bounds rand provider))
                (search-IsFirst (is_free s ip) next num_components))
          | inr e ↦ rw e v.table
        ])
    where
      provider : Option ℕ
      provider = s.branch_info.provider_comp

      next : ℕ
      next = next_comp rand provider

  age_useful-IsValid : IsValid (age_useful s)
  unfolding age_useful
  age_useful-IsValid = elim (Bool-cases (s.num_branches + 1 == reset_useful_interval / 2)) [
    | inl half ↦ rw half (aged (s.num_branches + 1) _ (masked 1) (ground arith))
    | inr e ↦ rw e (elim (Bool-cases (s.num_branches + 1 == reset_useful_interval)) [
      | inl full ↦ rw full (aged 0 _ (masked 2) (omega arith))
      | inr e' ↦ rw e' (aged (s.num_branches + 1) s.tage_table v.table (ground (arith, v.branches)))
    ])
  ]
    where
      aged :
          (n : ℕ) (t : ℕ → ℕ → Entry)
          → TableIsValid t
          → n < reset_useful_interval
          → IsValid (record s { num_branches = n; tage_table = t })
      aged n t h below = record {
        table = h;
        bimodal = v.bimodal;
        info = v.info;
        use_alt = v.use_alt;
        branches = below;
        path = v.path;
      }

      masked : (mask : ℕ) → TableIsValid (for_entries (mask_u mask) s.tage_table)
      masked mask = for_entries-IsValid (mask_u mask) s.tage_table (mask_u-IsValid mask) v.table

  update_histories-IsValid : (ip : ℕ) (taken : Bool) → IsValid (update_histories ip taken s)
  unfolding update_histories
  update_histories-IsValid ip taken = record {
    table = v.table;
    bimodal = v.bimodal;
    info = v.info;
    use_alt = v.use_alt;
    branches = v.branches;
    path = rw (bit_and_mask 16) (mod-lt _ (omega arith));
  }

-- An update keeps the state valid, whatever `rand()` returns.
pub last_branch_result-IsValid :
    (rand ip : ℕ) (taken : Bool) (s : Tage)
    → IsValid s
    → IsValid (last_branch_result rand ip taken s)
unfolding last_branch_result
last_branch_result-IsValid rand ip taken s v =
    let v₁ = update_use_alt-IsValid taken s v in
    let v₂ = update_ctr-IsValid taken (update_use_alt taken s) v₁ ip in
    let v₃ = update_altpred-IsValid taken _ v₂ in
    let v₄ = update_u-IsValid taken _ v₃ in
    let v₅ = allocate-IsValid _ v₄ rand ip taken in
    update_histories-IsValid _ (age_useful-IsValid _ v₅) ip taken
