-- ===== src/Btb/Laws.antt =====
-- ChampSim/btb/basic_btb: a branch that was updated is predicted by its type.
use cs230_branch_predictor.Prelude.{
  ℕ, ◌/◌, ◌%◌, Bool-cases, inl, inr, ◌≤◌, ◌≡◌, ◌≢◌, refl, sym, ap, arith, Bool, true, false, ◌==◌,
  Option, none, some,
}
use cs230_branch_predictor.LruTable
use cs230_branch_predictor.LruTable.{Projections, find_match, hit_at}
use cs230_branch_predictor.LruTable.Keys.{IsValid, find_match-Matches, match_tag}
use cs230_branch_predictor.LruTable.Fill.{check_hit-fill, fill-IsValid}
use cs230_branch_predictor.LruTable.Touch.{hit-IsValid}
use cs230_branch_predictor.Instruction.{
  BranchType, direct_jump, indirect, conditional, direct_call, indirect_call, return_branch,
  other_branch, not_branch,
}
use cs230_branch_predictor.ReturnStack
use cs230_branch_predictor.Btb.{BasicBtb, btb_prediction, update_btb, entry_prediction}
use cs230_branch_predictor.Btb.Indirect
use cs230_branch_predictor.Btb.Direct
use cs230_branch_predictor.Btb.Direct.{
  BtbEntry, BranchInfo, DirectPredictor, entry_projections, type_of, updated_entry,
}

-- What `update` looks up, and what a later search looks up.
abbrev key : ℕ → ℕ → BranchInfo → BtbEntry
key ip target type = record { ip_tag = ip; target = target; type = type }

-- The entry that `update` fills has the key of the branch.
updated_tag :
    (ip target : ℕ) (type : BranchInfo) (t : DirectPredictor) (o : Option ℕ)
    → find_match entry_projections (key ip target type) t ≡ o
    → (updated_entry ip target type (hit_at entry_projections t o).1).ip_tag / 4 ≡ ip / 4
updated_tag ip target type t none e = refl
updated_tag ip target type t (some i) e =
    match_tag entry_projections (key ip target type) (t.block i)
      (find_match-Matches entry_projections (key ip target type) t i e).1

updated_fields :
    (ip target : ℕ) (type : BranchInfo) (o : Option BtbEntry)
    → target ≢ 0
    → ((updated_entry ip target type o).target ≡ target)
      × ((updated_entry ip target type o).type ≡ type)
updated_fields ip target type none h = (refl, refl)
updated_fields ip target type (some e) h = ground arith

hit_ways :
    (t : DirectPredictor) (o : Option ℕ)
    → 1 ≤ t.num_way
    → 1 ≤ (hit_at entry_projections t o).0.num_way
hit_ways t none h = h
hit_ways t (some i) h = h

-- After an update with a target the direct predictor finds an entry with that target and the type of
-- the branch; and the table keeps its invariant.
pub direct_update_lem :
    (ip target : ℕ) (b : BranchType) (t : DirectPredictor)
    → target ≢ 0
    → 1 ≤ t.num_way
    → IsValid entry_projections t
    → (e : BtbEntry) × ((Direct.check_hit ip (Direct.update ip target b t)).1 ≡ some e)
      × (e.target ≡ target)
      × (e.type ≡ type_of b)
unfolding Direct.update Direct.check_hit LruTable.check_hit
direct_update_lem ip target b t h ways v =
    let k = key ip target (type_of b) in
    let o = find_match entry_projections k t in
    let t' = (hit_at entry_projections t o).0 in
    let e = updated_entry ip target (type_of b) (hit_at entry_projections t o).1 in
    let nonzero : (target == 0) ≡ false = ground arith in
    let tag = sym (updated_tag ip target (type_of b) t o refl) in
    let fields = updated_fields ip target (type_of b) (hit_at entry_projections t o).1 h in
    rw nonzero (
      e,
      check_hit-fill entry_projections e t' (hit_ways t o ways) (key ip 0 BranchInfo.always_taken)
          (hit-IsValid entry_projections k t o refl v) (ap (λ x. x % t'.num_set) tag, tag),
      fields.0,
      fields.1,
    )

pub direct_update-IsValid :
    (ip target : ℕ) (b : BranchType) (t : DirectPredictor)
    → IsValid entry_projections t
    → IsValid entry_projections (Direct.update ip target b t)
unfolding Direct.update LruTable.check_hit
direct_update-IsValid ip target b t v =
    let k = key ip target (type_of b) in
    let o = find_match entry_projections k t in
    let v' = hit-IsValid entry_projections k t o refl v in
    elim (Bool-cases (target == 0)) [
      | inl z ↦ rw z v'
      | inr n ↦ rw n (fill-IsValid entry_projections _ _ v')
    ]

-- What the predictors promise of a branch that was updated with a target.
abbrev pub expected : BasicBtb → ℕ → ℕ → BranchType → ℕ × Bool
expected s ip target conditional = (target, false)
expected s ip target indirect = (target, true)
expected s ip target indirect_call = (target, true)
expected s ip target return_branch =
    ReturnStack.prediction (ReturnStack.calibrate_call_size target s.ras)
expected s ip target other = (target, true)

promised :
    (ip target : ℕ) (taken : Bool) (b : BranchType) (s : BasicBtb) (d : DirectPredictor)
    (e : BtbEntry)
    → e.target ≡ target
    → e.type ≡ type_of b
    → entry_prediction (record (update_btb ip target taken b s) { direct = d }) ip e e.type
      ≡ expected s ip target b
unfolding update_btb Indirect.prediction Indirect.update_target
promised ip target taken direct_jump s d e p q = rw (q, p) refl
promised ip target taken indirect s d e p q = rw q (ground arith)
promised ip target taken conditional s d e p q = rw (q, p) refl
promised ip target taken direct_call s d e p q = rw (q, p) refl
promised ip target taken indirect_call s d e p q = rw q (ground arith)
promised ip target taken return_branch s d e p q = rw q refl
promised ip target taken other_branch s d e p q = rw (q, p) refl
promised ip target taken not_branch s d e p q = rw (q, p) refl

-- After an update of a branch with a target, the branch is predicted by its type: a conditional branch
-- with that target and not always taken, a return by the return stack after it was calibrated with that
-- target, and every other type with that target and always taken.
pub btb_learns :
    (ip target : ℕ) (taken : Bool) (b : BranchType) (s : BasicBtb)
    → target ≢ 0
    → 1 ≤ s.direct.num_way
    → IsValid entry_projections s.direct
    → (btb_prediction ip (update_btb ip target taken b s)).1 ≡ expected s ip target b
unfolding btb_prediction update_btb
btb_learns ip target taken b s h ways v =
    let (e, found, same_target, same_type) = direct_update_lem ip target b s.direct h ways v in
    rw found (
      promised ip target taken b s (Direct.check_hit ip (Direct.update ip target b s.direct)).0 e
        same_target same_type)
