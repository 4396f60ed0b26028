-- ===== src/IpStride/Laws.antt =====
-- ChampSim/prefetcher/ip_stride/ip_stride.cc: a stride that was seen twice is prefetched.
use cs230_branch_predictor.Prelude.{
  ◌∙◌, ℕ, ◌+◌, ◌≤◌, ◌≡◌, ◌≢◌, refl, ap, arith, true, Option, none, some, ◌&&◌, not,
}
use cs230_branch_predictor.Prelude.Int.{ℤ, pos, eq_ℤ}
use cs230_branch_predictor.LruTable
use cs230_branch_predictor.LruTable.{LruTable, find_match, hit_at}
use cs230_branch_predictor.LruTable.Keys.{IsValid}
use cs230_branch_predictor.LruTable.Fill.{check_hit-fill, fill-IsValid}
use cs230_branch_predictor.LruTable.Touch.{hit-IsValid}
use cs230_branch_predictor.IpStride.{
  IpStride, TrackerEntry, offset, tracker_projections, key, stride_of, operate_block,
  prefetch_degree,
}

-- The table of a state is valid and has ways.
abbrev pub IsReady : IpStride → Type 0
IsReady s = IsValid tracker_projections s.table × (1 ≤ s.table.num_way)

hit_ways :
    (t : LruTable TrackerEntry) (o : Option ℕ)
    → (hit_at tracker_projections t o).0.num_way ≡ t.num_way
hit_ways t none = refl
hit_ways t (some i) = refl

fill_ways :
    (e : TrackerEntry) (t : LruTable TrackerEntry)
    → (LruTable.fill tracker_projections e t).num_way ≡ t.num_way
unfolding LruTable.fill
fill_ways e t = ground arith

-- What the search of an access finds.
abbrev found_in : ℕ → ℕ → IpStride → Option TrackerEntry
found_in cl_addr ip s = (LruTable.check_hit tracker_projections (key ip cl_addr) s.table).1

operated-IsReady : (block ip : ℕ) (s : IpStride) → IsReady s → IsReady (operate_block block ip s)
unfolding operate_block LruTable.check_hit
operated-IsReady block ip s (v, ways) =
    let o = find_match tracker_projections (key ip block) s.table in
    let t = (hit_at tracker_projections s.table o).0 in
    (
      fill-IsValid tracker_projections _ t
          (hit-IsValid tracker_projections (key ip block) s.table o refl v),
      omega (arith, hit_ways s.table o, fill_ways _ t),
    )

-- The next access of the instruction finds what this one stored.
remembered :
    (block block' ip : ℕ) (s : IpStride)
    → IsReady s
    → found_in block' ip (operate_block block ip s)
      ≡ some (record {
        ip = ip;
        last_cl_addr = block;
        last_stride = stride_of block (found_in block ip s);
      })
unfolding operate_block LruTable.check_hit
remembered block block' ip s (v, ways) =
    let o = find_match tracker_projections (key ip block) s.table in
    let t = (hit_at tracker_projections s.table o).0 in
    check_hit-fill tracker_projections _ t (omega (arith, hit_ways s.table o)) (key ip block')
      (hit-IsValid tracker_projections (key ip block) s.table o refl v) (refl, refl)

abbrev remember : ℕ → ℕ → ℤ → Option TrackerEntry
remember ip block stride = some (record { ip = ip; last_cl_addr = block; last_stride = stride })

strides_agree :
    (a b c : ℕ)
    → a ≢ b
    → b + b ≡ a + c
    → (not (eq_ℤ (offset b c) (pos 0)) && eq_ℤ (offset b c) (offset a b)) ≡ true
strides_agree a b c ne same = ground arith

learnt_from :
    (a b c ip : ℕ) (s : IpStride)
    → a ≢ b
    → b + b ≡ a + c
    → found_in c ip s ≡ some (record { ip = ip; last_cl_addr = b; last_stride = offset a b })
    → (operate_block c ip s).active_lookahead
      ≡ some (record { address = c; stride = offset b c; degree = prefetch_degree })
unfolding operate_block
learnt_from a b c ip s ne same e = rw (e, strides_agree a b c ne same) refl

-- Three accesses of an instruction at equal distances, not 0, start a lookahead at the third.
pub stride_is_learnt :
    (a b c ip : ℕ) (s : IpStride)
    → IsReady s
    → a ≢ b
    → b + b ≡ a + c
    → (operate_block c ip (operate_block b ip (operate_block a ip s))).active_lookahead
      ≡ some (record { address = c; stride = offset b c; degree = prefetch_degree })
stride_is_learnt a b c ip s ready ne same =
    let s1 = operate_block a ip s in
    let first = remembered a b ip s ready in
    let second = remembered b c ip s1 (operated-IsReady a ip s ready) in
    learnt_from a b c ip (operate_block b ip s1) ne same
      (second ∙ ap (λ o. remember ip b (stride_of b o)) first)
