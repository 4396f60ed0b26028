-- ===== src/IpStride/Cycles.antt =====
-- ChampSim/prefetcher/ip_stride/ip_stride.cc: what the cycles prefetch after a stride is learnt.
use native.Mathlib.Nat.{mod-eq_of_lt, add-mod_right}
use cs230_branch_predictor.Prelude.{
  ◌∙◌, zero, List, [], ◌∷◌, ℕ, suc, ◌+◌, ◌-◌, ◌*◌, ◌/◌, ◌%◌, ◌^◌, ◌≤◌, ◌<◌, ◌≡◌, ◌≢◌, refl, ap,
  arith, Bool, true, false, ◌||◌, ◌==◌, Bool-cases, inl, inr, Option, none, some, if◌then◌else◌,
}
use cs230_branch_predictor.Prelude.Int.{ℤ, pos, negsuc}
use cs230_branch_predictor.IpStride.{
  IpStride, offset, operate_block, prefetcher_cycle_operate, Prefetch, LookaheadEntry, add_stride,
  same_page, after_prefetch,
}
use cs230_branch_predictor.IpStride.Laws.{IsReady, stride_is_learnt}

-- The stride by d, up or down, and the block that it leads to.
abbrev pub stride_by : Bool → ℕ → ℤ
stride_by up d = if up then pos d else negsuc (d - 1)

abbrev pub moved : Bool → ℕ → ℕ → ℕ
moved up d block = if up then block + d else block - d

-- The next n blocks in this direction are block numbers.
abbrev pub IsInside : ℕ → Bool → ℕ → ℕ → ℕ → Type 0
IsInside width true d block n = block + n * d < 2 ^ width
IsInside width false d block n = (n * d ≤ block) × (block < 2 ^ width)

moved-add_stride :
    (width : ℕ) (up : Bool) (d block n : ℕ)
    → d ≢ 0
    → IsInside width up d block (suc n)
    → add_stride width block (stride_by up d) ≡ moved up d block
moved-add_stride width true d block n ne h = mod-eq_of_lt (omega arith)
moved-add_stride width false d block n ne h =
    let back : d - 1 + 1 ≡ d = ground arith in
    let small : d % 2 ^ width ≡ d = mod-eq_of_lt (omega arith) in
    let around : block + (2 ^ width - d) ≡ block - d + 2 ^ width = omega arith in
    rw (back, small, around) (add-mod_right (block - d) (2 ^ width) ∙ mod-eq_of_lt (omega arith))

moved-IsInside :
    (width : ℕ) (up : Bool) (d block n : ℕ)
    → IsInside width up d block (suc n)
    → IsInside width up d (moved up d block) n
moved-IsInside width true d block n h = omega arith
moved-IsInside width false d block n h = omega arith

nothing_left :
    (width : ℕ) (up : Bool) (d block n : ℕ)
    → IsInside width up d block (suc n)
    → IsInside width up d block 0
nothing_left width true d block n h = omega arith
nothing_left width false d block n h = omega arith

module _ (width log2_page_blocks : ℕ) (virtual_prefetch : Bool) where
  -- Cycles, by the load of the MSHRs and the success of the prefetch in each.
  abbrev pub cycles : List (Bool × Bool) → IpStride → IpStride × List (Option Prefetch)
  cycles [] s = (s, [])
  cycles ((light_load, success) ∷ answers) s =
      let (s', prefetch) =
        prefetcher_cycle_operate width log2_page_blocks virtual_prefetch light_load success s in
      let (s'', rest) = cycles answers s' in (s'', prefetch ∷ rest)

  module _ (up : Bool) (d : ℕ) where
    -- What the cycles are to ask for with n blocks left after `block`: the next block, again until the
    -- cache takes it, and nothing once a physical prefetch would leave the page or none are left.
    abbrev pub expected : ℕ → ℕ → List (Bool × Bool) → List (Option Prefetch)
    expected n block [] = []
    expected zero block ((light_load, success) ∷ answers) = none ∷ expected zero block answers
    expected (suc n) block ((light_load, success) ∷ answers) =
        let next = moved up d block in
        let after_success = expected n next answers in
        let after_refusal = expected (suc n) block answers in
        let stopped = expected zero block answers in
        if virtual_prefetch || next / 2 ^ log2_page_blocks == block / 2 ^ log2_page_blocks
        then some (next, light_load) ∷ (if success then after_success else after_refusal)
        else none ∷ stopped

    -- The lookahead with n blocks left.
    abbrev ahead : ℕ → ℕ → Option LookaheadEntry
    ahead zero block = none
    ahead (suc n) block = some (record { address = block; stride = stride_by up d; degree = suc n })

    after-ahead :
        (n block : ℕ) (success : Bool)
        → after_prefetch
            (record { address = block; stride = stride_by up d; degree = suc n })
            (moved up d block)
            success
          ≡ (if success then ahead n (moved up d block) else ahead (suc n) block)
    after-ahead zero block success = ground arith
    after-ahead (suc n) block success = ground arith

    cycles-expected :
        (n block : ℕ) (answers : List (Bool × Bool)) (s : IpStride)
        → d ≢ 0
        → IsInside width up d block n
        → s.active_lookahead ≡ ahead n block
        → (cycles answers s).1 ≡ expected n block answers
    unfolding prefetcher_cycle_operate
    cycles-expected n block [] s ne inside e = refl
    cycles-expected zero block ((light_load, success) ∷ answers) s ne inside e = rw e (
        ap (λ xs. none ∷ xs)
          (cycles-expected zero block answers (record s { active_lookahead = none }) ne inside
            refl))
    cycles-expected (suc n) block ((light_load, success) ∷ answers) s ne inside e =
        let next = moved-add_stride width up d block n ne inside in
        elim (Bool-cases (
          virtual_prefetch
          || same_page width log2_page_blocks virtual_prefetch (moved up d block) block)) [
            | inl asks ↦ elim (Bool-cases success) [
              | inl taken ↦
                  rw (e, next, asks, taken)
                    (ap (λ xs. some (moved up d block, light_load) ∷ xs)
                      (cycles-expected n (moved up d block) answers _ ne
                        (moved-IsInside width up d block n inside) (after-ahead n block true)))
              | inr refused ↦
                  rw (e, next, asks, refused)
                    (ap (λ xs. some (moved up d block, light_load) ∷ xs)
                      (cycles-expected (suc n) block answers _ ne inside
                        (after-ahead n block false)))
            ]
            | inr stops ↦
                rw (e, next, stops)
                  (ap (λ xs. none ∷ xs)
                    (cycles-expected zero block answers _ ne
                      (nothing_left width up d block n inside) refl))
          ]

stride_of_moved :
    (up : Bool) (d b : ℕ) → d ≢ 0 → (up ≡ false → d ≤ b) → offset b (moved up d b) ≡ stride_by up d
stride_of_moved true d b ne h = ground arith
stride_of_moved false d b ne h = ground (arith, h refl)

-- After accesses of an instruction to three blocks with the distance d, not 0, up or down, where the
-- three blocks beyond them are block numbers too, the cycles ask for exactly what is expected, for
-- virtual and physical prefetching and whatever the cache answers: at most three blocks at the same
-- distance beyond the third access, each again until the cache takes it, and none from the first on
-- that would be in another page, if the prefetcher is physical.
pub stride_is_prefetched :
    (width log2_page_blocks : ℕ) (virtual_prefetch up : Bool) (a d ip : ℕ)
    (answers : List (Bool × Bool)) (s : IpStride)
    → IsReady s
    → d ≢ 0
    → IsInside width up d a 5
    → let b = moved up d a in
      let c = moved up d b in
      let s3 = operate_block c ip (operate_block b ip (operate_block a ip s)) in
      (cycles width log2_page_blocks virtual_prefetch answers s3).1
      ≡ expected width log2_page_blocks virtual_prefetch up d 3 c answers
stride_is_prefetched width log2_page_blocks virtual_prefetch true a d ip answers s ready ne inside =
    cycles-expected width log2_page_blocks virtual_prefetch true d 3 (a + d + d) answers _ ne
      (omega arith)
      (rw (← stride_of_moved true d (a + d) ne (λ e. cc))
        (stride_is_learnt a (a + d) (a + d + d) ip s ready (omega arith) (omega arith)))
stride_is_prefetched width log2_page_blocks virtual_prefetch false a d ip answers s ready ne
      inside =
    cycles-expected width log2_page_blocks virtual_prefetch false d 3 (a - d - d) answers _ ne
      (omega arith)
      (rw (← stride_of_moved false d (a - d) ne (λ e. omega arith))
        (stride_is_learnt a (a - d) (a - d - d) ip s ready (omega arith) (omega arith)))
