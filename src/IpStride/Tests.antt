-- ===== src/IpStride/Tests.antt =====
-- The prefetcher on accesses to blocks at equal distances.
use cs230_branch_predictor.Prelude.{◌≡◌, refl, Bool, List, arith, true, false, none, some, [], ◌∷◌}
use cs230_branch_predictor.IpStride.{start, operate_block}
use cs230_branch_predictor.IpStride.Laws.{IsReady}
use cs230_branch_predictor.IpStride.Cycles.{cycles, expected, stride_is_prefetched}

start-IsReady : IsReady start
start-IsReady = (
  record {
    home = λ i valid. cc;
    unique = λ i j vi vj key. cc;
    past = λ i. omega arith;
    order = λ i j valid e. cc;
  },
  omega arith,
)

-- A physical prefetcher with pages of 8 blocks, and accesses to the blocks 14, 12 and 10.
abbrev answers : List (Bool × Bool)
answers = (true, false) ∷ (true, true) ∷ (false, true) ∷ (true, true) ∷ []

stride_is_prefetched_example :
    let s3 = operate_block 10 64 (operate_block 12 64 (operate_block 14 64 start)) in
    (cycles 58 3 false answers s3).1 ≡ expected 58 3 false false 2 3 10 answers
stride_is_prefetched_example =
    stride_is_prefetched 58 3 false false 14 2 64 answers start start-IsReady (omega arith)
      (omega arith)

-- Block 8 is refused once, and the next, 6, lies in another page.
descending :
    expected 58 3 false false 2 3 10 answers ≡ some (8, true) ∷ some (8, true) ∷ none ∷ none ∷ []
descending = refl
