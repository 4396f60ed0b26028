-- ===== src/Spp/Operate.antt =====
-- ChampSim/prefetcher/spp_dev/spp_dev.cc: the operations of the prefetcher on an access and a fill. An
-- address is that of its block. `prefetch_line` is in the result: the block, and whether it fills this
-- level.
pub mod Laws
pub mod Rounds
use cs230_branch_predictor.Prelude.{
  ℕ, zero, suc, ◌+◌, ◌-◌, ◌*◌, ◌/◌, ◌%◌, ◌^◌, Bool, true, false, not, ltb, leb, ◌==◌, ◌&&◌, ◌>>=◌,
  List, [], ◌∷◌, ◌++◌, Option, none, some, if◌then◌else◌,
}
use cs230_branch_predictor.Prelude.Int.{ℤ, pos}
use cs230_branch_predictor.Prelude.Sequences.{push_last}
use cs230_branch_predictor.IpStride.{add_stride}
use cs230_branch_predictor.Spp.{
  pt_way, st_tag_bit, fill_threshold, pf_threshold, global_counter_max, next_sig,
}
use cs230_branch_predictor.Spp.GlobalRegister
use cs230_branch_predictor.Spp.GlobalRegister.{GlobalRegister, update_entry}
use cs230_branch_predictor.Spp.SignatureTable
use cs230_branch_predictor.Spp.SignatureTable.{SignatureTable, Reading, read_and_update_sig}
use cs230_branch_predictor.Spp.PatternTable
use cs230_branch_predictor.Spp.PatternTable.{
  PatternTable, Candidates, set_of, update_pattern, read_pattern,
}
use cs230_branch_predictor.Spp.Filter
use cs230_branch_predictor.Spp.Filter.{
  PrefetchFilter, FilterRequest, spp_l2c_prefetch, spp_llc_prefetch, l2c_demand, l2c_evict, check,
}

pub record Spp : Type 0 where
  pub st : SignatureTable
  pub pt : PatternTable
  pub filter : PrefetchFilter
  pub ghr : GlobalRegister

abbrev pub start : Spp
start = record {
  st = SignatureTable.start;
  pt = PatternTable.start;
  filter = Filter.start;
  ghr = GlobalRegister.start;
}

-- The local variables of the lookahead.
pub record Lookahead : Type 0 where
  pub base : ℕ
  pub curr_sig : ℕ
  pub candidates : Candidates
  pub pf_q_head : ℕ
  pub do_lookahead : Bool
  pub prefetches : List (ℕ × Bool)

abbrev pub count_issued : GlobalRegister → GlobalRegister
count_issued ghr =
    if ltb global_counter_max (ghr.pf_issued + 1)
    then record ghr { pf_issued = (ghr.pf_issued + 1) / 2; pf_useful = ghr.pf_useful / 2 }
    else record ghr { pf_issued = ghr.pf_issued + 1 }

-- `GHR.global_accuracy`
abbrev pub accuracy_of : GlobalRegister → ℕ
accuracy_of ghr = if not (ghr.pf_issued == 0) then 100 * ghr.pf_useful / ghr.pf_issued else 0

-- What comes of the loop: it ends, an assertion or an access fails, or the rounds are used up.
pub data Outcome : Type 0 where
  ends : Spp → List (ℕ × Bool) → Outcome
  fails : Outcome
  unfinished : Outcome

-- A block number has `width` bits, and a page 2 to `page_blocks` blocks.
module _ (width page_blocks mshr_size : ℕ) where
  abbrev pub page_of : ℕ → ℕ
  page_of block = block / 2 ^ page_blocks

  abbrev pub offset_of : ℕ → ℕ
  offset_of block = block % 2 ^ page_blocks

  -- A candidate in the page: the filter, the prefetch, and the counter of the issued ones.
  abbrev pub issue : ℕ → ℕ → Spp → Lookahead → Spp × Lookahead
  issue pf_block conf s l =
      let fills = leb fill_threshold conf in
      let (filter', ghr', fresh) =
        check pf_block (if fills then spp_l2c_prefetch else spp_llc_prefetch) s.filter s.ghr in
      (
        record s { filter = filter'; ghr = if fresh && fills then count_issued ghr' else ghr' },
        if fresh then record l { prefetches = push_last l.prefetches (pf_block, fills) } else l,
      )

  -- A candidate in another page is kept in the global register.
  abbrev pub cross : ℕ → ℕ → ℤ → Spp → Lookahead → Option (Spp × Lookahead)
  cross pf_block conf delta s l = do
    ghr' ← update_entry l.curr_sig conf (offset_of pf_block) delta s.ghr
    some (record s { ghr = ghr' }, l)

  abbrev pub advance : Spp × Lookahead → Spp × Lookahead
  advance (s, l) = (s, record l { do_lookahead = true; pf_q_head = l.pf_q_head + 1 })

  abbrev pub try_candidate : ℕ → ℕ → Spp → Lookahead → Option (Spp × Lookahead)
  try_candidate page i s l =
      let conf = l.candidates.confidence_q i in
      let delta = l.candidates.delta_q i in
      let pf_block = add_stride width l.base delta in
      if not (ltb i mshr_size)
      then none
      else if not (leb pf_threshold conf)
      then some (s, l)
      else if page_of pf_block == page
      then some (advance (issue pf_block conf s l))
      else (do r ← cross pf_block conf delta s l; some (advance r))

  -- The loop from `pf_q_head` to `pf_q_tail`, both as they are before it.
  abbrev pub try_candidates : ℕ → ℕ → ℕ → Spp → Lookahead → Option (Spp × Lookahead)
  try_candidates page zero i s l = some (s, l)
  try_candidates page (suc rounds) i s l = do
    r ← try_candidate page i s l
    try_candidates page rounds (i + 1) r.0 r.1

  -- The base and the signature follow the most confident way.
  abbrev pub follow : PatternTable → Lookahead → Lookahead
  follow pt l =
      let way = l.candidates.lookahead_way in
      let delta = (pt (set_of l.curr_sig)).delta way in
      if ltb way pt_way
      then record l { base = add_stride width l.base delta; curr_sig = next_sig l.curr_sig delta }
      else l

  -- A round of the do loop, up to its test.
  unfoldable pub lookahead_round : ℕ → Spp → Lookahead → Option (Spp × Lookahead)
  lookahead_round page s l = do
    q ←
        read_pattern mshr_size s.ghr.global_accuracy l.curr_sig s.pt
          (record l.candidates { lookahead_way = pt_way })
    r ←
        try_candidates page (q.pf_q_tail - l.pf_q_head) l.pf_q_head s
          (record l { candidates = q; do_lookahead = false })
    some (r.0, follow r.0.pt r.1)

  abbrev pub lookahead_loop : ℕ → ℕ → Spp → Lookahead → Outcome
  lookahead_loop zero page s l = unfinished
  lookahead_loop (suc rounds) page s l = elim (lookahead_round page s l) [
    | none ↦ fails
    | some r ↦ elim (r.1.do_lookahead) [
      | true ↦ lookahead_loop rounds page r.0 r.1
      | false ↦ ends r.0 r.1.prefetches
    ]
  ]

  -- Stages 1 and 2: the signature, the filter, and the pattern of the last signature.
  abbrev pub learn : Spp → SignatureTable × Reading → ℕ → Option (Spp × Reading)
  learn s (st', r) block =
      let (filter', ghr', fresh) = check block l2c_demand s.filter s.ghr in
      if not (r.last_sig == 0)
      then (do
        pt' ← update_pattern r.last_sig r.delta s.pt
        some (record { st = st'; pt = pt'; filter = filter'; ghr = ghr' }, r))
      else some (record { st = st'; pt = s.pt; filter = filter'; ghr = ghr' }, r)

  unfoldable pub access : ℕ → Spp → Option (Spp × Reading)
  access block s = do
    let s' = record s { ghr = record s.ghr { global_accuracy = accuracy_of s.ghr } }
    r ← read_and_update_sig s'.ghr (page_of block % 2 ^ st_tag_bit) (offset_of block) s'.st
    learn s' r block

  abbrev pub first_candidates : Candidates
  first_candidates = record {
    confidence_q = λ i. if i == 0 then 100 else 0;
    delta_q = λ i. pos 0;
    lookahead_way = pt_way;
    lookahead_conf = 100;
    pf_q_tail = 0;
    depth = 0;
  }

  abbrev pub first_lookahead : ℕ → ℕ → Lookahead
  first_lookahead block curr_sig = record {
    base = block;
    curr_sig = curr_sig;
    candidates = first_candidates;
    pf_q_head = 0;
    do_lookahead = false;
    prefetches = [];
  }

  -- `prefetcher_cache_operate`, with at most so many rounds of the lookahead.
  unfoldable pub prefetcher_cache_operate : ℕ → ℕ → Spp → Outcome
  prefetcher_cache_operate rounds block s = elim (access block s) [
    | none ↦ fails
    | some r ↦ lookahead_loop rounds (page_of block) r.0 (first_lookahead block r.1.curr_sig)
  ]

-- `prefetcher_cache_fill`, of the evicted block.
unfoldable pub prefetcher_cache_fill : ℕ → Spp → Spp
prefetcher_cache_fill evicted s =
    let (filter', ghr', answer) = check evicted l2c_evict s.filter s.ghr in
    record s { filter = filter'; ghr = ghr' }
