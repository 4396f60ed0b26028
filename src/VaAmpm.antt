-- ===== src/VaAmpm.antt =====
-- ChampSim/prefetcher/va_ampm_lite/va_ampm_lite.h and va_ampm_lite.cc: a prefetcher that finds strides
-- in the maps of the blocks of a page, as a hook of a Cache. Block numbers have `width` bits, blocks
-- 2 ^ block_bits bytes and pages 2 ^ page_blocks blocks.
pub mod Laws
use cs230_branch_predictor.Prelude.{
  ℕ, zero, suc, ◌+◌, ◌*◌, ◌/◌, ◌%◌, ◌^◌, Bool, true, false, not, ltb, ◌==◌, ◌&&◌, Option, none,
  some, if◌then◌else◌, update,
}
use cs230_branch_predictor.Prelude.Int.{ℤ, pos, sub_ℕ}
use cs230_branch_predictor.Prelude.Sequences.{length}
use cs230_branch_predictor.LruTable
use cs230_branch_predictor.LruTable.{LruTable, Projections, check_hit, fill}
use cs230_branch_predictor.IpStride.{add_stride}
use cs230_branch_predictor.Cache.{Configuration, Cache, Hook, finished, requests}

abbrev pub region_sets : ℕ
region_sets = 1

abbrev pub region_ways : ℕ
region_ways = 128

abbrev pub max_distance : ℕ
max_distance = 256

abbrev pub degree_limit : ℕ
degree_limit = 2

-- `region_type`
pub record Region : Type 0 where
  pub vpn : ℕ
  pub access_map : ℕ → Bool
  pub prefetch_map : ℕ → Bool

abbrev pub new_region : ℕ → Region
new_region vpn = record { vpn = vpn; access_map = λ i. false; prefetch_map = λ i. false }

-- `ampm_indexer`
abbrev pub region_projections : Projections Region
region_projections = record {
  set_projection = λ r. r.vpn;
  tag_projection = λ r. r.vpn;
  initial = new_region 0;
}

abbrev pub Regions : Type 0
Regions = LruTable Region

abbrev pub start : Regions
start = LruTable.empty region_projections region_sets region_ways

-- The two maps.
pub data MapName : Type 0 where
  accesses prefetches : MapName

abbrev pub read_map : MapName → Region → ℕ → Bool
read_map accesses r = r.access_map
read_map prefetches r = r.prefetch_map

module _ (width block_bits page_blocks : ℕ) where
  abbrev pub vpn_of : ℕ → ℕ
  vpn_of block = block / 2 ^ page_blocks

  abbrev pub block_in_page : ℕ → ℕ
  block_in_page block = block % 2 ^ page_blocks

  -- `check_cl_access` and `check_cl_prefetch`; the lookup counts as a use of the region.
  abbrev pub read_region : MapName → ℕ → Regions × Option Region → Regions × Bool
  read_region name block (t, none) = (t, false)
  read_region name block (t, some r) = (t, read_map name r (block_in_page block))

  unfoldable pub check_cl : MapName → ℕ → Regions → Regions × Bool
  check_cl name block t =
      read_region name block (check_hit region_projections (new_region (vpn_of block)) t)

  -- A test that runs where the one before it holds.
  abbrev pub and_then : Regions × Bool → (Regions → Regions × Bool) → Regions × Bool
  and_then (t, true) next = next t
  and_then (t, false) next = (t, false)

  abbrev pub negated : Regions × Bool → Regions × Bool
  negated (t, answer) = (t, not answer)

  -- The block n steps on, forward or backward.
  abbrev pub step : Bool → ℕ → ℕ → ℕ
  step forward n block = add_stride width block (if forward then pos n else sub_ℕ 0 n)

  -- The two blocks before are accessed, and the block ahead neither accessed nor prefetched.
  abbrev pub wants : Bool → ℕ → ℕ → Regions → Regions × Bool
  wants forward i block t =
      and_then
        (and_then
          (and_then (check_cl accesses (step (not forward) i block) t)
            (check_cl accesses (step (not forward) (2 * i) block)))
          (λ t'. negated (check_cl accesses (step forward i block) t')))
        (λ t'. negated (check_cl prefetches (step forward i block) t'))

  -- The region of a prefetch that was taken is marked, and made if there is none.
  abbrev pub mark_region : ℕ → Regions × Option Region → Regions
  mark_region block (t, none) =
      let r = new_region (vpn_of block) in
      fill region_projections
        (record r { prefetch_map = update r.prefetch_map (block_in_page block) true }) t
  mark_region block (t, some r) =
      fill region_projections
        (record r { prefetch_map = update r.prefetch_map (block_in_page block) true }) t

  unfoldable pub mark_prefetch : ℕ → Regions → Regions
  mark_prefetch block t =
      mark_region block (check_hit region_projections (new_region (vpn_of block)) t)

  -- The distances from i on in one direction, while fewer than the degree are issued.
  abbrev pub scan :
      Bool → Bool → ℕ → ℕ → ℕ → ℕ → ℕ → (Regions → Hook Regions) → Regions → Hook Regions
  scan fills forward metadata block zero i issued rest t = rest t
  scan fills forward metadata block (suc rounds) i issued rest t =
      let (t', found) = wants forward i block t in
      let target = step forward i block in
      elim (ltb issued degree_limit) [
        | true ↦ elim (found && not (block == target)) [
          | true ↦ requests (target * 2 ^ block_bits) fills metadata (λ success. elim success [
            | true ↦
                scan fills forward metadata block rounds (i + 1) (issued + 1) rest
                  (mark_prefetch target t')
            | false ↦ scan fills forward metadata block rounds (i + 1) issued rest t'
          ])
          | false ↦ scan fills forward metadata block rounds (i + 1) issued rest t'
        ]
        | false ↦ rest t
      ]

  -- Forward and then backward.
  abbrev pub scan_both : Bool → ℕ → ℕ → Regions → Hook Regions
  scan_both fills metadata block t =
      scan fills true metadata block max_distance 1 0
        (scan fills false metadata block max_distance 1 0 (λ t'. finished t' metadata)) t

  abbrev pub on_region : Bool → ℕ → ℕ → Regions × Option Region → Hook Regions
  on_region fills metadata block (t, none) =
      finished (fill region_projections (new_region (vpn_of block)) t) metadata
  on_region fills metadata block (t, some r) = scan_both fills metadata block (
      fill region_projections
        (record r { access_map = update r.access_map (block_in_page block) true }) t)

  -- `prefetcher_cache_operate`. A prefetch fills this level while less than half of the MSHRs are used.
  unfoldable pub prefetcher_cache_operate : Configuration → Cache Regions → ℕ → ℕ → Hook Regions
  prefetcher_cache_operate k s addr metadata =
      let block = addr / 2 ^ block_bits in
      on_region (ltb (2 * length s.mshr) k.mshr_size) metadata block
        (check_hit region_projections (new_region (vpn_of block)) s.modules)
