-- ===== src/IpStride.antt =====
-- ChampSim/prefetcher/ip_stride/ip_stride.h and ip_stride.cc: a prefetcher that learns the stride of the
-- accesses of an instruction, over an LruTable. A block is its number. What the cache answers, the load
-- of its MSHRs and the success of `prefetch_line`, is an argument of each cycle; the call itself is in the
-- result.
pub mod Laws
pub mod Cycles
mod Tests
use cs230_branch_predictor.Prelude.{
  ℕ, ◌+◌, ◌-◌, ◌*◌, ◌/◌, ◌%◌, ◌^◌, Bool, true, false, not, ◌==◌, ◌&&◌, ◌||◌, Option, none, some,
  if◌then◌else◌,
}
use cs230_branch_predictor.Prelude.Int.{ℤ, pos, negsuc, sub_ℕ, eq_ℤ}
use cs230_branch_predictor.LruTable
use cs230_branch_predictor.LruTable.{LruTable, Projections}

-- `tracker_entry`
pub record TrackerEntry : Type 0 where
  pub ip : ℕ
  pub last_cl_addr : ℕ
  pub last_stride : ℤ

-- `lookahead_entry`; the address is that of a block.
pub record LookaheadEntry : Type 0 where
  pub address : ℕ
  pub stride : ℤ
  pub degree : ℕ

abbrev pub tracker_sets : ℕ
tracker_sets = 256

abbrev pub tracker_ways : ℕ
tracker_ways = 4

abbrev pub prefetch_degree : ℕ
prefetch_degree = 3

-- `index` and `tag` are `ip.slice_upper<2>()`.
abbrev pub tracker_projections : Projections TrackerEntry
tracker_projections = record {
  set_projection = λ e. e.ip / 4;
  tag_projection = λ e. e.ip / 4;
  initial = record { ip = 0; last_cl_addr = 0; last_stride = pos 0 };
}

pub record IpStride : Type 0 where
  pub active_lookahead : Option LookaheadEntry
  pub table : LruTable TrackerEntry

abbrev pub start : IpStride
start = record {
  active_lookahead = none;
  table = LruTable.empty tracker_projections tracker_sets tracker_ways;
}

-- `champsim::offset`; two block numbers differ by less than the difference type can hold.
abbrev pub offset : ℕ → ℕ → ℤ
offset base other = sub_ℕ other base

-- The block number after `+ stride`, of `width` bits.
abbrev pub add_stride : ℕ → ℕ → ℤ → ℕ
add_stride width block (pos n) = (block + n) % 2 ^ width
add_stride width block (negsuc n) = (block + (2 ^ width - (n + 1) % 2 ^ width)) % 2 ^ width

abbrev pub stride_of : ℕ → Option TrackerEntry → ℤ
stride_of cl_addr none = pos 0
stride_of cl_addr (some found) = offset found.last_cl_addr cl_addr

abbrev pub lookahead_of : ℕ → Option TrackerEntry → Option LookaheadEntry → Option LookaheadEntry
lookahead_of cl_addr none active = active
lookahead_of cl_addr (some found) active =
    let stride = offset found.last_cl_addr cl_addr in
    if not (eq_ℤ stride (pos 0)) && eq_ℤ stride found.last_stride
    then some (record { address = cl_addr; stride = stride; degree = prefetch_degree })
    else active

abbrev pub key : ℕ → ℕ → TrackerEntry
key ip cl_addr = record { ip = ip; last_cl_addr = cl_addr; last_stride = pos 0 }

-- `prefetcher_cache_operate`, of an access to the block.
unfoldable pub operate_block : ℕ → ℕ → IpStride → IpStride
operate_block cl_addr ip s =
    let (table', found) = LruTable.check_hit tracker_projections (key ip cl_addr) s.table in
    record {
      active_lookahead = lookahead_of cl_addr found s.active_lookahead;
      table =
          LruTable.fill tracker_projections
            (record { ip = ip; last_cl_addr = cl_addr; last_stride = stride_of cl_addr found })
            table';
    }

abbrev pub prefetcher_cache_operate : ℕ → ℕ → ℕ → IpStride → IpStride
prefetcher_cache_operate log2_block_size addr ip s = operate_block (addr / 2 ^ log2_block_size) ip s

-- The prefetch of a cycle: the block, and whether it fills this level.
abbrev pub Prefetch : Type 0
Prefetch = ℕ × Bool

-- The lookahead after `prefetch_line`, which is reset at degree 0.
abbrev pub after_prefetch : LookaheadEntry → ℕ → Bool → Option LookaheadEntry
after_prefetch e pf_address success =
    let next =
      if success
      then record { address = pf_address; stride = e.stride; degree = e.degree - 1 }
      else e in
    if next.degree == 0 then none else some next

-- A page has 2 to `log2_page_blocks` blocks.
module _ (width log2_page_blocks : ℕ) (virtual_prefetch : Bool) where
  abbrev pub same_page : ℕ → ℕ → Bool
  same_page a b = a / 2 ^ log2_page_blocks == b / 2 ^ log2_page_blocks

  abbrev pub cycle_on : Bool → Bool → IpStride → Option LookaheadEntry → IpStride × Option Prefetch
  cycle_on light_load success s none = (s, none)
  cycle_on light_load success s (some e) =
      let pf_address = add_stride width e.address e.stride in
      if virtual_prefetch || same_page pf_address e.address
      then (
        record s { active_lookahead = after_prefetch e pf_address success },
        some (pf_address, light_load),
      )
      else (record s { active_lookahead = none }, none)

  unfoldable pub prefetcher_cycle_operate : Bool → Bool → IpStride → IpStride × Option Prefetch
  prefetcher_cycle_operate light_load success s = cycle_on light_load success s s.active_lookahead
