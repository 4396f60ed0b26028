-- ===== src/Cache.antt =====
-- ChampSim/inc/cache.h, inc/block.h, inc/waitable.h and src/cache.cc: the state of a cache, and what it
-- asks of its prefetcher and its replacement policy. An address is its number. Left out are the streams
-- for debugging, the field `asid`, and the counter `total_miss_latency_cycles`.
pub mod Prefetch
pub mod Fill
pub mod Check
pub mod Finish
pub mod Cycle
pub mod Bounds
pub mod Returning
pub mod Running
pub mod Installed
pub mod Waiting
mod Tests
pub mod Order
use cs230_branch_predictor.Prelude.{
  ℕ, ◌+◌, ◌*◌, ◌/◌, ◌%◌, ◌^◌, ◌≤◌, Bool, true, false, leb, ltb, ◌==◌, ◌&&◌, List, [], ◌∷◌, Option,
  none, some, if◌then◌else◌, update,
}
use cs230_branch_predictor.Prelude.Sequences.{push_last}
use cs230_branch_predictor.Bits.{lg2}
use cs230_branch_predictor.Replacement.{AccessType, load, rfo, prefetch, write, translation}
use cs230_branch_predictor.Channel.{Channel, Request, Response}

-- `cache_block`
pub record Block : Type 0 where
  pub valid : Bool
  pub prefetch_bit : Bool
  pub dirty : Bool
  pub address : ℕ
  pub v_address : ℕ
  pub block_data : ℕ
  pub pf_metadata : ℕ

-- `waitable<returned_value>`; a cycle that is not known is `none`.
pub record Promise : Type 0 where
  pub block_data : ℕ
  pub pf_metadata : ℕ
  pub event_cycle : Option ℕ

abbrev pub no_promise : Promise
no_promise = record { block_data = 0; pf_metadata = 0; event_cycle = none }

abbrev pub is_ready_at : ℕ → Promise → Bool
is_ready_at cycle p = elim (p.event_cycle) [ none ↦ false | some event ↦ leb event cycle ]

abbrev pub has_unknown_readiness : Promise → Bool
has_unknown_readiness p = elim (p.event_cycle) [ none ↦ true | some event ↦ false ]

-- `tag_lookup_type`. Where a response goes is the number of the upper level; the event cycle `max` is
-- `none`.
pub record TagLookup : Type 0 where
  pub address : ℕ
  pub v_address : ℕ
  pub block_data : ℕ
  pub ip : ℕ
  pub instr_id : ℕ
  pub pf_metadata : ℕ
  pub cpu : ℕ
  pub access : AccessType
  pub prefetch_from_this : Bool
  pub skip_fill : Bool
  pub is_translated : Bool
  pub translate_issued : Bool
  pub event_cycle : Option ℕ
  pub instr_depend_on_me : List ℕ
  pub to_return : List ℕ

abbrev pub tag_lookup : Request → Bool → Bool → TagLookup
tag_lookup req local_pref skip = record {
  address = req.address;
  v_address = req.v_address;
  block_data = req.block_data;
  ip = req.ip;
  instr_id = req.instr_id;
  pf_metadata = req.pf_metadata;
  cpu = req.cpu;
  access = req.access;
  prefetch_from_this = local_pref;
  skip_fill = skip;
  is_translated = req.is_translated;
  translate_issued = false;
  event_cycle = none;
  instr_depend_on_me = req.instr_depend_on_me;
  to_return = [];
}

-- `mshr_type`
pub record Mshr : Type 0 where
  pub address : ℕ
  pub v_address : ℕ
  pub ip : ℕ
  pub instr_id : ℕ
  pub data_promise : Promise
  pub cpu : ℕ
  pub access : AccessType
  pub prefetch_from_this : Bool
  pub time_enqueued : ℕ
  pub instr_depend_on_me : List ℕ
  pub to_return : List ℕ

abbrev pub make_mshr : TagLookup → ℕ → Mshr
make_mshr req time_enqueued = record {
  address = req.address;
  v_address = req.v_address;
  ip = req.ip;
  instr_id = req.instr_id;
  data_promise = no_promise;
  cpu = req.cpu;
  access = req.access;
  prefetch_from_this = req.prefetch_from_this;
  time_enqueued = time_enqueued;
  instr_depend_on_me = req.instr_depend_on_me;
  to_return = req.to_return;
}

-- `event_counter<std::pair<access_type, cpu>>`
abbrev pub EventCounter : Type 0
EventCounter = AccessType → ℕ → ℕ

abbrev pub same_access : AccessType → AccessType → Bool
same_access load load = true
same_access rfo rfo = true
same_access prefetch prefetch = true
same_access write write = true
same_access translation translation = true
same_access a b = false

abbrev pub increment : AccessType → ℕ → EventCounter → EventCounter
increment a cpu c a' cpu' = if same_access a' a && cpu' == cpu then c a' cpu' + 1 else c a' cpu'

-- `cache_stats`
pub record CacheStats : Type 0 where
  pub pf_requested : ℕ
  pub pf_issued : ℕ
  pub pf_useful : ℕ
  pub pf_useless : ℕ
  pub pf_fill : ℕ
  pub hits : EventCounter
  pub misses : EventCounter
  pub mshr_merge : EventCounter
  pub mshr_return : EventCounter

pub record Configuration : Type 0 where
  pub num_set : ℕ
  pub num_way : ℕ
  pub mshr_size : ℕ
  pub pq_size : ℕ
  pub hit_latency : ℕ
  pub fill_latency : ℕ
  pub offset_bits : ℕ
  pub max_tag : ℕ
  pub max_fill : ℕ
  pub clock_period : ℕ
  pub prefetch_as_load : Bool
  pub match_offset_bits : Bool
  pub virtual_prefetch : Bool
  pub pref_activate_mask : List AccessType

-- A cache with the state of its modules. Way w of set i is block i * NUM_WAY + w; `upper_order` is the
-- vector of the upper levels, by their numbers.
pub record Cache (M : Type 0) : Type 0 where
  pub block : ℕ → Block
  pub mshr : List Mshr
  pub inflight_writes : List Mshr
  pub internal_pq : List TagLookup
  pub inflight_tag_check : List TagLookup
  pub translation_stash : List TagLookup
  pub upper_levels : ℕ → Channel
  pub upper_order : List ℕ
  pub lower_level : Channel
  pub lower_translate : Option Channel
  pub cpu : ℕ
  pub current_time : ℕ
  pub warmup : Bool
  pub sim_stats : CacheStats
  pub modules : M

-- What a hook of the prefetcher does: it returns metadata, or calls `prefetch_line` and goes on by the
-- answer.
pub data Hook (M : Type 0) : Type 0 where
  finished : M → ℕ → Hook M
  requests : ℕ → Bool → ℕ → (Bool → Hook M) → Hook M

-- The hooks of the modules, which can read the cache.
pub record Modules (M : Type 0) : Type 0 where
  pub find_victim : Cache M → ℕ → ℕ → ℕ → ℕ → ℕ → AccessType → ℕ × M
  pub update_replacement_state : Cache M → ℕ → ℕ → ℕ → ℕ → ℕ → AccessType → Bool → M
  pub replacement_cache_fill : Cache M → ℕ → ℕ → ℕ → ℕ → ℕ → ℕ → AccessType → M
  pub prefetcher_cache_operate : Cache M → ℕ → ℕ → Bool → Bool → AccessType → ℕ → Hook M
  pub prefetcher_cache_fill : Cache M → ℕ → ℕ → ℕ → Bool → ℕ → ℕ → Hook M
  pub prefetcher_cycle_operate : Cache M → Hook M

module _ (k : Configuration) where
  abbrev pub get_set_index : ℕ → ℕ
  get_set_index address = address / 2 ^ k.offset_bits % 2 ^ lg2 32 k.num_set

  -- The index of a way in `block`.
  abbrev pub index_of : ℕ → ℕ → ℕ
  index_of address way = get_set_index address * k.num_way + way

  abbrev pub matches_address : ℕ → ℕ → Bool
  matches_address addr address = address / 2 ^ k.offset_bits == addr / 2 ^ k.offset_bits

  abbrev pub module_address : ℕ → ℕ → ℕ
  module_address address v_address =
      let shamt = if k.match_offset_bits then 0 else k.offset_bits in
      (if k.virtual_prefetch then v_address else address) / 2 ^ shamt * 2 ^ shamt

  -- A response to each of the upper levels.
  abbrev pub respond : Response → List ℕ → (ℕ → Channel) → ℕ → Channel
  respond response [] levels = levels
  respond response (ul ∷ uls) levels =
      respond response uls (
        update levels ul
          (record (levels ul) { returned = push_last (levels ul).returned response }))
