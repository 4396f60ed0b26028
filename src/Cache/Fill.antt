-- ===== src/Cache/Fill.antt =====
-- ChampSim/src/cache.cc: `handle_fill`. An assertion that fails is `none`.
use cs230_branch_predictor.Prelude.{
  ℕ, ◌+◌, Bool, true, false, not, leb, ltb, ◌&&◌, ◌||◌, [], Option, none, some, if◌then◌else◌,
  update,
}
use cs230_branch_predictor.Prelude.Search.{find_first}
use cs230_branch_predictor.Replacement.{prefetch, write}
use cs230_branch_predictor.Channel.{Request, Response, add_wq}
use cs230_branch_predictor.Cache.{
  Block, Mshr, Configuration, Cache, Modules, same_access, increment, get_set_index, index_of,
  module_address, respond,
}
use cs230_branch_predictor.Cache.Prefetch.{run_hook}

abbrev pub fill_block : Mshr → ℕ → Block
fill_block mshr metadata = record {
  valid = true;
  prefetch_bit = mshr.prefetch_from_this;
  dirty = same_access mshr.access write;
  address = mshr.address;
  v_address = mshr.v_address;
  block_data = mshr.data_promise.block_data;
  pf_metadata = metadata;
}

abbrev pub writeback_packet : Mshr → Block → Request
writeback_packet fill_mshr way = record {
  forward_checked = false;
  is_translated = true;
  response_requested = false;
  access = write;
  pf_metadata = way.pf_metadata;
  cpu = fill_mshr.cpu;
  address = way.address;
  v_address = 0;
  block_data = way.block_data;
  instr_id = fill_mshr.instr_id;
  ip = 0;
  instr_depend_on_me = [];
}

module _ {M : Type 0} (k : Configuration) (h : Modules M) where
  -- The way that is not valid, or that of the replacement policy; NUM_WAY is a bypass.
  abbrev pub choose_way : Mshr → Cache M → Option ℕ → Cache M × ℕ
  choose_way m s (some way) = (s, way)
  choose_way m s none =
      let (way, modules') =
        h.find_victim s m.cpu m.instr_id (get_set_index k m.address) m.ip m.address m.access in
      (record s { modules = modules' }, way)

  abbrev pub find_way : Mshr → Cache M → Cache M × ℕ
  find_way m s =
      choose_way m s
        (find_first (λ way. not (s.block (index_of k m.address way)).valid) k.num_way 0)

  -- A block that is valid and dirty goes to the lower level, if that takes it.
  abbrev pub write_back : Mshr → ℕ → Cache M → Cache M × Bool
  write_back m way s =
      let b = s.block (index_of k m.address way) in
      if ltb way k.num_way && (b.valid && b.dirty)
      then (let (lower, success) = add_wq (writeback_packet m b) s.lower_level in
          (record s { lower_level = lower }, success))
      else (s, true)

  -- The hooks of the modules.
  abbrev pub fill_hooks : Mshr → ℕ → Cache M → Cache M × ℕ
  fill_hooks m way s =
      let b = s.block (index_of k m.address way) in
      let set = get_set_index k m.address in
      let address = module_address k m.address m.v_address in
      let evicting =
        if ltb way k.num_way && b.valid then module_address k b.address b.v_address else 0 in
      let (s', metadata) =
        run_hook k
          (h.prefetcher_cache_fill s address set way (same_access m.access prefetch) evicting
            m.data_promise.pf_metadata)
          s in
      (
        record s' {
          modules = h.replacement_cache_fill s' m.cpu set way address m.ip evicting m.access;
        },
        metadata,
      )

  -- The block is written, unless the fill bypasses.
  abbrev pub put_block : Mshr → ℕ → ℕ → Cache M → Cache M
  put_block m way metadata s =
      let b = s.block (index_of k m.address way) in
      let stats = s.sim_stats in
      if ltb way k.num_way
      then record s {
        block = update s.block (index_of k m.address way) (fill_block m metadata);
        sim_stats = record stats {
          pf_useless = if b.valid && b.prefetch_bit then stats.pf_useless + 1 else stats.pf_useless;
          pf_fill = if same_access m.access prefetch then stats.pf_fill + 1 else stats.pf_fill;
        };
      }
      else s

  -- The counter and the responses.
  abbrev pub finish_fill : Mshr → ℕ → Cache M → Cache M
  finish_fill m metadata s =
      let response : Response = record {
        address = m.address;
        v_address = m.v_address;
        block_data = m.data_promise.block_data;
        pf_metadata = metadata;
        instr_depend_on_me = m.instr_depend_on_me;
      } in
      record s {
        sim_stats = record s.sim_stats {
          mshr_return = increment m.access m.cpu s.sim_stats.mshr_return;
        };
        upper_levels = respond k response m.to_return s.upper_levels;
      }

  abbrev pub install : Mshr → ℕ → Cache M → Cache M
  install m way s =
      let (s', metadata) = fill_hooks m way s in
      finish_fill m metadata (put_block m way metadata s')

  abbrev pub fill_at : Mshr → Cache M × ℕ → Option (Cache M × Bool)
  fill_at m (s, way) =
      if leb way k.num_way && (ltb way k.num_way || not (same_access m.access write))
      then (let (s', success) = write_back m way s in
          some (if success then (install m way s', true) else (s', false)))
      else none

  unfoldable pub handle_fill : Mshr → Cache M → Option (Cache M × Bool)
  handle_fill m s = fill_at m (find_way m (record s { cpu = m.cpu }))
