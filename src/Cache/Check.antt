-- ===== src/Cache/Check.antt =====
-- ChampSim/src/cache.cc: `try_hit`, `handle_miss` and `handle_write`.
use cs230_branch_predictor.Prelude.{
  ℕ, ◌+◌, Bool, true, false, not, ◌==◌, ◌&&◌, ◌||◌, Option, none, some, if◌then◌else◌, update,
}
use cs230_branch_predictor.Prelude.Search.{find_first}
use cs230_branch_predictor.Prelude.Sequences.{length, push_last}
use cs230_branch_predictor.Prelude.Arrays.{find_entry, set_elem}
use cs230_branch_predictor.Replacement.{AccessType, prefetch, write, rfo}
use cs230_branch_predictor.Channel.{Request, Response, add_rq, add_pq}
use cs230_branch_predictor.Channel.Collision.{set_union}
use cs230_branch_predictor.Cache.{
  Mshr, TagLookup, make_mshr, CacheStats, Configuration, Cache, Modules, same_access, increment,
  get_set_index, index_of, matches_address, module_address, respond,
}
use cs230_branch_predictor.Cache.Prefetch.{run_hook, should_activate_prefetcher}

abbrev pub is_prefetch : AccessType → Bool
is_prefetch a = same_access a prefetch

-- `mshr_type::merge`
unfoldable pub merge : Mshr → Mshr → Mshr
merge predecessor successor =
    record (if is_prefetch successor.access then predecessor else successor) {
      time_enqueued =
          if not (is_prefetch successor.access) && is_prefetch predecessor.access
          then successor.time_enqueued
          else predecessor.time_enqueued;
      instr_depend_on_me = set_union predecessor.instr_depend_on_me successor.instr_depend_on_me;
      to_return = set_union predecessor.to_return successor.to_return;
      data_promise = predecessor.data_promise;
    }

-- The request of `mshr_and_forward_packet`.
abbrev pub forward_packet : TagLookup → Request
forward_packet pkt = record {
  forward_checked = false;
  is_translated = true;
  response_requested = not pkt.prefetch_from_this || not pkt.skip_fill;
  access = if same_access pkt.access write then rfo else pkt.access;
  pf_metadata = pkt.pf_metadata;
  cpu = pkt.cpu;
  address = pkt.address;
  v_address = pkt.v_address;
  block_data = pkt.block_data;
  instr_id = pkt.instr_id;
  ip = pkt.ip;
  instr_depend_on_me = pkt.instr_depend_on_me;
}

module _ {M : Type 0} (k : Configuration) (h : Modules M) where
  abbrev pub find_hit : TagLookup → Cache M → Option ℕ
  find_hit pkt s =
      find_first
        (λ way.
          (s.block (index_of k pkt.address way)).valid
          && matches_address k pkt.address (s.block (index_of k pkt.address way)).address)
        k.num_way 0

  -- The hooks of a hit in the way, or of a miss where the way is NUM_WAY.
  abbrev pub check_hooks : TagLookup → ℕ → Bool → Bool → Cache M → Cache M × ℕ
  check_hooks pkt way hit useful_prefetch s =
      let address = module_address k pkt.address pkt.v_address in
      let (s', metadata) =
        if should_activate_prefetcher k pkt
        then run_hook k
            (h.prefetcher_cache_operate s address pkt.ip hit useful_prefetch pkt.access
              pkt.pf_metadata)
            s
        else (s, pkt.pf_metadata) in
      (
        record s' {
          modules =
              h.update_replacement_state s' pkt.cpu (get_set_index k pkt.address) way address pkt.ip
                pkt.access hit;
        },
        metadata,
      )

  abbrev pub count_useful : Bool → CacheStats → CacheStats
  count_useful useful stats =
      if useful then record stats { pf_useful = stats.pf_useful + 1 } else stats

  abbrev pub serve_hit : TagLookup → ℕ → Bool → ℕ → Cache M → Cache M
  serve_hit pkt way useful_prefetch metadata s =
      let b = s.block (index_of k pkt.address way) in
      let response : Response = record {
        address = pkt.address;
        v_address = pkt.v_address;
        block_data = b.block_data;
        pf_metadata = metadata;
        instr_depend_on_me = pkt.instr_depend_on_me;
      } in
      record s {
        sim_stats =
            count_useful useful_prefetch
              (record s.sim_stats { hits = increment pkt.access pkt.cpu s.sim_stats.hits });
        upper_levels = respond k response pkt.to_return s.upper_levels;
        block = update s.block (index_of k pkt.address way) (record b {
          dirty = b.dirty || same_access pkt.access write;
          prefetch_bit = if useful_prefetch then false else b.prefetch_bit;
        });
      }

  abbrev pub check_way : TagLookup → Cache M → Option ℕ → Cache M × Bool
  check_way pkt s none = ((check_hooks pkt k.num_way false false s).0, false)
  check_way pkt s (some way) =
      let useful_prefetch =
        (s.block (index_of k pkt.address way)).prefetch_bit && not pkt.prefetch_from_this in
      let (s', metadata) = check_hooks pkt way true useful_prefetch s in
      (serve_hit pkt way useful_prefetch metadata s', true)

  unfoldable pub try_hit : TagLookup → Cache M → Cache M × Bool
  try_hit pkt s = check_way pkt (record s { cpu = pkt.cpu }) (find_hit pkt s)

  abbrev pub count_miss : TagLookup → Cache M → Cache M
  count_miss pkt s = record s {
    sim_stats = record s.sim_stats { misses = increment pkt.access pkt.cpu s.sim_stats.misses };
  }

  -- A miss that is in flight is merged.
  abbrev pub merge_miss : TagLookup → ℕ × Mshr → Cache M → Cache M
  merge_miss pkt (i, entry) s =
      let useful =
        (is_prefetch entry.access && not (is_prefetch pkt.access)) && entry.prefetch_from_this in
      let stats = count_useful useful s.sim_stats in
      record s {
        sim_stats = record stats { mshr_merge = increment pkt.access pkt.cpu stats.mshr_merge };
        mshr = set_elem s.mshr i (merge entry (make_mshr pkt s.current_time));
      }

  -- A miss that is not goes to the lower level, which may refuse it.
  abbrev pub send_miss : TagLookup → Cache M → Cache M × Bool
  send_miss pkt s =
      let send_to_rq = k.prefetch_as_load || not (is_prefetch pkt.access) in
      let fwd_pkt = forward_packet pkt in
      let (lower, success) =
        if send_to_rq then add_rq fwd_pkt s.lower_level else add_pq fwd_pkt s.lower_level in
      let s' = record s { lower_level = lower } in
      if success
      then (
        if fwd_pkt.response_requested
            then record s' { mshr = push_last s'.mshr (make_mshr pkt s'.current_time) }
            else s',
        true,
      )
      else (s', false)

  abbrev pub miss_at : TagLookup → Cache M → Option (ℕ × Mshr) → Cache M × Bool
  miss_at pkt s (some found) = (count_miss pkt (merge_miss pkt found s), true)
  miss_at pkt s none =
      if length s.mshr == k.mshr_size
      then (s, false)
      else (let (s', success) = send_miss pkt s in
          if success then (count_miss pkt s', true) else (s', false))

  unfoldable pub handle_miss : TagLookup → Cache M → Cache M × Bool
  handle_miss pkt s =
      miss_at pkt (record s { cpu = pkt.cpu })
        (find_entry (λ m. matches_address k pkt.address m.address) s.mshr)

  unfoldable pub handle_write : TagLookup → Cache M → Cache M × Bool
  handle_write pkt s =
      let entry = make_mshr pkt s.current_time in
      let ready = s.current_time + (if s.warmup then 0 else k.fill_latency) in
      (
        count_miss pkt (record s {
          inflight_writes = push_last s.inflight_writes (record entry {
            data_promise = record entry.data_promise { event_cycle = some ready };
          });
        }),
        true,
      )

  -- `do_handle_miss`
  abbrev pub do_handle_miss : TagLookup → Cache M → Cache M × Bool
  do_handle_miss pkt s =
      if same_access pkt.access write && not k.match_offset_bits
      then handle_write pkt s
      else handle_miss pkt s
