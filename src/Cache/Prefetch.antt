-- ===== src/Cache/Prefetch.antt =====
-- ChampSim/src/cache.cc: `prefetch_line`, and a hook of the prefetcher that calls it.
use cs230_branch_predictor.Prelude.{
  ℕ, ◌+◌, Bool, true, false, not, leb, List, [], ◌∷◌, if◌then◌else◌,
}
use cs230_branch_predictor.Prelude.Sequences.{length, push_last}
use cs230_branch_predictor.Replacement.{AccessType, prefetch}
use cs230_branch_predictor.Channel.{Request}
use cs230_branch_predictor.Cache.{
  TagLookup, tag_lookup, Configuration, Cache, Hook, finished, requests, same_access,
}

-- The packet of a prefetch: the fields that are not set have the values of `request`.
abbrev pub prefetch_packet : Configuration → ℕ → ℕ → ℕ → Request
prefetch_packet k cpu pf_addr prefetch_metadata = record {
  forward_checked = false;
  is_translated = not k.virtual_prefetch;
  response_requested = true;
  access = prefetch;
  pf_metadata = prefetch_metadata;
  cpu = cpu;
  address = pf_addr;
  v_address = if k.virtual_prefetch then pf_addr else 0;
  block_data = 0;
  instr_id = 0;
  ip = 0;
  instr_depend_on_me = [];
}

abbrev pub any_access : AccessType → List AccessType → Bool
any_access a [] = false
any_access a (x ∷ xs) = if same_access x a then true else any_access a xs

abbrev pub should_activate_prefetcher : Configuration → TagLookup → Bool
should_activate_prefetcher k pkt =
    if pkt.prefetch_from_this then false else any_access pkt.access k.pref_activate_mask

module _ {M : Type 0} (k : Configuration) where
  unfoldable pub prefetch_line : ℕ → Bool → ℕ → Cache M → Cache M × Bool
  prefetch_line pf_addr fill_this_level prefetch_metadata s =
      let s' = record s {
        sim_stats = record s.sim_stats { pf_requested = s.sim_stats.pf_requested + 1 };
      } in
      if leb k.pq_size (length s.internal_pq) then (s', false) else (
        record s' {
          internal_pq = push_last s'.internal_pq (
              tag_lookup (prefetch_packet k s'.cpu pf_addr prefetch_metadata) true
                (not fill_this_level));
          sim_stats = record s'.sim_stats { pf_issued = s'.sim_stats.pf_issued + 1 };
        },
        true,
      )

  -- The calls of a hook, and the metadata that it returns.
  abbrev pub run_hook : Hook M → Cache M → Cache M × ℕ
  run_hook (finished m metadata) s = (record s { modules = m }, metadata)
  run_hook (requests pf_addr fill_this_level prefetch_metadata next) s =
      let (s', answer) = prefetch_line pf_addr fill_this_level prefetch_metadata s in
      run_hook (next answer) s'
