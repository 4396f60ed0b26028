-- ===== src/Cache/Bounds.antt =====
-- ChampSim/src/cache.cc: the bounds of the MSHRs and of the prefetch queue, and lookups and misses
-- under them.
use cs230_branch_predictor.Prelude.{
  ℕ, ◌/◌, ◌^◌, ◌≤◌, ◌≡◌, ◌≢◌, refl, arith, Bool, true, false, not, leb, ◌==◌, ◌||◌, List, Option,
  none, some, if◌then◌else◌, if_cases,
}
use cs230_branch_predictor.Prelude.Sequences.{length, length-push_last}
use cs230_branch_predictor.Prelude.Arrays.{
  get_elem?, find_entry, IsFound, find_entry-IsFound, length-set_elem, IsUnique, push_last-IsUnique,
  set_elem-IsUnique,
}
use cs230_branch_predictor.Channel.{Channel, add_rq, add_pq}
use cs230_branch_predictor.Cache.{
  Mshr, TagLookup, tag_lookup, make_mshr, module_address, Configuration, Cache, Hook, finished,
  requests, Modules, matches_address,
}
use cs230_branch_predictor.Cache.Prefetch.{
  prefetch_packet, prefetch_line, run_hook, should_activate_prefetcher,
}
use cs230_branch_predictor.Cache.Check.{
  is_prefetch, merge, find_hit, check_hooks, check_way, try_hit, merge_miss, send_miss, miss_at,
  handle_miss, forward_packet,
}

-- The block that an MSHR waits for.
abbrev pub block_of : Configuration → Mshr → ℕ
block_of k m = m.address / 2 ^ k.offset_bits

pub record Fits (k : Configuration) (mshr : List Mshr) (pq : List TagLookup)
    (lower : Option Channel) : Type 0 where
  pub mshr_room : length mshr ≤ k.mshr_size
  pub pq_room : length pq ≤ k.pq_size
  pub unique : IsUnique (block_of k) mshr
  pub translates : (c : Channel) × (lower ≡ some c)

abbrev pub IsValid : {M : Type 0} → Configuration → Cache M → Type 0
IsValid k s = Fits k s.mshr s.internal_pq s.lower_translate

-- A merge keeps the block.
pub merge-block :
    (k : Configuration) (a b : Mshr)
    → block_of k a ≡ block_of k b
    → block_of k a ≡ block_of k (merge a b)
unfolding merge
merge-block k a b e =
    if_cases (λ m. block_of k a ≡ block_of k m) (is_prefetch b.access) (λ _. refl) (λ _. e)

module _ {M : Type 0} (k : Configuration) (h : Modules M) where
  pub prefetch_line-IsValid :
      (pf_addr : ℕ) (fill : Bool) (metadata : ℕ) (s : Cache M)
      → IsValid k s
      → IsValid k (prefetch_line k pf_addr fill metadata s).0
  unfolding prefetch_line
  prefetch_line-IsValid pf_addr fill metadata s v =
      if_cases {A = Cache M × Bool} (λ r. IsValid k r.0) (leb k.pq_size (length s.internal_pq))
        (λ full. v)
        (λ room. record {
          mshr_room = v.mshr_room;
          translates = v.translates;
          pq_room = ground (
            arith,
            length-push_last s.internal_pq
                (tag_lookup (prefetch_packet k s.cpu pf_addr metadata) true (not fill)),
          );
          unique = v.unique;
        })

  pub run_hook-IsValid :
      (hook : Hook M) (s : Cache M) → IsValid k s → IsValid k (run_hook k hook s).0
  run_hook-IsValid (finished m metadata) s v = v
  run_hook-IsValid (requests pf_addr fill metadata next) s v =
      let r = prefetch_line k pf_addr fill metadata s in
      run_hook-IsValid (next r.1) r.0 (prefetch_line-IsValid pf_addr fill metadata s v)

  check_hooks-IsValid :
      (pkt : TagLookup) (way : ℕ) (hit useful : Bool) (s : Cache M)
      → IsValid k s
      → IsValid k (check_hooks k h pkt way hit useful s).0
  check_hooks-IsValid pkt way hit useful s v =
      if_cases {A = Cache M × ℕ} (λ r. IsValid k r.0) (should_activate_prefetcher k pkt)
        (λ _.
          run_hook-IsValid
            (h.prefetcher_cache_operate s (module_address k pkt.address pkt.v_address) pkt.ip hit
              useful pkt.access pkt.pf_metadata)
            s v)
        (λ _. v)

  pub try_hit-IsValid :
      (pkt : TagLookup) (s : Cache M) → IsValid k s → IsValid k (try_hit k h pkt s).0
  unfolding try_hit
  try_hit-IsValid pkt s v = checked (find_hit k h pkt s)
    where
      checked : (o : Option ℕ) → IsValid k (check_way k h pkt (record s { cpu = pkt.cpu }) o).0
      checked none = check_hooks-IsValid pkt k.num_way false false (record s { cpu = pkt.cpu }) v
      checked (some way) = check_hooks-IsValid pkt way true _ (record s { cpu = pkt.cpu }) v

  merge_miss-IsValid :
      (pkt : TagLookup) (i : ℕ) (entry : Mshr) (s : Cache M)
      → get_elem? s.mshr i ≡ some entry
      → matches_address k pkt.address entry.address ≡ true
      → IsValid k s
      → IsValid k (merge_miss k h pkt (i, entry) s)
  merge_miss-IsValid pkt i entry s found same v = record {
    mshr_room =
        omega (
          arith,
          v.mshr_room,
          length-set_elem s.mshr i (merge entry (make_mshr pkt s.current_time)),
        );
    translates = v.translates;
    pq_room = v.pq_room;
    unique =
        set_elem-IsUnique (block_of k) s.mshr i entry (merge entry (make_mshr pkt s.current_time))
          found (merge-block k entry (make_mshr pkt s.current_time) (ground (arith, same)))
          v.unique;
  }

  send_miss-IsValid :
      (pkt : TagLookup) (s : Cache M)
      → length s.mshr ≢ k.mshr_size
      → ((p : ℕ) (z : Mshr)
          → get_elem? s.mshr p ≡ some z
          → matches_address k pkt.address z.address ≡ false)
      → IsValid k s
      → IsValid k (send_miss k h pkt s).0
  send_miss-IsValid pkt s room fresh v =
      let lower =
        if k.prefetch_as_load || not (is_prefetch pkt.access)
        then add_rq (forward_packet pkt) s.lower_level
        else add_pq (forward_packet pkt) s.lower_level in
      if_cases {A = Cache M × Bool} (λ r. IsValid k r.0) lower.1
        (λ accepted.
          if_cases {A = Cache M} (IsValid k) (forward_packet pkt).response_requested
            (λ asked. record {
              mshr_room =
                  omega
                    (arith, v.mshr_room, length-push_last s.mshr (make_mshr pkt s.current_time));
              translates = v.translates;
              pq_room = v.pq_room;
              unique =
                  push_last-IsUnique (block_of k) s.mshr (make_mshr pkt s.current_time)
                    (λ p z e same. ground (arith, fresh p z e)) v.unique;
            })
            (λ _. v))
        (λ refused. v)

  pub handle_miss-IsValid :
      (pkt : TagLookup) (s : Cache M) → IsValid k s → IsValid k (handle_miss k h pkt s).0
  unfolding handle_miss
  handle_miss-IsValid pkt s v =
      missed (find_entry (λ m. matches_address k pkt.address m.address) s.mshr)
        (find_entry-IsFound (λ m. matches_address k pkt.address m.address) s.mshr)
    where
      missed :
          (o : Option (ℕ × Mshr))
          → IsFound (λ m. matches_address k pkt.address m.address) s.mshr o
          → IsValid k (miss_at k h pkt (record s { cpu = pkt.cpu }) o).0
      missed (some (i, entry)) (found, same, before) =
          merge_miss-IsValid pkt i entry (record s { cpu = pkt.cpu }) found same v
      missed none fresh =
          if_cases {A = Cache M × Bool} (λ r. IsValid k r.0) (length s.mshr == k.mshr_size)
            (λ full. v)
            (λ room.
              let sent =
                send_miss-IsValid pkt (record s { cpu = pkt.cpu }) (ground (arith, room)) fresh v in
              if_cases {A = Cache M × Bool} (λ r. IsValid k r.0)
                (send_miss k h pkt (record s { cpu = pkt.cpu })).1 (λ _. sent) (λ _. sent))
