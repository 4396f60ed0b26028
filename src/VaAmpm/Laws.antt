-- ===== src/VaAmpm/Laws.antt =====
-- ChampSim/prefetcher/va_ampm_lite/va_ampm_lite.cc: the number of prefetches of an access.
use mathlib.Core.Path.{subst}
use cs230_branch_predictor.Prelude.{
  ℕ, zero, suc, ◌+◌, ◌*◌, ◌/◌, ◌^◌, ◌≤◌, ◌≡◌, refl, arith, Bool, true, false, not, ltb, leb, ◌==◌,
  ◌&&◌, Option, none, some, if_cases,
}
use cs230_branch_predictor.Prelude.Sequences.{length, push_last, length-push_last}
use cs230_branch_predictor.LruTable.{check_hit}
use cs230_branch_predictor.Cache.{Configuration, Cache, Hook, finished, requests, tag_lookup}
use cs230_branch_predictor.Cache.Prefetch.{prefetch_packet, prefetch_line, run_hook}
use cs230_branch_predictor.VaAmpm.{
  Region, Regions, new_region, region_projections, max_distance, degree_limit, vpn_of, step, wants,
  mark_prefetch, scan, on_region, prefetcher_cache_operate,
}

-- A hook adds at most n prefetches to the queue of any cache, and only where the calls succeed.
pub data AtMost : ℕ → Hook Regions → Type 0 where
  stops : (n : ℕ) (t : Regions) (metadata : ℕ) → AtMost n (finished t metadata)
  asks :
      (n address : ℕ) (fills : Bool) (metadata : ℕ) (next : Bool → Hook Regions)
      → AtMost n (next true)
      → AtMost (suc n) (next false)
      → AtMost (suc n) (requests address fills metadata next)

AtMost-mono : (n m : ℕ) (hook : Hook Regions) → n ≤ m → AtMost n hook → AtMost m hook
AtMost-mono n m hook le (stops k t metadata) = stops m t metadata
AtMost-mono n zero hook le (asks k address fills metadata next a b) = absurd (omega arith)
AtMost-mono n (suc m) hook le (asks k address fills metadata next a b) =
    asks m address fills metadata next (AtMost-mono k m (next true) (omega arith) a)
      (AtMost-mono (suc k) (suc m) (next false) le b)

asks-AtMost :
    (left n address metadata : ℕ) (fills : Bool) (next : Bool → Hook Regions)
    → AtMost (left + n) (next true)
    → AtMost (suc left + n) (next false)
    → AtMost (suc left + n) (requests address fills metadata next)
asks-AtMost left n address metadata fills next a b =
    let more : suc (left + n) ≡ suc left + n = omega arith in
    let less : suc left + n ≡ suc (left + n) = omega arith in
    subst (λ m. AtMost m (requests address fills metadata next)) more
      (asks (left + n) address fills metadata next a (subst (λ m. AtMost m (next false)) less b))

module _ (width block_bits page_blocks : ℕ) (fills : Bool) (metadata block : ℕ) where
  -- With so many prefetches left in this direction and n in what comes after.
  scan-AtMost :
      (forward : Bool) (rounds i issued left n : ℕ) (rest : Regions → Hook Regions) (t : Regions)
      → issued + left ≡ degree_limit
      → ((t' : Regions) → AtMost n (rest t'))
      → AtMost
          (left + n)
          (scan width block_bits page_blocks fills forward metadata block rounds i issued rest t)
  scan-AtMost forward zero i issued left n rest t e h =
      AtMost-mono n (left + n) (rest t) (omega arith) (h t)
  scan-AtMost forward (suc rounds) i issued zero n rest t e h =
      let full : ltb issued degree_limit ≡ false = ground arith in
      rw (full, scan) (AtMost-mono n (0 + n) (rest t) (omega arith) (h t))
  scan-AtMost forward (suc rounds) i issued (suc left) n rest t e h =
      let room : ltb issued degree_limit ≡ true = ground arith in
      let r = wants width block_bits page_blocks forward i block t in
      let target = step width block_bits page_blocks forward i block in
      rw (room, scan)
        (found r.0 target (r.1 && not (block == target))
          (scan-AtMost forward rounds (i + 1) (issued + 1) left n rest
            (mark_prefetch width block_bits page_blocks target r.0) (omega arith) h)
          (scan-AtMost forward rounds (i + 1) issued (suc left) n rest r.0 e h))
    where
      found :
          (t' : Regions) (target : ℕ) (b : Bool)
          → AtMost (left + n) (
              scan width block_bits page_blocks fills forward metadata block rounds
                (i + 1)
                (issued + 1)
                rest
                (mark_prefetch width block_bits page_blocks target t'))
          → AtMost (suc left + n) (
              scan width block_bits page_blocks fills forward metadata block rounds
                (i + 1)
                issued
                rest
                t')
          → AtMost (suc left + n) (elim b [
            | true ↦ requests (target * 2 ^ block_bits) fills metadata (λ success. elim success [
              | true ↦
                  scan width block_bits page_blocks fills forward metadata block rounds
                    (i + 1)
                    (issued + 1)
                    rest
                    (mark_prefetch width block_bits page_blocks target t')
              | false ↦
                  scan width block_bits page_blocks fills forward metadata block rounds
                    (i + 1)
                    issued
                    rest
                    t'
            ])
            | false ↦
                scan width block_bits page_blocks fills forward metadata block rounds
                  (i + 1)
                  issued
                  rest
                  t'
          ])
      found t' target false taken again = again
      found t' target true taken again =
          asks-AtMost left n (target * 2 ^ block_bits) metadata fills
            (λ success. elim success [
              | true ↦
                  scan width block_bits page_blocks fills forward metadata block rounds (i + 1)
                    (issued + 1) rest (mark_prefetch width block_bits page_blocks target t')
              | false ↦
                  scan width block_bits page_blocks fills forward metadata block rounds (i + 1)
                    issued rest t'
            ])
            taken again

-- The queue of any cache grows by no more.
run-AtMost :
    (k : Configuration) (n : ℕ) (hook : Hook Regions) (s : Cache Regions)
    → AtMost n hook
    → length (run_hook k hook s).0.internal_pq ≤ length s.internal_pq + n
unfolding prefetch_line
run-AtMost k n hook s (stops m t metadata) = omega arith
run-AtMost k (suc n) hook s (asks m address fills metadata next a b) =
    let s' = record s {
      sim_stats = record s.sim_stats { pf_requested = s.sim_stats.pf_requested + 1 };
    } in
    let packet = tag_lookup (prefetch_packet k s.cpu address metadata) true (not fills) in
    if_cases {A = Cache Regions × Bool}
      (λ r. length (run_hook k (next r.1) r.0).0.internal_pq ≤ length s.internal_pq + suc m)
      (leb k.pq_size (length s.internal_pq)) (λ full. run-AtMost k (suc m) (next false) s' b)
      (λ room.
        let pushed = record s' {
          internal_pq = push_last s'.internal_pq packet;
          sim_stats = record s'.sim_stats { pf_issued = s'.sim_stats.pf_issued + 1 };
        } in
        omega (arith, run-AtMost k m (next true) pushed a, length-push_last s.internal_pq packet))

-- An access adds at most four prefetches to the queue of the cache, two in each direction.
pub operate_hook_lem :
    (width block_bits page_blocks : ℕ) (k : Configuration) (s : Cache Regions) (addr metadata : ℕ)
    → length
        (run_hook k
          (prefetcher_cache_operate width block_bits page_blocks k s addr metadata)
          s).0.internal_pq
      ≤ length s.internal_pq + 2 * degree_limit
unfolding prefetcher_cache_operate
operate_hook_lem width block_bits page_blocks k s addr metadata =
    run-AtMost k 4 (on_region width block_bits page_blocks fills metadata block looked) s
      (regions looked)
  where
    block : ℕ
    block = addr / 2 ^ block_bits

    fills : Bool
    fills = ltb (2 * length s.mshr) k.mshr_size

    looked : Regions × Option Region
    looked =
        check_hit region_projections (new_region (vpn_of width block_bits page_blocks block))
          s.modules

    regions :
        (r : Regions × Option Region)
        → AtMost 4 (on_region width block_bits page_blocks fills metadata block r)
    regions (t, none) = stops 4 _ metadata
    regions (t, some r) =
        scan-AtMost width block_bits page_blocks fills metadata block true max_distance 1 0 2 2 _ _
          refl
          (λ t'.
            scan-AtMost width block_bits page_blocks fills metadata block false max_distance 1 0 2 0
              _ t' refl (λ t''. stops 0 t'' metadata))
