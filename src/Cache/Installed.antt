-- ===== src/Cache/Installed.antt =====
-- ChampSim/src/cache.cc: what a fill leaves, and that the block it fills is found.
use mathlib.Core.Path.{subst}
use cs230_branch_predictor.Prelude.{
  ℕ, ◌≤◌, ◌<◌, ◌≡◌, refl, sym, ap, ◌∙◌, arith, ◌⊎◌, Bool, true, false, not, leb, ltb, ◌&&◌, ◌||◌,
  Option, none, some, if◌then◌else◌, update, if_cases, inl, inr,
}
use cs230_branch_predictor.Prelude.Sequences.{length, push_last}
use cs230_branch_predictor.Prelude.Search.{find_first, IsFirst, find_first-IsFirst}
use cs230_branch_predictor.Replacement.{AccessType, write, prefetch}
use cs230_branch_predictor.Channel.{Channel, Response, write_queue, occupancy}
use cs230_branch_predictor.Channel.Queues.{add_to_lem}
use cs230_branch_predictor.Cache.{
  Block, Mshr, Configuration, Cache, Hook, finished, requests, Modules, same_access, index_of,
  module_address, get_set_index, respond,
}
use cs230_branch_predictor.Cache.Prefetch.{prefetch_line, run_hook}
use cs230_branch_predictor.Cache.Fill.{
  fill_block, writeback_packet, choose_way, write_back, fill_hooks, put_block, finish_fill, install,
  fill_at, handle_fill,
}

module _ {M : Type 0} (k : Configuration) where
  -- What no hook changes.
  pub record IsSame (s s' : Cache M) : Type 0 where
    pub block : s'.block ≡ s.block
    pub lower_level : s'.lower_level ≡ s.lower_level
    pub upper_levels : s'.upper_levels ≡ s.upper_levels

  prefetch_line-IsSame :
      (pf_addr : ℕ) (fill : Bool) (metadata : ℕ) (s : Cache M)
      → IsSame s (prefetch_line k pf_addr fill metadata s).0
  unfolding prefetch_line
  prefetch_line-IsSame pf_addr fill metadata s =
      if_cases {A = Cache M × Bool} (λ r. IsSame s r.0) (leb k.pq_size (length s.internal_pq))
        (λ _. record { block = refl; lower_level = refl; upper_levels = refl })
        (λ _. record { block = refl; lower_level = refl; upper_levels = refl })

  pub run_hook-IsSame : (hook : Hook M) (s : Cache M) → IsSame s (run_hook k hook s).0
  run_hook-IsSame (finished m metadata) s = record {
    block = refl;
    lower_level = refl;
    upper_levels = refl;
  }
  run_hook-IsSame (requests pf_addr fill metadata next) s =
      let r = prefetch_line k pf_addr fill metadata s in
      let one = prefetch_line-IsSame pf_addr fill metadata s in
      let others = run_hook-IsSame (next r.1) r.0 in
      record {
        block = others.block ∙ one.block;
        lower_level = others.lower_level ∙ one.lower_level;
        upper_levels = others.upper_levels ∙ one.upper_levels;
      }

-- The response of a fill.
abbrev pub fill_response : Mshr → ℕ → Response
fill_response m metadata = record {
  address = m.address;
  v_address = m.v_address;
  block_data = m.data_promise.block_data;
  pf_metadata = metadata;
  instr_depend_on_me = m.instr_depend_on_me;
}

module _ {M : Type 0} (k : Configuration) where
  -- The block is written at its way and no other changes, the levels above have the response, and a
  -- block that was valid and dirty is the last write of the level below.
  pub record InstalledAt (m : Mshr) (way : ℕ) (block₀ : ℕ → Block) (levels₀ : ℕ → Channel)
      (lower₀ : Channel) (s' : Cache M) : Type 0 where
    pub metadata : ℕ
    pub inside : way < k.num_way
    pub block : s'.block ≡ update block₀ (index_of k m.address way) (fill_block m metadata)
    pub upper_levels : s'.upper_levels ≡ respond k (fill_response m metadata) m.to_return levels₀
    pub lower_level :
        (((block₀ (index_of k m.address way)).valid && (block₀ (index_of k m.address way)).dirty
            ≡ false)
          × (s'.lower_level ≡ lower₀))
        ⊎ (((block₀ (index_of k m.address way)).valid && (block₀ (index_of k m.address way)).dirty
              ≡ true)
            × (s'.lower_level.wq.items
                ≡ push_last lower₀.wq.items
                    (writeback_packet m (block₀ (index_of k m.address way)))))

  abbrev pub IsInstalled : Mshr → ℕ → Cache M → Cache M → Type 0
  IsInstalled m way s s' = InstalledAt m way s.block s.upper_levels s.lower_level s'

  -- A fill either finds the writes of the level below full, changes no block and answers nobody, or
  -- installs the block.
  abbrev pub IsFilled : Mshr → Cache M → Cache M × Bool → Type 0
  IsFilled m s r =
      ((r.1 ≡ false)
        × (s.lower_level.wq.size ≤ occupancy s.lower_level.wq)
        × (r.0.block ≡ s.block)
        × (r.0.upper_levels ≡ s.upper_levels))
      ⊎ ((r.1 ≡ true) × ((way : ℕ) × IsInstalled m way s r.0))

module _ {M : Type 0} (k : Configuration) (h : Modules M) where
  -- The level below before a fill at a way and after it.
  abbrev LowerAfter : Mshr → ℕ → Cache M → Channel → Type 0
  LowerAfter m way s lower =
      (((s.block (index_of k m.address way)).valid && (s.block (index_of k m.address way)).dirty
          ≡ false)
        × (lower ≡ s.lower_level))
      ⊎ (((s.block (index_of k m.address way)).valid && (s.block (index_of k m.address way)).dirty
            ≡ true)
          × (lower.wq.items
              ≡ push_last s.lower_level.wq.items
                  (writeback_packet m (s.block (index_of k m.address way)))))

  -- What a write-back does.
  record IsWritten (m : Mshr) (way : ℕ) (s : Cache M) (r : Cache M × Bool) : Type 0 where
    block : r.0.block ≡ s.block
    upper_levels : r.0.upper_levels ≡ s.upper_levels
    success :
        ((r.1 ≡ false) × (s.lower_level.wq.size ≤ occupancy s.lower_level.wq))
        ⊎ ((r.1 ≡ true) × LowerAfter m way s r.0.lower_level)

  write_back-IsWritten :
      (m : Mshr) (way : ℕ) (s : Cache M)
      → way < k.num_way
      → IsWritten m way s (write_back k h m way s)
  write_back-IsWritten m way s inside =
      let b = s.block (index_of k m.address way) in
      if_cases {A = Cache M × Bool} (IsWritten m way s) (ltb way k.num_way && (b.valid && b.dirty))
        (λ dirty. record {
          block = refl;
          upper_levels = refl;
          success = elim (add_to_lem write_queue (writeback_packet m b) s.lower_level) [
            | inl (full, size, kept) ↦ inl (full, size)
            | inr (room, size, added) ↦ inr (room, inr (ground (arith, dirty), added))
          ];
        })
        (λ clean. record {
          block = refl;
          upper_levels = refl;
          success = inr (refl, inl (ground (arith, clean, inside), refl));
        })

  put-IsInstalled :
      (m : Mshr) (way metadata : ℕ) (s t : Cache M)
      → way < k.num_way
      → t.block ≡ s.block
      → t.upper_levels ≡ s.upper_levels
      → LowerAfter m way s t.lower_level
      → IsInstalled k m way s (finish_fill k h m metadata (put_block k h m way metadata t))
  put-IsInstalled m way metadata s t inside block levels lower =
      if_cases {A = Cache M} (λ u. IsInstalled k m way s (finish_fill k h m metadata u))
        (ltb way k.num_way)
        (λ _. record {
          metadata = metadata;
          inside = inside;
          block = ap (λ b. update b (index_of k m.address way) (fill_block m metadata)) block;
          upper_levels = ap (respond k (fill_response m metadata) m.to_return) levels;
          lower_level = lower;
        })
        (λ outside. absurd (ground (arith, inside)))

  install-IsInstalled :
      (m : Mshr) (way : ℕ) (s s' : Cache M)
      → way < k.num_way
      → s'.block ≡ s.block
      → s'.upper_levels ≡ s.upper_levels
      → LowerAfter m way s s'.lower_level
      → IsInstalled k m way s (install k h m way s')
  install-IsInstalled m way s s' inside block levels lower =
      let b = s'.block (index_of k m.address way) in
      let hook : Hook M =
        h.prefetcher_cache_fill s' (module_address k m.address m.v_address)
          (get_set_index k m.address) way (same_access m.access prefetch)
          (if ltb way k.num_way && b.valid then module_address k b.address b.v_address else 0)
          m.data_promise.pf_metadata in
      let ran = run_hook-IsSame k hook s' in
      put-IsInstalled m way (fill_hooks k h m way s').1 s (fill_hooks k h m way s').0 inside
        (ran.block ∙ block) (ran.upper_levels ∙ levels)
        (subst (LowerAfter m way s) (sym ran.lower_level) lower)

  fill_at-IsFilled :
      (m : Mshr) (s : Cache M) (way : ℕ)
      → way < k.num_way
      → (r : Cache M × Bool) × (fill_at k h m (s, way) ≡ some r) × IsFilled k m s r
  fill_at-IsFilled m s way inside =
      let allowed : leb way k.num_way && (ltb way k.num_way || not (same_access m.access write))
          ≡ true =
        ground arith in
      let r = write_back k h m way s in
      rw allowed (_, refl, answered r (write_back-IsWritten m way s inside))
    where
      answered :
          (r : Cache M × Bool)
          → IsWritten m way s r
          → IsFilled k m s (if r.1 then (install k h m way r.0, true) else (r.0, false))
      answered (s', true) w = elim w.success [
        | inl (refused, size) ↦ absurd cc
        | inr (done, lower) ↦
            inr (refl, (way, install-IsInstalled m way s s' inside w.block w.upper_levels lower))
      ]
      answered (s', false) w = elim w.success [
        | inl (refused, size) ↦ inl (refl, size, w.block, w.upper_levels)
        | inr (done, lower) ↦ absurd cc
      ]

  -- Where the victims of the replacement policy are ways of the set, a fill returns. Either the write
  -- queue of the level below was full, no block changed and nobody was answered; or the block
  -- of the MSHR stands in one way and no other changed, all that wait have its data, and a victim
  -- that was valid and dirty is the last write of the level below.
  pub handle_fill_lem :
      ((s : Cache M) (cpu id set ip address : ℕ) (access : AccessType)
        → (h.find_victim s cpu id set ip address access).0 < k.num_way)
      → (m : Mshr) (s : Cache M)
      → (r : Cache M × Bool) × (handle_fill k h m s ≡ some r) × IsFilled k m s r
  unfolding handle_fill
  handle_fill_lem victims m s =
      at_way (find_first (λ way. not (s.block (index_of k m.address way)).valid) k.num_way 0) (
        find_first-IsFirst (λ way. not (s.block (index_of k m.address way)).valid) k.num_way 0
          k.num_way (omega arith))
    where
      at_way :
          (o : Option ℕ)
          → IsFirst (λ way. not (s.block (index_of k m.address way)).valid) 0 k.num_way o
          → (r : Cache M × Bool) × (fill_at k h m (choose_way k h m (record s { cpu = m.cpu }) o)
              ≡ some r)
            × IsFilled k m s r
      at_way (some way) (low, inside, free, before) =
          fill_at-IsFilled m (record s { cpu = m.cpu }) way inside
      at_way none full =
          let victim =
            h.find_victim (record s { cpu = m.cpu }) m.cpu m.instr_id (get_set_index k m.address)
              m.ip m.address m.access in
          fill_at-IsFilled m (record s { cpu = m.cpu; modules = victim.1 }) victim.0
            (victims (record s { cpu = m.cpu }) m.cpu m.instr_id (get_set_index k m.address) m.ip
              m.address m.access)
