-- ===== src/Cache/Finish.antt =====
-- ChampSim/src/cache.cc: what a cache does with the responses of the lower level and of the translation.
-- A page has 2 ^ page_bits bytes.
use cs230_branch_predictor.Prelude.{
  ℕ, ◌+◌, ◌*◌, ◌/◌, ◌%◌, ◌^◌, Bool, true, false, not, ◌==◌, ◌&&◌, List, [], ◌∷◌, ◌++◌, ◌>>=◌,
  Option, none, some, if◌then◌else◌, update,
}
use cs230_branch_predictor.Prelude.Search.{find_first}
use cs230_branch_predictor.Prelude.Arrays.{find_entry, set_elem, keep, map}
use cs230_branch_predictor.Replacement.{load}
use cs230_branch_predictor.Channel.{Channel, Request, Response, add_rq}
use cs230_branch_predictor.Cache.{
  Mshr, TagLookup, Promise, has_unknown_readiness, Configuration, Cache, index_of, matches_address,
}

-- The entry is swapped with the first that has not returned; a swap with the end is undefined.
unfoldable pub return_mshr : (Mshr → Bool) → Promise → List Mshr → Option (List Mshr)
return_mshr test promise ms = do
  mshr_entry ← find_entry test ms
  first_unreturned ← find_entry (λ m. has_unknown_readiness m.data_promise) ms
  some (
      set_elem (set_elem ms mshr_entry.0 first_unreturned.1) first_unreturned.0
        (record mshr_entry.1 { data_promise = promise }))

-- The page of a virtual address.
abbrev pub page_number : ℕ → ℕ → ℕ
page_number page_bits address = address / 2 ^ page_bits

abbrev pub matches_vpage : ℕ → Response → TagLookup → Bool
matches_vpage page_bits packet entry =
    page_number page_bits entry.v_address == page_number page_bits packet.v_address
    && not entry.is_translated

abbrev pub mark_translated : ℕ → Response → TagLookup → TagLookup
mark_translated page_bits packet entry = record entry {
  address =
      page_number page_bits packet.block_data * 2 ^ page_bits + entry.v_address % 2 ^ page_bits;
  is_translated = true;
}

abbrev pub mark_matching : ℕ → Response → TagLookup → TagLookup
mark_matching page_bits packet entry =
    if matches_vpage page_bits packet entry then mark_translated page_bits packet entry else entry

-- Behind the entries that are translated at its front, the stash has those of the page first.
abbrev pub restart : ℕ → Response → List TagLookup → List TagLookup
restart page_bits packet [] = []
restart page_bits packet (x ∷ xs) =
    if x.is_translated
    then x ∷ restart page_bits packet xs
    else map (mark_translated page_bits packet) (keep (matches_vpage page_bits packet) (x ∷ xs))
      ++ keep (λ y. not (matches_vpage page_bits packet y)) (x ∷ xs)

abbrev pub translation_packet : TagLookup → Request
translation_packet entry = record {
  forward_checked = false;
  is_translated = true;
  response_requested = true;
  access = load;
  pf_metadata = 0;
  cpu = entry.cpu;
  address = entry.address;
  v_address = entry.v_address;
  block_data = entry.block_data;
  instr_id = entry.instr_id;
  ip = entry.ip;
  instr_depend_on_me = entry.instr_depend_on_me;
}

-- `lower_translate` is only read for an entry that is not translated; it is then not null.
abbrev pub issue_translation : TagLookup → Option Channel → Option (TagLookup × Option Channel)
issue_translation entry lower =
    if not entry.translate_issued && not entry.is_translated
    then elim lower [
      | none ↦ none
      | some c ↦
          let (c', success) = add_rq (translation_packet entry) c in
          some (record entry { translate_issued = success }, some c')
    ]
    else some (entry, lower)

module _ {M : Type 0} (k : Configuration) where
  unfoldable pub finish_packet : Response → Cache M → Option (Cache M)
  finish_packet packet s = do
    let ready = s.current_time + (if s.warmup then 0 else k.fill_latency)
    let promise : Promise = record {
      block_data = packet.block_data;
      pf_metadata = packet.pf_metadata;
      event_cycle = some ready;
    }
    mshr' ← return_mshr (λ m. matches_address k packet.address m.address) promise s.mshr
    some (record s { mshr = mshr' })

  unfoldable pub finish_translation : ℕ → Response → Cache M → Cache M
  finish_translation page_bits packet s = record s {
    translation_stash = restart page_bits packet s.translation_stash;
    inflight_tag_check = map (mark_matching page_bits packet) s.inflight_tag_check;
  }

  -- The way is NUM_WAY where no block has the address. A block need not be valid to be found.
  abbrev pub invalidate_way : ℕ → Cache M → Option ℕ → Cache M × ℕ
  invalidate_way inval_addr s none = (s, k.num_way)
  invalidate_way inval_addr s (some way) = (
    record s {
      block =
          update s.block (index_of k inval_addr way)
            (record (s.block (index_of k inval_addr way)) { valid = false });
    },
    way,
  )

  unfoldable pub invalidate_entry : ℕ → Cache M → Cache M × ℕ
  invalidate_entry inval_addr s = invalidate_way inval_addr s (
      find_first (λ way. matches_address k inval_addr (s.block (index_of k inval_addr way)).address)
        k.num_way 0)
