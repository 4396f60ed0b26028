-- ===== src/Cache/Cycle.antt =====
-- ChampSim/src/cache.cc: `operate`, with inc/bandwidth.h and inc/util/span.h as far as it uses them. A
-- null `lower_translate` is `none`; an assertion or an access that fails makes the cycle `none`. A test
-- that `std::stable_partition` applies runs on the elements in their order.
use cs230_branch_predictor.Prelude.{
  ℕ, zero, suc, ◌+◌, ◌-◌, ◌*◌, ◌/◌, min, max, Bool, true, false, not, ltb, leb, ◌&&◌, ◌||◌, List,
  [], ◌∷◌, ◌++◌, ◌>>=◌, Option, none, some, if◌then◌else◌, update,
}
use cs230_branch_predictor.Prelude.Sequences.{length, push_last}
use cs230_branch_predictor.Prelude.Arrays.{keep, map}
use cs230_branch_predictor.Channel.{Channel, Request, Response, Queue}
use cs230_branch_predictor.Channel.Collision.{check_collision}
use cs230_branch_predictor.Cache.{
  Mshr, TagLookup, tag_lookup, is_ready_at, Configuration, Cache, Modules,
}
use cs230_branch_predictor.Cache.Prefetch.{run_hook}
use cs230_branch_predictor.Cache.Fill.{handle_fill}
use cs230_branch_predictor.Cache.Check.{try_hit, do_handle_miss}
use cs230_branch_predictor.Cache.Finish.{finish_packet, finish_translation, issue_translation}

-- The first elements, at most so many, up to the first that fails the test; and the others.
abbrev pub take_while : {A : Type 0} → (A → Bool) → ℕ → List A → List A
take_while test zero xs = []
take_while test (suc n) [] = []
take_while test (suc n) (x ∷ xs) = if test x then x ∷ take_while test n xs else []

abbrev pub drop_while : {A : Type 0} → (A → Bool) → ℕ → List A → List A
drop_while test zero xs = xs
drop_while test (suc n) [] = []
drop_while test (suc n) (x ∷ xs) = if test x then drop_while test n xs else x ∷ xs

-- `is_ready` and `is_translated` of an entry.
abbrev pub is_ready : ℕ → TagLookup → Bool
is_ready time entry = elim (entry.event_cycle) [ none ↦ false | some event ↦ leb event time ]

abbrev pub can_check : ℕ → TagLookup → Bool
can_check time entry = is_ready time entry && entry.is_translated

abbrev pub must_wait : ℕ → TagLookup → Bool
must_wait time entry = is_ready time entry && not entry.is_translated

-- `std::rotate` by one, where there is more than one.
abbrev pub rotate : List ℕ → List ℕ
rotate [] = []
rotate (x ∷ xs) = push_last xs x

-- `initiate_tag_check`, of an entry of this cache and of a request of an upper level.
abbrev pub start_check : ℕ → TagLookup → TagLookup
start_check time entry = record entry { event_cycle = some time }

abbrev pub start_request : ℕ → ℕ → Request → TagLookup
start_request time ul req = record (tag_lookup req false false) {
  event_cycle = some time;
  to_return = if req.response_requested then ul ∷ [] else [];
}

module _ {M : Type 0} (k : Configuration) (h : Modules M) where
  abbrev pub collide_levels : List ℕ → (ℕ → Channel) → ℕ → Channel
  collide_levels [] levels = levels
  collide_levels (ul ∷ uls) levels =
      collide_levels uls (update levels ul (check_collision (levels ul)))

  abbrev pub finish_packets : List Response → Cache M → Option (Cache M)
  finish_packets [] s = some s
  finish_packets (packet ∷ packets) s = do s' ← finish_packet k packet s; finish_packets packets s'

  abbrev pub finish_returns : Cache M → Option (Cache M)
  finish_returns s = do
    s' ← finish_packets s.lower_level.returned s
    some (record s' { lower_level = record s'.lower_level { returned = [] } })

  abbrev pub translate_packets : ℕ → List Response → Cache M → Cache M
  translate_packets page_bits [] s = s
  translate_packets page_bits (packet ∷ packets) s =
      translate_packets page_bits packets (finish_translation k page_bits packet s)

  abbrev pub finish_translations : ℕ → Cache M → Cache M
  finish_translations page_bits s = elim (s.lower_translate) [
    | none ↦ s
    | some c ↦ record (translate_packets page_bits c.returned s) {
      lower_translate = some (record c { returned = [] });
    }
  ]

  -- Fills in order up to the first that fails, with how many succeed.
  abbrev pub fill_all : List Mshr → Cache M → Option (Cache M × ℕ)
  fill_all [] s = some (s, 0)
  fill_all (m ∷ ms) s = do
    r ← handle_fill k h m s
    elim (r.1) [ true ↦ fill_all ms r.0 >>= λ q. some (q.0, q.1 + 1) | false ↦ some (r.0, 0) ]

  abbrev pub is_filled : ℕ → Mshr → Bool
  is_filled time m = is_ready_at time m.data_promise

  abbrev pub drop : {A : Type 0} → ℕ → List A → List A
  drop n xs = drop_while (λ x. true) n xs

  abbrev pub fill_mshrs : Cache M → Option (Cache M × ℕ)
  fill_mshrs s = do
    r ← fill_all (take_while (is_filled s.current_time) k.max_fill s.mshr) s
    some (record r.0 { mshr = drop r.1 r.0.mshr }, r.1)

  abbrev pub fill_writes : ℕ → Cache M → Option (Cache M × ℕ)
  fill_writes bandwidth s = do
    r ← fill_all (take_while (is_filled s.current_time) bandwidth s.inflight_writes) s
    some (record r.0 { inflight_writes = drop r.1 r.0.inflight_writes }, r.1)

  -- The MSHRs and then the writes share the bandwidth of fills.
  abbrev pub perform_fills : Cache M → Option (Cache M × ℕ)
  perform_fills s = do
    r ← fill_mshrs s
    q ← fill_writes (k.max_fill - r.1) r.0
    some (q.0, r.1 + q.1)

  -- One queue of an upper level gives its first requests to the tag checks.
  abbrev pub take_requests : ℕ → (Request → Bool) → ℕ → ℕ → Queue → Queue × List TagLookup
  take_requests time test ul bandwidth q = (
    record q { items = drop_while test bandwidth q.items },
    map (start_request time ul) (take_while test bandwidth q.items),
  )

  -- The three queues of a level; each has the same share, while bandwidth remains.
  abbrev pub initiate_level : ℕ → (Request → Bool) → ℕ → ℕ → ℕ → Cache M → Cache M × ℕ
  initiate_level time test share ul remaining s =
      let c = s.upper_levels ul in
      let (wq', writes) = take_requests time test ul (min share remaining) c.wq in
      let r₁ = remaining - length writes in
      let (rq', reads) = take_requests time test ul (min share r₁) c.rq in
      let r₂ = r₁ - length reads in
      let (pq', prefetches) = take_requests time test ul (min share r₂) c.pq in
      (
        record s {
          upper_levels = update s.upper_levels ul (record c { wq = wq'; rq = rq'; pq = pq' });
          inflight_tag_check = ((s.inflight_tag_check ++ writes) ++ reads) ++ prefetches;
        },
        r₂ - length prefetches,
      )

  abbrev pub initiate_levels : ℕ → (Request → Bool) → ℕ → List ℕ → ℕ → Cache M → Cache M × ℕ
  initiate_levels time test share [] remaining s = (s, remaining)
  initiate_levels time test share (ul ∷ uls) remaining s =
      let (s', remaining') = initiate_level time test share ul remaining s in
      initiate_levels time test share uls remaining' s'

  -- The share of a level.
  abbrev pub per_upper_bandwidth : ℕ → ℕ → ℕ
  per_upper_bandwidth remaining levels = if leb 1 levels then max (remaining / levels) 1 else 0

  -- `bandwidth_from_tag_checks`, clamped.
  abbrev pub tag_bandwidth : Cache M → ℕ
  tag_bandwidth s =
      min (k.max_tag * (k.hit_latency / k.clock_period) - length s.inflight_tag_check) k.max_tag

  -- The stash starts tag checks, then the upper levels, then the prefetch queue; each with the
  -- bandwidth that remains.
  abbrev pub initiate_stash : ℕ → ℕ → Cache M → Cache M × ℕ
  initiate_stash time total s =
      let from_stash = take_while (λ x. x.is_translated) total s.translation_stash in
      (
        record s {
          translation_stash = drop_while (λ x. x.is_translated) total s.translation_stash;
          inflight_tag_check = s.inflight_tag_check ++ map (start_check time) from_stash;
          upper_order = rotate s.upper_order;
        },
        total - length from_stash,
      )

  abbrev pub initiate_own : ℕ → Bool → Cache M × ℕ → Cache M × ℕ
  initiate_own time avail (s, remaining) =
      let own = take_while (λ x. avail || x.is_translated) remaining s.internal_pq in
      (
        record s {
          internal_pq = drop_while (λ x. avail || x.is_translated) remaining s.internal_pq;
          inflight_tag_check = s.inflight_tag_check ++ map (start_check time) own;
        },
        remaining - length own,
      )

  abbrev pub initiate_uppers : ℕ → Bool → Cache M × ℕ → Cache M × ℕ
  initiate_uppers time avail (s, remaining) =
      initiate_levels time (λ q. avail || q.is_translated)
        (per_upper_bandwidth remaining (length s.upper_order)) s.upper_order remaining s

  abbrev pub initiate_checks : Cache M → Cache M × ℕ
  initiate_checks s =
      let time = s.current_time + (if s.warmup then 0 else k.hit_latency) in
      let avail = ltb (length s.translation_stash) k.mshr_size in
      initiate_own time avail (initiate_uppers time avail (initiate_stash time (tag_bandwidth s) s))

  abbrev pub issue_all : List TagLookup → Option Channel → Option (List TagLookup × Option Channel)
  issue_all [] lower = some ([], lower)
  issue_all (x ∷ xs) lower = do
    r ← issue_translation x lower
    q ← issue_all xs r.1
    some (r.0 ∷ q.0, q.1)

  abbrev pub issue_translations : Cache M → Option (Cache M)
  issue_translations s = do
    r ← issue_all s.inflight_tag_check s.lower_translate
    q ← issue_all s.translation_stash r.1
    some (record s { inflight_tag_check = r.0; translation_stash = q.0; lower_translate = q.1 })

  -- Entries that would be ready but for their translation go to the stash.
  abbrev pub stash_waiting : Cache M → Cache M
  stash_waiting s = record s {
    translation_stash = s.translation_stash ++ keep (must_wait s.current_time) s.inflight_tag_check;
    inflight_tag_check = keep (λ x. not (must_wait s.current_time x)) s.inflight_tag_check;
  }

  -- The elements for which an operation on the cache fails, after it ran on each in order.
  abbrev pub run_partition :
      (TagLookup → Cache M → Cache M × Bool) → List TagLookup → Cache M → Cache M × List TagLookup
  run_partition f [] s = (s, [])
  run_partition f (x ∷ xs) s =
      let (s', success) = f x s in
      let (s'', failed) = run_partition f xs s' in (s'', if success then failed else x ∷ failed)

  -- Hits leave the queue, then the misses that are accepted; with how many leave.
  abbrev pub perform_checks : Cache M → Cache M × ℕ
  perform_checks s =
      let ready = take_while (can_check s.current_time) k.max_tag s.inflight_tag_check in
      let rest = drop_while (can_check s.current_time) k.max_tag s.inflight_tag_check in
      let (s₁, misses) = run_partition (try_hit k h) ready s in
      let (s₂, failed) = run_partition (do_handle_miss k h) misses s₁ in
      (record s₂ { inflight_tag_check = failed ++ rest }, length ready - length failed)

  abbrev pub count_returned : Option Channel → ℕ
  count_returned none = 0
  count_returned (some c) = length c.returned

  -- The fills and what comes before them, with the progress.
  abbrev pub operate_fills : ℕ → Cache M → Option (Cache M × ℕ)
  operate_fills page_bits s = do
    s₁ ← finish_returns (record s { upper_levels = collide_levels s.upper_order s.upper_levels })
    r ← perform_fills (finish_translations page_bits s₁)
    some (r.0, length s.lower_level.returned + count_returned s.lower_translate + r.1)

  -- The tag checks, with the bandwidth that they and their start consume and the entries stashed.
  abbrev pub operate_checks : Cache M → Option (Cache M × ℕ)
  operate_checks s = do
    let (s₁, remaining) = initiate_checks s
    s₂ ← issue_translations s₁
    let s₃ = stash_waiting s₂
    let (s₄, checked) = perform_checks s₃
    some (
      (run_hook k (h.prefetcher_cycle_operate s₄) s₄).0,
      (length s₂.inflight_tag_check - length s₃.inflight_tag_check)
          + (tag_bandwidth s - remaining)
          + checked,
    )

  -- `operate`, with the progress that it returns.
  unfoldable pub operate : ℕ → Cache M → Option (Cache M × ℕ)
  operate page_bits s = do
    r ← operate_fills page_bits s
    q ← operate_checks r.0
    some (q.0, r.1 + q.1)
