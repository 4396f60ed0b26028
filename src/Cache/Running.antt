-- ===== src/Cache/Running.antt =====
-- ChampSim/src/cache.cc: a cycle keeps the bounds of a cache.
use mathlib.Core.Path.{subst}
use cs230_branch_predictor.Prelude.{
  ℕ, ◌+◌, ◌≡◌, refl, sym, arith, Bool, not, ltb, ◌&&◌, ◌||◌, ◌>>=◌, List, [], ◌∷◌, Option, some,
  if◌then◌else◌, if_cases,
}
use cs230_branch_predictor.Prelude.Sequences.{length}
use cs230_branch_predictor.Prelude.Options.{OnSome, Returns, bind-Returns}
use cs230_branch_predictor.Replacement.{write}
use cs230_branch_predictor.Channel.{Channel, Request}
use cs230_branch_predictor.Cache.{TagLookup, Configuration, Cache, Modules, same_access}
use cs230_branch_predictor.Cache.Check.{try_hit, handle_write, do_handle_miss}
use cs230_branch_predictor.Cache.Finish.{issue_translation}
use cs230_branch_predictor.Cache.Cycle.{
  take_while, can_check, finish_returns, finish_translations, perform_fills, initiate_own,
  initiate_uppers, initiate_stash, tag_bandwidth, per_upper_bandwidth, collide_levels,
  count_returned, initiate_level, initiate_levels, initiate_checks, issue_all, issue_translations,
  stash_waiting, run_partition, perform_checks, operate_fills, operate_checks, operate,
}
use cs230_branch_predictor.Cache.Bounds.{
  IsValid, run_hook-IsValid, try_hit-IsValid, handle_miss-IsValid,
}
use cs230_branch_predictor.Cache.Returning.{
  Kept, Answered, dropped_length, finish_returns-OnSome, finish_translations-IsValid,
  perform_fills-Returns, ChoosesWays,
}

module _ {M : Type 0} (k : Configuration) (h : Modules M) where
  initiate_levels-IsValid :
      (time : ℕ) (test : Request → Bool) (share : ℕ) (uls : List ℕ) (remaining : ℕ) (s : Cache M)
      → IsValid k s
      → IsValid k (initiate_levels k h time test share uls remaining s).0
  initiate_levels-IsValid time test share [] remaining s v = v
  initiate_levels-IsValid time test share (ul ∷ uls) remaining s v =
      let r = initiate_level k h time test share ul remaining s in
      initiate_levels-IsValid time test share uls r.1 r.0 v

  run_partition-IsValid :
      (f : TagLookup → Cache M → Cache M × Bool)
      → ((x : TagLookup) (s : Cache M) → IsValid k s → IsValid k (f x s).0)
      → (xs : List TagLookup) (s : Cache M) → IsValid k s
      → IsValid k (run_partition k h f xs s).0
  run_partition-IsValid f keeps [] s v = v
  run_partition-IsValid f keeps (x ∷ xs) s v =
      run_partition-IsValid f keeps xs (f x s).0 (keeps x s v)

  do_handle_miss-IsValid :
      (pkt : TagLookup) (s : Cache M) → IsValid k s → IsValid k (do_handle_miss k h pkt s).0
  unfolding handle_write
  do_handle_miss-IsValid pkt s v =
      if_cases {A = Cache M × Bool} (Answered k h)
        (same_access pkt.access write && not k.match_offset_bits) (λ _. v)
        (λ _. handle_miss-IsValid k h pkt s v)

  perform_checks-IsValid : (s : Cache M) → IsValid k s → IsValid k (perform_checks k h s).0
  perform_checks-IsValid s v =
      let ready = take_while (can_check s.current_time) k.max_tag s.inflight_tag_check in
      let r = run_partition k h (try_hit k h) ready s in
      run_partition-IsValid (do_handle_miss k h) do_handle_miss-IsValid r.1 r.0
        (run_partition-IsValid (try_hit k h) (try_hit-IsValid k h) ready s v)

  own-IsValid :
      (time : ℕ) (avail : Bool) (r : Cache M × ℕ)
      → Kept k h r
      → Kept k h (initiate_own k h time avail r)
  own-IsValid time avail (s, remaining) v = record {
    mshr_room = v.mshr_room;
    pq_room =
        omega (
          arith,
          v.pq_room,
          dropped_length (λ x. avail || x.is_translated) remaining s.internal_pq,
        );
    unique = v.unique;
    translates = v.translates;
  }

  initiate_checks-IsValid : (s : Cache M) → IsValid k s → IsValid k (initiate_checks k h s).0
  initiate_checks-IsValid s v =
      let time = s.current_time + (if s.warmup then 0 else k.hit_latency) in
      let avail = ltb (length s.translation_stash) k.mshr_size in
      let t = initiate_stash k h time (tag_bandwidth k h s) s in
      own-IsValid time avail (initiate_uppers k h time avail t) (
        initiate_levels-IsValid time (λ q. avail || q.is_translated)
          (per_upper_bandwidth k h t.1 (length t.0.upper_order)) t.0.upper_order t.1 t.0 v)

  -- The channel to the translation is there.
  abbrev Linked : Option Channel → Type 0
  Linked lower = (c : Channel) × (lower ≡ some c)

  issue_translation-Returns :
      (x : TagLookup) (c : Channel) → Returns (λ r. Linked r.1) (issue_translation x (some c))
  issue_translation-Returns x c =
      if_cases {A = Option (TagLookup × Option Channel)} (Returns (λ r. Linked r.1))
        (not x.translate_issued && not x.is_translated) (λ _. (_, refl, (_, refl)))
        (λ _. (_, refl, (_, refl)))

  issue_all-Returns :
      (xs : List TagLookup) (lower : Option Channel)
      → Linked lower
      → Returns (λ r. Linked r.1) (issue_all k h xs lower)
  issue_all-Returns [] lower linked = (([], lower), refl, linked)
  issue_all-Returns (x ∷ xs) lower (c, e) =
      bind-Returns (λ r. Linked r.1) (λ r. Linked r.1) (issue_translation x lower)
        (λ r. issue_all k h xs r.1 >>= λ q. some (r.0 ∷ q.0, q.1))
        (subst (λ o. Returns (λ r. Linked r.1) (issue_translation x o)) (sym e)
          (issue_translation-Returns x c))
        (λ r linked.
          bind-Returns (λ r. Linked r.1) (λ r. Linked r.1) (issue_all k h xs r.1)
            (λ q. some (r.0 ∷ q.0, q.1)) (issue_all-Returns xs r.1 linked)
            (λ q linked'. ((r.0 ∷ q.0, q.1), refl, linked')))

  issue_translations-Returns :
      (s : Cache M) → IsValid k s → Returns (IsValid k) (issue_translations k h s)
  issue_translations-Returns s v =
      bind-Returns (λ r. Linked r.1) (IsValid k)
        (issue_all k h s.inflight_tag_check s.lower_translate)
        (λ r. issue_all k h s.translation_stash r.1 >>= λ q. some (issued r q))
        (issue_all-Returns s.inflight_tag_check s.lower_translate v.translates)
        (λ r linked.
          bind-Returns (λ q. Linked q.1) (IsValid k) (issue_all k h s.translation_stash r.1)
            (λ q. some (issued r q)) (issue_all-Returns s.translation_stash r.1 linked)
            (λ q linked'. (
              issued r q,
              refl,
              record {
                mshr_room = v.mshr_room;
                pq_room = v.pq_room;
                unique = v.unique;
                translates = linked';
              },
            )))
    where
      issued : List TagLookup × Option Channel → List TagLookup × Option Channel → Cache M
      issued r q = record s {
        inflight_tag_check = r.0;
        translation_stash = q.0;
        lower_translate = q.1;
      }

  operate_checks-Returns : (s : Cache M) → IsValid k s → Returns (Kept k h) (operate_checks k h s)
  operate_checks-Returns s v =
      bind-Returns (IsValid k) (Kept k h) (issue_translations k h (initiate_checks k h s).0) _
        (issue_translations-Returns (initiate_checks k h s).0 (initiate_checks-IsValid s v))
        (λ s₂ v₂.
          let r = perform_checks k h (stash_waiting k h s₂) in
          (
            _,
            refl,
            run_hook-IsValid k h (h.prefetcher_cycle_operate r.0) r.0
                (perform_checks-IsValid (stash_waiting k h s₂) v₂),
          ))

  -- A cycle returns where the victims of the replacement policy are ways, the cache has a channel to its
  -- translation, and every response of the level below finds its MSHR. A cache that had at most MSHR_SIZE
  -- MSHRs, each for its own block, and at most PQ_SIZE prefetches has no more after it.
  pub operate-IsValid :
      ChoosesWays k h
      → (page_bits : ℕ) (s s₁ : Cache M) → IsValid k s
      → finish_returns k h
          (record s { upper_levels = collide_levels k h s.upper_order s.upper_levels })
        ≡ some s₁
      → (r : Cache M × ℕ) × (operate k h page_bits s ≡ some r) × IsValid k r.0
  unfolding operate
  operate-IsValid ways page_bits s s₁ v e =
      let s₀ : Cache M = record s {
        upper_levels = collide_levels k h s.upper_order s.upper_levels;
      } in
      let v₁ : IsValid k s₁ = subst (OnSome (IsValid k)) e (finish_returns-OnSome k h s₀ v) in
      let progress = length s.lower_level.returned + count_returned k h s.lower_translate in
      bind-Returns (Kept k h) (Kept k h) (operate_fills k h page_bits s)
        (λ r. operate_checks k h r.0 >>= λ q. some (q.0, r.1 + q.1))
        (bind-Returns (λ t. t ≡ s₁) (Kept k h) (finish_returns k h s₀)
          (λ t. perform_fills k h (finish_translations k h page_bits t) >>= λ r.
            some (r.0, progress + r.1))
          (s₁, e, refl)
          (λ t same. rw same (
            bind-Returns (Kept k h) (Kept k h)
              (perform_fills k h (finish_translations k h page_bits s₁))
              (λ r. some (r.0, progress + r.1))
              (perform_fills-Returns k h ways (finish_translations k h page_bits s₁)
                (finish_translations-IsValid k h page_bits s₁ v₁))
              (λ r v₂. ((r.0, progress + r.1), refl, v₂)))))
        (λ r v'.
          bind-Returns (Kept k h) (Kept k h) (operate_checks k h r.0) (λ q. some (q.0, r.1 + q.1))
            (operate_checks-Returns r.0 v') (λ q v''. ((q.0, r.1 + q.1), refl, v'')))
