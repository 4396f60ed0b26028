-- ===== src/Cache/Tests.antt =====
-- A cache of two sets of two ways whose victim is way 0, and the theorems on it.
use cs230_branch_predictor.Prelude.{
  ℕ, zero, suc, ◌≡◌, refl, sym, ◌∙◌, update, arith, Bool, true, false, [], ◌∷◌, none, some,
}
use cs230_branch_predictor.Prelude.Lists.{Any, here}
use cs230_branch_predictor.Prelude.Search.{find_first}
use cs230_branch_predictor.Bits.{lg2}
use cs230_branch_predictor.Prelude.Arrays.{get_elem?}
use cs230_branch_predictor.Replacement.{load}
use cs230_branch_predictor.Channel.{Response, make}
use cs230_branch_predictor.Cache.{
  Block, Mshr, TagLookup, CacheStats, Configuration, Cache, finished, Modules, index_of, respond,
  increment, no_promise,
}
use cs230_branch_predictor.Cache.Fill.{fill_block, handle_fill}
use cs230_branch_predictor.Cache.Check.{handle_miss}
use cs230_branch_predictor.Cache.Finish.{return_mshr, finish_packet}
use cs230_branch_predictor.Cache.Cycle.{collide_levels, finish_returns, operate}
use cs230_branch_predictor.Cache.Bounds.{IsValid}
use cs230_branch_predictor.Cache.Running.{operate-IsValid}
use cs230_branch_predictor.Cache.Installed.{fill_response, IsFilled, handle_fill_lem}
use cs230_branch_predictor.Cache.Waiting.{IsTracked, handle_miss_lem, fill_answers}
use cs230_branch_predictor.Cache.Order.{IsOrdered, finish_packet_lem}

abbrev small : Configuration
small = record {
  num_set = 2;
  num_way = 2;
  mshr_size = 4;
  pq_size = 4;
  hit_latency = 2;
  fill_latency = 1;
  offset_bits = 6;
  max_tag = 2;
  max_fill = 2;
  clock_period = 1;
  prefetch_as_load = false;
  match_offset_bits = false;
  virtual_prefetch = false;
  pref_activate_mask = load ∷ [];
}

-- Modules that do nothing.
abbrev idle : Modules ℕ
idle = record {
  find_victim = λ s cpu id set ip address access. (0, s.modules);
  update_replacement_state = λ s cpu set way address ip access hit. s.modules;
  replacement_cache_fill = λ s cpu set way address ip victim access. s.modules;
  prefetcher_cache_operate = λ s address ip hit useful access metadata. finished s.modules metadata;
  prefetcher_cache_fill =
      λ s address set way is_prefetch victim metadata. finished s.modules metadata;
  prefetcher_cycle_operate = λ s. finished s.modules 0;
}

abbrev no_block : Block
no_block = record {
  valid = false;
  prefetch_bit = false;
  dirty = false;
  address = 0;
  v_address = 0;
  block_data = 0;
  pf_metadata = 0;
}

abbrev no_counts : CacheStats
no_counts = record {
  pf_requested = 0;
  pf_issued = 0;
  pf_useful = 0;
  pf_useless = 0;
  pf_fill = 0;
  hits = λ a cpu. 0;
  misses = λ a cpu. 0;
  mshr_merge = λ a cpu. 0;
  mshr_return = λ a cpu. 0;
}

abbrev idle_cache : Cache ℕ
idle_cache = record {
  block = λ i. no_block;
  mshr = [];
  inflight_writes = [];
  internal_pq = [];
  inflight_tag_check = [];
  translation_stash = [];
  upper_levels = λ ul. make 4 4 4 6 false;
  upper_order = 0 ∷ [];
  lower_level = make 4 4 4 6 false;
  lower_translate = none;
  cpu = 0;
  current_time = 10;
  warmup = false;
  sim_stats = no_counts;
  modules = 0;
}

-- A load of address 640 by level 0.
abbrev lookup : TagLookup
lookup = record {
  address = 640;
  v_address = 640;
  block_data = 0;
  ip = 4096;
  instr_id = 3;
  pf_metadata = 0;
  cpu = 0;
  access = load;
  prefetch_from_this = false;
  skip_fill = false;
  is_translated = true;
  translate_issued = false;
  event_cycle = none;
  instr_depend_on_me = 3 ∷ [];
  to_return = 0 ∷ [];
}

abbrev waiting : Mshr
waiting = record {
  address = 640;
  v_address = 640;
  ip = 4096;
  instr_id = 3;
  data_promise = no_promise;
  cpu = 0;
  access = load;
  prefetch_from_this = false;
  time_enqueued = 5;
  instr_depend_on_me = 3 ∷ [];
  to_return = 0 ∷ [];
}

abbrev busy : Cache ℕ
busy = record idle_cache { mshr = waiting ∷ [] }

abbrev answer : Response
answer = record {
  address = 640;
  v_address = 640;
  block_data = 77;
  pf_metadata = 0;
  instr_depend_on_me = [];
}

only_waiting : (p : ℕ) (z : Mshr) → get_elem? (waiting ∷ []) p ≡ some z → (p ≡ 0) × (z ≡ waiting)
only_waiting zero z e = (refl, cc)
only_waiting (suc p) z e = cc

handle_miss_lem_example :
    IsTracked small idle 0 lookup idle_cache (handle_miss small idle lookup idle_cache)
handle_miss_lem_example = handle_miss_lem small idle lookup idle_cache 0 (here refl)

handle_fill_lem_example :
    (r : Cache ℕ × Bool) × (handle_fill small idle waiting idle_cache ≡ some r)
    × IsFilled small waiting idle_cache r
handle_fill_lem_example =
    handle_fill_lem small idle (λ s cpu id set ip address access. omega arith) waiting idle_cache

finish_packet_lem_example :
    (s' : Cache ℕ) × (finish_packet small answer busy ≡ some s')
    × IsOrdered 1 s'.mshr
    × (get_elem? s'.mshr 0
        ≡ some (record waiting {
          data_promise = record { block_data = 77; pf_metadata = 0; event_cycle = some 11 };
        }))
finish_packet_lem_example =
    finish_packet_lem small answer busy 0 0 waiting
      (λ p z e. let (at_start, same) = only_waiting p z e in rw same (ground arith))
      (λ p q y z at_p at_q same. (only_waiting p y at_p).0 ∙ sym (only_waiting q z at_q).0) refl
      refl refl

abbrev filled : Cache ℕ
filled = record idle_cache {
  block = update idle_cache.block (index_of small 640 0) (fill_block waiting 0);
  sim_stats = record no_counts { mshr_return = increment load 0 no_counts.mshr_return };
  upper_levels = respond small (fill_response waiting 0) (0 ∷ []) idle_cache.upper_levels;
}

fills : handle_fill small idle waiting idle_cache ≡ some (filled, true)
unfolding handle_fill find_first lg2
fills = refl

fill_answers_example :
    (metadata : ℕ) × Any (λ r. r ≡ fill_response waiting metadata) (filled.upper_levels 0).returned
fill_answers_example =
    fill_answers small idle (λ s cpu id set ip address access. omega arith) waiting idle_cache
      filled 0 fills (here refl)

-- A cycle in which the level below answers the MSHR and the prefetch queue starts a tag check.
abbrev answered : Cache ℕ
answered = record busy {
  internal_pq = lookup ∷ [];
  lower_level = record busy.lower_level { returned = answer ∷ [] };
  lower_translate = some (make 4 4 4 6 false);
}

abbrev collided : Cache ℕ
collided = record answered {
  upper_levels = collide_levels small idle answered.upper_order answered.upper_levels;
}

abbrev returned : Cache ℕ
returned = record collided {
  mshr =
      record waiting {
        data_promise = record { block_data = 77; pf_metadata = 0; event_cycle = some 11 };
      }
      ∷ [];
  lower_level = busy.lower_level;
}

finishes : finish_returns small idle collided ≡ some returned
unfolding finish_packet return_mshr
finishes = refl

operate-IsValid_example :
    (r : Cache ℕ × ℕ) × (operate small idle 12 answered ≡ some r) × IsValid small r.0
operate-IsValid_example =
    operate-IsValid small idle (λ s cpu id set ip address access. omega arith) 12 answered returned
      (record {
        mshr_room = omega arith;
        pq_room = omega arith;
        unique =
            λ p q y z at_p at_q same. (only_waiting p y at_p).0 ∙ sym (only_waiting q z at_q).0;
        translates = (make 4 4 4 6 false, refl);
      })
      finishes
