-- ===== src/Replacement/Tests.antt =====
-- The replacement policies on small sets.
use cs230_branch_predictor.Prelude.{false, ◌+◌, ◌≤◌, ◌<◌, ◌≡◌, ◌==◌, refl, arith, if◌then◌else◌}
use cs230_branch_predictor.Prelude.Extrema.{min_element}
use cs230_branch_predictor.Prelude.Search.{find_first}
use cs230_branch_predictor.Replacement.{load}
use cs230_branch_predictor.Replacement.Drrip
use cs230_branch_predictor.Replacement.Drrip.{Drrip}
use cs230_branch_predictor.Replacement.Drrip.Laws.{drrip_operations-IsValid}
use cs230_branch_predictor.Replacement.Ship
use cs230_branch_predictor.Replacement.Ship.{Ship}
use cs230_branch_predictor.Replacement.Ship.Laws.{ship_operations-IsValid}
use cs230_branch_predictor.Replacement.Lru
use cs230_branch_predictor.Replacement.Lru.{
  Lru, IsPast, replacement_cache_fill, find_victim-least, fill_protects,
}
use cs230_branch_predictor.Replacement.Srrip.{SrripSetHelper, IsValid}

-- Four ways, used in the cycles 7, 5, 9 and 5.
abbrev used : Lru
used = record {
  num_way = 4;
  last_used_cycles = λ i. if i == 0 then 7 else if i == 2 then 9 else 5;
  cycle = 10;
}

used-victim : Lru.find_victim 0 used ≡ 1
unfolding Lru.find_victim min_element
used-victim = refl

used-IsPast : IsPast used
used-IsPast i = ground arith

abbrev hit_set : SrripSetHelper
hit_set = record { ways = 4; rrpv_values = λ i. if i == 2 then 2 else 0 }

hit_set-IsValid : IsValid hit_set
hit_set-IsValid i = ground arith

-- Two sets of two ways; set 1 is the second of the sampled sets.
abbrev drrip_state : Drrip
drrip_state = Drrip.make 2 (λ i. i) 31

drrip_runs :
    ((Drrip.update_replacement_state 0 1 0 load false drrip_state).rrpv 2 ≡ 2)
    × ((Drrip.update_replacement_state 0 0 0 load false drrip_state).bip_counter ≡ 0)
unfolding Drrip.update_replacement_state Drrip.update_bip Drrip.update_srrip find_first
drrip_runs = (refl, refl)

drrip_operations-IsValid_example :
    Drrip.Laws.IsValid (Drrip.update_replacement_state 0 1 0 load false drrip_state)
    × Drrip.Laws.IsValid (Drrip.find_victim 1 drrip_state).0
    × ((Drrip.find_victim 1 drrip_state).1 < 2)
    × (drrip_state.rrpv 2 ≤ drrip_state.rrpv (2 + (Drrip.find_victim 1 drrip_state).1))
    × ((Drrip.find_victim 1 drrip_state).0.rrpv (2 + (Drrip.find_victim 1 drrip_state).1) ≡ 3)
drrip_operations-IsValid_example =
    drrip_operations-IsValid 0 1 0 load false drrip_state
      (record { values = λ i. omega arith; selectors = λ c. omega arith; counter = omega arith })
      (omega arith)

abbrev ship_state : Ship
ship_state = Ship.make 1 2 (λ i. i)

ship_operations-IsValid_example :
    Ship.Laws.IsValid (Ship.update_replacement_state 0 1 0 4096 64 load false ship_state)
    × Ship.Laws.IsValid (Ship.find_victim 1 ship_state).0
    × ((Ship.find_victim 1 ship_state).1 < 2)
    × (ship_state.rrpv_values 2 ≤ ship_state.rrpv_values (2 + (Ship.find_victim 1 ship_state).1))
    × ((Ship.find_victim 1 ship_state).0.rrpv_values (2 + (Ship.find_victim 1 ship_state).1) ≡ 3)
ship_operations-IsValid_example =
    ship_operations-IsValid 0 1 0 4096 64 load false ship_state
      (record { values = λ i. omega arith; counters = λ c i. omega arith; past = λ i. omega arith })
      (omega arith)
