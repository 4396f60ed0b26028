-- ===== src/Replacement/Ship/Laws.antt =====
-- ChampSim/replacement/ship/ship.cc: the ranges of the state, and the victim.
use cs230_branch_predictor.Prelude.{
  ℕ, ◌+◌, ◌-◌, ◌*◌, ◌≤◌, ◌<◌, ◌≡◌, arith, Bool, not, ◌==◌, Option, none, some, if_cases,
}
use cs230_branch_predictor.Prelude.Extrema.{min_element}
use cs230_branch_predictor.Prelude.Search.{find_first}
use cs230_branch_predictor.Replacement.{AccessType, is_write}
use cs230_branch_predictor.Replacement.Raise.{raise_set-IsRaised}
use cs230_branch_predictor.Replacement.Ship.{
  Ship, max_rrpv, shct_max, shct_idx, set_rrpv, find_victim, sample_of, has_block, sampler_hit,
  sampler_miss, touch, sampled, update_sampler, predict_rrpv, update_replacement_state,
}

-- Every value and every counter is in range, and every sample was used in the past.
pub record IsValid (s : Ship) : Type 0 where
  pub values : (i : ℕ) → s.rrpv_values i ≤ max_rrpv
  pub counters : (cpu i : ℕ) → s.shct cpu i ≤ shct_max
  pub past : (i : ℕ) → (s.sampler i).last_used ≤ s.access_count

set_rrpv-IsValid :
    (set way value : ℕ) (s : Ship)
    → value ≤ max_rrpv
    → IsValid s
    → IsValid (set_rrpv set way value s)
set_rrpv-IsValid set way value s fits v = record {
  values = λ i. ground (arith, v.values i);
  counters = v.counters;
  past = v.past;
}

sampler_hit-IsValid : (cpu i : ℕ) (s : Ship) → IsValid s → IsValid (sampler_hit cpu i s)
sampler_hit-IsValid cpu i s v = record {
  values = v.values;
  counters = λ c j. ground (arith, v.counters c j);
  past = λ j. ground (arith, v.past j);
}

sampler_miss-IsValid :
    (cpu full_addr ip i : ℕ) (s : Ship) → IsValid s → IsValid (sampler_miss cpu full_addr ip i s)
sampler_miss-IsValid cpu full_addr ip i s v = record {
  values = λ j. ground (arith, v.values j);
  counters = λ c j. ground (arith, v.counters c j);
  past = λ j. ground (arith, v.past j);
}

touch-IsValid : (i : ℕ) (s : Ship) → IsValid s → IsValid (touch i s)
touch-IsValid i s v = record {
  values = v.values;
  counters = v.counters;
  past = λ j. ground (arith, v.past j);
}

sampled-IsValid :
    (cpu full_addr ip begin : ℕ) (s : Ship) (o : Option ℕ)
    → IsValid s
    → IsValid (sampled cpu full_addr ip begin s o)
sampled-IsValid cpu full_addr ip begin s (some i) v =
    touch-IsValid i (sampler_hit cpu i s) (sampler_hit-IsValid cpu i s v)
sampled-IsValid cpu full_addr ip begin s none v =
    let i = min_element (λ j. (s.sampler j).last_used) (s.num_way - 1) (begin + 1) begin in
    touch-IsValid i (sampler_miss cpu full_addr ip i s)
      (sampler_miss-IsValid cpu full_addr ip i s v)

update_sampler-IsValid :
    (cpu full_addr ip : ℕ) (s : Ship) (o : Option ℕ)
    → IsValid s
    → IsValid (update_sampler cpu full_addr ip s o)
update_sampler-IsValid cpu full_addr ip s none v = v
update_sampler-IsValid cpu full_addr ip s (some begin) v =
    sampled-IsValid cpu full_addr ip begin s
      (find_first (λ j. has_block full_addr s (s.sampler j)) s.num_way begin) v

predict_rrpv-IsValid :
    (cpu set way ip : ℕ) (hit : Bool) (s : Ship)
    → IsValid s
    → IsValid (predict_rrpv cpu set way ip hit s)
predict_rrpv-IsValid cpu set way ip hit s v =
    if_cases {A = Ship} IsValid hit (λ _. set_rrpv-IsValid set way 0 s (omega arith) v)
      (λ _.
        if_cases {A = Ship} IsValid (s.shct cpu (shct_idx ip) == shct_max)
          (λ _. set_rrpv-IsValid set way max_rrpv s (omega arith) v)
          (λ _. set_rrpv-IsValid set way (max_rrpv - 1) s (omega arith) v))

state-IsValid :
    (cpu set way full_addr ip : ℕ) (type : AccessType) (hit : Bool) (s : Ship)
    → IsValid s
    → IsValid (update_replacement_state cpu set way full_addr ip type hit s)
unfolding update_replacement_state
state-IsValid cpu set way full_addr ip type hit s v =
    if_cases {A = Ship} IsValid (is_write type)
      (λ _.
        if_cases {A = Ship} IsValid (not hit)
          (λ _. set_rrpv-IsValid set way (max_rrpv - 1) s (omega arith) v) (λ _. v))
      (λ _.
        predict_rrpv-IsValid cpu set way ip hit
          (update_sampler cpu full_addr ip s (sample_of set s))
          (update_sampler-IsValid cpu full_addr ip s (sample_of set s) v))

-- Every update and every search for a victim keeps the values and the counters in range and the samples
-- in the past. The victim is a way of the set whose value was the greatest, and is maxRRPV afterwards.
pub ship_operations-IsValid :
    (cpu set way full_addr ip : ℕ) (type : AccessType) (hit : Bool) (s : Ship)
    → IsValid s
    → way < s.num_way
    → IsValid (update_replacement_state cpu set way full_addr ip type hit s)
      × IsValid (find_victim set s).0
      × ((find_victim set s).1 < s.num_way)
      × (s.rrpv_values (set * s.num_way + way)
          ≤ s.rrpv_values (set * s.num_way + (find_victim set s).1))
      × ((find_victim set s).0.rrpv_values (set * s.num_way + (find_victim set s).1) ≡ max_rrpv)
unfolding find_victim
ship_operations-IsValid cpu set way full_addr ip type hit s v lt =
    let (values, inside, greatest, raised) =
      raise_set-IsRaised max_rrpv s.rrpv_values (set * s.num_way) s.num_way way v.values lt in
    (
      state-IsValid cpu set way full_addr ip type hit s v,
      record { values = values; counters = v.counters; past = v.past },
      inside,
      greatest,
      raised,
    )
