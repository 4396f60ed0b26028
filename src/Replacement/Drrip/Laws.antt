-- ===== src/Replacement/Drrip/Laws.antt =====
-- ChampSim/replacement/drrip/drrip.cc: the ranges of the state, and the victim.
use cs230_branch_predictor.Prelude.{
  ℕ, ◌+◌, ◌-◌, ◌*◌, ◌%◌, ◌^◌, ◌≤◌, ◌<◌, ◌≡◌, arith, Bool, ◌==◌, Option, none, some, update,
  Bool-cases, inl, inr, if_cases,
}
use cs230_branch_predictor.Counter.Unsigned.{maximum, above_half}
use cs230_branch_predictor.Replacement.{AccessType, is_write}
use cs230_branch_predictor.Replacement.Raise.{raise_set-IsRaised}
use cs230_branch_predictor.Replacement.Drrip.{
  Drrip, max_rrpv, bip_max, psel_width, set_rrpv, update_bip, update_srrip, leader, on_miss,
  update_replacement_state, find_victim,
}

-- Every value, every selector and the counter are in range.
pub record IsValid (s : Drrip) : Type 0 where
  pub values : (i : ℕ) → s.rrpv i ≤ max_rrpv
  pub selectors : (cpu : ℕ) → s.psel cpu ≤ maximum psel_width
  pub counter : s.bip_counter < bip_max

set_rrpv-IsValid :
    (set way value : ℕ) (s : Drrip)
    → value ≤ max_rrpv
    → IsValid s
    → IsValid (set_rrpv set way value s)
set_rrpv-IsValid set way value s fits v = record {
  values = λ i. ground (arith, v.values i);
  selectors = v.selectors;
  counter = v.counter;
}

update_bip-IsValid : (set way : ℕ) (s : Drrip) → IsValid s → IsValid (update_bip set way s)
unfolding update_bip
update_bip-IsValid set way s v = elim (Bool-cases ((s.bip_counter + 1) % 2 ^ 32 == bip_max)) [
  | inl full ↦ rw full (record {
    values = λ i. ground (arith, v.values i);
    selectors = v.selectors;
    counter = omega arith;
  })
  | inr more ↦ rw more (record {
    values = λ i. ground (arith, v.values i);
    selectors = v.selectors;
    counter = ground (arith, v.counter);
  })
]

psel-IsValid :
    (cpu value : ℕ) (s : Drrip)
    → value ≤ maximum psel_width
    → IsValid s
    → IsValid (record s { psel = update s.psel cpu value })
psel-IsValid cpu value s fits v = record {
  values = v.values;
  selectors = λ i. ground (arith, v.selectors i);
  counter = v.counter;
}

on_miss-IsValid :
    (cpu set way : ℕ) (s : Drrip) (o : Option ℕ) → IsValid s → IsValid (on_miss cpu set way s o)
unfolding update_srrip
on_miss-IsValid cpu set way s none v =
    if_cases {A = Drrip} IsValid (above_half (maximum psel_width) (s.psel cpu))
      (λ _. update_bip-IsValid set way s v)
      (λ _. set_rrpv-IsValid set way (max_rrpv - 1) s (omega arith) v)
on_miss-IsValid cpu set way s (some i) v =
    if_cases {A = Drrip} IsValid (i == 0)
      (λ _. update_bip-IsValid set way _ (psel-IsValid cpu _ s (omega arith) v))
      (λ _.
        if_cases {A = Drrip} IsValid (i == 1)
          (λ _.
            set_rrpv-IsValid set way (max_rrpv - 1) _ (omega arith)
              (psel-IsValid cpu _ s (omega arith) v))
          (λ _. v))

state-IsValid :
    (cpu set way : ℕ) (type : AccessType) (hit : Bool) (s : Drrip)
    → IsValid s
    → IsValid (update_replacement_state cpu set way type hit s)
unfolding update_replacement_state
state-IsValid cpu set way type hit s v =
    if_cases {A = Drrip} IsValid (is_write type)
      (λ _. set_rrpv-IsValid set way (max_rrpv - 1) s (omega arith) v)
      (λ _.
        if_cases {A = Drrip} IsValid hit (λ _. set_rrpv-IsValid set way 0 s (omega arith) v)
          (λ _. on_miss-IsValid cpu set way s (leader cpu set s) v))

-- Every update and every search for a victim keeps the values, the selectors and the counter in range.
-- The victim is a way of the set whose value was the greatest, and is maxRRPV afterwards.
pub drrip_operations-IsValid :
    (cpu set way : ℕ) (type : AccessType) (hit : Bool) (s : Drrip)
    → IsValid s
    → way < s.num_way
    → IsValid (update_replacement_state cpu set way type hit s)
      × IsValid (find_victim set s).0
      × ((find_victim set s).1 < s.num_way)
      × (s.rrpv (set * s.num_way + way) ≤ s.rrpv (set * s.num_way + (find_victim set s).1))
      × ((find_victim set s).0.rrpv (set * s.num_way + (find_victim set s).1) ≡ max_rrpv)
unfolding find_victim
drrip_operations-IsValid cpu set way type hit s v lt =
    let (values, inside, greatest, raised) =
      raise_set-IsRaised max_rrpv s.rrpv (set * s.num_way) s.num_way way v.values lt in
    (
      state-IsValid cpu set way type hit s v,
      record { values = values; selectors = v.selectors; counter = v.counter },
      inside,
      greatest,
      raised,
    )
