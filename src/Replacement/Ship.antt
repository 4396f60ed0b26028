-- ===== src/Replacement/Ship.antt =====
-- ChampSim/replacement/ship/ship.h and ship.cc: signature-based hit prediction. The numbers that
-- `std::knuth_b` gives, sorted, are an argument of the constructor; `access_count` is 64 bits wide, and
-- taken not to wrap around. No value is above maxRRPV, so no difference is negative.
pub mod Laws
use cs230_branch_predictor.Prelude.{
  ℕ, ◌+◌, ◌-◌, ◌*◌, ◌/◌, ◌%◌, ◌^◌, Bool, true, false, not, ltb, ◌==◌, ◌&&◌, Option, none, some,
  if◌then◌else◌, update, update₂,
}
use cs230_branch_predictor.Prelude.Extrema.{min_element, max_element}
use cs230_branch_predictor.Prelude.Search.{find_first}
use cs230_branch_predictor.Bits.{lg2}
use cs230_branch_predictor.Counter.Unsigned.{maximum, count_up, count_down}
use cs230_branch_predictor.Replacement.{AccessType, is_write}
use cs230_branch_predictor.Replacement.Raise.{raise_set}

abbrev pub max_rrpv : ℕ
max_rrpv = 3

abbrev pub shct_prime : ℕ
shct_prime = 16381

abbrev pub sampler_set_factor : ℕ
sampler_set_factor = 256

abbrev pub shct_max : ℕ
shct_max = 7

-- `SAMPLER_class`
pub record Sample : Type 0 where
  pub valid : Bool
  pub used : Bool
  pub address : ℕ
  pub ip : ℕ
  pub last_used : ℕ

pub record Ship : Type 0 where
  pub num_cpus : ℕ
  pub num_way : ℕ
  pub access_count : ℕ
  pub rand_sets : ℕ → ℕ
  pub sampler : ℕ → Sample
  pub rrpv_values : ℕ → ℕ
  pub shct : ℕ → ℕ → ℕ

abbrev pub make : ℕ → ℕ → (ℕ → ℕ) → Ship
make num_cpus num_way rand_sets = record {
  num_cpus = num_cpus;
  num_way = num_way;
  access_count = 0;
  rand_sets = rand_sets;
  sampler = λ i. record { valid = false; used = false; address = 0; ip = 0; last_used = 0 };
  rrpv_values = λ i. max_rrpv;
  shct = λ cpu i. 0;
}

-- `get_rrpv(set, way) = value`
abbrev pub set_rrpv : ℕ → ℕ → ℕ → Ship → Ship
set_rrpv set way value s = record s {
  rrpv_values = update s.rrpv_values (set * s.num_way + way) value;
}

-- The greatest of the set, and the set raised until it is maxRRPV.
unfoldable pub find_victim : ℕ → Ship → Ship × ℕ
find_victim set s =
    let (values, victim) = raise_set max_rrpv s.rrpv_values (set * s.num_way) s.num_way in
    (record s { rrpv_values = values }, victim)

-- `ip.slice_lower<32_b>() % SHCT_PRIME`
abbrev pub shct_idx : ℕ → ℕ
shct_idx ip = ip % 2 ^ 32 % shct_prime

-- `std::find` of the set among the sampled sets.
abbrev pub sample_of : ℕ → Ship → Option ℕ
sample_of set s = find_first (λ i. s.rand_sets i == set) (sampler_set_factor * s.num_cpus) 0

-- The test of `std::find_if` on the sampler.
abbrev pub has_block : ℕ → Ship → Sample → Bool
has_block full_addr s x =
    let shamt = 8 + lg2 64 s.num_way in x.valid && x.address / 2 ^ shamt == full_addr / 2 ^ shamt

-- The table after a step of a counter.
abbrev pub step_shct : ℕ → ℕ → (ℕ → ℕ) → Ship → Ship
step_shct cpu ip step s = record s {
  shct = update₂ s.shct cpu (shct_idx ip) (step (s.shct cpu (shct_idx ip)));
}

abbrev pub sampler_hit : ℕ → ℕ → Ship → Ship
sampler_hit cpu i s =
    let s' = step_shct cpu (s.sampler i).ip (count_down shct_max) s in
    record s' { sampler = update s.sampler i (record (s.sampler i) { used = true }) }

abbrev pub sampler_miss : ℕ → ℕ → ℕ → ℕ → Ship → Ship
sampler_miss cpu full_addr ip i s =
    let s' =
      if (s.sampler i).used then step_shct cpu (s.sampler i).ip (count_up shct_max) s else s in
    record s' {
      sampler =
          update s.sampler i
            (record (s.sampler i) { valid = true; address = full_addr; ip = ip; used = false });
    }

-- `match->last_used = access_count++`
abbrev pub touch : ℕ → Ship → Ship
touch i s = record s {
  sampler = update s.sampler i (record (s.sampler i) { last_used = s.access_count });
  access_count = s.access_count + 1;
}

-- The sampled set begins at the index of its number, and has NUM_WAY entries.
abbrev pub sampled : ℕ → ℕ → ℕ → ℕ → Ship → Option ℕ → Ship
sampled cpu full_addr ip begin s (some i) = touch i (sampler_hit cpu i s)
sampled cpu full_addr ip begin s none =
    let i = min_element (λ j. (s.sampler j).last_used) (s.num_way - 1) (begin + 1) begin in
    touch i (sampler_miss cpu full_addr ip i s)

abbrev pub update_sampler : ℕ → ℕ → ℕ → Ship → Option ℕ → Ship
update_sampler cpu full_addr ip s none = s
update_sampler cpu full_addr ip s (some begin) =
    sampled cpu full_addr ip begin s
      (find_first (λ j. has_block full_addr s (s.sampler j)) s.num_way begin)

-- What follows the sampler: a hit, or the prediction.
abbrev pub predict_rrpv : ℕ → ℕ → ℕ → ℕ → Bool → Ship → Ship
predict_rrpv cpu set way ip hit s =
    if hit
    then set_rrpv set way 0 s
    else if s.shct cpu (shct_idx ip) == shct_max
    then set_rrpv set way max_rrpv s
    else set_rrpv set way (max_rrpv - 1) s

unfoldable pub update_replacement_state : ℕ → ℕ → ℕ → ℕ → ℕ → AccessType → Bool → Ship → Ship
update_replacement_state cpu set way full_addr ip type hit s =
    if is_write type
    then (if not hit then set_rrpv set way (max_rrpv - 1) s else s)
    else predict_rrpv cpu set way ip hit (update_sampler cpu full_addr ip s (sample_of set s))
