-- ===== src/Replacement/Drrip.antt =====
-- ChampSim/replacement/drrip/drrip.h and drrip.cc: dynamic re-reference interval prediction. The
-- numbers that `std::knuth_b` gives, sorted, are an argument of the constructor, and so is
-- `bip_counter`, which the source does not initialise. No value is above maxRRPV, so no difference is
-- negative.
pub mod Laws
use cs230_branch_predictor.Prelude.{
  ℕ, suc, ◌+◌, ◌-◌, ◌*◌, ◌%◌, ◌^◌, ◌≤◌, ◌<◌, ◌≡◌, refl, sym, arith, Bool, true, false, ltb, ◌==◌,
  ◌&&◌, Option, none, some, if◌then◌else◌, update, Bool-cases, inl, inr,
}
use cs230_branch_predictor.Prelude.Extrema.{max_element, max_element-range}
use cs230_branch_predictor.Prelude.Search.{find_first}
use cs230_branch_predictor.Counter.Unsigned.{maximum, count_up, count_down, above_half}
use cs230_branch_predictor.Replacement.{AccessType, is_write}
use cs230_branch_predictor.Replacement.Raise.{raise_set}

abbrev pub max_rrpv : ℕ
max_rrpv = 3

abbrev pub num_policy : ℕ
num_policy = 2

abbrev pub sdm_size : ℕ
sdm_size = 32

abbrev pub bip_max : ℕ
bip_max = 32

abbrev pub psel_width : ℕ
psel_width = 10

pub record Drrip : Type 0 where
  pub num_way : ℕ
  pub bip_counter : ℕ
  pub rand_sets : ℕ → ℕ
  pub psel : ℕ → ℕ
  pub rrpv : ℕ → ℕ

abbrev pub make : ℕ → (ℕ → ℕ) → ℕ → Drrip
make num_way rand_sets bip_counter = record {
  num_way = num_way;
  bip_counter = bip_counter;
  rand_sets = rand_sets;
  psel = λ cpu. 0;
  rrpv = λ i. 0;
}

-- `get_rrpv(set, way) = value`
abbrev pub set_rrpv : ℕ → ℕ → ℕ → Drrip → Drrip
set_rrpv set way value s = record s { rrpv = update s.rrpv (set * s.num_way + way) value }

unfoldable pub update_bip : ℕ → ℕ → Drrip → Drrip
update_bip set way s =
    let s' = set_rrpv set way max_rrpv s in
    let counter = (s'.bip_counter + 1) % 2 ^ 32 in
    if counter == bip_max
    then set_rrpv set way (max_rrpv - 1) (record s' { bip_counter = 0 })
    else record s' { bip_counter = counter }

unfoldable pub update_srrip : ℕ → ℕ → Drrip → Drrip
update_srrip set way s = set_rrpv set way (max_rrpv - 1) s

-- `std::find` of the set among the sampled sets of the cpu, counted from the first of them.
abbrev pub leader : ℕ → ℕ → Drrip → Option ℕ
leader cpu set s =
    find_first (λ i. s.rand_sets (cpu * num_policy * sdm_size + i) == set) (num_policy * sdm_size) 0

-- A miss, by the leader that was found.
abbrev pub on_miss : ℕ → ℕ → ℕ → Drrip → Option ℕ → Drrip
on_miss cpu set way s none =
    if above_half (maximum psel_width) (s.psel cpu)
    then update_bip set way s
    else update_srrip set way s
on_miss cpu set way s (some i) =
    if i == 0
    then update_bip set way
        (record s { psel = update s.psel cpu (count_down (maximum psel_width) (s.psel cpu)) })
    else if i == 1
    then update_srrip set way
        (record s { psel = update s.psel cpu (count_up (maximum psel_width) (s.psel cpu)) })
    else s

unfoldable pub update_replacement_state : ℕ → ℕ → ℕ → AccessType → Bool → Drrip → Drrip
update_replacement_state cpu set way type hit s =
    if is_write type
    then set_rrpv set way (max_rrpv - 1) s
    else if hit
    then set_rrpv set way 0 s
    else on_miss cpu set way s (leader cpu set s)

-- The greatest of the set, and the set raised until it is maxRRPV.
unfoldable pub find_victim : ℕ → Drrip → Drrip × ℕ
find_victim set s =
    let (values, victim) = raise_set max_rrpv s.rrpv (set * s.num_way) s.num_way in
    (record s { rrpv = values }, victim)
