-- ===== src/Replacement/Lru.antt =====
-- ChampSim/replacement/lru/lru.h and lru.cc: the way that was used least recently. `cycle` counts
-- the uses; it is 64 bits wide, and taken not to wrap around.
use mathlib.Core.Path.{subst}
use cs230_branch_predictor.Prelude.{
  ℕ, ◌+◌, ◌-◌, ◌*◌, ◌≤◌, ◌<◌, ◌≡◌, ◌≢◌, arith, Bool, not, ◌&&◌, if◌then◌else◌, update,
}
use cs230_branch_predictor.Prelude.Extrema.{min_element, min_element-range}
use cs230_branch_predictor.Replacement.{AccessType, is_write}

pub record Lru : Type 0 where
  pub num_way : ℕ
  pub last_used_cycles : ℕ → ℕ
  pub cycle : ℕ

abbrev pub make : ℕ → Lru
make ways = record { num_way = ways; last_used_cycles = λ i. 0; cycle = 0 }

-- The victim's distance from the begin of the set.
unfoldable pub find_victim : ℕ → Lru → ℕ
find_victim set s =
    let begin = set * s.num_way in
    min_element s.last_used_cycles (s.num_way - 1) (begin + 1) begin - begin

unfoldable pub replacement_cache_fill : ℕ → ℕ → Lru → Lru
replacement_cache_fill set way s = record s {
  last_used_cycles = update s.last_used_cycles (set * s.num_way + way) s.cycle;
  cycle = s.cycle + 1;
}

unfoldable pub update_replacement_state : ℕ → ℕ → AccessType → Bool → Lru → Lru
update_replacement_state set way type hit s =
    if hit && not (is_write type)
    then record s {
      last_used_cycles = update s.last_used_cycles (set * s.num_way + way) s.cycle;
      cycle = s.cycle + 1;
    }
    else s

-- The victim is a way of the set, and no way of the set was used less recently.
pub find_victim-least :
    (set way : ℕ) (s : Lru)
    → way < s.num_way
    → (find_victim set s < s.num_way)
      × (s.last_used_cycles (set * s.num_way + find_victim set s)
          ≤ s.last_used_cycles (set * s.num_way + way))
unfolding find_victim
find_victim-least set way s lt =
    let begin = set * s.num_way in
    let best = min_element-range s.last_used_cycles begin s.num_way (omega arith) in
    let found = min_element s.last_used_cycles (s.num_way - 1) (begin + 1) begin in
    let place : begin + (found - begin) ≡ found = omega (arith, best.low) in
    (
      omega (arith, best.low, best.high),
      rw place (best.least (begin + way) (omega arith) (omega arith)),
    )

-- Every use so far was in a cycle before the present one.
abbrev pub IsPast : Lru → Type 0
IsPast s = (i : ℕ) → s.last_used_cycles i < s.cycle

-- With at least two ways, a way that was just filled is not the victim, if all earlier uses were in
-- earlier cycles; and after the fill this is so again.
pub fill_protects :
    (set way other : ℕ) (s : Lru)
    → IsPast s
    → way < s.num_way
    → other < s.num_way
    → other ≢ way
    → (find_victim set (replacement_cache_fill set way s) ≢ way)
      × IsPast (replacement_cache_fill set way s)
unfolding replacement_cache_fill
fill_protects set way other s past lt lt' ne = (
  (λ e.
      let s' = replacement_cache_fill set way s in
      let no_later : s'.last_used_cycles (set * s.num_way + way)
          ≤ s'.last_used_cycles (set * s.num_way + other) =
        subst
          (λ v.
            s'.last_used_cycles (set * s.num_way + v)
            ≤ s'.last_used_cycles (set * s.num_way + other))
          e (find_victim-least set other s' lt').1 in
      ground (arith, no_later, past (set * s.num_way + other))),
  λ i. ground (arith, past i),
)
