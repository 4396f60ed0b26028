-- ===== src/Replacement/Raise.antt =====
-- ChampSim/replacement/drrip/drrip.cc and ship/ship.cc: the search for a victim, which the two policies
-- share. It works on the array of the values of all sets.
use cs230_branch_predictor.Prelude.{ℕ, ◌+◌, ◌-◌, ◌≤◌, ◌<◌, ◌≡◌, arith, ltb, if◌then◌else◌}
use cs230_branch_predictor.Prelude.Extrema.{max_element, max_element-range}

-- The index of the first greatest value of the set, and the values with those of the set raised until
-- that one is the maximum.
unfoldable pub raise_set : ℕ → (ℕ → ℕ) → ℕ → ℕ → (ℕ → ℕ) × ℕ
raise_set max_rrpv values begin ways =
    let victim = max_element values (ways - 1) (begin + 1) begin in
    let rrpv_update = max_rrpv - values victim in
    (
      λ i.
          if ltb i begin
          then values i
          else if ltb i (begin + ways)
          then values i + rrpv_update
          else values i,
      victim - begin,
    )

-- The victim is a way of the set, of the greatest value, which becomes the maximum; and no value passes
-- the maximum.
abbrev pub IsRaised : ℕ → (ℕ → ℕ) → ℕ → ℕ → ℕ → (ℕ → ℕ) × ℕ → Type 0
IsRaised top values begin ways way (values', victim) =
    ((i : ℕ) → values' i ≤ top)
    × (victim < ways)
    × (values (begin + way) ≤ values (begin + victim))
    × (values' (begin + victim) ≡ top)

pub raise_set-IsRaised :
    (top : ℕ) (values : ℕ → ℕ) (begin ways way : ℕ)
    → ((i : ℕ) → values i ≤ top)
    → way < ways
    → IsRaised top values begin ways way (raise_set top values begin ways)
unfolding raise_set
raise_set-IsRaised top values begin ways way bounded lt =
    let best = max_element-range values begin ways (omega arith) in
    let victim = max_element values (ways - 1) (begin + 1) begin in
    let high = bounded victim in
    let position : begin + (victim - begin) ≡ victim = omega (arith, best.low) in
    (
      λ j. ground (arith, best.greatest j, bounded j, high),
      omega (arith, best.high, best.low),
      rw position (best.greatest (begin + way) (omega arith) (omega arith)),
      rw position (ground (arith, best.low, best.high, high)),
    )
