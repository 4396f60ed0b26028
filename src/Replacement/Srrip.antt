-- ===== src/Replacement/Srrip.antt =====
-- ChampSim/replacement/srrip/srrip.h and srrip.cc: static re-reference interval prediction. The
-- values of a set are a function of the way; none is above maxRRPV, so no difference is negative.
use cs230_branch_predictor.Prelude.{
  ℕ, ◌+◌, ◌-◌, ◌≤◌, ◌<◌, ◌≡◌, arith, Bool, ltb, if◌then◌else◌, update,
}
use cs230_branch_predictor.Prelude.Extrema.{max_element, max_element-range}

abbrev pub max_rrpv : ℕ
max_rrpv = 3

-- `srrip_set_helper`
pub record SrripSetHelper : Type 0 where
  pub ways : ℕ
  pub rrpv_values : ℕ → ℕ

abbrev pub make : ℕ → SrripSetHelper
make ways = record { ways = ways; rrpv_values = λ i. max_rrpv }

-- The way of the first maximum, with all values raised until that one is maxRRPV.
unfoldable pub victim : SrripSetHelper → SrripSetHelper × ℕ
victim s =
    let found = max_element s.rrpv_values (s.ways - 1) 1 0 in
    let diff = max_rrpv - s.rrpv_values found in
    (
      record s {
        rrpv_values = λ i. if ltb i s.ways then s.rrpv_values i + diff else s.rrpv_values i;
      },
      found,
    )

unfoldable pub update_way : ℕ → Bool → SrripSetHelper → SrripSetHelper
update_way way hit s = record s {
  rrpv_values = update s.rrpv_values way (if hit then 0 else max_rrpv - 1);
}

-- `srrip::find_victim` and `srrip::update_replacement_state`, on all sets.
unfoldable pub find_victim : ℕ → (ℕ → SrripSetHelper) → (ℕ → SrripSetHelper) × ℕ
find_victim set sets = let (after, way) = victim (sets set) in (update sets set after, way)

unfoldable pub update_replacement_state : ℕ → ℕ → Bool → (ℕ → SrripSetHelper) → ℕ → SrripSetHelper
update_replacement_state set way hit sets = update sets set (update_way way hit (sets set))

abbrev pub IsValid : SrripSetHelper → Type 0
IsValid s = (i : ℕ) → s.rrpv_values i ≤ max_rrpv

-- The victim is a way of the set, of the greatest value, which becomes maxRRPV; all ways of the set are
-- raised by the same difference; no value passes maxRRPV.
pub victim_lem :
    (s : SrripSetHelper) (i : ℕ)
    → IsValid s
    → i < s.ways
    → let (s', way) = victim s in
      (way < s.ways)
      × (s'.rrpv_values way ≡ max_rrpv)
      × (s.rrpv_values i ≤ s.rrpv_values way)
      × (s'.rrpv_values i + s.rrpv_values way ≡ s.rrpv_values i + max_rrpv)
      × IsValid s'
unfolding victim
victim_lem s i v lt =
    let best = max_element-range s.rrpv_values 0 s.ways (omega arith) in
    let found = max_element s.rrpv_values (s.ways - 1) 1 0 in
    let top = v found in
    (
      omega (arith, best.high),
      ground (arith, best.high, top),
      best.greatest i (omega arith) (omega arith),
      ground (arith, top),
      λ j. ground (arith, best.greatest j, v j, top),
    )
