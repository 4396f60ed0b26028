-- ===== src/Spp/Filter.antt =====
-- ChampSim/prefetcher/spp_dev/spp_dev.h and spp_dev.cc: PREFETCH_FILTER.
pub mod Laws
use cs230_branch_predictor.Prelude.{
  ℕ, ◌+◌, ◌-◌, ◌*◌, ◌/◌, ◌%◌, ◌^◌, Bool, true, false, not, ◌==◌, ◌&&◌, ◌||◌, bit_and, if◌then◌else◌,
  update,
}
use cs230_branch_predictor.Spp.{get_hash, quotient_bit, remainder_bit}
use cs230_branch_predictor.Spp.GlobalRegister.{GlobalRegister}

-- `FILTER_REQUEST`
pub data FilterRequest : Type 0 where
  spp_l2c_prefetch spp_llc_prefetch l2c_demand l2c_evict : FilterRequest

pub record PrefetchFilter : Type 0 where
  pub remainder_tag : ℕ → ℕ
  pub valid : ℕ → Bool
  pub useful : ℕ → Bool

-- The constructor.
abbrev pub start : PrefetchFilter
start = record { remainder_tag = λ i. 0; valid = λ i. false; useful = λ i. false }

abbrev pub quotient_of : ℕ → ℕ
quotient_of cache_line = bit_and (get_hash cache_line / 2 ^ remainder_bit) (2 ^ quotient_bit - 1)

abbrev pub remainder_of : ℕ → ℕ
remainder_of cache_line = get_hash cache_line % 2 ^ remainder_bit

abbrev pub holds : PrefetchFilter → ℕ → ℕ → Bool
holds f quotient remainder =
    (f.valid quotient || f.useful quotient) && f.remainder_tag quotient == remainder

-- The four cases of the switch, on the entry of the line.
abbrev pub on_l2c_prefetch : ℕ → ℕ → PrefetchFilter → PrefetchFilter × Bool
on_l2c_prefetch quotient remainder f = if holds f quotient remainder then (f, false) else (
  record {
    valid = update f.valid quotient true;
    useful = update f.useful quotient false;
    remainder_tag = update f.remainder_tag quotient remainder;
  },
  true,
)

abbrev pub on_demand : ℕ → ℕ → PrefetchFilter → GlobalRegister → PrefetchFilter × GlobalRegister
on_demand quotient remainder f ghr =
    if f.remainder_tag quotient == remainder && not (f.useful quotient)
    then (
      record f { useful = update f.useful quotient true },
      if f.valid quotient then record ghr { pf_useful = ghr.pf_useful + 1 } else ghr,
    )
    else (f, ghr)

abbrev pub on_evict : ℕ → PrefetchFilter → GlobalRegister → PrefetchFilter × GlobalRegister
on_evict quotient f ghr = (
  record {
    valid = update f.valid quotient false;
    useful = update f.useful quotient false;
    remainder_tag = update f.remainder_tag quotient 0;
  },
  if f.valid quotient && not (f.useful quotient)
      then record ghr { pf_useful = ghr.pf_useful - 1 }
      else ghr,
)

-- The filter, the global register and the answer. `pf_useful` is not decremented at 0.
unfoldable pub check :
    ℕ → FilterRequest → PrefetchFilter → GlobalRegister → PrefetchFilter × GlobalRegister × Bool
check cache_line spp_l2c_prefetch f ghr =
    let (f', answer) = on_l2c_prefetch (quotient_of cache_line) (remainder_of cache_line) f in
    (f', ghr, answer)
check cache_line spp_llc_prefetch f ghr =
    (f, ghr, not (holds f (quotient_of cache_line) (remainder_of cache_line)))
check cache_line l2c_demand f ghr =
    let (f', ghr') = on_demand (quotient_of cache_line) (remainder_of cache_line) f ghr in
    (f', ghr', true)
check cache_line l2c_evict f ghr =
    let (f', ghr') = on_evict (quotient_of cache_line) f ghr in (f', ghr', true)
