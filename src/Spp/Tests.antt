-- ===== src/Spp/Tests.antt =====
-- The theorems on the signature path prefetcher, at its start and on a state with one page.
use cs230_branch_predictor.Prelude.{◌<◌, ◌≤◌, ◌≡◌, refl, arith, true, some, not, ◌==◌, [], ◌∷◌, inr}
use cs230_branch_predictor.Prelude.Int.{pos}
use cs230_branch_predictor.Spp.{st_way, max_ghr_entry}
use cs230_branch_predictor.Spp.GlobalRegister
use cs230_branch_predictor.Spp.GlobalRegister.{GlobalRegister, update_entry, check_entry}
use cs230_branch_predictor.Spp.GlobalRegister.Laws.{update_entry_lem}
use cs230_branch_predictor.Spp.Ranking.{IsRanking}
use cs230_branch_predictor.Spp.SignatureTable
use cs230_branch_predictor.Spp.SignatureTable.{SignatureTable, Reading, read_and_update_sig}
use cs230_branch_predictor.Spp.PatternTable
use cs230_branch_predictor.Spp.PatternTable.Laws.{IsValidTable}
use cs230_branch_predictor.Spp.Filter
use cs230_branch_predictor.Spp.Filter.{
  PrefetchFilter, check, spp_l2c_prefetch, spp_llc_prefetch, l2c_demand, l2c_evict, remainder_of,
}
use cs230_branch_predictor.Spp.Filter.Laws.{requests, filter_refuses}
use cs230_branch_predictor.Spp.Operate
use cs230_branch_predictor.Spp.Operate.{
  Spp, Outcome, ends, fails, unfinished, page_of, access, prefetcher_cache_operate,
}
use cs230_branch_predictor.Spp.Operate.Laws.{IsValid, IsLearned, access_lem}

start-IsRanking : IsRanking st_way SignatureTable.start.lru
start-IsRanking = record {
  inside = λ w lt. lt;
  injective = λ v w sv sw e. e;
  onto = λ r lt. (r, lt, refl);
}

start_patterns : IsValidTable PatternTable.start
start_patterns set = record {
  small = omega arith;
  below = λ w lt used. absurd (used refl);
  fresh = λ w lt e. (refl, refl);
}

start-IsValid : IsValid Operate.start
start-IsValid = record { ages = start-IsRanking; patterns = start_patterns }

update_entry_lem_example :
    (s' : GlobalRegister) × (update_entry 21 60 5 (pos 3) GlobalRegister.start ≡ some s')
    × (check_entry 5 s' < max_ghr_entry)
    × ((s'.entry (check_entry 5 s')).offset ≡ 5)
    × (60 ≤ (s'.entry (check_entry 5 s')).confidence)
update_entry_lem_example =
    update_entry_lem 21 60 5 (pos 3) GlobalRegister.start 0 (omega arith) (omega arith)
      (omega arith)

-- Line 77 is demanded and prefetched again, and then evicted.
abbrev requested : PrefetchFilter × GlobalRegister
requested =
    let first = check 77 spp_l2c_prefetch Filter.start GlobalRegister.start in
    requests ((77, l2c_demand) ∷ (77, spp_l2c_prefetch) ∷ []) (first.0, first.1)

abbrev released : PrefetchFilter × GlobalRegister
released =
    let evicted = check 77 l2c_evict requested.0 requested.1 in
    requests ((77, spp_llc_prefetch) ∷ []) (evicted.0, evicted.1)

filter_refuses_example :
    ((check 77 spp_l2c_prefetch requested.0 requested.1).2
      ≡ not (remainder_of 77 == remainder_of 77))
    × ((check 77 spp_llc_prefetch requested.0 requested.1).2
        ≡ not (remainder_of 77 == remainder_of 77))
    × ((check 77 spp_l2c_prefetch released.0 released.1).2 ≡ true)
    × ((check 77 spp_llc_prefetch released.0 released.1).2 ≡ true)
filter_refuses_example =
    filter_refuses 77 77 77 ((77, l2c_demand) ∷ (77, spp_l2c_prefetch) ∷ [])
      ((77, spp_llc_prefetch) ∷ []) Filter.start GlobalRegister.start (inr tt, (inr refl, tt)) refl
      refl (tt, tt)

access_lem_example : IsLearned 58 6 32 1000 (access 58 6 32 1000 Operate.start)
access_lem_example = access_lem 58 6 32 1000 Operate.start start-IsValid
