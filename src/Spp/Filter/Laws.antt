-- ===== src/Spp/Filter/Laws.antt =====
-- ChampSim/prefetcher/spp_dev/spp_dev.cc: the filter refuses a line until its entry is replaced or
-- evicted. A line selects an entry by its quotient and is told apart in it by its remainder.
use cs230_branch_predictor.Prelude.{
  ℕ, ◌≡◌, ◌≢◌, ◌⊎◌, arith, true, false, not, ◌==◌, ◌||◌, List, [], ◌∷◌,
}
use cs230_branch_predictor.Prelude.Lists.{All}
use cs230_branch_predictor.Spp.GlobalRegister.{GlobalRegister}
use cs230_branch_predictor.Spp.Filter.{
  PrefetchFilter, FilterRequest, spp_l2c_prefetch, spp_llc_prefetch, l2c_demand, l2c_evict, check,
  quotient_of, remainder_of,
}

-- The filter and the global register after requests, the first of the list first.
abbrev pub requests :
    List (ℕ × FilterRequest) → PrefetchFilter × GlobalRegister → PrefetchFilter × GlobalRegister
requests [] s = s
requests ((line, request) ∷ rest) (f, ghr) =
    let r = check line request f ghr in requests rest (r.0, r.1)

-- The request is no eviction, and no prefetch into the L2C of a line of another remainder.
abbrev pub IsQuiet : ℕ → FilterRequest → ℕ → Type 0
IsQuiet remainder spp_l2c_prefetch line = remainder_of line ≡ remainder
IsQuiet remainder spp_llc_prefetch line = Unit
IsQuiet remainder l2c_demand line = Unit
IsQuiet remainder l2c_evict line = ⊥

-- The request does not release the entry of a line: it is quiet, or it is of another entry.
abbrev pub KeepsEntry : ℕ → ℕ × FilterRequest → Type 0
KeepsEntry a (line, request) =
    (quotient_of line ≢ quotient_of a) ⊎ IsQuiet (remainder_of a) request line

-- The entry holds the remainder.
abbrev Holds : ℕ → ℕ → PrefetchFilter → Type 0
Holds q r f = ((f.valid q || f.useful q) ≡ true) × (f.remainder_tag q ≡ r)

request-Holds :
    (a line : ℕ) (request : FilterRequest) (f : PrefetchFilter) (ghr : GlobalRegister)
    → KeepsEntry a (line, request)
    → Holds (quotient_of a) (remainder_of a) f
    → Holds (quotient_of a) (remainder_of a) (check line request f ghr).0
unfolding check
request-Holds a line spp_l2c_prefetch f ghr keeps h = ground arith
request-Holds a line spp_llc_prefetch f ghr keeps h = h
request-Holds a line l2c_demand f ghr keeps h = ground arith
request-Holds a line l2c_evict f ghr keeps h = ground arith

requests-Holds :
    (a : ℕ) (list : List (ℕ × FilterRequest)) (f : PrefetchFilter) (ghr : GlobalRegister)
    → All (KeepsEntry a) list
    → Holds (quotient_of a) (remainder_of a) f
    → Holds (quotient_of a) (remainder_of a) (requests list (f, ghr)).0
requests-Holds a [] f ghr keeps h = h
requests-Holds a ((line, request) ∷ rest) f ghr keeps h =
    requests-Holds a rest _ _ keeps.1 (request-Holds a line request f ghr keeps.0 h)

prefetch-Holds :
    (a : ℕ) (f : PrefetchFilter) (ghr : GlobalRegister)
    → Holds (quotient_of a) (remainder_of a) (check a spp_l2c_prefetch f ghr).0
unfolding check
prefetch-Holds a f ghr = ground arith

Holds-answers :
    (a b : ℕ) (f : PrefetchFilter) (ghr : GlobalRegister)
    → quotient_of b ≡ quotient_of a
    → Holds (quotient_of a) (remainder_of a) f
    → ((check b spp_l2c_prefetch f ghr).2 ≡ not (remainder_of a == remainder_of b))
      × ((check b spp_llc_prefetch f ghr).2 ≡ not (remainder_of a == remainder_of b))
unfolding check
Holds-answers a b f ghr same h = ground arith

-- The request does not use the entry of a line: it is of another entry, or neither a prefetch into the
-- L2C nor a demand.
abbrev pub LeavesFree : ℕ → ℕ × FilterRequest → Type 0
LeavesFree a (line, spp_l2c_prefetch) = quotient_of line ≢ quotient_of a
LeavesFree a (line, spp_llc_prefetch) = Unit
LeavesFree a (line, l2c_demand) = quotient_of line ≢ quotient_of a
LeavesFree a (line, l2c_evict) = Unit

abbrev IsFree : ℕ → PrefetchFilter → Type 0
IsFree q f = (f.valid q || f.useful q) ≡ false

request-IsFree :
    (a line : ℕ) (request : FilterRequest) (f : PrefetchFilter) (ghr : GlobalRegister)
    → LeavesFree a (line, request)
    → IsFree (quotient_of a) f
    → IsFree (quotient_of a) (check line request f ghr).0
unfolding check
request-IsFree a line spp_l2c_prefetch f ghr leaves h = ground arith
request-IsFree a line spp_llc_prefetch f ghr leaves h = h
request-IsFree a line l2c_demand f ghr leaves h = ground arith
request-IsFree a line l2c_evict f ghr leaves h = ground arith

requests-IsFree :
    (a : ℕ) (list : List (ℕ × FilterRequest)) (f : PrefetchFilter) (ghr : GlobalRegister)
    → All (LeavesFree a) list
    → IsFree (quotient_of a) f
    → IsFree (quotient_of a) (requests list (f, ghr)).0
requests-IsFree a [] f ghr leaves h = h
requests-IsFree a ((line, request) ∷ rest) f ghr leaves h =
    requests-IsFree a rest _ _ leaves.1 (request-IsFree a line request f ghr leaves.0 h)

evict-IsFree :
    (a line : ℕ) (f : PrefetchFilter) (ghr : GlobalRegister)
    → quotient_of line ≡ quotient_of a
    → IsFree (quotient_of a) (check line l2c_evict f ghr).0
unfolding check
evict-IsFree a line f ghr same = ground arith

IsFree-answers :
    (b : ℕ) (f : PrefetchFilter) (ghr : GlobalRegister)
    → IsFree (quotient_of b) f
    → ((check b spp_l2c_prefetch f ghr).2 ≡ true) × ((check b spp_llc_prefetch f ghr).2 ≡ true)
unfolding check
IsFree-answers b f ghr h = ground arith

-- After a request to prefetch line a into the L2C, and any requests that are of other entries or that
-- are neither an eviction nor a prefetch into the L2C of a line of another remainder, a prefetch of a
-- line b of the same entry is refused exactly if b has the remainder of a. After an eviction of any
-- line c of that entry, and any requests that are of other entries, evictions or prefetches into the
-- LLC, a prefetch of b is allowed.
pub filter_refuses :
    (a b c : ℕ) (list later : List (ℕ × FilterRequest)) (f : PrefetchFilter) (ghr : GlobalRegister)
    → All (KeepsEntry a) list
    → quotient_of b ≡ quotient_of a
    → quotient_of c ≡ quotient_of b
    → All (LeavesFree b) later
    → let first = check a spp_l2c_prefetch f ghr in
      let held = requests list (first.0, first.1) in
      let evicted = check c l2c_evict held.0 held.1 in
      let free = requests later (evicted.0, evicted.1) in
      ((check b spp_l2c_prefetch held.0 held.1).2 ≡ not (remainder_of a == remainder_of b))
      × ((check b spp_llc_prefetch held.0 held.1).2 ≡ not (remainder_of a == remainder_of b))
      × ((check b spp_l2c_prefetch free.0 free.1).2 ≡ true)
      × ((check b spp_llc_prefetch free.0 free.1).2 ≡ true)
filter_refuses a b c list later f ghr keeps same other leaves =
    let first = check a spp_l2c_prefetch f ghr in
    let held = requests list (first.0, first.1) in
    let evicted = check c l2c_evict held.0 held.1 in
    let answers =
      Holds-answers a b held.0 held.1 same
        (requests-Holds a list _ _ keeps (prefetch-Holds a f ghr)) in
    let allowed =
      IsFree-answers b _ (requests later (evicted.0, evicted.1)).1
        (requests-IsFree b later _ _ leaves (evict-IsFree b c held.0 held.1 other)) in
    (answers.0, answers.1, allowed.0, allowed.1)
