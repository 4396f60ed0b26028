-- ===== src/LoopPredictor/Frame.antt =====
-- ChampSim/branch/LTage/loop_predictor.h: what an update leaves alone, the bounds of the entries, and
-- which addresses hit right after initialisation.
use Prim.Native.Nat.{zero-le}
use native.Mathlib.Nat.{mod-lt}
use cs230_branch_predictor.Prelude.{
  ℕ, ◌/◌, ◌^◌, ◌≤◌, ◌<◌, ◌≡◌, ◌≢◌, ◌↔◌, refl, arith, Bool, true, ◌==◌, Option, none, some,
}
use cs230_branch_predictor.Prelude.Search.{find_first, IsFirst, search-IsFirst}
use cs230_branch_predictor.Prelude.Digits.{bit_and_mask}
use cs230_branch_predictor.LoopPredictor.Learn.{Misses}
use cs230_branch_predictor.LoopPredictor.{
  LoopPredictor, LoopEntry, num_ways, num_sets, iter_max, age_max, confidence_max, tag_width,
  index_of, tag_of, matches, predict_way, predict_branch, allocated, allocate_way, has_expired,
  update_entry, component_after, last_branch_result, loop_predictor_init, aged,
}

-- The counters fit 14, 14, 2 and 8 bits, and the tag fits 14.
pub record EntryIsValid (e : LoopEntry) : Type 0 where
  pub past : e.past_iter_cnt ≤ iter_max
  pub curr : e.curr_iter_cnt ≤ iter_max
  pub tag : e.tag < 2 ^ tag_width
  pub confidence : e.confidence ≤ confidence_max
  pub age : e.age ≤ age_max

pub record IsValid (s : LoopPredictor) : Type 0 where
  pub entries : (i j : ℕ) → i < num_sets → j < num_ways → EntryIsValid (s.loop_component i j)
  pub index_in : s.loop_branch_info.hit ≡ true → s.loop_branch_info.index < num_sets
  pub way_in : s.loop_branch_info.hit ≡ true → s.loop_branch_info.way < num_ways

update_entry-IsValid :
    (valid prediction taken : Bool) (e : LoopEntry)
    → EntryIsValid e
    → EntryIsValid (update_entry valid prediction taken e)
unfolding update_entry
update_entry-IsValid valid prediction taken e v = ground arith

tag_of-lt : (ip : ℕ) → tag_of ip < 2 ^ tag_width
tag_of-lt ip = omega (arith, bit_and_mask 14 (ip / 64))

allocated-IsValid : (ip : ℕ) → EntryIsValid (allocated (tag_of ip))
allocated-IsValid ip = omega (arith, tag_of-lt ip)

predict_way-IsValid :
    (s : LoopPredictor) (ip : ℕ) (o : Option ℕ)
    → IsFirst (matches s ip) 0 num_ways o
    → IsValid s
    → IsValid (predict_way s ip o)
predict_way-IsValid s ip none h v = record {
  entries = v.entries;
  index_in = λ e. cc;
  way_in = λ e. cc;
}
predict_way-IsValid s ip (some w) h v = record {
  entries = v.entries;
  index_in = λ _. mod-lt ip (omega arith);
  way_in = λ _. h.1;
}

pub predict_branch-IsValid :
    (s : LoopPredictor) (ip : ℕ) → IsValid s → IsValid (predict_branch s ip).0
unfolding predict_branch
predict_branch-IsValid s ip v =
    predict_way-IsValid s ip _ (search-IsFirst (matches s ip) 0 num_ways) v

aged-IsValid : (e : LoopEntry) → EntryIsValid e → EntryIsValid (aged e)
aged-IsValid e v = ground arith

allocate_way-IsValid :
    (s : LoopPredictor) (ip : ℕ) (o : Option ℕ) (i j : ℕ)
    → EntryIsValid (s.loop_component i j)
    → EntryIsValid (allocate_way s ip o i j)
allocate_way-IsValid s ip none i j v =
    let older = aged-IsValid (s.loop_component i j) v in ground arith
allocate_way-IsValid s ip (some w) i j v = ground (arith, allocated-IsValid ip)

component_after-IsValid :
    (s : LoopPredictor) (ip : ℕ) (taken : Bool) (i j : ℕ)
    → IsValid s
    → i < num_sets
    → j < num_ways
    → EntryIsValid (component_after s ip taken i j)
component_after-IsValid s ip taken i j v hi hj =
    let info = s.loop_branch_info in
    let hit_entry = s.loop_component info.index info.way in
    ground (
      arith,
      v.entries i j hi hj,
      v.index_in,
      v.way_in,
      v.entries info.index info.way,
      update_entry-IsValid info.is_valid_loop_prediction info.prediction taken hit_entry,
      allocate_way-IsValid s ip (find_first (has_expired s ip) num_ways 0) i j,
    )

-- From a valid state a prediction followed by the update, for any branches, reaches a valid state:
-- every counter fits its width, and every way that is written lies in the table.
pub predict_update-IsValid :
    (ip : ℕ) (taken : Bool) (s : LoopPredictor)
    → IsValid s
    → IsValid (predict_branch s ip).0 × IsValid (last_branch_result ip taken s)
unfolding last_branch_result
predict_update-IsValid ip taken s v = (
  predict_branch-IsValid s ip v,
  record {
    entries = λ i j hi hj. component_after-IsValid s ip taken i j v hi hj;
    index_in = v.index_in;
    way_in = v.way_in;
  },
)

allocate_way-other :
    (s : LoopPredictor) (ip : ℕ) (o : Option ℕ) (i j : ℕ)
    → i ≢ index_of ip
    → allocate_way s ip o i j ≡ s.loop_component i j
allocate_way-other s ip none i j other = ground arith
allocate_way-other s ip (some w) i j other = ground arith

-- A branch that is predicted and updated changes no entry of another set.
pub other_sets :
    (ip : ℕ) (taken : Bool) (s : LoopPredictor) (i j : ℕ)
    → i ≢ index_of ip
    → (last_branch_result ip taken (predict_branch s ip).0).loop_component i j
      ≡ s.loop_component i j
unfolding last_branch_result predict_branch
other_sets ip taken s i j other = go (find_first (matches s ip) num_ways 0)
  where
    go : (o : Option ℕ) → component_after (predict_way s ip o) ip taken i j ≡ s.loop_component i j
    go none =
        let s' = predict_way s ip none in
        ground
          (arith, allocate_way-other s' ip (find_first (has_expired s' ip) num_ways 0) i j other)
    go (some w) = ground arith

init_matches :
    (s : LoopPredictor) (ip j : ℕ)
    → j < num_ways
    → matches (loop_predictor_init s) ip j ≡ (0 == tag_of ip)
unfolding loop_predictor_init
init_matches s ip j h = ground (arith, mod-lt ip {m = num_sets} (omega arith))

init_hits_way :
    (s : LoopPredictor) (ip : ℕ) (o : Option ℕ)
    → IsFirst (matches (loop_predictor_init s) ip) 0 num_ways o
    → ((predict_way (loop_predictor_init s) ip o).loop_branch_info.hit ≡ true) ↔ (tag_of ip ≡ 0)
init_hits_way s ip none h =
    ((λ e. cc), λ e. ground (arith, h 0 zero-le (omega arith), init_matches s ip 0 (omega arith)))
init_hits_way s ip (some w) h = ((λ e. ground (arith, h.2, init_matches s ip w h.1)), λ e. refl)

-- Right after initialisation exactly the addresses of tag 0 hit, though no entry was allocated.
pub init_hits :
    (s : LoopPredictor) (ip : ℕ)
    → ((predict_branch (loop_predictor_init s) ip).0.loop_branch_info.hit ≡ true) ↔ (tag_of ip ≡ 0)
unfolding predict_branch
init_hits s ip =
    init_hits_way s ip _ (search-IsFirst (matches (loop_predictor_init s) ip) 0 num_ways)

-- The branches of any other tag miss, and the first way of their set may be replaced.
pub init-Misses : (s : LoopPredictor) (ip : ℕ) → tag_of ip ≢ 0 → Misses (loop_predictor_init s) ip 0
init-Misses s ip tagged = (
  λ j lo hi. ground (arith, init_matches s ip j hi),
  (
    zero-le,
    omega arith,
    unfold loop_predictor_init in ground (arith, mod-lt ip {m = num_sets} (omega arith)),
    λ j lo hi. absurd (omega arith),
  ),
)
