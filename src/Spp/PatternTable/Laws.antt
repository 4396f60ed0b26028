-- ===== src/Spp/PatternTable/Laws.antt =====
-- ChampSim/prefetcher/spp_dev/spp_dev.cc: the counters of the pattern table, and that an update always
-- finds a way.
use cs230_branch_predictor.Prelude.{
  ℕ, zero, suc, ◌+◌, ◌*◌, ◌/◌, ◌<◌, ◌≤◌, ◌≡◌, ◌≢◌, refl, arith, true, false, ltb, ◌==◌, Option,
  none, some, update, Bool-cases, if_cases, inl, inr,
}
use native.Mathlib.Nat.{div-lt_iff_lt-mul}
use cs230_branch_predictor.Prelude.Int.{ℤ, pos, eq_ℤ}
use cs230_branch_predictor.Prelude.Search.{IsFirst, find_first-IsFirst}
use cs230_branch_predictor.Spp.{pt_way, c_sig_max}
use cs230_branch_predictor.Spp.PatternTable.{
  PatternSet, PatternTable, set_of, age, hit_delta, victim_loop, update_set, find_delta,
  update_pattern,
}

-- The counter of the signature is at most C_SIG_MAX, that of each delta below it, and before the first
-- update of the set everything is 0.
pub record IsValid (p : PatternSet) : Type 0 where
  pub small : p.c_sig ≤ c_sig_max
  pub below : (w : ℕ) → w < pt_way → p.c_sig ≢ 0 → p.c_delta w < p.c_sig
  pub fresh : (w : ℕ) → w < pt_way → p.c_sig ≡ 0 → (p.c_delta w ≡ 0) × (p.delta w ≡ pos 0)

-- After a counter was raised and before the ages.
record IsRaised (p : PatternSet) : Type 0 where
  small : p.c_sig ≤ c_sig_max + 1
  positive : 1 ≤ p.c_sig
  below : (w : ℕ) → w < pt_way → p.c_delta w < p.c_sig

age-IsValid : (p : PatternSet) → IsRaised p → IsValid (age p)
age-IsValid p h =
    if_cases {A = PatternSet} IsValid (ltb c_sig_max p.c_sig)
      (λ full. record {
        small = omega (arith, h.small);
        below = λ w lt ne. ground (arith, h.below w lt, h.small);
        fresh = λ w lt e. absurd (ground (arith, h.small));
      })
      (λ room. record {
        small = ground arith;
        below = λ w lt ne. h.below w lt;
        fresh = λ w lt e. absurd (omega (arith, h.positive));
      })

hit-IsValid :
    (match : ℕ) (p : PatternSet) (curr_delta : ℤ)
    → IsValid p
    → match < pt_way
    → eq_ℤ curr_delta (pos 0) ≡ false
    → eq_ℤ (p.delta match) curr_delta ≡ true
    → IsValid (hit_delta match p)
hit-IsValid match p curr_delta v lt ne found =
    let used : p.c_sig ≢ 0 = λ e. ground (arith, (v.fresh match lt e).1) in
    age-IsValid
      (record p { c_delta = update p.c_delta match (p.c_delta match + 1); c_sig = p.c_sig + 1 })
      (record {
        small = omega (arith, v.small);
        positive = omega arith;
        below = λ w inside. ground (arith, v.below w inside used, v.below match lt used);
      })

-- The victim is a way where some way is below the bound.
victim_inside :
    (c_delta : ℕ → ℕ) (rounds match min_counter victim_way : ℕ)
    → match + rounds ≡ pt_way
    → victim_way < pt_way
    → victim_loop c_delta rounds match min_counter victim_way < pt_way
unfolding victim_loop
victim_inside c_delta zero match min_counter victim_way e lt = lt
victim_inside c_delta (suc rounds) match min_counter victim_way e lt =
    victim_inside c_delta rounds (match + 1) _ _ (omega arith)
      (if_cases (λ x. x < pt_way) (ltb (c_delta match) min_counter) (λ _. omega arith) (λ _. lt))

victim_found :
    (p : PatternSet) → IsValid p → victim_loop p.c_delta pt_way 0 c_sig_max pt_way < pt_way
unfolding victim_loop
victim_found p v =
    let low : p.c_delta 0 < c_sig_max = elim (Bool-cases (p.c_sig == 0)) [
      | inl unused ↦ omega (arith, (v.fresh 0 (omega arith) (ground arith)).0)
      | inr used ↦ omega (arith, v.small, v.below 0 (omega arith) (ground arith))
    ] in
    let first : ltb (p.c_delta 0) c_sig_max ≡ true = ground arith in
    rw first (victim_inside p.c_delta 3 1 (p.c_delta 0) 0 refl (omega arith))

replaced-IsRaised :
    (p : PatternSet) (curr_delta : ℤ) (victim : ℕ)
    → IsValid p
    → IsRaised (record p {
      delta = update p.delta victim curr_delta;
      c_delta = update p.c_delta victim 0;
      c_sig = p.c_sig + 1;
    })
replaced-IsRaised p curr_delta victim v = record {
  small = omega (arith, v.small);
  positive = omega arith;
  below = λ w lt. elim (Bool-cases (p.c_sig == 0)) [
    | inl unused ↦ ground (arith, v.fresh w lt (ground arith))
    | inr used ↦ ground (arith, v.below w lt (ground arith))
  ];
}

-- The set has the delta in one of its ways.
abbrev pub Has : ℤ → PatternSet → Type 0
Has delta p = (w : ℕ) × (w < pt_way) × (eq_ℤ (p.delta w) delta ≡ true)

age-Has : (delta : ℤ) (p : PatternSet) → Has delta p → Has delta (age p)
age-Has delta p h = if_cases {A = PatternSet} (Has delta) (ltb c_sig_max p.c_sig) (λ _. h) (λ _. h)

-- What an update of a set promises.
abbrev IsUpdated : ℤ → Option PatternSet → Type 0
IsUpdated delta o = (p : PatternSet) × (o ≡ some p) × IsValid p × Has delta p

set-IsUpdated :
    (delta : ℤ) (p : PatternSet) (o : Option ℕ)
    → IsValid p
    → eq_ℤ delta (pos 0) ≡ false
    → IsFirst (λ w. eq_ℤ (p.delta w) delta) 0 pt_way o
    → IsUpdated delta (update_set delta p o)
set-IsUpdated delta p (some way) v ne (low, inside, found, before) = (
  hit_delta way p,
  refl,
  hit-IsValid way p delta v inside ne found,
  age-Has delta
      (record p { c_delta = update p.c_delta way (p.c_delta way + 1); c_sig = p.c_sig + 1 })
      (way, inside, found),
)
set-IsUpdated delta p none v ne absent =
    let victim = victim_loop p.c_delta pt_way 0 c_sig_max pt_way in
    let inside : ltb victim pt_way ≡ true = ground (arith, victim_found p v) in
    let written : PatternSet = record p {
      delta = update p.delta victim delta;
      c_delta = update p.c_delta victim 0;
      c_sig = p.c_sig + 1;
    } in
    rw inside (
      age written,
      refl,
      age-IsValid written (replaced-IsRaised p delta victim v),
      age-Has delta written (victim, victim_found p v, ground arith),
    )

abbrev pub IsValidTable : PatternTable → Type 0
IsValidTable pt = (set : ℕ) → IsValid (pt set)

-- An update of a valid table with a delta that is not 0 finds a way, so the assertion holds; the table
-- is valid after it and the set of the signature has the delta.
pub update_pattern_lem :
    (last_sig : ℕ) (delta : ℤ) (pt : PatternTable)
    → IsValidTable pt
    → eq_ℤ delta (pos 0) ≡ false
    → (pt' : PatternTable) × (update_pattern last_sig delta pt ≡ some pt')
      × IsValidTable pt'
      × Has delta (pt' (set_of last_sig))
unfolding update_pattern
update_pattern_lem last_sig delta pt v ne =
    let set = set_of last_sig in
    let p = pt set in
    let (p', e, valid, has) =
      set-IsUpdated delta p (find_delta delta p) (v set) ne
        (find_first-IsFirst (λ w. eq_ℤ (p.delta w) delta) pt_way 0 pt_way refl) in
    let here : (set == set) ≡ true = ground arith in
    rw e (
      update pt set p',
      refl,
      λ other. if_cases {A = PatternSet} IsValid (other == set) (λ _. valid) (λ _. v other),
      rw here has,
    )

-- Confidences of the first depth are below 100.
pub local_conf-lt :
    (p : PatternSet) (w : ℕ)
    → IsValid p
    → w < pt_way
    → p.c_sig ≢ 0
    → 100 * p.c_delta w / p.c_sig < 100
local_conf-lt p w v lt used = (div-lt_iff_lt-mul (omega arith)).1 (omega (arith, v.below w lt used))
