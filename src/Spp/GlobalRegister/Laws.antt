-- ===== src/Spp/GlobalRegister/Laws.antt =====
-- ChampSim/prefetcher/spp_dev/spp_dev.cc: the global register replaces an entry of little confidence,
-- and finds the entry of an offset with the most.
use mathlib.Core.Path.{subst}
use cs230_branch_predictor.Prelude.{
  ℕ, zero, suc, ◌+◌, ◌<◌, ◌≤◌, ◌≡◌, ◌≢◌, refl, sym, arith, true, ltb, ◌==◌, ◌&&◌, ◌⊎◌, some,
  if◌then◌else◌, Bool-cases, inl, inr,
}
use cs230_branch_predictor.Prelude.Int.{ℤ}
use cs230_branch_predictor.Prelude.Extrema.{last_or_below}
use cs230_branch_predictor.Spp.{max_ghr_entry}
use cs230_branch_predictor.Spp.GlobalRegister.{
  GhrEntry, GlobalRegister, Place, matching, victim, find_place, write_entry, update_entry,
  check_loop, check_entry,
}

-- The best entry before index i: none has the offset and confidence, or this one has the most.
abbrev IsBest : (ℕ → GhrEntry) → ℕ → ℕ → ℕ → ℕ → Type 0
IsBest entry offset i max_conf way =
    ((j : ℕ) → j < i → (entry j).offset ≡ offset → (entry j).confidence ≤ max_conf)
    × (((max_conf ≡ 0) × (way ≡ max_ghr_entry))
        ⊎ ((way < i) × ((entry way).offset ≡ offset) × ((entry way).confidence ≡ max_conf)))

step-IsBest :
    (entry : ℕ → GhrEntry) (offset i max_conf way : ℕ)
    → IsBest entry offset i max_conf way
    → let better = (entry i).offset == offset && ltb max_conf (entry i).confidence in
      IsBest entry offset
        (i + 1)
        (if better then (entry i).confidence else max_conf)
        (if better then i else way)
step-IsBest entry offset i max_conf way (most, is) =
    elim (Bool-cases ((entry i).offset == offset && ltb max_conf (entry i).confidence)) [
      | inl better ↦ rw better (
        λ j lt e. elim (last_or_below i j lt) [
          | inl here ↦ rw here (omega arith)
          | inr before ↦ ground (arith, most j before e)
        ],
        inr (omega arith, ground arith, refl),
      )
      | inr worse ↦ rw worse (
        λ j lt e. elim (last_or_below i j lt) [
          | inl here ↦ rw here (ground (arith, rw here at e))
          | inr before ↦ most j before e
        ],
        later is,
      )
    ]
  where
    later :
        ((max_conf ≡ 0) × (way ≡ max_ghr_entry))
          ⊎ ((way < i) × ((entry way).offset ≡ offset) × ((entry way).confidence ≡ max_conf))
        → ((max_conf ≡ 0) × (way ≡ max_ghr_entry))
          ⊎ ((way < i + 1) × ((entry way).offset ≡ offset) × ((entry way).confidence ≡ max_conf))
    later (inl h) = inl h
    later (inr (lt, e, c)) = inr (omega arith, e, c)

check_loop-IsBest :
    (entry : ℕ → GhrEntry) (offset rounds i max_conf way : ℕ)
    → IsBest entry offset i max_conf way
    → i + rounds ≡ max_ghr_entry
    → (top : ℕ) × IsBest entry offset max_ghr_entry top
        (check_loop entry offset rounds i max_conf way)
unfolding check_loop
check_loop-IsBest entry offset zero i max_conf way h e =
    (max_conf, subst (λ n. IsBest entry offset n max_conf way) (omega arith) h)
check_loop-IsBest entry offset (suc rounds) i max_conf way h e =
    check_loop-IsBest entry offset rounds (i + 1) _ _ (step-IsBest entry offset i max_conf way h)
      (omega arith)

-- The entry found is one with the offset and the most confidence among those with it. None is found
-- just where none with the offset has a confidence above 0.
pub check_entry_lem :
    (offset : ℕ) (s : GlobalRegister)
    → ((check_entry offset s ≡ max_ghr_entry)
        × ((j : ℕ) → j < max_ghr_entry → (s.entry j).offset ≡ offset → (s.entry j).confidence ≡ 0))
      ⊎ ((check_entry offset s < max_ghr_entry)
          × ((s.entry (check_entry offset s)).offset ≡ offset)
          × ((j : ℕ)
              → j < max_ghr_entry
              → (s.entry j).offset ≡ offset
              → (s.entry j).confidence ≤ (s.entry (check_entry offset s)).confidence))
unfolding check_entry
check_entry_lem offset s =
    let (top, (most, is)) =
      check_loop-IsBest s.entry offset max_ghr_entry 0 0 max_ghr_entry
        (λ j lt. absurd (omega arith), inl (refl, refl)) refl in
    elim is [
      | inl (low, e) ↦ inl (e, λ j lt same. omega (arith, most j lt same))
      | inr (inside, e, c) ↦ inr (inside, e, λ j lt same. omega (arith, most j lt same))
    ]

-- The place is an entry, and one that matches has the offset.
abbrev IsPlace : (ℕ → GhrEntry) → ℕ → Place → Type 0
IsPlace entry offset (matching i) = (i < max_ghr_entry) × ((entry i).offset ≡ offset)
IsPlace entry offset (victim i) = i < max_ghr_entry

find_place-IsPlace :
    (entry : ℕ → GhrEntry) (offset rounds i min_conf victim_way j : ℕ)
    → i + rounds ≡ max_ghr_entry
    → (victim_way < max_ghr_entry)
      ⊎ ((min_conf ≡ 100) × (i ≤ j) × (j < max_ghr_entry) × ((entry j).confidence < 100))
    → IsPlace entry offset (find_place entry offset rounds i min_conf victim_way)
unfolding find_place
find_place-IsPlace entry offset zero i min_conf victim_way j e (inl h) = h
find_place-IsPlace entry offset zero i min_conf victim_way j e (inr h) = absurd (omega (arith, h))
find_place-IsPlace entry offset (suc rounds) i min_conf victim_way j e h =
    elim (Bool-cases ((entry i).valid && (entry i).offset == offset)) [
      | inl found ↦ rw found (omega arith, ground arith)
      | inr other ↦ rw other (elim (Bool-cases (ltb (entry i).confidence min_conf)) [
        | inl smaller ↦
            rw smaller (
              find_place-IsPlace entry offset rounds (i + 1) _ _ j (omega arith)
                (inl (omega arith)))
        | inr larger ↦ rw larger (
            find_place-IsPlace entry offset rounds (i + 1) _ _ j (omega arith) (elim h [
              | inl known ↦ inl known
              | inr (full, low, small, below) ↦
                  let ne : i ≢ j = λ same. ground (arith, rw (sym same) at below) in
                  inr (full, omega arith, small, below)
            ]))
      ])
    ]

-- Where some entry has a confidence below 100, an update finds a place, so its assertion holds. If the
-- confidence given is above 0, the entry of the offset is then found, with that confidence or more.
pub update_entry_lem :
    (sig conf offset : ℕ) (delta : ℤ) (s : GlobalRegister) (j : ℕ)
    → j < max_ghr_entry
    → (s.entry j).confidence < 100
    → 0 < conf
    → (s' : GlobalRegister) × (update_entry sig conf offset delta s ≡ some s')
      × (check_entry offset s' < max_ghr_entry)
      × ((s'.entry (check_entry offset s')).offset ≡ offset)
      × (conf ≤ (s'.entry (check_entry offset s')).confidence)
unfolding update_entry
update_entry_lem sig conf offset delta s j small below some_conf =
    place (find_place s.entry offset max_ghr_entry 0 100 max_ghr_entry) (
      find_place-IsPlace s.entry offset max_ghr_entry 0 100 max_ghr_entry j refl
        (inr (refl, omega arith, small, below)))
  where
    read :
        (s' : GlobalRegister) (i : ℕ)
        → i < max_ghr_entry
        → (s'.entry i).offset ≡ offset
        → (s'.entry i).confidence ≡ conf
        → (check_entry offset s' < max_ghr_entry)
          × ((s'.entry (check_entry offset s')).offset ≡ offset)
          × (conf ≤ (s'.entry (check_entry offset s')).confidence)
    read s' i lt o c = elim (check_entry_lem offset s') [
      | inl (missing, none_has) ↦ absurd (omega (arith, none_has i lt o))
      | inr (inside, e, most) ↦ (inside, e, omega (arith, most i lt o))
    ]

    place :
        (p : Place)
        → IsPlace s.entry offset p
        → (s' : GlobalRegister) × (write_entry sig conf offset delta s p ≡ some s')
          × (check_entry offset s' < max_ghr_entry)
          × ((s'.entry (check_entry offset s')).offset ≡ offset)
          × (conf ≤ (s'.entry (check_entry offset s')).confidence)
    place (matching i) (lt, o) =
        let (a, b, c) = read _ i lt (ground (arith, o)) (ground arith) in (_, refl, a, b, c)
    place (victim i) lt =
        let inside : ltb i max_ghr_entry ≡ true = ground arith in
        rw inside (let (a, b, c) = read _ i lt (ground arith) (ground arith) in (_, refl, a, b, c))
