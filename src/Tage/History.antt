-- ===== src/Tage/History.antt =====
-- ChampSim/branch/Tage/tage.cc: what the history registers hold, and what `get_ghist_hash` makes of
-- the global one.
use native.Mathlib.Nat.{mod-eq_of_lt, mod-lt, pow-le-pow_right, one-le-pow, zero-div}
use cs230_branch_predictor.Prelude.{
  ℕ, zero, suc, ◌+◌, ◌-◌, ◌*◌, ◌%◌, ◌^◌, ◌≤◌, ◌<◌, ◌≡◌, refl, arith, Bool, true, false, ◌==◌, ◌&&◌,
  if◌then◌else◌, List, [], ◌∷◌, Option, none, some, bit_xor, bit_or, bit_and, ◌∙◌, ltb,
}
use cs230_branch_predictor.Prelude.Digits.{
  bit_at, bit_at-bit_xor, bit_at-pow, bit_or-push, bit_and_mask, bit_xor-lt,
}
use cs230_branch_predictor.Tage.{Tage, ghist_bits}
use cs230_branch_predictor.Tage.Hash.{fold_history, get_ghist_hash, low_word}
use cs230_branch_predictor.Tage.Predict.{predict_branch}
use cs230_branch_predictor.Tage.Update.{
  last_branch_result, update_histories, age_useful, allocate, update_u, update_altpred, update_ctr,
  ctr_for, update_use_alt, push_history,
}
use cs230_branch_predictor.Tage.Bounds.{pow_grows}

-- How many outcomes of `rounds` from the i-th on are taken and fall on bit p of the hash.
abbrev pub taken_at : (ℕ → Bool) → ℕ → ℕ → ℕ → ℕ → ℕ
taken_at ghist out_size p zero i = 0
taken_at ghist out_size p (suc rounds) i =
    (if ghist i && p == i % out_size then 1 else 0) + taken_at ghist out_size p rounds (i + 1)

-- One round of the loop.
abbrev round : Bool → ℕ → ℕ → ℕ
round set pos hash = if set then bit_xor hash (2 ^ pos) % 2 ^ 32 else hash

round-lt :
    (set : Bool) (out_size pos hash : ℕ)
    → pos < out_size
    → out_size ≤ 32
    → hash < 2 ^ out_size
    → (bit_xor hash (2 ^ pos) % 2 ^ 32 ≡ bit_xor hash (2 ^ pos))
      × (round set pos hash < 2 ^ out_size)
round-lt set out_size pos hash below le fits =
    let small = bit_xor-lt out_size hash (2 ^ pos) fits (pow_grows pos out_size below) in
    let kept : bit_xor hash (2 ^ pos) % 2 ^ 32 ≡ bit_xor hash (2 ^ pos) =
      mod-eq_of_lt (omega (arith, pow-le-pow_right {n = 2} (omega arith) le)) in
    (kept, ground arith)

round-bit :
    (set : Bool) (out_size pos hash p : ℕ)
    → pos < out_size
    → out_size ≤ 32
    → hash < 2 ^ out_size
    → bit_at (round set pos hash) p ≡ (bit_at hash p + (if set && p == pos then 1 else 0)) % 2
round-bit false out_size pos hash p below le fits = omega arith
round-bit true out_size pos hash p below le fits =
    rw
      (
        (round-lt true out_size pos hash below le fits).0,
        bit_at-bit_xor p hash (2 ^ pos),
        bit_at-pow p pos,
      )
      refl

fold_history-bit :
    (ghist : ℕ → Bool) (out_size p rounds i hash : ℕ)
    → 0 < out_size
    → out_size ≤ 32
    → hash < 2 ^ out_size
    → bit_at (fold_history ghist out_size rounds i hash) p
      ≡ (bit_at hash p + taken_at ghist out_size p rounds i) % 2
unfolding fold_history
fold_history-bit ghist out_size p zero i hash pos le fits = omega arith
fold_history-bit ghist out_size p (suc rounds) i hash pos le fits =
    let below : i % out_size < out_size = mod-lt i pos in
    let hash' = round (ghist i) (i % out_size) hash in
    let later =
      fold_history-bit ghist out_size p rounds (i + 1) hash' pos le
        (round-lt (ghist i) out_size (i % out_size) hash below le fits).1 in
    omega (arith, later, round-bit (ghist i) out_size (i % out_size) hash p below le fits)

-- Bit p of the compressed history is the parity of the number of taken branches among the last
-- `in_size` whose position is p modulo `out_size`: no outcome in the window is lost or counted twice.
pub get_ghist_hash-bit :
    (ghist : ℕ → Bool) (in_size out_size p : ℕ)
    → 0 < out_size
    → out_size ≤ 32
    → bit_at (get_ghist_hash ghist in_size out_size) p ≡ taken_at ghist out_size p in_size 0 % 2
unfolding get_ghist_hash
get_ghist_hash-bit ghist in_size out_size p pos le = omega (
  arith,
  fold_history-bit ghist out_size p in_size 0 0 pos le (one-le-pow out_size 2 (omega arith)),
  zero-div (2 ^ p),
)

-- A branch as the simulator reports it: its address, the value that `rand()` gave, its outcome.
pub record Branch : Type 0 where
  pub ip : ℕ
  pub rand : ℕ
  pub taken : Bool

-- A run of the predictor over a trace, the latest branch first.
abbrev pub run : Tage → List Branch → Tage
run s [] = s
run s (b ∷ before) = last_branch_result b.rand b.ip b.taken (predict_branch (run s before) b.ip).0

abbrev pub nth_outcome : List Branch → ℕ → Option Bool
nth_outcome [] i = none
nth_outcome (b ∷ before) zero = some b.taken
nth_outcome (b ∷ before) (suc i) = nth_outcome before i

-- The `ip & 1` bits of a trace, the latest as bit 0.
abbrev pub path_of : List Branch → ℕ
path_of [] = 0
path_of (b ∷ before) = path_of before * 2 + b.ip % 2

age_useful-registers :
    (s : Tage) → ((age_useful s).ghist ≡ s.ghist) × ((age_useful s).phist ≡ s.phist)
unfolding age_useful
age_useful-registers s = ground arith

update_ctr-registers :
    (ip : ℕ) (taken : Bool) (s : Tage)
    → ((update_ctr ip taken s).ghist ≡ s.ghist) × ((update_ctr ip taken s).phist ≡ s.phist)
unfolding update_ctr
update_ctr-registers ip taken s = go s.branch_info.provider_comp
  where
    go :
        (p : Option ℕ)
        → ((ctr_for ip taken s p).ghist ≡ s.ghist) × ((ctr_for ip taken s p).phist ≡ s.phist)
    go none = (refl, refl)
    go (some p) = (refl, refl)

-- Only the last stage of the update touches the registers.
registers :
    (rand ip : ℕ) (taken : Bool) (s : Tage)
    → ((last_branch_result rand ip taken s).ghist ≡ push_history taken s.ghist)
      × ((last_branch_result rand ip taken s).phist
          ≡ bit_and (bit_or (s.phist * 2) (bit_and (low_word ip) 1)) (2 ^ 16 - 1))
unfolding last_branch_result update_histories allocate update_u update_altpred update_use_alt
registers rand ip taken s =
    rw
      (
        (age_useful-registers _).0,
        (age_useful-registers _).1,
        (update_ctr-registers ip taken _).0,
        (update_ctr-registers ip taken _).1,
      )
      (refl, refl)

-- After any trace, bit i of the global history is the outcome of the branch i + 1 branches ago, as
-- far back as the 641 bits of the register reach.
pub run-ghist :
    (s : Tage) (trace : List Branch) (i : ℕ) {taken : Bool}
    → i ≤ ghist_bits
    → nth_outcome trace i ≡ some taken
    → (run s trace).ghist i ≡ taken
run-ghist s [] i le h = cc
run-ghist s (b ∷ before) zero {taken} le h =
    let here = (registers b.rand b.ip b.taken (predict_branch (run s before) b.ip).0).0 in
    (λ k. here k 0) ∙ cc
run-ghist s (b ∷ before) (suc i) {taken} le h =
    let here = (registers b.rand b.ip b.taken (predict_branch (run s before) b.ip).0).0 in
    let kept : (predict_branch (run s before) b.ip).0.ghist ≡ (run s before).ghist =
      unfold predict_branch in refl in
    let inside : ltb (suc i) (ghist_bits + 1) ≡ true = ground arith in
    (λ k. here k (suc i)) ∙ rw (inside, kept) (run-ghist s before i (omega arith) h)

-- After any trace from a cleared register, the path history holds the lowest address bits of the
-- last 16 branches.
pub run-phist :
    (s : Tage) (trace : List Branch) → s.phist ≡ 0 → (run s trace).phist ≡ path_of trace % 2 ^ 16
run-phist s [] h = omega arith
run-phist s (b ∷ before) h =
    let s' = (predict_branch (run s before) b.ip).0 in
    let kept : s'.phist ≡ (run s before).phist = unfold predict_branch in refl in
    let shifted =
      bit_or-push s'.phist (bit_and (low_word b.ip) 1)
        (omega (arith, bit_and_mask 1 (low_word b.ip))) in
    (registers b.rand b.ip b.taken s').1
    ∙ omega (
      arith,
      bit_and_mask 16 (bit_or (s'.phist * 2) (bit_and (low_word b.ip) 1)),
      shifted,
      bit_and_mask 1 (low_word b.ip),
      kept,
      run-phist s before h,
    )
