-- ===== src/Gshare/Laws.antt =====
-- ChampSim/branch/gshare: bounds, what the history vector holds, and a branch of one outcome.
use cs230_branch_predictor.Prelude.{
  ℕ, ◌+◌, ◌*◌, ◌%◌, ◌^◌, ◌≤◌, ◌<◌, ◌≡◌, ◌==◌, not, arith, Bool, true, false, if◌then◌else◌, List,
  [], ◌∷◌, zero, suc, ◌-◌, ◌∙◌,
}
use cs230_branch_predictor.Counter.Unsigned.{train}
use cs230_branch_predictor.Gshare.{
  Gshare, gs_table_hash, predict_branch, last_branch_result, gs_history_table_size,
  global_history_length,
}

pub record IsValid (s : Gshare) : Type 0 where
  pub counters : (i : ℕ) → i < gs_history_table_size → s.gs_history_table i ≤ 3
  pub history : s.branch_history_vector < 2 ^ global_history_length

-- The slot of every branch lies in the table; an update keeps all counters within two bits and the
-- history within 14.
pub gshare_update-IsValid :
    (ip : ℕ) (taken : Bool) (s : Gshare)
    → IsValid s
    → (gs_table_hash ip s.branch_history_vector < gs_history_table_size)
      × IsValid (last_branch_result ip taken s)
unfolding gs_table_hash last_branch_result
gshare_update-IsValid ip taken s v = (
  omega arith,
  record { counters = λ i h. ground (arith, v.counters i h); history = ground arith },
)

-- Outcomes of branches, the latest first, and the number that they are in binary.
abbrev pub run : Gshare → List (ℕ × Bool) → Gshare
run s [] = s
run s ((ip, taken) ∷ before) = last_branch_result ip taken (run s before)

abbrev pub binary : List (ℕ × Bool) → ℕ
binary [] = 0
binary ((ip, taken) ∷ before) = binary before * 2 + (if taken then 1 else 0)

-- From a cleared register the history vector is the last 14 outcomes in binary, the latest as bit 0.
pub run-history :
    (s : Gshare) (trace : List (ℕ × Bool))
    → s.branch_history_vector ≡ 0
    → (run s trace).branch_history_vector ≡ binary trace % 2 ^ 14
unfolding last_branch_result
run-history s [] h = omega arith
run-history s ((ip, true) ∷ before) h = omega (arith, run-history s before h)
run-history s ((ip, false) ∷ before) h = omega (arith, run-history s before h)

-- The prediction is taken exactly if the counter has not reached its minimum: one that is weakly not
-- taken, at 1, predicts taken.
predicts_at :
    (ip : ℕ) (s : Gshare) (history : ℕ)
    → s.branch_history_vector ≡ history
    → predict_branch s ip ≡ not (s.gs_history_table (gs_table_hash ip history) == 0)
unfolding predict_branch
predicts_at ip s history e = rw e (ground arith)

slot_inside : (ip history : ℕ) → gs_table_hash ip history < gs_history_table_size
unfolding gs_table_hash
slot_inside ip history = omega arith

-- The branch has the same outcome m times.
abbrev pub again : ℕ → Bool → ℕ → Gshare → Gshare
again ip taken zero s = s
again ip taken (suc m) s = last_branch_result ip taken (again ip taken m s)

abbrev doubled : ℕ → ℕ → ℕ
doubled zero n = n
doubled (suc m) n = doubled m n * 2

again-history_taken :
    (ip m : ℕ) (s : Gshare)
    → s.branch_history_vector < 2 ^ global_history_length
    → ((again ip true m s).branch_history_vector < 16384)
      × (16383 - (again ip true m s).branch_history_vector
          ≡ doubled m (16383 - s.branch_history_vector) % 16384)
unfolding last_branch_result
again-history_taken ip zero s v = omega arith
again-history_taken ip (suc m) s v = omega (arith, again-history_taken ip m s v)

again-history_not_taken :
    (ip m : ℕ) (s : Gshare)
    → s.branch_history_vector < 2 ^ global_history_length
    → (again ip false m s).branch_history_vector ≡ doubled m s.branch_history_vector % 16384
unfolding last_branch_result
again-history_not_taken ip zero s v = omega arith
again-history_not_taken ip (suc m) s v = omega (arith, again-history_not_taken ip m s v)

doubled_vanishes : (j n : ℕ) → doubled (j + 14) n % 16384 ≡ 0
doubled_vanishes zero n = omega arith
doubled_vanishes (suc j) n =
    let shifted : suc j + 14 ≡ suc (j + 14) = omega arith in
    rw shifted (omega (arith, doubled_vanishes j n))

-- 14 outcomes fill the history.
abbrev filled : Bool → ℕ
filled taken = if taken then 16383 else 0

again-filled :
    (ip j : ℕ) (taken : Bool) (s : Gshare)
    → IsValid s
    → (again ip taken (j + 14) s).branch_history_vector ≡ filled taken
again-filled ip j true s v = omega (
  arith,
  again-history_taken ip (j + 14) s v.history,
  doubled_vanishes j (16383 - s.branch_history_vector),
)
again-filled ip j false s v = omega (
  arith,
  again-history_not_taken ip (j + 14) s v.history,
  doubled_vanishes j s.branch_history_vector,
)

again-IsValid : (ip m : ℕ) (taken : Bool) (s : Gshare) → IsValid s → IsValid (again ip taken m s)
again-IsValid ip zero taken s v = v
again-IsValid ip (suc m) taken s v =
    (gshare_update-IsValid ip taken (again ip taken m s) (again-IsValid ip m taken s v)).1

-- From then on one slot is trained.
filled_step :
    (ip : ℕ) (taken : Bool) (s : Gshare)
    → s.branch_history_vector ≡ filled taken
    → (last_branch_result ip taken s).gs_history_table (gs_table_hash ip (filled taken))
      ≡ train 3 taken (s.gs_history_table (gs_table_hash ip (filled taken)))
unfolding last_branch_result
filled_step ip taken s e = rw e (ground arith)

taken_counter :
    (ip j : ℕ) (s : Gshare)
    → IsValid s
    → 1 ≤ (again ip true (suc j + 14) s).gs_history_table (gs_table_hash ip 16383)
taken_counter ip j s v =
    ground (arith, filled_step ip true (again ip true (j + 14) s) (again-filled ip j true s v))

not_taken_counter :
    (ip j : ℕ) (s : Gshare)
    → IsValid s
    → (again ip false (j + 14) s).gs_history_table (gs_table_hash ip 0) ≤ 3 - j
not_taken_counter ip zero s v =
    (again-IsValid ip 14 false s v).counters (gs_table_hash ip 0) (slot_inside ip 0)
not_taken_counter ip (suc j) s v = ground (
  arith,
  not_taken_counter ip j s v,
  filled_step ip false (again ip false (j + 14) s) (again-filled ip j false s v),
)

-- From any valid state: a branch that was taken at least 15 times in a row, with no other branch in
-- between, is predicted taken, and one that was not taken at least 17 times in a row is predicted not
-- taken.
pub gshare_learns :
    (ip j : ℕ) (s : Gshare)
    → IsValid s
    → (predict_branch (again ip true (j + 15) s) ip ≡ true)
      × (predict_branch (again ip false (j + 17) s) ip ≡ false)
gshare_learns ip j s v =
    let one_more : j + 15 ≡ suc j + 14 = omega arith in
    let three_more : j + 17 ≡ j + 3 + 14 = omega arith in
    (
      rw one_more (
          predicts_at ip _ 16383 (again-filled ip (suc j) true s v)
          ∙ ground (arith, taken_counter ip j s v)),
      rw three_more (
          predicts_at ip _ 0 (again-filled ip (j + 3) false s v)
          ∙ ground (arith, not_taken_counter ip (j + 3) s v)),
    )
