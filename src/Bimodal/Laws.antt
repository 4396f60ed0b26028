-- ===== src/Bimodal/Laws.antt =====
-- ChampSim/branch/bimodal: the counters learn a direction in two outcomes, keep it through one
-- deviation, and branches of other slots do not disturb them.
use cs230_branch_predictor.Prelude.{ℕ, zero, suc, ◌≤◌, ◌<◌, ◌≡◌, ◌≢◌, arith, Bool, not, ◌%◌}
use cs230_branch_predictor.Bimodal.{hash, predict_branch, last_branch_result, table_size, prime}

abbrev pub IsValid : (ℕ → ℕ) → Type 0
IsValid table = (i : ℕ) → i < table_size → table i ≤ 3

-- The slot of every branch lies in the table, and an update keeps all counters within two bits.
pub bimodal_update-IsValid :
    (ip : ℕ) (taken : Bool) (table : ℕ → ℕ)
    → IsValid table
    → (hash ip < table_size) × IsValid (last_branch_result ip taken table)
unfolding hash last_branch_result
bimodal_update-IsValid ip taken table v = (omega arith, λ i h. ground (arith, v i h))

-- The same outcome n times.
abbrev pub outcomes : ℕ → ℕ → Bool → (ℕ → ℕ) → ℕ → ℕ
outcomes zero ip taken table = table
outcomes (suc n) ip taken table = last_branch_result ip taken (outcomes n ip taken table)

-- After the same outcome twice the branch is predicted to have it again; after three times, still
-- after one deviation.
pub learns :
    (ip : ℕ) (taken : Bool) (table : ℕ → ℕ)
    → IsValid table
    → (predict_branch (outcomes 2 ip taken table) ip ≡ taken)
      × (predict_branch (last_branch_result ip (not taken) (outcomes 3 ip taken table)) ip ≡ taken)
unfolding hash last_branch_result predict_branch
learns ip taken table v = ground (arith, v (ip % prime) (omega arith))

-- An update changes no prediction of a branch of another slot.
pub other_slots :
    (ip other : ℕ) (taken : Bool) (table : ℕ → ℕ)
    → hash other ≢ hash ip
    → predict_branch (last_branch_result ip taken table) other ≡ predict_branch table other
unfolding last_branch_result predict_branch
other_slots ip other taken table ne = ground arith
