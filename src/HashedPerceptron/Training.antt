-- ===== src/HashedPerceptron/Training.antt =====
-- ChampSim/branch/hashed_perceptron: a training step moves the sum of the weights that made the
-- prediction towards the outcome.
use cs230_branch_predictor.Prelude.{
  ℕ, ◌+◌, ◌≤◌, ◌<◌, ◌≡◌, refl, arith, Bool, List, [], ◌∷◌, update₂, ◌∙◌,
}
use cs230_branch_predictor.Prelude.Int.{ℤ, ◌+ℤ◌}
use cs230_branch_predictor.Counter.Training.{
  IsWeight, Towards, trained, trained-Towards, add-Towards,
}
use cs230_branch_predictor.HashedPerceptron.Laws.{update₂-IsWeight}
use cs230_branch_predictor.HashedPerceptron.{add_weights, update_weights}

update_weights-below :
    (taken : Bool) (i : ℕ) (js : List ℕ) (tables : ℕ → ℕ → ℤ) (c j : ℕ)
    → c < i
    → update_weights taken i js tables c j ≡ tables c j
unfolding update_weights
update_weights-below taken i [] tables c j h = refl
update_weights-below taken i (k ∷ ks) tables c j h =
    update_weights-below taken (i + 1) ks _ c j (omega arith) ∙ ground arith

add_weights-agree :
    (t t' : ℕ → ℕ → ℤ) (acc : ℤ) (i : ℕ) (js : List ℕ)
    → ((c j : ℕ) → i ≤ c → t c j ≡ t' c j)
    → add_weights t acc i js ≡ add_weights t' acc i js
unfolding add_weights
add_weights-agree t t' acc i [] h = refl
add_weights-agree t t' acc i (j ∷ js) h =
    rw (h i j (omega arith))
      (add_weights-agree t t' (acc +ℤ t' i j) (i + 1) js (λ c k p. h c k (omega arith)))

-- Training for an outcome moves the sum of exactly the weights that were read towards it: with every
-- weight in its 8 bits, the new sum is at least the old one after a taken branch, and at most the old
-- one after a branch that was not taken.
pub update_weights-Towards :
    (taken : Bool) (i : ℕ) (js : List ℕ) (tables : ℕ → ℕ → ℤ) (acc acc' : ℤ)
    → ((c j : ℕ) → IsWeight (tables c j))
    → Towards taken acc acc'
    → Towards taken
        (add_weights tables acc i js)
        (add_weights (update_weights taken i js tables) acc' i js)
unfolding add_weights update_weights
update_weights-Towards taken i [] tables acc acc' v h = h
update_weights-Towards taken i (j ∷ js) tables acc acc' v h =
    let w = tables i j in
    let tables' = update₂ tables i j (trained taken w) in
    let here : update_weights taken (i + 1) js tables' i j ≡ trained taken w =
      update_weights-below taken (i + 1) js tables' i j (omega arith) ∙ ground arith in
    let same_rest : add_weights tables (acc +ℤ w) (i + 1) js
        ≡ add_weights tables' (acc +ℤ w) (i + 1) js =
      add_weights-agree tables tables' (acc +ℤ w) (i + 1) js (λ c k p. ground arith) in
    rw (here, same_rest)
      (update_weights-Towards taken (i + 1) js tables' (acc +ℤ w) (acc' +ℤ trained taken w)
        (λ c k. update₂-IsWeight taken i j tables c k v)
        (add-Towards taken acc acc' w (trained taken w) h (trained-Towards taken w (v i j))))
