-- ===== src/Perceptron/Training.antt =====
-- ChampSim/branch/perceptron: a training step moves the output of the perceptron for the history it
-- was trained on towards the outcome, by the number of weights that are not at their bound.
use cs230_branch_predictor.Prelude.{
  ℕ, zero, suc, ◌+◌, ◌≤◌, ◌≡◌, arith, Bool, true, false, not, if◌then◌else◌,
}
use cs230_branch_predictor.Prelude.Int.{ℤ, pos, ◌+ℤ◌, ◌-ℤ◌, +ℤ_parts, -ℤ_parts, eq_of_parts}
use cs230_branch_predictor.Counter.Training.{IsWeight, room, IsMoved, trained, trained-IsMoved}
use cs230_branch_predictor.Perceptron.{
  InternalPerceptron, dot_product, predict, step_counter, upd_mask, update_perceptron,
  perceptron_history,
}

-- What one round of the product adds, before and after training.
abbrev added : Bool → ℤ → ℤ → ℤ
added bit a w = if bit then a +ℤ w else a -ℤ w

added-IsMoved :
    (taken bit : Bool) (n : ℕ) (a a' w : ℤ)
    → IsWeight w
    → IsMoved taken n a a'
    → let up = if taken then bit else not bit in
      IsMoved taken (n + room up w) (added bit a w) (added bit a' (step_counter up w))
added-IsMoved true true n a a' w v h =
    omega (arith, +ℤ_parts a w, +ℤ_parts a' (trained true w), trained-IsMoved true w v)
added-IsMoved true false n a a' w v h =
    omega (arith, -ℤ_parts a w, -ℤ_parts a' (trained false w), trained-IsMoved false w v)
added-IsMoved false true n a a' w v h =
    omega (arith, +ℤ_parts a w, +ℤ_parts a' (trained false w), trained-IsMoved false w v)
added-IsMoved false false n a a' w v h =
    omega (arith, -ℤ_parts a w, -ℤ_parts a' (trained true w), trained-IsMoved true w v)

-- How many of the weights from i on can still move the way this outcome trains them: up where the
-- outcome agrees with the bit of the history, and down where it does not.
abbrev pub movable : Bool → (ℕ → Bool) → InternalPerceptron → ℕ → ℕ → ℕ
movable taken history p zero i = 0
movable taken history p (suc rounds) i =
    room (upd_mask taken history i) (p.weights i) + movable taken history p rounds (i + 1)

dot_product-IsMoved :
    (taken : Bool) (history : ℕ → Bool) (p : InternalPerceptron) (rounds i n : ℕ) (a a' : ℤ)
    → ((j : ℕ) → IsWeight (p.weights j))
    → i + rounds ≤ perceptron_history
    → IsMoved taken n a a'
    → IsMoved taken
        (n + movable taken history p rounds i)
        (dot_product p.weights history rounds i a)
        (dot_product (update_perceptron taken history p).weights history rounds i a')
unfolding dot_product update_perceptron
dot_product-IsMoved taken history p zero i n a a' v fits h =
    let same : n + 0 ≡ n = omega arith in rw same h
dot_product-IsMoved taken history p (suc rounds) i n a a' v fits h =
    let here : (update_perceptron taken history p).weights i
        ≡ step_counter (upd_mask taken history i) (p.weights i) =
      ground arith in
    let w = p.weights i in
    let here_room = room (upd_mask taken history i) w in
    let later = movable taken history p rounds (i + 1) in
    let regrouped : n + (here_room + later) ≡ n + here_room + later = omega arith in
    rw (here, regrouped)
      (dot_product-IsMoved taken history p rounds (i + 1) (n + here_room) _ _ v (omega arith)
        (added-IsMoved taken (history i) n a a' w (v i) h))

-- The integer that is n further towards the outcome.
abbrev pub moved : Bool → ℤ → ℕ → ℤ
moved taken a n = if taken then a +ℤ pos n else a -ℤ pos n

moved-IsMoved : (taken : Bool) (n : ℕ) (a b : ℤ) → IsMoved taken n a b → b ≡ moved taken a n
moved-IsMoved true n a b h = eq_of_parts b (a +ℤ pos n) (omega (arith, +ℤ_parts a (pos n)))
moved-IsMoved false n a b h = eq_of_parts b (a -ℤ pos n) (omega (arith, -ℤ_parts a (pos n)))

-- If the bias and the weights are in their 8 bits, then training moves the output for the same history
-- by exactly the number of those that are not yet at the bound they are trained towards: up by it for a
-- taken branch and down by it for one that was not taken.
pub update_perceptron-moved :
    (taken : Bool) (history : ℕ → Bool) (p : InternalPerceptron)
    → IsWeight p.bias
    → ((j : ℕ) → IsWeight (p.weights j))
    → predict (update_perceptron taken history p) history
      ≡ moved taken
          (predict p history)
          (room taken p.bias + movable taken history p perceptron_history 0)
unfolding predict update_perceptron
update_perceptron-moved taken history p b v = moved-IsMoved taken _ _ _ (
    dot_product-IsMoved taken history p 24 0 (room taken p.bias) p.bias (step_counter taken p.bias)
      v (omega arith) (trained-IsMoved taken p.bias b))
