-- ===== src/LTage/Loops.antt =====
-- ChampSim/branch/LTage: L-TAGE on the branch of a regular loop that its loop predictor can allocate.
use cs230_branch_predictor.Prelude.{
  ℕ, zero, suc, ◌+◌, ◌*◌, ◌≤◌, ◌≡◌, ◌≢◌, refl, arith, Bool, true, false, ltb, ap, ◌∙◌,
}
use cs230_branch_predictor.LoopPredictor
use cs230_branch_predictor.LoopPredictor.{LoopPredictor, iter_max, tag_of, index_of}
use cs230_branch_predictor.LoopPredictor.Learn
use cs230_branch_predictor.LoopPredictor.Learn.{Misses, loop_is_learnt}
use cs230_branch_predictor.LoopPredictor.Frame.{init-Misses}
use cs230_branch_predictor.LTage.{
  LTage, initialize_branch_predictor, predict_branch, last_branch_result,
}

-- The t-th branch draws `rand t`, should it draw at all.
module _ (rand : ℕ → ℕ) (ip : ℕ) where
  abbrev pub step : ℕ → Bool → LTage → LTage
  step t taken s = last_branch_result (rand t) ip taken (predict_branch s ip).0

  -- k taken outcomes from time t on, and whole executions of a loop of n iterations.
  abbrev pub takens : ℕ → ℕ → LTage → LTage
  takens t zero s = s
  takens t (suc k) s = step (t + k) true (takens t k s)

  abbrev pub executions : ℕ → ℕ → LTage → LTage
  executions n zero s = s
  executions n (suc m) s = step (m * (n + 1) + n) false (takens (m * (n + 1)) n (executions n m s))

  loop-step :
      (t : ℕ) (taken : Bool) (s : LTage)
      → (step t taken s).loop_predictor ≡ Learn.step ip taken s.loop_predictor
  unfolding last_branch_result predict_branch
  loop-step t taken s = refl

  loop-takens :
      (t k : ℕ) (s : LTage) → (takens t k s).loop_predictor ≡ Learn.takens ip k s.loop_predictor
  loop-takens t zero s = refl
  loop-takens t (suc k) s =
      loop-step (t + k) true (takens t k s) ∙ ap (Learn.step ip true) (loop-takens t k s)

  loop-executions :
      (n m : ℕ) (s : LTage)
      → (executions n m s).loop_predictor ≡ Learn.executions ip n m s.loop_predictor
  loop-executions n zero s = refl
  loop-executions n (suc m) s =
      loop-step (m * (n + 1) + n) false (takens (m * (n + 1)) n (executions n m s))
      ∙ ap (Learn.step ip false) (
          loop-takens (m * (n + 1)) n (executions n m s)
          ∙ ap (Learn.takens ip n) (loop-executions n m s))

pub predict_branch-valid :
    (s : LTage) (ip : ℕ)
    → (LoopPredictor.predict_branch s.loop_predictor ip).0.loop_branch_info.is_valid_loop_prediction
      ≡ true
    → (predict_branch s ip).1 ≡ (LoopPredictor.predict_branch s.loop_predictor ip).1
unfolding predict_branch
predict_branch-valid s ip h = rw h

-- From any state in which no way of the loop predictor's set has the tag of the branch and way w is
-- the first that may be replaced: a branch that closes a loop of n iterations, n from 1 to 16383, and
-- that runs with no other branch in between, is predicted without a mistake in every execution of the
-- loop after the third. After k taken iterations the prediction is taken exactly if k is less than n.
pub loop_is_predicted :
    (rand : ℕ → ℕ) (ip n m k t w : ℕ) (s : LTage)
    → 1 ≤ n
    → n ≤ iter_max
    → 3 ≤ m
    → k ≤ n
    → Misses s.loop_predictor ip w
    → (predict_branch (takens rand ip t k (executions rand ip n m s)) ip).1 ≡ ltb k n
loop_is_predicted rand ip n m k t w s pos le learnt bound missing =
    let s' = takens rand ip t k (executions rand ip n m s) in
    let same_loop : s'.loop_predictor
        ≡ Learn.takens ip k (Learn.executions ip n m s.loop_predictor) =
      loop-takens rand ip t k (executions rand ip n m s)
      ∙ ap (Learn.takens ip k) (loop-executions rand ip n m s) in
    let learned = loop_is_learnt ip n m k w s.loop_predictor pos le (omega arith) bound missing in
    predict_branch-valid s' ip (rw same_loop (learned.1 ∙ ground arith)) ∙ rw same_loop learned.0

-- Right after initialisation this is the case, with way 0, for every branch whose loop tag is not 0.
pub initialized-Misses :
    (s : LTage) (ip : ℕ)
    → tag_of ip ≢ 0
    → Misses (initialize_branch_predictor s).loop_predictor ip 0
unfolding initialize_branch_predictor
initialized-Misses s ip tagged = init-Misses s.loop_predictor ip tagged
