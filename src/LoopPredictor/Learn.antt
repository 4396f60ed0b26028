-- ===== src/LoopPredictor/Learn.antt =====
-- ChampSim/branch/LTage/loop_predictor.h: a branch that closes a loop of constant length is learnt in
-- three executions of the loop, and predicted without a mistake from then on.
use Prim.Native.Nat.{zero-le}
use mathlib.Core.Path.{subst}
use cs230_branch_predictor.Prelude.{
  ℕ, zero, suc, ◌+◌, ◌≤◌, ◌<◌, ◌≡◌, refl, arith, Bool, true, false, leb, ltb, update₂, Option, none,
  some, ◌∙◌, ap,
}
use cs230_branch_predictor.Prelude.Search.{IsFirst, IsFirst-unique, search-IsFirst}
use cs230_branch_predictor.LoopPredictor.{
  LoopPredictor, LoopEntry, num_ways, iter_max, index_of, tag_of, matches, predicted, is_confident,
  predict_way, predict_branch, allocated, allocate_way, has_expired, last_branch_result,
}
use cs230_branch_predictor.LoopPredictor.Entry.{advance, IsCounting, advance_taken, advance_exit}

-- The branch at `ip` is predicted, and then updated with its outcome.
abbrev pub step : ℕ → Bool → LoopPredictor → LoopPredictor
step ip taken s = last_branch_result ip taken (predict_branch s ip).0

-- The address selects way w of its set, which holds the entry e.
abbrev pub Selects : LoopPredictor → ℕ → ℕ → LoopEntry → Type 0
Selects s ip w e =
    IsFirst (matches s ip) 0 num_ways (some w) × (s.loop_component (index_of ip) w ≡ e)

selected :
    (s : LoopPredictor) (ip : ℕ) (o : Option ℕ)
    → IsFirst (matches s ip) 0 num_ways o
    → predict_branch s ip ≡ (predict_way s ip o, (predict_way s ip o).loop_prediction)
unfolding predict_branch
selected s ip o h =
    let found =
      IsFirst-unique (matches s ip) 0 num_ways _ o (search-IsFirst (matches s ip) 0 num_ways) h in
    ap (λ (o : Option ℕ). (predict_way s ip o, (predict_way s ip o).loop_prediction)) found

-- What a hit returns and stores.
pub predict_branch-hit :
    (s : LoopPredictor) (ip w : ℕ) {e : LoopEntry}
    → Selects s ip w e
    → ((predict_branch s ip).1 ≡ predicted e)
      × ((predict_branch s ip).0.loop_branch_info.is_valid_loop_prediction ≡ is_confident e)
predict_branch-hit s ip w h = rw (selected s ip (some w) h.0, h.1) (refl, refl)

advance-tag : (taken : Bool) (e : LoopEntry) → (advance taken e).tag ≡ e.tag
unfolding advance
advance-tag taken e = ground arith

component-hit :
    (s : LoopPredictor) (ip w : ℕ) (taken : Bool) {e : LoopEntry}
    → Selects s ip w e
    → (step ip taken s).loop_component ≡ update₂ s.loop_component (index_of ip) w (advance taken e)
unfolding last_branch_result advance
component-hit s ip w taken h = rw (selected s ip (some w) h.0, h.1) refl

step-Selects :
    (s : LoopPredictor) (ip w : ℕ) (taken : Bool) {e : LoopEntry}
    → Selects s ip w e
    → Selects (step ip taken s) ip w (advance taken e)
step-Selects s ip w taken {e} h = rw (component-hit s ip w taken h) (
  (h.0.0, h.0.1, ground (arith, advance-tag taken e, h.1), λ j lo hi. ground (arith, h.0.3 j)),
  ground arith,
)

-- The branch is taken k times, then it runs through executions of a loop of n iterations: n times
-- taken, once not taken.
abbrev pub takens : ℕ → ℕ → LoopPredictor → LoopPredictor
takens ip zero s = s
takens ip (suc k) s = step ip true (takens ip k s)

abbrev pub execution : ℕ → ℕ → LoopPredictor → LoopPredictor
execution ip n s = step ip false (takens ip n s)

abbrev pub executions : ℕ → ℕ → ℕ → LoopPredictor → LoopPredictor
executions ip n zero s = s
executions ip n (suc m) s = execution ip n (executions ip n m s)

-- No way of the set has the tag of the address, and way w is the first that may be replaced.
abbrev pub Misses : LoopPredictor → ℕ → ℕ → Type 0
Misses s ip w =
    IsFirst (matches s ip) 0 num_ways none × IsFirst (has_expired s ip) 0 num_ways (some w)

-- The address selects an entry that has seen m executions and then k iterations.
abbrev Counts : ℕ → ℕ → ℕ → ℕ → LoopPredictor → Type 0
Counts ip n m k s = (w : ℕ) × (e : LoopEntry) × Selects s ip w e × IsCounting n m k e

miss-allocates :
    (s : LoopPredictor) (ip w : ℕ)
    → Misses s ip w
    → (step ip true s).loop_component
      ≡ update₂ s.loop_component (index_of ip) w (allocated (tag_of ip))
unfolding last_branch_result
miss-allocates s ip w h =
    let free =
      IsFirst-unique (has_expired s ip) 0 num_ways _ (some w)
        (search-IsFirst (has_expired s ip) 0 num_ways) h.1 in
    rw (selected s ip none h.0) (ap (allocate_way s ip) free)

first_taken :
    (s : LoopPredictor) (ip w n : ℕ)
    → Misses s ip w
    → Selects (step ip true s) ip w (allocated (tag_of ip))
first_taken s ip w n h =
    rw (miss-allocates s ip w h)
      ((zero-le, h.1.1, ground arith, λ j lo hi. ground (arith, h.0 j)), ground arith)

module _ (ip n : ℕ) (le : n ≤ iter_max) where
  taken-Counts :
      (m k : ℕ) (s : LoopPredictor)
      → k < n
      → Counts ip n m k s
      → Counts ip n m (k + 1) (step ip true s)
  taken-Counts m k s lt (w, e, sel, count) =
      (w, advance true e, step-Selects s ip w true sel, advance_taken n m k lt le count)

  takens-Counts :
      (m k : ℕ) (s : LoopPredictor) → k ≤ n → Counts ip n m 0 s → Counts ip n m k (takens ip k s)
  takens-Counts m zero s bound c = c
  takens-Counts m (suc k) s bound c =
      subst (λ j. Counts ip n m j (takens ip (suc k) s)) (omega arith)
        (taken-Counts m k (takens ip k s) bound (takens-Counts m k s (omega arith) c))

  execution-Counts :
      (m : ℕ) (s : LoopPredictor)
      → 1 ≤ n
      → Counts ip n m n s
      → Counts ip n (m + 1) 0 (step ip false s)
  execution-Counts m s pos (w, e, sel, count) =
      (w, advance false e, step-Selects s ip w false sel, advance_exit n m pos le count)

  miss-Counts :
      (k w : ℕ) (s : LoopPredictor)
      → suc k ≤ n
      → Misses s ip w
      → Counts ip n 0 (suc k) (takens ip (suc k) s)
  miss-Counts zero w s bound h = (
    w,
    allocated (tag_of ip),
    first_taken s ip w n h,
    record { past = refl; curr = refl; confident = refl },
  )
  miss-Counts (suc k) w s bound h =
      subst (λ j. Counts ip n 0 j (takens ip (suc (suc k)) s)) (omega arith)
        (taken-Counts 0 (suc k) (takens ip (suc k) s) bound (miss-Counts k w s (omega arith) h))

  first_takens :
      (k w : ℕ) (s : LoopPredictor)
      → 1 ≤ k
      → k ≤ n
      → Misses s ip w
      → Counts ip n 0 k (takens ip k s)
  first_takens zero w s pos bound h = elim pos [ ]
  first_takens (suc k) w s pos bound h = miss-Counts k w s bound h

  executions-Counts :
      (m w : ℕ) (s : LoopPredictor)
      → 1 ≤ n
      → Misses s ip w
      → Counts ip n (suc m) 0 (executions ip n (suc m) s)
  executions-Counts zero w s pos h =
      execution-Counts 0 (takens ip n s) pos (first_takens n w s pos (omega arith) h)
  executions-Counts (suc m) w s pos h =
      subst (λ j. Counts ip n j 0 (executions ip n (suc (suc m)) s)) (omega arith)
        (execution-Counts (suc m) _ pos
          (takens-Counts (suc m) n _ (omega arith) (executions-Counts m w s pos h)))

-- A loop branch is taken n times and then not taken, in each execution of its loop, with n from 1 to
-- 16383 (the most that 14 bits count). From a state where the branch misses and a way of its set may
-- be replaced, after m complete executions, m at least 1, and k further iterations: the predictor
-- says taken while k is less than n, and not taken when the loop is about to exit; and the
-- prediction counts as valid exactly if at least three executions were complete.
pub loop_is_learnt :
    (ip n m k w : ℕ) (s : LoopPredictor)
    → 1 ≤ n
    → n ≤ iter_max
    → 1 ≤ m
    → k ≤ n
    → Misses s ip w
    → let s' = takens ip k (executions ip n m s) in
      ((predict_branch s' ip).1 ≡ ltb k n)
      × ((predict_branch s' ip).0.loop_branch_info.is_valid_loop_prediction ≡ leb 3 m)
loop_is_learnt ip n zero k w s pos le some_done bound h = absurd (omega arith)
loop_is_learnt ip n (suc m) k w s pos le some_done bound h =
    let counted =
      takens-Counts ip n le (suc m) k (executions ip n (suc m) s) bound
        (executions-Counts ip n le m w s pos h) in
    let result =
      predict_branch-hit (takens ip k (executions ip n (suc m) s)) ip counted.0 counted.2 in
    (result.0 ∙ ground (arith, counted.3), result.1 ∙ ground (arith, counted.3))
