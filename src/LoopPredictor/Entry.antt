-- ===== src/LoopPredictor/Entry.antt =====
-- ChampSim/branch/LTage/loop_predictor.h: how one entry counts the executions of a regular loop.
use cs230_branch_predictor.Prelude.{
  ℕ, ◌+◌, ◌≤◌, ◌<◌, ◌≡◌, arith, Bool, true, false, ◌==◌, if◌then◌else◌, min,
}
use cs230_branch_predictor.LoopPredictor.{
  LoopEntry, iter_max, predicted, is_confident, update_entry,
}

-- A prediction by the entry and the update that follows it.
unfoldable pub advance : Bool → LoopEntry → LoopEntry
unfolding update_entry
advance taken e = update_entry (is_confident e) (predicted e) taken e

-- In the middle of an execution: n iterations are known if the confidence m is positive, and k have
-- been counted.
pub record IsCounting (n m k : ℕ) (e : LoopEntry) : Type 0 where
  pub past : e.past_iter_cnt ≡ (if m == 0 then 0 else n)
  pub curr : e.curr_iter_cnt ≡ k
  pub confident : e.confidence ≡ min m 3

pub advance_taken :
    (n m k : ℕ) {e : LoopEntry}
    → k < n
    → n ≤ iter_max
    → IsCounting n m k e
    → IsCounting n m (k + 1) (advance true e)
unfolding advance
advance_taken n m k lt le h = ground arith

pub advance_exit :
    (n m : ℕ) {e : LoopEntry}
    → 1 ≤ n
    → n ≤ iter_max
    → IsCounting n m n e
    → IsCounting n (m + 1) 0 (advance false e)
unfolding advance
advance_exit n m pos le h = ground arith
