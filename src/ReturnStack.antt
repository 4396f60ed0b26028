-- ===== src/ReturnStack.antt =====
-- ChampSim/btb/basic_btb/return_stack.h and return_stack.cc: the return address stack of the branch
-- target buffer. The list has the back of the deque first; the warning that the source prints, with
-- the count of such warnings, is left out.
mod Tests
use native.Mathlib.Nat.{mod-eq_of_lt}
use cs230_branch_predictor.Prelude.{
  ℕ, suc, ◌+◌, ◌-◌, ◌%◌, ◌^◌, ◌≤◌, ◌<◌, ◌≡◌, ap, ◌∙◌, refl, arith, Bool, true, ltb, leb, List, [],
  ◌∷◌, if◌then◌else◌, update, ◌==◌,
}
use cs230_branch_predictor.Prelude.Sequences.{length, drop_last, length-drop_last}

abbrev pub max_size : ℕ
max_size = 64

abbrev pub num_call_size_trackers : ℕ
num_call_size_trackers = 1024

pub record ReturnStack : Type 0 where
  pub stack : List ℕ
  pub call_size_trackers : ℕ → ℕ

-- The constructor: an empty stack, and 4 bytes for every call.
abbrev pub fresh : ReturnStack
fresh = record { stack = []; call_size_trackers = λ i. 4 }

-- `slice_lower<lg2(num_call_size_trackers)>`
abbrev pub tracker_of : ℕ → ℕ
tracker_of ip = ip % 2 ^ 10

-- The address after the call on top, and `true` for a branch that is always taken.
abbrev pub predict_top : ReturnStack → List ℕ → ℕ × Bool
predict_top s [] = (0, true)
predict_top s (target ∷ rest) = ((target + s.call_size_trackers (tracker_of target)) % 2 ^ 64, true)

unfoldable pub prediction : ReturnStack → ℕ × Bool
prediction s = predict_top s s.stack

unfoldable pub push : ℕ → ReturnStack → ReturnStack
push ip s =
    let pushed = ip ∷ s.stack in
    record s { stack = if ltb max_size (length pushed) then drop_last pushed else pushed }

abbrev pub estimated_call_instr_size : ℕ → ℕ → ℕ
estimated_call_instr_size call_ip branch_target =
    if ltb branch_target call_ip then call_ip - branch_target else branch_target - call_ip

abbrev pub calibrate_top : ℕ → ReturnStack → List ℕ → ReturnStack
calibrate_top branch_target s [] = s
calibrate_top branch_target s (call_ip ∷ rest) =
    let size = estimated_call_instr_size call_ip branch_target in
    record {
      stack = rest;
      call_size_trackers =
          if leb size 10
          then update s.call_size_trackers (tracker_of call_ip) size
          else s.call_size_trackers;
    }

unfoldable pub calibrate_call_size : ℕ → ReturnStack → ReturnStack
calibrate_call_size branch_target s = calibrate_top branch_target s s.stack

-- What lies below a new call.
below : List ℕ → List ℕ
below stack = if ltb max_size (suc (length stack)) then drop_last stack else stack

push_lem : (ip : ℕ) (s : ReturnStack) → (push ip s).stack ≡ ip ∷ below s.stack
unfolding push below
push_lem ip s = go s.stack
  where
    go :
        (xs : List ℕ)
        → (if ltb max_size (length (ip ∷ xs)) then drop_last (ip ∷ xs) else ip ∷ xs)
          ≡ ip ∷ (if ltb max_size (suc (length xs)) then drop_last xs else xs)
    go [] = refl
    go (x ∷ xs) = ground arith

-- A push keeps the stack within 64 calls.
pub push-le :
    (ip : ℕ) (s : ReturnStack) → length s.stack ≤ max_size → length (push ip s).stack ≤ max_size
unfolding push
push-le ip s bound = ground (arith, length-drop_last (ip ∷ s.stack))

push_trackers : (ip : ℕ) (s : ReturnStack) → (push ip s).call_size_trackers ≡ s.call_size_trackers
unfolding push
push_trackers ip s = refl

calibrated :
    (ip d : ℕ) (s : ReturnStack) (rest : List ℕ)
    → d ≤ 10
    → s.stack ≡ ip ∷ rest
    → (calibrate_call_size (ip + d) s).call_size_trackers (tracker_of ip) ≡ d
unfolding calibrate_call_size
calibrated ip d s rest small top = rw top (ground arith)

predicted :
    (ip : ℕ) (s : ReturnStack) (rest : List ℕ)
    → s.stack ≡ ip ∷ rest
    → (prediction s).0 ≡ (ip + s.call_size_trackers (tracker_of ip)) % 2 ^ 64
unfolding prediction
predicted ip s rest top = rw top refl

-- A call that returns to the address d bytes after it, d at most 10, is learnt: after the return, the
-- next push of the same call predicts that address, if it fits 64 bits.
pub calibrated_return :
    (ip d : ℕ) (s : ReturnStack)
    → d ≤ 10
    → ip + d < 2 ^ 64
    → (prediction (push ip (calibrate_call_size (ip + d) (push ip s)))).0 ≡ ip + d
calibrated_return ip d s small fits =
    let s' = calibrate_call_size (ip + d) (push ip s) in
    let size : (push ip s').call_size_trackers (tracker_of ip) ≡ d =
      ap (λ (t : ℕ → ℕ). t (tracker_of ip)) (push_trackers ip s')
      ∙ calibrated ip d (push ip s) (below s.stack) small (push_lem ip s) in
    predicted ip (push ip s') (below s'.stack) (push_lem ip s')
    ∙ ap (λ k. (ip + k) % 2 ^ 64) size
    ∙ mod-eq_of_lt fits
