-- ===== src/Perceptron.antt =====
-- ChampSim/branch/perceptron/perceptron.h and perceptron.cc: a table of perceptrons over the global
-- history, with a queue of the predictions that wait for their outcome.
pub mod Laws
pub mod Training
pub mod Speculation
mod Tests
use cs230_branch_predictor.Prelude.{
  ℕ, zero, suc, ◌+◌, ◌%◌, Bool, not, ◌==◌, ltb, ◌&&◌, ◌||◌, same, List, [], ◌∷◌, Option, none, some,
  if◌then◌else◌, update,
}
use cs230_branch_predictor.Prelude.Sequences.{length, push_last, drop_first}
use cs230_branch_predictor.Prelude.Int.{ℤ, pos, negsuc, ◌+ℤ◌, ◌-ℤ◌, ltb_ℤ}
use cs230_branch_predictor.Counter.{sfwcounter, add_assign}

abbrev pub perceptron_history : ℕ
perceptron_history = 24

abbrev pub perceptron_bits : ℕ
perceptron_bits = 8

abbrev pub num_perceptrons : ℕ
num_perceptrons = 163

abbrev pub num_update_entries : ℕ
num_update_entries = 100

-- `std::lround(1.93 * PERCEPTRON_HISTORY + 14)`, that is 60.32 rounded.
abbrev pub theta : ℤ
theta = pos 60

-- `internal_perceptron<PERCEPTRON_HISTORY, PERCEPTRON_BITS>`; the weights are read below 24.
pub record InternalPerceptron : Type 0 where
  pub bias : ℤ
  pub weights : ℕ → ℤ

-- The loop of `predict` from weight i on.
unfoldable pub dot_product : (ℕ → ℤ) → (ℕ → Bool) → ℕ → ℕ → ℤ → ℤ
dot_product weights history zero i output = output
dot_product weights history (suc rounds) i output =
    dot_product weights history rounds (i + 1)
      (if history i then output +ℤ weights i else output -ℤ weights i)

unfoldable pub predict : InternalPerceptron → (ℕ → Bool) → ℤ
unfolding dot_product
predict p history = dot_product p.weights history perceptron_history 0 p.bias

-- `counter += up ? 1 : -1`
abbrev pub step_counter : Bool → ℤ → ℤ
step_counter up w = add_assign (sfwcounter perceptron_bits) w (if up then pos 1 else negsuc 0)

-- `result ? history : ~history`
abbrev pub upd_mask : Bool → (ℕ → Bool) → ℕ → Bool
upd_mask result history i = if result then history i else not (history i)

-- `internal_perceptron::update`; each round of the loop updates its own weight.
unfoldable pub update_perceptron : Bool → (ℕ → Bool) → InternalPerceptron → InternalPerceptron
update_perceptron result history p = record {
  bias = step_counter result p.bias;
  weights = λ i.
      if ltb i perceptron_history
      then step_counter (upd_mask result history i) (p.weights i)
      else p.weights i;
}

pub record PerceptronState : Type 0 where
  pub ip : ℕ
  pub prediction : Bool
  pub output : ℤ
  pub history : ℕ → Bool

-- Bit i of a history is the outcome of i + 1 branches ago.
pub record Perceptron : Type 0 where
  pub perceptrons : ℕ → InternalPerceptron
  pub perceptron_state_buf : List PerceptronState
  pub spec_global_history : ℕ → Bool
  pub global_history : ℕ → Bool

-- `history <<= 1` drops the oldest of the 24 bits, then bit 0 is set.
abbrev pub push_history : Bool → (ℕ → Bool) → ℕ → Bool
push_history taken history zero = taken
push_history taken history (suc i) = ltb (suc i) perceptron_history && history i

-- `push_back`, and `pop_front` if the queue has grown too long.
abbrev pub push_state : PerceptronState → List PerceptronState → List PerceptronState
push_state state buf =
    let pushed = push_last buf state in
    if ltb num_update_entries (length pushed) then drop_first pushed else pushed

-- The state that `predict_branch` records.
abbrev pub predicted_state : Perceptron → ℕ → PerceptronState
predicted_state s ip =
    let output = predict (s.perceptrons (ip % num_perceptrons)) s.spec_global_history in
    record {
      ip = ip;
      prediction = not (ltb_ℤ output (pos 0));
      output = output;
      history = s.spec_global_history;
    }

unfoldable pub predict_branch : Perceptron → ℕ → Perceptron × Bool
predict_branch s ip =
    let state = predicted_state s ip in
    (
      record s {
        perceptron_state_buf = push_state state s.perceptron_state_buf;
        spec_global_history = push_history state.prediction s.spec_global_history;
      },
      state.prediction,
    )

-- `find_if` and `erase`: the first state of the address, and the queue without it.
abbrev pub put_back :
    PerceptronState
    → Option (PerceptronState × List PerceptronState)
    → Option (PerceptronState × List PerceptronState)
put_back x none = none
put_back x (some (state, rest)) = some (state, x ∷ rest)

unfoldable pub take_state :
    ℕ → List PerceptronState → Option (PerceptronState × List PerceptronState)
take_state ip [] = none
take_state ip (x ∷ xs) =
    let later = take_state ip xs in if x.ip == ip then some (x, xs) else put_back x later

-- `output <= THETA && output >= -THETA || prediction != taken`
abbrev pub must_train : Bool → PerceptronState → Bool
must_train taken state =
    (not (ltb_ℤ theta state.output) && not (ltb_ℤ state.output (pos 0 -ℤ theta)))
    || not (same state.prediction taken)

abbrev pub update_with :
    ℕ → Bool → Perceptron → Option (PerceptronState × List PerceptronState) → Perceptron
update_with ip taken s none = s
update_with ip taken s (some (state, rest)) =
    let real = push_history taken s.global_history in
    let index = ip % num_perceptrons in
    record {
      perceptron_state_buf = rest;
      global_history = real;
      spec_global_history = if same state.prediction taken then s.spec_global_history else real;
      perceptrons =
          if must_train taken state
          then update s.perceptrons index
              (update_perceptron taken state.history (s.perceptrons index))
          else s.perceptrons;
    }

unfoldable pub last_branch_result : ℕ → Bool → Perceptron → Perceptron
last_branch_result ip taken s = update_with ip taken s (take_state ip s.perceptron_state_buf)
