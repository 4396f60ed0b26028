-- ===== src/Perceptron/Laws.antt =====
-- ChampSim/branch/perceptron: the weights stay in their 8 bits and the queue within 100 states.
use cs230_branch_predictor.Prelude.{
  ℕ, suc, ◌≤◌, ◌≡◌, refl, arith, Bool, ltb, List, [], ◌∷◌, Option, none, some, ◌==◌, update,
  Bool-cases, inl, inr, ◌%◌,
}
use cs230_branch_predictor.Prelude.Sequences.{
  length, push_last, length-push_last, length-drop_first,
}
use cs230_branch_predictor.Counter.Training.{IsWeight, trained-IsWeight}
use cs230_branch_predictor.Perceptron.{
  InternalPerceptron, PerceptronState, Perceptron, update_perceptron, upd_mask, push_state,
  num_update_entries, num_perceptrons, perceptron_history, predict_branch, put_back, take_state,
  must_train, update_with, last_branch_result,
}

pub record PerceptronIsValid (p : InternalPerceptron) : Type 0 where
  pub bias : IsWeight p.bias
  pub weights : (i : ℕ) → IsWeight (p.weights i)

pub record IsValid (s : Perceptron) : Type 0 where
  pub perceptrons : (i : ℕ) → PerceptronIsValid (s.perceptrons i)
  pub pending : length s.perceptron_state_buf ≤ num_update_entries

update_perceptron-IsValid :
    (taken : Bool) (history : ℕ → Bool) (p : InternalPerceptron)
    → PerceptronIsValid p
    → PerceptronIsValid (update_perceptron taken history p)
unfolding update_perceptron
update_perceptron-IsValid taken history p v = record {
  bias = trained-IsWeight taken p.bias;
  weights = λ i. elim (Bool-cases (ltb i perceptron_history)) [
    | inl e ↦ rw e (trained-IsWeight (upd_mask taken history i) (p.weights i))
    | inr e ↦ rw e (v.weights i)
  ];
}

length-push_state :
    (state : PerceptronState) (buf : List PerceptronState)
    → length buf ≤ num_update_entries
    → length (push_state state buf) ≤ num_update_entries
length-push_state state buf h =
    ground (arith, length-push_last buf state, length-drop_first (push_last buf state))

-- A state that is taken out leaves the queue one shorter.
abbrev Shorter : ℕ → Option (PerceptronState × List PerceptronState) → Type 0
Shorter n none = Unit
Shorter n (some (state, rest)) = suc (length rest) ≡ n

put_back-Shorter :
    (x : PerceptronState) (n : ℕ) (o : Option (PerceptronState × List PerceptronState))
    → Shorter n o
    → Shorter (suc n) (put_back x o)
put_back-Shorter x n none h = tt
put_back-Shorter x n (some (state, rest)) h = omega (arith, h)

take_state-Shorter :
    (ip : ℕ) (buf : List PerceptronState) → Shorter (length buf) (take_state ip buf)
unfolding take_state
take_state-Shorter ip [] = tt
take_state-Shorter ip (x ∷ xs) = elim (Bool-cases (x.ip == ip)) [
  | inl e ↦ rw e refl
  | inr e ↦ rw e (put_back-Shorter x (length xs) (take_state ip xs) (take_state-Shorter ip xs))
]

trained_table-IsValid :
    (index : ℕ) (p : InternalPerceptron) (table : ℕ → InternalPerceptron)
    → PerceptronIsValid p
    → ((i : ℕ) → PerceptronIsValid (table i))
    → (i : ℕ) → PerceptronIsValid (update table index p i)
trained_table-IsValid index p table v h i = elim (Bool-cases (i == index)) [
  | inl e ↦ rw e v
  | inr e ↦ rw e (h i)
]

update_with-IsValid :
    (ip : ℕ) (taken : Bool) (s : Perceptron) (o : Option (PerceptronState × List PerceptronState))
    → Shorter (length s.perceptron_state_buf) o
    → IsValid s
    → IsValid (update_with ip taken s o)
update_with-IsValid ip taken s none h v = v
update_with-IsValid ip taken s (some (state, rest)) h v = record {
  pending = omega (arith, h, v.pending);
  perceptrons = elim (Bool-cases (must_train taken state)) [
    | inl e ↦ rw e (
        trained_table-IsValid (ip % num_perceptrons) _ s.perceptrons
          (update_perceptron-IsValid taken state.history (s.perceptrons (ip % num_perceptrons))
            (v.perceptrons (ip % num_perceptrons)))
          v.perceptrons)
    | inr e ↦ rw e v.perceptrons
  ];
}

-- A prediction and an update, each from any valid state and for any branch, keep every weight between
-- -128 and 127 and at most 100 states in the queue.
pub perceptron-IsValid :
    (ip : ℕ) (taken : Bool) (s : Perceptron)
    → IsValid s
    → IsValid (predict_branch s ip).0 × IsValid (last_branch_result ip taken s)
unfolding predict_branch last_branch_result
perceptron-IsValid ip taken s v = (
  record {
    perceptrons = v.perceptrons;
    pending = length-push_state _ s.perceptron_state_buf v.pending;
  },
  update_with-IsValid ip taken s (take_state ip s.perceptron_state_buf)
      (take_state-Shorter ip s.perceptron_state_buf) v,
)
