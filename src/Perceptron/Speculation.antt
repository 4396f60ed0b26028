-- ===== src/Perceptron/Speculation.antt =====
-- ChampSim/branch/perceptron: the speculative history is the real history with the predictions that
-- are pending, and a misprediction repairs it.
use cs230_branch_predictor.Prelude.{
  ℕ, zero, suc, ◌<◌, ◌≡◌, refl, sym, ap, ◌∙◌, arith, Bool, true, false, same, List, [], ◌∷◌, some,
  if◌then◌else◌, inl, inr, ◌⊎◌,
}
use cs230_branch_predictor.Prelude.Sequences.{length, push_last, length-push_last}
use cs230_branch_predictor.Perceptron.{
  PerceptronState, Perceptron, push_history, push_state, predicted_state, perceptron_history,
  num_update_entries, predict_branch, take_state, last_branch_result,
}

-- The history after the pending predictions, the first of the queue first.
abbrev pub push_all : List PerceptronState → (ℕ → Bool) → ℕ → Bool
push_all [] history = history
push_all (x ∷ xs) history = push_all xs (push_history x.prediction history)

abbrev pub IsSpeculative : Perceptron → Type 0
IsSpeculative s = s.spec_global_history ≡ push_all s.perceptron_state_buf s.global_history

-- The predictor as it is used in order: it predicts while the queue has room, and the oldest pending
-- branch is resolved, either as predicted, or with nothing predicted after it.
pub data Step (s : Perceptron) : Perceptron → Type 0 where
  fetch :
      (ip : ℕ) → length s.perceptron_state_buf < num_update_entries → Step s (predict_branch s ip).0
  resolve :
      (x : PerceptronState) (rest : List PerceptronState) (taken : Bool)
      → s.perceptron_state_buf ≡ x ∷ rest
      → (x.prediction ≡ taken) ⊎ (rest ≡ [])
      → Step s (last_branch_result x.ip taken s)

pub data Run (s : Perceptron) : Perceptron → Type 0 where
  start : Run s s
  later : {t u : Perceptron} → Run s t → Step t u → Run s u

push_all-push_last :
    (xs : List PerceptronState) (x : PerceptronState) (history : ℕ → Bool)
    → push_all (push_last xs x) history ≡ push_history x.prediction (push_all xs history)
push_all-push_last [] x history = refl
push_all-push_last (y ∷ ys) x history = push_all-push_last ys x (push_history y.prediction history)

push_state-push_last :
    (x : PerceptronState) (xs : List PerceptronState)
    → length xs < num_update_entries
    → push_state x xs ≡ push_last xs x
push_state-push_last x xs room = ground (arith, length-push_last xs x)

fetch-IsSpeculative :
    (s : Perceptron) (ip : ℕ)
    → length s.perceptron_state_buf < num_update_entries
    → IsSpeculative s
    → IsSpeculative (predict_branch s ip).0
unfolding predict_branch
fetch-IsSpeculative s ip room h =
    rw (push_state-push_last _ s.perceptron_state_buf room)
      (ap (push_history _) h ∙ sym (push_all-push_last s.perceptron_state_buf _ s.global_history))

take_first :
    (x : PerceptronState) (rest : List PerceptronState)
    → take_state x.ip (x ∷ rest) ≡ some (x, rest)
unfolding take_state
take_first x rest = ground arith

-- A correct prediction is already in the speculative history; a wrong one is replaced.
repaired :
    (prediction taken : Bool) (rest : List PerceptronState) (spec real : ℕ → Bool)
    → (prediction ≡ taken) ⊎ (rest ≡ [])
    → spec ≡ push_all rest (push_history prediction real)
    → (if same prediction taken then spec else push_history taken real)
      ≡ push_all rest (push_history taken real)
repaired true true rest spec real fine h = h
repaired false false rest spec real fine h = h
repaired true false rest spec real (inl correct) h = cc
repaired true false rest spec real (inr last) h = rw last refl
repaired false true rest spec real (inl correct) h = cc
repaired false true rest spec real (inr last) h = rw last refl

resolve-IsSpeculative :
    (s : Perceptron) (x : PerceptronState) (rest : List PerceptronState) (taken : Bool)
    → s.perceptron_state_buf ≡ x ∷ rest
    → (x.prediction ≡ taken) ⊎ (rest ≡ [])
    → IsSpeculative s
    → IsSpeculative (last_branch_result x.ip taken s)
unfolding last_branch_result
resolve-IsSpeculative s x rest taken queue fine h =
    rw (queue, take_first x rest)
      (repaired x.prediction taken rest s.spec_global_history s.global_history fine
        (h ∙ ap (λ q. push_all q s.global_history) queue))

-- Along every run that uses the predictor in order, from a state where it holds, the speculative
-- history is the real history with the pending predictions shifted in.
pub Run-IsSpeculative : (s t : Perceptron) → Run s t → IsSpeculative s → IsSpeculative t
Run-IsSpeculative s t start h = h
Run-IsSpeculative s t (later r (fetch ip room)) h =
    fetch-IsSpeculative _ ip room (Run-IsSpeculative s _ r h)
Run-IsSpeculative s t (later r (resolve x rest taken queue fine)) h =
    resolve-IsSpeculative _ x rest taken queue fine (Run-IsSpeculative s _ r h)

resolve_lem :
    (t : Perceptron) (x : PerceptronState) (rest : List PerceptronState) (taken : Bool)
    → t.perceptron_state_buf ≡ x ∷ rest
    → ((last_branch_result x.ip taken t).perceptron_state_buf ≡ rest)
      × ((last_branch_result x.ip taken t).global_history ≡ push_history taken t.global_history)
unfolding last_branch_result
resolve_lem t x rest taken queue = rw (queue, take_first x rest) (refl, refl)

-- Branches, the latest first, each predicted and then updated with its outcome.
abbrev pub run : Perceptron → List (ℕ × Bool) → Perceptron
run s [] = s
run s ((ip, taken) ∷ before) = last_branch_result ip taken (predict_branch (run s before) ip).0

abbrev pub nth_outcome : List (ℕ × Bool) → ℕ → Bool
nth_outcome [] i = false
nth_outcome ((ip, taken) ∷ before) zero = taken
nth_outcome ((ip, taken) ∷ before) (suc i) = nth_outcome before i

abbrev IsSettled : Perceptron → Type 0
IsSettled s = (s.perceptron_state_buf ≡ []) × (s.spec_global_history ≡ s.global_history)

branch_lem :
    (ip : ℕ) (taken : Bool) (s : Perceptron)
    → IsSettled s
    → let s' = last_branch_result ip taken (predict_branch s ip).0 in
      IsSettled s' × (s'.global_history ≡ push_history taken s.global_history)
unfolding predict_branch
branch_lem ip taken s (empty, settled) =
    let spec : IsSpeculative s = settled ∙ ap (λ q. push_all q s.global_history) (sym empty) in
    let room : length s.perceptron_state_buf < num_update_entries = rw empty (omega arith) in
    let t = (predict_branch s ip).0 in
    let x = predicted_state s ip in
    let queue : t.perceptron_state_buf ≡ x ∷ [] = ap (push_state x) empty in
    let done = resolve_lem t x [] taken queue in
    let spec' =
      resolve-IsSpeculative t x [] taken queue (inr refl) (fetch-IsSpeculative s ip room spec) in
    (
      (done.0, spec' ∙ ap (λ q. push_all q (last_branch_result ip taken t).global_history) done.0),
      done.1,
    )

run-IsSettled : (s : Perceptron) (trace : List (ℕ × Bool)) → IsSettled s → IsSettled (run s trace)
run-IsSettled s [] h = h
run-IsSettled s ((ip, taken) ∷ before) h =
    (branch_lem ip taken (run s before) (run-IsSettled s before h)).0

older :
    (taken : Bool) (history : ℕ → Bool) (i : ℕ)
    → suc i < perceptron_history
    → push_history taken history (suc i) ≡ history i
older taken history i lt = ground arith

run-global :
    (s : Perceptron) (trace : List (ℕ × Bool)) (i : ℕ)
    → IsSettled s
    → s.global_history ≡ (λ j. false)
    → i < perceptron_history
    → (run s trace).global_history i ≡ nth_outcome trace i
run-global s [] i h cleared lt = ap (λ (f : ℕ → Bool). f i) cleared
run-global s ((ip, taken) ∷ before) zero h cleared lt =
    ap (λ (f : ℕ → Bool). f 0) (branch_lem ip taken (run s before) (run-IsSettled s before h)).1
run-global s ((ip, taken) ∷ before) (suc i) h cleared lt =
    ap (λ (f : ℕ → Bool). f (suc i))
      (branch_lem ip taken (run s before) (run-IsSettled s before h)).1
    ∙ older taken (run s before).global_history i lt
    ∙ run-global s before i h cleared (omega arith)

-- Between branches that are each resolved before the next is predicted, no prediction is pending and
-- the speculative history is the real one: from cleared histories, its 24 bits are the outcomes of
-- the last branches, the latest as bit 0, however these were predicted.
pub run-settled :
    (s : Perceptron) (trace : List (ℕ × Bool)) (i : ℕ)
    → s.perceptron_state_buf ≡ []
    → s.spec_global_history ≡ s.global_history
    → s.global_history ≡ (λ j. false)
    → i < perceptron_history
    → ((run s trace).perceptron_state_buf ≡ [])
      × ((run s trace).spec_global_history i ≡ nth_outcome trace i)
run-settled s trace i empty settled cleared lt =
    let now = run-IsSettled s trace (empty, settled) in
    (now.0, ap (λ (f : ℕ → Bool). f i) now.1 ∙ run-global s trace i (empty, settled) cleared lt)
