-- ===== src/Tage/Select.antt =====
-- ChampSim/branch/Tage/tage.cc, `predict_branch`: which components provide a prediction.
use mathlib.Core.Path.{subst}
use cs230_branch_predictor.Prelude.{
  ℕ, zero, suc, ◌+◌, ◌≤◌, ◌<◌, ◌≡◌, refl, arith, Bool, true, false, Option, none, some, leb, ◌==◌,
  ◌&&◌, ◌||◌, if◌then◌else◌, Bool-cases, inl, inr, sym, ap₂, ◌∙◌,
}
use cs230_branch_predictor.Tage.{Tage, num_components}
use cs230_branch_predictor.Tage.Predict.{
  scan, older, components, hits, entry_at, base_pred, predict_branch, fill_info,
}

-- The greatest hit below a bound, if there is one.
abbrev pub IsLast : (ℕ → Bool) → ℕ → Option ℕ → Type 0
IsLast hit end none = (j : ℕ) → 1 ≤ j → j < end → hit j ≡ false
IsLast hit end (some p) =
    (1 ≤ p) × (p < end) × (hit p ≡ true) × ((j : ℕ) → p < j → j < end → hit j ≡ false)

-- The greatest hit below the provider; none where there is no provider.
abbrev pub IsAltpred : (ℕ → Bool) → Option ℕ → Option ℕ → Type 0
IsAltpred hit none altpred = altpred ≡ none
IsAltpred hit (some p) altpred = IsLast hit p altpred

module _ (hit : ℕ → Bool) where
  IsLast-miss : (i : ℕ) (o : Option ℕ) → hit i ≡ false → IsLast hit i o → IsLast hit (i + 1) o
  IsLast-miss i none miss h = λ j lo hi. elim (Bool-cases (j == i)) [
    | inl e ↦ let e' : j ≡ i = ground arith in rw e' miss
    | inr ne ↦ h j lo (ground arith)
  ]
  IsLast-miss i (some p) miss h = (
    h.0,
    omega arith,
    h.2,
    λ j lo hi. elim (Bool-cases (j == i)) [
      | inl e ↦ let e' : j ≡ i = ground arith in rw e' miss
      | inr ne ↦ h.3 j lo (ground arith)
    ],
  )

  IsLast-hit : (i : ℕ) → 1 ≤ i → hit i ≡ true → IsLast hit (i + 1) (some i)
  IsLast-hit i lo h = (lo, omega arith, h, λ j lo hi. absurd (omega arith))

  IsAltpred-hit :
      (i : ℕ) (provider altpred : Option ℕ)
      → IsLast hit i provider
      → IsAltpred hit provider altpred
      → IsAltpred hit (some i) (older provider altpred)
  IsAltpred-hit i none altpred last alt = subst (IsLast hit i) (sym alt) last
  IsAltpred-hit i (some p) altpred last alt = last

  scan-hit :
      (rounds i : ℕ) (p a : Option ℕ)
      → hit i ≡ true
      → scan hit (suc rounds) i p a ≡ scan hit rounds (i + 1) (some i) (older p a)
  unfolding scan
  scan-hit rounds i p a found = rw found

  scan-miss :
      (rounds i : ℕ) (p a : Option ℕ)
      → hit i ≡ false
      → scan hit (suc rounds) i p a ≡ scan hit rounds (i + 1) p a
  unfolding scan
  scan-miss rounds i p a miss = rw miss

  abbrev Found : ℕ → Option ℕ × Option ℕ → Type 0
  Found end r = IsLast hit end r.0 × IsAltpred hit r.0 r.1

  scan-IsLast :
      (rounds i end : ℕ) (provider altpred : Option ℕ)
      → 1 ≤ i
      → i + rounds ≡ end
      → IsLast hit i provider
      → IsAltpred hit provider altpred
      → Found end (scan hit rounds i provider altpred)
  scan-IsLast zero i end provider altpred lo e last alt =
      unfold scan in (subst (λ k. IsLast hit k provider) (omega arith) last, alt)
  scan-IsLast (suc rounds) i end provider altpred lo e last alt = elim (Bool-cases (hit i)) [
    | inl found ↦ subst (Found end) (sym (scan-hit rounds i provider altpred found)) (
        scan-IsLast rounds (i + 1) end (some i) (older provider altpred) (omega arith) (omega arith)
          (IsLast-hit i lo found) (IsAltpred-hit i provider altpred last alt))
    | inr miss ↦ subst (Found end) (sym (scan-miss rounds i provider altpred miss)) (
        scan-IsLast rounds (i + 1) end provider altpred (omega arith) (omega arith)
          (IsLast-miss i provider miss last) alt)
  ]

  IsLast-unique : (end : ℕ) (o o' : Option ℕ) → IsLast hit end o → IsLast hit end o' → o ≡ o'
  IsLast-unique end none none h h' = refl
  IsLast-unique end none (some q) h h' = ground (arith, h q)
  IsLast-unique end (some p) none h h' = ground (arith, h' p)
  IsLast-unique end (some p) (some q) h h' = ground (arith, h.3 q, h'.3 p)

  IsAltpred-unique : (p a a' : Option ℕ) → IsAltpred hit p a → IsAltpred hit p a' → a ≡ a'
  IsAltpred-unique none a a' h h' = h ∙ sym h'
  IsAltpred-unique (some p) a a' h h' = IsLast-unique p a a' h h'

-- The search finds the longest history that hits as the provider, and the next longest that hits
-- as the alternative; without a hit there is neither.
pub components-IsLast :
    (s : Tage) (ip : ℕ)
    → IsLast (hits s ip) num_components (components s ip).0
      × IsAltpred (hits s ip) (components s ip).0 (components s ip).1
unfolding components
components-IsLast s ip =
    scan-IsLast (hits s ip) 12 1 13 none none (omega arith) refl (λ j lo hi. absurd (omega arith))
      refl

-- What the paper describes: the entry of the longest match decides by the sign of its counter,
-- unless it looks newly allocated and `USE_ALT_ON_NA` says not to trust such entries.
abbrev pub sign3 : ℕ → Bool
sign3 pred = leb 4 pred

abbrev pub sign2 : ℕ → Bool
sign2 counter = leb 2 counter

abbrev pub alternative : Tage → ℕ → Option ℕ → Bool
alternative s ip none = sign2 (base_pred s ip)
alternative s ip (some a) = sign3 (entry_at s ip a).pred

abbrev pub distrusted : Tage → ℕ → ℕ → Bool
distrusted s ip p =
    ((entry_at s ip p).pred == 3 || (entry_at s ip p).pred == 4)
    && (entry_at s ip p).u == 0
    && leb 8 s.use_alt_on_na

abbrev pub decision : Tage → ℕ → Option ℕ → Option ℕ → Bool
decision s ip none altpred = sign2 (base_pred s ip)
decision s ip (some p) altpred =
    if distrusted s ip p then alternative s ip altpred else sign3 (entry_at s ip p).pred

filled :
    (s : Tage) (ip : ℕ) (p a : Option ℕ) → (fill_info s ip p a).ultimate_pred ≡ decision s ip p a
filled s ip none a = ground arith
filled s ip (some p) none = ground arith
filled s ip (some p) (some a) = ground arith

-- If `p` is the longest match of the address and `a` the next longest, then the prediction is that
-- of the bimodal table without a match, that of `a` (of the bimodal table if there is none) where
-- the entry of `p` is weak, not useful and `USE_ALT_ON_NA` is 8 or more, and that of `p` otherwise.
pub predict_branch-decision :
    (s : Tage) (ip : ℕ) (p a : Option ℕ)
    → IsLast (hits s ip) num_components p
    → IsAltpred (hits s ip) p a
    → (predict_branch s ip).1 ≡ decision s ip p a
unfolding predict_branch
predict_branch-decision s ip p a last alt =
    let found = components-IsLast s ip in
    let same_p = IsLast-unique (hits s ip) num_components (components s ip).0 p found.0 last in
    filled s ip (components s ip).0 (components s ip).1
    ∙ ap₂ (decision s ip) same_p (
        IsAltpred-unique (hits s ip) p (components s ip).1 a
          (subst (λ o. IsAltpred (hits s ip) o (components s ip).1) same_p found.1) alt)
