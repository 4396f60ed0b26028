-- ===== src/Prelude/Extrema.antt =====
-- `std::min_element` and `std::max_element` over the indices of an array: the first extremum.
use mathlib.Core.Path.{subst}
use cs230_branch_predictor.Prelude.{
  ℕ, zero, suc, ◌+◌, ◌-◌, ap, ◌≤◌, ◌<◌, ◌≡◌, arith, Bool-cases, inl, inr, ltb, if◌then◌else◌, ◌⊎◌,
  ◌==◌,
}

-- The rest of the loop from index i on.
unfoldable pub min_element : (ℕ → ℕ) → ℕ → ℕ → ℕ → ℕ
min_element f zero i best = best
min_element f (suc rounds) i best =
    min_element f rounds (i + 1) (if ltb (f i) (f best) then i else best)

unfoldable pub max_element : (ℕ → ℕ) → ℕ → ℕ → ℕ → ℕ
max_element f zero i best = best
max_element f (suc rounds) i best =
    max_element f rounds (i + 1) (if ltb (f best) (f i) then i else best)

-- The first index from lo to below hi with the least value, or with the greatest.
pub record IsFirstMin (f : ℕ → ℕ) (lo hi r : ℕ) : Type 0 where
  pub low : lo ≤ r
  pub high : r < hi
  pub least : (j : ℕ) → lo ≤ j → j < hi → f r ≤ f j
  pub first : (j : ℕ) → lo ≤ j → j < r → f r < f j

pub record IsFirstMax (f : ℕ → ℕ) (lo hi r : ℕ) : Type 0 where
  pub low : lo ≤ r
  pub high : r < hi
  pub greatest : (j : ℕ) → lo ≤ j → j < hi → f j ≤ f r
  pub first : (j : ℕ) → lo ≤ j → j < r → f j < f r

-- An index below i + 1 is i or below i.
pub last_or_below : (i j : ℕ) → j < i + 1 → (j ≡ i) ⊎ (j < i)
last_or_below i j h = elim (Bool-cases (j == i)) [
  | inl e ↦ inl (ground arith)
  | inr ne ↦ inr (ground arith)
]

module _ (f : ℕ → ℕ) (lo : ℕ) where
  min_step :
      (i best : ℕ)
      → IsFirstMin f lo i best
      → IsFirstMin f lo (i + 1) (if ltb (f i) (f best) then i else best)
  min_step i best h = elim (Bool-cases (ltb (f i) (f best))) [
    | inl less ↦ rw less (record {
      low = omega (arith, h.low, h.high);
      high = omega arith;
      least = λ j from to. elim (last_or_below i j to) [
        | inl e ↦ rw e (omega arith)
        | inr below ↦ ground (arith, h.least j from below)
      ];
      first = λ j from to. ground (arith, h.least j from to);
    })
    | inr not_less ↦ rw not_less (record {
      low = h.low;
      high = omega (arith, h.high);
      least = λ j from to. elim (last_or_below i j to) [
        | inl e ↦ rw e (ground arith)
        | inr below ↦ h.least j from below
      ];
      first = h.first;
    })
  ]

  min_element-IsFirstMin :
      (rounds i best : ℕ)
      → IsFirstMin f lo i best
      → IsFirstMin f lo (i + rounds) (min_element f rounds i best)
  unfolding min_element
  min_element-IsFirstMin zero i best h = subst (λ hi. IsFirstMin f lo hi best) (omega arith) h
  min_element-IsFirstMin (suc rounds) i best h =
      subst (λ hi. IsFirstMin f lo hi (min_element f (suc rounds) i best)) (omega arith)
        (min_element-IsFirstMin rounds (i + 1) (if ltb (f i) (f best) then i else best)
          (min_step i best h))

  max_step :
      (i best : ℕ)
      → IsFirstMax f lo i best
      → IsFirstMax f lo (i + 1) (if ltb (f best) (f i) then i else best)
  max_step i best h = elim (Bool-cases (ltb (f best) (f i))) [
    | inl more ↦ rw more (record {
      low = omega (arith, h.low, h.high);
      high = omega arith;
      greatest = λ j from to. elim (last_or_below i j to) [
        | inl e ↦ rw e (omega arith)
        | inr below ↦ ground (arith, h.greatest j from below)
      ];
      first = λ j from to. ground (arith, h.greatest j from to);
    })
    | inr not_more ↦ rw not_more (record {
      low = h.low;
      high = omega (arith, h.high);
      greatest = λ j from to. elim (last_or_below i j to) [
        | inl e ↦ rw e (ground arith)
        | inr below ↦ h.greatest j from below
      ];
      first = h.first;
    })
  ]

  max_element-IsFirstMax :
      (rounds i best : ℕ)
      → IsFirstMax f lo i best
      → IsFirstMax f lo (i + rounds) (max_element f rounds i best)
  unfolding max_element
  max_element-IsFirstMax zero i best h = subst (λ hi. IsFirstMax f lo hi best) (omega arith) h
  max_element-IsFirstMax (suc rounds) i best h =
      subst (λ hi. IsFirstMax f lo hi (max_element f (suc rounds) i best)) (omega arith)
        (max_element-IsFirstMax rounds (i + 1) (if ltb (f best) (f i) then i else best)
          (max_step i best h))

  -- Over n indices from lo on, n at least 1, as the library functions begin.
  pub min_element-range :
      (n : ℕ) → 1 ≤ n → IsFirstMin f lo (lo + n) (min_element f (n - 1) (lo + 1) lo)
  min_element-range n pos =
      subst (λ hi. IsFirstMin f lo hi (min_element f (n - 1) (lo + 1) lo)) (omega arith)
        (min_element-IsFirstMin (n - 1) (lo + 1) lo (record {
          low = omega arith;
          high = omega arith;
          least = λ j from to. let only : lo ≡ j = omega arith in omega (arith, ap f only);
          first = λ j from to. absurd (omega arith);
        }))

  pub max_element-range :
      (n : ℕ) → 1 ≤ n → IsFirstMax f lo (lo + n) (max_element f (n - 1) (lo + 1) lo)
  max_element-range n pos =
      subst (λ hi. IsFirstMax f lo hi (max_element f (n - 1) (lo + 1) lo)) (omega arith)
        (max_element-IsFirstMax (n - 1) (lo + 1) lo (record {
          low = omega arith;
          high = omega arith;
          greatest = λ j from to. let only : lo ≡ j = omega arith in omega (arith, ap f only);
          first = λ j from to. absurd (omega arith);
        }))
