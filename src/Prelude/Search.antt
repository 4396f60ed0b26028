-- ===== src/Prelude/Search.antt =====
-- `for (i = start; i < end; i++) if (test(i)) … break;`: the first index that passes a test.
use mathlib.Core.Path.{subst}
use native.Mathlib.Decide.{dec_le}
use cs230_branch_predictor.Prelude.{
  ℕ, zero, suc, ◌+◌, ◌-◌, ◌≤◌, ◌<◌, ◌≡◌, refl, arith, Bool, true, false, Option, none, some, ◌==◌,
  if◌then◌else◌, Bool-cases, inl, inr, sym,
}

-- The loop from index i on, with so many rounds left.
unfoldable pub find_first : (ℕ → Bool) → ℕ → ℕ → Option ℕ
find_first test zero i = none
find_first test (suc rounds) i =
    let rest = find_first test rounds (i + 1) in if test i then some i else rest

-- The least index of a range that passes, if there is one.
abbrev pub IsFirst : (ℕ → Bool) → ℕ → ℕ → Option ℕ → Type 0
IsFirst test start end none = (j : ℕ) → start ≤ j → j < end → test j ≡ false
IsFirst test start end (some k) =
    (start ≤ k) × (k < end) × (test k ≡ true) × ((j : ℕ) → start ≤ j → j < k → test j ≡ false)

module _ (test : ℕ → Bool) where
  IsFirst-taken :
      (start end : ℕ) (o : Option ℕ)
      → test start ≡ false
      → IsFirst test (start + 1) end o
      → IsFirst test start end o
  IsFirst-taken start end none used h = λ j lo hi. elim (Bool-cases (j == start)) [
    | inl e ↦ let e' : j ≡ start = ground arith in rw e' used
    | inr ne ↦ h j (ground arith) hi
  ]
  IsFirst-taken start end (some k) used h = (
    omega arith,
    h.1,
    h.2,
    λ j lo hi. elim (Bool-cases (j == start)) [
      | inl e ↦ let e' : j ≡ start = ground arith in rw e' used
      | inr ne ↦ h.3 j (ground arith) hi
    ],
  )

  find_first-here : (rounds i : ℕ) → test i ≡ true → find_first test (suc rounds) i ≡ some i
  unfolding find_first
  find_first-here rounds i e = rw e

  find_first-later :
      (rounds i : ℕ)
      → test i ≡ false
      → find_first test (suc rounds) i ≡ find_first test rounds (i + 1)
  unfolding find_first
  find_first-later rounds i e = rw e

  pub find_first-IsFirst :
      (rounds start end : ℕ)
      → start + rounds ≡ end
      → IsFirst test start end (find_first test rounds start)
  find_first-IsFirst zero start end e = unfold find_first in λ j lo hi. absurd (omega arith)
  find_first-IsFirst (suc rounds) start end e = elim (Bool-cases (test start)) [
    | inl is ↦
        subst (IsFirst test start end) (sym (find_first-here rounds start is))
          (omega arith, omega arith, is, λ j lo hi. absurd (omega arith))
    | inr used ↦
        subst (IsFirst test start end) (sym (find_first-later rounds start used))
          (IsFirst-taken start end _ used (find_first-IsFirst rounds (start + 1) end (omega arith)))
  ]

  -- The same for a search that may start past the end of the range.
  pub search-IsFirst :
      (start end : ℕ) → IsFirst test start end (find_first test (end - start) start)
  search-IsFirst start end = elim (dec_le start end) [
    | yes h ↦ find_first-IsFirst (end - start) start end (omega arith)
    | no h ↦
        let empty : end - start ≡ 0 = omega arith in
        rw empty (unfold find_first in λ j lo hi. absurd (omega arith))
  ]

pub IsFirst-unique :
    (test : ℕ → Bool) (start end : ℕ) (o o' : Option ℕ)
    → IsFirst test start end o
    → IsFirst test start end o'
    → o ≡ o'
IsFirst-unique test start end none none h h' = refl
IsFirst-unique test start end none (some q) h h' = ground (arith, h q)
IsFirst-unique test start end (some p) none h h' = ground (arith, h' p)
IsFirst-unique test start end (some p) (some q) h h' = ground (arith, h.3 q, h'.3 p)
