-- ===== src/LruTable/Search.antt =====
-- ChampSim/inc/msl/lru_table.h: what the search of `fill` finds. A valid block is greater than an
-- unused one, a block with the tag greater than one without, and a later use greater than an earlier
-- one. Of two unused blocks the comparison calls each less than the other, so no statement depends
-- on which of the unused blocks is found.
use mathlib.Core.Path.{subst}
use cs230_branch_predictor.Prelude.{
  ℕ, zero, suc, ◌+◌, ◌-◌, ◌≤◌, ◌<◌, ◌≡◌, arith, true, false, if◌then◌else◌, Bool-cases, inl, inr,
}
use cs230_branch_predictor.Prelude.Extrema.{last_or_below}
use cs230_branch_predictor.LruTable.{Projections, Block, is_valid, less, minmax_element}

module _ {T : Type 0} (p : Projections T) (tag : ℕ) (block : ℕ → Block T) where
  -- The least is unused, or nothing is less.
  pub record IsLeast (lo hi r : ℕ) : Type 0 where
    pub low : lo ≤ r
    pub high : r < hi
    pub least :
        (j : ℕ)
        → lo ≤ j
        → j < hi
        → is_valid (block r) ≡ true
        → less p tag (block j) (block r) ≡ false

  -- No valid block is greater than the greatest.
  pub record IsGreatest (lo hi r : ℕ) : Type 0 where
    pub low : lo ≤ r
    pub high : r < hi
    pub greatest :
        (j : ℕ)
        → lo ≤ j
        → j < hi
        → is_valid (block j) ≡ true
        → less p tag (block r) (block j) ≡ false

  less-least :
      (x y z : Block T)
      → less p tag y x ≡ true
      → (is_valid x ≡ true → less p tag z x ≡ false)
      → is_valid y ≡ true
      → less p tag z y ≡ false
  less-least x y z replaced before valid = ground (arith, before)

  less-greatest :
      (x y z : Block T)
      → less p tag y x ≡ false
      → (is_valid z ≡ true → less p tag x z ≡ false)
      → is_valid z ≡ true
      → less p tag y z ≡ false
  less-greatest x y z replaced before valid = ground (arith, before)

  less_self : (x : Block T) → is_valid x ≡ true → less p tag x x ≡ false
  less_self x valid = ground arith

  less_asym : (x y : Block T) → is_valid y ≡ true → less p tag y x ≡ true → less p tag x y ≡ false
  less_asym x y valid replaced = ground arith

  least_step :
      (lo i r : ℕ)
      → IsLeast lo i r
      → IsLeast lo (i + 1) (if less p tag (block i) (block r) then i else r)
  least_step lo i r h = elim (Bool-cases (less p tag (block i) (block r))) [
    | inl replaced ↦ rw replaced (record {
      low = omega (arith, h.low, h.high);
      high = omega arith;
      least = λ j from to valid. elim (last_or_below i j to) [
        | inl e ↦ rw e (less_self (block i) valid)
        | inr below ↦ less-least (block r) (block i) (block j) replaced (h.least j from below) valid
      ];
    })
    | inr kept ↦ rw kept (record {
      low = h.low;
      high = omega (arith, h.high);
      least = λ j from to valid. elim (last_or_below i j to) [
        | inl e ↦ rw e kept
        | inr below ↦ h.least j from below valid
      ];
    })
  ]

  greatest_step :
      (lo i r : ℕ)
      → IsGreatest lo i r
      → IsGreatest lo (i + 1) (if less p tag (block i) (block r) then r else i)
  greatest_step lo i r h = elim (Bool-cases (less p tag (block i) (block r))) [
    | inl kept ↦ rw kept (record {
      low = h.low;
      high = omega (arith, h.high);
      greatest = λ j from to valid. elim (last_or_below i j to) [
        | inl e ↦
            let valid' : is_valid (block i) ≡ true = rw (← e) valid in
            rw e (less_asym (block r) (block i) valid' kept)
        | inr below ↦ h.greatest j from below valid
      ];
    })
    | inr replaced ↦ rw replaced (record {
      low = omega (arith, h.low, h.high);
      high = omega arith;
      greatest = λ j from to valid. elim (last_or_below i j to) [
        | inl e ↦
            let valid' : is_valid (block i) ≡ true = rw (← e) valid in
            rw e (less_self (block i) valid')
        | inr below ↦
            less-greatest (block r) (block i) (block j) replaced (h.greatest j from below) valid
      ];
    })
  ]

  minmax_loop :
      (rounds lo i least greatest : ℕ)
      → IsLeast lo i least
      → IsGreatest lo i greatest
      → let r = minmax_element p tag block rounds i least greatest in
        IsLeast lo (i + rounds) r.0 × IsGreatest lo (i + rounds) r.1
  unfolding minmax_element
  minmax_loop zero lo i least greatest h k = (
    subst (λ hi. IsLeast lo hi least) (omega arith) h,
    subst (λ hi. IsGreatest lo hi greatest) (omega arith) k,
  )
  minmax_loop (suc rounds) lo i least greatest h k =
      let r = minmax_element p tag block (suc rounds) i least greatest in
      subst (λ hi. IsLeast lo hi r.0 × IsGreatest lo hi r.1) (omega arith)
        (minmax_loop rounds lo (i + 1) _ _ (least_step lo i least h)
          (greatest_step lo i greatest k))

  -- The search of a span of n blocks, n at least 1.
  pub minmax_element-range :
      (lo n : ℕ)
      → 1 ≤ n
      → let r = minmax_element p tag block (n - 1) (lo + 1) lo lo in
        IsLeast lo (lo + n) r.0 × IsGreatest lo (lo + n) r.1
  minmax_element-range lo n pos =
      let r = minmax_element p tag block (n - 1) (lo + 1) lo lo in
      subst (λ hi. IsLeast lo hi r.0 × IsGreatest lo hi r.1) (omega arith)
        (minmax_loop (n - 1) lo (lo + 1) lo lo
          (record {
            low = omega arith;
            high = omega arith;
            least = λ j from to valid.
                let only : j ≡ lo = omega arith in rw only (less_self (block lo) valid);
          })
          (record {
            low = omega arith;
            high = omega arith;
            greatest = λ j from to valid.
                let only : j ≡ lo = omega arith in
                let valid' : is_valid (block lo) ≡ true = rw (← only) valid in
                rw only (less_self (block lo) valid');
          }))
