-- ===== src/LruTable/Touch.antt =====
-- ChampSim/inc/msl/lru_table.h: `check_hit` and `invalidate`, and the invariant over all operations.
use cs230_branch_predictor.Prelude.{
  ℕ, ◌≡◌, ◌≢◌, refl, arith, false, ◌==◌, Option, none, some, Bool-cases, inl, inr,
}
use cs230_branch_predictor.LruTable.{
  Projections, LruTable, match_func, find_match, hit_at, check_hit, fill, invalidate_at, invalidate,
}
use cs230_branch_predictor.LruTable.Keys.{
  InSpan, IsValid, Matches-unique, match_valid, write_block-IsValid, find_match-Matches,
  find_match-none,
}
use cs230_branch_predictor.LruTable.Fill.{fill-IsValid}

module _ {T : Type 0} (p : Projections T) where
  -- A hit uses the block now: it writes the value that is there.
  pub hit-IsValid :
      (elem : T) (t : LruTable T) (o : Option ℕ)
      → find_match p elem t ≡ o
      → IsValid p t
      → IsValid p (hit_at p t o).0
  hit-IsValid elem t none e v = v
  hit-IsValid elem t (some i) e v =
      let valid = match_valid p elem (t.block i) (find_match-Matches p elem t i e).1 in
      let span = v.home i valid in
      write_block-IsValid p (t.block i).value t i v span
        (λ j h. Matches-unique p (t.block i).value t j i v h (span, ground (arith, valid)))

  invalidate-IsValid :
      (t : LruTable T) (o : Option ℕ) → IsValid p t → IsValid p (invalidate_at p t o).0
  invalidate-IsValid t none v = v
  invalidate-IsValid t (some i) v = record {
    home = λ k valid. elim (Bool-cases (k == i)) [
      | inl e ↦ cc (rw e at valid)
      | inr e ↦ rw e (v.home k (rw e at valid))
    ];
    unique = λ k l vk vl key. elim (Bool-cases (k == i)) [
      | inl e ↦ cc (rw e at vk)
      | inr nk ↦ elim (Bool-cases (l == i)) [
        | inl e ↦ cc (rw e at vl)
        | inr nl ↦ v.unique k l (rw nk at vk) (rw nl at vl) (rw (nk, nl) at key)
      ]
    ];
    past = λ k. ground (arith, v.past k);
    order = λ k l valid e. ground (arith, v.order k l);
  }

  -- Every operation keeps the invariant: each valid block stands in the set of its value, a set has at
  -- most one valid block of a tag, and no two blocks were used at once.
  pub operations-IsValid :
      (elem : T) (t : LruTable T)
      → IsValid p t
      → IsValid p (check_hit p elem t).0
        × IsValid p (fill p elem t)
        × IsValid p (invalidate p elem t).0
  unfolding check_hit invalidate
  operations-IsValid elem t v = (
    hit-IsValid elem t (find_match p elem t) refl v,
    fill-IsValid p elem t v,
    invalidate-IsValid t (find_match p elem t) v,
  )

  invalidated_misses :
      (elem : T) (t : LruTable T) (o : Option ℕ)
      → find_match p elem t ≡ o
      → IsValid p t
      → find_match p elem (invalidate_at p t o).0 ≡ none
  invalidated_misses elem t none e v = e
  invalidated_misses elem t (some i) e v =
      find_match-none p elem (invalidate_at p t (some i)).0 (λ j span. elim (Bool-cases (j == i)) [
        | inl here ↦ rw here refl
        | inr away ↦ rw away (not_twice j span (ground arith))
      ])
    where
      not_twice : (j : ℕ) → InSpan p elem t j → j ≢ i → match_func p elem (t.block j) ≡ false
      not_twice j span away = elim (Bool-cases (match_func p elem (t.block j))) [
        | inl found ↦
            absurd
              (away (Matches-unique p elem t j i v (span, found) (find_match-Matches p elem t i e)))
        | inr other ↦ other
      ]

  -- An element that was invalidated is not found, and the value that `invalidate` returns is the one
  -- that a search would have found.
  pub check_hit-invalidate :
      (elem : T) (t : LruTable T)
      → IsValid p t
      → ((check_hit p elem (invalidate p elem t).0).1 ≡ none)
        × ((invalidate p elem t).1 ≡ (check_hit p elem t).1)
  unfolding check_hit invalidate
  check_hit-invalidate elem t v = (
    rw (invalidated_misses elem t (find_match p elem t) refl v),
    same_value (find_match p elem t),
  )
    where
      same_value : (o : Option ℕ) → (invalidate_at p t o).1 ≡ (hit_at p t o).1
      same_value none = refl
      same_value (some i) = refl
