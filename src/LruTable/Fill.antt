-- ===== src/LruTable/Fill.antt =====
-- ChampSim/inc/msl/lru_table.h: `fill`. What it wrote is found, and what it replaces was used least
-- recently.
use cs230_branch_predictor.Prelude.{
  ℕ, ◌+◌, ◌-◌, ◌≤◌, ◌≡◌, ◌≢◌, sym, ◌∙◌, arith, true, false, ◌==◌, none, some, Option-cases,
  Bool-cases, inl, inr,
}
use cs230_branch_predictor.LruTable.{
  Projections, LruTable, is_valid, set_begin, has_tag, match_func, find_match, check_hit,
  minmax_element, write_block, fill_position, fill,
}
use cs230_branch_predictor.LruTable.Search.{IsLeast, IsGreatest, minmax_element-range}
use cs230_branch_predictor.LruTable.Keys.{
  InSpan, SameKey, IsValid, Matches, Matches-unique, Matches-SameKey, find_match_at, match_valid,
  write_block-IsValid, find_match-Matches, find_match-misses,
}

module _ {T : Type 0} (p : Projections T) (elem : T) (t : LruTable T) (ways : 1 ≤ t.num_way) where
  abbrev begin : ℕ
  begin = set_begin p elem t

  abbrev tag : ℕ
  tag = p.tag_projection elem

  abbrev extrema : ℕ × ℕ
  extrema = minmax_element p tag t.block (t.num_way - 1) (begin + 1) begin begin

  least : IsLeast p tag t.block begin (begin + t.num_way) extrema.0
  least = (minmax_element-range p tag t.block begin t.num_way ways).0

  greatest : IsGreatest p tag t.block begin (begin + t.num_way) extrema.1
  greatest = (minmax_element-range p tag t.block begin t.num_way ways).1

  -- A predicate of the block that is written, by the two cases.
  position_cases :
      (P : ℕ → Type 0)
      → (has_tag p tag (t.block extrema.1) ≡ true → P extrema.1)
      → (has_tag p tag (t.block extrema.1) ≡ false → P extrema.0)
      → P (fill_position p elem t)
  unfolding fill_position
  position_cases P tagged untagged = elim (Bool-cases (has_tag p tag (t.block extrema.1))) [
    | inl e ↦ rw e (tagged e)
    | inr e ↦ rw e (untagged e)
  ]

  pub position-InSpan : InSpan p elem t (fill_position p elem t)
  position-InSpan =
      position_cases (InSpan p elem t) (λ _. (greatest.low, greatest.high))
        (λ _. (least.low, least.high))

  greatest_valid : (j : ℕ) → Matches p elem t j → match_func p elem (t.block extrema.1) ≡ true
  greatest_valid j (span, m) =
      ground (arith, greatest.greatest j span.0 span.1 (match_valid p elem (t.block j) m))

  -- A valid block of the set with the tag is where `fill` writes.
  pub position-Matches : (j : ℕ) → IsValid p t → Matches p elem t j → j ≡ fill_position p elem t
  position-Matches j v h =
      position_cases (λ i. j ≡ i)
        (λ _.
          Matches-unique p elem t j extrema.1 v h
            ((greatest.low, greatest.high), greatest_valid j h))
        (λ untagged. ground (arith, greatest_valid j h))

  -- Where the set has no such block, the one that is replaced is unused, or all are in use and none was
  -- used earlier.
  pub position-least :
      (j : ℕ)
      → ((i : ℕ) → InSpan p elem t i → match_func p elem (t.block i) ≡ false)
      → InSpan p elem t j
      → is_valid (t.block (fill_position p elem t)) ≡ true
      → (is_valid (t.block j) ≡ true)
        × ((t.block (fill_position p elem t)).last_used ≤ (t.block j).last_used)
  position-least j none_matches span =
      position_cases
        (λ i.
          is_valid (t.block i) ≡ true
          → (is_valid (t.block j) ≡ true) × ((t.block i).last_used ≤ (t.block j).last_used))
        (λ tagged valid. ground (arith, none_matches extrema.1 (greatest.low, greatest.high)))
        (λ untagged valid. ground (
          arith,
          least.least j span.0 span.1 valid,
          none_matches j span,
          none_matches extrema.0 (least.low, least.high),
        ))

  fill_lem : fill p elem t ≡ write_block p elem t (fill_position p elem t)
  unfolding fill
  fill_lem = ground arith

  written-IsValid : IsValid p t → IsValid p (write_block p elem t (fill_position p elem t))
  written-IsValid v =
      write_block-IsValid p elem t (fill_position p elem t) v position-InSpan
        (λ j. position-Matches j v)

  -- The search after a fill, for the key of the element.
  filled_match :
      (key : T)
      → IsValid p t
      → SameKey p key elem t
      → find_match p key (fill p elem t) ≡ some (fill_position p elem t)
  filled_match key v same =
      let i = fill_position p elem t in
      let t' = write_block p elem t i in
      let at_i : Matches p key t' i = (rw same.0 position-InSpan, ground (arith, same.1)) in
      rw fill_lem (
        find_match_at p key t' i at_i
          (λ j h. Matches-unique p key t' j i (written-IsValid v) h at_i))

  -- After a fill of an element, an element of the same set and tag is found, and it is the one that was
  -- filled.
  pub check_hit-fill :
      (key : T)
      → IsValid p t
      → SameKey p key elem t
      → (check_hit p key (fill p elem t)).1 ≡ some elem
  unfolding check_hit
  check_hit-fill key v same = rw (filled_match key v same, fill_lem) (ground arith)

  -- A key whose block is not written is found as before.
  fill_keeps :
      (other : T) (j : ℕ)
      → IsValid p t
      → find_match p other t ≡ some j
      → j ≢ fill_position p elem t
      → find_match p other (fill p elem t) ≡ some j
  fill_keeps other j v e ne =
      let i = fill_position p elem t in
      let t' = write_block p elem t i in
      let before = find_match-Matches p other t j e in
      let at_j : Matches p other t' j = (before.0, ground (arith, before.1)) in
      rw fill_lem (
        find_match_at p other t' j at_j
          (λ k h. Matches-unique p other t' k j (written-IsValid v) h at_j))

  -- A key that is found before the fill and not after it had the block that was written.
  evicted_position :
      (other : T) (j : ℕ)
      → IsValid p t
      → find_match p other t ≡ some j
      → find_match p other (fill p elem t) ≡ none
      → j ≡ fill_position p elem t
  evicted_position other j v was gone = elim (Bool-cases (j == fill_position p elem t)) [
    | inl e ↦ ground arith
    | inr ne ↦ cc (fill_keeps other j v was (ground arith), gone)
  ]

  -- If a fill takes away the block j of another key, then every block of the set was in use and none
  -- had been used before that block.
  pub fill_evicts :
      (other : T) (j k : ℕ)
      → IsValid p t
      → find_match p other t ≡ some j
      → find_match p other (fill p elem t) ≡ none
      → InSpan p elem t k
      → (is_valid (t.block k) ≡ true) × ((t.block j).last_used ≤ (t.block k).last_used)
  fill_evicts other j k v was gone span =
      let here = evicted_position other j v was gone in
      let at_j = find_match-Matches p other t j was in
      let valid : is_valid (t.block (fill_position p elem t)) ≡ true =
        rw (← here) (match_valid p other (t.block j) at_j.1) in
      elim (Option-cases (find_match p elem t)) [
        | inl misses ↦
            rw here (position-least k (λ i. find_match-misses p elem t i misses) span valid)
        | inr (i, found) ↦
            let at_i = find_match-Matches p elem t i found in
            let same_block : j ≡ i = here ∙ sym (position-Matches i v at_i) in
            let key_j = Matches-SameKey p other t j v at_j in
            let key_i : SameKey p (t.block j).value elem t =
              rw same_block (Matches-SameKey p elem t i v at_i) in
            cc (filled_match other v (sym key_j.0 ∙ key_i.0, sym key_j.1 ∙ key_i.1), gone)
      ]

pub fill-IsValid :
    {T : Type 0} (p : Projections T) (elem : T) (t : LruTable T)
    → IsValid p t
    → IsValid p (fill p elem t)
unfolding fill
fill-IsValid p elem t v = elim (Bool-cases (t.num_way == 0)) [
  | inl none_left ↦ rw none_left v
  | inr ways ↦ rw ways (written-IsValid p elem t (ground arith) v)
]
