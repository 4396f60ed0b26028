-- ===== src/LruTable/Keys.antt =====
-- ChampSim/inc/msl/lru_table.h: the invariant of the table, and that an element has at most one
-- block in it.
use mathlib.Core.Path.{subst}
use native.Mathlib.Nat.{div-eq_of_lt-le}
use cs230_branch_predictor.Prelude.{
  ℕ, ◌+◌, ◌*◌, ◌%◌, ◌≤◌, ◌<◌, ◌≡◌, refl, sym, ◌∙◌, arith, true, false, ◌==◌, none, some, Bool-cases,
  inl, inr,
}
use cs230_branch_predictor.Prelude.Search.{IsFirst, find_first-IsFirst, IsFirst-unique}
use cs230_branch_predictor.LruTable.{
  Projections, Block, LruTable, is_valid, set_begin, match_func, find_match, write_block,
}

-- Two spans that share an index are one.
span_unique : (n s s' i : ℕ) → s * n ≤ i → i < s * n + n → s' * n ≤ i → i < s' * n + n → s ≡ s'
span_unique n s s' i a b c d =
    sym (div-eq_of_lt-le n a (omega arith)) ∙ div-eq_of_lt-le n c (omega arith)

module _ {T : Type 0} (p : Projections T) where
  abbrev pub set_of : T → LruTable T → ℕ
  set_of elem t = p.set_projection elem % t.num_set

  -- The index lies in the span of the element.
  abbrev pub InSpan : T → LruTable T → ℕ → Type 0
  InSpan elem t i = (set_begin p elem t ≤ i) × (i < set_begin p elem t + t.num_way)

  -- The same set, and the same tag in it.
  abbrev pub SameKey : T → T → LruTable T → Type 0
  SameKey a b t = (set_of a t ≡ set_of b t) × (p.tag_projection a ≡ p.tag_projection b)

  -- Every valid block stands in the set of its value, no other block of the set has its tag, and no
  -- two blocks were used at once.
  pub record IsValid (t : LruTable T) : Type 0 where
    pub home : (i : ℕ) → is_valid (t.block i) ≡ true → InSpan (t.block i).value t i
    pub unique :
        (i j : ℕ)
        → is_valid (t.block i) ≡ true
        → is_valid (t.block j) ≡ true
        → SameKey (t.block i).value (t.block j).value t
        → i ≡ j
    pub past : (i : ℕ) → (t.block i).last_used ≤ t.access_count
    pub order :
        (i j : ℕ)
        → is_valid (t.block i) ≡ true
        → (t.block i).last_used ≡ (t.block j).last_used
        → i ≡ j

  pub same_set :
      (a b : T) (t : LruTable T) (i : ℕ) → InSpan a t i → InSpan b t i → set_of a t ≡ set_of b t
  same_set a b t i h k = span_unique t.num_way (set_of a t) (set_of b t) i h.0 h.1 k.0 k.1

  -- A valid block of the element's set with its tag.
  abbrev pub Matches : T → LruTable T → ℕ → Type 0
  Matches elem t j = InSpan elem t j × (match_func p elem (t.block j) ≡ true)

  pub match_valid : (elem : T) (x : Block T) → match_func p elem x ≡ true → is_valid x ≡ true
  match_valid elem x h = ground arith

  pub match_tag :
      (elem : T) (x : Block T)
      → match_func p elem x ≡ true
      → p.tag_projection x.value ≡ p.tag_projection elem
  match_tag elem x h = ground arith

  pub Matches-SameKey :
      (elem : T) (t : LruTable T) (j : ℕ)
      → IsValid t
      → Matches elem t j
      → SameKey (t.block j).value elem t
  Matches-SameKey elem t j v (span, m) = (
    same_set (t.block j).value elem t j (v.home j (match_valid elem (t.block j) m)) span,
    match_tag elem (t.block j) m,
  )

  pub Matches-unique :
      (elem : T) (t : LruTable T) (i j : ℕ)
      → IsValid t
      → Matches elem t i
      → Matches elem t j
      → i ≡ j
  Matches-unique elem t i j v h k =
      let a = Matches-SameKey elem t i v h in
      let b = Matches-SameKey elem t j v k in
      v.unique i j (match_valid elem (t.block i) h.1) (match_valid elem (t.block j) k.1)
        (a.0 ∙ sym b.0, a.1 ∙ sym b.1)

  -- What the loop of `check_hit` and `invalidate` finds.
  pub find_match-IsFirst :
      (elem : T) (t : LruTable T)
      → IsFirst
          (λ j. match_func p elem (t.block j))
          (set_begin p elem t)
          (set_begin p elem t + t.num_way)
          (find_match p elem t)
  find_match-IsFirst elem t =
      find_first-IsFirst (λ j. match_func p elem (t.block j)) t.num_way (set_begin p elem t) _ refl

  pub find_match_at :
      (elem : T) (t : LruTable T) (i : ℕ)
      → Matches elem t i
      → ((j : ℕ) → Matches elem t j → j ≡ i)
      → find_match p elem t ≡ some i
  find_match_at elem t i h only =
      IsFirst-unique (λ j. match_func p elem (t.block j)) (set_begin p elem t)
        (set_begin p elem t + t.num_way) (find_match p elem t) (some i) (find_match-IsFirst elem t)
        (h.0.0, h.0.1, h.1, not_before)
    where
      not_before : (j : ℕ) → set_begin p elem t ≤ j → j < i → match_func p elem (t.block j) ≡ false
      not_before j lo hi = elim (Bool-cases (match_func p elem (t.block j))) [
        | inl found ↦ absurd (omega (arith, only j ((lo, omega (arith, h.0)), found)))
        | inr other ↦ other
      ]

  -- A block of the same key stands in the span, and matches.
  SameKey-Matches :
      (elem : T) (t : LruTable T) (j : ℕ)
      → IsValid t
      → is_valid (t.block j) ≡ true
      → SameKey elem (t.block j).value t
      → Matches elem t j
  SameKey-Matches elem t j v valid key = (rw key.0 (v.home j valid), ground (arith, key.1))

  -- Writing an element where its set is, over the block of its key if there is one.
  module _ (elem : T) (t : LruTable T) (i : ℕ) (v : IsValid t) (span : InSpan elem t i) where
    written : LruTable T
    written = write_block p elem t i

    write_unique :
        (k l : ℕ)
        → ((j : ℕ) → Matches elem t j → j ≡ i)
        → is_valid (written.block k) ≡ true
        → is_valid (written.block l) ≡ true
        → SameKey (written.block k).value (written.block l).value written
        → k ≡ l
    unfolding written
    write_unique k l only vk vl key = elim (Bool-cases (k == i)) [
      | inl ek ↦ elim (Bool-cases (l == i)) [
        | inl el ↦ ground arith
        | inr nl ↦
            let at_l = SameKey-Matches elem t l v (rw nl at vl) (rw (ek, nl) at key) in
            ground (arith, only l at_l)
      ]
      | inr nk ↦ elim (Bool-cases (l == i)) [
        | inl el ↦
            let back : SameKey elem (t.block k).value t =
              (sym (rw (nk, el) at key).0, sym (rw (nk, el) at key).1) in
            let at_k = SameKey-Matches elem t k v (rw nk at vk) back in ground (arith, only k at_k)
        | inr nl ↦ v.unique k l (rw nk at vk) (rw nl at vl) (rw (nk, nl) at key)
      ]
    ]

    pub write_block-IsValid :
        ((j : ℕ) → Matches elem t j → j ≡ i) → IsValid (write_block p elem t i)
    unfolding written
    write_block-IsValid only = record {
      home = λ k valid. elim (Bool-cases (k == i)) [
        | inl e ↦ let here : k ≡ i = ground arith in rw (e, here) span
        | inr e ↦ rw e (v.home k (rw e at valid))
      ];
      unique = λ k l vk vl key. write_unique k l only vk vl key;
      past = λ k. ground (arith, v.past k);
      order = λ k l valid e. ground (arith, v.past k, v.past l, v.order k l);
    }

  pub find_match-none :
      (elem : T) (t : LruTable T)
      → ((j : ℕ) → InSpan elem t j → match_func p elem (t.block j) ≡ false)
      → find_match p elem t ≡ none
  find_match-none elem t h =
      IsFirst-unique (λ j. match_func p elem (t.block j)) (set_begin p elem t)
        (set_begin p elem t + t.num_way) (find_match p elem t) none (find_match-IsFirst elem t)
        (λ j lo hi. h j (lo, hi))

  -- The search finds a match, or there is none.
  pub find_match-Matches :
      (elem : T) (t : LruTable T) (j : ℕ) → find_match p elem t ≡ some j → Matches elem t j
  find_match-Matches elem t j e =
      let h =
        subst
          (IsFirst (λ j. match_func p elem (t.block j)) (set_begin p elem t)
            (set_begin p elem t + t.num_way))
          e (find_match-IsFirst elem t) in
      ((h.0, h.1), h.2)

  pub find_match-misses :
      (elem : T) (t : LruTable T) (j : ℕ)
      → find_match p elem t ≡ none
      → InSpan elem t j
      → match_func p elem (t.block j) ≡ false
  find_match-misses elem t j e span =
      let h =
        subst
          (IsFirst (λ j. match_func p elem (t.block j)) (set_begin p elem t)
            (set_begin p elem t + t.num_way))
          e (find_match-IsFirst elem t) in
      h j span.0 span.1
