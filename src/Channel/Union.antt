-- ===== src/Channel/Union.antt =====
-- ChampSim/src/channel.cc: `std::set_union` keeps every element of both vectors.
use cs230_branch_predictor.Prelude.{
  ℕ, zero, suc, ◌+◌, ◌<◌, ◌≡◌, ◌∙◌, ◌⊎◌, inl, inr, arith, ltb, List, [], ◌∷◌, Bool-cases,
}
use cs230_branch_predictor.Prelude.Sequences.{length}
use cs230_branch_predictor.Prelude.Lists.{Contains, here, there}
use cs230_branch_predictor.Channel.Collision.{set_union, set_union_loop}

-- A step that takes the first element of the first vector, of the second, or of both.
take_left :
    {n x : ℕ} {xs ys zs : List ℕ}
    → (Contains n xs ⊎ Contains n ys → Contains n zs)
    → Contains n (x ∷ xs) ⊎ Contains n ys
    → Contains n (x ∷ zs)
take_left f (inl (here e)) = here e
take_left f (inl (there h)) = there (f (inl h))
take_left f (inr h) = there (f (inr h))

take_right :
    {n y : ℕ} {xs ys zs : List ℕ}
    → (Contains n xs ⊎ Contains n ys → Contains n zs)
    → Contains n xs ⊎ Contains n (y ∷ ys)
    → Contains n (y ∷ zs)
take_right f (inl h) = there (f (inl h))
take_right f (inr (here e)) = here e
take_right f (inr (there h)) = there (f (inr h))

take_both :
    {n x y : ℕ} {xs ys zs : List ℕ}
    → y ≡ x
    → (Contains n xs ⊎ Contains n ys → Contains n zs)
    → Contains n (x ∷ xs) ⊎ Contains n (y ∷ ys)
    → Contains n (x ∷ zs)
take_both same f (inl (here e)) = here e
take_both same f (inl (there h)) = there (f (inl h))
take_both same f (inr (here e)) = here (e ∙ same)
take_both same f (inr (there h)) = there (f (inr h))

union_loop-Contains :
    (rounds : ℕ) (xs ys : List ℕ) (n : ℕ)
    → length xs + length ys < rounds
    → Contains n xs ⊎ Contains n ys
    → Contains n (set_union_loop rounds xs ys)
union_loop-Contains zero xs ys n h c = absurd (omega arith)
union_loop-Contains (suc rounds) [] ys n h (inl c) = elim c [ ]
union_loop-Contains (suc rounds) [] ys n h (inr c) = c
union_loop-Contains (suc rounds) (x ∷ xs) [] n h (inl c) = c
union_loop-Contains (suc rounds) (x ∷ xs) [] n h (inr c) = elim c [ ]
union_loop-Contains (suc rounds) (x ∷ xs) (y ∷ ys) n h c = elim (Bool-cases (ltb x y)) [
  | inl lt ↦ rw lt (take_left (union_loop-Contains rounds xs (y ∷ ys) n (omega arith)) c)
  | inr ge ↦ elim (Bool-cases (ltb y x)) [
    | inl gt ↦ rw (ge, gt) (take_right (union_loop-Contains rounds (x ∷ xs) ys n (omega arith)) c)
    | inr eq ↦
        rw (ge, eq) (take_both (ground arith) (union_loop-Contains rounds xs ys n (omega arith)) c)
  ]
]

pub set_union-Contains :
    (xs ys : List ℕ) (n : ℕ) → Contains n xs ⊎ Contains n ys → Contains n (set_union xs ys)
unfolding set_union
set_union-Contains xs ys n c =
    union_loop-Contains (suc (length xs + length ys)) xs ys n (omega arith) c
