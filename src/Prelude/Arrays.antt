-- ===== src/Prelude/Arrays.antt =====
-- Lists as arrays: their elements by their index, and the first that passes a test.
use cs230_branch_predictor.Prelude.{
  ℕ, zero, suc, ◌≤◌, ◌<◌, ◌≡◌, ◌≢◌, refl, sym, ap, ◌∙◌, arith, ◌⊎◌, inl, inr, Bool, true, false,
  ◌==◌, List, [], ◌∷◌, Option, none, some, if◌then◌else◌, Bool-cases,
}
use cs230_branch_predictor.Prelude.Sequences.{length, push_last}

abbrev pub get_elem? {ℓ} : {A : Type ℓ} → List A → ℕ → Option A
get_elem? [] i = none
get_elem? (x ∷ xs) zero = some x
get_elem? (x ∷ xs) (suc i) = get_elem? xs i

abbrev pub set_elem {ℓ} : {A : Type ℓ} → List A → ℕ → A → List A
set_elem [] i a = []
set_elem (x ∷ xs) zero a = a ∷ xs
set_elem (x ∷ xs) (suc i) a = x ∷ set_elem xs i a

abbrev pub map {ℓ κ} : {A : Type ℓ} {B : Type κ} → (A → B) → List A → List B
map f [] = []
map f (x ∷ xs) = f x ∷ map f xs

-- The first of the two parts that `std::stable_partition` makes.
abbrev pub keep {ℓ} : {A : Type ℓ} → (A → Bool) → List A → List A
keep test [] = []
keep test (x ∷ xs) = if test x then x ∷ keep test xs else keep test xs

-- `std::find_if`: the index and the element.
abbrev pub next_entry {ℓ} : {A : Type ℓ} → Option (ℕ × A) → Option (ℕ × A)
next_entry none = none
next_entry (some (i, x)) = some (suc i, x)

abbrev pub find_entry {ℓ} : {A : Type ℓ} → (A → Bool) → List A → Option (ℕ × A)
find_entry test [] = none
find_entry test (x ∷ xs) = if test x then some (0, x) else next_entry (find_entry test xs)

abbrev pub transpose : ℕ → ℕ → ℕ → ℕ
transpose i j p = if p == j then i else if p == i then j else p

transpose-injective : (i j p q : ℕ) → transpose i j p ≡ transpose i j q → p ≡ q
transpose-injective i j p q e = ground arith

module _ {A : Type 0} where
  -- The element found passes the test and none before it does; if none is found, none does.
  abbrev pub IsFound : (A → Bool) → List A → Option (ℕ × A) → Type 0
  IsFound test xs none = (p : ℕ) (z : A) → get_elem? xs p ≡ some z → test z ≡ false
  IsFound test xs (some (i, x)) =
      (get_elem? xs i ≡ some x)
      × (test x ≡ true)
      × ((p : ℕ) (z : A) → p < i → get_elem? xs p ≡ some z → test z ≡ false)

  next-IsFound :
      (test : A → Bool) (x : A) (xs : List A) (o : Option (ℕ × A))
      → test x ≡ false
      → IsFound test xs o
      → IsFound test (x ∷ xs) (next_entry o)
  next-IsFound test x xs none out h = missing
    where
      missing : (p : ℕ) (z : A) → get_elem? (x ∷ xs) p ≡ some z → test z ≡ false
      missing zero z e = cc
      missing (suc p) z e = h p z e
  next-IsFound test x xs (some (i, y)) out (at_y, passes, before) = (at_y, passes, earlier)
    where
      earlier : (p : ℕ) (z : A) → p < suc i → get_elem? (x ∷ xs) p ≡ some z → test z ≡ false
      earlier zero z lt e = cc
      earlier (suc p) z lt e = before p z (omega arith) e

  pub find_entry-IsFound : (test : A → Bool) (xs : List A) → IsFound test xs (find_entry test xs)
  find_entry-IsFound test [] = λ p z e. cc
  find_entry-IsFound test (x ∷ xs) = elim (Bool-cases (test x)) [
    | inl passes ↦ rw passes (refl, passes, λ p z lt e. absurd (omega arith))
    | inr out ↦
        rw out (next-IsFound test x xs (find_entry test xs) out (find_entry-IsFound test xs))
  ]

  pub length-set_elem : (xs : List A) (i : ℕ) (a : A) → length (set_elem xs i a) ≡ length xs
  length-set_elem [] i a = refl
  length-set_elem (x ∷ xs) zero a = refl
  length-set_elem (x ∷ xs) (suc i) a = ap suc (length-set_elem xs i a)

  -- What is read after a write, an addition at the end, or a removal at the front.
  pub get-set_elem :
      (xs : List A) (i : ℕ) (a : A) (p : ℕ) (z : A)
      → get_elem? (set_elem xs i a) p ≡ some z
      → ((p ≡ i) × (z ≡ a)) ⊎ ((p ≢ i) × (get_elem? xs p ≡ some z))
  get-set_elem [] i a p z e = cc
  get-set_elem (x ∷ xs) zero a zero z e = inl (refl, cc)
  get-set_elem (x ∷ xs) zero a (suc p) z e = inr (λ h. omega arith, e)
  get-set_elem (x ∷ xs) (suc i) a zero z e = inr (λ h. omega arith, e)
  get-set_elem (x ∷ xs) (suc i) a (suc p) z e = elim (get-set_elem xs i a p z e) [
    | inl (same, here) ↦ inl (ap suc same, here)
    | inr (other, there) ↦ inr (λ h. other (omega arith), there)
  ]

  pub get-push_last :
      (xs : List A) (a : A) (p : ℕ) (z : A)
      → get_elem? (push_last xs a) p ≡ some z
      → (get_elem? xs p ≡ some z) ⊎ ((p ≡ length xs) × (z ≡ a))
  get-push_last [] a zero z e = inr (refl, cc)
  get-push_last [] a (suc p) z e = cc
  get-push_last (x ∷ xs) a zero z e = inl e
  get-push_last (x ∷ xs) a (suc p) z e = elim (get-push_last xs a p z e) [
    | inl old ↦ inl old
    | inr (at_end, new) ↦ inr (ap suc at_end, new)
  ]

  pub get-inside : (xs : List A) (p : ℕ) (z : A) → get_elem? xs p ≡ some z → p < length xs
  get-inside [] p z e = cc
  get-inside (x ∷ xs) zero z e = omega arith
  get-inside (x ∷ xs) (suc p) z e = omega (arith, get-inside xs p z e)

  pub get-set_here :
      (xs : List A) (i : ℕ) (x a : A)
      → get_elem? xs i ≡ some x
      → get_elem? (set_elem xs i a) i ≡ some a
  get-set_here [] i x a e = cc
  get-set_here (y ∷ xs) zero x a e = refl
  get-set_here (y ∷ xs) (suc i) x a e = get-set_here xs i x a e

  pub get-set_some :
      (xs : List A) (i j : ℕ) (a y : A)
      → get_elem? xs j ≡ some y
      → (z : A) × (get_elem? (set_elem xs i a) j ≡ some z)
  get-set_some [] i j a y e = absurd cc
  get-set_some (x ∷ xs) zero zero a y e = (a, refl)
  get-set_some (x ∷ xs) zero (suc j) a y e = (y, e)
  get-set_some (x ∷ xs) (suc i) zero a y e = (x, refl)
  get-set_some (x ∷ xs) (suc i) (suc j) a y e = get-set_some xs i j a y e

  pub get-before :
      (xs : List A) (p q : ℕ) (y : A)
      → get_elem? xs q ≡ some y
      → p ≤ q
      → (z : A) × (get_elem? xs p ≡ some z)
  get-before [] p q y e le = absurd cc
  get-before (x ∷ xs) zero q y e le = (x, refl)
  get-before (x ∷ xs) (suc p) zero y e le = absurd (omega arith)
  get-before (x ∷ xs) (suc p) (suc q) y e le = get-before xs p q y e (omega arith)

  pub get-pushed : (xs : List A) (a : A) → get_elem? (push_last xs a) (length xs) ≡ some a
  get-pushed [] a = refl
  get-pushed (x ∷ xs) a = get-pushed xs a

  -- No two elements have the same key.
  abbrev pub IsUnique : (A → ℕ) → List A → Type 0
  IsUnique key xs =
      (p q : ℕ) (y z : A)
      → get_elem? xs p ≡ some y
      → get_elem? xs q ≡ some z
      → key y ≡ key z
      → p ≡ q

  -- Every element stands for one of another list with its key, two for two.
  pub moved-IsUnique :
      (key : A → ℕ) (xs ys : List A) (from : ℕ → ℕ)
      → ((p q : ℕ) → from p ≡ from q → p ≡ q)
      → ((p : ℕ) (z : A)
          → get_elem? ys p ≡ some z
          → (y : A) × (get_elem? xs (from p) ≡ some y) × (key y ≡ key z))
      → IsUnique key xs
      → IsUnique key ys
  moved-IsUnique key xs ys from injective stands unique p q y z at_p at_q same =
      let (y', e, k) = stands p y at_p in
      let (z', e', k') = stands q z at_q in
      injective p q (unique (from p) (from q) y' z' e e' (k ∙ same ∙ sym k'))

  pub push_last-IsUnique :
      (key : A → ℕ) (xs : List A) (a : A)
      → ((p : ℕ) (z : A) → get_elem? xs p ≡ some z → key z ≢ key a)
      → IsUnique key xs
      → IsUnique key (push_last xs a)
  push_last-IsUnique key xs a fresh unique p q y z at_p at_q same =
      elim (get-push_last xs a p y at_p) [
        | inl old ↦ elim (get-push_last xs a q z at_q) [
          | inl old' ↦ unique p q y z old old' same
          | inr (at_end, new) ↦ absurd (fresh p y old (same ∙ ap key new))
        ]
        | inr (at_end, new) ↦ elim (get-push_last xs a q z at_q) [
          | inl old' ↦ absurd (fresh q z old' (sym same ∙ ap key new))
          | inr (at_end', new') ↦ at_end ∙ sym at_end'
        ]
      ]

  -- A write that keeps the key.
  pub set_elem-IsUnique :
      (key : A → ℕ) (xs : List A) (i : ℕ) (x a : A)
      → get_elem? xs i ≡ some x
      → key x ≡ key a
      → IsUnique key xs
      → IsUnique key (set_elem xs i a)
  set_elem-IsUnique key xs i x a at_i same =
      moved-IsUnique key xs (set_elem xs i a) (λ p. p) (λ p q e. e)
        (λ p z e. elim (get-set_elem xs i a p z e) [
          | inl (here, new) ↦ (x, ap (get_elem? xs) here ∙ at_i, same ∙ ap key (sym new))
          | inr (other, old) ↦ (z, old, refl)
        ])

  -- A swap of two elements, one of which may change but for its key.
  pub swap-IsUnique :
      (key : A → ℕ) (xs : List A) (i j : ℕ) (x y a : A)
      → get_elem? xs i ≡ some x
      → get_elem? xs j ≡ some y
      → key x ≡ key a
      → IsUnique key xs
      → IsUnique key (set_elem (set_elem xs i y) j a)
  swap-IsUnique key xs i j x y a at_i at_j same =
      moved-IsUnique key xs (set_elem (set_elem xs i y) j a) (transpose i j)
        (transpose-injective i j)
        (λ p z e. elim (get-set_elem (set_elem xs i y) j a p z e) [
          | inl (here, new) ↦ (x, ap (get_elem? xs) (ground arith) ∙ at_i, same ∙ ap key (sym new))
          | inr (other, kept) ↦ elim (get-set_elem xs i y p z kept) [
            | inl (here, new) ↦ (y, ap (get_elem? xs) (ground arith) ∙ at_j, ap key (sym new))
            | inr (other', old) ↦ (z, ap (get_elem? xs) (ground arith) ∙ old, refl)
          ]
        ])
