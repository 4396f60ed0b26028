-- ===== src/Prelude/Lists.antt =====
-- Lists of which some element, or every element, has a property.
use cs230_branch_predictor.Prelude.{
  ℕ, zero, suc, ◌+◌, ◌≤◌, ◌<◌, ◌==◌, Bool-cases, arith, ◌≡◌, sym, ◌⊎◌, inl, inr, List, [], ◌∷◌,
  ◌++◌,
}
use cs230_branch_predictor.Prelude.Sequences.{push_last}

pub data Any {A : Type 0} (P : A → Type 0) : List A → Type 0 where
  here : {x : A} {xs : List A} → P x → Any P (x ∷ xs)
  there : {x : A} {xs : List A} → Any P xs → Any P (x ∷ xs)

abbrev pub All : {A : Type 0} (P : A → Type 0) → List A → Type 0
All P [] = Unit
All P (x ∷ xs) = P x × All P xs

abbrev pub Contains : ℕ → List ℕ → Type 0
Contains n xs = Any (λ m. n ≡ m) xs

module _ {A : Type 0} {P : A → Type 0} where
  pub Any-push_last : (xs : List A) (a : A) → Any P xs → Any P (push_last xs a)
  Any-push_last [] a h = elim h [ ]
  Any-push_last (x ∷ xs) a (here p) = here p
  Any-push_last (x ∷ xs) a (there p) = there (Any-push_last xs a p)

  pub Any-pushed : (xs : List A) (a : A) → P a → Any P (push_last xs a)
  Any-pushed [] a p = here p
  Any-pushed (x ∷ xs) a p = there (Any-pushed xs a p)

  pub Any-append_left : (xs ys : List A) → Any P xs → Any P (xs ++ ys)
  Any-append_left [] ys h = elim h [ ]
  Any-append_left (x ∷ xs) ys (here p) = here p
  Any-append_left (x ∷ xs) ys (there p) = there (Any-append_left xs ys p)

  pub Any-append_right : (xs ys : List A) → Any P ys → Any P (xs ++ ys)
  Any-append_right [] ys p = p
  Any-append_right (x ∷ xs) ys p = there (Any-append_right xs ys p)

pub All-push_last :
    {A : Type 0} (P : A → Type 0) (xs : List A) (a : A) → All P xs → P a → All P (push_last xs a)
All-push_last P [] a h p = (p, tt)
All-push_last P (x ∷ xs) a (h, hs) p = (h, All-push_last P xs a hs p)

-- No number stands in the list twice.
abbrev pub Distinct : List ℕ → Type 0
Distinct [] = Unit
Distinct (x ∷ xs) = (Contains x xs → ⊥) × Distinct xs

pub Any-push_last_cases :
    {A : Type 0} {P : A → Type 0} (xs : List A) (a : A) → Any P (push_last xs a) → Any P xs ⊎ P a
Any-push_last_cases [] a (here p) = inr p
Any-push_last_cases [] a (there p) = elim p [ ]
Any-push_last_cases (x ∷ xs) a (here p) = inl (here p)
Any-push_last_cases {P = P} (x ∷ xs) a (there p) = later (Any-push_last_cases xs a p)
  where
    later : Any P xs ⊎ P a → Any P (x ∷ xs) ⊎ P a
    later (inl h) = inl (there h)
    later (inr h) = inr h

pub push_last-Distinct :
    (xs : List ℕ) (a : ℕ) → Distinct xs → (Contains a xs → ⊥) → Distinct (push_last xs a)
push_last-Distinct [] a d fresh = ((λ h. elim h [ ]), tt)
push_last-Distinct (x ∷ xs) a (out, d) fresh =
    (λ h. differs (Any-push_last_cases xs a h), push_last-Distinct xs a d (λ h. fresh (there h)))
  where
    differs : Contains x xs ⊎ (x ≡ a) → ⊥
    differs (inl h) = out h
    differs (inr e) = fresh (here (sym e))

-- The numbers i, i + 1, and so on, as many as the rounds.
abbrev pub count_from : ℕ → ℕ → List ℕ
count_from i zero = []
count_from i (suc rounds) = i ∷ count_from (suc i) rounds

-- What the list contains, and that it is distinct.
pub counted_range : (i n q : ℕ) → Contains q (count_from i n) → (i ≤ q) × (q < i + n)
counted_range i zero q c = elim c [ ]
counted_range i (suc n) q (here e) = (omega arith, omega arith)
counted_range i (suc n) q (there c) =
    let (low, high) = counted_range (suc i) n q c in (omega arith, omega arith)

pub range_counted : (i n q : ℕ) → i ≤ q → q < i + n → Contains q (count_from i n)
range_counted i zero q low high = absurd (omega arith)
range_counted i (suc n) q low high = elim (Bool-cases (q == i)) [
  | inl eq ↦ here (ground arith)
  | inr ne ↦ there (range_counted (suc i) n q (ground arith) (omega arith))
]

pub count_from-Distinct : (i n : ℕ) → Distinct (count_from i n)
count_from-Distinct i zero = tt
count_from-Distinct i (suc n) = (
  λ c. let (low, high) = counted_range (suc i) n i c in omega arith,
  count_from-Distinct (suc i) n,
)
