-- ===== src/Prelude/Sequences.antt =====
-- Lists over the native natural numbers: their length and their ends.
use cs230_branch_predictor.Prelude.{ℕ, suc, ◌-◌, ◌≡◌, refl, arith, ap, List, [], ◌∷◌}

abbrev pub length {ℓ} : {A : Type ℓ} → List A → ℕ
length [] = 0
length (x ∷ xs) = suc (length xs)

abbrev pub push_last {ℓ} : {A : Type ℓ} → List A → A → List A
push_last [] a = a ∷ []
push_last (x ∷ xs) a = x ∷ push_last xs a

abbrev pub drop_first {ℓ} : {A : Type ℓ} → List A → List A
drop_first [] = []
drop_first (x ∷ xs) = xs

pub length-push_last {ℓ} :
    {A : Type ℓ} → (xs : List A) (a : A) → length (push_last xs a) ≡ suc (length xs)
length-push_last [] a = refl
length-push_last (x ∷ xs) a = ap suc (length-push_last xs a)

pub length-drop_first {ℓ} : {A : Type ℓ} → (xs : List A) → length (drop_first xs) ≡ length xs - 1
length-drop_first [] = refl
length-drop_first (x ∷ xs) = omega arith

abbrev pub drop_last {ℓ} : {A : Type ℓ} → List A → List A
drop_last [] = []
drop_last (x ∷ []) = []
drop_last (x ∷ y ∷ ys) = x ∷ drop_last (y ∷ ys)

pub length-drop_last {ℓ} : {A : Type ℓ} → (xs : List A) → length (drop_last xs) ≡ length xs - 1
length-drop_last [] = refl
length-drop_last (x ∷ []) = refl
length-drop_last (x ∷ y ∷ ys) = omega (arith, length-drop_last (y ∷ ys))
