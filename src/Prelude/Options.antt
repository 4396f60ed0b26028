-- ===== src/Prelude/Options.antt =====
-- A property of the result of an operation that may fail, and that a sequence of operations keeps it.
use cs230_branch_predictor.Prelude.{◌≡◌, Option, none, some, ◌>>=◌}

abbrev pub OnSome : {A : Type 0} → (A → Type 0) → Option A → Type 0
OnSome P none = Unit
OnSome P (some a) = P a

pub bind-OnSome :
    {A B : Type 0} (P : A → Type 0) (Q : B → Type 0) (o : Option A) (f : A → Option B)
    → OnSome P o
    → ((a : A) → P a → OnSome Q (f a))
    → OnSome Q (o >>= f)
bind-OnSome P Q none f h next = tt
bind-OnSome P Q (some a) f h next = next a h

-- The operation returns, and its result has the property.
abbrev pub Returns : {A : Type 0} → (A → Type 0) → Option A → Type 0
Returns {A = A} P o = (a : A) × (o ≡ some a) × P a

pub bind-Returns :
    {A B : Type 0} (P : A → Type 0) (Q : B → Type 0) (o : Option A) (f : A → Option B)
    → Returns P o
    → ((a : A) → P a → Returns Q (f a))
    → Returns Q (o >>= f)
bind-Returns P Q o f (a, e, h) next = rw e (next a h)
