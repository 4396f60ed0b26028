-- ===== src/Prelude/Order.antt =====
-- `<` on the native numbers is well founded, so that a proof can go from `a / 2` to `a`.
use mathlib.Core.WellFounded.{Acc, WellFounded}
use cs230_branch_predictor.Prelude.{ℕ, zero, suc, ◌<◌, arith}

Acc-below : (k n : ℕ) → n < k → Acc ◌<◌ n
Acc-below zero n h = elim h [ ]
Acc-below (suc k) n h = Acc.intro n (λ m hm. Acc-below k m (omega arith))

pub lt_wf : WellFounded ◌<◌
lt_wf = record { apply = λ n. Acc-below (suc n) n (omega arith) }
