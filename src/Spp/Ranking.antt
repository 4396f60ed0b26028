-- ===== src/Spp/Ranking.antt =====
-- ChampSim/prefetcher/spp_dev/spp_dev.cc: the ages of the ways of the signature table are always a
-- ranking, each number below the number of ways once.
use cs230_branch_predictor.Prelude.{ℕ, ◌-◌, ◌<◌, ◌≡◌, arith, leb, ◌==◌, Bool-cases, inl, inr}
use cs230_branch_predictor.Spp.SignatureTable.{promote}

pub record IsRanking (ways : ℕ) (lru : ℕ → ℕ) : Type 0 where
  pub inside : (w : ℕ) → w < ways → lru w < ways
  pub injective : (v w : ℕ) → v < ways → w < ways → lru v ≡ lru w → v ≡ w
  pub onto : (r : ℕ) → r < ways → (w : ℕ) × (w < ways) × (lru w ≡ r)

promote_onto :
    (ways match : ℕ) (lru : ℕ → ℕ)
    → IsRanking ways lru
    → match < ways
    → (r : ℕ) → r < ways
    → (w : ℕ) × (w < ways) × (promote ways match lru w ≡ r)
promote_onto ways match lru k lt r small = elim (Bool-cases (r == 0)) [
  | inl zero_age ↦ (match, lt, ground arith)
  | inr positive ↦ elim (Bool-cases (leb r (lru match))) [
    | inl below ↦ let (w, inside, e) = k.onto (r - 1) (omega arith) in (w, inside, ground arith)
    | inr above ↦ let (w, inside, e) = k.onto r small in (w, inside, ground arith)
  ]
]

pub promote-IsRanking :
    (ways match : ℕ) (lru : ℕ → ℕ)
    → IsRanking ways lru
    → match < ways
    → IsRanking ways (promote ways match lru)
promote-IsRanking ways match lru k lt = record {
  inside = λ w small. ground (arith, k.inside w small, k.inside match lt);
  injective = λ v w sv sw e.
      ground (arith, k.injective v w sv sw, k.injective v match sv lt, k.injective w match sw lt);
  onto = promote_onto ways match lru k lt;
}
