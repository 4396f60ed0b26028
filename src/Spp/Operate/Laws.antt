-- ===== src/Spp/Operate/Laws.antt =====
-- ChampSim/prefetcher/spp_dev/spp_dev.cc: an access never fails on the tables, what it learns, and what
-- is prefetched.
use cs230_branch_predictor.Prelude.{
  ℕ, ◌%◌, ◌^◌, ◌≡◌, refl, arith, ◌⊎◌, false, ◌==◌, Option, some, Bool-cases, Option-cases, inl, inr,
}
use cs230_branch_predictor.Prelude.Int.{pos, eq_ℤ}
use cs230_branch_predictor.Spp.{st_way, st_tag_bit}
use cs230_branch_predictor.Spp.Ranking.{IsRanking}
use cs230_branch_predictor.Spp.SignatureTable.{SignatureTable, Reading, read_and_update_sig}
use cs230_branch_predictor.Spp.SignatureTable.Laws.{IsHeld, IsRead, read_and_update_sig-IsRead}
use cs230_branch_predictor.Spp.PatternTable.{set_of}
use cs230_branch_predictor.Spp.PatternTable.Laws.{IsValidTable, Has, update_pattern_lem}
use cs230_branch_predictor.Spp.Operate.{Spp, page_of, offset_of, accuracy_of, learn, access}

-- The ages of the signature table are a ranking and the sets of the pattern table valid.
pub record IsValid (s : Spp) : Type 0 where
  pub ages : IsRanking st_way s.st.lru
  pub patterns : IsValidTable s.pt

module _ (width page_blocks mshr_size : ℕ) where
  abbrev pub page_tag : ℕ → ℕ
  page_tag block = page_of width page_blocks mshr_size block % 2 ^ st_tag_bit

  abbrev pub offset_in : ℕ → ℕ
  offset_in block = offset_of width page_blocks mshr_size block

  -- What an access promises: it returns, the state is valid, the page is held with its offset, and the
  -- delta of the signature before it is learned.
  abbrev pub IsLearned : ℕ → Option (Spp × Reading) → Type 0
  IsLearned block o =
      (r : Spp × Reading) × (o ≡ some r)
      × IsValid r.0
      × ((r.1.last_sig ≡ 0) ⊎ Has r.1.delta (r.0.pt (set_of r.1.last_sig)))
      × ((way : ℕ) × IsHeld (page_tag block) (offset_in block) way r.0.st)

  learn-IsLearned :
      (s : Spp) (st' : SignatureTable) (r : Reading) (block : ℕ)
      → IsValidTable s.pt
      → IsRead (page_tag block) (offset_in block) (some (st', r))
      → IsLearned block (learn width page_blocks mshr_size s (st', r) block)
  learn-IsLearned s st' r block v (ages, moves, held) = elim (Bool-cases (r.last_sig == 0)) [
    | inl unknown ↦
        rw unknown (_, refl, record { ages = ages; patterns = v }, inl (ground arith), held)
    | inr known ↦
        let moved : eq_ℤ r.delta (pos 0) ≡ false = elim moves [
          | inl e ↦ absurd (ground arith)
          | inr m ↦ m
        ] in
        let (pt', e, valid, has) = update_pattern_lem r.last_sig r.delta s.pt v moved in
        rw known (rw e (_, refl, record { ages = ages; patterns = valid }, inr has, held))
  ]

  -- In a valid state no assertion of an access fails: the signature table finds a way and the pattern
  -- table a way for the delta. The state after it is valid, the signature table holds the page with the
  -- offset of the access, and where a signature was read its set of the pattern table has the delta.
  pub access_lem :
      (block : ℕ) (s : Spp)
      → IsValid s
      → IsLearned block (access width page_blocks mshr_size block s)
  unfolding access
  access_lem block s v =
      let ghr = record s.ghr { global_accuracy = accuracy_of s.ghr } in
      let reading = read_and_update_sig ghr (page_tag block) (offset_in block) s.st in
      let promise : IsRead (page_tag block) (offset_in block) reading =
        read_and_update_sig-IsRead ghr (page_tag block) (offset_in block) s.st v.ages in
      elim (Option-cases reading) [
        | inl fails ↦ absurd (rw fails at promise)
        | inr (r, e) ↦
            rw e
              (learn-IsLearned (record s { ghr = ghr }) r.0 r.1 block v.patterns (rw e at promise))
      ]
