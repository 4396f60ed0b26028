-- ===== src/Spp/GlobalRegister.antt =====
-- ChampSim/prefetcher/spp_dev/spp_dev.h and spp_dev.cc: GLOBAL_REGISTER.
pub mod Laws
use cs230_branch_predictor.Prelude.{
  ℕ, zero, suc, ◌+◌, ◌-◌, ◌<◌, ◌≤◌, ◌≡◌, refl, arith, Bool, true, false, ltb, ◌==◌, ◌&&◌, Option,
  none, some, if◌then◌else◌, update, Bool-cases, if_cases, inl, inr,
}
use cs230_branch_predictor.Prelude.Int.{ℤ, pos}
use cs230_branch_predictor.Spp.{max_ghr_entry}

pub record GhrEntry : Type 0 where
  pub valid : Bool
  pub sig : ℕ
  pub confidence : ℕ
  pub offset : ℕ
  pub delta : ℤ

pub record GlobalRegister : Type 0 where
  pub pf_useful : ℕ
  pub pf_issued : ℕ
  pub global_accuracy : ℕ
  pub entry : ℕ → GhrEntry

-- The constructor.
abbrev pub start : GlobalRegister
start = record {
  pf_useful = 0;
  pf_issued = 0;
  global_accuracy = 0;
  entry = λ i. record { valid = false; sig = 0; confidence = 0; offset = 0; delta = pos 0 };
}

-- The loop of `update_entry`: the entry that has the offset, or the victim so far.
pub data Place : Type 0 where
  matching : ℕ → Place
  victim : ℕ → Place

unfoldable pub find_place : (ℕ → GhrEntry) → ℕ → ℕ → ℕ → ℕ → ℕ → Place
find_place entry pf_offset zero i min_conf victim_way = victim victim_way
find_place entry pf_offset (suc rounds) i min_conf victim_way =
    let smaller = ltb (entry i).confidence min_conf in
    let rest =
      find_place entry pf_offset rounds (i + 1) (if smaller then (entry i).confidence else min_conf)
        (if smaller then i else victim_way) in
    if (entry i).valid && (entry i).offset == pf_offset then matching i else rest

abbrev pub write_entry : ℕ → ℕ → ℕ → ℤ → GlobalRegister → Place → Option GlobalRegister
write_entry pf_sig pf_confidence pf_offset pf_delta s (matching i) = some (record s {
  entry =
      update s.entry i
        (record (s.entry i) { sig = pf_sig; confidence = pf_confidence; delta = pf_delta });
})
write_entry pf_sig pf_confidence pf_offset pf_delta s (victim i) =
    if ltb i max_ghr_entry
    then some (record s {
      entry = update s.entry i (record {
        valid = true;
        sig = pf_sig;
        confidence = pf_confidence;
        offset = pf_offset;
        delta = pf_delta;
      });
    })
    else none

unfoldable pub update_entry : ℕ → ℕ → ℕ → ℤ → GlobalRegister → Option GlobalRegister
update_entry pf_sig pf_confidence pf_offset pf_delta s =
    write_entry pf_sig pf_confidence pf_offset pf_delta s
      (find_place s.entry pf_offset max_ghr_entry 0 100 max_ghr_entry)

-- The loop of `check_entry`: the entry of the offset with the most confidence so far.
unfoldable pub check_loop : (ℕ → GhrEntry) → ℕ → ℕ → ℕ → ℕ → ℕ → ℕ
check_loop entry page_offset zero i max_conf max_conf_way = max_conf_way
check_loop entry page_offset (suc rounds) i max_conf max_conf_way =
    let better = (entry i).offset == page_offset && ltb max_conf (entry i).confidence in
    check_loop entry page_offset rounds (i + 1) (if better then (entry i).confidence else max_conf)
      (if better then i else max_conf_way)

unfoldable pub check_entry : ℕ → GlobalRegister → ℕ
check_entry page_offset s = check_loop s.entry page_offset max_ghr_entry 0 0 max_ghr_entry
