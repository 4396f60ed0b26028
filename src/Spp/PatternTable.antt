-- ===== src/Spp/PatternTable.antt =====
-- ChampSim/prefetcher/spp_dev/spp_dev.h and spp_dev.cc: PATTERN_TABLE, as a table of sets. A write past
-- the end of the queues, whose size is that of the MSHRs, is undefined: `none`.
pub mod Laws
use cs230_branch_predictor.Prelude.{
  ℕ, zero, suc, ◌+◌, ◌*◌, ◌/◌, ◌%◌, ◌^◌, Bool, true, false, not, ltb, leb, ◌==◌, Option, none, some,
  ◌>>=◌, if◌then◌else◌, update,
}
use cs230_branch_predictor.Prelude.Search.{find_first}
use cs230_branch_predictor.Prelude.Int.{ℤ, pos, eq_ℤ}
use cs230_branch_predictor.Spp.{get_hash, pt_set, pt_way, c_sig_max, pf_threshold}

pub record PatternSet : Type 0 where
  pub delta : ℕ → ℤ
  pub c_delta : ℕ → ℕ
  pub c_sig : ℕ

abbrev pub PatternTable : Type 0
PatternTable = ℕ → PatternSet

-- The constructor.
abbrev pub start : PatternTable
start set = record { delta = λ way. pos 0; c_delta = λ way. 0; c_sig = 0 }

abbrev pub set_of : ℕ → ℕ
set_of sig = get_hash sig % pt_set

-- Past C_SIG_MAX all counters of the set are halved.
abbrev pub age : PatternSet → PatternSet
age p =
    if ltb c_sig_max p.c_sig
    then record p {
      c_delta = λ way. if ltb way pt_way then p.c_delta way / 2 else p.c_delta way;
      c_sig = p.c_sig / 2;
    }
    else p

abbrev pub hit_delta : ℕ → PatternSet → PatternSet
hit_delta match p =
    age (record p { c_delta = update p.c_delta match (p.c_delta match + 1); c_sig = p.c_sig + 1 })

-- The loop for the way with the least counter, if one is below `min_counter`.
unfoldable pub victim_loop : (ℕ → ℕ) → ℕ → ℕ → ℕ → ℕ → ℕ
victim_loop c_delta zero match min_counter victim_way = victim_way
victim_loop c_delta (suc rounds) match min_counter victim_way =
    let smaller = ltb (c_delta match) min_counter in
    victim_loop c_delta rounds (match + 1) (if smaller then c_delta match else min_counter)
      (if smaller then match else victim_way)

abbrev pub replace_delta : ℤ → PatternSet → ℕ → Option PatternSet
replace_delta curr_delta p victim_way =
    if ltb victim_way pt_way
    then some (
        age (record p {
          delta = update p.delta victim_way curr_delta;
          c_delta = update p.c_delta victim_way 0;
          c_sig = p.c_sig + 1;
        }))
    else none

abbrev pub update_set : ℤ → PatternSet → Option ℕ → Option PatternSet
update_set curr_delta p (some match) = some (hit_delta match p)
update_set curr_delta p none =
    replace_delta curr_delta p (victim_loop p.c_delta pt_way 0 c_sig_max pt_way)

abbrev pub find_delta : ℤ → PatternSet → Option ℕ
find_delta curr_delta p = find_first (λ w. eq_ℤ (p.delta w) curr_delta) pt_way 0

unfoldable pub update_pattern : ℕ → ℤ → PatternTable → Option PatternTable
update_pattern last_sig curr_delta pt = do
  p ← update_set curr_delta (pt (set_of last_sig)) (find_delta curr_delta (pt (set_of last_sig)))
  some (update pt (set_of last_sig) p)

-- The candidates of an operation, and the references that `read_pattern` is given.
pub record Candidates : Type 0 where
  pub confidence_q : ℕ → ℕ
  pub delta_q : ℕ → ℤ
  pub lookahead_way : ℕ
  pub lookahead_conf : ℕ
  pub pf_q_tail : ℕ
  pub depth : ℕ

abbrev pub pf_conf_of : ℕ → PatternSet → Candidates → ℕ → ℕ
pf_conf_of global_accuracy p q way =
    if q.depth == 0
    then 100 * p.c_delta way % 2 ^ 32 / p.c_sig
    else global_accuracy * p.c_delta way % 2 ^ 32 / p.c_sig * q.lookahead_conf % 2 ^ 32 / 100

abbrev pub push_candidate : ℕ → ℕ → ℤ → ℕ → Candidates → Option Candidates
push_candidate mshr_size pf_conf delta lookahead_way q =
    if ltb q.pf_q_tail mshr_size
    then some (record q {
      confidence_q = update q.confidence_q q.pf_q_tail pf_conf;
      delta_q = update q.delta_q q.pf_q_tail delta;
      lookahead_way = lookahead_way;
      pf_q_tail = q.pf_q_tail + 1;
    })
    else none

-- The loop over the ways, with `max_conf`.
abbrev pub read_ways : ℕ → ℕ → PatternSet → ℕ → ℕ → ℕ → Candidates → Option (Candidates × ℕ)
read_ways mshr_size accuracy p zero way max_conf q = some (q, max_conf)
read_ways mshr_size accuracy p (suc rounds) way max_conf q =
    let pf_conf = pf_conf_of accuracy p q way in
    let more = ltb max_conf pf_conf in
    elim (leb pf_threshold pf_conf) [
      | true ↦
          push_candidate mshr_size pf_conf (p.delta way) (if more then way else q.lookahead_way) q
          >>= λ q'.
              read_ways mshr_size accuracy p rounds (way + 1) (if more then pf_conf else max_conf)
                q'
      | false ↦ read_ways mshr_size accuracy p rounds (way + 1) max_conf q
    ]

abbrev pub finish_read : Candidates × ℕ → Candidates
finish_read (q, max_conf) = record q {
  pf_q_tail = q.pf_q_tail + 1;
  lookahead_conf = max_conf;
  depth = if leb pf_threshold max_conf then q.depth + 1 else q.depth;
}

abbrev pub read_set : ℕ → ℕ → PatternSet → Candidates → Option Candidates
read_set mshr_size accuracy p q =
    if not (p.c_sig == 0)
    then (do r ← read_ways mshr_size accuracy p pt_way 0 0 q; some (finish_read r))
    else if ltb q.pf_q_tail mshr_size
    then some (record q { confidence_q = update q.confidence_q q.pf_q_tail 0 })
    else none

unfoldable pub read_pattern : ℕ → ℕ → ℕ → PatternTable → Candidates → Option Candidates
read_pattern mshr_size accuracy curr_sig pt q = read_set mshr_size accuracy (pt (set_of curr_sig)) q
