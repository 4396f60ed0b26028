-- ===== src/Channel/Tests.antt =====
-- A channel with two writes to a block and a read of it, and the theorems on it.
use cs230_branch_predictor.Prelude.{ℕ, ◌≤◌, ◌≡◌, inl, refl, true, false, List, [], ◌∷◌}
use cs230_branch_predictor.Prelude.Lists.{here, All}
use cs230_branch_predictor.Replacement.{load}
use cs230_branch_predictor.Channel.{
  Request, Channel, read_queue, write_queue, queue_of, add_to, add_rq, add_wq, occupancy, make,
}
use cs230_branch_predictor.Channel.Collision.{check_collision, set_union}
use cs230_branch_predictor.Channel.Answers.{Pending, check_collision_answers}
use cs230_branch_predictor.Channel.Checked.{Checked, check_collision-Checked}
use cs230_branch_predictor.Channel.Queues.{
  HasBoundedQueues, Run, Added, next, added, collided, Run-HasBoundedQueues, add_to_lem,
}

abbrev packet_to : ℕ → List ℕ → Request
packet_to address waiting = record {
  forward_checked = false;
  is_translated = true;
  response_requested = true;
  access = load;
  pf_metadata = 0;
  cpu = 0;
  address = address;
  v_address = address;
  block_data = 9;
  instr_id = 0;
  ip = 0;
  instr_depend_on_me = waiting;
}

abbrev idle : Channel
idle = make 2 2 2 6 false

abbrev busy : Channel
busy =
    (add_rq (packet_to 72 (4 ∷ []))
      (add_wq (packet_to 80 (3 ∷ 8 ∷ [])) (add_wq (packet_to 64 (2 ∷ 8 ∷ [])) idle).0).0).0

-- The writes are merged and the read is answered.
merged_and_forwarded :
    ((check_collision busy).rq.items ≡ [])
    × ((check_collision busy).wq.stats.merged ≡ 1)
    × ((check_collision busy).wq_forward ≡ 1)
unfolding check_collision add_rq add_wq set_union
merged_and_forwarded = (refl, refl, refl)

union_runs : set_union (2 ∷ 8 ∷ []) (3 ∷ 8 ∷ []) ≡ 2 ∷ 3 ∷ 8 ∷ []
unfolding set_union
union_runs = refl

check_collision_answers_example : Pending 4 read_queue (check_collision busy)
unfolding add_rq add_wq
check_collision_answers_example =
    check_collision_answers 4 read_queue busy (inl (here (refl, here refl)))

check_collision-Checked_example :
    (All Checked (check_collision busy).wq.items
      × (occupancy (check_collision busy).wq ≤ occupancy busy.wq))
    × (All Checked (check_collision busy).rq.items
        × (occupancy (check_collision busy).rq ≤ occupancy busy.rq))
    × (All Checked (check_collision busy).pq.items
        × (occupancy (check_collision busy).pq ≤ occupancy busy.pq))
check_collision-Checked_example = check_collision-Checked busy

add_to_lem_example : Added (packet_to 64 []) (queue_of write_queue busy) (
  queue_of write_queue (add_to write_queue (packet_to 64 []) busy).0,
  (add_to write_queue (packet_to 64 []) busy).1,
)
add_to_lem_example = add_to_lem write_queue (packet_to 64 []) busy

Run-HasBoundedQueues_example :
    HasBoundedQueues (check_collision (add_to read_queue (packet_to 64 []) idle).0)
Run-HasBoundedQueues_example =
    Run-HasBoundedQueues 2 2 2 6 false
      (check_collision (add_to read_queue (packet_to 64 []) idle).0)
      (next (next Run.here (added read_queue (packet_to 64 []) idle))
        (collided (add_to read_queue (packet_to 64 []) idle).0))
