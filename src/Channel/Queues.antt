-- ===== src/Channel/Queues.antt =====
-- ChampSim/src/channel.cc: adding to a queue, and the bound and the counters of the queues over every
-- sequence of operations.
use cs230_branch_predictor.Prelude.{
  ℕ, ◌+◌, ◌≤◌, ◌<◌, ◌≡◌, refl, arith, Bool, true, false, leb, ◌⊎◌, inl, inr, Bool-cases,
}
use cs230_branch_predictor.Prelude.Sequences.{
  length, push_last, length-push_last, length-drop_first,
}
use cs230_branch_predictor.Channel.{
  Request, Queue, Channel, QueueName, read_queue, write_queue, prefetch_queue, queue_of, add,
  add_to, add_rq, add_wq, add_pq, occupancy, make, empty_queue, erase_first, erase_front,
}
use cs230_branch_predictor.Channel.Collision.{
  Pass, after_pass, check_collision, wq_pass, rq_pass, pq_pass,
}
use cs230_branch_predictor.Channel.Checked.{check_collision-Checked}

-- A queue is within its size, and every access went to the cache or found the queue full.
pub record IsBounded (q : Queue) : Type 0 where
  pub bound : occupancy q ≤ q.size
  pub total : q.stats.to_cache + q.stats.full ≡ q.stats.access

add-IsBounded : (packet : Request) (q : Queue) → IsBounded q → IsBounded (add packet q).0
add-IsBounded packet q h = elim (Bool-cases (leb q.size (length q.items))) [
  | inl full ↦ rw full (record { bound = h.bound; total = omega (arith, h.total) })
  | inr room ↦ rw room (record {
    bound = ground (arith, length-push_last q.items (record packet { forward_checked = false }));
    total = omega (arith, h.total);
  })
]

-- The queue before an addition; the queue after it, and what the addition returns.
abbrev pub Added : Request → Queue → Queue × Bool → Type 0
Added packet q r =
    ((r.1 ≡ false) × (q.size ≤ occupancy q) × (r.0.items ≡ q.items))
    ⊎ ((r.1 ≡ true)
        × (occupancy q < q.size)
        × (r.0.items ≡ push_last q.items (record packet { forward_checked = false })))

add_cases : (packet : Request) (q : Queue) → Added packet q (add packet q)
add_cases packet q = elim (Bool-cases (leb q.size (length q.items))) [
  | inl full ↦ rw full (inl (refl, ground arith, refl))
  | inr room ↦ rw room (inr (refl, ground arith, refl))
]

-- The queues of a channel are bounded.
abbrev pub HasBoundedQueues : Channel → Type 0
HasBoundedQueues c = IsBounded c.rq × IsBounded c.wq × IsBounded c.pq

-- An addition to a queue is refused exactly if the queue is full; a refused addition leaves the
-- requests of the queue, and one that is accepted puts the packet, not yet checked, behind them.
pub add_to_lem :
    (n : QueueName) (packet : Request) (c : Channel)
    → Added packet (queue_of n c) (queue_of n (add_to n packet c).0, (add_to n packet c).1)
unfolding add_rq add_wq add_pq
add_to_lem read_queue packet c = add_cases packet c.rq
add_to_lem write_queue packet c = add_cases packet c.wq
add_to_lem prefetch_queue packet c = add_cases packet c.pq

-- The operations: an addition, the collision check, and the erasure of the first request by the cache
-- that the channel leads to.
pub data Step : Channel → Channel → Type 0 where
  added : (n : QueueName) (packet : Request) (c : Channel) → Step c (add_to n packet c).0
  collided : (c : Channel) → Step c (check_collision c)
  erased : (n : QueueName) (c : Channel) → Step c (erase_front n c)

pub data Run (c : Channel) : Channel → Type 0 where
  here : Run c c
  next : {d e : Channel} → Run c d → Step d e → Run c e

collided-IsBounded :
    (q : Queue) (s : Pass) → length s.items ≤ occupancy q → IsBounded q → IsBounded (after_pass q s)
collided-IsBounded q s shorter h = record { bound = omega (arith, h.bound); total = h.total }

erased-IsBounded : (q : Queue) → IsBounded q → IsBounded (erase_first q)
erased-IsBounded q h = record {
  bound = omega (arith, h.bound, length-drop_first q.items);
  total = h.total;
}

Step-HasBoundedQueues : {c d : Channel} → Step c d → HasBoundedQueues c → HasBoundedQueues d
unfolding add_rq add_wq add_pq check_collision
Step-HasBoundedQueues (added read_queue packet c) (r, w, p) = (add-IsBounded packet c.rq r, w, p)
Step-HasBoundedQueues (added write_queue packet c) (r, w, p) = (r, add-IsBounded packet c.wq w, p)
Step-HasBoundedQueues (added prefetch_queue packet c) (r, w, p) =
    (r, w, add-IsBounded packet c.pq p)
Step-HasBoundedQueues (collided c) (r, w, p) =
    let (hw, hr, hp) = check_collision-Checked c in
    (
      collided-IsBounded c.rq (rq_pass c) hr.1 r,
      collided-IsBounded c.wq (wq_pass c) hw.1 w,
      collided-IsBounded c.pq (pq_pass c) hp.1 p,
    )
Step-HasBoundedQueues (erased read_queue c) (r, w, p) = (erased-IsBounded c.rq r, w, p)
Step-HasBoundedQueues (erased write_queue c) (r, w, p) = (r, erased-IsBounded c.wq w, p)
Step-HasBoundedQueues (erased prefetch_queue c) (r, w, p) = (r, w, erased-IsBounded c.pq p)

steps_valid : {c d : Channel} → Run c d → HasBoundedQueues c → HasBoundedQueues d
steps_valid here v = v
steps_valid (next run step) v = Step-HasBoundedQueues step (steps_valid run v)

fresh-IsBounded : (size : ℕ) → IsBounded (empty_queue size)
fresh-IsBounded size = record { bound = omega arith; total = refl }

-- From its construction on, over every sequence of additions, collision checks and erasures, each
-- queue of the channel holds at most as many requests as its size, and its accesses are those that
-- went to the cache and those that found it full.
pub Run-HasBoundedQueues :
    (rq_size pq_size wq_size offset_bits : ℕ) (match_offset : Bool) (c : Channel)
    → Run (make rq_size pq_size wq_size offset_bits match_offset) c
    → HasBoundedQueues c
Run-HasBoundedQueues rq_size pq_size wq_size offset_bits match_offset c run =
    steps_valid run (fresh-IsBounded rq_size, fresh-IsBounded wq_size, fresh-IsBounded pq_size)
