-- ===== src/Channel.antt =====
-- ChampSim/inc/channel.h and ChampSim/src/channel.cc: the queues between a cache and the level above
-- it. An address is its number. The stream output for debugging is left out, and so is the field
-- `asid` of a request, which no operation here reads.
pub mod Collision
pub mod Union
pub mod Outcome
pub mod Checked
pub mod Answers
pub mod Queues
mod Tests
use cs230_branch_predictor.Prelude.{
  ℕ, ◌+◌, ◌^◌, ◌/◌, Bool, true, false, ◌||◌, leb, List, [], ◌∷◌, ◌++◌, if◌then◌else◌,
}
use cs230_branch_predictor.Replacement.{AccessType}
use cs230_branch_predictor.Prelude.Sequences.{length, push_last, drop_first}

-- `request`
pub record Request : Type 0 where
  pub forward_checked : Bool
  pub is_translated : Bool
  pub response_requested : Bool
  pub access : AccessType
  pub pf_metadata : ℕ
  pub cpu : ℕ
  pub address : ℕ
  pub v_address : ℕ
  pub block_data : ℕ
  pub instr_id : ℕ
  pub ip : ℕ
  pub instr_depend_on_me : List ℕ

-- `response`
pub record Response : Type 0 where
  pub address : ℕ
  pub v_address : ℕ
  pub block_data : ℕ
  pub pf_metadata : ℕ
  pub instr_depend_on_me : List ℕ

-- `cache_queue_stats`
pub record QueueStats : Type 0 where
  pub access : ℕ
  pub merged : ℕ
  pub full : ℕ
  pub to_cache : ℕ

-- A queue with its size and its counters.
pub record Queue : Type 0 where
  pub items : List Request
  pub size : ℕ
  pub stats : QueueStats

pub record Channel : Type 0 where
  pub rq : Queue
  pub pq : Queue
  pub wq : Queue
  pub wq_forward : ℕ
  pub offset_bits : ℕ
  pub match_offset_bits : Bool
  pub returned : List Response

pub data QueueName : Type 0 where
  read_queue write_queue prefetch_queue : QueueName

abbrev pub queue_of : QueueName → Channel → Queue
queue_of read_queue c = c.rq
queue_of write_queue c = c.wq
queue_of prefetch_queue c = c.pq

abbrev pub no_stats : QueueStats
no_stats = record { access = 0; merged = 0; full = 0; to_cache = 0 }

abbrev pub empty_queue : ℕ → Queue
empty_queue size = record { items = []; size = size; stats = no_stats }

-- The constructor.
abbrev pub make : ℕ → ℕ → ℕ → ℕ → Bool → Channel
make rq_size pq_size wq_size offset_bits match_offset = record {
  rq = empty_queue rq_size;
  pq = empty_queue pq_size;
  wq = empty_queue wq_size;
  wq_forward = 0;
  offset_bits = offset_bits;
  match_offset_bits = match_offset;
  returned = [];
}

-- `do_add_queue`: the packet goes to the back, if the queue is not full.
abbrev pub do_add_queue : List Request → ℕ → Request → List Request × Bool
do_add_queue queue queue_size packet =
    if leb queue_size (length queue)
    then (queue, false)
    else (push_last queue (record packet { forward_checked = false }), true)

abbrev pub count_added : QueueStats → Bool → QueueStats
count_added stats true = record stats { access = stats.access + 1; to_cache = stats.to_cache + 1 }
count_added stats false = record stats { access = stats.access + 1; full = stats.full + 1 }

-- The body that `add_rq`, `add_wq` and `add_pq` share.
abbrev pub add : Request → Queue → Queue × Bool
add packet q =
    let (items', result) = do_add_queue q.items q.size packet in
    (record q { items = items'; stats = count_added q.stats result }, result)

unfoldable pub add_rq : Request → Channel → Channel × Bool
add_rq packet c = let (q, result) = add packet c.rq in (record c { rq = q }, result)

unfoldable pub add_wq : Request → Channel → Channel × Bool
add_wq packet c = let (q, result) = add packet c.wq in (record c { wq = q }, result)

unfoldable pub add_pq : Request → Channel → Channel × Bool
add_pq packet c = let (q, result) = add packet c.pq in (record c { pq = q }, result)

-- The function of that name for each queue.
abbrev pub add_to : QueueName → Request → Channel → Channel × Bool
add_to read_queue packet c = add_rq packet c
add_to write_queue packet c = add_wq packet c
add_to prefetch_queue packet c = add_pq packet c

-- The cache that the channel leads to erases the first request of a queue.
abbrev pub erase_first : Queue → Queue
erase_first q = record q { items = drop_first q.items }

abbrev pub erase_front : QueueName → Channel → Channel
erase_front read_queue c = record c { rq = erase_first c.rq }
erase_front write_queue c = record c { wq = erase_first c.wq }
erase_front prefetch_queue c = record c { pq = erase_first c.pq }

-- The occupancies.
abbrev pub occupancy : Queue → ℕ
occupancy q = length q.items
