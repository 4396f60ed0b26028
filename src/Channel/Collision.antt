-- ===== src/Channel/Collision.antt =====
-- ChampSim/src/channel.cc: `check_collision` and its helpers.
use mathlib.Core.Option
use cs230_branch_predictor.Prelude.{
  ℕ, zero, suc, ◌+◌, ◌^◌, ◌/◌, true, not, ◌||◌, ◌==◌, ltb, same, List, [], ◌∷◌, ◌++◌, Option, none,
  some, if◌then◌else◌,
}
use cs230_branch_predictor.Prelude.Sequences.{length, push_last}
use cs230_branch_predictor.Channel.{Request, Response, Queue, Channel}

-- `std::set_union` on two vectors, with as many rounds as they have elements.
abbrev pub set_union_loop : ℕ → List ℕ → List ℕ → List ℕ
set_union_loop zero xs ys = []
set_union_loop (suc rounds) [] ys = ys
set_union_loop (suc rounds) (x ∷ xs) [] = x ∷ xs
set_union_loop (suc rounds) (x ∷ xs) (y ∷ ys) =
    if ltb x y
    then x ∷ set_union_loop rounds xs (y ∷ ys)
    else if ltb y x
    then y ∷ set_union_loop rounds (x ∷ xs) ys
    else x ∷ set_union_loop rounds xs ys

unfoldable pub set_union : List ℕ → List ℕ → List ℕ
set_union xs ys = set_union_loop (suc (length xs + length ys)) xs ys

-- `address.slice_upper(shamt)`
abbrev pub slice_upper : ℕ → Request → ℕ
slice_upper shamt r = r.address / 2 ^ shamt

-- What `func(packet, *found)` leaves in the place of `*found`, and the responses that it adds.
abbrev pub Action : Type 0
Action = Request → Request → Request × List Response

-- `do_collision_for`: none is `false`; the queue after `func`, and the responses.
abbrev pub do_collision_for :
    ℕ → Request → Action → List Request → Option (List Request × List Response)
do_collision_for shamt packet func [] = none
do_collision_for shamt packet func (x ∷ queue) =
    if slice_upper shamt x == slice_upper shamt packet
    then (if same packet.is_translated x.is_translated
        then some ((func packet x).0 ∷ queue, (func packet x).1)
        else none)
    else Option.map (λ r. (x ∷ r.0, r.1)) (do_collision_for shamt packet func queue)

abbrev pub merge : Action
merge source destination = (
  record destination {
    response_requested = destination.response_requested || source.response_requested;
    instr_depend_on_me = set_union destination.instr_depend_on_me source.instr_depend_on_me;
  },
  [],
)

abbrev pub forward : Action
forward source destination = (
  destination,
  if source.response_requested
      then record {
        address = source.address;
        v_address = source.v_address;
        block_data = destination.block_data;
        pf_metadata = destination.pf_metadata;
        instr_depend_on_me = source.instr_depend_on_me;
      }
        ∷ []
      else [],
)

-- The state of a loop of `check_collision`: the requests before the iterator, and what it counted and
-- returned.
pub record Pass : Type 0 where
  pub items : List Request
  pub merged : ℕ
  pub forwarded : ℕ
  pub returned : List Response

abbrev pub start_pass : List Request → List Response → Pass
start_pass front returned = record { items = front; merged = 0; forwarded = 0; returned = returned }

-- A round: the request at the iterator is forwarded and erased, merged and erased, or kept.
abbrev pub collide :
    Request
    → Pass
    → Option (List Request × List Response)
    → Option (List Request × List Response)
    → Pass
collide packet s (some (writes, responses)) merging = record s {
  forwarded = s.forwarded + 1;
  returned = s.returned ++ responses;
}
collide packet s none (some (items', responses)) = record s {
  items = items';
  merged = s.merged + 1;
}
collide packet s none none = record s {
  items = push_last s.items (record packet { forward_checked = true });
}

-- The loops of the three queues. The loop of WQ forwards from no queue.
module _ (writes : List Request) (write_shamt shamt : ℕ) where
  abbrev pub collision_round : Request → Pass → Pass
  collision_round packet s =
      collide packet s (do_collision_for write_shamt packet forward writes)
        (do_collision_for shamt packet merge s.items)

  abbrev pub collision_loop : List Request → Pass → Pass
  collision_loop [] s = s
  collision_loop (x ∷ rest) s = collision_loop rest (collision_round x s)

  -- `std::find_if` of the first that is not checked, then the loop from there.
  abbrev pub from_unchecked : List Request → List Request → List Response → Pass
  from_unchecked front [] returned = start_pass front returned
  from_unchecked front (x ∷ rest) returned =
      if not x.forward_checked
      then collision_loop (x ∷ rest) (start_pass front returned)
      else from_unchecked (push_last front x) rest returned

abbrev pub after_pass : Queue → Pass → Queue
after_pass q s = record q {
  items = s.items;
  stats = record q.stats { merged = q.stats.merged + s.merged };
}

abbrev pub write_shamt : Channel → ℕ
write_shamt c = if c.match_offset_bits then 0 else c.offset_bits

abbrev pub wq_pass : Channel → Pass
wq_pass c = from_unchecked [] (write_shamt c) (write_shamt c) [] c.wq.items c.returned

abbrev pub rq_pass : Channel → Pass
rq_pass c =
    from_unchecked (wq_pass c).items (write_shamt c) c.offset_bits [] c.rq.items
      (wq_pass c).returned

abbrev pub pq_pass : Channel → Pass
pq_pass c =
    from_unchecked (wq_pass c).items (write_shamt c) c.offset_bits [] c.pq.items
      (rq_pass c).returned

unfoldable pub check_collision : Channel → Channel
check_collision c = record c {
  wq = after_pass c.wq (wq_pass c);
  rq = after_pass c.rq (rq_pass c);
  pq = after_pass c.pq (pq_pass c);
  wq_forward = c.wq_forward + (rq_pass c).forwarded + (pq_pass c).forwarded;
  returned = (pq_pass c).returned;
}
