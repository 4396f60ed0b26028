-- ===== src/Channel/Checked.antt =====
-- ChampSim/src/channel.cc: the collision check checks every request, and the queues do not grow.
use cs230_branch_predictor.Prelude.{
  ℕ, ◌+◌, ◌≤◌, ◌≡◌, refl, arith, true, not, List, [], ◌∷◌, Option, none, some, if_cases,
}
use cs230_branch_predictor.Prelude.Sequences.{length, push_last, length-push_last}
use cs230_branch_predictor.Prelude.Lists.{All, All-push_last}
use cs230_branch_predictor.Channel.{Request, Response, Channel, occupancy}
use cs230_branch_predictor.Channel.Collision.{
  do_collision_for, merge, forward, Pass, collide, collision_round, collision_loop, start_pass,
  from_unchecked, write_shamt, wq_pass, rq_pass, check_collision,
}
use cs230_branch_predictor.Channel.Outcome.{
  Outcome, do_collision_for-Outcome, All-IsCollided, length-IsCollided,
}

abbrev pub Checked : Request → Type 0
Checked r = r.forward_checked ≡ true

collide-Checked :
    (shamt : ℕ) (x : Request) (s : Pass) (f m : Option (List Request × List Response))
    → Outcome shamt x merge s.items m
    → All Checked s.items
    → All Checked (collide x s f m).items × (length (collide x s f m).items ≤ length s.items + 1)
collide-Checked shamt x s (some r) m h all = (all, omega arith)
collide-Checked shamt x s none (some r) h all = (
  All-IsCollided shamt x merge Checked (λ y p. p) h all,
  omega (arith, length-IsCollided shamt x merge h),
)
collide-Checked shamt x s none none h all = (
  All-push_last Checked s.items _ all refl,
  omega (arith, length-push_last s.items (record x { forward_checked = true })),
)

module _ (writes : List Request) (write_shamt shamt : ℕ) where
  loop-Checked :
      (rest : List Request) (s : Pass)
      → All Checked s.items
      → All Checked (collision_loop writes write_shamt shamt rest s).items
        × (length (collision_loop writes write_shamt shamt rest s).items
            ≤ length s.items + length rest)
  loop-Checked [] s all = (all, omega arith)
  loop-Checked (x ∷ rest) s all =
      let (now, longer) =
        collide-Checked shamt x s (do_collision_for write_shamt x forward writes) _
          (do_collision_for-Outcome shamt x merge s.items) all in
      let (last, bound) = loop-Checked rest (collision_round writes write_shamt shamt x s) now in
      (last, omega arith)

  pub from_unchecked-Checked :
      (front rest : List Request) (returned : List Response)
      → All Checked front
      → All Checked (from_unchecked writes write_shamt shamt front rest returned).items
        × (length (from_unchecked writes write_shamt shamt front rest returned).items
            ≤ length front + length rest)
  from_unchecked-Checked front [] returned all = (all, omega arith)
  from_unchecked-Checked front (x ∷ rest) returned all =
      if_cases {A = Pass}
        (λ s. All Checked s.items × (length s.items ≤ length front + length (x ∷ rest)))
        (not x.forward_checked) (λ _. loop-Checked (x ∷ rest) (start_pass front returned) all)
        (λ checked.
          let (last, bound) =
            from_unchecked-Checked (push_last front x) rest returned
              (All-push_last Checked front x all (ground arith)) in
          (last, omega (arith, bound, length-push_last front x)))

  pub pass-Checked :
      (queue : List Request) (returned : List Response)
      → All Checked (from_unchecked writes write_shamt shamt [] queue returned).items
        × (length (from_unchecked writes write_shamt shamt [] queue returned).items ≤ length queue)
  pass-Checked queue returned =
      let (all, bound) = from_unchecked-Checked [] queue returned tt in (all, omega arith)

-- After the collision check every request of the three queues is checked, and no queue holds more
-- requests than before.
pub check_collision-Checked :
    (c : Channel)
    → (All Checked (check_collision c).wq.items
        × (occupancy (check_collision c).wq ≤ occupancy c.wq))
      × (All Checked (check_collision c).rq.items
          × (occupancy (check_collision c).rq ≤ occupancy c.rq))
      × (All Checked (check_collision c).pq.items
          × (occupancy (check_collision c).pq ≤ occupancy c.pq))
unfolding check_collision
check_collision-Checked c =
    let w = write_shamt c in
    (
      pass-Checked [] w w c.wq.items c.returned,
      pass-Checked (wq_pass c).items w c.offset_bits c.rq.items (wq_pass c).returned,
      pass-Checked (wq_pass c).items w c.offset_bits c.pq.items (rq_pass c).returned,
    )
