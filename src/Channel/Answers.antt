-- ===== src/Channel/Answers.antt =====
-- ChampSim/src/channel.cc: the collision check loses no instruction that waits for a response.
use cs230_branch_predictor.Prelude.{
  ℕ, ◌≡◌, refl, arith, true, not, List, [], ◌∷◌, Option, none, some, if_cases, ◌⊎◌, inl, inr,
}
use cs230_branch_predictor.Prelude.Sequences.{push_last}
use cs230_branch_predictor.Prelude.Lists.{
  Any, here, there, Contains, Any-push_last, Any-pushed, Any-append_left, Any-append_right,
}
use cs230_branch_predictor.Channel.{
  Request, Response, Channel, QueueName, read_queue, write_queue, prefetch_queue, queue_of,
}
use cs230_branch_predictor.Channel.Union.{set_union-Contains}
use cs230_branch_predictor.Channel.Collision.{
  do_collision_for, merge, forward, Pass, start_pass, collide, collision_round, collision_loop,
  from_unchecked, check_collision, write_shamt, wq_pass, rq_pass, pq_pass,
}
use cs230_branch_predictor.Channel.Outcome.{
  IsCollided, found, later, Outcome, do_collision_for-Outcome,
}

-- The instruction waits for the response to the request.
abbrev pub Waits : ℕ → Request → Type 0
Waits id r = (r.response_requested ≡ true) × Contains id r.instr_depend_on_me

abbrev pub Answers : ℕ → Response → Type 0
Answers id r = Contains id r.instr_depend_on_me

module _ (id : ℕ) where
  merge_keeps :
      {shamt : ℕ} {x : Request} {queue queue' : List Request} {responses : List Response}
      → IsCollided shamt x merge queue queue' responses
      → Any (Waits id) queue
      → Any (Waits id) queue'
  merge_keeps {x = x} (found {x = y} e t) (here (asked, h)) =
      here (rw asked refl, set_union-Contains y.instr_depend_on_me x.instr_depend_on_me id (inl h))
  merge_keeps (found e t) (there h) = there h
  merge_keeps (later c) (here h) = here h
  merge_keeps (later c) (there h) = there (merge_keeps c h)

  merge_takes :
      {shamt : ℕ} {x : Request} {queue queue' : List Request} {responses : List Response}
      → IsCollided shamt x merge queue queue' responses
      → Waits id x
      → Any (Waits id) queue'
  merge_takes {x = x} (found {x = y} e t) (asked, h) = here (
    ground (arith, asked),
    set_union-Contains y.instr_depend_on_me x.instr_depend_on_me id (inr h),
  )
  merge_takes (later c) h = there (merge_takes c h)

  forward-Answers :
      {shamt : ℕ} {x : Request} {queue queue' : List Request} {responses : List Response}
      → IsCollided shamt x forward queue queue' responses
      → Waits id x
      → Any (Answers id) responses
  forward-Answers (found e t) (asked, h) = rw asked (here h)
  forward-Answers (later c) h = forward-Answers c h

  -- The instruction waits at a request of the loop, or has its answer.
  abbrev Served : Pass → Type 0
  Served s = Any (Waits id) s.items ⊎ Any (Answers id) s.returned

  collide_keeps :
      (w shamt : ℕ) (x : Request) (writes : List Request) (s : Pass)
      (f m : Option (List Request × List Response))
      → Outcome w x forward writes f
      → Outcome shamt x merge s.items m
      → Served s
      → Served (collide x s f m)
  collide_keeps w shamt x writes s (some r) m hf hm (inl a) = inl a
  collide_keeps w shamt x writes s (some r) m hf hm (inr b) = inr (Any-append_left s.returned r.1 b)
  collide_keeps w shamt x writes s none (some r) hf hm (inl a) = inl (merge_keeps hm a)
  collide_keeps w shamt x writes s none (some r) hf hm (inr b) = inr b
  collide_keeps w shamt x writes s none none hf hm (inl a) = inl (Any-push_last s.items _ a)
  collide_keeps w shamt x writes s none none hf hm (inr b) = inr b

  collide_takes :
      (w shamt : ℕ) (x : Request) (writes : List Request) (s : Pass)
      (f m : Option (List Request × List Response))
      → Outcome w x forward writes f
      → Outcome shamt x merge s.items m
      → Waits id x
      → Served (collide x s f m)
  collide_takes w shamt x writes s (some r) m hf hm h =
      inr (Any-append_right s.returned r.1 (forward-Answers hf h))
  collide_takes w shamt x writes s none (some r) hf hm h = inl (merge_takes hm h)
  collide_takes w shamt x writes s none none hf hm h = inl (Any-pushed s.items _ h)

  collide_returned :
      (x : Request) (s : Pass) (f m : Option (List Request × List Response))
      → Any (Answers id) s.returned
      → Any (Answers id) (collide x s f m).returned
  collide_returned x s (some r) m h = Any-append_left s.returned r.1 h
  collide_returned x s none (some r) h = h
  collide_returned x s none none h = h

  answered : {A B C : Type 0} → (B → C) → A ⊎ B → A ⊎ C
  answered f (inl a) = inl a
  answered f (inr b) = inr (f b)

  module _ (writes : List Request) (w shamt : ℕ) where
    round_keeps : (x : Request) (s : Pass) → Served s → Served (collision_round writes w shamt x s)
    round_keeps x s =
        collide_keeps w shamt x writes s _ _ (do_collision_for-Outcome w x forward writes)
          (do_collision_for-Outcome shamt x merge s.items)

    round_takes :
        (x : Request) (s : Pass) → Waits id x → Served (collision_round writes w shamt x s)
    round_takes x s =
        collide_takes w shamt x writes s _ _ (do_collision_for-Outcome w x forward writes)
          (do_collision_for-Outcome shamt x merge s.items)

    loop_serves :
        (rest : List Request) (s : Pass)
        → Served s ⊎ Any (Waits id) rest
        → Served (collision_loop writes w shamt rest s)
    loop_serves [] s (inl h) = h
    loop_serves [] s (inr h) = elim h [ ]
    loop_serves (x ∷ rest) s (inl h) = loop_serves rest _ (inl (round_keeps x s h))
    loop_serves (x ∷ rest) s (inr (here h)) = loop_serves rest _ (inl (round_takes x s h))
    loop_serves (x ∷ rest) s (inr (there h)) = loop_serves rest _ (inr h)

    -- Of the first request of the rest, to the back of the front.
    moved :
        (front rest : List Request) (returned : List Response) (x : Request)
        → Served (start_pass front returned) ⊎ Any (Waits id) (x ∷ rest)
        → Served (start_pass (push_last front x) returned) ⊎ Any (Waits id) rest
    moved front rest returned x (inl (inl a)) = inl (inl (Any-push_last front x a))
    moved front rest returned x (inl (inr b)) = inl (inr b)
    moved front rest returned x (inr (here h)) = inl (inl (Any-pushed front x h))
    moved front rest returned x (inr (there h)) = inr h

    from_unchecked_serves :
        (front rest : List Request) (returned : List Response)
        → Served (start_pass front returned) ⊎ Any (Waits id) rest
        → Served (from_unchecked writes w shamt front rest returned)
    from_unchecked_serves front [] returned (inl h) = h
    from_unchecked_serves front [] returned (inr h) = elim h [ ]
    from_unchecked_serves front (x ∷ rest) returned h =
        if_cases {A = Pass} Served (not x.forward_checked)
          (λ _. loop_serves (x ∷ rest) (start_pass front returned) h)
          (λ _.
            from_unchecked_serves (push_last front x) rest returned (moved front rest returned x h))

    -- A response is never taken back.
    loop_returned :
        (rest : List Request) (s : Pass)
        → Any (Answers id) s.returned
        → Any (Answers id) (collision_loop writes w shamt rest s).returned
    loop_returned [] s h = h
    loop_returned (x ∷ rest) s h =
        loop_returned rest (collision_round writes w shamt x s)
          (collide_returned x s (do_collision_for w x forward writes) _ h)

    pub from_unchecked_returned :
        (front rest : List Request) (returned : List Response)
        → Any (Answers id) returned
        → Any (Answers id) (from_unchecked writes w shamt front rest returned).returned
    from_unchecked_returned front [] returned h = h
    from_unchecked_returned front (x ∷ rest) returned h =
        if_cases {A = Pass} (λ s. Any (Answers id) s.returned) (not x.forward_checked)
          (λ _. loop_returned (x ∷ rest) (start_pass front returned) h)
          (λ _. from_unchecked_returned (push_last front x) rest returned h)

    pub pass_serves :
        (queue : List Request) (returned : List Response)
        → Any (Waits id) queue
        → Served (from_unchecked writes w shamt [] queue returned)
    pass_serves queue returned h = from_unchecked_serves [] queue returned (inr h)

  -- An instruction waits at a request of the queue, or a response answers it.
  abbrev pub Pending : QueueName → Channel → Type 0
  Pending q c = Any (Waits id) (queue_of q c).items ⊎ Any (Answers id) c.returned

  module _ (c : Channel) where
    after_rq : Any (Answers id) (rq_pass c).returned → Any (Answers id) (pq_pass c).returned
    after_rq =
        from_unchecked_returned (wq_pass c).items (write_shamt c) c.offset_bits [] c.pq.items
          (rq_pass c).returned

    after_wq : Any (Answers id) (wq_pass c).returned → Any (Answers id) (pq_pass c).returned
    after_wq h = after_rq (
        from_unchecked_returned (wq_pass c).items (write_shamt c) c.offset_bits [] c.rq.items
          (wq_pass c).returned h)

    before_wq : Any (Answers id) c.returned → Any (Answers id) (pq_pass c).returned
    before_wq h =
        after_wq
          (from_unchecked_returned [] (write_shamt c) (write_shamt c) [] c.wq.items c.returned h)

  -- An instruction that waits at a request of one of the three queues, or that a response answers,
  -- still waits at a request of that queue after the collision check, or a response answers it.
  pub check_collision_answers :
      (q : QueueName) (c : Channel) → Pending q c → Pending q (check_collision c)
  unfolding check_collision
  check_collision_answers q c (inr h) = inr (before_wq c h)
  check_collision_answers write_queue c (inl h) =
      answered (after_wq c) (pass_serves [] (write_shamt c) (write_shamt c) c.wq.items c.returned h)
  check_collision_answers read_queue c (inl h) = answered (after_rq c) (
      pass_serves (wq_pass c).items (write_shamt c) c.offset_bits c.rq.items (wq_pass c).returned h)
  check_collision_answers prefetch_queue c (inl h) =
      pass_serves (wq_pass c).items (write_shamt c) c.offset_bits c.pq.items (rq_pass c).returned h
