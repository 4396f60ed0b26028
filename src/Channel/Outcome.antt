-- ===== src/Channel/Outcome.antt =====
-- ChampSim/src/channel.cc: what `do_collision_for` finds.
use mathlib.Core.Option
use cs230_branch_predictor.Prelude.{
  ℕ, ◌≡◌, refl, arith, List, [], ◌∷◌, Option, none, some, ◌==◌, same, Bool-cases, inl, inr,
}
use cs230_branch_predictor.Prelude.Sequences.{length}
use cs230_branch_predictor.Prelude.Lists.{All}
use cs230_branch_predictor.Channel.{Request, Response}
use cs230_branch_predictor.Channel.Collision.{Action, slice_upper, do_collision_for}

-- A collision: a request with the slice of the packet, as translated as the packet, gives way to what
-- the action makes of it.
pub data IsCollided (shamt : ℕ) (packet : Request) (func : Action)
    : List Request → List Request → List Response → Type 0 where
  found :
      {x : Request} {queue : List Request}
      → slice_upper shamt x ≡ slice_upper shamt packet
      → packet.is_translated ≡ x.is_translated
      → IsCollided shamt packet func (x ∷ queue) ((func packet x).0 ∷ queue) (func packet x).1
  later :
      {x : Request} {queue queue' : List Request} {responses : List Response}
      → IsCollided shamt packet func queue queue' responses
      → IsCollided shamt packet func (x ∷ queue) (x ∷ queue') responses

module _ (shamt : ℕ) (packet : Request) (func : Action) where
  abbrev pub Outcome : List Request → Option (List Request × List Response) → Type 0
  Outcome queue none = Unit
  Outcome queue (some r) = IsCollided shamt packet func queue r.0 r.1

  Outcome-later :
      (x : Request) (queue : List Request) (o : Option (List Request × List Response))
      → Outcome queue o
      → Outcome (x ∷ queue) (Option.map (λ r. (x ∷ r.0, r.1)) o)
  Outcome-later x queue none h = tt
  Outcome-later x queue (some r) h = later h

  pub do_collision_for-Outcome :
      (queue : List Request) → Outcome queue (do_collision_for shamt packet func queue)
  do_collision_for-Outcome [] = tt
  do_collision_for-Outcome (x ∷ queue) =
      elim (Bool-cases (slice_upper shamt x == slice_upper shamt packet)) [
        | inl e ↦ rw e (elim (Bool-cases (same packet.is_translated x.is_translated)) [
          | inl t ↦ rw t (found (ground arith) (ground arith))
          | inr t ↦ rw t tt
        ])
        | inr e ↦ rw e (Outcome-later x queue _ (do_collision_for-Outcome queue))
      ]

  pub All-IsCollided :
      (P : Request → Type 0) {queue queue' : List Request} {responses : List Response}
      → ((x : Request) → P x → P (func packet x).0)
      → IsCollided shamt packet func queue queue' responses
      → All P queue
      → All P queue'
  All-IsCollided P keeps (found e t) (h, hs) = (keeps _ h, hs)
  All-IsCollided P keeps (later c) (h, hs) = (h, All-IsCollided P keeps c hs)

  pub length-IsCollided :
      {queue queue' : List Request} {responses : List Response}
      → IsCollided shamt packet func queue queue' responses
      → length queue' ≡ length queue
  length-IsCollided (found e t) = refl
  length-IsCollided (later c) = ground (arith, length-IsCollided c)
