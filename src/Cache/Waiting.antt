-- ===== src/Cache/Waiting.antt =====
-- ChampSim/src/cache.cc: the levels that wait in an MSHR, at a miss and at a fill.
use mathlib.Core.Option.{some-injective}
use mathlib.Core.Path.{subst}
use cs230_branch_predictor.Prelude.{
  ℕ, ◌/◌, ◌^◌, ◌<◌, ◌≡◌, refl, sym, ◌∙◌, arith, ◌⊎◌, Bool, true, false, not, ◌==◌, ◌||◌, List, [],
  ◌∷◌, Option, none, some, if◌then◌else◌, update, if_cases, inl, inr,
}
use cs230_branch_predictor.Prelude.Sequences.{length, push_last}
use cs230_branch_predictor.Prelude.Lists.{Any, here, there, Contains, Any-push_last, Any-pushed}
use cs230_branch_predictor.Prelude.Arrays.{
  get_elem?, find_entry, IsFound, find_entry-IsFound, get-set_here, get-pushed,
}
use cs230_branch_predictor.Replacement.{AccessType}
use cs230_branch_predictor.Channel.{Channel, Response, add_rq, add_pq}
use cs230_branch_predictor.Channel.Union.{set_union-Contains}
use cs230_branch_predictor.Cache.{
  Mshr, TagLookup, make_mshr, Configuration, Cache, Modules, matches_address, respond,
}
use cs230_branch_predictor.Cache.Check.{
  is_prefetch, merge, forward_packet, send_miss, count_miss, miss_at, handle_miss,
}
use cs230_branch_predictor.Cache.Fill.{handle_fill}
use cs230_branch_predictor.Cache.Bounds.{block_of, merge-block}
use cs230_branch_predictor.Cache.Installed.{fill_response, IsFilled, handle_fill_lem}

-- A merge keeps who waits for either.
merge_waiting :
    (a b : Mshr) (u : ℕ)
    → Contains u a.to_return ⊎ Contains u b.to_return
    → Contains u (merge a b).to_return
unfolding merge
merge_waiting a b u h = set_union-Contains a.to_return b.to_return u h

module _ {M : Type 0} (k : Configuration) (h : Modules M) where
  -- The level waits in an MSHR of the block.
  abbrev pub Waits : ℕ → ℕ → Cache M → Type 0
  Waits u address s =
      (i : ℕ) × (m : Mshr) × (get_elem? s.mshr i ≡ some m)
      × (m.address / 2 ^ k.offset_bits ≡ address / 2 ^ k.offset_bits)
      × Contains u m.to_return

  abbrev pub IsTracked : ℕ → TagLookup → Cache M → Cache M × Bool → Type 0
  IsTracked u pkt s r =
      ((r.1 ≡ false) × (r.0.mshr ≡ s.mshr))
      ⊎ ((r.1 ≡ true)
          × (((forward_packet pkt).response_requested ≡ false) ⊎ Waits u pkt.address r.0))

  sent-IsTracked :
      (pkt : TagLookup) (s : Cache M) (u : ℕ)
      → Contains u pkt.to_return
      → IsTracked u pkt s (send_miss k h pkt s)
  sent-IsTracked pkt s u asks =
      let lower =
        if k.prefetch_as_load || not (is_prefetch pkt.access)
        then add_rq (forward_packet pkt) s.lower_level
        else add_pq (forward_packet pkt) s.lower_level in
      if_cases {A = Cache M × Bool} (IsTracked u pkt s) lower.1
        (λ accepted.
          if_cases {A = Cache M} (λ s'. IsTracked u pkt s (s', true))
            (forward_packet pkt).response_requested
            (λ asked. inr (
              refl,
              inr (
                length s.mshr,
                make_mshr pkt s.current_time,
                get-pushed s.mshr (make_mshr pkt s.current_time),
                refl,
                asks,
              ),
            ))
            (λ unasked. inr (refl, inl unasked)))
        (λ refused. inl (refl, refl))

  counted :
      (pkt : TagLookup) (s : Cache M) (u : ℕ) (r : Cache M × Bool)
      → IsTracked u pkt s r
      → IsTracked u pkt s (if r.1 then (count_miss k h pkt r.0, true) else (r.0, false))
  counted pkt s u (s', true) t = t
  counted pkt s u (s', false) t = t

  -- A miss that is refused leaves the MSHRs as they are. One that is accepted has, for each level that
  -- waits for it, an MSHR of its block in which the level waits, unless it asks for no response.
  pub handle_miss_lem :
      (pkt : TagLookup) (s : Cache M) (u : ℕ)
      → Contains u pkt.to_return
      → IsTracked u pkt s (handle_miss k h pkt s)
  unfolding handle_miss
  handle_miss_lem pkt s u asks =
      missed (find_entry (λ m. matches_address k pkt.address m.address) s.mshr)
        (find_entry-IsFound (λ m. matches_address k pkt.address m.address) s.mshr)
    where
      missed :
          (o : Option (ℕ × Mshr))
          → IsFound (λ m. matches_address k pkt.address m.address) s.mshr o
          → IsTracked u pkt s (miss_at k h pkt (record s { cpu = pkt.cpu }) o)
      missed (some (i, entry)) (found, same, before) =
          let new = make_mshr pkt s.current_time in
          let block : block_of k entry ≡ block_of k new = ground (arith, same) in
          inr (
            refl,
            inr (
              i,
              merge entry new,
              get-set_here s.mshr i entry (merge entry new) found,
              sym (merge-block k entry new block) ∙ block,
              merge_waiting entry new u (inr asks),
            ),
          )
      missed none fresh =
          if_cases {A = Cache M × Bool} (IsTracked u pkt s) (length s.mshr == k.mshr_size)
            (λ full. inl (refl, refl))
            (λ room.
              counted pkt s u (send_miss k h pkt (record s { cpu = pkt.cpu }))
                (sent-IsTracked pkt (record s { cpu = pkt.cpu }) u asks))

  -- A response to levels reaches each of them.
  responded :
      (response : Response) (uls : List ℕ) (levels : ℕ → Channel) (u : ℕ)
      → Any (λ r. r ≡ response) (levels u).returned ⊎ Contains u uls
      → Any (λ r. r ≡ response) (respond k response uls levels u).returned
  responded response [] levels u (inl old) = old
  responded response [] levels u (inr c) = elim c [ ]
  responded response (ul ∷ uls) levels u d =
      responded response uls
        (update levels ul
          (record (levels ul) { returned = push_last (levels ul).returned response }))
        u (next d)
    where
      next :
          Any (λ r. r ≡ response) (levels u).returned ⊎ Contains u (ul ∷ uls)
          → Any
              (λ r. r ≡ response)
              (update levels ul
                (record (levels ul) { returned = push_last (levels ul).returned response })
                u).returned
            ⊎ Contains u uls
      next (inr (there c)) = inr c
      next (inr (here e)) = inl (
          if_cases {A = Channel} (λ c. Any (λ r. r ≡ response) c.returned) (u == ul)
            (λ _. Any-pushed (levels ul).returned response refl)
            (λ other. absurd (ground (arith, e, other))))
      next (inl old) = inl (
          if_cases {A = Channel} (λ c. Any (λ r. r ≡ response) c.returned) (u == ul)
            (λ same.
              let e : u ≡ ul = ground arith in
              Any-push_last (levels ul).returned response
                (subst (λ v. Any (λ r. r ≡ response) (levels v).returned) e old))
            (λ other. old))

  -- Where the victims of the replacement policy are ways of the set, a fill that succeeds answers every
  -- level that waits in its MSHR: the level has a response with the address and the data of the MSHR
  -- and all that depends on it.
  pub fill_answers :
      ((s : Cache M) (cpu id set ip address : ℕ) (access : AccessType)
        → (h.find_victim s cpu id set ip address access).0 < k.num_way)
      → (m : Mshr) (s s' : Cache M) (u : ℕ) → handle_fill k h m s ≡ some (s', true)
      → Contains u m.to_return
      → (metadata : ℕ) × Any (λ r. r ≡ fill_response m metadata) (s'.upper_levels u).returned
  fill_answers victims m s s' u filled asks = from (handle_fill_lem k h victims m s)
    where
      done :
          IsFilled k m s (s', true)
          → (metadata : ℕ) × Any (λ r. r ≡ fill_response m metadata) (s'.upper_levels u).returned
      done (inl (refused, size, b, l)) = absurd cc
      done (inr (accepted, (way, i))) = (
        i.metadata,
        subst (λ levels. Any (λ r. r ≡ fill_response m i.metadata) (levels u).returned)
            (sym i.upper_levels)
            (responded (fill_response m i.metadata) m.to_return s.upper_levels u (inr asks)),
      )

      from :
          (r : Cache M × Bool) × (handle_fill k h m s ≡ some r) × IsFilled k m s r
          → (metadata : ℕ) × Any (λ r. r ≡ fill_response m metadata) (s'.upper_levels u).returned
      from (r, e, o) =
          let same_result : r ≡ (s', true) = some-injective r (s', true) (sym e ∙ filled) in
          done (subst (IsFilled k m s) same_result o)
