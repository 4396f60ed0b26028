-- ===== src/Cache/Order.antt =====
-- ChampSim/src/cache.cc: `finish_packet` keeps the MSHRs that have returned before the others.
use mathlib.Core.Option.{some-injective}
use cs230_branch_predictor.Prelude.{
  ℕ, ◌+◌, ◌≤◌, ◌≡◌, refl, sym, ap, ◌∙◌, arith, Bool, true, false, leb, List, Option, none, some,
  if◌then◌else◌, Bool-cases, inl, inr,
}
use cs230_branch_predictor.Prelude.Arrays.{
  get_elem?, set_elem, find_entry, IsFound, find_entry-IsFound, IsUnique, get-set_elem,
  get-set_here, get-set_some, get-before,
}
use cs230_branch_predictor.Channel.{Response}
use cs230_branch_predictor.Cache.{
  Mshr, Promise, Configuration, Cache, matches_address, has_unknown_readiness,
}
use cs230_branch_predictor.Cache.Finish.{return_mshr, finish_packet}
use cs230_branch_predictor.Cache.Bounds.{block_of}

-- The first n have returned, and no other.
abbrev pub IsOrdered : ℕ → List Mshr → Type 0
IsOrdered n ms =
    (p : ℕ) (z : Mshr) → get_elem? ms p ≡ some z → has_unknown_readiness z.data_promise ≡ leb n p

-- The search finds the only MSHR of the block.
found_match :
    (test : Mshr → Bool) (ms : List Mshr) (o : Option (ℕ × Mshr)) (i : ℕ) (m : Mshr)
    → IsFound test ms o
    → get_elem? ms i ≡ some m
    → test m ≡ true
    → ((p : ℕ) (z : Mshr) → get_elem? ms p ≡ some z → test z ≡ true → p ≡ i)
    → o ≡ some (i, m)
found_match test ms none i m f at_i passes only = absurd (ground (arith, f i m at_i, passes))
found_match test ms (some (j, e)) i m (at_j, good, before) at_i passes only =
    let same : j ≡ i = only j e at_j good in
    let same_entry : e ≡ m = some-injective e m (sym at_j ∙ ap (get_elem? ms) same ∙ at_i) in
    ap (λ x. some (x, e)) same ∙ ap (λ x. some (i, x)) same_entry

found_unknown :
    (n : ℕ) (ms : List Mshr) (o : Option (ℕ × Mshr)) (i : ℕ) (m : Mshr)
    → IsFound (λ m. has_unknown_readiness m.data_promise) ms o
    → IsOrdered n ms
    → get_elem? ms i ≡ some m
    → has_unknown_readiness m.data_promise ≡ true
    → (y : Mshr) × (o ≡ some (n, y)) × (get_elem? ms n ≡ some y)
found_unknown n ms none i m f ordered at_i unknown = absurd (ground (arith, f i m at_i, unknown))
found_unknown n ms (some (j, y)) i m (at_j, good, before) ordered at_i unknown =
    let high : n ≤ j = ground (arith, ordered j y at_j, good) in
    let (z, at_n) = get-before ms n j y at_j high in
    let low : j ≤ n = elim (Bool-cases (leb j n)) [
      | inl le ↦ ground arith
      | inr gt ↦ absurd (ground (arith, before n z (ground arith) at_n, ordered n z at_n))
    ] in
    let same : j ≡ n = omega arith in
    (y, ap (λ x. some (x, y)) same, ap (get_elem? ms) (sym same) ∙ at_j)

swapped-IsOrdered :
    (n i : ℕ) (ms : List Mshr) (y m new : Mshr)
    → IsOrdered n ms
    → get_elem? ms i ≡ some m
    → get_elem? ms n ≡ some y
    → has_unknown_readiness m.data_promise ≡ true
    → has_unknown_readiness new.data_promise ≡ false
    → IsOrdered (n + 1) (set_elem (set_elem ms i y) n new)
swapped-IsOrdered n i ms y m new ordered at_i at_n unknown known p z e =
    elim (get-set_elem (set_elem ms i y) n new p z e) [
      | inl (here, is_new) ↦
          ap (λ x. has_unknown_readiness x.data_promise) is_new ∙ known ∙ ground arith
      | inr (other, kept) ↦ elim (get-set_elem ms i y p z kept) [
        | inl (here, is_y) ↦
            ap (λ x. has_unknown_readiness x.data_promise) is_y
            ∙ ordered n y at_n
            ∙ ground (arith, ordered i m at_i, unknown)
        | inr (other', old) ↦ ordered p z old ∙ ground arith
      ]
    ]

module _ {M : Type 0} (k : Configuration) where
  -- Where the first n MSHRs have returned and the others not, each has its own block, and one that has
  -- not returned waits for the block of the response: the response is taken. Then the first n + 1 have
  -- returned, and the last of these is that MSHR, with the data of the response and the cycle of its
  -- fill.
  pub finish_packet_lem :
      (packet : Response) (s : Cache M) (n i : ℕ) (m : Mshr)
      → IsOrdered n s.mshr
      → IsUnique (block_of k) s.mshr
      → get_elem? s.mshr i ≡ some m
      → has_unknown_readiness m.data_promise ≡ true
      → matches_address k packet.address m.address ≡ true
      → (s' : Cache M) × (finish_packet k packet s ≡ some s')
        × IsOrdered (n + 1) s'.mshr
        × (get_elem? s'.mshr n
            ≡ some (record m {
              data_promise = record {
                block_data = packet.block_data;
                pf_metadata = packet.pf_metadata;
                event_cycle = some (s.current_time + (if s.warmup then 0 else k.fill_latency));
              };
            }))
  unfolding finish_packet return_mshr
  finish_packet_lem packet s n i m ordered unique at_i unknown matching =
      let test = λ (x : Mshr). matches_address k packet.address x.address in
      let promise : Promise = record {
        block_data = packet.block_data;
        pf_metadata = packet.pf_metadata;
        event_cycle = some (s.current_time + (if s.warmup then 0 else k.fill_latency));
      } in
      let new : Mshr = record m { data_promise = promise } in
      let first =
        found_match test s.mshr (find_entry test s.mshr) i m (find_entry-IsFound test s.mshr) at_i
          matching (λ p z at_p good. unique p i z m at_p at_i (ground (arith, good, matching))) in
      let (y, second, at_n) =
        found_unknown n s.mshr (find_entry (λ m. has_unknown_readiness m.data_promise) s.mshr) i m
          (find_entry-IsFound (λ m. has_unknown_readiness m.data_promise) s.mshr) ordered at_i
          unknown in
      let (z, there) = get-set_some s.mshr i n y y at_n in
      rw first (
        rw second (
          record s { mshr = set_elem (set_elem s.mshr i y) n new },
          refl,
          swapped-IsOrdered n i s.mshr y m new ordered at_i at_n unknown refl,
          get-set_here (set_elem s.mshr i y) n z new there,
        ))
