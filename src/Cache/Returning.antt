-- ===== src/Cache/Returning.antt =====
-- ChampSim/src/cache.cc: returns, translations and fills keep the bounds of a cache.
use mathlib.Core.Path.{subst}
use cs230_branch_predictor.Prelude.{
  ℕ, zero, suc, ◌+◌, ◌-◌, ◌≤◌, ◌<◌, ◌≡◌, refl, arith, Bool, true, false, not, leb, ltb, ◌&&◌, ◌||◌,
  ◌>>=◌, List, [], ◌∷◌, Option, none, some, if_cases,
}
use cs230_branch_predictor.Prelude.Sequences.{length}
use cs230_branch_predictor.Prelude.Arrays.{
  get_elem?, set_elem, find_entry, IsFound, find_entry-IsFound, length-set_elem, swap-IsUnique,
  moved-IsUnique,
}
use cs230_branch_predictor.Prelude.Options.{OnSome, bind-OnSome, Returns, bind-Returns}
use cs230_branch_predictor.Replacement.{AccessType, write}
use cs230_branch_predictor.Channel.{Channel, Response}
use cs230_branch_predictor.Cache.{
  Mshr, TagLookup, Promise, Configuration, Cache, Modules, same_access, matches_address,
  has_unknown_readiness, index_of,
}
use cs230_branch_predictor.Cache.Fill.{
  find_way, choose_way, write_back, fill_hooks, put_block, fill_at, handle_fill,
}
use cs230_branch_predictor.Cache.Finish.{return_mshr, finish_packet, finish_translation}
use cs230_branch_predictor.Cache.Cycle.{
  drop_while, take_while, is_filled, fill_mshrs, fill_writes, drop, finish_packets, finish_returns,
  translate_packets, finish_translations, fill_all, perform_fills,
}
use cs230_branch_predictor.Cache.Installed.{handle_fill_lem}
use cs230_branch_predictor.Cache.Bounds.{block_of, Fits, IsValid, run_hook-IsValid}

-- Elements that leave a list at its front.
pub dropped_length :
    {A : Type 0} (test : A → Bool) (n : ℕ) (xs : List A) → length (drop_while test n xs) ≤ length xs
dropped_length test zero xs = omega arith
dropped_length test (suc n) [] = omega arith
dropped_length test (suc n) (x ∷ xs) =
    if_cases (λ ys. length ys ≤ suc (length xs)) (test x)
      (λ _. omega (arith, dropped_length test n xs)) (λ _. omega arith)

dropped_get :
    {A : Type 0} (n : ℕ) (xs : List A) (p : ℕ) (z : A)
    → get_elem? (drop_while (λ x. true) n xs) p ≡ some z
    → get_elem? xs (p + n) ≡ some z
dropped_get zero xs p z e = subst (λ q. get_elem? xs q ≡ some z) (omega arith) e
dropped_get (suc n) [] p z e = cc
dropped_get (suc n) (x ∷ xs) p z e =
    let there : suc (p + n) ≡ p + suc n = omega arith in
    subst (λ q. get_elem? (x ∷ xs) q ≡ some z) there (dropped_get n xs p z e)

dropped-Fits :
    (k : Configuration) (n : ℕ) (mshr : List Mshr) (pq : List TagLookup) (lower : Option Channel)
    → Fits k mshr pq lower
    → Fits k (drop_while (λ m. true) n mshr) pq lower
dropped-Fits k n mshr pq lower v = record {
  mshr_room = omega (arith, v.mshr_room, dropped_length (λ m. true) n mshr);
  translates = v.translates;
  pq_room = v.pq_room;
  unique =
      moved-IsUnique (block_of k) mshr (drop_while (λ m. true) n mshr) (λ p. p + n)
        (λ p q e. omega arith) (λ p z e. (z, dropped_get n mshr p z e, refl)) v.unique;
}

module _ {M : Type 0} (k : Configuration) (h : Modules M) where
  -- What a step with a count leaves.
  abbrev pub Kept : Cache M × ℕ → Type 0
  Kept r = IsValid k r.0

  abbrev pub Answered : Cache M × Bool → Type 0
  Answered r = IsValid k r.0

  fill_hooks-IsValid :
      (m : Mshr) (way : ℕ) (s : Cache M) → IsValid k s → IsValid k (fill_hooks k h m way s).0
  fill_hooks-IsValid m way s v = run_hook-IsValid k h (h.prefetcher_cache_fill s _ _ _ _ _ _) s v

  put_block-IsValid :
      (m : Mshr) (way metadata : ℕ) (s : Cache M)
      → IsValid k s
      → IsValid k (put_block k h m way metadata s)
  put_block-IsValid m way metadata s v =
      if_cases {A = Cache M} (IsValid k) (ltb way k.num_way) (λ _. v) (λ _. v)

  write_back-IsValid :
      (m : Mshr) (way : ℕ) (s : Cache M) → IsValid k s → IsValid k (write_back k h m way s).0
  write_back-IsValid m way s v =
      let b = s.block (index_of k m.address way) in
      if_cases {A = Cache M × Bool} Answered (ltb way k.num_way && (b.valid && b.dirty)) (λ _. v)
        (λ _. v)

  find_way-IsValid :
      (m : Mshr) (s : Cache M) (o : Option ℕ) → IsValid k s → IsValid k (choose_way k h m s o).0
  find_way-IsValid m s none v = v
  find_way-IsValid m s (some way) v = v

  fill_at-OnSome :
      (m : Mshr) (s : Cache M) (way : ℕ) → IsValid k s → OnSome Answered (fill_at k h m (s, way))
  fill_at-OnSome m s way v =
      let w = write_back-IsValid m way s v in
      let written = write_back k h m way s in
      if_cases {A = Option (Cache M × Bool)} (OnSome Answered)
        (leb way k.num_way && (ltb way k.num_way || not (same_access m.access write)))
        (λ _.
          if_cases {A = Cache M × Bool} Answered written.1
            (λ _.
              put_block-IsValid m way (fill_hooks k h m way written.0).1
                (fill_hooks k h m way written.0).0 (fill_hooks-IsValid m way written.0 w))
            (λ _. w))
        (λ _. tt)

  handle_fill-OnSome :
      (m : Mshr) (s : Cache M) → IsValid k s → OnSome Answered (handle_fill k h m s)
  unfolding handle_fill
  handle_fill-OnSome m s v =
      let s' : Cache M = record s { cpu = m.cpu } in
      fill_at-OnSome m (find_way k h m s').0 (find_way k h m s').1 (find_way-IsValid m s' _ v)

  return_mshr-Fits :
      (test : Mshr → Bool) (promise : Promise) (mshr : List Mshr) (pq : List TagLookup)
      (lower : Option Channel)
      → Fits k mshr pq lower
      → OnSome (λ ms. Fits k ms pq lower) (return_mshr test promise mshr)
  unfolding return_mshr
  return_mshr-Fits test promise mshr pq lower v =
      bind-OnSome (λ e. get_elem? mshr e.0 ≡ some e.1) (λ ms. Fits k ms pq lower)
        (find_entry test mshr)
        (λ mshr_entry.
          find_entry (λ m. has_unknown_readiness m.data_promise) mshr >>= λ first_unreturned. some (
            set_elem (set_elem mshr mshr_entry.0 first_unreturned.1) first_unreturned.0
              (record mshr_entry.1 { data_promise = promise })))
        (found_in test)
        (λ e at_e.
          bind-OnSome (λ u. get_elem? mshr u.0 ≡ some u.1) (λ ms. Fits k ms pq lower)
            (find_entry (λ m. has_unknown_readiness m.data_promise) mshr)
            (λ u.
              some (set_elem (set_elem mshr e.0 u.1) u.0 (record e.1 { data_promise = promise })))
            (found_in (λ m. has_unknown_readiness m.data_promise))
            (λ u at_u. record {
              mshr_room = omega (
                arith,
                v.mshr_room,
                length-set_elem mshr e.0 u.1,
                length-set_elem (set_elem mshr e.0 u.1) u.0 (record e.1 { data_promise = promise }),
              );
              translates = v.translates;
              pq_room = v.pq_room;
              unique =
                  swap-IsUnique (block_of k) mshr e.0 u.0 e.1 u.1
                    (record e.1 { data_promise = promise }) at_e at_u refl v.unique;
            }))
    where
      found_in :
          (test : Mshr → Bool) → OnSome (λ e. get_elem? mshr e.0 ≡ some e.1) (find_entry test mshr)
      found_in test = read (find_entry test mshr) (find_entry-IsFound test mshr)
        where
          read :
              (o : Option (ℕ × Mshr))
              → IsFound test mshr o
              → OnSome (λ e. get_elem? mshr e.0 ≡ some e.1) o
          read none f = tt
          read (some e) f = f.0

  finish_packet-OnSome :
      (packet : Response) (s : Cache M)
      → IsValid k s
      → OnSome (IsValid k) (finish_packet k packet s)
  unfolding finish_packet
  finish_packet-OnSome packet s v =
      bind-OnSome (λ ms. Fits k ms s.internal_pq s.lower_translate) (IsValid k) _
        (λ ms. some (record s { mshr = ms }))
        (return_mshr-Fits (λ m. matches_address k packet.address m.address) _ s.mshr s.internal_pq
          s.lower_translate v)
        (λ ms f. f)

  finish_packets-OnSome :
      (packets : List Response) (s : Cache M)
      → IsValid k s
      → OnSome (IsValid k) (finish_packets k h packets s)
  finish_packets-OnSome [] s v = v
  finish_packets-OnSome (packet ∷ packets) s v =
      bind-OnSome (IsValid k) (IsValid k) (finish_packet k packet s) (finish_packets k h packets)
        (finish_packet-OnSome packet s v) (finish_packets-OnSome packets)

  pub finish_returns-OnSome :
      (s : Cache M) → IsValid k s → OnSome (IsValid k) (finish_returns k h s)
  finish_returns-OnSome s v =
      bind-OnSome (IsValid k) (IsValid k) (finish_packets k h s.lower_level.returned s)
        (λ s'. some (record s' { lower_level = record s'.lower_level { returned = [] } }))
        (finish_packets-OnSome s.lower_level.returned s v) (λ s' v'. v')

  translate_packets-IsValid :
      (page_bits : ℕ) (packets : List Response) (s : Cache M)
      → IsValid k s
      → IsValid k (translate_packets k h page_bits packets s)
  unfolding finish_translation
  translate_packets-IsValid page_bits [] s v = v
  translate_packets-IsValid page_bits (packet ∷ packets) s v =
      translate_packets-IsValid page_bits packets (finish_translation k page_bits packet s) v

  pub finish_translations-IsValid :
      (page_bits : ℕ) (s : Cache M) → IsValid k s → IsValid k (finish_translations k h page_bits s)
  finish_translations-IsValid page_bits s v = with_channel s.lower_translate
    where
      with_channel :
          (o : Option Channel)
          → IsValid k (elim o [
            | none ↦ s
            | some c ↦ record (translate_packets k h page_bits c.returned s) {
              lower_translate = some (record c { returned = [] });
            }
          ])
      with_channel none = v
      with_channel (some c) =
          let v' = translate_packets-IsValid page_bits c.returned s v in
          record {
            mshr_room = v'.mshr_room;
            pq_room = v'.pq_room;
            unique = v'.unique;
            translates = (record c { returned = [] }, refl);
          }

  -- The victims of the replacement policy are ways of the set.
  abbrev pub ChoosesWays : Type 0
  ChoosesWays =
      (s : Cache M) (cpu id set ip address : ℕ) (access : AccessType)
      → (h.find_victim s cpu id set ip address access).0 < k.num_way

  handle_fill-Returns :
      ChoosesWays → (m : Mshr) (s : Cache M) → IsValid k s → Returns Answered (handle_fill k h m s)
  handle_fill-Returns ways m s v =
      let (r, e, filled) = handle_fill_lem k h ways m s in
      (r, e, subst (OnSome Answered) e (handle_fill-OnSome m s v))

  fill_all-Returns :
      ChoosesWays → (ms : List Mshr) (s : Cache M) → IsValid k s → Returns Kept (fill_all k h ms s)
  fill_all-Returns ways [] s v = ((s, 0), refl, v)
  fill_all-Returns ways (m ∷ ms) s v =
      bind-Returns Answered Kept (handle_fill k h m s)
        (λ r. elim (r.1) [
          | true ↦ fill_all k h ms r.0 >>= λ q. some (q.0, q.1 + 1)
          | false ↦ some (r.0, 0)
        ])
        (handle_fill-Returns ways m s v) (λ r a. answer r r.1 a (fill_all-Returns ways ms r.0 a))
    where
      answer :
          (r : Cache M × Bool) (b : Bool)
          → Answered r
          → Returns Kept (fill_all k h ms r.0)
          → Returns Kept (elim b [
            | true ↦ fill_all k h ms r.0 >>= λ q. some (q.0, q.1 + 1)
            | false ↦ some (r.0, 0)
          ])
      answer r true a rest =
          bind-Returns Kept Kept (fill_all k h ms r.0) (λ q. some (q.0, q.1 + 1)) rest
            (λ q v'. ((q.0, q.1 + 1), refl, v'))
      answer r false a rest = ((r.0, 0), refl, a)

  pub perform_fills-Returns :
      ChoosesWays → (s : Cache M) → IsValid k s → Returns Kept (perform_fills k h s)
  perform_fills-Returns ways s v =
      bind-Returns Kept Kept (fill_mshrs k h s)
        (λ r. fill_writes k h (k.max_fill - r.1) r.0 >>= λ q. some (q.0, r.1 + q.1))
        (bind-Returns Kept Kept
          (fill_all k h (take_while (is_filled k h s.current_time) k.max_fill s.mshr) s)
          (λ r. some (record r.0 { mshr = drop k h r.1 r.0.mshr }, r.1))
          (fill_all-Returns ways (take_while (is_filled k h s.current_time) k.max_fill s.mshr) s v)
          (λ r v'. (
            (record r.0 { mshr = drop k h r.1 r.0.mshr }, r.1),
            refl,
            dropped-Fits k r.1 r.0.mshr r.0.internal_pq r.0.lower_translate v',
          )))
        (λ r v₁.
          bind-Returns Kept Kept (fill_writes k h (k.max_fill - r.1) r.0)
            (λ q. some (q.0, r.1 + q.1)) (writes (k.max_fill - r.1) r.0 v₁)
            (λ q v₂. ((q.0, r.1 + q.1), refl, v₂)))
    where
      writes :
          (bandwidth : ℕ) (s : Cache M) → IsValid k s → Returns Kept (fill_writes k h bandwidth s)
      writes bandwidth s v =
          bind-Returns Kept Kept
            (fill_all k h (take_while (is_filled k h s.current_time) bandwidth s.inflight_writes) s)
            (λ r. some (record r.0 { inflight_writes = drop k h r.1 r.0.inflight_writes }, r.1))
            (fill_all-Returns ways
              (take_while (is_filled k h s.current_time) bandwidth s.inflight_writes) s v)
            (λ r v'.
              ((record r.0 { inflight_writes = drop k h r.1 r.0.inflight_writes }, r.1), refl, v'))
