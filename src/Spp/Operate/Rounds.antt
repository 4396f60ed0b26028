-- ===== src/Spp/Operate/Rounds.antt =====
-- ChampSim/prefetcher/spp_dev/spp_dev.cc: the lookahead, where none of its accesses of the queues and no
-- assertion fails.
use cs230_branch_predictor.Prelude.{
  ℕ, zero, suc, ◌+◌, ◌-◌, ◌<◌, ◌≤◌, ◌≡◌, refl, sym, ◌∙◌, arith, ◌⊎◌, Bool, true, false, not, ltb,
  leb, ◌==◌, ◌&&◌, ◌>>=◌, Option, none, some, if◌then◌else◌, Bool-cases, if_cases, inl, inr,
}
use cs230_branch_predictor.Prelude.Lists.{All, All-push_last}
use cs230_branch_predictor.IpStride.{add_stride}
use cs230_branch_predictor.Spp.{pt_way, fill_threshold, pf_threshold}
use cs230_branch_predictor.Spp.GlobalRegister.{GlobalRegister}
use cs230_branch_predictor.Spp.SignatureTable.{Reading}
use cs230_branch_predictor.Spp.PatternTable.{Candidates, read_pattern}
use cs230_branch_predictor.Spp.Filter.{check, spp_l2c_prefetch, spp_llc_prefetch}
use cs230_branch_predictor.Spp.Operate.{
  Spp, Lookahead, Outcome, ends, fails, unfinished, count_issued, page_of, issue, advance,
  try_candidate, try_candidates, follow, lookahead_round, lookahead_loop, access, first_lookahead,
  prefetcher_cache_operate,
}
use cs230_branch_predictor.Spp.Operate.Laws.{IsValid, access_lem}

module _ (width page_blocks mshr_size page : ℕ) where
  abbrev pub InPage : ℕ × Bool → Type 0
  InPage (block, fills) = page_of width page_blocks mshr_size block ≡ page

  -- What a step of the lookahead keeps, and that it goes on only where the head of the queue advanced.
  pub record IsStep (s : Spp) (l : Lookahead) (r : Spp × Lookahead) : Type 0 where
    pub st : r.0.st ≡ s.st
    pub pt : r.0.pt ≡ s.pt
    pub forward : l.pf_q_head ≤ r.1.pf_q_head
    pub advanced : (r.1.do_lookahead ≡ l.do_lookahead) ⊎ (l.pf_q_head < r.1.pf_q_head)
    pub inside : All InPage r.1.prefetches

  issue-IsStep :
      (pf_block conf : ℕ) (s : Spp) (l : Lookahead)
      → All InPage l.prefetches
      → page_of width page_blocks mshr_size pf_block ≡ page
      → IsStep s l (
          advance width page_blocks mshr_size (issue width page_blocks mshr_size pf_block conf s l))
  issue-IsStep pf_block conf s l all here =
      let fills = leb fill_threshold conf in
      let answer =
        check pf_block (if fills then spp_l2c_prefetch else spp_llc_prefetch) s.filter s.ghr in
      if_cases {A = Lookahead}
        (λ l'. IsStep s l (
          record s {
            filter = answer.0;
            ghr = if answer.2 && fills then count_issued answer.1 else answer.1;
          },
          record l' { do_lookahead = true; pf_q_head = l'.pf_q_head + 1 },
        ))
        answer.2
        (λ fresh. record {
          st = refl;
          pt = refl;
          forward = omega arith;
          advanced = inr (omega arith);
          inside = All-push_last InPage l.prefetches _ all here;
        })
        (λ held. record {
          st = refl;
          pt = refl;
          forward = omega arith;
          advanced = inr (omega arith);
          inside = all;
        })

  -- A step that may fail.
  abbrev pub IsStepOf : Spp → Lookahead → Option (Spp × Lookahead) → Type 0
  IsStepOf s l none = Unit
  IsStepOf s l (some r) = IsStep s l r

  cross-IsStepOf :
      (s : Spp) (l : Lookahead) (o : Option GlobalRegister)
      → All InPage l.prefetches
      → IsStepOf s l (
          (o >>= λ ghr'. some (record s { ghr = ghr' }, l)) >>= λ r.
          some (advance width page_blocks mshr_size r))
  cross-IsStepOf s l none all = tt
  cross-IsStepOf s l (some ghr') all = record {
    st = refl;
    pt = refl;
    forward = omega arith;
    advanced = inr (omega arith);
    inside = all;
  }

  candidate-IsStepOf :
      (i : ℕ) (s : Spp) (l : Lookahead)
      → All InPage l.prefetches
      → IsStepOf s l (try_candidate width page_blocks mshr_size page i s l)
  candidate-IsStepOf i s l all =
      let pf_block = add_stride width l.base (l.candidates.delta_q i) in
      if_cases {A = Option (Spp × Lookahead)} (IsStepOf s l) (not (ltb i mshr_size)) (λ _. tt)
        (λ _.
          if_cases {A = Option (Spp × Lookahead)} (IsStepOf s l)
            (not (leb pf_threshold (l.candidates.confidence_q i)))
            (λ _. record {
              st = refl;
              pt = refl;
              forward = omega arith;
              advanced = inl refl;
              inside = all;
            })
            (λ _.
              if_cases {A = Option (Spp × Lookahead)} (IsStepOf s l)
                (page_of width page_blocks mshr_size pf_block == page)
                (λ here. issue-IsStep pf_block (l.candidates.confidence_q i) s l all (ground arith))
                (λ _. cross-IsStepOf s l _ all)))

  -- A step after a step.
  then-IsStep :
      (s : Spp) (l : Lookahead) (r r' : Spp × Lookahead)
      → IsStep s l r
      → IsStep r.0 r.1 r'
      → IsStep s l r'
  then-IsStep s l r r' a b = record {
    st = b.st ∙ a.st;
    pt = b.pt ∙ a.pt;
    forward = omega (arith, a.forward, b.forward);
    advanced = elim a.advanced [
      | inl kept ↦ elim b.advanced [
        | inl kept' ↦ inl (kept' ∙ kept)
        | inr more ↦ inr (omega (arith, a.forward))
      ]
      | inr more ↦ inr (omega (arith, b.forward))
    ];
    inside = b.inside;
  }

  candidates-IsStepOf :
      (rounds i : ℕ) (s : Spp) (l : Lookahead)
      → All InPage l.prefetches
      → IsStepOf s l (try_candidates width page_blocks mshr_size page rounds i s l)
  candidates-IsStepOf zero i s l all = record {
    st = refl;
    pt = refl;
    forward = omega arith;
    advanced = inl refl;
    inside = all;
  }
  candidates-IsStepOf (suc rounds) i s l all =
      first (try_candidate width page_blocks mshr_size page i s l) (candidate-IsStepOf i s l all)
        (λ r. candidates-IsStepOf rounds (i + 1) r.0 r.1)
    where
      and_then :
          (r : Spp × Lookahead) (o : Option (Spp × Lookahead))
          → IsStep s l r
          → IsStepOf r.0 r.1 o
          → IsStepOf s l o
      and_then r none a b = tt
      and_then r (some r') a b = then-IsStep s l r r' a b

      first :
          (o : Option (Spp × Lookahead))
          → IsStepOf s l o
          → ((r : Spp × Lookahead)
              → All InPage r.1.prefetches
              → IsStepOf r.0 r.1
                  (try_candidates width page_blocks mshr_size page rounds (i + 1) r.0 r.1))
          → IsStepOf s l
              (o >>= λ r. try_candidates width page_blocks mshr_size page rounds (i + 1) r.0 r.1)
      first none a rest = tt
      first (some r) a rest = and_then r _ a (rest r a.inside)

  -- The first candidate is read inside the queue.
  candidates_inside :
      (rounds i : ℕ) (s : Spp) (l : Lookahead) (r : Spp × Lookahead)
      → try_candidates width page_blocks mshr_size page (suc rounds) i s l ≡ some r
      → i < mshr_size
  candidates_inside rounds i s l r e = elim (Bool-cases (ltb i mshr_size)) [
    | inl inside ↦ ground arith
    | inr outside ↦ (let fails : none ≡ some r = rw outside at e in cc)
  ]

  -- A round of the loop keeps the tables and the page, and asks for another only where the head of the
  -- queue advanced from inside it.
  pub record IsRound (s : Spp) (head : ℕ) (r : Spp × Lookahead) : Type 0 where
    pub st : r.0.st ≡ s.st
    pub pt : r.0.pt ≡ s.pt
    pub inside : All InPage r.1.prefetches
    pub going : (r.1.do_lookahead ≡ false) ⊎ ((head < mshr_size) × (head < r.1.pf_q_head))

  abbrev pub IsRoundOf : Spp → ℕ → Option (Spp × Lookahead) → Type 0
  IsRoundOf s head none = Unit
  IsRoundOf s head (some r) = IsRound s head r

  follow-IsRound :
      (s : Spp) (l : Lookahead) (r : Spp × Lookahead)
      → IsRound s l.pf_q_head r
      → IsRound s l.pf_q_head (r.0, follow width page_blocks mshr_size r.0.pt r.1)
  follow-IsRound s l r h =
      if_cases {A = Lookahead} (λ l'. IsRound s l.pf_q_head (r.0, l'))
        (ltb r.1.candidates.lookahead_way pt_way)
        (λ _. record { st = h.st; pt = h.pt; inside = h.inside; going = h.going }) (λ _. h)

  tried-IsRound :
      (rounds : ℕ) (s : Spp) (l : Lookahead)
      → All InPage l.prefetches
      → l.do_lookahead ≡ false
      → IsRoundOf s l.pf_q_head (
          try_candidates width page_blocks mshr_size page rounds l.pf_q_head s l >>= λ r.
          some (r.0, follow width page_blocks mshr_size r.0.pt r.1))
  tried-IsRound zero s l all idle =
      follow-IsRound s l (s, l) (record { st = refl; pt = refl; inside = all; going = inl idle })
  tried-IsRound (suc rounds) s l all idle =
      from (try_candidates width page_blocks mshr_size page (suc rounds) l.pf_q_head s l)
        (candidates_inside rounds l.pf_q_head s l)
        (candidates-IsStepOf (suc rounds) l.pf_q_head s l all)
    where
      from :
          (o : Option (Spp × Lookahead))
          → ((r : Spp × Lookahead) → o ≡ some r → l.pf_q_head < mshr_size)
          → IsStepOf s l o
          → IsRoundOf s l.pf_q_head
              (o >>= λ r. some (r.0, follow width page_blocks mshr_size r.0.pt r.1))
      from none bound h = tt
      from (some r) bound h = follow-IsRound s l r (record {
        st = h.st;
        pt = h.pt;
        inside = h.inside;
        going = elim h.advanced [
          | inl kept ↦ inl (kept ∙ idle)
          | inr more ↦ inr (bound r refl, more)
        ];
      })

  round-IsRound :
      (s : Spp) (l : Lookahead)
      → All InPage l.prefetches
      → IsRoundOf s l.pf_q_head (lookahead_round width page_blocks mshr_size page s l)
  unfolding lookahead_round
  round-IsRound s l all = read (
      read_pattern mshr_size s.ghr.global_accuracy l.curr_sig s.pt
        (record l.candidates { lookahead_way = pt_way }))
    where
      read :
          (o : Option Candidates)
          → IsRoundOf s l.pf_q_head (
              o >>= λ q.
              try_candidates width page_blocks mshr_size page
                (q.pf_q_tail - l.pf_q_head)
                l.pf_q_head
                s
                (record l { candidates = q; do_lookahead = false })
              >>= λ r. some (r.0, follow width page_blocks mshr_size r.0.pt r.1))
      read none = tt
      read (some q) =
          tried-IsRound (q.pf_q_tail - l.pf_q_head) s
            (record l { candidates = q; do_lookahead = false }) all refl

  -- What the loop promises: it does not run out of rounds, and if no access of the queues and no
  -- assertion fails, the tables are as before and all prefetches are in the page.
  abbrev pub IsEnded : Spp → Outcome → Type 0
  IsEnded s unfinished = ⊥
  IsEnded s fails = Unit
  IsEnded s (ends s' prefetches) = (s'.st ≡ s.st) × (s'.pt ≡ s.pt) × All InPage prefetches

  moved-IsEnded :
      (s s' : Spp) (o : Outcome) → s'.st ≡ s.st → s'.pt ≡ s.pt → IsEnded s' o → IsEnded s o
  moved-IsEnded s s' unfinished a b h = h
  moved-IsEnded s s' fails a b h = tt
  moved-IsEnded s s' (ends t prefetches) a b (st, pt, all) = (st ∙ a, pt ∙ b, all)

  -- The test after a round.
  tested-IsEnded :
      (s : Spp) (head : ℕ) (r : Spp × Lookahead) (rest : Outcome) (b : Bool)
      → IsRound s head r
      → r.1.do_lookahead ≡ b
      → (b ≡ true → IsEnded r.0 rest)
      → IsEnded s (elim b [ true ↦ rest | false ↦ ends r.0 r.1.prefetches ])
  tested-IsEnded s head r rest true h e more = moved-IsEnded s r.0 rest h.st h.pt (more refl)
  tested-IsEnded s head r rest false h e more = (h.st, h.pt, h.inside)

  round-IsEnded :
      (s : Spp) (head : ℕ) (rest : Spp → Lookahead → Outcome) (o : Option (Spp × Lookahead))
      → IsRoundOf s head o
      → ((r : Spp × Lookahead)
          → IsRound s head r
          → r.1.do_lookahead ≡ true
          → IsEnded r.0 (rest r.0 r.1))
      → IsEnded s (elim o [
        | none ↦ fails
        | some r ↦ elim (r.1.do_lookahead) [ true ↦ rest r.0 r.1 | false ↦ ends r.0 r.1.prefetches ]
      ])
  round-IsEnded s head rest none h more = tt
  round-IsEnded s head rest (some r) h more =
      tested-IsEnded s head r (rest r.0 r.1) r.1.do_lookahead h refl (more r h)

  loop-IsEnded :
      (rounds : ℕ) (s : Spp) (l : Lookahead)
      → 0 < rounds
      → mshr_size < rounds + l.pf_q_head
      → All InPage l.prefetches
      → IsEnded s (lookahead_loop width page_blocks mshr_size rounds page s l)
  loop-IsEnded zero s l some_rounds enough all = absurd (omega (arith, some_rounds))
  loop-IsEnded (suc rounds) s l some_rounds enough all =
      round-IsEnded s l.pf_q_head (lookahead_loop width page_blocks mshr_size rounds page)
        (lookahead_round width page_blocks mshr_size page s l) (round-IsRound s l all)
        (λ r h on. elim h.going [
          | inl off ↦ absurd (let no : true ≡ false = sym on ∙ off in cc)
          | inr (inside, ahead) ↦
              loop-IsEnded rounds r.0 r.1 (omega arith) (omega (arith, ahead)) h.inside
        ])

-- In a valid state `prefetcher_cache_operate` ends within MSHR_SIZE + 1 rounds of the lookahead. If no
-- access of the queues and no assertion on the global register fails in them, its tables are those
-- that the access leaves, which are valid, and all prefetches are in the page of the access.
pub operate_lem :
    (width page_blocks mshr_size block : ℕ) (s : Spp)
    → IsValid s
    → (r : Spp × Reading) × (access width page_blocks mshr_size block s ≡ some r)
      × IsValid r.0
      × IsEnded width page_blocks mshr_size
          (page_of width page_blocks mshr_size block)
          r.0
          (prefetcher_cache_operate width page_blocks mshr_size (mshr_size + 1) block s)
unfolding prefetcher_cache_operate
operate_lem width page_blocks mshr_size block s v =
    let (r, e, valid, learned, held) = access_lem width page_blocks mshr_size block s v in
    (
      r,
      e,
      valid,
      rw (e, IsEnded)
          (loop-IsEnded width page_blocks mshr_size (page_of width page_blocks mshr_size block)
            (mshr_size + 1) r.0 (first_lookahead width page_blocks mshr_size block r.1.curr_sig)
            (omega arith) (omega arith) tt),
    )
