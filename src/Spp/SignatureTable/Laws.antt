-- ===== src/Spp/SignatureTable/Laws.antt =====
-- ChampSim/prefetcher/spp_dev/spp_dev.cc: `read_and_update_sig` always finds a way, and finds it again.
use cs230_branch_predictor.Prelude.{
  ℕ, ◌-◌, ◌<◌, ◌≡◌, refl, ap, ◌∙◌, arith, ◌⊎◌, true, false, not, ltb, ◌==◌, ◌&&◌, Option, none,
  some, Option-cases, if_cases, inl, inr,
}
use cs230_branch_predictor.Prelude.Int.{pos, eq_ℤ}
use cs230_branch_predictor.Prelude.Search.{IsFirst, find_first-IsFirst, IsFirst-unique}
use cs230_branch_predictor.IpStride.{offset}
use cs230_branch_predictor.Spp.{st_way, max_ghr_entry}
use cs230_branch_predictor.Spp.GlobalRegister.{GlobalRegister, check_entry}
use cs230_branch_predictor.Spp.Ranking.{IsRanking, promote-IsRanking}
use cs230_branch_predictor.Spp.SignatureTable.{
  SignatureTable, Reading, hit_way, new_way, replaced_way, bootstrap, touch_way, find_match,
  find_invalid, find_oldest, on_oldest, on_invalid, on_match, read_and_update_sig,
}

-- The way holds the page with the offset, and no way before it holds the page.
pub record IsHeld (t offset way : ℕ) (s : SignatureTable) : Type 0 where
  pub inside : way < st_way
  pub valid : s.valid way ≡ true
  pub tag : s.tag way ≡ t
  pub last : s.last_offset way ≡ offset
  pub first : (j : ℕ) → j < way → (s.valid j && s.tag j == t) ≡ false

-- A signature that is read to be learned comes with a delta that is not 0.
abbrev pub Moves : Reading → Type 0
Moves r = (r.last_sig ≡ 0) ⊎ (eq_ℤ r.delta (pos 0) ≡ false)

-- What a successful operation promises: the ages are a ranking, and a way holds the page.
abbrev pub IsRead : ℕ → ℕ → Option (SignatureTable × Reading) → Type 0
IsRead t o none = ⊥
IsRead t o (some r) = IsRanking st_way r.0.lru × Moves r.1 × ((way : ℕ) × IsHeld t o way r.0)

module _ (ghr : GlobalRegister) (t o : ℕ) (s : SignatureTable)
    (ranking : IsRanking st_way s.lru) where
  match-IsFirst : IsFirst (λ w. s.valid w && s.tag w == t) 0 st_way (find_match t s)
  match-IsFirst = find_first-IsFirst (λ w. s.valid w && s.tag w == t) st_way 0 st_way refl

  invalid-IsFirst : IsFirst (λ w. not (s.valid w)) 0 st_way (find_invalid s)
  invalid-IsFirst = find_first-IsFirst (λ w. not (s.valid w)) st_way 0 st_way refl

  oldest-IsFirst : IsFirst (λ w. s.lru w == st_way - 1) 0 st_way (find_oldest s)
  oldest-IsFirst = find_first-IsFirst (λ w. s.lru w == st_way - 1) st_way 0 st_way refl

  -- A state before the ages change.
  abbrev Ready : ℕ → SignatureTable × Reading → Type 0
  Ready way u = IsHeld t o way u.0 × IsRanking st_way u.0.lru × Moves u.1

  touched :
      (way : ℕ) (u : SignatureTable × Reading) → Ready way u → IsRead t o (some (touch_way way u))
  touched way u (h, k, m) = (
    promote-IsRanking st_way way u.0.lru k h.inside,
    m,
    (
      way,
      record { inside = h.inside; valid = h.valid; tag = h.tag; last = h.last; first = h.first },
    ),
  )

  hit-IsRead :
      (way : ℕ)
      → IsFirst (λ w. s.valid w && s.tag w == t) 0 st_way (some way)
      → IsRead t o (some (touch_way way (hit_way o way s)))
  hit-IsRead way (low, inside, holds, before) = touched way (hit_way o way s) (
      if_cases {A = SignatureTable × Reading} (Ready way)
        (not (eq_ℤ (offset (s.last_offset way) o) (pos 0)))
        (λ moved. (
          record {
            inside = inside;
            valid = ground (arith, holds);
            tag = ground (arith, holds);
            last = ground arith;
            first = λ j lt. before j (omega arith) lt;
          },
          ranking,
          inr (ground arith),
        ))
        (λ still. (
          record {
            inside = inside;
            valid = ground (arith, holds);
            tag = ground (arith, holds);
            last = ground arith;
            first = λ j lt. before j (omega arith) lt;
          },
          ranking,
          inl refl,
        )))

  -- The global history changes no more than a signature.
  bootstrap_ready :
      (way : ℕ) (u : SignatureTable)
      → IsHeld t o way u
      → IsRanking st_way u.lru
      → IsRead t o (some (touch_way way (bootstrap ghr o way u)))
  bootstrap_ready way u h k = touched way (bootstrap ghr o way u) (
      if_cases {A = SignatureTable × Reading} (Ready way) (ltb (check_entry o ghr) max_ghr_entry)
        (λ _. (
          record {
            inside = h.inside;
            valid = h.valid;
            tag = h.tag;
            last = h.last;
            first = h.first;
          },
          k,
          inl refl,
        ))
        (λ _. (h, k, inl refl)))

  oldest-IsRead :
      (w : Option ℕ)
      → ((j : ℕ) → j < st_way → (s.valid j && s.tag j == t) ≡ false)
      → ((j : ℕ) → j < st_way → s.valid j ≡ true)
      → IsFirst (λ w. s.lru w == st_way - 1) 0 st_way w
      → IsRead t o (on_oldest ghr t o s w)
  oldest-IsRead none misses all_valid absent =
      let (w, inside, e) = ranking.onto (st_way - 1) (omega arith) in ground (arith, absent w)
  oldest-IsRead (some way) misses all_valid (low, inside, oldest, before) =
      bootstrap_ready way (replaced_way t o way s)
        (record {
          inside = inside;
          valid = all_valid way inside;
          tag = ground arith;
          last = ground arith;
          first = λ j lt. ground (arith, misses j);
        })
        ranking

  invalid-IsRead :
      (w : Option ℕ)
      → ((j : ℕ) → j < st_way → (s.valid j && s.tag j == t) ≡ false)
      → IsFirst (λ w. not (s.valid w)) 0 st_way w
      → IsRead t o (on_invalid ghr t o s w)
  invalid-IsRead none misses absent =
      oldest-IsRead (find_oldest s) misses (λ j lt. ground (arith, absent j)) oldest-IsFirst
  invalid-IsRead (some way) misses (low, inside, free, before) =
      bootstrap_ready way (new_way t o way s)
        (record {
          inside = inside;
          valid = ground arith;
          tag = ground arith;
          last = ground arith;
          first = λ j lt. ground (arith, misses j);
        })
        ranking

  match-IsRead :
      (w : Option ℕ)
      → IsFirst (λ w. s.valid w && s.tag w == t) 0 st_way w
      → IsRead t o (on_match ghr t o s w)
  match-IsRead none absent =
      invalid-IsRead (find_invalid s) (λ j lt. absent j (omega arith) lt) invalid-IsFirst
  match-IsRead (some way) h = hit-IsRead way h

  pub read_and_update_sig-IsRead : IsRead t o (read_and_update_sig ghr t o s)
  unfolding read_and_update_sig
  read_and_update_sig-IsRead = match-IsRead (find_match t s) match-IsFirst

-- A page that is held is found, with its stored signature and the distance from its last offset.
held_hit :
    (ghr : GlobalRegister) (t a b way : ℕ) (s : SignatureTable)
    → IsHeld t a way s
    → read_and_update_sig ghr t b s ≡ some (touch_way way (hit_way b way s))
unfolding read_and_update_sig
held_hit ghr t a b way s h =
    let found : find_match t s ≡ some way =
      IsFirst-unique (λ w. s.valid w && s.tag w == t) 0 st_way (find_match t s) (some way)
        (find_first-IsFirst (λ w. s.valid w && s.tag w == t) st_way 0 st_way refl)
        (omega arith, h.inside, ground (arith, h.valid, h.tag), λ j lo lt. h.first j lt) in
    rw found refl

hit_delta :
    (b way : ℕ) (s : SignatureTable)
    → (touch_way way (hit_way b way s)).1.delta ≡ offset (s.last_offset way) b
hit_delta b way s =
    if_cases {A = SignatureTable × Reading} (λ u. u.1.delta ≡ offset (s.last_offset way) b)
      (not (eq_ℤ (offset (s.last_offset way) b) (pos 0))) (λ _. refl) (λ _. refl)

-- Where the ages of the ways are a ranking, `read_and_update_sig` finds a way, so no assertion fails,
-- and leaves a ranking. An access to the page at the offset b right after one at the offset a reads the
-- delta from a to b, whatever the global history is.
pub read_and_update_sig_lem :
    (ghr ghr' : GlobalRegister) (t a b : ℕ) (s : SignatureTable)
    → IsRanking st_way s.lru
    → (r r' : SignatureTable × Reading) × (read_and_update_sig ghr t a s ≡ some r)
      × IsRanking st_way r.0.lru
      × (read_and_update_sig ghr' t b r.0 ≡ some r')
      × (r'.1.delta ≡ offset a b)
read_and_update_sig_lem ghr ghr' t a b s ranking =
    elim (Option-cases (read_and_update_sig ghr t a s)) [
      | inl fails ↦ absurd (rw fails at (read_and_update_sig-IsRead ghr t a s ranking))
      | inr (r, e) ↦
          let (k, m, (way, held)) = to_read r e in
          (
            r,
            touch_way way (hit_way b way r.0),
            e,
            k,
            held_hit ghr' t a b way r.0 held,
            hit_delta b way r.0 ∙ ap (λ x. offset x b) held.last,
          )
    ]
  where
    to_read :
        (r : SignatureTable × Reading)
        → read_and_update_sig ghr t a s ≡ some r
        → IsRanking st_way r.0.lru × Moves r.1 × ((way : ℕ) × IsHeld t a way r.0)
    to_read r e = rw e at (read_and_update_sig-IsRead ghr t a s ranking)
