-- ===== src/Spp/SignatureTable.antt =====
-- ChampSim/prefetcher/spp_dev/spp_dev.h and spp_dev.cc: SIGNATURE_TABLE. ST_SET is 1, so the set is
-- always 0 and the arrays are over the ways.
pub mod Laws
use cs230_branch_predictor.Prelude.{
  ℕ, ◌+◌, ◌-◌, Bool, true, false, not, ltb, ◌==◌, ◌&&◌, Option, none, some, ◌>>=◌, if◌then◌else◌,
  update,
}
use cs230_branch_predictor.Prelude.Search.{find_first}
use cs230_branch_predictor.Prelude.Int.{ℤ, pos, sub_ℕ, eq_ℤ}
use cs230_branch_predictor.IpStride.{offset}
use cs230_branch_predictor.Spp.{st_way, max_ghr_entry, next_sig}
use cs230_branch_predictor.Spp.GlobalRegister.{GlobalRegister, check_entry}

pub record SignatureTable : Type 0 where
  pub valid : ℕ → Bool
  pub tag : ℕ → ℕ
  pub last_offset : ℕ → ℕ
  pub sig : ℕ → ℕ
  pub lru : ℕ → ℕ

-- The constructor.
abbrev pub start : SignatureTable
start = record {
  valid = λ way. false;
  tag = λ way. 0;
  last_offset = λ way. 0;
  sig = λ way. 0;
  lru = λ way. way;
}

-- What `read_and_update_sig` leaves in its references, which are 0 before it.
pub record Reading : Type 0 where
  pub last_sig : ℕ
  pub curr_sig : ℕ
  pub delta : ℤ

-- A hit of the way `match`.
abbrev pub hit_way : ℕ → ℕ → SignatureTable → SignatureTable × Reading
hit_way page_offset match s =
    let last_sig = s.sig match in
    let delta = offset (s.last_offset match) page_offset in
    if not (eq_ℤ delta (pos 0))
    then (
      record s {
        sig = update s.sig match (next_sig last_sig delta);
        last_offset = update s.last_offset match page_offset;
      },
      record { last_sig = last_sig; curr_sig = next_sig last_sig delta; delta = delta },
    )
    else (s, record { last_sig = 0; curr_sig = 0; delta = delta })

-- A miss takes an invalid way, or the one used least recently.
abbrev pub new_way : ℕ → ℕ → ℕ → SignatureTable → SignatureTable
new_way partial_page page_offset match s = record s {
  valid = update s.valid match true;
  tag = update s.tag match partial_page;
  sig = update s.sig match 0;
  last_offset = update s.last_offset match page_offset;
}

abbrev pub replaced_way : ℕ → ℕ → ℕ → SignatureTable → SignatureTable
replaced_way partial_page page_offset match s = record s {
  tag = update s.tag match partial_page;
  sig = update s.sig match 0;
  last_offset = update s.last_offset match page_offset;
}

-- The signature of the new way, from the global history where it has the offset.
abbrev pub bootstrap : GlobalRegister → ℕ → ℕ → SignatureTable → SignatureTable × Reading
bootstrap ghr page_offset match s =
    let found = check_entry page_offset ghr in
    if ltb found max_ghr_entry
    then (let sig = next_sig (ghr.entry found).sig (ghr.entry found).delta in
        (
          record s { sig = update s.sig match sig },
          record { last_sig = 0; curr_sig = sig; delta = pos 0 },
        ))
    else (s, record { last_sig = 0; curr_sig = 0; delta = pos 0 })

-- The ages below that of the way grow by one, and that of the way becomes 0.
abbrev pub promote : ℕ → ℕ → (ℕ → ℕ) → ℕ → ℕ
promote ways match lru way =
    if way == match
    then 0
    else if ltb way ways && ltb (lru way) (lru match)
    then lru way + 1
    else lru way

abbrev pub touch_way : ℕ → SignatureTable × Reading → SignatureTable × Reading
touch_way match (s, r) = (record s { lru = promote st_way match s.lru }, r)

abbrev pub find_match : ℕ → SignatureTable → Option ℕ
find_match partial_page s = find_first (λ w. s.valid w && s.tag w == partial_page) st_way 0

abbrev pub find_invalid : SignatureTable → Option ℕ
find_invalid s = find_first (λ w. not (s.valid w)) st_way 0

abbrev pub find_oldest : SignatureTable → Option ℕ
find_oldest s = find_first (λ w. s.lru w == st_way - 1) st_way 0

-- The second and third search, which run when the one before found nothing.
abbrev pub on_oldest :
    GlobalRegister → ℕ → ℕ → SignatureTable → Option ℕ → Option (SignatureTable × Reading)
on_oldest ghr partial_page page_offset s none = none
on_oldest ghr partial_page page_offset s (some way) =
    some
      (touch_way way (bootstrap ghr page_offset way (replaced_way partial_page page_offset way s)))

abbrev pub on_invalid :
    GlobalRegister → ℕ → ℕ → SignatureTable → Option ℕ → Option (SignatureTable × Reading)
on_invalid ghr partial_page page_offset s none =
    on_oldest ghr partial_page page_offset s (find_oldest s)
on_invalid ghr partial_page page_offset s (some way) =
    some (touch_way way (bootstrap ghr page_offset way (new_way partial_page page_offset way s)))

abbrev pub on_match :
    GlobalRegister → ℕ → ℕ → SignatureTable → Option ℕ → Option (SignatureTable × Reading)
on_match ghr partial_page page_offset s none =
    on_invalid ghr partial_page page_offset s (find_invalid s)
on_match ghr partial_page page_offset s (some way) =
    some (touch_way way (hit_way page_offset way s))

unfoldable pub read_and_update_sig :
    GlobalRegister → ℕ → ℕ → SignatureTable → Option (SignatureTable × Reading)
read_and_update_sig ghr partial_page page_offset s =
    on_match ghr partial_page page_offset s (find_match partial_page s)
